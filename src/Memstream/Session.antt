-- ===== src/Memstream/Session.antt =====
-- src/memstream.c: a stream that is opened, written and flushed in any order, and closed.
use mathlib.Core.Path.{subst}
use libsolcompat.Common.{
  ℕ, zero, suc, ◌+◌, ◌-◌, ◌≤◌, ◌≡◌, refl, ◌∙◌, sym, ap, true, Option, none, some, List, [], ◌∷◌,
  ◌++◌, length, drop, ◌==◌, arith, length-append, append_assoc, append-nil,
}
use libsolcompat.Memstream.{
  Target, reads, fixed, growing, Entry, State, put, memstream_remove, memstream_find, copy_back,
  new_buffer, sync_at, memstream_sync, flush_found, fflush, fwrite,
}
use libsolcompat.Memstream.Sync.{take_all, image, copy_back_lem}

-- What is done with an open stream; a flush has the answer of `malloc`.
pub data Action : Type 0 where
  write : List ℕ → Action
  flush : Option ℕ → Action

abbrev pub act : ℕ → Action → State → Option State
act fp (write bytes) st = some (fwrite fp bytes st)
act fp (flush malloc) st = fflush fp malloc st

abbrev pub then_do : Option State → (State → Option State) → Option State
then_do none next = none
then_do (some st) next = next st

abbrev pub run : ℕ → List Action → State → Option State
run fp [] st = some st
run fp (a ∷ acts) st = then_do (act fp a st) (run fp acts)

abbrev pub bytes_written : List Action → List ℕ
bytes_written [] = []
bytes_written (write bytes ∷ acts) = bytes ++ bytes_written acts
bytes_written (flush malloc ∷ acts) = bytes_written acts

-- The entry of the stream is in front of the others, and its file has what was written.
pub record IsOpen (fp : ℕ) (target : Target) (es : List Entry) (written : List ℕ) (st : State)
    : Type 0 where
  pub registered : st.memstream_list ≡ record { fp = fp; target = target } ∷ es
  pub content : (st.streams fp).content ≡ written
  pub position : (st.streams fp).position ≡ some (length written)

-- The caller's fixed buffer holds what an earlier synchronisation has copied.
abbrev pub Holds : Target → List ℕ → List ℕ → State → Type 0
Holds reads rest written st = ⊥
Holds (growing ptr) rest written st = Unit
Holds (fixed buf size) rest written st =
    (earlier : List ℕ) × (length earlier ≤ length written)
    × (st.buffers buf ≡ image earlier size rest)

abbrev pub IsWritten : ℕ → Target → List Entry → List ℕ → List ℕ → State → Type 0
IsWritten fp target es rest written st =
    IsOpen fp target es written st × Holds target rest written st

pub put_self : {A : Type 0} (f : ℕ → A) (k : ℕ) (v : A) → put f k v k ≡ v
put_self f k v = let same : (k == k) ≡ true = ground arith in rw same refl

drop_over : (xs : List ℕ) (k : ℕ) → length xs ≤ k → drop k xs ≡ []
drop_over [] zero h = refl
drop_over [] (suc k) h = refl
drop_over (x ∷ xs) zero h = absurd (omega arith)
drop_over (x ∷ xs) (suc k) h = drop_over xs k (omega arith)

fwrite-IsOpen :
    (fp : ℕ) (target : Target) (es : List Entry) (written bytes : List ℕ) (st : State)
    → IsOpen fp target es written st
    → IsOpen fp target es (written ++ bytes) (fwrite fp bytes st)
unfolding fwrite
fwrite-IsOpen fp target es written bytes st o =
    let same : (fp == fp) ≡ true = ground arith in
    let gap : length written - length written ≡ 0 = omega arith in
    record {
      registered = o.registered;
      content =
          rw
            (
              same,
              o.position,
              o.content,
              take_all written,
              gap,
              drop_over written (length written + length bytes) (omega arith),
              append-nil bytes,
            )
            refl;
      position = rw (same, o.position) (ap some (sym (length-append {0} written bytes)));
    }

fwrite-Holds :
    (target : Target) (fp : ℕ) (rest written bytes : List ℕ) (st : State)
    → Holds target rest written st
    → Holds target rest (written ++ bytes) (fwrite fp bytes st)
unfolding fwrite
fwrite-Holds reads fp rest written bytes st h = elim h [ ]
fwrite-Holds (growing ptr) fp rest written bytes st h = tt
fwrite-Holds (fixed buf size) fp rest written bytes st (earlier, short, e) =
    (earlier, omega (arith, short, length-append {0} written bytes), e)

-- A synchronisation keeps the stream, and the fixed buffer then holds all that was written.
abbrev pub Synced : ℕ → Target → List Entry → List ℕ → List ℕ → Option State → Type 0
Synced fp target es rest written r =
    (st : State) × (r ≡ some st) × IsWritten fp target es rest written st

pub sync-Synced :
    (fp : ℕ) (target : Target) (es : List Entry) (rest written : List ℕ) (malloc : Option ℕ)
    (st : State)
    → IsWritten fp target es rest written st
    → Synced fp target es rest written (memstream_sync fp target malloc st)
unfolding memstream_sync sync_at
sync-Synced fp reads es rest written malloc st (o, h) = elim h [ ]
sync-Synced fp (growing ptr) es rest written none st (o, h) = (st, rw (o.position) refl, (o, h))
sync-Synced fp (growing ptr) es rest written (some fill) st (o, h) = (
  record st {
    outputs = put st.outputs ptr (some (new_buffer written (length written) fill));
    sizes = put st.sizes ptr (length written);
  },
  rw (o.position, o.content) refl,
  (record { registered = o.registered; content = o.content; position = o.position }, tt),
)
sync-Synced fp (fixed buf size) es rest written malloc st (o, h) =
    let (earlier, short, e) = h in
    let copied : copy_back written (length written) size (st.buffers buf)
        ≡ image written size rest =
      ap (copy_back written (length written) size) e
      ∙ copy_back_lem earlier written rest size short in
    (
      record st {
        buffers = put st.buffers buf (copy_back written (length written) size (st.buffers buf));
      },
      rw (o.position, o.content) refl,
      (
        record { registered = o.registered; content = o.content; position = o.position },
        (
          written,
          omega arith,
          put_self st.buffers buf (copy_back written (length written) size (st.buffers buf))
              ∙ copied,
        ),
      ),
    )

pub find_first :
    (fp : ℕ) (target : Target) (es : List Entry)
    → (memstream_find fp (record { fp = fp; target = target } ∷ es)
        ≡ some (record { fp = fp; target = target }))
      × (memstream_remove fp (record { fp = fp; target = target } ∷ es)
          ≡ (some (record { fp = fp; target = target }), es))
unfolding memstream_find memstream_remove
find_first fp target es =
    let same : (fp == fp) ≡ true = ground arith in (rw same refl, rw same refl)

act-Synced :
    (a : Action) (acts : List Action) (fp : ℕ) (target : Target) (es : List Entry)
    (rest written : List ℕ) (st : State)
    → IsWritten fp target es rest written st
    → (now : List ℕ) × (written ++ bytes_written (a ∷ acts) ≡ now ++ bytes_written acts)
      × Synced fp target es rest now (act fp a st)
unfolding fflush
act-Synced (write bytes) acts fp target es rest written st (o, h) = (
  written ++ bytes,
  sym (append_assoc written bytes (bytes_written acts)),
  (
    fwrite fp bytes st,
    refl,
    (fwrite-IsOpen fp target es written bytes st o, fwrite-Holds target fp rest written bytes st h),
  ),
)
act-Synced (flush malloc) acts fp target es rest written st (o, h) = (
  written,
  refl,
  subst
      (λ (found : Option Entry). Synced fp target es rest written (flush_found fp malloc found st))
      (sym (ap (memstream_find fp) (o.registered) ∙ (find_first fp target es).0))
      (sync-Synced fp target es rest written malloc st (o, h)),
)

pub run-Synced :
    (acts : List Action) (fp : ℕ) (target : Target) (es : List Entry) (rest written : List ℕ)
    (st : State)
    → IsWritten fp target es rest written st
    → Synced fp target es rest (written ++ bytes_written acts) (run fp acts st)
run-Synced [] fp target es rest written st w =
    subst (λ (u : List ℕ). Synced fp target es rest u (some st)) (sym (append-nil written))
      (st, refl, w)
run-Synced (a ∷ acts) fp target es rest written st w =
    let (now, same, (next, e, w')) = act-Synced a acts fp target es rest written st w in
    let (last, e', w'') = run-Synced acts fp target es rest now next w' in
    (last, rw e e', subst (λ (u : List ℕ). IsWritten fp target es rest u last) (sym same) w'')
