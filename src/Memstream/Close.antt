-- ===== src/Memstream/Close.antt =====
-- src/memstream.c: what the caller has in memory when a stream is closed.
use libsolcompat.Common.{
  ℕ, zero, suc, ◌-◌, ◌<◌, ◌≡◌, refl, ◌∙◌, ap, ap₂, true, Option, some, List, [], ◌∷◌, ◌++◌, length,
  drop, replicate, arith, length-replicate,
}
use libsolcompat.Memstream.{
  Stream, Target, fixed, growing, Entry, State, put, memstream_remove, fread_into, copy_back,
  new_buffer, sync_at, memstream_sync, real_fclose, mode_w, Answers, fmemopen, open_memstream,
  close_entry, then_close, close_found, fclose, tmpfile_stream,
}
use libsolcompat.Memstream.Sync.{new_buffer_lem, image, copy_back_lem}
use libsolcompat.Memstream.Session.{
  Action, then_do, run, bytes_written, IsOpen, IsWritten, run-Synced, find_first, put_self,
}

abbrev pub opens : ℕ → ℕ → Answers
opens fp fd = record { opened = some (fp, fd); entry_made = true }

-- A stream from its opening to `fclose`, whose `malloc` answers a block.
abbrev pub session : ℕ → ℕ → List Action → State → Option State
session fp fill acts st = then_do (run fp acts st) (fclose fp (some fill))

close_found_lem :
    (fp : ℕ) (target : Target) (es : List Entry) (malloc : Option ℕ) (st : State)
    → st.memstream_list ≡ record { fp = fp; target = target } ∷ es
    → fclose fp malloc st
      ≡ then_close fp (close_entry fp target malloc (record st { memstream_list = es }))
unfolding fclose
close_found_lem fp target es malloc st e =
    ap (λ (r : Option Entry × List Entry). close_found fp malloc r st)
      (ap (memstream_remove fp) e ∙ (find_first fp target es).1)

abbrev pub Outputs : State → ℕ → List ℕ → List Entry → Type 0
Outputs st ptr written es =
    (st.outputs ptr ≡ some (written ++ (0 ∷ [])))
    × (st.sizes ptr ≡ length written)
    × (st.memstream_list ≡ es)

close_growing :
    (fp ptr fill : ℕ) (es : List Entry) (written : List ℕ) (st : State)
    → IsOpen fp (growing ptr) es written st
    → (last : State) × (fclose fp (some fill) st ≡ some last) × Outputs last ptr written es
unfolding close_entry memstream_sync sync_at
close_growing fp ptr fill es written st o =
    let synced = record st {
      memstream_list = es;
      outputs = put st.outputs ptr (some (new_buffer written (length written) fill));
      sizes = put st.sizes ptr (length written);
    } in
    (
      real_fclose fp synced,
      close_found_lem fp (growing ptr) es (some fill) st (o.registered)
          ∙ rw (o.position, o.content) refl,
      (
        put_self st.outputs ptr (some (new_buffer written (length written) fill))
            ∙ ap some (new_buffer_lem written fill),
        put_self st.sizes ptr (length written),
        refl,
      ),
    )

close_fixed :
    (fp buf size fill : ℕ) (es : List Entry) (rest written : List ℕ) (st : State)
    → IsWritten fp (fixed buf size) es rest written st
    → (last : State) × (fclose fp (some fill) st ≡ some last)
      × (last.buffers buf ≡ image written size rest)
      × (last.memstream_list ≡ es)
unfolding close_entry memstream_sync sync_at
close_fixed fp buf size fill es rest written st (o, h) =
    let (earlier, short, e) = h in
    let copied : copy_back written (length written) size (st.buffers buf)
        ≡ image written size rest =
      ap (copy_back written (length written) size) e
      ∙ copy_back_lem earlier written rest size short in
    let synced = record st {
      memstream_list = es;
      buffers = put st.buffers buf (copy_back written (length written) size (st.buffers buf));
    } in
    (
      real_fclose fp synced,
      close_found_lem fp (fixed buf size) es (some fill) st (o.registered)
          ∙ rw (o.position, o.content) refl,
      put_self st.buffers buf (copy_back written (length written) size (st.buffers buf)) ∙ copied,
      refl,
    )

-- From every state, when open_memstream succeeds and the stream is written and flushed in any
-- order, whichever allocations of the flushes fail, and fclose gets its memory, then *ptr is the
-- bytes written and a zero byte, *sizeloc their number, and the registry is what it was.
pub open_memstream-fclose :
    (fp fd ptr fill : ℕ) (acts : List Action) (st : State)
    → (last : State) × (session fp fill acts (open_memstream (opens fp fd) ptr st).1 ≡ some last)
      × Outputs last ptr (bytes_written acts) (st.memstream_list)
unfolding open_memstream
open_memstream-fclose fp fd ptr fill acts st =
    let opened = (open_memstream (opens fp fd) ptr st).1 in
    let file = put_self st.streams fp (tmpfile_stream fd) in
    let start : IsOpen fp (growing ptr) st.memstream_list [] opened = record {
      registered = refl;
      content = ap (λ (s : Stream). s.content) file;
      position = ap (λ (s : Stream). s.position) file;
    } in
    let (before, e, w) =
      run-Synced acts fp (growing ptr) (st.memstream_list) [] [] opened (start, tt) in
    let (last, e', out) =
      close_growing fp ptr fill (st.memstream_list) (bytes_written acts) before (w.0) in
    (last, rw e e', out)

-- From every state, when fmemopen opens a buffer with a `size` above 0 for writing, and the
-- stream is written and flushed in any order and closed, the buffer holds the first bytes written,
-- as many as fit, then zeros up to `size`, and what is behind is unchanged, as is the registry.
pub fmemopen-fclose :
    (fp fd buf size fill : ℕ) (acts : List Action) (st : State)
    → 0 < size
    → (last : State) × (session fp fill acts (fmemopen (opens fp fd) (some buf) size mode_w st).1
        ≡ some last)
      × (last.buffers buf ≡ image (bytes_written acts) size (drop size (st.buffers buf)))
      × (last.memstream_list ≡ st.memstream_list)
unfolding fmemopen
fmemopen-fclose fp fd buf zero fill acts st p = absurd (omega arith)
fmemopen-fclose fp fd buf (suc n) fill acts st p =
    let size = suc n in
    let rest = drop size (st.buffers buf) in
    let opened = (fmemopen (opens fp fd) (some buf) size mode_w st).1 in
    let file = put_self st.streams fp (tmpfile_stream fd) in
    let start : IsOpen fp (fixed buf size) st.memstream_list [] opened = record {
      registered = refl;
      content = ap (λ (s : Stream). s.content) file;
      position = ap (λ (s : Stream). s.position) file;
    } in
    let size_left : size ≡ size - 0 = omega arith in
    let cleared : opened.buffers buf ≡ image [] size rest =
      put_self st.buffers buf (fread_into (replicate size 0) (st.buffers buf))
      ∙ ap₂ (λ (k l : ℕ). replicate k 0 ++ drop l (st.buffers buf)) size_left
          (length-replicate {0} {A = ℕ} size 0) in
    let (before, e, w) =
      run-Synced acts fp (fixed buf size) (st.memstream_list) rest [] opened
        (start, ([], omega arith, cleared)) in
    let (last, e', held, registry) =
      close_fixed fp buf size fill (st.memstream_list) rest (bytes_written acts) before w in
    (last, rw e e', held, registry)
