-- ===== src/CxaAtexit/Order.antt =====
-- What `__cxa_finalize` runs, and what it leaves in the table.
use mathlib.Core.List.{reverse, reverse-append, map-append}
use libsolcompat.Common.{
  ap₂, ℕ, zero, suc, ◌+◌, ◌≤◌, ◌<◌, ◌≡◌, refl, ◌∙◌, sym, ap, Bool, true, false, not, ◌&&◌, List, [],
  ◌∷◌, ◌++◌, arith, length, get_elem?, map, append_assoc, append-nil, length-append, length-set,
  some, if◌then◌else◌, take, drop, set, All, Bool-cases, inl, inr, get_elem?_total, take-append_le,
  drop-append_le, take-set, drop-set, take-suc, drop-suc, take-length,
}
use libsolcompat.CxaAtexit.{
  Entry, Registry, Registration, consumed, call, is_live, register_all, finalize_loop, cxa_finalize,
}
use libsolcompat.CxaAtexit.Table.{Extends, register_all-Extends, All-append}

-- The entries that a test selects.
abbrev pub select : (Entry → Bool) → List Entry → List Entry
select p [] = []
select p (e ∷ es) = if p e then e ∷ select p es else select p es

-- The entry after a finalization that covers it: the same, and in use if it was in use and is not
-- one of those that are run.
abbrev pub settle : ℕ → Entry → Entry
settle d e = record e { in_use = e.in_use && not (is_live d e) }

settle_live : (d : ℕ) (e : Entry) → is_live d e ≡ true → settle d e ≡ consumed e
settle_live d e l = ap (λ (b : Bool). record e { in_use = b }) (and_false e.in_use (is_live d e) l)
  where
    and_false : (a b : Bool) → b ≡ true → (a && not b) ≡ false
    and_false a b h = ground arith

settle_dead : (d : ℕ) (e : Entry) → is_live d e ≡ false → settle d e ≡ e
settle_dead d e l = ap (λ (b : Bool). record e { in_use = b }) (and_true e.in_use (is_live d e) l)
  where
    and_true : (a b : Bool) → b ≡ false → (a && not b) ≡ a
    and_true a b h = ground arith

select-append :
    (p : Entry → Bool) (xs ys : List Entry) → select p (xs ++ ys) ≡ select p xs ++ select p ys
select-append p [] ys = refl
select-append p (x ∷ xs) ys = elim (Bool-cases (p x)) [
  | inl t ↦ rw t (ap (λ (t : List Entry). x ∷ t) (select-append p xs ys))
  | inr f ↦ rw f (select-append p xs ys)
]

-- The calls for the entries below `k`, last first.
abbrev calls_below : ℕ → List Entry → ℕ → List (ℕ × ℕ)
calls_below d es k = reverse (map call (select (is_live d) (take k es)))

calls_below-suc :
    (d : ℕ) (es : List Entry) (k : ℕ) (e : Entry)
    → get_elem? es k ≡ some e
    → calls_below d es (suc k)
      ≡ (if is_live d e then call e ∷ calls_below d es k else calls_below d es k)
calls_below-suc d es k e h = elim (Bool-cases (is_live d e)) [
  | inl t ↦
      rw (take-suc k es e h, select-append (is_live d) (take k es) (e ∷ []), t)
        (ap reverse (map-append call (select (is_live d) (take k es)) (e ∷ []))
          ∙ reverse-append (map call (select (is_live d) (take k es))) (call e ∷ []))
  | inr f ↦
      rw (take-suc k es e h, select-append (is_live d) (take k es) (e ∷ []), f)
        (ap (λ (t : List Entry). reverse (map call t))
          (append-nil (select (is_live d) (take k es))))
]

settle_last :
    (d : ℕ) (xs : List Entry) (e e' : Entry) (ys : List Entry)
    → settle d e ≡ e'
    → map (settle d) (xs ++ (e ∷ [])) ++ ys ≡ map (settle d) xs ++ (e' ∷ ys)
settle_last d [] e e' ys h = ap (λ (t : Entry). t ∷ ys) h
settle_last d (x ∷ xs) e e' ys h =
    ap (λ (t : List Entry). settle d x ∷ t) (settle_last d xs e e' ys h)

-- The table and the calls that the loop below `k` returns.
record Finalizes (d k : ℕ) (s : Registry) (calls : List (ℕ × ℕ)) (result : Registry × List (ℕ × ℕ))
    : Type 0 where
  made : result.1 ≡ calls ++ calls_below d s.entries k
  more : List Entry
  table : result.0.entries ≡ map (settle d) (take k s.entries) ++ (drop k s.entries ++ more)
  in_use : All (λ e. e.in_use ≡ true) more

module _ (run : ℕ → ℕ → List Registration) where
  -- The entry at `k` is left alone.
  skip :
      (d k : ℕ) (s : Registry) (calls : List (ℕ × ℕ)) (e : Entry) (result : Registry × List (ℕ × ℕ))
      → get_elem? s.entries k ≡ some e
      → is_live d e ≡ false
      → Finalizes d k s calls result
      → Finalizes d (suc k) s calls result
  skip d k s calls e result h f r = record {
    made = rw (calls_below-suc d s.entries k e h, f) r.made;
    more = r.more;
    table =
        r.table
        ∙ ap (λ (t : List Entry). map (settle d) (take k s.entries) ++ (t ++ r.more))
            (drop-suc k s.entries e h)
        ∙ sym (
            settle_last d (take k s.entries) e e (drop (suc k) s.entries ++ r.more)
              (settle_dead d e f))
        ∙ ap (λ (t : List Entry). map (settle d) t ++ (drop (suc k) s.entries ++ r.more))
            (sym (take-suc k s.entries e h));
    in_use = r.in_use;
  }

  -- The entry at `k` is run; the loop goes on with a table in which it is consumed, and which
  -- the destructor may have extended.
  ran :
      (d k : ℕ) (s t : Registry) (calls : List (ℕ × ℕ)) (e : Entry)
      (result : Registry × List (ℕ × ℕ))
      → get_elem? s.entries k ≡ some e
      → is_live d e ≡ true
      → k < length s.entries
      → (x : Extends (record s { entries = set s.entries k (consumed e) }) t)
      → Finalizes d k t (calls ++ (call e ∷ [])) result
      → Finalizes d (suc k) s calls result
  ran d k s t calls e result h l lt x r =
      let es = s.entries in
      let marked : List Entry = set es k (consumed e) in
      let len : length marked ≡ length es = length-set es k (consumed e) in
      let front : take k t.entries ≡ take k es =
        ap (take k) x.appended
        ∙ take-append_le k marked x.more (omega arith)
        ∙ take-set k es (consumed e) in
      let back : drop k t.entries ≡ consumed e ∷ (drop (suc k) es ++ x.more) =
        ap (drop k) x.appended
        ∙ drop-append_le k marked x.more (omega arith)
        ∙ ap (λ (u : List Entry). u ++ x.more) (drop-set k es (consumed e) lt) in
      record {
        made =
            r.made
            ∙ ap
                (λ (u : List Entry).
                  (calls ++ (call e ∷ [])) ++ reverse (map call (select (is_live d) u)))
                front
            ∙ append_assoc calls (call e ∷ []) (calls_below d es k)
            ∙ ap (λ (u : List (ℕ × ℕ)). calls ++ u) (sym (rw (calls_below-suc d es k e h, l)));
        more = x.more ++ r.more;
        table =
            r.table
            ∙ ap₂ (λ (u v : List Entry). map (settle d) u ++ (v ++ r.more)) front back
            ∙ sym (
                settle_last d (take k es) e (consumed e) ((drop (suc k) es ++ x.more) ++ r.more)
                  (settle_live d e l))
            ∙ ap₂ (λ (u v : List Entry). map (settle d) u ++ v) (sym (take-suc k es e h))
                (append_assoc (drop (suc k) es) x.more r.more);
        in_use = All-append _ x.more r.more x.in_use r.in_use;
      }

  loop_dead :
      (d k : ℕ) (s : Registry) (calls : List (ℕ × ℕ)) (e : Entry)
      → get_elem? s.entries k ≡ some e
      → is_live d e ≡ false
      → finalize_loop run d s (suc k) calls ≡ finalize_loop run d s k calls
  unfolding finalize_loop
  loop_dead d k s calls e h f = ground arith

  loop_live :
      (d k : ℕ) (s : Registry) (calls : List (ℕ × ℕ)) (e : Entry)
      → get_elem? s.entries k ≡ some e
      → is_live d e ≡ true
      → finalize_loop run d s (suc k) calls
        ≡ finalize_loop run d
            (register_all
              (record s { entries = set s.entries k (consumed e) })
              (run e.destructor_func e.object_arg))
            k
            (calls ++ (call e ∷ []))
  unfolding finalize_loop
  loop_live d k s calls e h f = ground arith

  loop_lem :
      (d k : ℕ) (s : Registry) (calls : List (ℕ × ℕ))
      → k ≤ length s.entries
      → Finalizes d k s calls (finalize_loop run d s k calls)
  unfolding finalize_loop
  loop_lem d zero s calls h = record {
    made = sym (append-nil calls);
    more = [];
    table = sym (append-nil s.entries);
    in_use = tt;
  }
  loop_lem d (suc k) s calls h =
      let (e, ee) = get_elem?_total s.entries k h in
      elim (Bool-cases (is_live d e)) [
        | inr dead ↦
            rw (loop_dead d k s calls e ee dead)
              (skip d k s calls e _ ee dead (loop_lem d k s calls (omega arith)))
        | inl live ↦
            let marked = record s { entries = set s.entries k (consumed e) } in
            let rs = run e.destructor_func e.object_arg in
            let x = register_all-Extends rs marked in
            let len : length (register_all marked rs).entries ≡ length s.entries + length x.more =
              ap length x.appended
              ∙ length-append (set s.entries k (consumed e)) x.more
              ∙ ap (λ (n : ℕ). n + length x.more) (length-set s.entries k (consumed e)) in
            rw (loop_live d k s calls e ee live) (
              ran d k s (register_all marked rs) calls e _ ee live h x (
                loop_lem d k (register_all marked rs) (calls ++ (call e ∷ []))
                  (omega (arith, len))))
      ]

  -- Whatever the destructors register while they run, `__cxa_finalize` calls exactly the
  -- destructors that were in use for the handle at its start (for any handle, where it is NULL),
  -- once each and in the reverse of the order of registration.
  pub cxa_finalize-reverse :
      (s : Registry) (d : ℕ)
      → (cxa_finalize run s d).1 ≡ reverse (map call (select (is_live d) s.entries))
  unfolding cxa_finalize
  cxa_finalize-reverse s d =
      (loop_lem d (length s.entries) s [] (omega arith)).made
      ∙ ap (λ (u : List Entry). reverse (map call (select (is_live d) u))) (take-length s.entries)
