-- ===== src/Random/Reads.antt =====
-- src/random.c: `read_all` gathers what the descriptor gives, whatever the sizes of the pieces.
use libsolcompat.Common.{
  ℕ, zero, suc, ◌-◌, ◌≤◌, ◌<◌, ◌≡◌, refl, sym, ap, ◌∙◌, List, [], ◌∷◌, ◌++◌, length, take, drop,
  leb, arith, Bool-cases, inl, inr, take-append_le, drop-append_le, length-append, length-drop,
}
use libsolcompat.Random.{Reply, interrupted, failed, closed, received, filled, read_all}

-- All bytes that the descriptor gives.
abbrev pub stream : List Reply → List ℕ
stream [] = []
stream (received bytes ∷ replies) = bytes ++ stream replies
stream (_ ∷ replies) = stream replies

-- No read fails or reaches the end.
abbrev pub IsOpen : List Reply → Type 0
IsOpen [] = Unit
IsOpen (interrupted ∷ replies) = IsOpen replies
IsOpen (received (b ∷ bytes) ∷ replies) = IsOpen replies
IsOpen (_ ∷ replies) = ⊥

take_past :
    (xs ys : List ℕ) (n : ℕ) → length xs ≤ n → take n (xs ++ ys) ≡ xs ++ take (n - length xs) ys
take_past [] ys n h = ap (λ (k : ℕ). take k ys) (omega arith)
take_past (x ∷ xs) ys zero h = absurd (omega arith)
take_past (x ∷ xs) ys (suc n) h =
    let ih = take_past xs ys n (omega arith) in
    let less : suc n - length (x ∷ xs) ≡ n - length xs = omega arith in
    rw (less) (ap (λ (u : List ℕ). x ∷ u) ih)

drop_past : (xs ys : List ℕ) (n : ℕ) → length xs ≤ n → drop n (xs ++ ys) ≡ drop (n - length xs) ys
drop_past [] ys n h = ap (λ (k : ℕ). drop k ys) (omega arith)
drop_past (x ∷ xs) ys zero h = absurd (omega arith)
drop_past (x ∷ xs) ys (suc n) h =
    drop_past xs ys n (omega arith) ∙ ap (λ (k : ℕ). drop k ys) (omega arith)

IsOpen-received :
    (bytes : List ℕ) (replies : List Reply)
    → 0 < length bytes
    → IsOpen replies
    → IsOpen (received bytes ∷ replies)
IsOpen-received [] replies h o = absurd (omega arith)
IsOpen-received (b ∷ bytes) replies h o = o

-- From a descriptor that stays open and gives `len` bytes or more, in pieces of any size and with
-- any interruptions, `read_all` fills the buffer with exactly the first `len` bytes and leaves the
-- others to be read.
pub read_all-take :
    (replies : List Reply) (len : ℕ)
    → IsOpen replies
    → len ≤ length (stream replies)
    → (rest : List Reply) × (read_all replies len ≡ filled (take len (stream replies)) rest)
      × (stream rest ≡ drop len (stream replies))
      × IsOpen rest
unfolding read_all
read_all-take [] zero o h = ([], refl, refl, o)
read_all-take [] (suc len) o h = absurd (omega arith)
read_all-take (r ∷ replies) zero o h = (r ∷ replies, refl, refl, o)
read_all-take (interrupted ∷ replies) (suc len) o h = read_all-take replies (suc len) o h
read_all-take (failed ∷ replies) (suc len) o h = absurd o
read_all-take (closed ∷ replies) (suc len) o h = absurd o
read_all-take (received [] ∷ replies) (suc len) o h = absurd o
read_all-take (received (b ∷ bytes) ∷ replies) (suc len) o h =
    elim (Bool-cases (leb (length bytes) len)) [
      | inl all ↦
          let len_append = length-append {0} bytes (stream replies) in
          let (rest, e, s, stays) =
            read_all-take replies (len - length bytes) o (omega (arith, len_append)) in
          (
            rest,
            rw (all, e, take_past bytes (stream replies) len (ground arith)) refl,
            s ∙ sym (drop_past bytes (stream replies) len (ground arith)),
            stays,
          )
      | inr more ↦ (
        received (drop len bytes) ∷ replies,
        rw (more, take-append_le len bytes (stream replies) (ground arith)) refl,
        sym (drop-append_le len bytes (stream replies) (ground arith)),
        IsOpen-received (drop len bytes) replies (ground (arith, length-drop len bytes)) o,
      )
    ]
