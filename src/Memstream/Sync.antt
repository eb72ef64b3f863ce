-- ===== src/Memstream/Sync.antt =====
-- src/memstream.c: what a synchronisation leaves in the caller's memory.
use libsolcompat.Common.{
  ℕ, zero, suc, ◌+◌, ◌-◌, ◌≤◌, ◌<◌, ◌≡◌, refl, ◌∙◌, ap, min, inl, inr, List, [], ◌∷◌, ◌++◌, length,
  take, drop, replicate, set, ltb, arith, Bool-cases, length-take,
}
use libsolcompat.Memstream.{copy_back, new_buffer}

set_at : (xs ys : List ℕ) (u v : ℕ) → set (xs ++ (u ∷ ys)) (length xs) v ≡ xs ++ (v ∷ ys)
set_at [] ys u v = refl
set_at (x ∷ xs) ys u v = ap (λ (l : List ℕ). x ∷ l) (set_at xs ys u v)

drop_block : (n k fill : ℕ) → k ≡ suc n → drop n (replicate k fill) ≡ fill ∷ []
drop_block n zero fill e = absurd (omega arith)
drop_block zero (suc k) fill e = let none_left : k ≡ 0 = omega arith in rw none_left refl
drop_block (suc n) (suc k) fill e = drop_block n k fill (omega arith)

pub take_all : (xs : List ℕ) → take (length xs) xs ≡ xs
take_all [] = refl
take_all (x ∷ xs) = ap (λ (l : List ℕ). x ∷ l) (take_all xs)

-- The new block has the bytes and a zero byte.
pub new_buffer_lem :
    (written : List ℕ) (fill : ℕ) → new_buffer written (length written) fill ≡ written ++ (0 ∷ [])
unfolding new_buffer
new_buffer_lem written fill =
    rw (take_all written, drop_block (length written) (length written + 1) fill (omega arith))
      (set_at written [] fill 0)

-- A buffer of `size` bytes that holds what fits of the bytes, and zeros; behind it is other memory.
abbrev pub image : List ℕ → ℕ → List ℕ → List ℕ
image written size rest = take size written ++ (replicate (size - length written) 0 ++ rest)

drop-replicate :
    (n r : ℕ) (rest : List ℕ) → n ≤ r → drop n (replicate r 0 ++ rest) ≡ replicate (r - n) 0 ++ rest
drop-replicate zero r rest h = ap (λ (k : ℕ). replicate k 0 ++ rest) (omega arith)
drop-replicate (suc n) zero rest h = absurd (omega arith)
drop-replicate (suc n) (suc r) rest h =
    drop-replicate n r rest (omega arith) ∙ ap (λ (k : ℕ). replicate k 0 ++ rest) (omega arith)

drop_past :
    (xs : List ℕ) (n r : ℕ) (rest : List ℕ)
    → length xs ≤ n
    → n ≤ length xs + r
    → drop n (xs ++ (replicate r 0 ++ rest)) ≡ replicate (length xs + r - n) 0 ++ rest
drop_past [] n r rest h k =
    drop-replicate n r rest (omega arith) ∙ ap (λ (k : ℕ). replicate k 0 ++ rest) (omega arith)
drop_past (x ∷ xs) zero r rest h k = absurd (omega arith)
drop_past (x ∷ xs) (suc n) r rest h k =
    drop_past xs n r rest (omega arith) (omega arith)
    ∙ ap (λ (k : ℕ). replicate k 0 ++ rest) (omega arith)

take-min : (k n : ℕ) (xs : List ℕ) → k ≡ min (length xs) n → take k xs ≡ take n xs
take-min zero zero xs e = refl
take-min zero (suc n) [] e = refl
take-min zero (suc n) (x ∷ xs) e = absurd (omega arith)
take-min (suc k) zero xs e = absurd (omega arith)
take-min (suc k) (suc n) [] e = refl
take-min (suc k) (suc n) (x ∷ xs) e = ap (λ (l : List ℕ). x ∷ l) (take-min k n xs (omega arith))

set_zero :
    (xs rest : List ℕ) (k r : ℕ)
    → k ≡ length xs
    → 0 < r
    → set (xs ++ (replicate r 0 ++ rest)) k 0 ≡ xs ++ (replicate r 0 ++ rest)
set_zero xs rest k zero e p = absurd (omega arith)
set_zero xs rest k (suc r) e p =
    ap (λ (i : ℕ). set (xs ++ (0 ∷ (replicate r 0 ++ rest))) i 0) e
    ∙ set_at xs (replicate r 0 ++ rest) 0 0

-- A later synchronisation of more bytes replaces an earlier one.
pub copy_back_lem :
    (earlier written rest : List ℕ) (size : ℕ)
    → length earlier ≤ length written
    → copy_back written (length written) size (image earlier size rest) ≡ image written size rest
unfolding copy_back
copy_back_lem earlier written rest size h =
    let copied : take (min (length written) size) written ≡ take size written =
      take-min (min (length written) size) size written refl in
    let past : drop (length (take size written)) (image earlier size rest)
        ≡ replicate (size - length written) 0 ++ rest =
      drop_past (take size earlier) (length (take size written)) (size - length earlier) rest
        (omega (arith, length-take size earlier, length-take size written))
        (omega (arith, length-take size earlier, length-take size written))
      ∙ ap (λ (k : ℕ). replicate k 0 ++ rest)
          (omega (arith, length-take size earlier, length-take size written)) in
    let zeros = size - length written in
    rw (copied, past)
      (elim (Bool-cases (ltb (min (length written) size) size)) [
        | inl room ↦ rw room (
            set_zero (take size written) rest (min (length written) size) zeros
              (omega (arith, length-take size written)) (ground (arith, room)))
        | inr full ↦ rw full refl
      ])
