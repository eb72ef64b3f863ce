-- ===== src/Random/Tests.antt =====
-- Concrete runs of the random number functions.
use libsolcompat.Common.{
  ℕ, ◌+◌, ◌*◌, ◌^◌, ◌<◌, ◌≡◌, refl, some, List, [], ◌∷◌, arith, take, drop, ltb, if◌then◌else◌,
}
use libsolcompat.Random.{
  Reply, interrupted, received, filled, read_all, rejection_bound, uniform_loop, arc4random_uniform,
}
use libsolcompat.Random.Reads.{stream, IsOpen, read_all-take}
use libsolcompat.Random.Uniform.{IsFirstAccepted, arc4random_uniform-IsFirstAccepted}

abbrev replies : List Reply
replies = received (1 ∷ 2 ∷ []) ∷ interrupted ∷ received (3 ∷ 4 ∷ 5 ∷ []) ∷ []

read_all-take_example :
    (rest : List Reply) × (read_all replies 3 ≡ filled (take 3 (stream replies)) rest)
    × (stream rest ≡ drop 3 (stream replies))
    × IsOpen rest
read_all-take_example = read_all-take replies 3 tt (omega arith)

-- The first draw is rejected for the bound 3, since 2³² is one more than a multiple of it.
abbrev draws : ℕ → ℕ
draws i = if ltb i 1 then 0 else 11

abbrev three : ℕ
three = 3

arc4random_uniform-IsFirstAccepted_example :
    (r : ℕ) × (arc4random_uniform draws three 2 ≡ some r)
    × (r < three)
    × IsFirstAccepted draws three 0 r
    × ((rounds : ℕ) × (0 < rounds) × (2 ^ 32 ≡ rejection_bound three + rounds * three))
arc4random_uniform-IsFirstAccepted_example =
    arc4random_uniform-IsFirstAccepted draws three 1 (omega arith) (omega arith) (omega arith)

second_draw : arc4random_uniform draws 3 2 ≡ some 2
unfolding arc4random_uniform uniform_loop
second_draw = refl
