-- ===== src/Random/Uniform.antt =====
-- src/random.c: `arc4random_uniform` ends with the first draw that it accepts, and accepts a whole
-- number of rounds of the residues.
use native.Mathlib.Nat.{mod-lt, mod-add-div', suc-mul}
use libsolcompat.Common.{
  ℕ, zero, suc, ◌+◌, ◌-◌, ◌*◌, ◌/◌, ◌%◌, ◌^◌, ◌≤◌, ◌<◌, ◌≡◌, refl, some, leb, arith, Bool-cases,
  inl, inr, ◌==◌, ap,
}
use libsolcompat.Random.{rejection_bound, uniform_loop, arc4random_uniform}

-- `r` is the residue of the first draw from `i` on that is not rejected.
pub record IsFirstAccepted (draws : ℕ → ℕ) (upper_bound i r : ℕ) : Type 0 where
  pub place : ℕ
  pub from : i ≤ place
  pub accepted : rejection_bound upper_bound ≤ draws place
  pub earlier : (k : ℕ) → i ≤ k → k < place → draws k < rejection_bound upper_bound
  pub residue : r ≡ draws place % upper_bound

accept-IsFirstAccepted :
    (draws : ℕ → ℕ) (upper_bound i : ℕ)
    → rejection_bound upper_bound ≤ draws i
    → IsFirstAccepted draws upper_bound i (draws i % upper_bound)
accept-IsFirstAccepted draws u i h = record {
  place = i;
  from = omega arith;
  accepted = h;
  earlier = λ j a b. absurd (omega arith);
  residue = refl;
}

uniform_loop-IsFirstAccepted :
    (draws : ℕ → ℕ) (upper_bound k i : ℕ)
    → rejection_bound upper_bound ≤ draws (i + k)
    → (r : ℕ) × (uniform_loop draws upper_bound i (suc k) ≡ some r)
      × IsFirstAccepted draws upper_bound i r
unfolding uniform_loop
uniform_loop-IsFirstAccepted draws u zero i h =
    let here : i + 0 ≡ i = omega arith in
    let same : draws (i + 0) ≡ draws i = ap draws here in
    let good : rejection_bound u ≤ draws i = omega arith in
    (draws i % u, ground (arith, good), accept-IsFirstAccepted draws u i good)
uniform_loop-IsFirstAccepted draws u (suc k) i h =
    elim (Bool-cases (leb (rejection_bound u) (draws i))) [
      | inl good ↦ (
        draws i % u,
        ground (arith, good),
        accept-IsFirstAccepted draws u i (ground (arith, good)),
      )
      | inr bad ↦
          let next : i + 1 + k ≡ i + suc k = omega arith in
          let same : draws (i + 1 + k) ≡ draws (i + suc k) = ap draws next in
          let (r, e, f) = uniform_loop-IsFirstAccepted draws u k (i + 1) (omega arith) in
          (
            r,
            ground (arith, e, bad),
            record {
              place = f.place;
              from = omega (arith, f.from);
              accepted = f.accepted;
              earlier = λ j a b. elim (Bool-cases (j == i)) [
                | inl at_i ↦
                    let this : draws j ≡ draws i = ap draws (ground arith) in ground (arith, bad)
                | inr past ↦ f.earlier j (ground arith) b
              ];
              residue = f.residue;
            },
          )
    ]

-- If one of the first `k + 1` draws is not below the rejection bound, `arc4random_uniform` returns
-- the residue of the first such draw, below `upper_bound`. The draws that it accepts, from the
-- rejection bound to 2³², are a whole number of rounds of the residues, one at least.
pub arc4random_uniform-IsFirstAccepted :
    (draws : ℕ → ℕ) (upper_bound k : ℕ)
    → 2 ≤ upper_bound
    → upper_bound < 2 ^ 32
    → rejection_bound upper_bound ≤ draws k
    → (r : ℕ) × (arc4random_uniform draws upper_bound (suc k) ≡ some r)
      × (r < upper_bound)
      × IsFirstAccepted draws upper_bound 0 r
      × ((rounds : ℕ) × (0 < rounds)
          × (2 ^ 32 ≡ rejection_bound upper_bound + rounds * upper_bound))
unfolding arc4random_uniform
arc4random_uniform-IsFirstAccepted draws u k two small h =
    let start : draws (0 + k) ≡ draws k = ap draws (omega arith) in
    let (r, e, f) = uniform_loop-IsFirstAccepted draws u k 0 (omega arith) in
    let x = 2 ^ 32 - u in
    let whole = mod-add-div' x u in
    (
      r,
      ground (arith, e),
      omega (arith, f.residue, mod-lt (draws f.place) {m = u} (omega arith)),
      f,
      (suc (x / u), omega arith, omega (arith, suc-mul (x / u) u, whole)),
    )
