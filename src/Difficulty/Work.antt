-- ===== src/Difficulty/Work.antt =====
-- The work of a target.
use paritr_node.Prelude.{
  ℕ, ◌+◌, ◌-◌, ◌*◌, ◌/◌, ◌≤◌, ◌<◌, ◌≡◌, refl, arith, inl, inr, Bool-cases, ◌==◌, ==_iff,
  if◌then◌else◌, ok, panicked,
}
use native.Mathlib.Nat.{div-eq-sub-div, le-div_iff_mul-le, div-mul-le_self, div-lt_self}
use paritr_node.Difficulty.{target_work, u256_mod, u256_max}

-- The work of a target other than 0 is the expected number of hashes: 2^256 / (target + 1), rounded
-- down. For the target 0 that is 2^256, which no `U256` holds, and the sum panics.
pub target_work_lem :
    (t : ℕ) → t < u256_mod → target_work t ≡ (if t == 0 then panicked else ok (u256_mod / (t + 1)))
unfolding target_work
target_work_lem t h = elim (Bool-cases (t == u256_max)) [
  | inl all ↦ let same : t ≡ u256_max = (==_iff t u256_max).0 all in rw same refl
  | inr less ↦
      let e : u256_mod - (t + 1) ≡ u256_max - t = omega arith in
      let worth : (u256_max - t) / (t + 1) + 1 ≡ u256_mod / (t + 1) =
        rw (div-eq-sub-div {m = t + 1} {n = u256_mod} (omega arith) (ground arith), e) refl in
      rw (less, worth)
        (elim (Bool-cases (t == 0)) [
          | inl nothing ↦ let zeroth : t ≡ 0 = (==_iff t 0).0 nothing in rw zeroth refl
          | inr some_target ↦
              let fits : u256_mod / (t + 1) < u256_mod =
                div-lt_self {n = u256_mod} {k = t + 1} (omega arith) (ground arith) in
              rw some_target (ground (arith, fits))
        ])
]

worth_of : (t w : ℕ) → t < u256_mod → target_work t ≡ ok w → w ≡ u256_mod / (t + 1)
worth_of t w h e = let known = target_work_lem t h in ground arith

-- A higher target is worth no more work.
pub target_work_antitone :
    (t u x y : ℕ) → u < u256_mod → t ≤ u → target_work t ≡ ok x → target_work u ≡ ok y → y ≤ x
target_work_antitone t u x y h k first second =
    let worth = worth_of t x (omega arith) first in
    let worth' = worth_of u y h second in
    rw (worth, worth')
      ((le-div_iff_mul-le {k = t + 1} (omega arith)).1
        (below (u256_mod / (u + 1)) (div-mul-le_self u256_mod (u + 1))))
  where
    below : (q : ℕ) → q * (u + 1) ≤ u256_mod → q * (t + 1) ≤ u256_mod
    below q b = grind arith

-- A target that has a work is worth at least one hash.
pub target_work_pos : (t w : ℕ) → target_work t ≡ ok w → 0 < w
unfolding target_work
target_work_pos t w h = ground arith
