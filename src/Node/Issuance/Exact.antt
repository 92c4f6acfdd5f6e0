-- ===== src/Node/Issuance/Exact.antt =====
-- The schedule of the node against the subsidies of the heights.
use paritr_node.Prelude.{
  ℕ, zero, suc, ◌+◌, ◌-◌, ◌*◌, ◌/◌, ◌^◌, ◌≤◌, ◌<◌, ◌≡◌, refl, arith, inl, inr, min, max, leb, ltb,
  ◌==◌, Bool-cases, saturating_add, saturating_mul, u64_mod, ok, if◌then◌else◌,
}
use native.Mathlib.Nat.{pow-suc, suc-mul, div-div-eq-div-mul}
use paritr_node.Params.{block_subsidy, initial_subsidy, min_subsidy, halving_interval}
use paritr_node.Params.Schedule.{issued}
use paritr_node.Crypto.{Primitives}
use paritr_node.State.Supply.{supply}
use paritr_node.Validation.Seed.{PowVerifier}
use paritr_node.Chain
use paritr_node.Chain.{Chain}
use paritr_node.Chain.Grown.{Grown, Grown-supply, Grown-issued}
use paritr_node.Node.Issuance.{scheduled_from, scheduled_supply}

-- The subsidy of each height after so many halvings.
unfoldable subsidy_of : ℕ → ℕ
subsidy_of k = if leb 64 k then min_subsidy else max (initial_subsidy / 2 ^ k) min_subsidy

abbrev clamp : ℕ → ℕ
clamp x = min x (u64_mod - 1)

subsidy_of-suc : (k : ℕ) → max (subsidy_of k / 2) min_subsidy ≡ subsidy_of (suc k)
unfolding subsidy_of
subsidy_of-suc k =
    let twice = div-div-eq-div-mul initial_subsidy (2 ^ k) 2 in
    let half : initial_subsidy / 2 ^ suc k ≡ initial_subsidy / 2 ^ k / 2 =
      rw (pow-suc 2 k, twice) refl in
    elim (Bool-cases (leb 64 (suc k))) [
      | inr small ↦ ground (arith, half, small)
      | inl large ↦ elim (Bool-cases (leb 64 k)) [
        | inl larger ↦ ground (arith, large, larger)
        | inr last ↦ let sixty_three : k ≡ 63 = ground (arith, large, last) in rw sixty_three refl
      ]
    ]

block_subsidy-epoch :
    (k j : ℕ) → j < halving_interval → block_subsidy (suc (k * halving_interval + j)) ≡ subsidy_of k
unfolding block_subsidy subsidy_of
block_subsidy-epoch k j h =
    let epoch : (k * halving_interval + j) / halving_interval ≡ k = omega (arith, h) in
    let before : suc (k * halving_interval + j) - 1 ≡ k * halving_interval + j = omega arith in
    rw (before, epoch) (ground arith)

issued-epoch :
    (k j : ℕ)
    → j ≤ halving_interval
    → issued (k * halving_interval + j) ≡ issued (k * halving_interval) + j * subsidy_of k
unfolding issued
issued-epoch k zero h =
    let same : k * halving_interval + 0 ≡ k * halving_interval = omega arith in
    rw same (omega arith)
issued-epoch k (suc j) h =
    let next : k * halving_interval + suc j ≡ suc (k * halving_interval + j) = omega arith in
    rw (next, suc-mul)
      (omega (arith, issued-epoch k j (omega (arith, h)), block_subsidy-epoch k j h))

clamp-add :
    (a b : ℕ) → saturating_add (clamp a) (if ltb b u64_mod then b else u64_mod - 1) ≡ clamp (a + b)
clamp-add a b = ground arith

scheduled_from-zero : (fuel subsidy total : ℕ) → scheduled_from fuel 0 subsidy total ≡ total
unfolding scheduled_from
scheduled_from-zero zero subsidy total = refl
scheduled_from-zero (suc fuel) subsidy total = refl

-- A round that takes `span` of an interval.
span-total :
    (k span : ℕ)
    → span ≤ halving_interval
    → saturating_add (clamp (issued (k * halving_interval))) (saturating_mul span (subsidy_of k))
      ≡ clamp (issued (k * halving_interval + span))
span-total k span h =
    rw (issued-epoch k span h) (clamp-add (issued (k * halving_interval)) (span * subsidy_of k))

scheduled_from-clamp :
    (fuel k remaining : ℕ)
    → remaining < fuel * halving_interval
    → scheduled_from fuel remaining (subsidy_of k) (clamp (issued (k * halving_interval)))
      ≡ clamp (issued (k * halving_interval + remaining))
unfolding scheduled_from issued
scheduled_from-clamp zero k remaining h = absurd (omega (arith, h))
scheduled_from-clamp (suc fuel) k remaining h = elim (Bool-cases (remaining == 0)) [
  | inl none_left ↦
      let e : remaining ≡ 0 = ground (arith, none_left) in
      let same : k * halving_interval + 0 ≡ k * halving_interval = omega arith in
      rw (e, same)
        (scheduled_from-zero (suc fuel) (subsidy_of k) (clamp (issued (k * halving_interval))))
  | inr some_left ↦ elim (Bool-cases (leb halving_interval remaining)) [
    | inl whole ↦
        let span : min remaining halving_interval ≡ halving_interval = ground (arith, whole) in
        let next : k * halving_interval + halving_interval ≡ suc k * halving_interval =
          omega arith in
        let rest : k * halving_interval + remaining
            ≡ suc k * halving_interval + (remaining - halving_interval) =
          ground (arith, whole) in
        rw
          (
            scheduled_from,
            some_left,
            span,
            span-total k halving_interval (omega arith),
            subsidy_of-suc k,
            next,
            rest,
          )
          (scheduled_from-clamp fuel (suc k) (remaining - halving_interval)
            (ground (arith, whole, h)))
    | inr part ↦
        let span : min remaining halving_interval ≡ remaining = ground (arith, part) in
        let nothing : remaining - remaining ≡ 0 = omega arith in
        rw (scheduled_from, some_left, span, nothing, scheduled_from-zero fuel)
          (span-total k remaining (ground (arith, part)))
  ]
]

pub scheduled_supply_lem :
    (height : ℕ) → scheduled_supply height ≡ min (issued height) (u64_mod - 1)
unfolding scheduled_supply subsidy_of issued
scheduled_supply_lem height =
    let all = scheduled_from-clamp (suc (height / halving_interval)) 0 height (omega arith) in
    let same : 0 * halving_interval + height ≡ height = omega arith in rw same at all

module _ ⦃p : Primitives⦄ where
  -- In a chain grown from genesis by `append`, the supply that the node shows for the chain's height is
  -- exactly the money in the ledger, balances and pending rewards together, or the last number of 64
  -- bits where that is less.
  pub scheduled_supply-supply :
      (pow : PowVerifier) (c : Chain) (height : ℕ)
      → Grown pow c
      → Chain.height c ≡ ok height
      → scheduled_supply height ≡ min (supply c.state) (u64_mod - 1)
  scheduled_supply-supply pow c height g h =
      rw (Grown-supply pow c g, Grown-issued pow c height g h) (scheduled_supply_lem height)
