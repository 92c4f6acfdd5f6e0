-- ===== src/Node/WorksharePool/Work.antt =====
-- The work along the paths of workshares, and the tip, which carries the most.
use mathlib.Core.Path.{subst}
use paritr_node.Prelude.{
  ℕ, ◌+◌, ◌≤◌, ◌<◌, ◌≡◌, ◌⊎◌, refl, ap, sym, ◌∙◌, Bool, true, false, Bool-cases, Option-cases, ◌||◌,
  ◌&&◌, Option, none, some, inl, inr, length, leb, ltb, ◌==◌, if◌then◌else◌, arith, ok, ok_or,
  >>-eq-ok, >>=-eq-ok, ok_or-eq-ok,
}
use paritr_node.Prelude.Order.{bytes_ord, bytes_eq, bytes_lt, cmp_bytes_refl, eq_of_cmp_bytes}
use paritr_node.OrderedMap.{OrderedMap, lookup, insert, amount_at, same}
use paritr_node.OrderedMap.Lookup.{lookup-insert}
use paritr_node.Rewards.Exact.Totals.{ok-injective}
use paritr_node.Crypto.{Primitives, Hash32, zero_hash}
use paritr_node.Errors.{size_limit, arithmetic_overflow, invalid_workshare_chain}
use paritr_node.Rewards.{workshare_weight}
use paritr_node.Validation.Seed.{add_work}
use paritr_node.Types.BlockTemplate.{BlockTemplate}
use paritr_node.Types.Workshare
use paritr_node.Types.Workshare.{Workshare}
use paritr_node.Node.WorksharePool.{
  WorksharePool, reset, accept, parent_work, insert_share, work_at, max_pool_shares,
}

-- What is known of a workshare in a pool: its path work is its parent's, with its own weight.
pub record IsWeighed (pool : WorksharePool) (id : Hash32) (share : Workshare) : Type 0 where
  pub before : ℕ
  pub weight : ℕ
  pub before_eq : parent_work share pool ≡ ok before
  pub weight_eq : workshare_weight share.candidate_header.bits ≡ ok weight
  pub path : lookup id pool.path_work ≡ some (before + weight)

pub record IsWorked (pool : WorksharePool) : Type 0 where
  pub in_step : (id : Hash32) → lookup id pool.shares ≡ none → lookup id pool.path_work ≡ none
  pub weighed :
      (id : Hash32) (share : Workshare)
      → lookup id pool.shares ≡ some share
      → IsWeighed pool id share
  pub heaviest : (id : Hash32) → work_at id pool ≤ work_at pool.tip pool

pub reset-IsWorked : (anchor : Hash32) (pool : WorksharePool) → IsWorked (reset anchor pool)
unfolding reset lookup
reset-IsWorked anchor pool = record {
  in_step = λ id h. refl;
  weighed = λ id s h. absurd (cc);
  heaviest = λ id. omega arith;
}

-- The templates have no part in the account.
pub IsWorked-templates :
    (pool : WorksharePool) (bytes : ℕ) (templates : OrderedMap Hash32 BlockTemplate)
    → IsWorked pool
    → IsWorked (record pool { template_bytes = bytes; templates = templates })
unfolding parent_work
IsWorked-templates pool bytes templates w = record {
  in_step = w.in_step;
  weighed = λ id s e.
      let v = w.weighed id s e in
      record {
        before = v.before;
        weight = v.weight;
        before_eq = v.before_eq;
        weight_eq = v.weight_eq;
        path = v.path;
      };
  heaviest = w.heaviest;
}

-- An acceptance that succeeds knew the workshare and changed nothing, or added it.
pub record Adds (id : Hash32) (share : Workshare) (pool : WorksharePool) (pool' : WorksharePool)
    (changed : Bool) : Type 0 where
  pub fresh : lookup id pool.shares ≡ none
  pub count : length pool.shares < max_pool_shares
  pub before : ℕ
  pub weight : ℕ
  pub before_eq : parent_work share pool ≡ ok before
  pub weight_eq : workshare_weight share.candidate_header.bits ≡ ok weight
  pub result : insert_share id share (before + weight) pool ≡ (pool', changed)

add_work-eq : (a b : ℕ) {c : ℕ} → add_work a b ≡ some c → c ≡ a + b
add_work-eq a b h = ground arith

module _ ⦃p : Primitives⦄ where
  pub data Accepts (share : Workshare) (pool pool' : WorksharePool) (changed : Bool) : Type 0 where
    already : pool' ≡ pool → changed ≡ false → Accepts share pool pool' changed
    adds : Adds (Workshare.id share) share pool pool' changed → Accepts share pool pool' changed

  pub accept-Accepts :
      (share : Workshare) (pool pool' : WorksharePool) (changed : Bool)
      → accept share pool ≡ ok (pool', changed)
      → Accepts share pool pool' changed
  unfolding accept
  accept-Accepts share pool pool' changed h =
      let id = Workshare.id share in
      elim (Option-cases (lookup id pool.shares)) [
        | inr (s, known_one) ↦
            let done : (pool, false) ≡ (pool', changed) = ok-injective (rw known_one at h) in
            already (ap (λ (x : WorksharePool × Bool). x.0) (sym done))
              (ap (λ (x : WorksharePool × Bool). x.1) (sym done))
        | inl fresh ↦
            let (room, rest) =
              >>-eq-ok (leb max_pool_shares (length pool.shares)) size_limit _ (rw fresh at h) in
            let (before, before_eq, rest) = >>=-eq-ok (parent_work share pool) _ rest in
            let (weight, weight_eq, rest) =
              >>=-eq-ok (workshare_weight share.candidate_header.bits) _ rest in
            let (cumulative, sum, rest) =
              >>=-eq-ok (ok_or (add_work before weight) arithmetic_overflow) _ rest in
            let total = add_work-eq before weight (ok_or-eq-ok _ _ sum) in
            adds (record {
              fresh = fresh;
              count = ground arith;
              before = before;
              weight = weight;
              before_eq = before_eq;
              weight_eq = weight_eq;
              result = rw (← total) (ok-injective rest);
            })
      ]

-- Everything but the tip, after an insertion.
module _ (id : Hash32) (share : Workshare) (cumulative : ℕ) (pool pool' : WorksharePool)
    (changed : Bool) (h : insert_share id share cumulative pool ≡ (pool', changed)) where
  pub insert_share_lem :
      (pool'.anchor ≡ pool.anchor)
      × (pool'.templates ≡ pool.templates)
      × (pool'.shares ≡ insert id share pool.shares)
      × (pool'.path_work ≡ insert id cumulative pool.path_work)
      × (pool'.template_bytes ≡ pool.template_bytes)
  unfolding insert_share
  insert_share_lem = ground arith

  insert_share-work_at :
      (k : Hash32) → work_at k pool' ≡ (if same k id then cumulative else work_at k pool)
  insert_share-work_at k =
      rw (insert_share_lem.3, lookup-insert id k cumulative pool.path_work) (ground arith)

  pub insert_share-tip :
      ((pool'.tip ≡ id) × (work_at pool.tip pool' ≤ cumulative))
      ⊎ ((pool'.tip ≡ pool.tip) × (cumulative ≤ work_at pool.tip pool'))
  unfolding insert_share
  insert_share-tip =
      let old = amount_at (λ (w : ℕ). w) (lookup pool.tip (insert id cumulative pool.path_work)) in
      elim (Bool-cases (ltb old cumulative || (cumulative == old && bytes_lt id pool.tip))) [
        | inl won ↦
            let h' = rw won at h in
            inl (
              ap (λ (x : WorksharePool × Bool). x.0.tip) (sym h'),
              rw (insert_share_lem.3) (ground arith),
            )
        | inr lost ↦
            let h' = rw lost at h in
            inr (
              ap (λ (x : WorksharePool × Bool). x.0.tip) (sym h'),
              rw (insert_share_lem.3) (ground arith),
            )
      ]

pub same_self : (a : Hash32) → same a a ≡ true
same_self a = ground (arith, cmp_bytes_refl a)

pub same-eq : (a b : Hash32) → same a b ≡ true → a ≡ b
same-eq a b h = eq_of_cmp_bytes a b (ground arith)

none-ne-some : {A : Type 0} {a : A} → ◌≡◌ {A = Option A} none (some a) → ⊥
none-ne-some h = cc

module _ (id : Hash32) (share : Workshare) (before weight : ℕ) (pool pool' : WorksharePool)
    (changed : Bool) (h : insert_share id share (before + weight) pool ≡ (pool', changed))
    (fresh : lookup id pool.shares ≡ none) (before_eq : parent_work share pool ≡ ok before)
    (weight_eq : workshare_weight share.candidate_header.bits ≡ ok weight) (w : IsWorked pool) where
  -- The work of a parent that was known is the same as before.
  parent_work-insert :
      (s : Workshare) {b : ℕ} → parent_work s pool ≡ ok b → parent_work s pool' ≡ ok b
  unfolding parent_work
  parent_work-insert s {b} e = elim (Bool-cases (bytes_eq s.previous_workshare zero_hash)) [
    | inl first ↦ rw first (rw first at e)
    | inr later ↦
        let found =
          ok_or-eq-ok (lookup s.previous_workshare pool.path_work) invalid_workshare_chain
            (rw later at e) in
        elim (Bool-cases (same s.previous_workshare id)) [
          | inl new ↦ absurd (
              none-ne-some (
                sym (w.in_step id fresh)
                ∙ subst (λ z. lookup z pool.path_work ≡ some b)
                    (same-eq s.previous_workshare id new) found))
          | inr old ↦
              rw
                (
                  later,
                  (insert_share_lem id share (before + weight) pool pool' changed h).3,
                  lookup-insert id s.previous_workshare (before + weight) pool.path_work,
                  old,
                  found,
                )
                refl
        ]
  ]

  in_step' : (k : Hash32) → lookup k pool'.shares ≡ none → lookup k pool'.path_work ≡ none
  in_step' k e =
      let parts = insert_share_lem id share (before + weight) pool pool' changed h in
      let e' = rw (parts.2, lookup-insert id k share pool.shares) at e in
      rw (parts.3, lookup-insert id k (before + weight) pool.path_work)
        (elim (Bool-cases (same k id)) [
          | inl new ↦ absurd (none-ne-some (sym (rw new at e')))
          | inr old ↦ rw old (w.in_step k (rw old at e'))
        ])

  weighed' : (k : Hash32) (s : Workshare) → lookup k pool'.shares ≡ some s → IsWeighed pool' k s
  weighed' k s e =
      let parts = insert_share_lem id share (before + weight) pool pool' changed h in
      let e' = rw (parts.2, lookup-insert id k share pool.shares) at e in
      elim (Bool-cases (same k id)) [
        | inl new ↦
            let it : share ≡ s = ground arith in
            subst (IsWeighed pool' k) it (record {
              before = before;
              weight = weight;
              before_eq = parent_work-insert share before_eq;
              weight_eq = weight_eq;
              path = rw (parts.3, lookup-insert id k (before + weight) pool.path_work, new) refl;
            })
        | inr old ↦
            let v = w.weighed k s (rw old at e') in
            record {
              before = v.before;
              weight = v.weight;
              before_eq = parent_work-insert s v.before_eq;
              weight_eq = v.weight_eq;
              path = rw (parts.3, lookup-insert id k (before + weight) pool.path_work, old) v.path;
            }
      ]

  work : (k : Hash32) → work_at k pool' ≡ (if same k id then before + weight else work_at k pool)
  work = insert_share-work_at id share (before + weight) pool pool' changed h

  -- The work of the tip does not fall.
  grown : work_at pool.tip pool ≤ work_at pool.tip pool'
  grown = elim (Bool-cases (same pool.tip id)) [
    | inl new ↦
        let gone : work_at pool.tip pool ≡ 0 =
          rw (same-eq pool.tip id new, w.in_step id fresh) refl in
        omega (arith, gone)
    | inr old ↦ rw (work pool.tip, old) (omega arith)
  ]

  heaviest' : (k : Hash32) → work_at k pool' ≤ work_at pool'.tip pool'
  heaviest' k = elim (insert_share-tip id share (before + weight) pool pool' changed h) [
    | inl (new_tip, beaten) ↦
        let mine : work_at pool'.tip pool' ≡ before + weight =
          rw new_tip (work id ∙ rw (same_self id) refl) in
        ground (arith, work k, mine, beaten, grown, w.heaviest k)
    | inr (old_tip, unbeaten) ↦ rw old_tip (ground (arith, work k, unbeaten, grown, w.heaviest k))
  ]

  pub insert_share-IsWorked : IsWorked pool'
  insert_share-IsWorked = record { in_step = in_step'; weighed = weighed'; heaviest = heaviest' }

module _ ⦃p : Primitives⦄ where
  -- Accepting a workshare keeps the account of the work: each workshare has the work of its path,
  -- and no path of the pool has more work than the tip's.
  pub accept-IsWorked :
      (share : Workshare) (pool pool' : WorksharePool) (changed : Bool)
      → IsWorked pool
      → accept share pool ≡ ok (pool', changed)
      → IsWorked pool'
  accept-IsWorked share pool pool' changed w h = go (accept-Accepts share pool pool' changed h)
    where
      go : Accepts share pool pool' changed → IsWorked pool'
      go (already same unchanged) = subst IsWorked (sym same) w
      go (adds a) =
          insert_share-IsWorked (Workshare.id share) share a.before a.weight pool pool' changed
            a.result a.fresh a.before_eq a.weight_eq w
