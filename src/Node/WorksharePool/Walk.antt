-- ===== src/Node/WorksharePool/Walk.antt =====
-- The walk along `previous_workshare`: the fuel is enough, and a pool with more workshares gives the
-- same path.
use paritr_node.Prelude.{
  refl, [], Result, err, fail_if, ◌>>=◌, ◌>>◌, ℕ, zero, suc, ◌+◌, ◌≤◌, ◌≡◌, ◌≢◌, Bool, true, false,
  Bool-cases, ◌||◌, some, Option-cases, inl, inr, List, ◌∷◌, any, leb, length, arith, ok, panicked,
  ok_or, >>-eq-ok, >>=-eq-ok, ok_or-eq-ok,
}
use paritr_node.Prelude.Order.{bytes_ord, bytes_eq}
use paritr_node.OrderedMap.{OrderedMap, lookup}
use paritr_node.Crypto.{Hash32, zero_hash}
use paritr_node.Errors.{ConsensusError, invalid_workshare_chain}
use paritr_node.Params.{max_workshares_per_block}
use paritr_node.Types.Workshare.{Workshare}
use paritr_node.Node.WorksharePool.{WorksharePool, walk, candidate_witness}

-- A step of the walk that did not end it.
pub record Steps (fuel : ℕ) (shares : OrderedMap Hash32 Workshare) (last : Workshare)
    (tail : List Workshare) (seen : List Hash32) (path : List Workshare) : Type 0 where
  pub next : Workshare
  pub found : lookup last.previous_workshare shares ≡ some next
  pub rest : walk fuel shares next (last ∷ tail) (last.previous_workshare ∷ seen) ≡ ok path

abbrev pub turned_back : Workshare → List Workshare → List Hash32 → Bool
turned_back last tail seen =
    any (bytes_eq last.previous_workshare) seen
    || leb max_workshares_per_block (length (last ∷ tail))

module _ (fuel : ℕ) (shares : OrderedMap Hash32 Workshare) (last : Workshare)
    (tail : List Workshare) (seen : List Hash32) (path : List Workshare) where
  pub walk-step :
      bytes_eq last.previous_workshare zero_hash ≡ false
      → walk (suc fuel) shares last tail seen ≡ ok path
      → (turned_back last tail seen ≡ false) × Steps fuel shares last tail seen path
  unfolding walk
  walk-step more h =
      let h' = rw more at h in
      let (forward, rest) = >>-eq-ok (turned_back last tail seen) _ _ h' in
      let (next, found, onward) =
        >>=-eq-ok (ok_or (lookup last.previous_workshare shares) invalid_workshare_chain) _ rest in
      (forward, record { next = next; found = ok_or-eq-ok _ _ found; rest = onward })

  pub walk-end :
      bytes_eq last.previous_workshare zero_hash ≡ true
      → walk (suc fuel) shares last tail seen ≡ ok path
      → path ≡ last ∷ tail
  unfolding walk
  walk-end done h = ground arith

-- More workshares, and those that were there unchanged.
abbrev pub Extends : OrderedMap Hash32 Workshare → OrderedMap Hash32 Workshare → Type 0
Extends shares shares' =
    (id : Hash32) (s : Workshare) → lookup id shares ≡ some s → lookup id shares' ≡ some s

pub walk-Extends :
    (fuel : ℕ) (shares shares' : OrderedMap Hash32 Workshare) (last : Workshare)
    (tail : List Workshare) (seen : List Hash32) (path : List Workshare)
    → Extends shares shares'
    → walk fuel shares last tail seen ≡ ok path
    → walk fuel shares' last tail seen ≡ ok path
unfolding walk
walk-Extends zero shares shares' last tail seen path more h = cc
walk-Extends (suc fuel) shares shares' last tail seen path more h =
    elim (Bool-cases (bytes_eq last.previous_workshare zero_hash)) [
      | inl done ↦ rw done (rw done at h)
      | inr further ↦
          let (forward, s) = walk-step fuel shares last tail seen path further h in
          rw (further, forward, more last.previous_workshare s.next s.found)
            (walk-Extends fuel shares shares' s.next (last ∷ tail) (last.previous_workshare ∷ seen)
              path more s.rest)
    ]

-- The walk ends before its fuel does.
pub walk-ne-panicked :
    (fuel : ℕ) (shares : OrderedMap Hash32 Workshare) (last : Workshare) (tail : List Workshare)
    (seen : List Hash32)
    → 1 ≤ fuel
    → length tail + fuel ≡ max_workshares_per_block
    → walk fuel shares last tail seen ≢ panicked
unfolding walk
walk-ne-panicked zero shares last tail seen some_left enough h = omega arith
walk-ne-panicked (suc fuel) shares last tail seen some_left enough h =
    elim (Bool-cases (bytes_eq last.previous_workshare zero_hash)) [
      | inl done ↦ let h' = rw done at h in cc
      | inr further ↦ elim (Bool-cases (turned_back last tail seen)) [
        | inl back ↦ let h' = rw (further, back) at h in cc
        | inr forward ↦ elim (Option-cases (lookup last.previous_workshare shares)) [
          | inl missing ↦ let h' = rw (further, forward, missing) at h in cc
          | inr (next, found) ↦
              walk-ne-panicked fuel shares next (last ∷ tail) (last.previous_workshare ∷ seen)
                (ground arith) (omega arith) (rw (further, forward, found) at h)
        ]
      ]
    ]

pub length-walk :
    (fuel : ℕ) (shares : OrderedMap Hash32 Workshare) (last : Workshare) (tail : List Workshare)
    (seen : List Hash32) (path : List Workshare)
    → length (last ∷ tail) ≤ max_workshares_per_block
    → walk fuel shares last tail seen ≡ ok path
    → length path ≤ max_workshares_per_block
unfolding walk
length-walk zero shares last tail seen path small h = cc
length-walk (suc fuel) shares last tail seen path small h =
    elim (Bool-cases (bytes_eq last.previous_workshare zero_hash)) [
      | inl done ↦ rw (walk-end fuel shares last tail seen path done h) small
      | inr further ↦
          let (forward, s) = walk-step fuel shares last tail seen path further h in
          length-walk fuel shares s.next (last ∷ tail) (last.previous_workshare ∷ seen) path
            (ground (arith, forward)) s.rest
    ]

guarded-ne-panicked {ℓ κ} :
    {A : Type ℓ} {B : Type κ} (c : Bool) (e : ConsensusError) (m : Result ConsensusError A)
    (f : A → B)
    → m ≢ panicked
    → (fail_if c e >> (m >>= λ a. ok (f a))) ≢ panicked
guarded-ne-panicked true e m f runs h = cc
guarded-ne-panicked false e (ok a) f runs h = cc
guarded-ne-panicked false e (err e') f runs h = cc
guarded-ne-panicked false e panicked f runs h = runs refl

-- Building a witness comes to an end: its fuel never runs out.
pub candidate_witness-ne-panicked :
    (share : Workshare) (pool : WorksharePool) → candidate_witness share pool ≢ panicked
unfolding candidate_witness
candidate_witness-ne-panicked share pool =
    guarded-ne-panicked _ _ _ _ (
      walk-ne-panicked max_workshares_per_block pool.shares share [] [] (omega arith) (omega arith))
