-- ===== src/OrderedMap/Lookup.antt =====
-- What a lookup finds after a write.
use mathlib.Core.Path.{subst}
use paritr_node.Prelude.{Bool-cases, inl, inr, ◌≡◌, refl, none, some, [], ◌∷◌, arith, if◌then◌else◌}
use paritr_node.Prelude.Order.{Ord}
use paritr_node.OrderedMap.{OrderedMap, same, lookup, insert, remove}

module _ {ℓ κ} {K : Type ℓ} {V : Type κ} ⦃o : Ord K⦄ where
  pub lookup-insert :
      (k j : K) (v : V) (m : OrderedMap K V)
      → lookup j (insert k v m) ≡ (if same j k then some v else lookup j m)
  unfolding lookup insert
  lookup-insert k j v [] = refl
  lookup-insert k j v ((i, w) ∷ m) = ground (
    arith,
    lookup-insert k j v m,
    o.eq_of_cmp k i,
    o.eq_of_cmp j k,
    o.eq_of_cmp j i,
    o.cmp_refl k,
    o.cmp_refl j,
  )

  pub lookup-remove :
      (k j : K) (m : OrderedMap K V)
      → lookup j (remove k m) ≡ (if same j k then none else lookup j m)
  unfolding lookup remove
  lookup-remove k j [] = ground arith
  lookup-remove k j ((i, w) ∷ m) = ground (
    arith,
    lookup-remove k j m,
    o.eq_of_cmp k i,
    o.eq_of_cmp j k,
    o.eq_of_cmp j i,
    o.cmp_refl k,
    o.cmp_refl j,
  )

  -- A new key takes nothing away.
  pub lookup-insert_fresh :
      (k j : K) (v w : V) (m : OrderedMap K V)
      → lookup k m ≡ none
      → lookup j m ≡ some w
      → lookup j (insert k v m) ≡ some w
  lookup-insert_fresh k j v w m fresh found = elim (Bool-cases (same j k)) [
    | inl new ↦
        let it : lookup k m ≡ some w =
          subst (λ z. lookup z m ≡ some w) (o.eq_of_cmp j k (ground arith)) found in
        cc
    | inr old ↦ rw (lookup-insert k j v m, old) found
  ]
