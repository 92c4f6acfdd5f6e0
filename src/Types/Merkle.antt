-- ===== src/Types/Merkle.antt =====
-- `merkle_root`. A round of the loop halves the level, so as many rounds as there are leaves are
-- enough.
use paritr_node.Prelude.{
  ℕ, zero, suc, ◌%◌, List, [], ◌∷◌, ◌++◌, none, some, length, get_last?, ltb, ◌==◌, if◌then◌else◌,
}
use paritr_node.Crypto.{Primitives, Hash32, domain_hash, ascii}

-- `level.push(*level.last())`, if the length is odd
unfoldable pub pad_level : List Hash32 → List Hash32
pad_level level =
    if length level % 2 == 1
    then elim (get_last? level) [ none ↦ level | some last ↦ level ++ (last ∷ []) ]
    else level

module _ ⦃p : Primitives⦄ where
  unfoldable pub merkle_node : Hash32 → Hash32 → Hash32
  merkle_node left right = domain_hash (ascii "PARITR-P9-MERKLE-NODE-v1") (left ++ right)

  unfoldable pub hash_pairs : List Hash32 → List Hash32
  unfolding merkle_node
  hash_pairs (left ∷ right ∷ rest) = merkle_node left right ∷ hash_pairs rest
  hash_pairs _ = []

  unfoldable pub merkle_loop : ℕ → List Hash32 → List Hash32
  unfolding pad_level hash_pairs
  merkle_loop zero level = level
  merkle_loop (suc fuel) level =
      let next = merkle_loop fuel (hash_pairs (pad_level level)) in
      if ltb 1 (length level) then next else level

  -- `level[0]`
  abbrev pub first_hash : List Hash32 → Hash32
  first_hash [] = []
  first_hash (h ∷ rest) = h

  unfoldable pub merkle_root : List Hash32 → Hash32
  unfolding merkle_loop
  merkle_root [] = domain_hash (ascii "PARITR-P9-MERKLE-EMPTY-v1") []
  merkle_root (leaf ∷ rest) = first_hash (merkle_loop (length (leaf ∷ rest)) (leaf ∷ rest))
