-- ===== src/State/Tree.antt =====
-- `SparseMerkleTree`: 256 levels over 32-byte keys, with its inner nodes cached. A `HashMap` whose
-- order is never read is an ordered map; the fixed field `empty` is the function `empty_at`.
use Prim.Native.Nat.{bit_and, bit_xor}
use paritr_node.Prelude.{
  ℕ, zero, suc, ◌+◌, ◌-◌, ◌*◌, ◌/◌, ◌%◌, ◌^◌, Option, none, some, [], ◌∷◌, ◌++◌, ltb, ◌==◌,
  if◌then◌else◌, take, replicate,
}
use paritr_node.Prelude.Order.{bytes_ord, numbered_ord, bytes_eq}
use paritr_node.OrderedMap
use paritr_node.OrderedMap.{OrderedMap}
use paritr_node.Codec.{Bytes}
use paritr_node.Crypto.{Primitives, Hash32, domain_hash, ascii}

-- `struct NodeIndex`: a depth and a prefix.
abbrev pub NodeIndex : Type 0
NodeIndex = ℕ × Bytes

pub record SparseMerkleTree : Type 0 where
  pub values : OrderedMap Hash32 Bytes
  pub nodes : OrderedMap NodeIndex Hash32

abbrev pub empty_tree : SparseMerkleTree
empty_tree = record { values = []; nodes = [] }

-- `key[i]`
abbrev pub byte_at : Bytes → ℕ → ℕ
byte_at [] i = 0
byte_at (b ∷ bs) zero = b
byte_at (b ∷ bs) (suc i) = byte_at bs i

abbrev pub set_byte : Bytes → ℕ → ℕ → Bytes
set_byte [] i v = []
set_byte (b ∷ bs) zero v = v ∷ bs
set_byte (b ∷ bs) (suc i) v = b ∷ set_byte bs i v

unfoldable pub bit : Bytes → ℕ → ℕ
bit key depth = byte_at key (depth / 8) / 2 ^ (7 - depth % 8) % 2

unfoldable pub toggle_bit : Bytes → ℕ → Bytes
toggle_bit key depth =
    set_byte key (depth / 8) (bit_xor (byte_at key (depth / 8)) (2 ^ (7 - depth % 8)))

-- Keeps the first `depth` bits. `0xff << k` is a `u8`, so it loses the bits above the eighth.
unfoldable pub prefix : Bytes → ℕ → Bytes
prefix key depth =
    let full_bytes = depth / 8 in
    let remaining = depth % 8 in
    if ltb full_bytes 32
    then (if remaining == 0
        then take full_bytes key ++ replicate (32 - full_bytes) 0
        else take full_bytes key
          ++ bit_and (byte_at key full_bytes) (0xff * 2 ^ (8 - remaining) % 256)
            ∷ replicate (31 - full_bytes) 0)
    else key

module _ ⦃p : Primitives⦄ where
  unfoldable pub tree_node : Hash32 → Hash32 → Hash32
  tree_node left right = domain_hash (ascii "PARITR-P9-SMT-NODE-v1") (left ++ right)

  unfoldable pub tree_leaf : Hash32 → Bytes → Hash32
  tree_leaf key value = domain_hash (ascii "PARITR-P9-SMT-LEAF-v1") (key ++ value)

  -- The hash of an empty subtree of the given height.
  unfoldable pub empty_above : ℕ → Hash32
  unfolding tree_node
  empty_above zero = domain_hash (ascii "PARITR-P9-SMT-EMPTY-LEAF-v1") []
  empty_above (suc k) = let below = empty_above k in tree_node below below

  -- `self.empty[depth]`
  unfoldable pub empty_at : ℕ → Hash32
  unfolding empty_above
  empty_at depth = empty_above (256 - depth)

  unfoldable pub node : OrderedMap NodeIndex Hash32 → ℕ → Bytes → Hash32
  node nodes depth at = elim (OrderedMap.lookup (depth, at) nodes) [
    | none ↦ empty_at depth
    | some h ↦ h
  ]

  unfoldable pub root : SparseMerkleTree → Hash32
  unfolding node
  root t = node t.nodes 0 (replicate 32 0)

  unfoldable pub get : SparseMerkleTree → Hash32 → Option Bytes
  get t key = OrderedMap.lookup key t.values

  -- The hash of the parent at `depth` on the path to `key`, from its two children.
  unfoldable pub parent_hash : Bytes → ℕ → OrderedMap NodeIndex Hash32 → Hash32
  unfolding node tree_node prefix toggle_bit bit
  parent_hash key depth nodes =
      let child_prefix = prefix key (depth + 1) in
      let child = node nodes (depth + 1) child_prefix in
      let sibling = node nodes (depth + 1) (toggle_bit child_prefix depth) in
      if bit key depth == 0 then tree_node child sibling else tree_node sibling child

  unfoldable pub store_parent :
      Bytes → ℕ → OrderedMap NodeIndex Hash32 → OrderedMap NodeIndex Hash32
  unfolding parent_hash
  store_parent key depth nodes =
      let hash = parent_hash key depth nodes in
      if bytes_eq hash (empty_at depth)
      then OrderedMap.remove (depth, prefix key depth) nodes
      else OrderedMap.insert (depth, prefix key depth) hash nodes

  -- `for parent_depth in (0..256).rev()`, with the depths below `n` left.
  unfoldable pub update_path : ℕ → Bytes → OrderedMap NodeIndex Hash32 → OrderedMap NodeIndex Hash32
  unfolding store_parent
  update_path zero key nodes = nodes
  update_path (suc depth) key nodes = update_path depth key (store_parent key depth nodes)

  unfoldable pub set_leaf : Hash32 → Option Bytes → SparseMerkleTree → SparseMerkleTree
  unfolding tree_leaf
  set_leaf key (some (b ∷ value)) t = record {
    values = OrderedMap.insert key (b ∷ value) t.values;
    nodes = OrderedMap.insert (256, key) (tree_leaf key (b ∷ value)) t.nodes;
  }
  set_leaf key _ t = record {
    values = OrderedMap.remove key t.values;
    nodes = OrderedMap.remove (256, key) t.nodes;
  }

  unfoldable pub update : Hash32 → Option Bytes → SparseMerkleTree → SparseMerkleTree
  unfolding set_leaf update_path
  update key value t =
      let t' = set_leaf key value t in record t' { nodes = update_path 256 key t'.nodes }
