-- ===== src/Node/Headers.antt =====
-- The two messages about headers: the answer to `GetHeaders`, and the queue that `Headers` makes.
use paritr_node.Prelude.{
  ℕ, Bool, false, not, ◌||◌, ◌&&◌, Option, none, some, List, [], ◌∷◌, take, drop, ◌==◌,
  if◌then◌else◌, saturating_add, wrapping_add, Result, ok,
}
use paritr_node.Prelude.Order.{bytes_eq}
use paritr_node.Crypto.{Primitives, Hash32, zero_hash}
use paritr_node.Params.{header_version, protocol_version}
use paritr_node.Types.BlockHeader
use paritr_node.Types.BlockHeader.{BlockHeader}
use paritr_node.Types.Block
use paritr_node.Types.Block.{Block}
use paritr_node.Chain.{Chain, block_by_hash, is_some}
use paritr_node.Network.WireMessage.{max_headers}
use paritr_node.Node.State.{Node, Storage, StorageError}

abbrev pub or_stored : Option Block → Result StorageError (Option Block) → Option Block
or_stored (some b) stored = some b
or_stored none (ok o) = o
or_stored none _ = none

module _ ⦃p : Primitives⦄ where
  -- `Node::block_by_hash`
  abbrev pub known_block : {S : Type 0} → Storage S → Node S → Hash32 → Option Block
  known_block db node hash =
      or_stored (block_by_hash node.chain hash) (db.stored_block hash node.storage)

  -- The height after the first block of the locator that is active, or 0.
  unfoldable pub start_height : Chain → List Hash32 → ℕ
  start_height chain [] = 0
  start_height chain (hash ∷ rest) =
      let more = start_height chain rest in
      elim (block_by_hash chain hash) [
        | some block ↦ wrapping_add block.header.height 1
        | none ↦ more
      ]

  -- `take_while` and `map`
  unfoldable pub headers_until : Hash32 → List Block → List BlockHeader
  headers_until stop [] = []
  headers_until stop (b ∷ rest) =
      let more = headers_until stop rest in
      if bytes_eq stop zero_hash || not (bytes_eq (Block.id b) stop) then b.header ∷ more else []

  unfoldable pub headers_after : Chain → List Hash32 → Hash32 → List BlockHeader
  unfolding headers_until start_height
  headers_after chain locator stop =
      headers_until stop (take max_headers (drop (start_height chain locator) chain.blocks))

  -- A header that follows the one before it, or the first, whose parent is known.
  unfoldable pub follows : Option Block → Option (Hash32 × ℕ) → BlockHeader → Bool
  follows parent (some (expected_parent, expected_height)) header =
      bytes_eq header.previous_block expected_parent && header.height == expected_height
  follows (some parent) none header = header.height == saturating_add parent.header.height 1
  follows none none header = false

  -- The loop over the headers: the identifiers that are not known, or `none` where it returns early.
  unfoldable pub scan_headers :
      {S : Type 0}
      → Storage S
      → Node S
      → Option (Hash32 × ℕ)
      → List BlockHeader
      → Option (List Hash32)
  scan_headers db node expected [] = some []
  scan_headers db node expected (header ∷ rest) =
      let id = BlockHeader.id header in
      let more = scan_headers db node (some (id, saturating_add header.height 1)) rest in
      if not (header.version == header_version)
        || not (header.protocol == protocol_version)
        || not (follows (known_block db node header.previous_block) expected header)
      then none
      else elim more [
        | none ↦ none
        | some queue ↦ if is_some (known_block db node id) then some queue else some (id ∷ queue)
      ]
