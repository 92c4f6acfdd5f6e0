-- ===== src/Validation/Accepted.antt =====
-- What a block that `validate_block` accepts satisfies.
use paritr_node.Prelude.{
  ℕ, ◌+◌, ◌≡◌, ◌≢◌, ◌≤◌, ◌<◌, refl, sym, arith, true, false, ◌||◌, not, some, none, Option, List,
  ◌==◌, ltb, leb, length, get_last?, wrapping_add, saturating_add, ok, >>-eq-ok, >>=-eq-ok,
  then-eq-ok, fail_if-eq-ok, ok_or, ok_or-eq-ok,
}
use mathlib.Core.Path.{subst}
use paritr_node.Prelude.Order.{bytes_eq, eq_of_bytes_eq}
use paritr_node.Codec.{Bytes, from_le_bytes, consensus_encode}
use paritr_node.Crypto.{Primitives, Hash32}
use paritr_node.Params.{
  header_version, protocol_version, pow_limit, max_future_block_time, max_block_bytes,
  max_block_transactions, block_subsidy,
}
use paritr_node.Difficulty.{bits_to_target, next_bits, hash_meets_target}
use paritr_node.Types.RewardClaim
use paritr_node.Types.RewardClaim.{RewardClaim}
use paritr_node.Types.BlockHeader
use paritr_node.Types.BlockHeader.{BlockHeader}
use paritr_node.Types.Witness
use paritr_node.Types.Block
use paritr_node.Types.Block.{Block}
use paritr_node.Types.Equality.{same_block, block_of_same}
use paritr_node.State.Ledger
use paritr_node.State.Ledger.{LedgerState, empty_ledger}
use paritr_node.State.Supply.{supply, IsOrdered}
use paritr_node.Rewards.{RewardAllocation}
use paritr_node.Rewards.Exact.Totals.{ok-injective}
use paritr_node.Validation.Apply.{transition_for_candidate}
use paritr_node.Validation.Money.{transition_supply}
use paritr_node.Validation.Seed.{PowVerifier, randomx_seed, verify_pow, median_time_past}
use paritr_node.Validation.Header.{above_limit, validate_header_context}
use paritr_node.Validation.Shares.{validate_witness_shape, validate_workshares}
use paritr_node.Validation.Whole.{
  genesis_block, validate_genesis, check_commitments, check_transition, validate_block,
}

module _ ⦃p : Primitives⦄ where
  -- A header that fits its place in the chain.
  pub record FollowsParent (header : BlockHeader) (parent : Block) (history : List Block) (now : ℕ)
      : Type 0 where
    pub version : header.version ≡ header_version
    pub protocol : header.protocol ≡ protocol_version
    pub height : header.height ≡ wrapping_add parent.header.height 1
    pub previous : header.previous_block ≡ Block.id parent
    pub bits : header.bits ≡ next_bits history
    pub target : (t : ℕ) × (bits_to_target header.bits ≡ some t) × (t ≤ pow_limit)
    pub after_parent : parent.header.timestamp < header.timestamp
    pub after_median : median_time_past history < header.timestamp
    pub not_future : header.timestamp ≤ saturating_add now max_future_block_time

  -- A hash that meets the target that the bits stand for.
  abbrev pub HasWork : PowVerifier → Bytes → BlockHeader → Type 0
  HasWork pow seed header =
      (target : ℕ) × (hash : Hash32) × (bits_to_target header.bits ≡ some target)
      × (pow seed (consensus_encode BlockHeader.encode_to header) ≡ some hash)
      × (from_le_bytes hash ≤ target)

  target_within : (o : Option ℕ) → above_limit o ≡ false → (t : ℕ) × (o ≡ some t) × (t ≤ pow_limit)
  target_within none h = cc
  target_within (some t) h = (t, refl, ground arith)

  validate_header_context-eq-ok :
      (header : BlockHeader) (parent : Block) (history : List Block) (now : ℕ)
      → validate_header_context header parent history now ≡ ok tt
      → FollowsParent header parent history now
  unfolding validate_header_context
  validate_header_context-eq-ok header parent history now h =
      let (versions, rest) =
        >>-eq-ok
          (not (header.version == header_version) || not (header.protocol == protocol_version)) _ _
          h in
      let (height, rest) =
        >>-eq-ok (not (header.height == wrapping_add parent.header.height 1)) _ _ rest in
      let (previous, rest) =
        >>-eq-ok (not (bytes_eq header.previous_block (Block.id parent))) _ _ rest in
      let (bits, rest) =
        >>-eq-ok
          (not (header.bits == next_bits history) || above_limit (bits_to_target header.bits)) _ _
          rest in
      let (times, rest) =
        >>-eq-ok
          (leb header.timestamp parent.header.timestamp
            || leb header.timestamp (median_time_past history))
          _ _ rest in
      let future =
        fail_if-eq-ok (ltb (saturating_add now max_future_block_time) header.timestamp) _ rest in
      let below : above_limit (bits_to_target header.bits) ≡ false = ground arith in
      record {
        version = ground arith;
        protocol = ground arith;
        height = ground arith;
        previous = eq_of_bytes_eq header.previous_block (Block.id parent) (ground arith);
        bits = ground arith;
        target = target_within (bits_to_target header.bits) below;
        after_parent = ground arith;
        after_median = ground arith;
        not_future = ground arith;
      }

  verify_pow-eq-ok :
      (pow : PowVerifier) (seed : Bytes) (header : BlockHeader) (target : ℕ)
      → bits_to_target header.bits ≡ some target
      → verify_pow pow seed header target ≡ ok tt
      → HasWork pow seed header
  unfolding verify_pow hash_meets_target
  verify_pow-eq-ok pow seed header target known h =
      let (hash, found, rest) =
        >>=-eq-ok (ok_or (pow seed (consensus_encode BlockHeader.encode_to header)) _) _ h in
      let meets = fail_if-eq-ok (not (leb (from_le_bytes hash) target)) _ rest in
      (target, hash, known, ok_or-eq-ok _ _ found, ground arith)

  -- What the header commits to, and the sizes.
  pub record Commits (block : Block) (history : List Block) (pow : PowVerifier) : Type 0 where
    pub size : length (consensus_encode Block.encode_to block) ≤ max_block_bytes
    pub count : length block.transactions ≤ max_block_transactions
    pub transactions : Block.transaction_root block ≡ block.header.transactions_root
    pub shape : validate_witness_shape block.workshare_witness ≡ ok tt
    pub witness : Witness.root block.workshare_witness ≡ block.header.workshare_root
    pub work :
        (seed : Bytes) × (randomx_seed history block.header.height ≡ ok seed)
        × HasWork pow seed block.header

  check_commitments-eq-ok :
      (block : Block) (history : List Block) (pow : PowVerifier)
      → check_commitments block history pow ≡ ok tt
      → Commits block history pow
  unfolding check_commitments
  check_commitments-eq-ok block history pow h =
      let (sizes, rest) =
        >>-eq-ok
          (ltb max_block_bytes (length (consensus_encode Block.encode_to block))
            || ltb max_block_transactions (length block.transactions))
          _ _ h in
      let (root, rest) =
        >>-eq-ok (not (bytes_eq (Block.transaction_root block) block.header.transactions_root)) _ _
          rest in
      let (shape, rest) = then-eq-ok (validate_witness_shape block.workshare_witness) _ rest in
      let (witness, rest) =
        >>-eq-ok (not (bytes_eq (Witness.root block.workshare_witness) block.header.workshare_root))
          _ _ rest in
      let (seed, seeded, rest) = >>=-eq-ok (randomx_seed history block.header.height) _ rest in
      let (target, known, last) = >>=-eq-ok (ok_or (bits_to_target block.header.bits) _) _ rest in
      record {
        size = ground arith;
        count = ground arith;
        transactions =
            eq_of_bytes_eq (Block.transaction_root block) block.header.transactions_root
              (ground arith);
        shape = shape;
        witness =
            eq_of_bytes_eq (Witness.root block.workshare_witness) block.header.workshare_root
              (ground arith);
        work = (
          seed,
          seeded,
          verify_pow-eq-ok pow seed block.header target (ok_or-eq-ok _ _ known) last,
        );
      }

  -- The claim, the transition and the committed state.
  pub record Settles (block : Block) (history : List Block) (parent post : LedgerState)
      : Type 0 where
    pub claim : RewardClaim
    pub claim_eq : block.reward_claim ≡ some claim
    pub claim_height : claim.height ≡ block.header.height
    pub allocation : RewardAllocation
    pub fees : ℕ
    pub transition :
        transition_for_candidate block.header.height claim block.transactions history parent
        ≡ ok (post, (allocation, fees))
    pub root : Ledger.root post ≡ block.header.state_root

  check_transition-eq-ok :
      (block : Block) (history : List Block) (parent post : LedgerState)
      → check_transition block history parent ≡ ok post
      → Settles block history parent post
  unfolding check_transition
  check_transition-eq-ok block history parent post h =
      let (claim, present, rest) = >>=-eq-ok (ok_or block.reward_claim _) _ h in
      let (fits, rest) =
        >>-eq-ok
          (not (claim.version == RewardClaim.current_version)
            || not (claim.height == block.header.height))
          _ _ rest in
      let ((state, (allocation, fees)), moved, rest) =
        >>=-eq-ok
          (transition_for_candidate block.header.height claim block.transactions history parent) _
          rest in
      let (amount, rest) = >>-eq-ok (not (claim.amount == allocation.finder_amount)) _ _ rest in
      let (committed, done) =
        >>-eq-ok (not (bytes_eq (Ledger.root state) block.header.state_root)) _ (ok state) rest in
      let height : claim.height ≡ block.header.height = ground arith in
      let root = eq_of_bytes_eq (Ledger.root state) block.header.state_root (ground arith) in
      subst (Settles block history parent) (ok-injective done) (record {
        claim = claim;
        claim_eq = ok_or-eq-ok block.reward_claim _ present;
        claim_height = height;
        allocation = allocation;
        fees = fees;
        transition = moved;
        root = root;
      })

  -- All of it together.
  pub record Accepted (block : Block) (history : List Block) (parent post : LedgerState)
      (pow : PowVerifier) (now : ℕ) : Type 0 where
    pub parent_block : Block
    pub is_last : get_last? history ≡ some parent_block
    pub follows : FollowsParent block.header parent_block history now
    pub commits : Commits block history pow
    pub settles : Settles block history parent post
    pub shares :
        validate_workshares block.workshare_witness history parent pow block.header.timestamp
        ≡ ok tt

  -- A block after genesis that `validate_block` accepts extends the last block of its history by a
  -- header that keeps the rules of height, difficulty and time; the header has the work of its bits
  -- and commits to the transactions, to the workshares and to the state that is returned; that state is
  -- the transition's; and the workshares are valid.
  pub validate_block_accepts :
      (block : Block) (history : List Block) (parent post : LedgerState) (pow : PowVerifier)
      (now : ℕ)
      → block.header.height ≢ 0
      → validate_block block history parent pow now ≡ ok post
      → Accepted block history parent post pow now
  unfolding validate_block
  validate_block_accepts block history parent post pow now later h =
      let late : (block.header.height == 0) ≡ false = ground arith in
      let (parent_block, is_last, rest) =
        >>=-eq-ok (ok_or (get_last? history) _) _ (rw late at h) in
      let (follows, rest) =
        then-eq-ok (validate_header_context block.header parent_block history now) _ rest in
      let (commits, rest) = then-eq-ok (check_commitments block history pow) _ rest in
      let (state, settles, rest) = >>=-eq-ok (check_transition block history parent) _ rest in
      let (shares, done) =
        then-eq-ok
          (validate_workshares block.workshare_witness history parent pow block.header.timestamp)
          (ok state) rest in
      let same : state ≡ post = ok-injective done in
      record {
        parent_block = parent_block;
        is_last = ok_or-eq-ok (get_last? history) _ is_last;
        follows = validate_header_context-eq-ok block.header parent_block history now follows;
        commits = check_commitments-eq-ok block history pow commits;
        settles =
            subst (Settles block history parent) same
              (check_transition-eq-ok block history parent state settles);
        shares = shares;
      }

  -- At height 0 only the fixed genesis block is accepted, and it leaves the empty ledger.
  pub validate_block_genesis :
      (block : Block) (history : List Block) (parent post : LedgerState) (pow : PowVerifier)
      (now : ℕ)
      → block.header.height ≡ 0
      → validate_block block history parent pow now ≡ ok post
      → (block ≡ genesis_block) × (post ≡ empty_ledger)
  unfolding validate_block validate_genesis
  validate_block_genesis block history parent post pow now first h =
      let early : (block.header.height == 0) ≡ true = ground arith in
      let (same, done) =
        >>-eq-ok (not (same_block block genesis_block)) _ (ok empty_ledger) (rw early at h) in
      (block_of_same block genesis_block (ground arith), sym (ok-injective done))

  -- A block after genesis that is accepted adds the subsidy of its height to the money of the ledger,
  -- and nothing else.
  pub validate_block-supply :
      (block : Block) (history : List Block) (parent post : LedgerState) (pow : PowVerifier)
      (now : ℕ)
      → IsOrdered parent
      → block.header.height ≢ 0
      → validate_block block history parent pow now ≡ ok post
      → IsOrdered post × (supply post ≡ supply parent + block_subsidy block.header.height)
  validate_block-supply block history parent post pow now ordered later h =
      let s = (validate_block_accepts block history parent post pow now later h).settles in
      let (kept, grown, _, _) =
        transition_supply block.header.height s.claim block.transactions history parent post
          s.allocation s.fees ordered s.transition in
      (kept, grown)
