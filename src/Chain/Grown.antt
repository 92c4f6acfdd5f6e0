-- ===== src/Chain/Grown.antt =====
-- The chains that `append` grows from genesis.
use paritr_node.Prelude.{
  ℕ, ◌+◌, ◌%◌, ◌≡◌, ◌≢◌, ◌≤◌, ◌<◌, refl, sym, ap, ◌∙◌, arith, ◌⊎◌, inl, inr, none, some,
  Option-cases, true, false, List, [], ◌∷◌, ◌++◌, sum_by-append, length, length-append, get_last?,
  u64_mod, find, ok, >>=-eq-ok,
}
use mathlib.Core.Path.{subst}
use paritr_node.Prelude.Order.{bytes_eq, bytes_eq_refl}
use paritr_node.Crypto.{Primitives}
use paritr_node.Params.{block_subsidy}
use paritr_node.Params.Schedule.{issued}
use paritr_node.Types.Block
use paritr_node.Types.Block.{Block}
use paritr_node.State.Supply.{supply, IsOrdered}
use paritr_node.Rewards.Exact.Totals.{ok-injective}
use paritr_node.Validation.Seed.{PowVerifier, cumulative_work}
use paritr_node.Validation.Whole.{genesis_block}
use paritr_node.Validation.Accepted.{
  validate_block_accepts, validate_block_genesis, validate_block-supply,
}
use paritr_node.Chain.{
  Chain, ChainEvent, genesis, append, block_at, block_by_hash, is_some, expect_ok, expect_some,
  height,
}
use paritr_node.Chain.Built.{Extends, append_outcomes}
use paritr_node.Chain.Supply.{subsidies, empty-IsOrdered}
use paritr_node.Chain.Heights.{
  Numbered, Numbered-append, Numbered-last, Numbered-get_elem?, subsidies-all,
}

module _ ⦃p : Primitives⦄ where
  pub data Grown (pow : PowVerifier) : Chain → Type 0 where
    begun : {c : Chain} → genesis ≡ ok c → Grown pow c
    grown :
        {c c' : Chain} (block : Block) (now : ℕ) (e : ChainEvent)
        → Grown pow c
        → append block pow now c ≡ ok (c', e)
        → Grown pow c'

  -- What every append keeps.
  record Keeps (c : Chain) : Type 0 where
    ordered : IsOrdered c.state
    money : supply c.state ≡ subsidies c.blocks
    numbered : Numbered 0 c.blocks
    short : length c.blocks ≤ u64_mod
    later : List Block
    starts : c.blocks ≡ genesis_block ∷ later

  genesis-Keeps : (c : Chain) → genesis ≡ ok c → Keeps c
  unfolding genesis genesis_block block_subsidy
  genesis-Keeps c h =
      let (work, _, done) = >>=-eq-ok (expect_ok (cumulative_work (genesis_block ∷ []))) _ h in
      subst Keeps (ok-injective done) (record {
        ordered = empty-IsOrdered;
        money = refl;
        numbered = (refl, tt);
        short = omega arith;
        later = [];
        starts = refl;
      })

  -- The first block is found by its identifier.
  known-genesis :
      (c : Chain) (later : List Block)
      → c.blocks ≡ genesis_block ∷ later
      → is_some (block_by_hash c (Block.id genesis_block)) ≡ true
  unfolding block_by_hash
  known-genesis c later h =
      subst (λ l. is_some (find (λ b. bytes_eq (Block.id b) (Block.id genesis_block)) l) ≡ true)
        (sym h) (ground (arith, bytes_eq_refl (Block.id genesis_block)))

  extended_height :
      (c c' : Chain) (block : Block) (pow : PowVerifier) (now : ℕ)
      → Keeps c
      → Extends block pow now c c'
      → block.header.height ≢ 0
  extended_height c c' block pow now k x zero_height =
      let (same, _) =
        validate_block_genesis block c.blocks c.state c'.state pow now zero_height x.valid in
      let found = known-genesis c k.later k.starts in
      let missing : is_some (block_by_hash c (Block.id genesis_block)) ≡ false =
        subst (λ b. is_some (block_by_hash c (Block.id b)) ≡ false) same x.unknown in
      cc

  extend-Keeps :
      (c c' : Chain) (block : Block) (pow : PowVerifier) (now : ℕ)
      → Keeps c
      → Extends block pow now c c'
      → Keeps c'
  extend-Keeps c c' block pow now k x =
      let later = extended_height c c' block pow now k x in
      let accepted = validate_block_accepts block c.blocks c.state c'.state pow now later x.valid in
      let (ordered, money) =
        validate_block-supply block c.blocks c.state c'.state pow now k.ordered later x.valid in
      let last = Numbered-last 0 c.blocks accepted.parent_block k.numbered accepted.is_last in
      let wraps : block.header.height ≡ (accepted.parent_block.header.height + 1) % u64_mod =
        accepted.follows.height in
      let short = k.short in
      let place : (block.header.height ≡ length c.blocks) × (length c.blocks < u64_mod) =
        (ground (arith, last, wraps, short), ground (arith, last, wraps, short)) in
      let split =
        sum_by-append (λ (b : Block). block_subsidy b.header.height) c.blocks (block ∷ []) in
      let count = length-append c.blocks (block ∷ []) in
      record {
        ordered = ordered;
        money =
            subst (λ l. supply c'.state ≡ subsidies l) (sym x.blocks)
              (omega (arith, money, k.money, split));
        numbered =
            subst (Numbered 0) (sym x.blocks)
              (Numbered-append 0 c.blocks block k.numbered (omega (arith, place.0)));
        short = subst (λ l. length l ≤ u64_mod) (sym x.blocks) (omega (arith, count, place.1));
        later = k.later ++ (block ∷ []);
        starts = x.blocks ∙ ap (λ l. l ++ (block ∷ [])) k.starts;
      }

  Grown-Keeps : (pow : PowVerifier) (c : Chain) → Grown pow c → Keeps c
  Grown-Keeps pow c (begun h) = genesis-Keeps c h
  Grown-Keeps pow c (grown {c = c0} block now e g h) =
      elim (append_outcomes block pow now c0 c e h) [
        | inl (_, same) ↦ subst Keeps (sym same) (Grown-Keeps pow c0 g)
        | inr (_, x) ↦ extend-Keeps c0 c block pow now (Grown-Keeps pow c0 g) x
      ]

  -- A chain grown from genesis by `append` holds exactly the subsidies of its blocks.
  pub Grown-supply :
      (pow : PowVerifier) (c : Chain) → Grown pow c → supply c.state ≡ subsidies c.blocks
  Grown-supply pow c g = (Grown-Keeps pow c g).money

  -- In a chain grown from genesis by `append`, the block that `block_at` gives for a height has that
  -- height.
  pub Grown-heights :
      (pow : PowVerifier) (c : Chain) (i : ℕ) (b : Block)
      → Grown pow c
      → block_at c i ≡ some b
      → b.header.height ≡ i
  unfolding block_at
  Grown-heights pow c i b g h =
      omega (arith, Numbered-get_elem? 0 c.blocks i b (Grown-Keeps pow c g).numbered h)

  -- The blocks of such a chain claim the subsidies of all heights up to its own.
  pub Grown-issued :
      (pow : PowVerifier) (c : Chain) (top : ℕ)
      → Grown pow c
      → height c ≡ ok top
      → subsidies c.blocks ≡ issued top
  unfolding height
  Grown-issued pow c top g h =
      let numbered = (Grown-Keeps pow c g).numbered in
      let (last, found, same) = >>=-eq-ok (expect_some (get_last? c.blocks)) _ h in
      go c.blocks numbered (Option-cases (get_last? c.blocks)) found (ok-injective same)
    where
      go :
          {last : Block} (blocks : List Block)
          → Numbered 0 blocks
          → (get_last? blocks ≡ none) ⊎ ((b : Block) × (get_last? blocks ≡ some b))
          → expect_some (get_last? blocks) ≡ ok last
          → last.header.height ≡ top
          → subsidies blocks ≡ issued top
      go blocks n (inl nothing) e t = cc
      go [] n (inr (b, found)) e t = cc
      go {last} (a ∷ blocks) n (inr (b, found)) e t =
          let same : b ≡ last = ok-injective (rw found at e) in
          let place = Numbered-last 0 (a ∷ blocks) b n found in
          let at_top : b.header.height ≡ top = rw same t in
          let count : length blocks ≡ top = omega (arith, place, at_top) in
          rw (sym count) (subsidies-all a blocks n)
