-- ===== src/Chain/Built.antt =====
-- Chains as they are built: genesis, then block after block, each validated against those before.
use paritr_node.Prelude.{
  ℕ, ◌+◌, ◌≡◌, refl, sym, ap, arith, false, not, inl, inr, Bool-cases, some, none, Option, List, [],
  ◌∷◌, ◌++◌, get_last?, ok, >>-eq-ok, >>=-eq-ok, ok_or, ok_or-eq-ok, ◌⊎◌,
}
use mathlib.Core.Path.{subst}
use paritr_node.Prelude.Order.{bytes_eq, eq_of_bytes_eq}
use paritr_node.Crypto.{Primitives}
use paritr_node.Difficulty.{bits_to_target, target_work}
use paritr_node.Types.Block
use paritr_node.Types.Block.{Block}
use paritr_node.Types.Equality.{same_block, block_of_same}
use paritr_node.State.Ledger.{LedgerState, empty_ledger}
use paritr_node.Rewards.Exact.Totals.{ok-injective}
use paritr_node.Validation.Seed.{PowVerifier, cumulative_work, work_from, add_work}
use paritr_node.Validation.Whole.{genesis_block, validate_block}
use paritr_node.Chain.{
  Chain, ChainEvent, known, extended, from_blocks, validate_rest, append, block_by_hash, is_some,
  tip, expect_some,
}

module _ ⦃p : Primitives⦄ where
  -- The chains and their states, each block validated at a time of its own.
  pub data Built (pow : PowVerifier) : List Block → LedgerState → Type 0 where
    start : Built pow (genesis_block ∷ []) empty_ledger
    extend :
        {history : List Block} {s s' : LedgerState} (block : Block) (now : ℕ)
        → Built pow history s
        → validate_block block history s pow now ≡ ok s'
        → Built pow (history ++ (block ∷ [])) s'

  -- What a chain keeps to: its state is built from its blocks, and its work is the sum of theirs.
  pub record IsValid (pow : PowVerifier) (c : Chain) : Type 0 where
    pub built : Built pow c.blocks c.state
    pub work : cumulative_work c.blocks ≡ ok c.cumulative_work

  append-step :
      (before : List Block) (block : Block) (rest : List Block)
      → (before ++ (block ∷ [])) ++ rest ≡ before ++ (block ∷ rest)
  append-step [] block rest = refl
  append-step (a ∷ before) block rest = ap (λ l. a ∷ l) (append-step before block rest)

  append-nil : (before : List Block) → before ++ [] ≡ before
  append-nil [] = refl
  append-nil (a ∷ before) = ap (λ l. a ∷ l) (append-nil before)

  validate_rest-Built :
      (before rest : List Block) (s s' : LedgerState) (pow : PowVerifier) (now : ℕ)
      → Built pow before s
      → validate_rest before rest s pow now ≡ ok s'
      → Built pow (before ++ rest) s'
  unfolding validate_rest
  validate_rest-Built before [] s s' pow now b h =
      subst (Built pow (before ++ [])) (ok-injective h)
        (subst (λ l. Built pow l s) (sym (append-nil before)) b)
  validate_rest-Built before (block ∷ rest) s s' pow now b h =
      let (next, valid, more) = >>=-eq-ok (validate_block block before s pow now) _ h in
      subst (λ l. Built pow l s') (append-step before block rest)
        (validate_rest-Built (before ++ (block ∷ [])) rest next s' pow now
          (extend block now b valid) more)

  -- A chain that `from_blocks` accepts is valid and holds the blocks it was given.
  pub from_blocks-IsValid :
      (blocks : List Block) (pow : PowVerifier) (now : ℕ) (c : Chain)
      → from_blocks blocks pow now ≡ ok c
      → IsValid pow c × (c.blocks ≡ blocks)
  unfolding from_blocks
  from_blocks-IsValid [] pow now c h = cc
  from_blocks-IsValid (first ∷ rest) pow now c h =
      let (same, more) = >>-eq-ok (not (same_block first genesis_block)) _ _ h in
      let (state, valid, more) =
        >>=-eq-ok (validate_rest (first ∷ []) rest empty_ledger pow now) _ more in
      let (work, summed, done) = >>=-eq-ok (cumulative_work (first ∷ rest)) _ more in
      let first_same : first ≡ genesis_block = block_of_same first genesis_block (ground arith) in
      let begun : Built pow (first ∷ []) empty_ledger =
        subst (λ b. Built pow (b ∷ []) empty_ledger) (sym first_same) start in
      let built = validate_rest-Built (first ∷ []) rest empty_ledger state pow now begun valid in
      let made : Chain = record { blocks = first ∷ rest; state = state; cumulative_work = work } in
      let same_chain : made ≡ c = ok-injective done in
      subst (λ (x : Chain). IsValid pow x × (x.blocks ≡ first ∷ rest)) same_chain
        (record { built = built; work = summed }, refl)

  work_from-append :
      (total : ℕ) (blocks : List Block) (block : Block) (sum target own work : ℕ)
      → work_from total blocks ≡ ok sum
      → bits_to_target block.header.bits ≡ some target
      → target_work target ≡ ok own
      → add_work sum own ≡ some work
      → work_from total (blocks ++ (block ∷ [])) ≡ ok work
  unfolding work_from
  work_from-append total [] block sum target own work h decoded worth added =
      let same : total ≡ sum = ok-injective h in
      let added' : add_work total own ≡ some work = rw same added in
      rw (decoded, worth, added') refl
  work_from-append total (b ∷ blocks) block sum target own work h decoded worth added =
      let (t, first, rest) = >>=-eq-ok (ok_or (bits_to_target b.header.bits) _) _ h in
      let (w, worked, rest) = >>=-eq-ok (target_work t) _ rest in
      let (next, second, rest) = >>=-eq-ok (ok_or (add_work total w) _) _ rest in
      let again = work_from-append next blocks block sum target own work rest decoded worth added in
      rw (ok_or-eq-ok _ _ first, worked, ok_or-eq-ok _ _ second) again

  pub expect_some-eq-ok : (o : Option Block) {b : Block} → expect_some o ≡ ok b → o ≡ some b
  expect_some-eq-ok none h = cc
  expect_some-eq-ok (some a) h = ap some (ok-injective h)

  -- What `append` did to extend a chain.
  pub record Extends (block : Block) (pow : PowVerifier) (now : ℕ) (c c' : Chain) : Type 0 where
    pub unknown : is_some (block_by_hash c (Block.id block)) ≡ false
    pub parent : Block
    pub is_last : get_last? c.blocks ≡ some parent
    pub previous : block.header.previous_block ≡ Block.id parent
    pub blocks : c'.blocks ≡ c.blocks ++ (block ∷ [])
    pub valid : validate_block block c.blocks c.state pow now ≡ ok c'.state
    pub target : ℕ
    pub target_eq : bits_to_target block.header.bits ≡ some target
    pub own_work : ℕ
    pub own_work_eq : target_work target ≡ ok own_work
    pub work : c'.cumulative_work ≡ c.cumulative_work + own_work
    pub fits : add_work c.cumulative_work own_work ≡ some c'.cumulative_work

  pub append_outcomes :
      (block : Block) (pow : PowVerifier) (now : ℕ) (c c' : Chain) (e : ChainEvent)
      → append block pow now c ≡ ok (c', e)
      → ((e ≡ known) × (c' ≡ c))
        ⊎ ((e ≡ extended (Block.id block) block.header.height) × Extends block pow now c c')
  unfolding append tip
  append_outcomes block pow now c c' e h =
      elim (Bool-cases (is_some (block_by_hash c (Block.id block)))) [
        | inl seen ↦
            let same : (c, known) ≡ (c', e) = ok-injective (rw seen at h) in
            inl (sym (ap (λ x. x.1) same), sym (ap (λ x. x.0) same))
        | inr fresh ↦
            let (last, is_last, rest) =
              >>=-eq-ok (expect_some (get_last? c.blocks)) _ (rw fresh at h) in
            let (linked, rest) =
              >>-eq-ok (not (bytes_eq block.header.previous_block (Block.id last))) _ _ rest in
            let (state, valid, rest) =
              >>=-eq-ok (validate_block block c.blocks c.state pow now) _ rest in
            let (target, decoded, rest) =
              >>=-eq-ok (ok_or (bits_to_target block.header.bits) _) _ rest in
            let (own, worth, rest) = >>=-eq-ok (target_work target) _ rest in
            let (work, added, done) = >>=-eq-ok (ok_or (add_work c.cumulative_work own) _) _ rest in
            let made : Chain = record {
              blocks = c.blocks ++ (block ∷ []);
              state = state;
              cumulative_work = work;
            } in
            let sum : work ≡ c.cumulative_work + own = ground arith in
            let built : Extends block pow now c made = record {
              unknown = fresh;
              parent = last;
              is_last = expect_some-eq-ok (get_last? c.blocks) is_last;
              previous = eq_of_bytes_eq block.header.previous_block (Block.id last) (ground arith);
              blocks = refl;
              valid = valid;
              target = target;
              target_eq = ok_or-eq-ok _ _ decoded;
              own_work = own;
              own_work_eq = worth;
              work = sum;
              fits = ok_or-eq-ok _ _ added;
            } in
            let same : (made, extended (Block.id block) block.header.height) ≡ (c', e) =
              ok-injective done in
            inr
              (sym (ap (λ x. x.1) same), subst (Extends block pow now c) (ap (λ x. x.0) same) built)
      ]

  -- A block appended to a valid chain leaves a valid chain.
  pub append-IsValid :
      (block : Block) (pow : PowVerifier) (now : ℕ) (c c' : Chain) (e : ChainEvent)
      → IsValid pow c
      → append block pow now c ≡ ok (c', e)
      → IsValid pow c'
  unfolding cumulative_work
  append-IsValid block pow now c c' e v h = elim (append_outcomes block pow now c c' e h) [
    | inl (_, same) ↦ subst (IsValid pow) (sym same) v
    | inr (_, x) ↦ record {
      built = subst (λ l. Built pow l c'.state) (sym x.blocks) (extend block now v.built x.valid);
      work =
          subst (λ l. work_from 0 l ≡ ok c'.cumulative_work) (sym x.blocks)
            (work_from-append 0 c.blocks block c.cumulative_work x.target x.own_work
              c'.cumulative_work v.work x.target_eq x.own_work_eq x.fits);
    }
  ]
