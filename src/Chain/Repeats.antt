-- ===== src/Chain/Repeats.antt =====
-- A candidate that repeats the genesis block.
use paritr_node.Prelude.{
  ℕ, zero, suc, ◌+◌, ◌*◌, ◌≡◌, ◌<◌, refl, ap, ◌∙◌, arith, true, some, List, [], ◌∷◌, ◌++◌, ok,
  replicate, ok_or, ok_or-eq-ok, >>=-eq-ok,
}
use paritr_node.Crypto.{Primitives}
use paritr_node.Types.Block.{Block}
use paritr_node.Types.Equality.{same_block, bare_block_same_refl}
use paritr_node.State.Ledger.{empty_ledger}
use paritr_node.Difficulty.{bits_to_target, target_work, u256_mod}
use paritr_node.Validation.Seed.{PowVerifier, cumulative_work, work_from, add_work}
use paritr_node.Validation.Whole.{genesis_block, validate_genesis, validate_block}
use paritr_node.Chain.{from_blocks, validate_rest}

module _ ⦃p : Primitives⦄ where
  genesis_same : same_block genesis_block genesis_block ≡ true
  unfolding genesis_block
  genesis_same = bare_block_same_refl genesis_block refl refl refl

  -- The branch for height 0 asks only that the block is genesis, whatever stands before it.
  genesis-accepted :
      (history : List Block) (pow : PowVerifier) (now : ℕ)
      → validate_block genesis_block history empty_ledger pow now ≡ ok empty_ledger
  unfolding validate_block validate_genesis genesis_block
  genesis-accepted history pow now = rw genesis_same refl

  repeats-valid :
      (n : ℕ) (before : List Block) (pow : PowVerifier) (now : ℕ)
      → validate_rest before (replicate n genesis_block) empty_ledger pow now ≡ ok empty_ledger
  unfolding validate_rest
  repeats-valid zero before pow now = refl
  repeats-valid (suc n) before pow now =
      rw (genesis-accepted before pow now)
        (repeats-valid n (before ++ (genesis_block ∷ [])) pow now)

  repeats-work :
      (n total w : ℕ)
      → cumulative_work (genesis_block ∷ []) ≡ ok w
      → total + n * w < u256_mod
      → work_from total (replicate n genesis_block) ≡ ok (total + n * w)
  unfolding work_from cumulative_work
  repeats-work zero total w h fits = ap ok (omega arith)
  repeats-work (suc n) total w h fits =
      let (t, first, rest) = >>=-eq-ok (ok_or (bits_to_target genesis_block.header.bits) _) _ h in
      let (own, worked, rest) = >>=-eq-ok (target_work t) _ rest in
      let (sum, second, done) = >>=-eq-ok (ok_or (add_work 0 own) _) _ rest in
      let worth : own ≡ w = ground arith in
      let again = repeats-work n (total + w) w h (grind arith) in
      let added : add_work total own ≡ some (total + w) = ground (arith, worth) in
      rw (ok_or-eq-ok _ _ first, worked, added, again) (ap ok (grind arith))

  -- A list that repeats the genesis block is accepted as a chain: its ledger is empty, and its work
  -- counts the work of genesis once for each repetition, without a proof of work for any of them.
  pub repeated_genesis :
      (n w : ℕ) (pow : PowVerifier) (now : ℕ)
      → cumulative_work (genesis_block ∷ []) ≡ ok w
      → suc n * w < u256_mod
      → from_blocks (replicate (suc n) genesis_block) pow now
        ≡ ok (record {
          blocks = replicate (suc n) genesis_block;
          state = empty_ledger;
          cumulative_work = suc n * w;
        })
  unfolding from_blocks cumulative_work
  repeated_genesis n w pow now h fits =
      let work : cumulative_work (replicate (suc n) genesis_block) ≡ ok (suc n * w) =
        repeats-work (suc n) 0 w h (omega (arith, fits)) ∙ ap ok (omega arith) in
      let valid = repeats-valid n (genesis_block ∷ []) pow now in
      rw (genesis_same, valid, work) refl
