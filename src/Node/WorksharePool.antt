-- ===== src/Node/WorksharePool.antt =====
-- `struct WorksharePool`: the templates and workshares of the next block. A `HashMap` is an
-- association list, since its order is never read. A method that fails leaves the pool as it was.
pub mod Walk
pub mod Bounds
pub mod Work
pub mod Witnesses
pub mod Reached
use paritr_node.Prelude.{
  ℕ, zero, suc, ◌+◌, ◌*◌, Bool, true, false, not, ◌||◌, ◌&&◌, Option, none, some, List, [], ◌∷◌,
  map, any, length, ltb, leb, ◌==◌, if◌then◌else◌, saturating_add, Result, ok, err, panicked, ◌>>=◌,
  ◌>>◌, ok_or, fail_if,
}
use paritr_node.Prelude.Order.{bytes_ord, bytes_eq, bytes_lt}
use paritr_node.OrderedMap
use paritr_node.OrderedMap.{OrderedMap, lookup, insert}
use paritr_node.Codec.{consensus_encode}
use paritr_node.Crypto.{Primitives, Hash32, zero_hash}
use paritr_node.Errors.{ConsensusError, invalid_workshare_chain, size_limit, arithmetic_overflow}
use paritr_node.Params.{max_template_bytes, max_templates_per_block, max_workshares_per_block}
use paritr_node.Types.BlockTemplate
use paritr_node.Types.BlockTemplate.{BlockTemplate}
use paritr_node.Types.Workshare
use paritr_node.Types.Workshare.{Workshare}
use paritr_node.Types.Witness
use paritr_node.Types.Witness.{WorkshareWitness}
use paritr_node.Rewards.{workshare_weight}
use paritr_node.Validation.Seed.{add_work}

pub record WorksharePool : Type 0 where
  pub anchor : Hash32
  pub templates : OrderedMap Hash32 BlockTemplate
  pub template_bytes : ℕ
  pub shares : OrderedMap Hash32 Workshare
  pub path_work : OrderedMap Hash32 ℕ
  pub tip : Hash32

abbrev pub max_pool_template_bytes : ℕ
max_pool_template_bytes = 64 * 1024 * 1024

abbrev pub max_pool_shares : ℕ
max_pool_shares = 8_192

unfoldable pub reset : Hash32 → WorksharePool → WorksharePool
reset anchor pool = record {
  anchor = anchor;
  templates = [];
  template_bytes = 0;
  shares = [];
  path_work = [];
  tip = zero_hash;
}

-- `contains_key`
abbrev pub is_present {ℓ} : {A : Type ℓ} → Option A → Bool
is_present none = false
is_present (some a) = true

-- The loop that follows `previous_workshare` from `last`; `tail` are the workshares before it. As
-- the loop puts each in front, the list is that of the source after `reverse`. It is never longer
-- than `max_workshares_per_block`, so as much fuel is enough.
unfoldable pub walk :
    ℕ
    → OrderedMap Hash32 Workshare
    → Workshare
    → List Workshare
    → List Hash32
    → Result ConsensusError (List Workshare)
walk zero shares last tail seen = panicked
walk (suc fuel) shares last tail seen =
    if bytes_eq last.previous_workshare zero_hash then ok (last ∷ tail) else do
      fail_if
          (any (bytes_eq last.previous_workshare) seen
            || leb max_workshares_per_block (length (last ∷ tail)))
          invalid_workshare_chain
      next ← ok_or (lookup last.previous_workshare shares) invalid_workshare_chain
      walk fuel shares next (last ∷ tail) (last.previous_workshare ∷ seen)

-- The templates whose identifiers some workshare names.
unfoldable pub referenced_templates :
    List Hash32 → OrderedMap Hash32 BlockTemplate → List BlockTemplate
referenced_templates referenced [] = []
referenced_templates referenced ((id, template) ∷ rest) =
    let more = referenced_templates referenced rest in
    if any (bytes_eq id) referenced then template ∷ more else more

unfoldable pub candidate_witness :
    Workshare → WorksharePool → Result ConsensusError WorkshareWitness
candidate_witness share pool = do
  fail_if
      (not (bytes_eq share.candidate_header.previous_block pool.anchor)
        || not (is_present (lookup share.template_id pool.templates)))
      invalid_workshare_chain
  path ← walk max_workshares_per_block pool.shares share [] []
  ok (record {
    version = Witness.current_version;
    templates = referenced_templates (map (λ item. item.template_id) path) pool.templates;
    workshares = path;
  })

-- `.expect(..)`
abbrev pub expect_witness :
    Result ConsensusError WorkshareWitness → Result ConsensusError WorkshareWitness
expect_witness (ok w) = ok w
expect_witness _ = panicked

-- `self.shares[&self.tip]`
abbrev pub indexed : Option Workshare → Result ConsensusError Workshare
indexed none = panicked
indexed (some share) = ok share

unfoldable pub witness : WorksharePool → Result ConsensusError WorkshareWitness
witness pool = if bytes_eq pool.tip zero_hash then ok Witness.empty else do
  share ← indexed (lookup pool.tip pool.shares)
  expect_witness (candidate_witness share pool)

abbrev pub work_at : Hash32 → WorksharePool → ℕ
work_at id pool = OrderedMap.amount_at (λ w. w) (lookup id pool.path_work)

unfoldable pub parent_work : Workshare → WorksharePool → Result ConsensusError ℕ
parent_work share pool =
    if bytes_eq share.previous_workshare zero_hash
    then ok 0
    else ok_or (lookup share.previous_workshare pool.path_work) invalid_workshare_chain

-- The insertion of a workshare of this path work, and whether it is the new tip.
unfoldable pub insert_share : Hash32 → Workshare → ℕ → WorksharePool → WorksharePool × Bool
insert_share id share cumulative pool =
    let path_work = insert id cumulative pool.path_work in
    let pool' : WorksharePool = record pool {
      shares = insert id share pool.shares;
      path_work = path_work;
    } in
    let tip_work = work_at pool.tip pool' in
    if ltb tip_work cumulative || (cumulative == tip_work && bytes_lt id pool.tip)
    then (record pool' { tip = id }, true)
    else (pool', false)

module _ ⦃p : Primitives⦄ where
  abbrev pub size : BlockTemplate → ℕ
  size template = length (consensus_encode BlockTemplate.encode_to template)

  unfoldable pub register_template :
      BlockTemplate → WorksharePool → Result ConsensusError (WorksharePool × Hash32)
  register_template template pool = do
    fail_if
        (not (bytes_eq template.parent pool.anchor)
          || not (template.version == BlockTemplate.current_version)
          || ltb max_template_bytes (size template))
        invalid_workshare_chain
    if is_present (lookup (BlockTemplate.id template) pool.templates)
        then ok (pool, BlockTemplate.id template)
        else (do
          fail_if
              (leb max_templates_per_block (length pool.templates)
                || ltb max_pool_template_bytes (saturating_add pool.template_bytes (size template)))
              size_limit
          ok (
            record pool {
              template_bytes = pool.template_bytes + size template;
              templates = insert (BlockTemplate.id template) template pool.templates;
            },
            BlockTemplate.id template,
          ))

  unfoldable pub accept : Workshare → WorksharePool → Result ConsensusError (WorksharePool × Bool)
  unfolding parent_work insert_share
  accept share pool =
      if is_present (lookup (Workshare.id share) pool.shares) then ok (pool, false) else do
        fail_if (leb max_pool_shares (length pool.shares)) size_limit
        before ← parent_work share pool
        weight ← workshare_weight share.candidate_header.bits
        cumulative ← ok_or (add_work before weight) arithmetic_overflow
        ok (insert_share (Workshare.id share) share cumulative pool)
