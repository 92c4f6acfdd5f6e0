-- ===== src/Node/WorksharePool/Bounds.antt =====
-- The templates of a pool: their sizes are counted exactly, and their number and bytes are bounded.
use paritr_node.Prelude.{
  ◌+◌, ◌≤◌, ◌<◌, ◌≡◌, ap, sym, Option-cases, not, ◌||◌, none, inl, inr, [], ◌∷◌, length, leb, ltb,
  ◌==◌, saturating_add, arith, ok, >>-eq-ok,
}
use mathlib.Core.Path.{subst}
use paritr_node.Prelude.Order.{Ord, bytes_ord, bytes_eq}
use paritr_node.OrderedMap.{OrderedMap, lookup, insert, sum_values, IsSorted}
use paritr_node.OrderedMap.Sum.{sum-insert}
use paritr_node.OrderedMap.Sorted.{insert-IsSorted}
use paritr_node.Rewards.Exact.Totals.{ok-injective}
use paritr_node.Crypto.{Primitives, Hash32}
use paritr_node.Errors.{invalid_workshare_chain, size_limit}
use paritr_node.Params.{max_template_bytes, max_templates_per_block}
use paritr_node.Types.BlockTemplate
use paritr_node.Types.BlockTemplate.{BlockTemplate}
use paritr_node.Node.WorksharePool.{
  WorksharePool, reset, register_template, size, max_pool_template_bytes, max_pool_shares,
}

pub length-insert {ℓ κ} :
    {K : Type ℓ} {V : Type κ} ⦃o : Ord K⦄ (k : K) (v : V) (m : OrderedMap K V)
    → length (insert k v m) ≤ length m + 1
unfolding insert
length-insert k v [] = omega arith
length-insert k v ((j, w) ∷ m) = ground (arith, length-insert k v m)

module _ ⦃p : Primitives⦄ where
  pub record IsBounded (pool : WorksharePool) : Type 0 where
    pub sorted : IsSorted pool.templates
    pub counted : pool.template_bytes ≡ sum_values size pool.templates
    pub bytes : pool.template_bytes ≤ max_pool_template_bytes
    pub count : length pool.templates ≤ max_templates_per_block
    pub share_count : length pool.shares ≤ max_pool_shares

  pub reset-IsBounded : (anchor : Hash32) (pool : WorksharePool) → IsBounded (reset anchor pool)
  unfolding reset
  reset-IsBounded anchor pool = record {
    sorted = tt;
    counted = omega arith;
    bytes = omega arith;
    count = omega arith;
    share_count = omega arith;
  }

  -- A registration that succeeds found the template there and changed nothing, or added it.
  pub data Registers (template : BlockTemplate) (pool pool' : WorksharePool) : Type 0 where
    found : pool' ≡ pool → Registers template pool pool'
    added :
        lookup (BlockTemplate.id template) pool.templates ≡ none
        → length pool.templates < max_templates_per_block
        → pool.template_bytes + size template ≤ max_pool_template_bytes
        → pool' ≡ record pool {
          template_bytes = pool.template_bytes + size template;
          templates = insert (BlockTemplate.id template) template pool.templates;
        }
        → Registers template pool pool'

  pub register_template-Registers :
      (template : BlockTemplate) (pool pool' : WorksharePool) (id : Hash32)
      → register_template template pool ≡ ok (pool', id)
      → Registers template pool pool'
  unfolding register_template
  register_template-Registers template pool pool' id h =
      let (_, rest) =
        >>-eq-ok
          (not (bytes_eq template.parent pool.anchor)
            || not (template.version == BlockTemplate.current_version)
            || ltb max_template_bytes (size template))
          invalid_workshare_chain _ h in
      elim (Option-cases (lookup (BlockTemplate.id template) pool.templates)) [
        | inr (t, known_one) ↦
            let done = ok-injective (rw known_one at rest) in
            found (ap (λ (x : WorksharePool × Hash32). x.0) (sym done))
        | inl fresh ↦
            let (room, done) =
              >>-eq-ok
                (leb max_templates_per_block (length pool.templates)
                  || ltb max_pool_template_bytes
                      (saturating_add pool.template_bytes (size template)))
                size_limit _ (rw fresh at rest) in
            added fresh (ground arith) (ground arith)
              (ap (λ (x : WorksharePool × Hash32). x.0) (sym (ok-injective done)))
      ]

  -- Registering a template keeps the bytes of the pool equal to the sizes of its templates, and
  -- both the bytes and the number of templates within their limits.
  pub register_template-IsBounded :
      (template : BlockTemplate) (pool pool' : WorksharePool) (id : Hash32)
      → IsBounded pool
      → register_template template pool ≡ ok (pool', id)
      → IsBounded pool'
  register_template-IsBounded template pool pool' id b h =
      go (register_template-Registers template pool pool' id h)
    where
      go : Registers template pool pool' → IsBounded pool'
      go (found same) = subst IsBounded (sym same) b
      go (added fresh count bytes same) = subst IsBounded (sym same) (record {
        sorted = insert-IsSorted (BlockTemplate.id template) template pool.templates b.sorted;
        counted = ground (
          arith,
          b.counted,
          fresh,
          sum-insert size (BlockTemplate.id template) template pool.templates b.sorted,
        );
        bytes = bytes;
        count = omega (arith, length-insert (BlockTemplate.id template) template pool.templates);
        share_count = b.share_count;
      })
