-- ===== src/Node/WorksharePool/Witnesses.antt =====
-- The witness for a workshare: how its path is linked and what it weighs.

use paritr_node.Prelude.{
  ℕ, zero, suc, ◌+◌, ◌≡◌, refl, ap, sym, ◌∙◌, true, Bool-cases, Option-cases, not, ◌||◌, some, inl,
  inr, List, [], ◌∷◌, map, sum_by, arith, Result, ok, >>-eq-ok, >>=-eq-ok, ok_or-eq-ok,
}
use paritr_node.Prelude.Order.{bytes_ord, bytes_eq, eq_of_bytes_eq}
use paritr_node.OrderedMap.{OrderedMap, lookup}
use paritr_node.Rewards.Exact.Totals.{ok-injective}
use paritr_node.Crypto.{Primitives, Hash32, zero_hash}
use paritr_node.Errors.{ConsensusError, invalid_workshare_chain}
use paritr_node.Params.{max_workshares_per_block}
use paritr_node.Rewards.{workshare_weight}
use paritr_node.Types.BlockTemplate.{BlockTemplate}
use paritr_node.Types.Workshare
use paritr_node.Types.Workshare.{Workshare}
use paritr_node.Types.Witness
use paritr_node.Types.Witness.{WorkshareWitness}
use paritr_node.Node.WorksharePool.{
  WorksharePool, candidate_witness, walk, referenced_templates, parent_work, is_present,
}
use paritr_node.Node.WorksharePool.Walk.{walk-step, walk-end}
use paritr_node.Node.WorksharePool.Work.{IsWorked}

abbrev pub known_weight : Result ConsensusError ℕ → ℕ
known_weight (ok w) = w
known_weight _ = 0

abbrev pub weight_of_share : Workshare → ℕ
weight_of_share s = known_weight (workshare_weight s.candidate_header.bits)

-- The work of a list of workshares.
abbrev pub path_weight : List Workshare → ℕ
path_weight path = sum_by weight_of_share path

-- The walk from a workshare collects all the work of its path.
pub walk-work :
    (pool : WorksharePool) (fuel : ℕ) (last : Workshare) (tail : List Workshare)
    (seen : List Hash32) (path : List Workshare) (before : ℕ)
    → IsWorked pool
    → parent_work last pool ≡ ok before
    → walk fuel pool.shares last tail seen ≡ ok path
    → path_weight path ≡ path_weight (last ∷ tail) + before
unfolding walk parent_work
walk-work pool zero last tail seen path before w e h = cc
walk-work pool (suc fuel) last tail seen path before w e h =
    elim (Bool-cases (bytes_eq last.previous_workshare zero_hash)) [
      | inl done ↦
          let nothing : 0 ≡ before = ok-injective (rw done at e) in
          rw (walk-end fuel pool.shares last tail seen path done h) (omega (arith, nothing))
      | inr further ↦
          let (_, s) = walk-step fuel pool.shares last tail seen path further h in
          let v = w.weighed last.previous_workshare s.next s.found in
          let found =
            ok_or-eq-ok (lookup last.previous_workshare pool.path_work) invalid_workshare_chain
              (rw further at e) in
          let total : before ≡ v.before + v.weight = ground (arith, found, v.path) in
          let rest =
            walk-work pool fuel s.next (last ∷ tail) (last.previous_workshare ∷ seen) path v.before
              w v.before_eq s.rest in
          let own : weight_of_share s.next ≡ v.weight = rw v.weight_eq refl in
          omega (arith, rest, total, own)
    ]

module _ ⦃p : Primitives⦄ where
  -- Each workshare names the one before it; the first names `previous`.
  abbrev pub IsLinked : Hash32 → List Workshare → Type 0
  IsLinked previous [] = Unit {0}
  IsLinked previous (s ∷ rest) = (s.previous_workshare ≡ previous) × IsLinked (Workshare.id s) rest

  -- The workshares stand under their identifiers.
  abbrev pub IsKeyed : OrderedMap Hash32 Workshare → Type 0
  IsKeyed shares = (id : Hash32) (s : Workshare) → lookup id shares ≡ some s → Workshare.id s ≡ id

  pub walk-IsLinked :
      (fuel : ℕ) (shares : OrderedMap Hash32 Workshare) (last : Workshare) (tail : List Workshare)
      (seen : List Hash32) (path : List Workshare)
      → IsKeyed shares
      → IsLinked (Workshare.id last) tail
      → walk fuel shares last tail seen ≡ ok path
      → IsLinked zero_hash path
  unfolding walk
  walk-IsLinked zero shares last tail seen path k l h = cc
  walk-IsLinked (suc fuel) shares last tail seen path k l h =
      elim (Bool-cases (bytes_eq last.previous_workshare zero_hash)) [
        | inl done ↦
            rw (walk-end fuel shares last tail seen path done h)
              (eq_of_bytes_eq last.previous_workshare zero_hash done, l)
        | inr further ↦
            let (_, s) = walk-step fuel shares last tail seen path further h in
            walk-IsLinked fuel shares s.next (last ∷ tail) (last.previous_workshare ∷ seen) path k
              (sym (k last.previous_workshare s.next s.found), l) s.rest
      ]

  -- What a witness for a workshare is made of.
  pub record Witnessed (share : Workshare) (pool : WorksharePool) (w : WorkshareWitness)
      : Type 0 where
    pub anchored : bytes_eq share.candidate_header.previous_block pool.anchor ≡ true
    pub template : BlockTemplate
    pub template_eq : lookup share.template_id pool.templates ≡ some template
    pub path : walk max_workshares_per_block pool.shares share [] [] ≡ ok w.workshares

  pub candidate_witness-Witnessed :
      (share : Workshare) (pool : WorksharePool) (w : WorkshareWitness)
      → candidate_witness share pool ≡ ok w
      → Witnessed share pool w
  unfolding candidate_witness
  candidate_witness-Witnessed share pool w h =
      let (good, rest) =
        >>-eq-ok
          (not (bytes_eq share.candidate_header.previous_block pool.anchor)
            || not (is_present (lookup share.template_id pool.templates)))
          invalid_workshare_chain _ h in
      let (path, walked, done) =
        >>=-eq-ok (walk max_workshares_per_block pool.shares share [] []) _ rest in
      elim (Option-cases (lookup share.template_id pool.templates)) [
        | inl missing ↦ absurd (ground (arith, good, missing))
        | inr (template, there) ↦ record {
          anchored = ground (arith, good);
          template = template;
          template_eq = there;
          path = walked ∙ ap (λ (x : WorkshareWitness). ok x.workshares) (ok-injective done);
        }
      ]

  pub Witnessed-candidate_witness :
      (share : Workshare) (pool : WorksharePool) (w : WorkshareWitness)
      → Witnessed share pool w
      → (w' : WorkshareWitness) × (candidate_witness share pool ≡ ok w')
        × (w'.workshares ≡ w.workshares)
  unfolding candidate_witness
  Witnessed-candidate_witness share pool w h = (
    record {
      version = Witness.current_version;
      templates = referenced_templates (map (λ item. item.template_id) w.workshares) pool.templates;
      workshares = w.workshares;
    },
    rw (h.anchored, h.template_eq, h.path) refl,
    refl,
  )
