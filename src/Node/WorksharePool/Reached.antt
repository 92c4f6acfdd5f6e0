-- ===== src/Node/WorksharePool/Reached.antt =====
-- The pools that a node can come to, and the witness that each of them has for the next block.
use mathlib.Core.Path.{subst}
use paritr_node.Prelude.{
  ◌+◌, ◌≤◌, ◌≡◌, ◌≢◌, ◌⊎◌, refl, ap, sym, ◌∙◌, Bool, true, false, Bool-cases, some, inl, inr, [],
  length, arith, ok,
}
use paritr_node.Prelude.Order.{bytes_ord, bytes_eq, eq_of_bytes_eq, bytes_eq_ne}
use paritr_node.OrderedMap.{lookup, insert, same}
use paritr_node.OrderedMap.Lookup.{lookup-insert, lookup-insert_fresh}
use paritr_node.Crypto.{Primitives, Hash32, zero_hash}
use paritr_node.Params.{max_workshares_per_block}
use paritr_node.Types.BlockTemplate
use paritr_node.Types.BlockTemplate.{BlockTemplate}
use paritr_node.Types.Workshare
use paritr_node.Types.Workshare.{Workshare}
use paritr_node.Types.Witness
use paritr_node.Types.Witness.{WorkshareWitness}
use paritr_node.Node.WorksharePool.{
  WorksharePool, reset, register_template, accept, candidate_witness, witness, work_at, size,
}
use paritr_node.Node.WorksharePool.Walk.{Extends, walk-Extends, length-walk}
use paritr_node.Node.WorksharePool.Bounds.{
  IsBounded, reset-IsBounded, length-insert, register_template-IsBounded, Registers,
  register_template-Registers,
}
use paritr_node.Node.WorksharePool.Work.{
  IsWorked, IsWorked-templates, reset-IsWorked, accept-IsWorked, Accepts, accept-Accepts,
  insert_share_lem, insert_share-tip, same-eq, same_self, Adds,
}
use paritr_node.Node.WorksharePool.Witnesses.{
  path_weight, weight_of_share, walk-work, IsLinked, IsKeyed, walk-IsLinked, Witnessed,
  candidate_witness-Witnessed, Witnessed-candidate_witness,
}

module _ ⦃p : Primitives⦄ where
  -- The tip has a witness, unless there is none.
  abbrev pub HasWitness : WorksharePool → Type 0
  HasWitness pool =
      (pool.tip ≡ zero_hash)
      ⊎ ((share : Workshare) × (w : WorkshareWitness) × (lookup pool.tip pool.shares ≡ some share)
          × Witnessed share pool w)

  -- A pool at the same anchor, with more in it.
  pub record Grows (pool pool' : WorksharePool) : Type 0 where
    pub anchor : pool'.anchor ≡ pool.anchor
    pub shares : Extends pool.shares pool'.shares
    pub templates :
        (id : Hash32) (t : BlockTemplate)
        → lookup id pool.templates ≡ some t
        → (t' : BlockTemplate) × (lookup id pool'.templates ≡ some t')

  Grows-Witnessed :
      (share : Workshare) (pool pool' : WorksharePool) (w : WorkshareWitness)
      → Grows pool pool'
      → Witnessed share pool w
      → Witnessed share pool' w
  Grows-Witnessed share pool pool' w g h =
      let (t, there) = g.templates share.template_id h.template h.template_eq in
      record {
        anchored = rw g.anchor h.anchored;
        template = t;
        template_eq = there;
        path =
            walk-Extends max_workshares_per_block pool.shares pool'.shares share [] [] w.workshares
              g.shares h.path;
      }

  -- The pools of a node: emptied for a new tip of the chain, given templates, and given workshares
  -- that have a witness.
  pub data Reached : WorksharePool → Type 0 where
    emptied : (anchor : Hash32) (pool : WorksharePool) → Reached (reset anchor pool)
    registered :
        {pool pool' : WorksharePool} (template : BlockTemplate) (id : Hash32)
        → Reached pool
        → register_template template pool ≡ ok (pool', id)
        → Reached pool'
    submitted :
        {pool pool' : WorksharePool} (share : Workshare) (w : WorkshareWitness) (changed : Bool)
        → Reached pool
        → candidate_witness share pool ≡ ok w
        → accept share pool ≡ ok (pool', changed)
        → Reached pool'

  pub record IsSound (pool : WorksharePool) : Type 0 where
    pub bounded : IsBounded pool
    pub worked : IsWorked pool
    pub keyed : IsKeyed pool.shares
    pub witnessed : HasWitness pool

  HasWitness-Grows :
      (pool pool' : WorksharePool)
      → Grows pool pool'
      → pool'.tip ≡ pool.tip
      → HasWitness pool
      → HasWitness pool'
  HasWitness-Grows pool pool' g same (inl none_yet) = inl (same ∙ none_yet)
  HasWitness-Grows pool pool' g same (inr (share, w, there, h)) =
      inr
        (share, w, rw same (g.shares pool.tip share there), Grows-Witnessed share pool pool' w g h)

  register_template-IsSound :
      (template : BlockTemplate) (pool pool' : WorksharePool) (id : Hash32)
      → IsSound pool
      → register_template template pool ≡ ok (pool', id)
      → IsSound pool'
  register_template-IsSound template pool pool' id s h =
      go (register_template-Registers template pool pool' id h)
    where
      go : Registers template pool pool' → IsSound pool'
      go (Registers.found same) = subst IsSound (sym same) s
      go (Registers.added fresh count bytes same) =
          let bounded = register_template-IsBounded template pool pool' id s.bounded h in
          let id' = BlockTemplate.id template in
          let more = record pool {
            template_bytes = pool.template_bytes + size template;
            templates = insert id' template pool.templates;
          } in
          record {
            bounded = bounded;
            worked = subst IsWorked (sym same) (IsWorked-templates pool _ _ s.worked);
            keyed = subst (λ (q : WorksharePool). IsKeyed q.shares) (sym same) s.keyed;
            witnessed = subst HasWitness (sym same) (
                HasWitness-Grows pool more
                  (record {
                    anchor = refl;
                    shares = λ id s e. e;
                    templates =
                        λ k t e. (t, lookup-insert_fresh id' k template t pool.templates fresh e);
                  })
                  refl s.witnessed);
          }

  insert_share-Grows :
      (share : Workshare) (pool pool' : WorksharePool) (changed : Bool)
      → Adds (Workshare.id share) share pool pool' changed
      → Grows pool pool'
  insert_share-Grows share pool pool' changed a =
      let parts =
        insert_share_lem (Workshare.id share) share (a.before + a.weight) pool pool' changed
          a.result in
      record {
        anchor = parts.0;
        shares = λ k s e.
            rw (parts.2) (lookup-insert_fresh (Workshare.id share) k share s pool.shares a.fresh e);
        templates = λ k t e. (t, rw (parts.1) e);
      }

  accept-IsKeyed :
      (share : Workshare) (pool pool' : WorksharePool) (changed : Bool)
      → Adds (Workshare.id share) share pool pool' changed
      → IsKeyed pool.shares
      → IsKeyed pool'.shares
  accept-IsKeyed share pool pool' changed a k id s e =
      let own = Workshare.id share in
      let parts = insert_share_lem own share (a.before + a.weight) pool pool' changed a.result in
      let e' = rw (parts.2, lookup-insert own id share pool.shares) at e in
      elim (Bool-cases (same id own)) [
        | inl new ↦
            let it : share ≡ s = ground arith in ap Workshare.id (sym it) ∙ sym (same-eq id own new)
        | inr old ↦ k id s (rw old at e')
      ]

  accept-HasWitness :
      (share : Workshare) (w : WorkshareWitness) (pool pool' : WorksharePool) (changed : Bool)
      → Adds (Workshare.id share) share pool pool' changed
      → Witnessed share pool w
      → HasWitness pool
      → HasWitness pool'
  accept-HasWitness share w pool pool' changed a h old =
      let own = Workshare.id share in
      let g = insert_share-Grows share pool pool' changed a in
      let parts = insert_share_lem own share (a.before + a.weight) pool pool' changed a.result in
      elim (insert_share-tip own share (a.before + a.weight) pool pool' changed a.result) [
        | inl (mine, _) ↦ inr (
          share,
          w,
          rw (mine, parts.2, lookup-insert own own share pool.shares, same_self own) refl,
          Grows-Witnessed share pool pool' w g h,
        )
        | inr (kept, _) ↦ HasWitness-Grows pool pool' g kept old
      ]

  accept-IsSound :
      (share : Workshare) (w : WorkshareWitness) (pool pool' : WorksharePool) (changed : Bool)
      → IsSound pool
      → candidate_witness share pool ≡ ok w
      → accept share pool ≡ ok (pool', changed)
      → IsSound pool'
  accept-IsSound share w pool pool' changed s c h = go (accept-Accepts share pool pool' changed h)
    where
      go : Accepts share pool pool' changed → IsSound pool'
      go (Accepts.already kept unchanged) = subst IsSound (sym kept) s
      go (Accepts.adds a) =
          let parts =
            insert_share_lem (Workshare.id share) share (a.before + a.weight) pool pool' changed
              a.result in
          record {
            bounded = record {
              sorted = rw (parts.1) s.bounded.sorted;
              counted = rw (parts.1, parts.4) s.bounded.counted;
              bytes = rw (parts.4) s.bounded.bytes;
              count = rw (parts.1) s.bounded.count;
              share_count =
                  rw (parts.2)
                    (omega (arith, length-insert (Workshare.id share) share pool.shares, a.count));
            };
            worked = accept-IsWorked share pool pool' changed s.worked h;
            keyed = accept-IsKeyed share pool pool' changed a s.keyed;
            witnessed =
                accept-HasWitness share w pool pool' changed a
                  (candidate_witness-Witnessed share pool w c) s.witnessed;
          }

  Reached-IsSound : {pool : WorksharePool} → Reached pool → IsSound pool
  unfolding reset
  Reached-IsSound (emptied anchor pool) = record {
    bounded = reset-IsBounded anchor pool;
    worked = reset-IsWorked anchor pool;
    keyed = λ id s e. absurd (unfold lookup in cc);
    witnessed = inl refl;
  }
  Reached-IsSound (registered template id r h) =
      register_template-IsSound template _ _ id (Reached-IsSound r) h
  Reached-IsSound (submitted share w changed r c h) =
      accept-IsSound share w _ _ changed (Reached-IsSound r) c h

  -- What a node builds a block from: the workshares of one unbroken path, at most 512 of them, which
  -- is as heavy as the heaviest path of the pool.
  pub record IsHeaviest (pool : WorksharePool) (w : WorkshareWitness) : Type 0 where
    pub count : length w.workshares ≤ max_workshares_per_block
    pub linked : IsLinked zero_hash w.workshares
    pub weight : path_weight w.workshares ≡ work_at pool.tip pool
    pub most : (id : Hash32) → work_at id pool ≤ path_weight w.workshares

  heaviest_witness :
      (pool : WorksharePool) (share : Workshare) (w : WorkshareWitness)
      → IsSound pool
      → lookup pool.tip pool.shares ≡ some share
      → Witnessed share pool w
      → IsHeaviest pool w
  heaviest_witness pool share w s there h =
      let v = s.worked.weighed pool.tip share there in
      let sum =
        walk-work pool max_workshares_per_block share [] [] w.workshares v.before s.worked
          v.before_eq h.path in
      let own : weight_of_share share ≡ v.weight = rw v.weight_eq refl in
      let tip : work_at pool.tip pool ≡ v.before + v.weight = rw v.path refl in
      let all : path_weight w.workshares ≡ work_at pool.tip pool = omega (arith, sum, own, tip) in
      record {
        count =
            length-walk max_workshares_per_block pool.shares share [] [] w.workshares (omega arith)
              h.path;
        linked =
            walk-IsLinked max_workshares_per_block pool.shares share [] [] w.workshares s.keyed tt
              h.path;
        weight = all;
        most = λ id. omega (arith, all, s.worked.heaviest id);
      }

  -- A pool that a node comes to has a witness for the next block: the expectations in `witness` hold.
  -- With a tip, the witness is the heaviest path of the pool, unbroken from its first workshare.
  pub witness-IsHeaviest :
      {pool : WorksharePool}
      → Reached pool
      → (w : WorkshareWitness) × (witness pool ≡ ok w) × (pool.tip ≢ zero_hash → IsHeaviest pool w)
  unfolding witness
  witness-IsHeaviest {pool} r = go (Bool-cases (bytes_eq pool.tip zero_hash)) s.witnessed
    where
      s : IsSound pool
      s = Reached-IsSound r

      go :
          (bytes_eq pool.tip zero_hash ≡ true) ⊎ (bytes_eq pool.tip zero_hash ≡ false)
          → HasWitness pool
          → (w : WorkshareWitness) × (witness pool ≡ ok w)
            × (pool.tip ≢ zero_hash → IsHeaviest pool w)
      go (inl none_yet) h = (
        Witness.empty,
        rw none_yet refl,
        λ some_tip. absurd (some_tip (eq_of_bytes_eq pool.tip zero_hash none_yet)),
      )
      go (inr some_tip) (inl none_yet) = absurd (bytes_eq_ne pool.tip zero_hash some_tip none_yet)
      go (inr some_tip) (inr (share, w, there, h)) =
          let (w', made, same_path) = Witnessed-candidate_witness share pool w h in
          (
            w',
            rw (some_tip, there, made) refl,
            λ _.
                heaviest_witness pool share w' s there
                  (candidate_witness-Witnessed share pool w' made),
          )
