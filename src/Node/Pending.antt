-- ===== src/Node/Pending.antt =====
-- The workshares that wait for their template or their predecessor, each with the peer that sent it.
-- `arrange` lists the entries of the source's `HashMap` in the order in which it is walked, which is not
-- fixed.
use paritr_node.Prelude.{
  ℕ, zero, suc, Bool, not, ◌||◌, ◌&&◌, Option, none, some, List, [], ◌∷◌, if◌then◌else◌,
}
use paritr_node.Prelude.Order.{bytes_ord, bytes_eq}
use paritr_node.OrderedMap
use paritr_node.OrderedMap.{OrderedMap, lookup}
use paritr_node.Crypto.{Primitives, Hash32, zero_hash}
use paritr_node.Types.Workshare.{Workshare}
use paritr_node.Validation.Seed.{PowVerifier}
use paritr_node.Network.ObjectKind
use paritr_node.Network.WireMessage.{WireMessage, get_data}
use paritr_node.Node.WorksharePool.{WorksharePool, is_present}
use paritr_node.Node.State.{Node}
use paritr_node.Node.Submissions.{submit_workshare}

abbrev pub Pending : Type 0
Pending = OrderedMap Hash32 (Hash32 × Workshare)

abbrev pub missing_template : WorksharePool → Workshare → Bool
missing_template pool share = not (is_present (lookup share.template_id pool.templates))

abbrev pub missing_previous : WorksharePool → Workshare → Bool
missing_previous pool share =
    not (bytes_eq share.previous_workshare zero_hash)
    && not (is_present (lookup share.previous_workshare pool.shares))

-- The first workshare whose template and predecessor are in the pool.
unfoldable pub find_ready :
    WorksharePool → List (Hash32 × (Hash32 × Workshare)) → Option (Hash32 × Workshare)
find_ready pool [] = none
find_ready pool ((id, (peer, share)) ∷ rest) =
    if missing_template pool share || missing_previous pool share
    then find_ready pool rest
    else some (id, share)

-- The request for what the first waiting workshare of a peer lacks.
unfoldable pub find_request :
    WorksharePool → Hash32 → List (Hash32 × (Hash32 × Workshare)) → Option WireMessage
find_request pool peer [] = none
find_request pool peer ((id, (origin, share)) ∷ rest) =
    let more = find_request pool peer rest in
    if not (bytes_eq origin peer)
    then more
    else if missing_template pool share
    then some (get_data ObjectKind.template share.template_id)
    else if missing_previous pool share
    then some (get_data ObjectKind.workshare share.previous_workshare)
    else more

module _ ⦃p : Primitives⦄ {S : Type 0} (arrange : Pending → List (Hash32 × (Hash32 × Workshare)))
    (pow : PowVerifier) where
  -- One round of the loop for each workshare that waits: a round takes one out.
  unfoldable pub process_pending_workshares : ℕ → ℕ → Node S → Node S
  unfolding find_ready submit_workshare
  process_pending_workshares zero now node = node
  process_pending_workshares (suc fuel) now node =
      elim (find_ready node.workshares (arrange node.pending_workshares)) [
        | none ↦ node
        | some (id, share) ↦
            process_pending_workshares fuel now
              (submit_workshare pow now share (record node {
                pending_workshares = OrderedMap.remove id node.pending_workshares;
              })).0
      ]

  unfoldable pub pending_request_for : Hash32 → Node S → Option WireMessage
  unfolding find_request
  pending_request_for peer node =
      find_request node.workshares peer (arrange node.pending_workshares)
