-- ===== src/Node/Peers.antt =====
-- `Node::peer_connected` and `peer_disconnected`: one connection for each identity, and limits for
-- each direction.
pub mod Limits
use paritr_node.Prelude.{
  ℕ, ◌+◌, Bool, true, false, not, Option, none, some, List, [], ◌∷◌, leb, if◌then◌else◌,
}
use paritr_node.Prelude.Order.{bytes_ord, bytes_eq}
use paritr_node.OrderedMap
use paritr_node.OrderedMap.{OrderedMap, lookup, insert}
use paritr_node.Crypto.{Hash32}
use paritr_node.Node.WorksharePool.{is_present}
use paritr_node.Node.State.{Node}
use paritr_node.Node.Pending.{Pending}

abbrev pub same_bool : Bool → Bool → Bool
same_bool true b = b
same_bool false b = not b

abbrev pub one_if : Bool → ℕ
one_if true = 1
one_if false = 0

-- `peers.values().filter(|direction| **direction == inbound).count()`
abbrev pub direction_count : Bool → OrderedMap Hash32 Bool → ℕ
direction_count inbound peers =
    OrderedMap.sum_values (λ direction. one_if (same_bool direction inbound)) peers

abbrev pub limit_for : {S : Type 0} → Bool → Node S → ℕ
limit_for inbound node = if inbound then node.max_inbound_peers else node.max_outbound_peers

-- `pending.retain(|_, (peer, _)| *peer != id)`
unfoldable pub retain_others : Hash32 → Pending → Pending
retain_others id [] = []
retain_others id ((key, (peer, share)) ∷ rest) =
    let kept = retain_others id rest in
    if bytes_eq peer id then kept else (key, (peer, share)) ∷ kept

module _ {S : Type 0} where
  unfoldable pub peer_connected : Hash32 → Bool → Node S → Node S × Bool
  peer_connected id inbound node =
      if is_present (lookup id node.connected_peers)
      then (node, false)
      else if leb (limit_for inbound node) (direction_count inbound node.connected_peers)
      then (node, false)
      else (record node { connected_peers = insert id inbound node.connected_peers }, true)

  unfoldable pub peer_disconnected : Hash32 → Node S → Node S
  unfolding retain_others
  peer_disconnected id node = record node {
    connected_peers = OrderedMap.remove id node.connected_peers;
    sync_queues = OrderedMap.remove id node.sync_queues;
    pending_workshares = retain_others id node.pending_workshares;
  }
