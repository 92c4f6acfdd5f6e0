-- ===== src/Node/Peers/Limits.antt =====
-- The connections of a node stay within the limits of their directions.
use paritr_node.Prelude.{
  ◌+◌, ◌≤◌, ◌≡◌, Bool, true, false, Bool-cases, Option-cases, none, inl, inr, arith, leb,
}
use paritr_node.Prelude.Order.{bytes_ord}
use paritr_node.OrderedMap.{IsSorted, lookup, insert}
use paritr_node.OrderedMap.Sum.{sum-insert, sum-remove}
use paritr_node.OrderedMap.Sorted.{insert-IsSorted, remove-IsSorted}
use paritr_node.Crypto.{Hash32}
use paritr_node.Node.State.{Node}
use paritr_node.Node.Peers.{
  peer_connected, peer_disconnected, direction_count, limit_for, one_if, same_bool,
}

-- Each identity stands once, and neither direction has more peers than its limit.
pub record WithinLimits {S : Type 0} (node : Node S) : Type 0 where
  pub sorted : IsSorted node.connected_peers
  pub inbound : direction_count true node.connected_peers ≤ node.max_inbound_peers
  pub outbound : direction_count false node.connected_peers ≤ node.max_outbound_peers

module _ {S : Type 0} where
  direction_count-insert :
      (d : Bool) (id : Hash32) (inbound : Bool) (node : Node S)
      → WithinLimits node
      → lookup id node.connected_peers ≡ none
      → direction_count d (insert id inbound node.connected_peers)
        ≡ direction_count d node.connected_peers + one_if (same_bool inbound d)
  direction_count-insert d id inbound node w new =
      let sum = sum-insert (λ b. one_if (same_bool b d)) id inbound node.connected_peers w.sorted in
      omega (arith, rw new at sum)

  added :
      (id : Hash32) (inbound : Bool) (node : Node S)
      → WithinLimits node
      → lookup id node.connected_peers ≡ none
      → leb (limit_for inbound node) (direction_count inbound node.connected_peers) ≡ false
      → WithinLimits (record node { connected_peers = insert id inbound node.connected_peers })
  added id true node w new room = record {
    sorted = insert-IsSorted id true node.connected_peers w.sorted;
    inbound = ground (arith, room, direction_count-insert true id true node w new);
    outbound = ground (arith, w.outbound, direction_count-insert false id true node w new);
  }
  added id false node w new room = record {
    sorted = insert-IsSorted id false node.connected_peers w.sorted;
    inbound = ground (arith, w.inbound, direction_count-insert true id false node w new);
    outbound = ground (arith, room, direction_count-insert false id false node w new);
  }

  -- A new connection, or one that is refused, leaves both directions within their limits.
  pub peer_connected-WithinLimits :
      (id : Hash32) (inbound : Bool) (node : Node S)
      → WithinLimits node
      → WithinLimits (peer_connected id inbound node).0
  unfolding peer_connected
  peer_connected-WithinLimits id inbound node w =
      elim (Option-cases (lookup id node.connected_peers)) [
        | inr (direction, there) ↦ rw there w
        | inl new ↦
            elim (Bool-cases
              (leb (limit_for inbound node) (direction_count inbound node.connected_peers))) [
                | inl full ↦ rw (new, full) w
                | inr room ↦ rw (new, room) (added id inbound node w new room)
              ]
      ]

  -- A peer that leaves frees its place, and the limits still hold.
  pub peer_disconnected-WithinLimits :
      (id : Hash32) (node : Node S) → WithinLimits node → WithinLimits (peer_disconnected id node)
  unfolding peer_disconnected
  peer_disconnected-WithinLimits id node w = record {
    sorted = remove-IsSorted id node.connected_peers w.sorted;
    inbound = omega (
      arith,
      w.inbound,
      sum-remove (λ d. one_if (same_bool d true)) id node.connected_peers w.sorted,
    );
    outbound = omega (
      arith,
      w.outbound,
      sum-remove (λ d. one_if (same_bool d false)) id node.connected_peers w.sorted,
    );
  }
