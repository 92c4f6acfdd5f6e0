-- ===== src/Node/State.antt =====
-- `struct Node`: the fields that its operations on the chain, the pools and the peers read and write.
-- The database is a parameter: `Storage` holds its three operations, of a state of its own.
use paritr_node.Prelude.{ℕ, Bool, Option, List, [], ◌∷◌, ◌++◌, Result, wrapping_add}
use paritr_node.OrderedMap.{OrderedMap}
use paritr_node.Crypto.{Hash32}
use paritr_node.Types.Block.{Block}
use paritr_node.Types.Workshare.{Workshare}
use paritr_node.Chain.{Chain}
use paritr_node.Mempool.{Mempool}
use paritr_node.Network.WireMessage.{WireMessage}
use paritr_node.Node.WorksharePool.{WorksharePool}

pub data StorageError : Type 0 where
  failed : StorageError

pub record Storage (S : Type 0) : Type 0 where
  pub stored_block : Hash32 → S → Result StorageError (Option Block)
  pub store_side_block : Block → S → S × Result StorageError (Unit {0})
  pub save_chain : Chain → S → S × Result StorageError (Unit {0})

pub record Node (S : Type 0) : Type 0 where
  pub max_inbound_peers : ℕ
  pub max_outbound_peers : ℕ
  pub storage : S
  pub chain : Chain
  pub mempool : Mempool
  pub workshares : WorksharePool
  pub connected_peers : OrderedMap Hash32 Bool
  pub sync_queues : OrderedMap Hash32 (List Hash32)
  pub pending_workshares : OrderedMap Hash32 (Hash32 × Workshare)
  pub generation : ℕ
  pub events : List WireMessage

-- `self.events.send(..)`: the messages sent so far, the latest last.
abbrev pub send : {S : Type 0} → WireMessage → Node S → Node S
send message node = record node { events = node.events ++ (message ∷ []) }

-- `self.generation.fetch_add(1, ..)`
abbrev pub next_generation : {S : Type 0} → Node S → Node S
next_generation node = record node { generation = wrapping_add node.generation 1 }
