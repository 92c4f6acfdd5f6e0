-- ===== src/Lib.antt =====
-- The Paritr node: a verification of Protocol 9's ledger, blocks and chain, of the pools of
-- transactions and workshares that wait for a block, of the messages of the network, and of the node
-- that joins them.
--
-- A block claims a reward, holds transactions and a witness of workshares, and commits to the ledger
-- that follows it. `validate_block` checks a block against its parent's history and ledger and returns
-- the next ledger; the chain runs it on every block and prefers the history of most work; the pool
-- keeps transactions by local policy. A node holds one chain and both pools; blocks, transactions,
-- templates and workshares reach it by submission or in the message of a peer, and each message is
-- answered from the node's state.
--
-- Which file models which part (paths from the repository's root):
-- - Prelude and its children: machine integers with their wrapping written out, lists, results with a
--   third outcome for a panic, comparisons. OrderedMap: an association list in key order, for the
--   source's maps.
-- - Codec: src/codec.rs. A writer is the bytes so far, a decoder a function of a reader. Codec.Reads
--   and Codec.Spells are the two rules by which each object's decoder is proved: it reads back what
--   was written, and it accepts one spelling only.
-- - Params, Crypto, Errors: src/consensus/params.rs, src/crypto.rs, and the error type of
--   src/consensus/validation.rs. SHA-256, RIPEMD-160 and secp256k1 are the fields of the record
--   Primitives, an argument of all that hashes; the proofs use of them only that a digest is 32 bytes.
-- - Types and its children: src/consensus/types.rs, a module for each object, with encode_to,
--   decode_from and id.
-- - State.Tree, State.Ledger: src/consensus/state.rs, the sparse Merkle tree and LedgerState (account,
--   credit, debit, set_nonce, schedule_reward, mature).
-- - Difficulty, Rewards: src/consensus/difficulty.rs and src/consensus/rewards.rs.
-- - Validation.Apply, Seed, Header, Shares, Whole: src/consensus/validation.rs. The traits PowVerifier
--   and TimeSource are arguments: a partial function of a seed and an input, and the present time.
-- - Chain: src/consensus/chain.rs. Chain.Built is what a valid chain is, as a relation; Chain.Grown is
--   what append reaches from genesis.
-- - Mempool: src/mempool.rs and src/policy.rs, with Mempool.Select for `select`.
-- - Network and its children: src/p2p.rs. ObjectKind, Hello and WireMessage with their encodings and
--   frames, the signature of a greeting, MessageBudget. The signer of a greeting is a function with
--   the property that its signatures verify.
-- - Node.WorksharePool: the struct of that name in src/node.rs. Node.State: the struct Node, as far as
--   the operations below read or change it, with the database as the record Storage, a parameter.
--   Node.Blocks (submit_block, assemble_candidate; Node.Blocks.Moved and Node.Blocks.Adopted say what
--   a change of chain is), Node.Submissions (submit_transaction, register_template, submit_workshare),
--   Node.Pending (the workshares that wait), Node.Peers, Node.Locator, Node.Headers and Node.Messages
--   (handle_wire): the methods of Node. Node.Issuance: its function scheduled_supply. A method is a
--   function from the node's state to the next; the source holds a lock on each part as long as it
--   uses it, and the model runs one method after the other. Messages sent to the peers are a list in
--   the state. Node.Invariant is what every method keeps.
-- - Tests: concrete runs.
--
-- Numbers are natural numbers. A sum of `U256` that overflows panics, as in target_work. `+` on u64
-- wraps where the source does not check it (a release build), a U512 sum saturates, and a product of
-- 512 bits or more panics. `usize` has 64 bits. Bytes and arrays of bytes are lists of numbers; an
-- array's width is a hypothesis where a theorem needs it.
--
-- Loops over lists are structural. The others run on fuel: merkle_root has as much as leaves, of which
-- a round leaves at most half and one more; trimming the pool has as much as entries, of which a round
-- removes one; candidate_witness has as many steps as the limit of 512 shares, at which the source
-- stops; find_fork has a step more than the limit of 100,000 blocks; the selection of transactions has
-- a step more than the pool's entries, of which a round takes one; the locator has a step more than
-- the chain's height, which each round lowers; scheduled_supply has a round more than whole intervals
-- in the height; a round over the waiting workshares has as much as there are, of which it takes one.
--
-- Not modelled: the text forms of hashes and addresses, serde, the encoding of a ledger snapshot, of
-- the node its start, mining candidates and views for display, of the network its sockets and
-- sessions, and all that is glue to the outside: storage, RPC, portal, miner, configuration, and the
-- binding to RandomX. A panic in a call whose result the source ignores leaves the node as it was
-- before the call.
pub mod Prelude
pub mod OrderedMap
pub mod Codec
pub mod Params
pub mod Crypto
pub mod Types
pub mod Errors
pub mod State
pub mod Difficulty
pub mod Rewards
pub mod Validation
pub mod Chain
pub mod Mempool
pub mod Network
pub mod Node
pub mod Tests
