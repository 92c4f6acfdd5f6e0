-- ===== src/Tests/Shares.antt =====
-- Runs of the pool of workshares.
use paritr_node.Prelude.{
  ℕ, ◌≡◌, ◌≢◌, refl, arith, true, some, List, [], ◌∷◌, take, replicate, Result, ok, panicked,
}
use paritr_node.Codec.{Bytes}
use paritr_node.Crypto.{Primitives, Hash32, zero_hash}
use paritr_node.Types.BlockHeader.{BlockHeader}
use paritr_node.Types.BlockTemplate
use paritr_node.Types.BlockTemplate.{BlockTemplate}
use paritr_node.Types.Workshare
use paritr_node.Types.Workshare.{Workshare}
use paritr_node.Types.Witness.{WorkshareWitness}
use paritr_node.Node.WorksharePool.{
  WorksharePool, reset, register_template, candidate_witness, accept, witness,
}
use paritr_node.Node.WorksharePool.Bounds.{IsBounded, reset-IsBounded, register_template-IsBounded}
use paritr_node.Node.WorksharePool.Work.{
  IsWorked, reset-IsWorked, IsWorked-templates, accept-IsWorked,
}
use paritr_node.Node.WorksharePool.Walk.{candidate_witness-ne-panicked}
use paritr_node.Node.WorksharePool.Reached.{
  Reached, emptied, registered, submitted, IsHeaviest, witness-IsHeaviest,
}

-- Every digest is 32 ones.
instance abbrev ones : Primitives
ones = record {
  PublicKey = Bytes;
  Signature = Bytes;
  sha256_digest = λ x. replicate 32 1;
  ripemd160_digest = λ x. take 20 x;
  public_key_from_slice = λ k. some k;
  serialize_uncompressed = λ k. k;
  signature_from_compact = λ s. some s;
  normalize_s = λ s. s;
  serialize_compact = λ s. s;
  verify_ecdsa = λ digest s k. true;
}

abbrev anchor : Hash32
anchor = replicate 32 5

abbrev id : Hash32
id = replicate 32 1

abbrev offered : BlockTemplate
offered = record { version = 1; height = 1; parent = anchor; transactions = [] }

abbrev header : BlockHeader
header = record {
  version = 3;
  protocol = 9;
  height = 1;
  previous_block = anchor;
  transactions_root = zero_hash;
  state_root = zero_hash;
  workshare_root = zero_hash;
  timestamp = 100;
  bits = 520_355_839;
  nonce = 0;
}

abbrev share : Workshare
share = record {
  version = 1;
  previous_workshare = zero_hash;
  template_id = id;
  miner = replicate 25 0;
  extranonce = 0;
  candidate_header = header;
}

abbrev no_shares : WorksharePool
no_shares = record {
  anchor = anchor;
  templates = [];
  template_bytes = 0;
  shares = [];
  path_work = [];
  tip = zero_hash;
}

abbrev with_template : WorksharePool
with_template = record no_shares { templates = (id, offered) ∷ []; template_bytes = 46 }

abbrev with_share : WorksharePool
with_share = record with_template {
  shares = (id, share) ∷ [];
  path_work = (id, 512) ∷ [];
  tip = id;
}

abbrev made : WorkshareWitness
made = record { version = 1; templates = offered ∷ []; workshares = share ∷ [] }

empty-Reached : Reached no_shares
unfolding reset
empty-Reached = emptied anchor no_shares

register_ok : register_template offered no_shares ≡ ok (with_template, id)
unfolding register_template paritr_node.Prelude.Order.cmp_bytes BlockTemplate.encode_to
    paritr_node.Codec.put_vector paritr_node.Codec.to_le_bytes paritr_node.OrderedMap.lookup
    paritr_node.OrderedMap.insert BlockTemplate.id paritr_node.Crypto.domain_hash
register_ok = refl

candidate_ok : candidate_witness share with_template ≡ ok made
unfolding candidate_witness paritr_node.Prelude.Order.cmp_bytes paritr_node.OrderedMap.lookup
    paritr_node.Node.WorksharePool.walk paritr_node.Node.WorksharePool.referenced_templates
candidate_ok = refl

accept_ok : accept share with_template ≡ ok (with_share, true)
unfolding accept paritr_node.OrderedMap.lookup paritr_node.Prelude.Order.cmp_bytes
    paritr_node.Rewards.workshare_weight paritr_node.Difficulty.workshare_bits
    paritr_node.Difficulty.bits_to_target paritr_node.Codec.to_le_bytes
    paritr_node.Difficulty.target_work paritr_node.OrderedMap.insert Workshare.id
    paritr_node.Crypto.domain_hash
accept_ok = refl

register_template-IsBounded_example : IsBounded with_template
unfolding reset
register_template-IsBounded_example =
    register_template-IsBounded offered no_shares with_template id
      (reset-IsBounded anchor no_shares) register_ok

with_template-IsWorked : IsWorked with_template
unfolding reset
with_template-IsWorked =
    IsWorked-templates no_shares 46 ((id, offered) ∷ []) (reset-IsWorked anchor no_shares)

accept-IsWorked_example : IsWorked with_share
accept-IsWorked_example =
    accept-IsWorked share with_template with_share true with_template-IsWorked accept_ok

candidate_witness-ne-panicked_example : candidate_witness share with_template ≢ panicked
candidate_witness-ne-panicked_example = candidate_witness-ne-panicked share with_template

with_share-Reached : Reached with_share
with_share-Reached =
    submitted share made true (registered offered id empty-Reached register_ok) candidate_ok
      accept_ok

witness-IsHeaviest_example :
    (w : WorkshareWitness) × (witness with_share ≡ ok w)
    × (with_share.tip ≢ zero_hash → IsHeaviest with_share w)
witness-IsHeaviest_example = witness-IsHeaviest with_share-Reached
