-- ===== src/Network/Handshake.antt =====
-- A node's own greeting, as its peer sees it.
use paritr_node.Prelude.{
  ℕ, ◌≤◌, ◌<◌, ◌≡◌, ◌∙◌, ap, refl, true, Option, none, some, ◌==◌, arith, length, Bool-cases, inl,
  inr, u64_mod, ok,
}
use paritr_node.Prelude.Order.{bytes_eq, bytes_eq_refl}
use paritr_node.Codec.{Bytes}
use paritr_node.Codec.Text.{IsText, is_utf8}
use paritr_node.Crypto.{Primitives, HasDigests, Hash32, sha256d, ascii}
use paritr_node.Params
use paritr_node.Types.Block
use paritr_node.Types.BlockHeader
use paritr_node.Types.Wire.Simple.{IsHash}
use paritr_node.Validation.Whole.{genesis_block}
use paritr_node.Network.Hello.{
  Hello, ChainSnapshot, signed, verify, signing_hash, check_signature, work_bytes, abs_diff,
}
use paritr_node.Network.WireMessage.{hello, encode_frame, decode_frame}
use paritr_node.Network.Greeting.{IsWireHello}
use paritr_node.Network.Frames.{frame_round_trip}

length-work_bytes : (work : Option Bytes) → length (work_bytes work) ≡ 32
length-work_bytes none = refl
length-work_bytes (some bytes) = elim (Bool-cases (length bytes == 32)) [
  | inl fits ↦ rw fits (ground arith)
  | inr other ↦ rw other refl
]

module _ ⦃p : Primitives⦄ where
  -- What `secp256k1` promises of a key pair: the signatures of `sign` are 64 bytes long, and they
  -- verify under the public key, of 33 bytes.
  pub record SignsFor (sign : Bytes → Bytes) (public_key : Bytes) : Type 0 where
    pub key : p.PublicKey
    pub key_width : length public_key ≡ 33
    pub key_parses : p.public_key_from_slice public_key ≡ some key
    pub signature : Bytes → p.Signature
    pub signature_width : (digest : Bytes) → length (sign digest) ≡ 64
    pub signature_parses :
        (digest : Bytes) → p.signature_from_compact (sign digest) ≡ some (signature digest)
    pub verifies : (digest : Bytes) → p.verify_ecdsa digest (signature digest) key ≡ true

  verify-true :
      (h : Hello) (now : ℕ)
      → h.protocol ≡ 9
      → h.chain_id ≡ ascii Params.chain_id
      → h.genesis ≡ Block.id genesis_block
      → length h.node_public_key ≡ 33
      → length h.signature ≡ 64
      → abs_diff h.timestamp now ≤ 300
      → check_signature
          (signing_hash h)
          (p.public_key_from_slice h.node_public_key)
          (p.signature_from_compact h.signature)
        ≡ true
      → verify h now ≡ true
  unfolding verify
  verify-true h now protocol chain genesis key width near good = ground (
    arith,
    ap (λ c. bytes_eq c (ascii Params.chain_id)) chain ∙ bytes_eq_refl (ascii Params.chain_id),
    ap (λ c. bytes_eq c (Block.id genesis_block)) genesis ∙ bytes_eq_refl (Block.id genesis_block),
  )

  module _ (sign : Bytes → Bytes) (public_key : Bytes) (challenge response_to : Hash32) (now : ℕ)
      (snapshot : ChainSnapshot) (listen_url : Bytes) where
    abbrev greeting : Hello
    greeting = signed sign public_key challenge now snapshot listen_url response_to

    signed-verify :
        (later : ℕ)
        → SignsFor sign public_key
        → abs_diff now later ≤ 300
        → verify greeting later ≡ true
    unfolding signed signing_hash
    signed-verify later s near =
        verify-true greeting later refl refl refl s.key_width (s.signature_width _) near
          (rw (s.key_parses, s.signature_parses) (s.verifies _))

    signed-IsWireHello :
        SignsFor sign public_key
        → HasDigests p
        → IsHash challenge
        → IsHash response_to
        → now < u64_mod
        → snapshot.height < u64_mod
        → IsHash snapshot.tip
        → IsText 512 listen_url
        → IsWireHello greeting
    unfolding signed Block.id BlockHeader.id sha256d is_utf8
    signed-IsWireHello s d ch re small height tip url = record {
      protocol = omega arith;
      chain_id = record { utf8 = refl; size = omega arith };
      genesis = d.width _;
      node_public_key = omega (arith, s.key_width);
      timestamp = small;
      challenge = ch;
      response_to = re;
      height = height;
      tip = tip;
      cumulative_work = length-work_bytes snapshot.cumulative_work;
      listen_url = url;
      signature = omega (arith, s.signature_width _);
    }

    -- The greeting of a node that signs with its own key is decoded by its peer from the frame that
    -- was sent, and passes the peer's check if their clocks differ by at most 300 seconds. Assumed
    -- is that the numbers and texts of the greeting have their types' sizes.
    pub greeting_accepted :
        (later : ℕ)
        → SignsFor sign public_key
        → HasDigests p
        → IsHash challenge
        → IsHash response_to
        → now < u64_mod
        → snapshot.height < u64_mod
        → IsHash snapshot.tip
        → IsText 512 listen_url
        → abs_diff now later ≤ 300
        → (decode_frame (encode_frame (hello greeting)) ≡ ok (hello greeting))
          × (verify greeting later ≡ true)
    greeting_accepted later s d ch re small height tip url near = (
      (frame_round_trip (hello greeting) (signed-IsWireHello s d ch re small height tip url)).1,
      signed-verify later s near,
    )
