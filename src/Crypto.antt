-- ===== src/Crypto.antt =====
-- src/crypto.rs: hashes with domain separation, addresses and the check of signatures. SHA-256,
-- RIPEMD-160 and secp256k1 are third-party crates: an argument, the record `Primitives`, stands for
-- them. A `Hash32` and an `Address`, each an array of bytes, are lists of bytes.
pub mod Addresses
use Prim.Native.String
use Prim.Native.String.{String}
use paritr_node.Prelude.{
  ℕ, ◌≡◌, Bool, true, false, not, Option, none, some, List, [], ◌∷◌, ◌++◌, ◌==◌, if◌then◌else◌,
  length, take, drop, replicate, Result, ok, err, panicked, ◌>>=◌, ◌>>◌, fail_if, ok_or, All,
}
use Prim.Native.Char.{code}
use paritr_node.Prelude.Order.{bytes_eq}
use paritr_node.Codec
use paritr_node.Codec.{
  Bytes, IsBytes, Decoder, Writer, put_fixed, get_fixed, to_le_bytes, non_canonical,
}

-- `b"..."`
abbrev pub ascii : String → Bytes
ascii (String.◌∷◌ letter text) = code letter ∷ ascii text
ascii String.[] = []

abbrev pub Hash32 : Type 0
Hash32 = Bytes

abbrev pub Address : Type 0
Address = Bytes

abbrev pub zero_hash : Hash32
zero_hash = replicate 32 0

abbrev pub address_version : ℕ
address_version = 55

abbrev pub address_encoded_bytes : ℕ
address_encoded_bytes = 25

-- What the crates `sha2`, `ripemd` and `secp256k1` provide.
pub record Primitives : Type 1 where
  pub PublicKey : Type 0
  pub Signature : Type 0
  pub sha256_digest : Bytes → Bytes
  pub ripemd160_digest : Bytes → Bytes
  pub public_key_from_slice : Bytes → Option PublicKey
  pub serialize_uncompressed : PublicKey → Bytes
  pub signature_from_compact : Bytes → Option Signature
  pub normalize_s : Signature → Signature
  pub serialize_compact : Signature → Bytes
  pub verify_ecdsa : Bytes → Signature → PublicKey → Bool

-- A digest of SHA-256 is 32 bytes, as the crate's types say.
pub record HasDigests (p : Primitives) : Type 0 where
  pub width : (x : Bytes) → length (p.sha256_digest x) ≡ 32
  pub digits : (x : Bytes) → IsBytes (p.sha256_digest x)

pub data CryptoError : Type 0 where
  invalid_hash invalid_address : CryptoError
  wrong_version : ℕ → CryptoError
  address_checksum non_canonical_address invalid_public_key : CryptoError
  invalid_signature high_signature_s sender_mismatch : CryptoError

module _ ⦃p : Primitives⦄ where
  unfoldable pub sha256d : Bytes → Hash32
  sha256d x = p.sha256_digest (p.sha256_digest x)

  unfoldable pub domain_hash : Bytes → Bytes → Hash32
  domain_hash domain x = p.sha256_digest (
      p.sha256_digest
        (to_le_bytes 4 (length domain) ++ (domain ++ (to_le_bytes 8 (length x) ++ x))))

  unfoldable pub hash160 : Bytes → Bytes
  hash160 x = p.ripemd160_digest (p.sha256_digest x)

  unfoldable pub from_public_key_hash : Bytes → Address
  unfolding sha256d
  from_public_key_hash key_hash =
      let payload = address_version ∷ key_hash in payload ++ take 4 (sha256d payload)

  unfoldable pub from_public_key : p.PublicKey → Address
  unfolding from_public_key_hash hash160
  from_public_key key = from_public_key_hash (hash160 (p.serialize_uncompressed key))

  -- `bytes[0]` panics on an empty array, which a `[u8; 25]` is not.
  unfoldable pub from_bytes : Bytes → Result CryptoError Address
  unfolding sha256d
  from_bytes [] = panicked
  from_bytes (v ∷ payload) = do
    fail_if (not (v == address_version)) (wrong_version v)
    fail_if (not (bytes_eq (take 4 (sha256d (take 21 (v ∷ payload)))) (drop 21 (v ∷ payload))))
        address_checksum
    ok (v ∷ payload)

  abbrev pub put_hash : Hash32 → Writer → Writer
  put_hash = put_fixed

  abbrev pub get_hash : Decoder Hash32
  get_hash = get_fixed 32

  abbrev pub put_address : Address → Writer → Writer
  put_address = put_fixed

  abbrev pub checked_address : Result CryptoError Address → Decoder Address
  checked_address (ok a) r = ok (a, r)
  checked_address (err e) r = err (non_canonical "invalid address")
  checked_address panicked r = panicked

  unfoldable pub get_address : Decoder Address
  unfolding from_bytes
  get_address r =
      Codec.continue (λ x. checked_address (from_bytes x)) (get_fixed address_encoded_bytes r)

  unfoldable pub parse_and_validate_signature :
      Address → Bytes → Bytes → Hash32 → Result CryptoError (Unit {0})
  unfolding from_public_key
  parse_and_validate_signature sender public_key signature digest = do
    key ← ok_or (p.public_key_from_slice public_key) invalid_public_key
    fail_if (not (bytes_eq (from_public_key key) sender)) sender_mismatch
    parsed ← ok_or (p.signature_from_compact signature) invalid_signature
    fail_if
        (not (bytes_eq (p.serialize_compact (p.normalize_s parsed)) (p.serialize_compact parsed)))
        high_signature_s
    fail_if (not (p.verify_ecdsa digest parsed key)) invalid_signature
