-- ===== src/Crypto/Addresses.antt =====
-- Addresses: those that are derived pass the check that decoding makes, and they are read from the
-- wire as they were written.
use mathlib.Core.Path.{subst}
use paritr_node.Prelude.{
  ◌≡◌, refl, ◌∙◌, [], ◌∷◌, ◌++◌, arith, length, take, drop, length-append, length-take,
  take-length-append, drop-length-append, ok, err, panicked, Result,
}
use paritr_node.Prelude.Order.{bytes_eq_refl}
use paritr_node.Codec.{Bytes, IsBytes, Reader, get_fixed}
use paritr_node.Codec.Reads.{Reads, Reads-get_fixed, advance, Fits, rest}
use paritr_node.Codec.Spells.{Spells, Spells-get_fixed, Consumed, continue-eq-ok}
use paritr_node.Crypto.{
  Primitives, HasDigests, Address, CryptoError, address_version, address_encoded_bytes, sha256d,
  from_bytes, from_public_key_hash, get_address, checked_address,
}

module _ ⦃p : Primitives⦄ where
  -- The bytes of an address: 25 of them, with the version and the checksum that decoding wants.
  pub record IsAddress (a : Address) : Type 0 where
    pub width : length a ≡ address_encoded_bytes
    pub accepted : from_bytes a ≡ ok a

  -- An address that is derived from a key hash of 20 bytes is 25 bytes long, and `from_bytes`
  -- accepts it.
  pub from_public_key_hash-IsAddress :
      (key_hash : Bytes)
      → HasDigests p
      → length key_hash ≡ 20
      → IsAddress (from_public_key_hash key_hash)
  unfolding from_public_key_hash from_bytes sha256d
  from_public_key_hash-IsAddress key_hash d h = record { width = total; accepted = accepted }
    where
      payload : Bytes
      payload = address_version ∷ key_hash

      check : Bytes
      check = take 4 (sha256d payload)

      check_width : length check ≡ 4
      check_width =
          length-take 4 (sha256d payload) (omega (arith, d.width (p.sha256_digest payload)))

      total : length (payload ++ check) ≡ 25
      total = omega (arith, length-append {0} payload check, check_width, h)

      prefix_width : length payload ≡ 21
      prefix_width = omega (arith, h)

      front : take 21 (payload ++ check) ≡ payload
      front =
          subst (λ n. take n (payload ++ check) ≡ payload) prefix_width
            (take-length-append payload check)

      back : drop 21 (payload ++ check) ≡ check
      back =
          subst (λ n. drop n (payload ++ check) ≡ check) prefix_width
            (drop-length-append payload check)

      accepted : from_bytes (payload ++ check) ≡ ok (payload ++ check)
      accepted = rw (front, back, bytes_eq_refl check) refl

  checked_address-eq-ok :
      (m : Result CryptoError Address) (r : Reader) (a : Address) (r' : Reader)
      → checked_address m r ≡ ok (a, r')
      → (m ≡ ok a) × (r ≡ r')
  checked_address-eq-ok (ok b) r a r' h = (ground arith, ground arith)
  checked_address-eq-ok (err e) r a r' h = cc
  checked_address-eq-ok panicked r a r' h = cc

  from_bytes-eq-ok : (x : Bytes) (a : Address) → from_bytes x ≡ ok a → x ≡ a
  unfolding from_bytes
  from_bytes-eq-ok [] a h = cc
  from_bytes-eq-ok (v ∷ x) a h = ground arith

  pub Reads-get_address : (a : Address) → IsAddress a → Reads get_address a a
  unfolding get_address
  Reads-get_address a h = record { at = read_address }
    where
      read_address :
          (r : Reader) (post : Bytes)
          → Fits r
          → rest r ≡ a ++ post
          → get_address r ≡ ok (a, advance r (length a))
      read_address r post fits next =
          rw ((Reads-get_fixed address_encoded_bytes a h.width).at r post fits next, h.accepted)
            refl

  abbrev itself : Bytes → Bytes
  itself x = x

  pub Spells-get_address : Spells [] get_address itself
  unfolding get_address
  Spells-get_address = record { at = read_address }
    where
      read_address :
          (r : Reader) (a : Address) (r' : Reader)
          → IsBytes r.bytes
          → get_address r ≡ ok (a, r')
          → Consumed [] itself r a r'
      read_address r a r' bytes h =
          let ((x, s), first, second) =
            continue-eq-ok (λ x. checked_address (from_bytes x)) (get_fixed address_encoded_bytes r)
              h in
          let (accepted, there) = checked_address-eq-ok (from_bytes x) s a r' second in
          let c = (Spells-get_fixed address_encoded_bytes).at r x s bytes first in
          record {
            read = c.read;
            same = rw (← there) c.same;
            split = rw (← there) c.split;
            spelled = c.spelled ∙ from_bytes-eq-ok x a accepted;
          }
