-- ===== src/Codec.antt =====
-- src/codec.rs: the consensus codec. Integers are little-endian and of fixed width; a byte string
-- or vector stands behind its length as a u32. A `Vec<u8>` or `&[u8]` is a list of numbers, and
-- `Writer`, a struct of one such field, is that list. The proofs are in the modules below.
--
-- `u32::try_from(len).expect(..)` panics at a length of 2^32; the model writes such a length
-- modulo 2^32, and the theorems on round trips bound the lengths.
pub mod Digits
pub mod Reads
pub mod Spells
pub mod Frames
pub mod Canonical
pub mod Text
use Prim.Native.String.{String}
use paritr_node.Prelude.{
  ℕ, zero, suc, ◌+◌, ◌-◌, ◌*◌, ◌/◌, ◌%◌, ◌<◌, min, Bool, true, false, ◌||◌, Option, none, some,
  List, [], ◌∷◌, ◌++◌, ltb, ◌==◌, if◌then◌else◌, u64_mod, checked_add, length, take, drop, All,
  Result, ok, err, panicked,
}

abbrev pub Bytes : Type 0
Bytes = List ℕ

abbrev pub IsByte : ℕ → Type 0
IsByte b = b < 256

abbrev pub IsBytes : Bytes → Type 0
IsBytes = All IsByte

abbrev pub max_consensus_allocation : ℕ
max_consensus_allocation = 8 * 1024 * 1024

pub data CodecError : Type 0 where
  end_of_input : CodecError
  limit_exceeded : ℕ → ℕ → CodecError
  invalid_tag : ℕ → CodecError
  non_canonical : String → CodecError
  trailing_bytes : ℕ → CodecError
  invalid_utf8 : CodecError

-- `to_le_bytes` of an integer of `n` bytes.
unfoldable pub to_le_bytes : ℕ → ℕ → Bytes
to_le_bytes zero v = []
to_le_bytes (suc n) v = v % 256 ∷ to_le_bytes n (v / 256)

unfoldable pub from_le_bytes : Bytes → ℕ
from_le_bytes [] = 0
from_le_bytes (b ∷ bs) = b + 256 * from_le_bytes bs

abbrev pub Writer : Type 0
Writer = Bytes

-- `writer.f(x)` is `writer ▷ f x`.
infixl 10 ◌▷◌
abbrev pub ◌▷◌ : Writer → (Writer → Writer) → Writer
w ▷ f = f w

abbrev pub put_fixed : Bytes → Writer → Writer
put_fixed value w = w ++ value

abbrev pub put_u8 : ℕ → Writer → Writer
put_u8 value w = w ++ (value ∷ [])

abbrev pub put_u16 : ℕ → Writer → Writer
put_u16 value w = w ++ to_le_bytes 2 value

abbrev pub put_u32 : ℕ → Writer → Writer
put_u32 value w = w ++ to_le_bytes 4 value

abbrev pub put_u64 : ℕ → Writer → Writer
put_u64 value w = w ++ to_le_bytes 8 value

abbrev pub put_bytes : Bytes → Writer → Writer
put_bytes value w = w ▷ put_u32 (length value) ▷ put_fixed value

pub record Reader : Type 0 where
  pub bytes : Bytes
  pub offset : ℕ

-- A method of `Reader` that may fail.
abbrev pub Decoder {ℓ} : Type ℓ → Type ℓ
Decoder A = Reader → Result CodecError (A × Reader)

abbrev pub new_reader : Bytes → Reader
new_reader bytes = record { bytes = bytes; offset = 0 }

abbrev pub pure {ℓ} : {A : Type ℓ} → A → Decoder A
pure a r = ok (a, r)

abbrev pub throw {ℓ} : {A : Type ℓ} → CodecError → Decoder A
throw e r = err e

abbrev pub continue {ℓ κ} :
    {A : Type ℓ} {B : Type κ}
    → (A → Decoder B)
    → Result CodecError (A × Reader)
    → Result CodecError (B × Reader)
continue f (ok (a, r)) = f a r
continue f (err e) = err e
continue f panicked = panicked

infixl 5 ◌>>=◌ ◌>>◌
abbrev pub ◌>>=◌ {ℓ κ} : {A : Type ℓ} {B : Type κ} → Decoder A → (A → Decoder B) → Decoder B
◌>>=◌ d f r = continue f (d r)

abbrev pub ◌>>◌ {ℓ} : {B : Type ℓ} → Decoder (Unit {0}) → Decoder B → Decoder B
d >> k = d >>= λ _. k

-- `if c { return Err(e) }`
abbrev pub reject_if : Bool → CodecError → Decoder (Unit {0})
reject_if true e r = err e
reject_if false e r = ok (tt, r)

-- `Reader::take`
unfoldable pub get_slice : ℕ → Decoder Bytes
get_slice count r = elim (checked_add r.offset count) [
  | none ↦ err (limit_exceeded (u64_mod - 1) (length r.bytes))
  | some end ↦
      if ltb (length r.bytes) end
      then err end_of_input
      else ok (take count (drop r.offset r.bytes), record r { offset = end })
]

-- `try_into().expect("fixed width")`
abbrev pub expect_width : ℕ → Bytes → Decoder Bytes
expect_width n out r = if length out == n then ok (out, r) else panicked

-- `out[0]`
abbrev pub expect_first : Bytes → Decoder ℕ
expect_first [] r = panicked
expect_first (b ∷ bs) r = ok (b, r)

unfoldable pub get_fixed : ℕ → Decoder Bytes
get_fixed n = do out ← get_slice n; expect_width n out

unfoldable pub get_u8 : Decoder ℕ
get_u8 = do out ← get_slice 1; expect_first out

-- `u16`, `u32` and `u64`, by the width in bytes.
unfoldable pub get_uint : ℕ → Decoder ℕ
unfolding get_fixed
get_uint n = do out ← get_fixed n; pure (from_le_bytes out)

unfoldable pub get_bytes : ℕ → Decoder Bytes
get_bytes limit = do
  len ← get_uint 4
  reject_if (ltb limit len || ltb max_consensus_allocation len)
      (limit_exceeded len (min limit max_consensus_allocation))
  get_slice len

unfoldable pub vector_len : ℕ → Decoder ℕ
vector_len limit = do
  len ← get_uint 4
  reject_if (ltb limit len) (limit_exceeded len limit)
  pure len

abbrev pub remaining : Reader → ℕ
remaining r = length r.bytes - r.offset

-- `Reader::finish` after the last field.
abbrev pub finish {ℓ} : {A : Type ℓ} → A × Reader → Result CodecError A
finish (a, r) = if remaining r == 0 then ok a else err (trailing_bytes (remaining r))

module _ {ℓ} {A : Type ℓ} where
  -- `ConsensusEncode::consensus_encode`, from the type's `encode_to`.
  abbrev pub consensus_encode : (A → Writer → Writer) → A → Bytes
  consensus_encode encode_to a = encode_to a []

  abbrev pub finish_decode : Result CodecError (A × Reader) → Result CodecError A
  finish_decode (ok p) = finish p
  finish_decode (err e) = err e
  finish_decode panicked = panicked

  -- `ConsensusDecode::consensus_decode`, from the type's `decode_from`.
  unfoldable pub consensus_decode : Decoder A → Bytes → Result CodecError A
  consensus_decode decode_from bytes =
      if ltb max_consensus_allocation (length bytes)
      then err (limit_exceeded (length bytes) max_consensus_allocation)
      else finish_decode (decode_from (new_reader bytes))

  abbrev pub lift_result : Result CodecError A → Decoder A
  lift_result (ok a) r = ok (a, r)
  lift_result (err e) r = err e
  lift_result panicked r = panicked

  -- `T::consensus_decode(reader.bytes(limit)?)?`
  unfoldable pub get_framed : ℕ → Decoder A → Decoder A
  get_framed limit decode_from = do
    slice ← get_bytes limit
    lift_result (consensus_decode decode_from slice)

  -- `for _ in 0..count { items.push(..) }`
  unfoldable pub get_many : ℕ → Decoder A → Decoder (List A)
  get_many zero d = pure []
  get_many (suc n) d = do a ← d; rest ← get_many n d; pure (a ∷ rest)

  -- A vector of byte strings that each hold an object.
  unfoldable pub get_vector : ℕ → ℕ → Decoder A → Decoder (List A)
  unfolding get_many
  get_vector max_count max_bytes decode_from = do
    count ← vector_len max_count
    get_many count (get_framed max_bytes decode_from)

  -- `for item in items { writer.bytes(&item.consensus_encode()) }`
  unfoldable pub put_each : (A → Writer → Writer) → List A → Writer → Writer
  put_each encode_to [] w = w
  put_each encode_to (a ∷ rest) w =
      put_each encode_to rest (w ▷ put_bytes (consensus_encode encode_to a))

  unfoldable pub put_vector : (A → Writer → Writer) → List A → Writer → Writer
  unfolding put_each
  put_vector encode_to items w = w ▷ put_u32 (length items) ▷ put_each encode_to items

  -- `for item in items { item.encode_to(writer) }`
  unfoldable pub put_items : (A → Writer → Writer) → List A → Writer → Writer
  put_items encode_to [] w = w
  put_items encode_to (a ∷ rest) w = put_items encode_to rest (w ▷ encode_to a)
