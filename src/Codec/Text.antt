-- ===== src/Codec/Text.antt =====
-- `Writer::string` and `Reader::string`: UTF-8 text behind its length. A `String` is the list of its
-- bytes. `std::str::from_utf8` accepts the byte sequences of RFC 3629, table 3-7 of Unicode.
use paritr_node.Prelude.{
  ℕ, zero, suc, ◌≤◌, ◌≡◌, refl, Bool, true, false, ◌&&◌, not, Option, none, some, [], ◌∷◌, arith,
  ltb, leb, ◌==◌, if◌then◌else◌, length,
}
use paritr_node.Codec.{
  Bytes, Writer, Decoder, ◌>>=◌, ◌>>◌, pure, reject_if, put_bytes, get_bytes, invalid_utf8,
  max_consensus_allocation,
}
use paritr_node.Codec.Reads.{Reads, Reads-bind_nil, Reads-reject_if, Reads-pure, Reads-get_bytes}
use paritr_node.Codec.Spells.{
  Spells, Spells-bind, Spells-reject_if, Spells-pure, Spells-get_bytes, counted,
}

-- What a first byte asks for: how many bytes follow it, and the range of the next.
abbrev pub lead : ℕ → Option (ℕ × ℕ × ℕ)
lead b =
    if ltb b 0x80
    then some (0, 0x80, 0xBF)
    else if ltb b 0xC2
    then none
    else if ltb b 0xE0
    then some (1, 0x80, 0xBF)
    else if b == 0xE0
    then some (2, 0xA0, 0xBF)
    else if b == 0xED
    then some (2, 0x80, 0x9F)
    else if ltb b 0xF0
    then some (2, 0x80, 0xBF)
    else if b == 0xF0
    then some (3, 0x90, 0xBF)
    else if ltb b 0xF4
    then some (3, 0x80, 0xBF)
    else if b == 0xF4
    then some (3, 0x80, 0x8F)
    else none

-- `more` bytes of a character are still to come, the next of them from `low` to `high`.
unfoldable pub utf8_from : ℕ → ℕ → ℕ → Bytes → Bool
utf8_from zero low high [] = true
utf8_from (suc more) low high [] = false
utf8_from zero low high (b ∷ text) = elim (lead b) [
  | none ↦ false
  | some (more, low', high') ↦ utf8_from more low' high' text
]
utf8_from (suc more) low high (b ∷ text) = leb low b && leb b high && utf8_from more 0x80 0xBF text

unfoldable pub is_utf8 : Bytes → Bool
unfolding utf8_from
is_utf8 text = utf8_from 0 0x80 0xBF text

abbrev pub put_string : Bytes → Writer → Writer
put_string = put_bytes

unfoldable pub get_string : ℕ → Decoder Bytes
get_string limit = do text ← get_bytes limit; reject_if (not (is_utf8 text)) invalid_utf8; pure text

-- A string that a decoder with this limit lets through.
pub record IsText (limit : ℕ) (text : Bytes) : Type 0 where
  pub utf8 : is_utf8 text ≡ true
  pub size : length text ≤ limit

pub Reads-get_string :
    (limit : ℕ) (text : Bytes)
    → limit ≤ max_consensus_allocation
    → IsText limit text
    → Reads (get_string limit) (counted text) text
unfolding get_string
Reads-get_string limit text small h =
    Reads-bind_nil (get_bytes limit) _ (Reads-get_bytes limit text h.size (omega (arith, h.size)))
      (Reads-reject_if _ _ (rw (h.utf8)) (Reads-pure text))

pub Spells-get_string : (limit : ℕ) → Spells [] (get_string limit) counted
unfolding get_string
Spells-get_string limit =
    Spells-bind [] (get_bytes limit) _ counted counted (Spells-get_bytes limit)
      λ text. Spells-reject_if _ _ _ _ _ (Spells-pure _ text _ refl)

-- "aé€" is accepted; an overlong slash and a lone surrogate are not.
accepted : is_utf8 (0x61 ∷ 0xC3 ∷ 0xA9 ∷ 0xE2 ∷ 0x82 ∷ 0xAC ∷ []) ≡ true
unfolding is_utf8
accepted = refl

overlong : is_utf8 (0xC0 ∷ 0xAF ∷ []) ≡ false
unfolding is_utf8
overlong = refl

surrogate : is_utf8 (0xED ∷ 0xA0 ∷ 0x80 ∷ []) ≡ false
unfolding is_utf8
surrogate = refl
