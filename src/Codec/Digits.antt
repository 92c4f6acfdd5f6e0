-- ===== src/Codec/Digits.antt =====
-- Little-endian digits: the two conversions invert one another.
use paritr_node.Prelude.{
  ℕ, zero, suc, ◌+◌, ◌*◌, ◌/◌, ◌%◌, ◌^◌, ◌<◌, ◌≡◌, refl, ap, [], ◌∷◌, arith, length,
}
use native.Mathlib.Nat.{pow-suc}
use paritr_node.Codec.{Bytes, IsBytes, to_le_bytes, from_le_bytes}

pub length-to_le_bytes : (n v : ℕ) → length (to_le_bytes n v) ≡ n
unfolding to_le_bytes
length-to_le_bytes zero v = refl
length-to_le_bytes (suc n) v = ap suc (length-to_le_bytes n (v / 256))

pub to_le_bytes-IsBytes : (n v : ℕ) → IsBytes (to_le_bytes n v)
unfolding to_le_bytes
to_le_bytes-IsBytes zero v = tt
to_le_bytes-IsBytes (suc n) v = (omega arith, to_le_bytes-IsBytes n (v / 256))

pub from_le_bytes-to_le_bytes : (n v : ℕ) → v < 256 ^ n → from_le_bytes (to_le_bytes n v) ≡ v
unfolding to_le_bytes from_le_bytes
from_le_bytes-to_le_bytes zero v h = omega arith
from_le_bytes-to_le_bytes (suc n) v h =
    omega (arith, from_le_bytes-to_le_bytes n (v / 256) (omega (arith, pow-suc 256 n)))

pub to_le_bytes-from_le_bytes :
    (xs : Bytes) → IsBytes xs → to_le_bytes (length xs) (from_le_bytes xs) ≡ xs
unfolding to_le_bytes from_le_bytes
to_le_bytes-from_le_bytes [] h = refl
to_le_bytes-from_le_bytes (x ∷ xs) h =
    let low : (x + 256 * from_le_bytes xs) % 256 ≡ x = omega arith in
    let high : (x + 256 * from_le_bytes xs) / 256 ≡ from_le_bytes xs = omega arith in
    rw (low, high, to_le_bytes-from_le_bytes xs h.1)
