-- ===== src/Codec/Reads.antt =====
-- What a decoder makes of the bytes that a writer produced: the rules of `Reads`, one for each
-- reader method and one for a chain of them.

use native.Mathlib.Nat.{add-zero, add_assoc}
use mathlib.Core.Path.{subst}
use mathlib.Core.List.{append-nil, append_assoc}
use paritr_node.Prelude.{
  ℕ, ◌+◌, ◌^◌, ◌≤◌, ◌<◌, ◌≡◌, ap, sym, ◌∙◌, Bool, false, [], ◌∷◌, ◌++◌, arith, ltb, length, take,
  drop, drop-drop, length-append, length-drop, take-length-append, drop-length-append, u32_mod,
  u64_mod, ok,
}
use paritr_node.Codec.{
  Bytes, Reader, Decoder, ◌>>=◌, ◌>>◌, pure, reject_if, get_slice, get_fixed, get_u8, get_uint,
  get_bytes, vector_len, expect_width, expect_first, to_le_bytes, from_le_bytes, CodecError,
  max_consensus_allocation, limit_exceeded,
}
use paritr_node.Codec.Digits.{length-to_le_bytes, from_le_bytes-to_le_bytes}

-- The bytes that are still to be read.
abbrev pub rest : Reader → Bytes
rest r = drop r.offset r.bytes

abbrev pub advance : Reader → ℕ → Reader
advance r n = record r { offset = r.offset + n }

-- A reader that stands inside its input.
pub record Fits (r : Reader) : Type 0 where
  pub inside : r.offset ≤ length r.bytes
  pub small : length r.bytes < u64_mod

-- Wherever `x` comes next, `d` reads `a` from it and stops behind it.
pub record Reads {ℓ} {A : Type ℓ} (d : Decoder A) (x : Bytes) (a : A) : Type ℓ where
  pub at :
      (r : Reader) (post : Bytes) → Fits r → rest r ≡ x ++ post → d r ≡ ok (a, advance r (length x))

module _ (r : Reader) (x post : Bytes) (fits : Fits r) (next : rest r ≡ x ++ post) where
  room : r.offset + length x ≤ length r.bytes
  room = omega (
    arith,
    fits.inside,
    length-drop r.offset r.bytes,
    ap (length {A = ℕ}) next,
    length-append {0} x post,
  )

  advance-Fits : Fits (advance r (length x))
  advance-Fits = record { inside = room; small = fits.small }

  rest-advance : rest (advance r (length x)) ≡ post
  rest-advance = sym (drop-drop (length x) r.offset r.bytes) ∙ rw next (drop-length-append x post)

  get_slice_lem : get_slice (length x) r ≡ ok (x, advance r (length x))
  unfolding get_slice
  get_slice_lem =
      ground (arith, room, fits.small, ap (take {A = ℕ} (length x)) next, take-length-append x post)

pub Reads-get_slice : (x : Bytes) → Reads (get_slice (length x)) x x
Reads-get_slice x = record { at = get_slice_lem_at }
  where
    get_slice_lem_at :
        (r : Reader) (post : Bytes)
        → Fits r
        → rest r ≡ x ++ post
        → get_slice (length x) r ≡ ok (x, advance r (length x))
    get_slice_lem_at r post fits next = get_slice_lem r x post fits next

pub Reads-pure {ℓ} : {A : Type ℓ} (a : A) → Reads (pure a) [] a
Reads-pure a = record { at = λ r post fits next. rw add-zero }

-- The same bytes, written another way.
pub Reads-as {ℓ} :
    {A : Type ℓ} {d : Decoder A} {x y : Bytes} {a : A} → Reads d x a → x ≡ y → Reads d y a
Reads-as {d = d} {a = a} h e = subst (λ z. Reads d z a) e h

pub Reads-bind {ℓ κ} :
    {A : Type ℓ} {B : Type κ} (d : Decoder A) (f : A → Decoder B) {x y : Bytes} {a : A} {b : B}
    → Reads d x a
    → Reads (f a) y b
    → Reads (d >>= f) (x ++ y) b
Reads-bind d f {x = x} {y = y} {a = a} {b = b} h k = record { at = chained }
  where
    chained :
        (r : Reader) (post : Bytes)
        → Fits r
        → rest r ≡ (x ++ y) ++ post
        → (d >>= f) r ≡ ok (b, advance r (length (x ++ y)))
    chained r post fits next =
        let next' : rest r ≡ x ++ (y ++ post) = next ∙ append_assoc x y post in
        rw (h.at r (y ++ post) fits next') (
          rw (length-append x y, ← add_assoc r.offset (length x) (length y))
            (k.at (advance r (length x)) post (advance-Fits r x (y ++ post) fits next')
              (rest-advance r x (y ++ post) fits next')))

pub Reads-reject_if {ℓ} :
    {B : Type ℓ} {d : Decoder B} {x : Bytes} {b : B} (c : Bool) (e : CodecError)
    → c ≡ false
    → Reads d x b
    → Reads (reject_if c e >> d) x b
Reads-reject_if c e h k = rw h (record { at = k.at })

pub Reads-expect_width : (n : ℕ) (x : Bytes) → length x ≡ n → Reads (expect_width n x) [] x
Reads-expect_width n x h = record { at = λ r post fits next. rw add-zero (ground arith) }

-- A last step that reads nothing.
pub Reads-bind_nil {ℓ κ} :
    {A : Type ℓ} {B : Type κ} (d : Decoder A) (f : A → Decoder B) {x : Bytes} {a : A} {b : B}
    → Reads d x a
    → Reads (f a) [] b
    → Reads (d >>= f) x b
Reads-bind_nil d f {x} {a} {b} h k =
    subst (λ z. Reads (d >>= f) z b) (append-nil x) (Reads-bind d f h k)

pub Reads-get_fixed : (n : ℕ) (x : Bytes) → length x ≡ n → Reads (get_fixed n) x x
unfolding get_fixed
Reads-get_fixed n x h =
    Reads-bind_nil (get_slice n) (expect_width n)
      (subst (λ m. Reads (get_slice m) x x) h (Reads-get_slice x)) (Reads-expect_width n x h)

pub Reads-get_u8 : (b : ℕ) → Reads get_u8 (b ∷ []) b
unfolding get_u8
Reads-get_u8 b = Reads-bind_nil (get_slice 1) expect_first (Reads-get_slice (b ∷ [])) (Reads-pure b)

pub Reads-get_uint : (n v : ℕ) → v < 256 ^ n → Reads (get_uint n) (to_le_bytes n v) v
unfolding get_uint
Reads-get_uint n v h =
    Reads-bind_nil (get_fixed n) (λ out. pure (from_le_bytes out))
      (Reads-get_fixed n (to_le_bytes n v) (length-to_le_bytes n v))
      (rw (from_le_bytes-to_le_bytes n v h) (Reads-pure v))

pub Reads-vector_len :
    (limit n : ℕ) → n ≤ limit → n < u32_mod → Reads (vector_len limit) (to_le_bytes 4 n) n
unfolding vector_len
Reads-vector_len limit n h small =
    Reads-bind_nil (get_uint 4)
      (λ len. reject_if (ltb limit len) (limit_exceeded len limit) >> pure len)
      (Reads-get_uint 4 n small) (Reads-reject_if _ _ (ground arith) (Reads-pure n))

pub Reads-get_bytes :
    (limit : ℕ) (x : Bytes)
    → length x ≤ limit
    → length x ≤ max_consensus_allocation
    → Reads (get_bytes limit) (to_le_bytes 4 (length x) ++ x) x
unfolding get_bytes
Reads-get_bytes limit x h small =
    Reads-bind (get_uint 4) _ (Reads-get_uint 4 (length x) (omega arith))
      (Reads-reject_if _ _ (ground arith) (Reads-get_slice x))
