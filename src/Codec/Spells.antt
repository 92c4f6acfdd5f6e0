-- ===== src/Codec/Spells.antt =====
-- The other direction: what a decoder accepts is spelled the way the encoder writes it, so no
-- object has a second encoding. `Spells pre d enc` says this of the end of an encoding, behind
-- the bytes `pre` that were read before.
use mathlib.Core.Path.{subst}
use mathlib.Core.List.{append-nil, append_assoc}
use paritr_node.Prelude.{
  ℕ, ◌+◌, ◌≤◌, ◌≡◌, refl, ap, sym, ◌∙◌, Bool, true, false, [], ◌∷◌, ◌++◌, arith, length, drop, take,
  All-take, All-drop, take-append-drop, length-take, length-drop, drop-drop, ok, err, panicked,
  Result,
}
use paritr_node.Codec.{
  Bytes, IsBytes, Reader, Decoder, ◌>>=◌, ◌>>◌, continue, pure, reject_if, get_slice, get_fixed,
  get_u8, get_uint, get_bytes, vector_len, expect_width, expect_first, to_le_bytes, from_le_bytes,
  CodecError,
}
use paritr_node.Codec.Digits.{to_le_bytes-from_le_bytes}
use paritr_node.Codec.Reads.{rest}

-- What a successful read consumed: `x`, which completes `pre` to the encoding of the result.
pub record Consumed {ℓ} {A : Type ℓ} (pre : Bytes) (enc : A → Bytes) (r : Reader) (a : A)
    (r' : Reader) : Type 0 where
  pub read : Bytes
  pub same : r'.bytes ≡ r.bytes
  pub split : rest r ≡ read ++ rest r'
  pub spelled : pre ++ read ≡ enc a

pub record Spells {ℓ} {A : Type ℓ} (pre : Bytes) (d : Decoder A) (enc : A → Bytes) : Type ℓ where
  pub at :
      (r : Reader) (a : A) (r' : Reader)
      → IsBytes r.bytes
      → d r ≡ ok (a, r')
      → Consumed pre enc r a r'

pub continue-eq-ok {ℓ κ} :
    {A : Type ℓ} {B : Type κ} (f : A → Decoder B) (m : Result CodecError (A × Reader))
    {q : B × Reader}
    → continue f m ≡ ok q
    → (p : A × Reader) × (m ≡ ok p) × (f p.0 p.1 ≡ ok q)
continue-eq-ok f (ok p) h = (p, refl, h)
continue-eq-ok f (err e) h = cc
continue-eq-ok f panicked h = cc

-- Behind other bytes a decoder spells the same.
pub Spells-behind {ℓ} :
    {A : Type ℓ} (pre : Bytes) (d : Decoder A) (enc : A → Bytes)
    → Spells [] d enc
    → Spells pre d (λ a. pre ++ enc a)
Spells-behind pre d enc h = record {
  at = λ r a r' bytes e.
      let c = h.at r a r' bytes e in
      record {
        read = c.read;
        same = c.same;
        split = c.split;
        spelled = ap (λ z. pre ++ z) c.spelled;
      };
}

module _ {ℓ κ} {A : Type ℓ} {B : Type κ} where
  -- Behind a first part, whose spelling completes `pre`, the second goes on from there.
  pub Spells-then :
      (pre : Bytes) (d : Decoder A) (f : A → Decoder B) (enc₁ : A → Bytes) (enc : B → Bytes)
      → Spells pre d enc₁
      → ((a : A) → Spells (enc₁ a) (f a) enc)
      → Spells pre (d >>= f) enc
  Spells-then pre d f enc₁ enc h k = record { at = chained }
    where
      chained :
          (r : Reader) (b : B) (r'' : Reader)
          → IsBytes r.bytes
          → (d >>= f) r ≡ ok (b, r'')
          → Consumed pre enc r b r''
      chained r b r'' bytes e =
          let (p, first, second) = continue-eq-ok f (d r) e in
          let c = h.at r p.0 p.1 bytes first in
          let c' = (k p.0).at p.1 b r'' (subst IsBytes (sym c.same) bytes) second in
          record {
            read = c.read ++ c'.read;
            same = c'.same ∙ c.same;
            split =
                c.split
                ∙ ap (λ z. c.read ++ z) c'.split
                ∙ sym (append_assoc c.read c'.read (rest r''));
            spelled =
                sym (append_assoc pre c.read c'.read)
                ∙ ap (λ z. z ++ c'.read) c.spelled
                ∙ c'.spelled;
          }

  pub Spells-bind :
      (pre : Bytes) (d : Decoder A) (f : A → Decoder B) (enc₁ : A → Bytes) (enc : B → Bytes)
      → Spells [] d enc₁
      → ((a : A) → Spells (pre ++ enc₁ a) (f a) enc)
      → Spells pre (d >>= f) enc
  Spells-bind pre d f enc₁ enc h k =
      Spells-then pre d f (λ a. pre ++ enc₁ a) enc (Spells-behind pre d enc₁ h) k

module _ {ℓ} {A : Type ℓ} where
  pub Spells-pure : (pre : Bytes) (a : A) (enc : A → Bytes) → pre ≡ enc a → Spells pre (pure a) enc
  Spells-pure pre a enc e = record {
    at = λ r b r' bytes h. record {
      read = [];
      same = cc;
      split = cc;
      spelled = append-nil pre ∙ e ∙ cc;
    };
  }

  pub Spells-reject_if :
      (pre : Bytes) (c : Bool) (e : CodecError) (d : Decoder A) (enc : A → Bytes)
      → Spells pre d enc
      → Spells pre (reject_if c e >> d) enc
  Spells-reject_if pre true e d enc h = record { at = λ r a r' bytes k. absurd (ground arith) }
  Spells-reject_if pre false e d enc h = record { at = h.at }

abbrev itself : Bytes → Bytes
itself x = x

get_slice-Consumed :
    (n : ℕ) (r : Reader) (x : Bytes) (r' : Reader)
    → get_slice n r ≡ ok (x, r')
    → (r'.bytes ≡ r.bytes)
      × (r'.offset ≡ r.offset + n)
      × (x ≡ take n (drop r.offset r.bytes))
      × (r.offset + n ≤ length r.bytes)
unfolding get_slice
get_slice-Consumed n r x r' h = (ground arith, ground arith, ground arith, ground arith)

-- A slice is spelled as itself, and has the length that was asked for.
pub get_slice_lem :
    (n : ℕ) (r : Reader) (x : Bytes) (r' : Reader)
    → IsBytes r.bytes
    → get_slice n r ≡ ok (x, r')
    → Consumed [] itself r x r' × (length x ≡ n) × IsBytes x
get_slice_lem n r x r' bytes h =
    let (same, offset, slice, room) = get_slice-Consumed n r x r' h in
    let tail = drop r.offset r.bytes in
    (
      record {
        read = x;
        same = same;
        split =
            sym (take-append-drop n tail)
            ∙ rw (slice, same, offset, drop-drop n r.offset r.bytes) refl;
        spelled = refl;
      },
      rw slice (length-take n tail (omega (arith, length-drop r.offset r.bytes))),
      rw slice (All-take _ n tail (All-drop _ r.offset r.bytes bytes)),
    )

-- The rules for the methods of `Reader`, each with the bytes that its result stands for.
abbrev pub one_byte : ℕ → Bytes
one_byte b = b ∷ []

abbrev pub counted : Bytes → Bytes
counted x = to_le_bytes 4 (length x) ++ x

get_fixed_lem :
    (n : ℕ) (r : Reader) (x : Bytes) (r' : Reader)
    → IsBytes r.bytes
    → get_fixed n r ≡ ok (x, r')
    → Consumed [] itself r x r' × (length x ≡ n) × IsBytes x
unfolding get_fixed
get_fixed_lem n r x r' bytes h =
    let ((y, s), first, second) = continue-eq-ok (expect_width n) (get_slice n r) h in
    let done : ((y, s) ≡ (x, r')) = ground arith in
    get_slice_lem n r x r' bytes (first ∙ ap ok done)

pub Spells-get_fixed : (n : ℕ) → Spells [] (get_fixed n) itself
Spells-get_fixed n = record { at = λ r x r' bytes h. (get_fixed_lem n r x r' bytes h).0 }

pub Spells-get_u8 : Spells [] get_u8 one_byte
unfolding get_u8
Spells-get_u8 = record { at = read_one }
  where
    first_of_slice :
        (r : Reader) (y : Bytes) (s : Reader) (b : ℕ) (r' : Reader)
        → Consumed [] itself r y s × (length y ≡ 1) × IsBytes y
        → expect_first y s ≡ ok (b, r')
        → Consumed [] one_byte r b r'
    first_of_slice r [] s b r' c h = cc
    first_of_slice r (z ∷ []) s b r' c h =
        let here : z ≡ b = ground arith in
        let there : s ≡ r' = ground arith in
        record {
          read = c.0.read;
          same = rw (← there) c.0.same;
          split = rw (← there) c.0.split;
          spelled = rw (← here) c.0.spelled;
        }
    first_of_slice r (z ∷ z' ∷ y) s b r' c h = absurd (omega (arith, c.1))

    read_one :
        (r : Reader) (b : ℕ) (r' : Reader)
        → IsBytes r.bytes
        → get_u8 r ≡ ok (b, r')
        → Consumed [] one_byte r b r'
    read_one r b r' bytes h =
        let ((y, s), first, second) = continue-eq-ok expect_first (get_slice 1 r) h in
        first_of_slice r y s b r' (get_slice_lem 1 r y s bytes first) second

pub Spells-get_uint : (n : ℕ) → Spells [] (get_uint n) (to_le_bytes n)
unfolding get_uint
Spells-get_uint n = record { at = read_number }
  where
    read_number :
        (r : Reader) (v : ℕ) (r' : Reader)
        → IsBytes r.bytes
        → get_uint n r ≡ ok (v, r')
        → Consumed [] (to_le_bytes n) r v r'
    read_number r v r' bytes h =
        let ((y, s), first, second) =
          continue-eq-ok (λ out. pure (from_le_bytes out)) (get_fixed n r) h in
        let (c, width, digits) = get_fixed_lem n r y s bytes first in
        let value : from_le_bytes y ≡ v = ground arith in
        let there : s ≡ r' = ground arith in
        record {
          read = c.read;
          same = rw (← there) c.same;
          split = rw (← there) c.split;
          spelled = c.spelled ∙ rw (← value, ← width) (sym (to_le_bytes-from_le_bytes y digits));
        }

pub Spells-vector_len : (limit : ℕ) → Spells [] (vector_len limit) (to_le_bytes 4)
unfolding vector_len
Spells-vector_len limit =
    Spells-bind [] (get_uint 4) _ (to_le_bytes 4) (to_le_bytes 4) (Spells-get_uint 4)
      λ len. Spells-reject_if _ _ _ _ _ (Spells-pure _ len _ refl)

pub Spells-get_bytes : (limit : ℕ) → Spells [] (get_bytes limit) counted
unfolding get_bytes
Spells-get_bytes limit =
    Spells-bind [] (get_uint 4) _ (to_le_bytes 4) counted (Spells-get_uint 4)
      λ len. Spells-reject_if _ _ _ _ _ (record { at = read_slice len })
  where
    read_slice :
        (len : ℕ) (r : Reader) (x : Bytes) (r' : Reader)
        → IsBytes r.bytes
        → get_slice len r ≡ ok (x, r')
        → Consumed (to_le_bytes 4 len) counted r x r'
    read_slice len r x r' bytes h =
        let (c, width, _) = get_slice_lem len r x r' bytes h in
        record { read = c.read; same = c.same; split = c.split; spelled = rw (width, c.spelled) }
