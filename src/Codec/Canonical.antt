-- ===== src/Codec/Canonical.antt =====
-- Whole objects are spelled in one way only: `consensus_decode`, an object behind its length, and
-- a vector of such.
use mathlib.Core.Path.{subst}
use mathlib.Core.List.{append-nil, append_assoc}
use paritr_node.Prelude.{
  ℕ, zero, suc, ◌≡◌, refl, ap, sym, ◌∙◌, List, [], ◌∷◌, ◌++◌, arith, length, drop, All-append_left,
  All-append_right, All-drop, length-drop, ok, err, panicked, Result,
}
use paritr_node.Codec.{
  Bytes, IsBytes, Reader, Decoder, ◌>>=◌, pure, get_bytes, vector_len, to_le_bytes, CodecError,
  consensus_decode, finish_decode, new_reader, lift_result, get_framed, get_many, get_vector,
}
use paritr_node.Codec.Reads.{rest}
use paritr_node.Codec.Frames.{framed, concat_framed, concat_items}
use paritr_node.Codec.Spells.{
  Consumed, Spells, Spells-bind, Spells-get_bytes, Spells-vector_len, counted, continue-eq-ok,
}

pub ok-injective {ℓ} : {A : Type ℓ} {a b : A} → ◌≡◌ {A = Result CodecError A} (ok a) (ok b) → a ≡ b
ok-injective h = cc

drop_all : (n : ℕ) (xs : Bytes) → length (drop n xs) ≡ 0 → drop n xs ≡ []
drop_all n xs h = go (drop n xs) h
  where
    go : (ys : Bytes) → length ys ≡ 0 → ys ≡ []
    go [] e = refl
    go (y ∷ ys) e = absurd (omega arith)

module _ {ℓ} {A : Type ℓ} where
  finish_decode-eq-ok :
      (m : Result CodecError (A × Reader)) (a : A)
      → finish_decode m ≡ ok a
      → (r' : Reader) × (m ≡ ok (a, r')) × (length (rest r') ≡ 0)
  finish_decode-eq-ok (ok (b, s)) a h =
      (s, ground arith, ground (arith, length-drop s.offset s.bytes))
  finish_decode-eq-ok (err e) a h = cc
  finish_decode-eq-ok panicked a h = cc

  -- An input that a decoder reads to its end is the encoding of what it decodes to.
  pub finish_decode-Spells :
      (d : Decoder A) (enc : A → Bytes) (input : Bytes) (a : A)
      → Spells [] d enc
      → IsBytes input
      → finish_decode (d (new_reader input)) ≡ ok a
      → input ≡ enc a
  finish_decode-Spells d enc input a h bytes e =
      let (r', read, done) = finish_decode-eq-ok (d (new_reader input)) a e in
      let c = h.at (new_reader input) a r' bytes read in
      c.split
      ∙ ap (λ z. c.read ++ z) (drop_all r'.offset r'.bytes done)
      ∙ append-nil c.read
      ∙ c.spelled

  -- An input that decodes is the encoding of what it decodes to.
  pub consensus_decode-Spells :
      (d : Decoder A) (enc : A → Bytes) (input : Bytes) (a : A)
      → Spells [] d enc
      → IsBytes input
      → consensus_decode d input ≡ ok a
      → input ≡ enc a
  unfolding consensus_decode
  consensus_decode-Spells d enc input a h bytes e =
      finish_decode-Spells d enc input a h bytes (ground arith)

  lift_result-eq-ok :
      (m : Result CodecError A) (r : Reader) (a : A) (r' : Reader)
      → lift_result m r ≡ ok (a, r')
      → (m ≡ ok a) × (r ≡ r')
  lift_result-eq-ok (ok b) r a r' h = (ground arith, ground arith)
  lift_result-eq-ok (err e) r a r' h = cc
  lift_result-eq-ok panicked r a r' h = cc

  pub Spells-get_framed :
      (limit : ℕ) (d : Decoder A) (enc : A → Bytes)
      → Spells [] d enc
      → Spells [] (get_framed limit d) (framed enc)
  unfolding get_framed
  Spells-get_framed limit d enc h = record { at = read_frame }
    where
      slice-IsBytes :
          (r : Reader) (x : Bytes) (r' : Reader)
          → IsBytes r.bytes
          → Consumed [] counted r x r'
          → IsBytes x
      slice-IsBytes r x r' bytes c =
          let all = All-drop _ r.offset r.bytes bytes in
          let read = All-append_left _ c.read (rest r') (subst IsBytes c.split all) in
          All-append_right _ (to_le_bytes 4 (length x)) x (subst IsBytes c.spelled read)

      read_frame :
          (r : Reader) (a : A) (r' : Reader)
          → IsBytes r.bytes
          → get_framed limit d r ≡ ok (a, r')
          → Consumed [] (framed enc) r a r'
      read_frame r a r' bytes e =
          let ((x, s), first, second) =
            continue-eq-ok (λ slice. lift_result (consensus_decode d slice)) (get_bytes limit r)
              e in
          let (decoded, there) = lift_result-eq-ok (consensus_decode d x) s a r' second in
          let c = (Spells-get_bytes limit).at r x s bytes first in
          let same = consensus_decode-Spells d enc x a h (slice-IsBytes r x s bytes c) decoded in
          record {
            read = c.read;
            same = rw (← there) c.same;
            split = rw (← there) c.split;
            spelled = c.spelled ∙ ap counted same;
          }

  Consumed-cons :
      (enc : A → Bytes) (r : Reader) (a : A) (s : Reader) (more : List A) (t : Reader)
      → Consumed [] enc r a s
      → Consumed [] (concat_items enc) s more t
      → Consumed [] (concat_items enc) r (a ∷ more) t
  Consumed-cons enc r a s more t c c' = record {
    read = c.read ++ c'.read;
    same = c'.same ∙ c.same;
    split = c.split ∙ ap (λ z. c.read ++ z) c'.split ∙ sym (append_assoc c.read c'.read (rest t));
    spelled = rw (c.spelled, c'.spelled) refl;
  }

  -- A vector of `n` objects, and that there are `n`.
  pub get_many_lem :
      (d : Decoder A) (enc : A → Bytes) (n : ℕ) (r : Reader) (items : List A) (r' : Reader)
      → Spells [] d enc
      → IsBytes r.bytes
      → get_many n d r ≡ ok (items, r')
      → (length items ≡ n) × Consumed [] (concat_items enc) r items r'
  unfolding get_many
  get_many_lem d enc zero r items r' h bytes e =
      let here : [] ≡ items = ground arith in
      let there : r ≡ r' = ground arith in
      (
        rw (← here) refl,
        record {
          read = [];
          same = rw (← there) refl;
          split = rw (← there) refl;
          spelled = rw (← here) refl;
        },
      )
  get_many_lem d enc (suc n) r items r' h bytes e =
      let ((a, s), first, second) =
        continue-eq-ok (λ a. get_many n d >>= λ more. pure (a ∷ more)) (d r) e in
      let ((more, t), third, fourth) =
        continue-eq-ok (λ more. pure (a ∷ more)) (get_many n d s) second in
      let c = h.at r a s bytes first in
      let (count, c') = get_many_lem d enc n s more t h (subst IsBytes (sym c.same) bytes) third in
      subst
        (λ (q : List A × Reader). (length q.0 ≡ suc n) × Consumed [] (concat_items enc) r q.0 q.1)
        (ok-injective fourth) (ap suc count, Consumed-cons enc r a s more t c c')

  pub Spells-get_vector :
      (max_count limit : ℕ) (d : Decoder A) (enc : A → Bytes)
      → Spells [] d enc
      → Spells []
          (get_vector max_count limit d)
          (λ items. to_le_bytes 4 (length items) ++ concat_framed enc items)
  unfolding get_vector
  Spells-get_vector max_count limit d enc h =
      Spells-bind [] (vector_len max_count) _ (to_le_bytes 4) _ (Spells-vector_len max_count)
        λ n. record { at = read_items n }
    where
      read_items :
          (n : ℕ) (r : Reader) (items : List A) (r' : Reader)
          → IsBytes r.bytes
          → get_many n (get_framed limit d) r ≡ ok (items, r')
          → Consumed
              (to_le_bytes 4 n)
              (λ items. to_le_bytes 4 (length items) ++ concat_framed enc items)
              r
              items
              r'
      read_items n r items r' bytes e =
          let (count, c) =
            get_many_lem (get_framed limit d) (framed enc) n r items r'
              (Spells-get_framed limit d enc h) bytes e in
          record {
            read = c.read;
            same = c.same;
            split = c.split;
            spelled = rw (count, c.spelled) refl;
          }
