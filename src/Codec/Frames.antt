-- ===== src/Codec/Frames.antt =====
-- Whole objects: an object behind its length, a vector of such, and `consensus_decode`.

use mathlib.Core.List.{append-nil, append_assoc}
use paritr_node.Prelude.{
  ℕ, ◌≤◌, ◌<◌, ◌≡◌, sym, List, [], ◌∷◌, ◌++◌, arith, length, All, u32_mod, u64_mod, ok,
}
use paritr_node.Codec.{
  Bytes, Writer, Decoder, pure, get_bytes, vector_len, to_le_bytes, max_consensus_allocation,
  consensus_encode, consensus_decode, finish_decode, new_reader, lift_result, get_framed, get_many,
  get_vector, put_each, put_vector, put_items,
}
use paritr_node.Codec.Reads.{
  rest, advance, Reads, Reads-bind, Reads-bind_nil, Reads-pure, Reads-get_bytes, Reads-vector_len,
}

module _ {ℓ} {A : Type ℓ} where
  -- A decoder that reads the whole of an input, and finishes.
  pub finish_decode-Reads :
      (d : Decoder A) (x : Bytes) (a : A)
      → Reads d x a
      → length x < u64_mod
      → finish_decode (d (new_reader x)) ≡ ok a
  finish_decode-Reads d x a h small =
      let read : d (new_reader x) ≡ ok (a, advance (new_reader x) (length x)) =
        h.at (new_reader x) [] (record { inside = omega arith; small = small })
          (sym (append-nil x)) in
      ground (arith, read)

  -- Decoding a whole input gives back the object.
  pub consensus_decode-Reads :
      (d : Decoder A) (x : Bytes) (a : A)
      → Reads d x a
      → length x ≤ max_consensus_allocation
      → consensus_decode d x ≡ ok a
  unfolding consensus_decode
  consensus_decode-Reads d x a h small = ground (arith, finish_decode-Reads d x a h (omega arith))

  -- The bytes of an object behind its length.
  abbrev pub framed : (A → Bytes) → A → Bytes
  framed enc a = to_le_bytes 4 (length (enc a)) ++ enc a

  pub Reads-get_framed :
      (limit : ℕ) (d : Decoder A) (enc : A → Bytes) (a : A)
      → Reads d (enc a) a
      → length (enc a) ≤ limit
      → length (enc a) ≤ max_consensus_allocation
      → Reads (get_framed limit d) (framed enc a) a
  unfolding get_framed
  Reads-get_framed limit d enc a h fits small =
      Reads-bind_nil (get_bytes limit) (λ slice. lift_result (consensus_decode d slice))
        (Reads-get_bytes limit (enc a) fits small)
        (rw (consensus_decode-Reads d (enc a) a h small) (Reads-pure a))

  -- The bytes of several objects, one behind the other.
  abbrev pub concat_items : (A → Bytes) → List A → Bytes
  concat_items enc [] = []
  concat_items enc (a ∷ rest) = enc a ++ concat_items enc rest

  abbrev pub concat_framed : (A → Bytes) → List A → Bytes
  concat_framed enc = concat_items (framed enc)

  -- What each object of a vector has to satisfy to be read back.
  pub record ReadsBack (d : Decoder A) (enc : A → Bytes) (limit : ℕ) (a : A) : Type ℓ where
    pub reads : Reads d (enc a) a
    pub fits : length (enc a) ≤ limit

  pub Reads-get_many :
      (d : Decoder A) (enc : A → Bytes) (items : List A)
      → All (λ a. Reads d (enc a) a) items
      → Reads (get_many (length items) d) (concat_items enc items) items
  unfolding get_many
  Reads-get_many d enc [] h = Reads-pure []
  Reads-get_many d enc (a ∷ items) h = Reads-bind d _ h.0 (
      Reads-bind_nil (get_many (length items) d) (λ more. pure (a ∷ more))
        (Reads-get_many d enc items h.1) (Reads-pure (a ∷ items)))

  frames :
      (limit : ℕ) (d : Decoder A) (enc : A → Bytes) (items : List A)
      → limit ≤ max_consensus_allocation
      → All (ReadsBack d enc limit) items
      → All (λ a. Reads (get_framed limit d) (framed enc a) a) items
  frames limit d enc [] small h = tt
  frames limit d enc (a ∷ items) small h = (
    Reads-get_framed limit d enc a h.0.reads h.0.fits (omega (arith, h.0.fits)),
    frames limit d enc items small h.1,
  )

  pub Reads-get_vector :
      (max_count limit : ℕ) (d : Decoder A) (enc : A → Bytes) (items : List A)
      → limit ≤ max_consensus_allocation
      → length items ≤ max_count
      → max_count < u32_mod
      → All (ReadsBack d enc limit) items
      → Reads
          (get_vector max_count limit d)
          (to_le_bytes 4 (length items) ++ concat_framed enc items)
          items
  unfolding get_vector
  Reads-get_vector max_count limit d enc items small count fits h =
      Reads-bind (vector_len max_count) (λ n. get_many n (get_framed limit d))
        (Reads-vector_len max_count (length items) count (omega arith))
        (Reads-get_many (get_framed limit d) (framed enc) items (frames limit d enc items small h))

  -- The loops of `encode_to` append the objects one behind the other.
  put_each-eq :
      (e : A → Writer → Writer) (items : List A) (w : Writer)
      → put_each e items w ≡ w ++ concat_framed (consensus_encode e) items
  unfolding put_each
  put_each-eq e [] w = sym (append-nil w)
  put_each-eq e (a ∷ items) w = rw (put_each-eq e items) (simp append_assoc)

  pub put_vector-eq :
      (e : A → Writer → Writer) (items : List A) (w : Writer)
      → put_vector e items w
        ≡ w ++ (to_le_bytes 4 (length items) ++ concat_framed (consensus_encode e) items)
  unfolding put_vector
  put_vector-eq e items w = rw (put_each-eq e items) (simp append_assoc)

  -- `for item in items { item.encode_to(writer) }`, where `encode_to` appends.
  pub put_items-eq :
      (e : A → Writer → Writer) (enc : A → Bytes) (items : List A) (w : Writer)
      → ((a : A) (v : Writer) → e a v ≡ v ++ enc a)
      → put_items e items w ≡ w ++ concat_items enc items
  unfolding put_items
  put_items-eq e enc [] w h = sym (append-nil w)
  put_items-eq e enc (a ∷ items) w h =
      rw (put_items-eq e enc items (e a w) h, h a w) (simp append_assoc)
