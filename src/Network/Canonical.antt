-- ===== src/Network/Canonical.antt =====
-- A frame that is accepted is the frame of its message, so no message has a second frame.
use mathlib.Core.Path.{subst, fun_ext}
use mathlib.Core.List.{append_assoc}
use paritr_node.Prelude.{
  ℕ, ◌≡◌, refl, sym, Bool-cases, not, inl, inr, List, [], ◌∷◌, ◌++◌, arith, ==_iff, ◌==◌,
  if◌then◌else◌, length, Result, ok, err,
}
use paritr_node.Prelude.Order.{bytes_eq, eq_of_bytes_eq}
use paritr_node.Codec.{
  Bytes, IsBytes, Reader, Decoder, CodecError, get_framed, get_uint, vector_len, consensus_encode,
  get_fixed, get_many, lift_result, reject_if, non_canonical, to_le_bytes, ◌>>=◌, ◌>>◌, pure,
}
use paritr_node.Codec.Spells.{
  Spells, Spells-behind, Spells-bind, Spells-then, Spells-pure, Spells-get_u8, Spells-get_uint,
  Spells-get_fixed, Spells-vector_len, Consumed, counted, one_byte,
}
use paritr_node.Codec.Text.{put_string}
use paritr_node.Codec.Frames.{concat_items, framed, put_items-eq}
use paritr_node.Codec.Canonical.{get_many_lem, finish_decode-Spells, Spells-get_framed}
use paritr_node.Crypto.{Primitives, Hash32, get_hash, put_hash}
use paritr_node.Types.BlockHeader
use paritr_node.Types.BlockHeader.{BlockHeader}
use paritr_node.Types.Wire.Simple.{Spells-Transaction, Spells-BlockHeader}
use paritr_node.Types.Wire.Nested.{
  Spells-BlockTemplate, Spells-Workshare, header_bytes, header_append,
}
use paritr_node.Types.Wire.Whole.{Spells-Block}
use paritr_node.Network.ObjectKind
use paritr_node.Network.ObjectKind.{ObjectKind, to_u8}
use paritr_node.Network.WireMessage
use paritr_node.Network.WireMessage.{
  WireMessage, hello, inventory, get_data, block, transaction, workshare, template, get_headers,
  headers, ping, pong, peers, get_kind, get_message, get_frame, get_peers, encode_frame,
  decode_frame, wire_magic,
}
use paritr_node.Network.Greeting.{Spells-Hello}
use paritr_node.Network.Urls.{get_peers_lem}
use paritr_node.Network.Messages.{string_append}
use paritr_node.Network.Frames.{encode_frame-eq}

-- A test of the tag decides between two bodies.
Spells-if {ℓ} :
    {A : Type ℓ} (tag k : ℕ) (d d' : Decoder A) (enc : A → Bytes)
    → Spells (one_byte k) d enc
    → Spells (one_byte tag) d' enc
    → Spells (one_byte tag) (if tag == k then d else d') enc
Spells-if tag k d d' enc h h' = elim (Bool-cases (tag == k)) [
  | inl same ↦ rw same (subst (λ n. Spells (one_byte n) d enc) (sym ((==_iff tag k).0 same)) h)
  | inr other ↦ rw other h'
]

-- A kind is spelled by its tag.
kind_bytes : ObjectKind → Bytes
kind_bytes kind = to_u8 kind ∷ []

to_u8-try_from :
    (tag : ℕ) (kind : ObjectKind) → ObjectKind.try_from tag ≡ ok kind → to_u8 kind ≡ tag
unfolding ObjectKind.try_from
to_u8-try_from tag ObjectKind.block h = ground arith
to_u8-try_from tag ObjectKind.transaction h = ground arith
to_u8-try_from tag ObjectKind.workshare h = ground arith
to_u8-try_from tag ObjectKind.template h = ground arith

lifted :
    (tag : ℕ) (m : Result CodecError ObjectKind) (r : Reader) (kind : ObjectKind) (r' : Reader)
    → lift_result m r ≡ ok (kind, r')
    → (m ≡ ok kind) × (r ≡ r')
lifted tag (ok k) r kind r' h = (ground arith, ground arith)
lifted tag (err e) r kind r' h = cc
lifted tag Result.panicked r kind r' h = cc

Spells-get_kind : Spells [] get_kind kind_bytes
unfolding get_kind kind_bytes
Spells-get_kind = Spells-bind _ _ _ _ _ Spells-get_u8 λ tag. record { at = read_kind tag }
  where
    read_kind :
        (tag : ℕ) (r : Reader) (kind : ObjectKind) (r' : Reader)
        → IsBytes r.bytes
        → lift_result (ObjectKind.try_from tag) r ≡ ok (kind, r')
        → Consumed (one_byte tag) kind_bytes r kind r'
    read_kind tag r kind r' bytes h =
        let (found, there) = lifted tag (ObjectKind.try_from tag) r kind r' h in
        record {
          read = [];
          same = rw there refl;
          split = rw there refl;
          spelled = rw (to_u8-try_from tag kind found) refl;
        }

-- A list of items behind their number, which `d` reads `n` of.
module _ {ℓ} {A : Type ℓ} (pre : Bytes) (enc₁ : A → Bytes) where
  abbrev list_bytes : List A → Bytes
  list_bytes items = (pre ++ to_le_bytes 4 (length items)) ++ concat_items enc₁ items

  Spells-items :
      (n : ℕ) (d : Decoder (List A))
      → ((r : Reader) (items : List A) (r' : Reader)
          → IsBytes r.bytes
          → d r ≡ ok (items, r')
          → (length items ≡ n) × Consumed [] (concat_items enc₁) r items r')
      → Spells (pre ++ to_le_bytes 4 n) d list_bytes
  Spells-items n d h = record { at = read_items }
    where
      read_items :
          (r : Reader) (items : List A) (r' : Reader)
          → IsBytes r.bytes
          → d r ≡ ok (items, r')
          → Consumed (pre ++ to_le_bytes 4 n) list_bytes r items r'
      read_items r items r' bytes e =
          let (count, c) = h r items r' bytes e in
          record {
            read = c.read;
            same = c.same;
            split = c.split;
            spelled = rw (count, c.spelled) refl;
          }

module _ ⦃p : Primitives⦄ where
  abbrev encode : WireMessage → Bytes
  encode = consensus_encode WireMessage.encode_to

  itself : Hash32 → Bytes
  itself x = x

  Spells-hash : Spells [] get_hash itself
  unfolding itself
  Spells-hash = Spells-get_fixed 32

  Spells-header : Spells [] BlockHeader.decode_from header_bytes
  unfolding header_bytes
  Spells-header = Spells-BlockHeader

  Spells-frame {ℓ} :
      {A : Type ℓ} (tag limit : ℕ) (d : Decoder A) (e : A → Bytes) (m : A → WireMessage)
      → Spells [] d e
      → ((a : A) → encode (m a) ≡ one_byte tag ++ framed e a)
      → Spells (one_byte tag) (get_framed limit d >>= λ a. pure (m a)) encode
  Spells-frame tag limit d e m h same =
      Spells-bind (one_byte tag) (get_framed limit d) _ (framed e) encode
        (Spells-get_framed limit d e h) λ a. Spells-pure _ (m a) _ (sym (same a))

  Spells-named :
      (tag : ℕ) (m : ObjectKind → Hash32 → WireMessage)
      → ((kind : ObjectKind) (id : Hash32)
          → encode (m kind id) ≡ (one_byte tag ++ kind_bytes kind) ++ itself id)
      → Spells (one_byte tag) (get_kind >>= λ kind. get_hash >>= λ id. pure (m kind id)) encode
  Spells-named tag m same =
      Spells-bind (one_byte tag) get_kind _ kind_bytes encode Spells-get_kind λ kind.
        Spells-bind _ get_hash _ itself encode Spells-hash
          λ id. Spells-pure _ (m kind id) _ (sym (same kind id))

  Spells-number :
      (tag : ℕ) (m : ℕ → WireMessage)
      → ((n : ℕ) → encode (m n) ≡ one_byte tag ++ to_le_bytes 8 n)
      → Spells (one_byte tag) (get_uint 8 >>= λ n. pure (m n)) encode
  Spells-number tag m same =
      Spells-bind (one_byte tag) (get_uint 8) _ (to_le_bytes 8) encode (Spells-get_uint 8)
        λ n. Spells-pure _ (m n) _ (sym (same n))

  -- A list of messages' parts behind its length.
  Spells-list {ℓ} :
      {A : Type ℓ} (tag limit : ℕ) (d : ℕ → Decoder (List A)) (e : A → Bytes)
      (f : List A → Decoder WireMessage)
      → ((n : ℕ) (r : Reader) (items : List A) (r' : Reader)
          → IsBytes r.bytes
          → d n r ≡ ok (items, r')
          → (length items ≡ n) × Consumed [] (concat_items e) r items r')
      → ((items : List A) → Spells (list_bytes (one_byte tag) e items) (f items) encode)
      → Spells (one_byte tag) (vector_len limit >>= λ n. d n >>= f) encode
  Spells-list tag limit d e f h k =
      Spells-bind (one_byte tag) (vector_len limit) _ (to_le_bytes 4) encode
        (Spells-vector_len limit)
        λ n.
          Spells-then _ (d n) f (list_bytes (one_byte tag) e) encode
            (Spells-items (one_byte tag) e n (d n) (h n)) k

  Spells-get_message : (tag : ℕ) → Spells (one_byte tag) (get_message tag) encode
  unfolding get_message WireMessage.encode_to itself kind_bytes
  Spells-get_message tag =
      Spells-if tag 1 _ _ encode (Spells-frame 1 _ _ _ hello Spells-Hello (λ a. simp append_assoc))
        (Spells-if tag 2 _ _ encode (Spells-named 2 inventory (λ kind id. refl)) (
          Spells-if tag 3 _ _ encode (Spells-named 3 get_data (λ kind id. refl)) (
            Spells-if tag 4 _ _ encode
              (Spells-frame 4 _ _ _ block Spells-Block (λ a. simp append_assoc))
              (Spells-if tag 5 _ _ encode
                (Spells-frame 5 _ _ _ transaction Spells-Transaction (λ a. simp append_assoc))
                (Spells-if tag 6 _ _ encode
                  (Spells-frame 6 _ _ _ workshare Spells-Workshare (λ a. simp append_assoc))
                  (Spells-if tag 7 _ _ encode
                    (Spells-frame 7 _ _ _ template Spells-BlockTemplate (λ a. simp append_assoc))
                    (Spells-if tag 8 _ _ encode
                      (Spells-list 8 64 (λ n. get_many n get_hash) itself _
                        (λ n r items r' bytes e.
                          get_many_lem get_hash itself n r items r' Spells-hash bytes e)
                        (λ locator. Spells-bind _ get_hash _ itself encode Spells-hash (λ stop.
                          Spells-pure _ _ _ (
                            simp (
                              put_items-eq put_hash itself locator _ (λ a v. refl),
                              append_assoc,
                            )))))
                      (Spells-if tag 9 _ _ encode
                        (Spells-list 9 _ (λ n. get_many n BlockHeader.decode_from) header_bytes _
                          (λ n r items r' bytes e.
                            get_many_lem BlockHeader.decode_from header_bytes n r items r'
                              Spells-header bytes e)
                          (λ list. Spells-pure _ _ _ (
                            simp (
                              put_items-eq BlockHeader.encode_to header_bytes list _ header_append,
                              append_assoc,
                            ))))
                        (Spells-if tag 10 _ _ encode (Spells-number 10 ping (λ n. refl)) (
                          Spells-if tag 11 _ _ encode (Spells-number 11 pong (λ n. refl)) (
                            Spells-if tag 12 _ _ encode
                              (Spells-list 12 _ (λ n. get_peers n []) counted _
                                (λ n r items r' bytes e. get_peers_lem n [] items r r' bytes e)
                                (λ list. Spells-pure _ _ _ (
                                  simp (
                                    put_items-eq put_string counted list _ string_append,
                                    append_assoc,
                                  ))))
                              (record { at = λ r a r' bytes e. absurd (cc) }))))))))))))

  Spells-WireMessage : Spells [] WireMessage.decode_from encode
  unfolding WireMessage.decode_from
  Spells-WireMessage = Spells-bind _ _ _ _ _ Spells-get_u8 Spells-get_message

  Spells-magic :
      (magic : Bytes)
      → Spells magic
          (reject_if (not (bytes_eq magic wire_magic)) (non_canonical "wrong P2P magic")
            >> WireMessage.decode_from)
          encode_frame
  Spells-magic magic = elim (Bool-cases (bytes_eq magic wire_magic)) [
    | inl same ↦ rw same (
        rw (eq_of_bytes_eq magic wire_magic same) (
          rw (fun_ext encode_frame-eq)
            (record { at = (Spells-behind wire_magic _ encode Spells-WireMessage).at })))
    | inr other ↦ rw other (record { at = λ r m r' bytes e. absurd (cc) })
  ]

  Spells-get_frame : Spells [] get_frame encode_frame
  unfolding get_frame
  Spells-get_frame = Spells-bind [] (get_fixed 4) _ _ _ (Spells-get_fixed 4) Spells-magic

  -- Bytes that are accepted as a frame are the frame of the message that they decode to.
  pub frame_canonical :
      (input : Bytes) (m : WireMessage)
      → IsBytes input
      → decode_frame input ≡ ok m
      → input ≡ encode_frame m
  unfolding decode_frame
  frame_canonical input m bytes h =
      finish_decode-Spells get_frame encode_frame input m Spells-get_frame bytes (ground arith)
