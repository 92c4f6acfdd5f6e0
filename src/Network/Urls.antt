-- ===== src/Network/Urls.antt =====
-- The list of peers' addresses on the wire: each text once.
use mathlib.Core.Path.{subst}
use paritr_node.Prelude.{
  zero, suc, ℕ, ◌≡◌, refl, false, Bool-cases, inl, inr, List, [], ◌∷◌, arith, any, length, All, ok,
}
use paritr_node.Prelude.Order.{bytes_eq}
use paritr_node.Codec.{
  Bytes, IsBytes, Reader, ◌>>=◌, ◌>>◌, pure, reject_if, non_canonical, get_many,
}
use paritr_node.Codec.Reads.{Reads, Reads-bind, Reads-bind_nil, Reads-reject_if, Reads-pure}
use paritr_node.Codec.Spells.{counted, Consumed, continue-eq-ok}
use paritr_node.Codec.Text.{IsText, get_string, Reads-get_string, Spells-get_string}
use paritr_node.Codec.Frames.{concat_items}
use paritr_node.Codec.Canonical.{get_many_lem, ok-injective}
use paritr_node.Network.WireMessage.{get_peers}

-- No text of the list is in `unique`, nor in the list before it.
abbrev pub IsFresh : List Bytes → List Bytes → Type 0
IsFresh unique [] = Unit {0}
IsFresh unique (peer ∷ peers) = (any (bytes_eq peer) unique ≡ false) × IsFresh (peer ∷ unique) peers

pub Reads-get_peers :
    (unique urls : List Bytes)
    → All (IsText 512) urls
    → IsFresh unique urls
    → Reads (get_peers (length urls) unique) (concat_items counted urls) urls
unfolding get_peers
Reads-get_peers unique [] h fresh = Reads-pure []
Reads-get_peers unique (url ∷ urls) h fresh =
    Reads-bind (get_string 512) _ (Reads-get_string 512 url (omega arith) h.0) (
      Reads-reject_if _ _ fresh.0 (
        Reads-bind_nil (get_peers (length urls) (url ∷ unique)) (λ rest. pure (url ∷ rest))
          (Reads-get_peers (url ∷ unique) urls h.1 fresh.1) (Reads-pure (url ∷ urls))))

-- What `get_peers` accepts, the plain loop accepts as well.
get_peers-get_many :
    (n : ℕ) (unique urls : List Bytes) (r r' : Reader)
    → get_peers n unique r ≡ ok (urls, r')
    → get_many n (get_string 512) r ≡ ok (urls, r')
unfolding get_peers get_many
get_peers-get_many zero unique urls r r' h = h
get_peers-get_many (suc n) unique urls r r' h =
    let ((url, s), first, second) =
      continue-eq-ok
        (λ peer.
          reject_if (any (bytes_eq peer) unique) (non_canonical "duplicate peer URL")
          >> (get_peers n (peer ∷ unique) >>= λ rest. pure (peer ∷ rest)))
        (get_string 512 r) h in
    elim (Bool-cases (any (bytes_eq url) unique)) [
      | inl twice ↦ absurd (ground arith)
      | inr once ↦
          let third : (get_peers n (url ∷ unique) >>= λ rest. pure (url ∷ rest)) s ≡ ok (urls, r') =
            rw once at second in
          let ((more, t), fourth, fifth) =
            continue-eq-ok (λ rest. pure (url ∷ rest)) (get_peers n (url ∷ unique) s) third in
          let read = get_peers-get_many n (url ∷ unique) more s t fourth in
          subst (λ (q : List Bytes × Reader). get_many (suc n) (get_string 512) r ≡ ok q)
            (ok-injective fifth) (rw first (rw read refl))
    ]

-- The texts that are read are spelled one behind the other.
pub get_peers_lem :
    (n : ℕ) (unique urls : List Bytes) (r r' : Reader)
    → IsBytes r.bytes
    → get_peers n unique r ≡ ok (urls, r')
    → (length urls ≡ n) × Consumed [] (concat_items counted) r urls r'
get_peers_lem n unique urls r r' bytes h =
    get_many_lem (get_string 512) counted n r urls r' (Spells-get_string 512) bytes
      (get_peers-get_many n unique urls r r' h)
