-- ===== src/Types/Witness.antt =====
-- `struct WorkshareWitness`. The two sets of `is_canonical` are compared by mutual inclusion.
use paritr_node.Prelude.{ℕ, Bool, true, false, ◌&&◌, not, List, [], ◌∷◌, map, any, if◌then◌else◌}
use paritr_node.Prelude.Order.{bytes_eq, bytes_lt}
use paritr_node.Codec.{
  Writer, Decoder, ◌>>=◌, ◌▷◌, put_u16, put_vector, consensus_encode, get_uint, get_vector, pure,
}
use paritr_node.Crypto.{Primitives, Hash32, domain_hash, ascii}
use paritr_node.Params.{max_templates_per_block, max_workshares_per_block, max_template_bytes}
use paritr_node.Types.BlockTemplate
use paritr_node.Types.BlockTemplate.{BlockTemplate}
use paritr_node.Types.Workshare
use paritr_node.Types.Workshare.{Workshare}

pub record WorkshareWitness : Type 0 where
  pub version : ℕ
  pub templates : List BlockTemplate
  pub workshares : List Workshare

-- `WorkshareWitness::VERSION`
abbrev pub current_version : ℕ
current_version = 1

abbrev pub empty : WorkshareWitness
empty = record { version = current_version; templates = []; workshares = [] }

-- `!ids.windows(2).any(|pair| pair[0] >= pair[1])`
unfoldable pub strictly_sorted : List Hash32 → Bool
strictly_sorted (x ∷ y ∷ rest) = bytes_lt x y && strictly_sorted (y ∷ rest)
strictly_sorted _ = true

abbrev pub contains : List Hash32 → Hash32 → Bool
contains xs x = any (bytes_eq x) xs

-- Every element of the first list is in the second.
unfoldable pub included : List Hash32 → List Hash32 → Bool
included [] ys = true
included (x ∷ xs) ys = contains ys x && included xs ys

module _ ⦃p : Primitives⦄ where
  unfoldable pub encode_to : WorkshareWitness → Writer → Writer
  encode_to v w =
      w
      ▷ put_u16 v.version
      ▷ put_vector BlockTemplate.encode_to v.templates
      ▷ put_vector Workshare.encode_to v.workshares

  unfoldable pub decode_from : Decoder WorkshareWitness
  decode_from = do
    version ← get_uint 2
    templates ← get_vector max_templates_per_block max_template_bytes BlockTemplate.decode_from
    workshares ← get_vector max_workshares_per_block 512 Workshare.decode_from
    pure (record { version = version; templates = templates; workshares = workshares })

  unfoldable pub root : WorkshareWitness → Hash32
  unfolding encode_to
  root v = domain_hash (ascii "PARITR-P9-WORKSHARE-WITNESS-v1") (consensus_encode encode_to v)

  unfoldable pub is_canonical : WorkshareWitness → Bool
  unfolding strictly_sorted included
  is_canonical v =
      let ids = map BlockTemplate.id v.templates in
      let referenced = map (λ s. s.template_id) v.workshares in
      if not (strictly_sorted ids)
      then false
      else included referenced ids && included ids referenced
