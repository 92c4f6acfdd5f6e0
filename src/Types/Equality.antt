-- ===== src/Types/Equality.antt =====
-- The derived `PartialEq` of the consensus types: field by field.
use paritr_node.Prelude.{
  ◌≡◌, refl, ap, Bool, true, false, ◌&&◌, Option, none, some, List, [], ◌∷◌, ◌==◌, arith,
}
use paritr_node.Prelude.Order.{bytes_eq, eq_of_bytes_eq, bytes_eq_refl}
use paritr_node.Types.Transaction.{Transaction}
use paritr_node.Types.RewardClaim.{RewardClaim}
use paritr_node.Types.BlockHeader.{BlockHeader}
use paritr_node.Types.BlockTemplate.{BlockTemplate}
use paritr_node.Types.Workshare.{Workshare}
use paritr_node.Types.Witness.{WorkshareWitness, empty}
use paritr_node.Types.Block.{Block}

abbrev pub same_list : {A : Type 0} → (A → A → Bool) → List A → List A → Bool
same_list same [] [] = true
same_list same (x ∷ xs) (y ∷ ys) = same x y && same_list same xs ys
same_list same _ _ = false

unfoldable pub same_header : BlockHeader → BlockHeader → Bool
same_header a b =
    a.version == b.version
    && (a.protocol == b.protocol
        && (a.height == b.height
            && (bytes_eq a.previous_block b.previous_block
                && (bytes_eq a.transactions_root b.transactions_root
                    && (bytes_eq a.state_root b.state_root
                        && (bytes_eq a.workshare_root b.workshare_root
                            && (a.timestamp == b.timestamp
                                && (a.bits == b.bits && a.nonce == b.nonce))))))))

unfoldable pub same_transaction : Transaction → Transaction → Bool
same_transaction a b =
    a.version == b.version
    && (bytes_eq a.sender b.sender
        && (bytes_eq a.recipient b.recipient
            && (a.amount == b.amount
                && (a.fee == b.fee
                    && (a.nonce == b.nonce
                        && (bytes_eq a.public_key b.public_key
                            && bytes_eq a.signature b.signature))))))

unfoldable pub same_claim : Option RewardClaim → Option RewardClaim → Bool
same_claim none none = true
same_claim (some a) (some b) =
    a.version == b.version
    && (a.height == b.height
        && (bytes_eq a.finder b.finder && (a.amount == b.amount && a.extranonce == b.extranonce)))
same_claim _ _ = false

unfoldable pub same_template : BlockTemplate → BlockTemplate → Bool
unfolding same_transaction
same_template a b =
    a.version == b.version
    && (a.height == b.height
        && (bytes_eq a.parent b.parent && same_list same_transaction a.transactions b.transactions))

unfoldable pub same_share : Workshare → Workshare → Bool
unfolding same_header
same_share a b =
    a.version == b.version
    && (bytes_eq a.previous_workshare b.previous_workshare
        && (bytes_eq a.template_id b.template_id
            && (bytes_eq a.miner b.miner
                && (a.extranonce == b.extranonce
                    && same_header a.candidate_header b.candidate_header))))

unfoldable pub same_witness : WorkshareWitness → WorkshareWitness → Bool
unfolding same_template same_share
same_witness a b =
    a.version == b.version
    && (same_list same_template a.templates b.templates
        && same_list same_share a.workshares b.workshares)

unfoldable pub same_block : Block → Block → Bool
unfolding same_header same_claim same_transaction same_witness
same_block a b =
    same_header a.header b.header
    && (same_claim a.reward_claim b.reward_claim
        && (same_list same_transaction a.transactions b.transactions
            && same_witness a.workshare_witness b.workshare_witness))

same_list_sound :
    {A : Type 0} (same : A → A → Bool)
    → ((x y : A) → same x y ≡ true → x ≡ y)
    → (xs ys : List A) → same_list same xs ys ≡ true
    → xs ≡ ys
same_list_sound same sound [] [] h = refl
same_list_sound same sound [] (y ∷ ys) h = cc
same_list_sound same sound (x ∷ xs) [] h = cc
same_list_sound same sound (x ∷ xs) (y ∷ ys) h =
    grind (arith, sound x y, same_list_sound same sound xs ys)

pub header_of_same : (a b : BlockHeader) → same_header a b ≡ true → a ≡ b
unfolding same_header
header_of_same a b h = grind (
  arith,
  eq_of_bytes_eq a.previous_block b.previous_block,
  eq_of_bytes_eq a.transactions_root b.transactions_root,
  eq_of_bytes_eq a.state_root b.state_root,
  eq_of_bytes_eq a.workshare_root b.workshare_root,
)

transaction_of_same : (a b : Transaction) → same_transaction a b ≡ true → a ≡ b
unfolding same_transaction
transaction_of_same a b h = grind (
  arith,
  eq_of_bytes_eq a.sender b.sender,
  eq_of_bytes_eq a.recipient b.recipient,
  eq_of_bytes_eq a.public_key b.public_key,
  eq_of_bytes_eq a.signature b.signature,
)

claim_of_same : (a b : Option RewardClaim) → same_claim a b ≡ true → a ≡ b
unfolding same_claim
claim_of_same none none h = refl
claim_of_same none (some b) h = cc
claim_of_same (some a) none h = cc
claim_of_same (some a) (some b) h =
    let fields : a ≡ b = grind (arith, eq_of_bytes_eq a.finder b.finder) in ap some fields

template_of_same : (a b : BlockTemplate) → same_template a b ≡ true → a ≡ b
unfolding same_template
template_of_same a b h = grind (
  arith,
  eq_of_bytes_eq a.parent b.parent,
  same_list_sound same_transaction transaction_of_same a.transactions b.transactions,
)

share_of_same : (a b : Workshare) → same_share a b ≡ true → a ≡ b
unfolding same_share
share_of_same a b h = grind (
  arith,
  eq_of_bytes_eq a.previous_workshare b.previous_workshare,
  eq_of_bytes_eq a.template_id b.template_id,
  eq_of_bytes_eq a.miner b.miner,
  header_of_same a.candidate_header b.candidate_header,
)

witness_of_same : (a b : WorkshareWitness) → same_witness a b ≡ true → a ≡ b
unfolding same_witness
witness_of_same a b h = grind (
  arith,
  same_list_sound same_template template_of_same a.templates b.templates,
  same_list_sound same_share share_of_same a.workshares b.workshares,
)

-- Blocks that `==` accepts are equal.
pub block_of_same : (a b : Block) → same_block a b ≡ true → a ≡ b
unfolding same_block
block_of_same a b h = grind (
  arith,
  header_of_same a.header b.header,
  claim_of_same a.reward_claim b.reward_claim,
  same_list_sound same_transaction transaction_of_same a.transactions b.transactions,
  witness_of_same a.workshare_witness b.workshare_witness,
)

header_same_refl : (a : BlockHeader) → same_header a a ≡ true
unfolding same_header
header_same_refl a = ground (
  arith,
  bytes_eq_refl a.previous_block,
  bytes_eq_refl a.transactions_root,
  bytes_eq_refl a.state_root,
  bytes_eq_refl a.workshare_root,
)

-- A block without a claim, transactions and workshares equals itself.
pub bare_block_same_refl :
    (a : Block)
    → a.reward_claim ≡ none
    → a.transactions ≡ []
    → a.workshare_witness ≡ empty
    → same_block a a ≡ true
unfolding same_block same_claim same_witness
bare_block_same_refl a claim transactions witness =
    rw (header_same_refl a.header, claim, transactions, witness) refl
