-- ===== src/Chain/Heights.antt =====
-- Blocks that stand at their heights, and the subsidies that they claim.
use paritr_node.Prelude.{
  ℕ, zero, suc, ◌+◌, ◌≡◌, arith, some, List, [], ◌∷◌, ◌++◌, length, get_elem?, get_last?,
}
use mathlib.Core.Path.{subst}
use paritr_node.Params.{block_subsidy}
use paritr_node.Params.Schedule.{issued}
use paritr_node.Types.Block.{Block}
use paritr_node.Chain.Supply.{subsidies}

-- Each block's height is its place, counted from `n`.
abbrev pub Numbered : ℕ → List Block → Type 0
Numbered n [] = Unit
Numbered n (b ∷ rest) = (b.header.height ≡ n) × Numbered (suc n) rest

pub Numbered-append :
    (n : ℕ) (blocks : List Block) (b : Block)
    → Numbered n blocks
    → b.header.height ≡ n + length blocks
    → Numbered n (blocks ++ (b ∷ []))
Numbered-append n [] b h e = (omega arith, tt)
Numbered-append n (a ∷ blocks) b (here, rest) e =
    (here, Numbered-append (suc n) blocks b rest (omega arith))

pub Numbered-last :
    (n : ℕ) (blocks : List Block) (b : Block)
    → Numbered n blocks
    → get_last? blocks ≡ some b
    → b.header.height + 1 ≡ n + length blocks
Numbered-last n [] b h e = cc
Numbered-last n (a ∷ []) b (here, rest) e =
    (let same : a ≡ b = cc in subst (λ x. x.header.height + 1 ≡ n + 1) same (omega arith))
Numbered-last n (a ∷ c ∷ blocks) b (here, rest) e =
    omega (arith, Numbered-last (suc n) (c ∷ blocks) b rest e)

pub Numbered-get_elem? :
    (n : ℕ) (blocks : List Block) (i : ℕ) (b : Block)
    → Numbered n blocks
    → get_elem? blocks i ≡ some b
    → b.header.height ≡ n + i
Numbered-get_elem? n [] i b h e = cc
Numbered-get_elem? n (a ∷ blocks) zero b (here, rest) e =
    let same : a ≡ b = cc in subst (λ x. x.header.height ≡ n + 0) same (omega arith)
Numbered-get_elem? n (a ∷ blocks) (suc i) b (here, rest) e =
    omega (arith, Numbered-get_elem? (suc n) blocks i b rest e)

-- Blocks that follow one at height `n` claim the subsidies of their heights.
subsidies-Numbered :
    (n : ℕ) (blocks : List Block)
    → Numbered (suc n) blocks
    → subsidies blocks + issued n ≡ issued (n + length blocks)
unfolding issued
subsidies-Numbered n [] h = let same : n + 0 ≡ n = omega arith in rw same (omega arith)
subsidies-Numbered n (b ∷ blocks) (here, rest) =
    let next : n + suc (length blocks) ≡ suc n + length blocks = omega arith in
    rw (here, next) (omega (arith, subsidies-Numbered (suc n) blocks rest))

-- The block at height 0 claims nothing.
pub subsidies-all :
    (b : Block) (blocks : List Block)
    → Numbered 0 (b ∷ blocks)
    → subsidies (b ∷ blocks) ≡ issued (length blocks)
unfolding issued block_subsidy
subsidies-all b blocks (here, rest) =
    let same : 0 + length blocks ≡ length blocks = omega arith in
    let sum = rw same at (subsidies-Numbered 0 blocks rest) in rw here (omega (arith, sum))
