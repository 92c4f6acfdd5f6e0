-- ===== src/Prelude/Order.antt =====
-- `Ord`: three-way comparisons with the laws the ordered maps need, for numbers, byte strings
-- and pairs.
use Prim.Native.Nat.{compare, Ordering}
use Prim.Native.Nat.Ordering.{lt, eq, gt}
use mathlib.Core.Path.{◌≡◌, refl}
use mathlib.Core.Bool.{Bool, true, false}
use mathlib.Core.List.{List, [], ◌∷◌}
use Prim.Native.Nat.{ℕ}
use native.Mathlib.Omega.{arith}

pub record Ord {ℓ} (K : Type ℓ) : Type ℓ where
  pub cmp : K → K → Ordering
  pub lt_trans : (x y z : K) → cmp x y ≡ lt → cmp y z ≡ lt → cmp x z ≡ lt
  pub gt_of_lt : (x y : K) → cmp x y ≡ lt → cmp y x ≡ gt
  pub cmp_refl : (x : K) → cmp x x ≡ eq
  pub lt_of_gt : (x y : K) → cmp x y ≡ gt → cmp y x ≡ lt
  pub eq_of_cmp : (x y : K) → cmp x y ≡ eq → x ≡ y

-- A string of bytes compares as Rust's `[u8]`: the first difference decides.
unfoldable pub cmp_bytes : List ℕ → List ℕ → Ordering
cmp_bytes [] [] = eq
cmp_bytes [] (y ∷ ys) = lt
cmp_bytes (x ∷ xs) [] = gt
cmp_bytes (x ∷ xs) (y ∷ ys) =
    let rest = cmp_bytes xs ys in elim (compare x y) [ lt ↦ lt | eq ↦ rest | gt ↦ gt ]

pub cmp_bytes_refl : (xs : List ℕ) → cmp_bytes xs xs ≡ eq
unfolding cmp_bytes
cmp_bytes_refl [] = refl
cmp_bytes_refl (x ∷ xs) = ground (arith, cmp_bytes_refl xs)

pub eq_of_cmp_bytes : (xs ys : List ℕ) → cmp_bytes xs ys ≡ eq → xs ≡ ys
unfolding cmp_bytes
eq_of_cmp_bytes [] [] h = refl
eq_of_cmp_bytes [] (y ∷ ys) h = cc
eq_of_cmp_bytes (x ∷ xs) [] h = cc
eq_of_cmp_bytes (x ∷ xs) (y ∷ ys) h = ground (arith, eq_of_cmp_bytes xs ys)

pub cmp_bytes-gt_of_lt : (xs ys : List ℕ) → cmp_bytes xs ys ≡ lt → cmp_bytes ys xs ≡ gt
unfolding cmp_bytes
cmp_bytes-gt_of_lt [] [] h = cc
cmp_bytes-gt_of_lt [] (y ∷ ys) h = refl
cmp_bytes-gt_of_lt (x ∷ xs) [] h = cc
cmp_bytes-gt_of_lt (x ∷ xs) (y ∷ ys) h = ground (arith, cmp_bytes-gt_of_lt xs ys)

pub cmp_bytes-lt_of_gt : (xs ys : List ℕ) → cmp_bytes xs ys ≡ gt → cmp_bytes ys xs ≡ lt
unfolding cmp_bytes
cmp_bytes-lt_of_gt [] [] h = cc
cmp_bytes-lt_of_gt [] (y ∷ ys) h = cc
cmp_bytes-lt_of_gt (x ∷ xs) [] h = refl
cmp_bytes-lt_of_gt (x ∷ xs) (y ∷ ys) h = ground (arith, cmp_bytes-lt_of_gt xs ys)

pub cmp_bytes_trans :
    (xs ys zs : List ℕ) → cmp_bytes xs ys ≡ lt → cmp_bytes ys zs ≡ lt → cmp_bytes xs zs ≡ lt
unfolding cmp_bytes
cmp_bytes_trans [] [] zs h k = cc
cmp_bytes_trans [] (y ∷ ys) [] h k = cc
cmp_bytes_trans [] (y ∷ ys) (z ∷ zs) h k = refl
cmp_bytes_trans (x ∷ xs) [] zs h k = cc
cmp_bytes_trans (x ∷ xs) (y ∷ ys) [] h k = cc
cmp_bytes_trans (x ∷ xs) (y ∷ ys) (z ∷ zs) h k = ground (arith, cmp_bytes_trans xs ys zs)

instance abbrev pub bytes_ord : Ord (List ℕ)
bytes_ord = record {
  cmp = cmp_bytes;
  cmp_refl = cmp_bytes_refl;
  eq_of_cmp = eq_of_cmp_bytes;
  gt_of_lt = cmp_bytes-gt_of_lt;
  lt_of_gt = cmp_bytes-lt_of_gt;
  lt_trans = cmp_bytes_trans;
}

-- A pair of a number and a byte string, in this order.
unfoldable pub cmp_numbered : ℕ × List ℕ → ℕ × List ℕ → Ordering
cmp_numbered (a, xs) (b, ys) = elim (compare a b) [ lt ↦ lt | eq ↦ cmp_bytes xs ys | gt ↦ gt ]

module _ (p q r : ℕ × List ℕ) where
  pub cmp_numbered_refl : cmp_numbered p p ≡ eq
  unfolding cmp_numbered
  cmp_numbered_refl = ground (arith, cmp_bytes_refl p.1)

  pub eq_of_cmp_numbered : cmp_numbered p q ≡ eq → p ≡ q
  unfolding cmp_numbered
  eq_of_cmp_numbered h = ground (arith, eq_of_cmp_bytes p.1 q.1)

  pub cmp_numbered-gt_of_lt : cmp_numbered p q ≡ lt → cmp_numbered q p ≡ gt
  unfolding cmp_numbered
  cmp_numbered-gt_of_lt h = ground (arith, cmp_bytes-gt_of_lt p.1 q.1)

  pub cmp_numbered-lt_of_gt : cmp_numbered p q ≡ gt → cmp_numbered q p ≡ lt
  unfolding cmp_numbered
  cmp_numbered-lt_of_gt h = ground (arith, cmp_bytes-lt_of_gt p.1 q.1)

  pub cmp_numbered_trans : cmp_numbered p q ≡ lt → cmp_numbered q r ≡ lt → cmp_numbered p r ≡ lt
  unfolding cmp_numbered
  cmp_numbered_trans h k = ground (arith, cmp_bytes_trans p.1 q.1 r.1)

instance abbrev pub numbered_ord : Ord (ℕ × List ℕ)
numbered_ord = record {
  cmp = cmp_numbered;
  cmp_refl = λ p. cmp_numbered_refl p p p;
  eq_of_cmp = λ p q. eq_of_cmp_numbered p q q;
  gt_of_lt = λ p q. cmp_numbered-gt_of_lt p q q;
  lt_of_gt = λ p q. cmp_numbered-lt_of_gt p q q;
  lt_trans = cmp_numbered_trans;
}

-- `a == b` on byte strings.
abbrev pub bytes_eq : List ℕ → List ℕ → Bool
bytes_eq xs ys = elim (cmp_bytes xs ys) [ eq ↦ true | _ ↦ false ]

-- `a < b` on byte strings.
abbrev pub bytes_lt : List ℕ → List ℕ → Bool
bytes_lt xs ys = elim (cmp_bytes xs ys) [ lt ↦ true | _ ↦ false ]

pub eq_of_bytes_eq : (xs ys : List ℕ) → bytes_eq xs ys ≡ true → xs ≡ ys
eq_of_bytes_eq xs ys h = eq_of_cmp_bytes xs ys (ground arith)

pub bytes_eq_refl : (xs : List ℕ) → bytes_eq xs xs ≡ true
bytes_eq_refl xs = ground (arith, cmp_bytes_refl xs)

pub bytes_eq_ne : (xs ys : List ℕ) → bytes_eq xs ys ≡ false → xs ≡ ys → ⊥
bytes_eq_ne xs ys h e = ground (arith, cmp_bytes_refl xs)
