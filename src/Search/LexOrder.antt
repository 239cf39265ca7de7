-- ===== src/Search/LexOrder.antt =====
-- The alphabetical order of byte strings is a total order.
use sufary.Base.{ℕ, refl, inl, inr, List, [], ◌∷◌, arith}
use sufary.Search.Suffix.{LexLe}

pub LexLe-refl : (xs : List ℕ) → LexLe xs xs
LexLe-refl [] = tt
LexLe-refl (x ∷ xs) = inr (refl, LexLe-refl xs)

pub LexLe-trans : (xs ys zs : List ℕ) → LexLe xs ys → LexLe ys zs → LexLe xs zs
LexLe-trans [] ys zs h k = tt
LexLe-trans (x ∷ xs) [] zs h k = elim h [ ]
LexLe-trans (x ∷ xs) (y ∷ ys) [] h k = elim k [ ]
LexLe-trans (x ∷ xs) (y ∷ ys) (z ∷ zs) (inl h) (inl k) = inl (omega arith)
LexLe-trans (x ∷ xs) (y ∷ ys) (z ∷ zs) (inl h) (inr (e, k)) = inl (omega arith)
LexLe-trans (x ∷ xs) (y ∷ ys) (z ∷ zs) (inr (e, h)) (inl k) = inl (omega arith)
LexLe-trans (x ∷ xs) (y ∷ ys) (z ∷ zs) (inr (e, h)) (inr (e', k)) =
    inr (omega arith, LexLe-trans xs ys zs h k)
