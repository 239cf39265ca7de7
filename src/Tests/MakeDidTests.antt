-- ===== src/Tests/MakeDidTests.antt =====
-- lib/make-did.c on the text "aba", with "a" for the start tag and an insertion sort for `qsort`.
use sufary.Base.{
  ℕ, zero, suc, ◌≤◌, ◌<◌, ◌≡◌, refl, ◌⊎◌, inl, inr, List, [], ◌∷◌, length, get_or, if◌then◌else◌,
  Bool-cases, leb, none, some, true, false, arith, ap, ◌∙◌,
}
use sufary.Util.{reverse_word}
use sufary.Base.Int.{ℤ}
use sufary.Base.Run.{Ends, done}
use sufary.Search.Round.{entry}
use sufary.Search.Suffix.{Occurs}
use sufary.File.{sa_aryidx2txtidx}
use sufary.MakeIndex.{is_positive}
use sufary.MakeDid.{longcomp, sa_make_did}
use sufary.MakeDid.Regions.{IsSort, IsMade}
use sufary.MakeDid.Made.{longcomp-le, sa_make_did-IsMade}
use sufary.Did.{sa_didsearch}
use sufary.MakeDid.Regions.{did_of}
use sufary.MakeDid.Covers.{LastTag, sa_make_did-LastTag}
use sufary.Tests.SearchTests.{aba, aba-IsOpened, aba-IsOrdered}

abbrev insert : (ℕ → ℕ → ℤ) → ℕ → List ℕ → List ℕ
insert cmp x [] = x ∷ []
insert cmp x (y ∷ ys) =
    let rest = insert cmp x ys in if is_positive (cmp x y) then y ∷ rest else x ∷ y ∷ ys

abbrev insertion_sort : (ℕ → ℕ → ℤ) → List ℕ → List ℕ
insertion_sort cmp [] = []
insertion_sort cmp (x ∷ xs) = insert cmp x (insertion_sort cmp xs)

abbrev zeros : ℕ → List ℕ
zeros zero = []
zeros (suc n) = 0 ∷ zeros n

length-zeros : (n : ℕ) → length (zeros n) ≡ n
length-zeros zero = refl
length-zeros (suc n) = ap suc (length-zeros n)

module _ (x : ℕ) where
  length-insert : (xs : List ℕ) → length (insert longcomp x xs) ≡ suc (length xs)
  length-insert [] = refl
  length-insert (y ∷ ys) = elim (Bool-cases (is_positive (longcomp x y))) [
    | inl e ↦ rw e (ap suc (length-insert ys))
    | inr e ↦ rw e refl
  ]

  insert-drawn :
      (xs : List ℕ) (k : ℕ)
      → k < suc (length xs)
      → (get_or (insert longcomp x xs) k 0 ≡ x)
        ⊎ ((i : ℕ) × (i < length xs) × (get_or (insert longcomp x xs) k 0 ≡ get_or xs i 0))
  insert-drawn [] zero h = inl refl
  insert-drawn [] (suc k) h = absurd (omega arith)
  insert-drawn (y ∷ ys) k h = elim (Bool-cases (is_positive (longcomp x y))) [
    | inl e ↦ rw e (behind (insert-drawn ys) k h)
    | inr e ↦ rw e (before k h)
  ]
    where
      behind :
          ((k : ℕ)
            → k < suc (length ys)
            → (get_or (insert longcomp x ys) k 0 ≡ x)
              ⊎ ((i : ℕ) × (i < length ys) × (get_or (insert longcomp x ys) k 0 ≡ get_or ys i 0)))
          → (k : ℕ) → k < suc (suc (length ys))
          → (get_or (y ∷ insert longcomp x ys) k 0 ≡ x)
            ⊎ ((i : ℕ) × (i < suc (length ys))
                × (get_or (y ∷ insert longcomp x ys) k 0 ≡ get_or (y ∷ ys) i 0))
      behind ih zero h = inr (0, omega arith, refl)
      behind ih (suc k) h = elim (ih k (omega arith)) [
        | inl same ↦ inl same
        | inr (i, b, e) ↦ inr (suc i, omega arith, e)
      ]

      before :
          (k : ℕ)
          → k < suc (suc (length ys))
          → (get_or (x ∷ y ∷ ys) k 0 ≡ x)
            ⊎ ((i : ℕ) × (i < suc (length ys)) × (get_or (x ∷ y ∷ ys) k 0 ≡ get_or (y ∷ ys) i 0))
      before zero h = inl refl
      before (suc k) h = inr (k, omega arith, refl)

  insert_new :
      (xs : List ℕ) → (k : ℕ) × (k < suc (length xs)) × (get_or (insert longcomp x xs) k 0 ≡ x)
  insert_new [] = (0, omega arith, refl)
  insert_new (y ∷ ys) = elim (Bool-cases (is_positive (longcomp x y))) [
    | inl e ↦ let (k, b, same) = insert_new ys in rw e (suc k, omega arith, same)
    | inr e ↦ rw e (0, omega arith, refl)
  ]

  insert_old :
      (xs : List ℕ) (i : ℕ)
      → i < length xs
      → (k : ℕ) × (k < suc (length xs)) × (get_or (insert longcomp x xs) k 0 ≡ get_or xs i 0)
  insert_old [] i h = absurd (omega arith)
  insert_old (y ∷ ys) i h = elim (Bool-cases (is_positive (longcomp x y))) [
    | inl e ↦ rw e (behind (insert_old ys) i h)
    | inr e ↦ rw e (suc i, omega arith, refl)
  ]
    where
      behind :
          ((i : ℕ)
            → i < length ys
            → (k : ℕ) × (k < suc (length ys)) × (get_or (insert longcomp x ys) k 0 ≡ get_or ys i 0))
          → (i : ℕ) → i < suc (length ys)
          → (k : ℕ) × (k < suc (suc (length ys)))
            × (get_or (y ∷ insert longcomp x ys) k 0 ≡ get_or (y ∷ ys) i 0)
      behind ih zero h = (0, omega arith, refl)
      behind ih (suc i) h = let (k, b, e) = ih i (omega arith) in (suc k, omega arith, e)

abbrev Up : List ℕ → Type 0
Up xs = (i j : ℕ) → i < j → j < length xs → get_or xs i 0 ≤ get_or xs j 0

Up-head :
    (y : ℕ) (ys : List ℕ) → ((j : ℕ) → j < length ys → y ≤ get_or ys j 0) → Up ys → Up (y ∷ ys)
Up-head y ys least up zero zero h b = absurd (omega arith)
Up-head y ys least up zero (suc j) h b = least j (omega arith)
Up-head y ys least up (suc i) zero h b = absurd (omega arith)
Up-head y ys least up (suc i) (suc j) h b = up i j (omega arith) (omega arith)

longcomp-above : (a b : ℕ) → is_positive (longcomp a b) ≡ true → b ≤ a
unfolding longcomp
longcomp-above a b h = elim (Bool-cases (leb b a)) [ inl e ↦ ground arith | inr e ↦ ground arith ]

longcomp-not_above : (a b : ℕ) → a ≤ b → is_positive (longcomp a b) ≡ false
unfolding longcomp
longcomp-not_above a b h = elim (Bool-cases (leb b a)) [
  | inl e ↦ ground arith
  | inr e ↦ ground arith
]

insert-Up : (x : ℕ) (xs : List ℕ) → Up xs → Up (insert longcomp x xs)
insert-Up x [] up = Up-head x [] (λ j h. absurd (omega arith)) up
insert-Up x (y ∷ ys) up = elim (Bool-cases (is_positive (longcomp x y))) [
  | inl e ↦ rw e (
      Up-head y (insert longcomp x ys)
        (λ j b. elim (insert-drawn x ys j (omega (arith, length-insert x ys))) [
          | inl same ↦ omega (arith, longcomp-above x y e)
          | inr (i, c, same) ↦ omega (arith, up 0 (suc i) (omega arith) (omega arith))
        ])
        (insert-Up x ys (λ i j h b. up (suc i) (suc j) (omega arith) (omega arith))))
  | inr e ↦ rw e (Up-head x (y ∷ ys) (least (longcomp-le x y e)) up)
]
  where
    least : x ≤ y → (j : ℕ) → j < suc (length ys) → x ≤ get_or (y ∷ ys) j 0
    least le zero b = le
    least le (suc j) b = omega (arith, up 0 (suc j) (omega arith) b)

insertion_sort-Up : (xs : List ℕ) → Up (insertion_sort longcomp xs)
insertion_sort-Up [] i j h b = absurd (omega arith)
insertion_sort-Up (x ∷ xs) i j h b =
    insert-Up x (insertion_sort longcomp xs) (insertion_sort-Up xs) i j h b

length-insertion_sort : (xs : List ℕ) → length (insertion_sort longcomp xs) ≡ length xs
length-insertion_sort [] = refl
length-insertion_sort (x ∷ xs) =
    omega (arith, length-insert x (insertion_sort longcomp xs), length-insertion_sort xs)

insertion_sort-drawn :
    (xs : List ℕ) (k : ℕ)
    → k < length xs
    → (i : ℕ) × (i < length xs) × (get_or (insertion_sort longcomp xs) k 0 ≡ get_or xs i 0)
insertion_sort-drawn [] k h = absurd (omega arith)
insertion_sort-drawn (x ∷ xs) k h =
    let sorted = insertion_sort longcomp xs in
    elim (insert-drawn x sorted k (omega (arith, length-insertion_sort xs))) [
      | inl e ↦ (0, omega arith, e)
      | inr (j, b, e) ↦
          let (i, c, e') = insertion_sort-drawn xs j (omega (arith, length-insertion_sort xs)) in
          (suc i, omega arith, e ∙ e')
    ]

insertion_sort-covers :
    (xs : List ℕ) (i : ℕ)
    → i < length xs
    → (k : ℕ) × (k < length xs) × (get_or (insertion_sort longcomp xs) k 0 ≡ get_or xs i 0)
insertion_sort-covers [] i h = absurd (omega arith)
insertion_sort-covers (x ∷ xs) zero h =
    let (k, b, e) = insert_new x (insertion_sort longcomp xs) in
    (k, omega (arith, length-insertion_sort xs), e)
insertion_sort-covers (x ∷ xs) (suc i) h =
    let (j, b, e) = insertion_sort-covers xs i (omega arith) in
    let (k, c, e') =
      insert_old x (insertion_sort longcomp xs) j (omega (arith, length-insertion_sort xs)) in
    (k, omega (arith, length-insertion_sort xs), e' ∙ e)

insertion_sort-IsSort : IsSort (insertion_sort longcomp)
insertion_sort-IsSort = record {
  keeps = length-insertion_sort;
  drawn = insertion_sort-drawn;
  covers = insertion_sort-covers;
  ascends = λ xs i j h b.
      longcomp-not_above (get_or (insertion_sort longcomp xs) i 0)
        (get_or (insertion_sort longcomp xs) j 0)
        (insertion_sort-Up xs i j h (omega (arith, length-insertion_sort xs)));
}

-- "a" stands at 0 and at 2; the text has 3 bytes.
documents_of_a :
    sa_make_did insertion_sort zeros (some aba) (97 ∷ []) [] true ≡ done (some (0 ∷ 2 ∷ 2 ∷ 3 ∷ []))
unfolding sa_make_did longcomp reverse_word sa_aryidx2txtidx
documents_of_a = refl

-- With "b" for the end tag the numbers of tags differ.
documents_from_a_to_b :
    sa_make_did insertion_sort zeros (some aba) (97 ∷ []) (98 ∷ []) true ≡ done none
unfolding sa_make_did longcomp reverse_word sa_aryidx2txtidx
documents_from_a_to_b = refl

sa_make_did-IsMade_example :
    Ends (sa_make_did insertion_sort zeros (some aba) (97 ∷ []) [] true) (λ r.
      ((r ≡ none) × ((i : ℕ) → i < 3 → ¬ Occurs aba 0 (97 ∷ []) i))
      ⊎ ((words : List ℕ) × (r ≡ some words) × IsMade aba (97 ∷ []) words))
sa_make_did-IsMade_example =
    sa_make_did-IsMade insertion_sort zeros insertion_sort-IsSort aba (97 ∷ []) length-zeros
      aba-IsOpened aba-IsOrdered (omega arith) (omega arith) (omega arith, tt) (omega arith)

a_at_0 : (entry aba 1 ≡ 0) × Occurs aba 0 (97 ∷ []) 1
unfolding reverse_word
a_at_0 = (refl, refl)

sa_make_did-LastTag_example :
    Ends (sa_make_did insertion_sort zeros (some aba) (97 ∷ []) [] true) (λ r.
      (words : List ℕ) × (r ≡ some words)
      × Ends (sa_didsearch 7 (did_of words) 1) (LastTag aba (97 ∷ []) 1))
sa_make_did-LastTag_example =
    sa_make_did-LastTag insertion_sort zeros insertion_sort-IsSort aba (97 ∷ []) 1 7 length-zeros
      aba-IsOpened aba-IsOrdered (omega arith) (omega arith, tt) (omega arith) (omega arith) 1
      (omega arith) (a_at_0.1) (omega (arith, a_at_0.0))
