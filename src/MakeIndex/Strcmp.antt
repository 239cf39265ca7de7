-- ===== src/MakeIndex/Strcmp.antt =====
-- `sa_strcmp` of lib/make-index.c compares two suffixes of the text alphabetically.
use sufary.Base.{
  ℕ, zero, suc, ◌+◌, ◌-◌, ◌≤◌, ◌<◌, ◌≡◌, ◌≢◌, refl, inl, inr, List, [], ◌∷◌, length, get_or, take,
  drop, drop-get_or, length-take, drop-out, get_or-take, get_elem?-eq-get_or, min, arith, false,
  Bool-cases, ltb, leb, ◌==◌, lt→ltb,
}
use sufary.Base.Int.{ℤ, pos, negsuc, sub_ℕ}
use sufary.Base.Run.{Ends}
use sufary.Search.Suffix.{LexLe}
use sufary.MakeIndex.{strcmp_loop, sa_strcmp}

-- the text from `p` to `last`
abbrev pub tail_of : List ℕ → ℕ → ℕ → List ℕ
tail_of text last p = drop p (take last text)

-- `xs` comes before `ys`.
abbrev pub LexLt : List ℕ → List ℕ → Type 0
LexLt xs ys = LexLe xs ys × ¬ LexLe ys xs

-- The sign of a comparison of two different strings.
abbrev pub Sign : List ℕ → List ℕ → ℤ → Type 0
Sign xs ys (negsuc _) = LexLt xs ys
Sign xs ys (pos (suc _)) = LexLt ys xs
Sign xs ys (pos zero) = ⊥

pub Sign-cons : (x : ℕ) (xs ys : List ℕ) (r : ℤ) → Sign xs ys r → Sign (x ∷ xs) (x ∷ ys) r
Sign-cons x xs ys (negsuc _) (le, ne) =
    (inr (refl, le), elim [ inl l ↦ omega arith | inr (_, h) ↦ ne h ])
Sign-cons x xs ys (pos (suc _)) (le, ne) =
    (inr (refl, le), elim [ inl l ↦ omega arith | inr (_, h) ↦ ne h ])
Sign-cons x xs ys (pos zero) h = h

Sign-pos : (d x y : ℕ) (xs ys : List ℕ) → 0 < d → y < x → Sign (x ∷ xs) (y ∷ ys) (pos d)
Sign-pos zero x y xs ys h l = elim h [ ]
Sign-pos (suc d) x y xs ys h l = (inl l, elim [ inl m ↦ omega arith | inr (e, _) ↦ omega arith ])

pub Sign-head : (x y : ℕ) (xs ys : List ℕ) → x ≢ y → Sign (x ∷ xs) (y ∷ ys) (sub_ℕ x y)
Sign-head x y xs ys ne = elim (Bool-cases (leb y x)) [
  | inr below ↦
      let l : x < y = ground arith in
      rw below (inl l, elim [ inl m ↦ omega arith | inr (e, _) ↦ omega arith ])
  | inl above ↦ rw above (Sign-pos (x - y) x y xs ys (ground arith) (ground arith))
]

module _ (text : List ℕ) (last : ℕ) (fits : last ≤ length text) where
  length-take_last : length (take last text) ≡ last
  length-take_last = omega (arith, length-take last text)

  pub tail_of-cons :
      (p : ℕ) → p < last → tail_of text last p ≡ get_or text p 0 ∷ tail_of text last (p + 1)
  tail_of-cons p h =
      let at = get_or-take last text p 0 h in
      let e : p + 1 ≡ suc p = omega arith in
      rw (← at, e) (drop-get_or p (take last text) 0 (omega (arith, length-take_last)))

  pub tail_of-end : (p : ℕ) → p ≡ last → tail_of text last p ≡ []
  tail_of-end p h = drop-out p (take last text) (omega (arith, length-take_last))

  strcmp_loop-Sign :
      (n p1 p2 : ℕ)
      → p1 ≢ p2
      → p1 ≤ last
      → p2 ≤ last
      → n ≡ min (last - p1) (last - p2)
      → Ends (strcmp_loop text n p1 p2) (Sign (tail_of text last p1) (tail_of text last p2))
  unfolding strcmp_loop
  strcmp_loop-Sign zero p1 p2 ne a b e = elim (Bool-cases (ltb p2 p1)) [
    | inl before ↦
        let out : p1 ≡ last = ground arith in
        let inside : p2 < last = ground arith in
        rw (before, tail_of-end p1 out, tail_of-cons p2 inside) (negsuc 4648, refl, (tt, λ h. h))
    | inr behind ↦
        let out : p2 ≡ last = ground arith in
        let inside : p1 < last = ground arith in
        rw (behind, tail_of-end p2 out, tail_of-cons p1 inside) (pos 4649, refl, (tt, λ h. h))
  ]
  strcmp_loop-Sign (suc n) p1 p2 ne a b e =
      let in1 : p1 < last = omega arith in
      let in2 : p2 < last = omega arith in
      rw
        (
          get_elem?-eq-get_or text p1 0 (omega arith),
          get_elem?-eq-get_or text p2 0 (omega arith),
          tail_of-cons p1 in1,
          tail_of-cons p2 in2,
        )
        (elim (Bool-cases (get_or text p1 0 == get_or text p2 0)) [
          | inr differ ↦ rw differ (
            sub_ℕ (get_or text p1 0) (get_or text p2 0),
            refl,
            Sign-head (get_or text p1 0) (get_or text p2 0) _ _ (ground arith),
          )
          | inl same ↦
              let (r, ran, sign) =
                strcmp_loop-Sign n (p1 + 1) (p2 + 1) (omega arith) (omega arith) (omega arith)
                  (omega arith) in
              let eq : get_or text p1 0 ≡ get_or text p2 0 = ground arith in
              rw same (r, ran, rw eq (Sign-cons (get_or text p2 0) _ _ r sign))
        ])

  -- At two different positions of the text `sa_strcmp` ends, and returns a number that is not 0 and
  -- whose sign is the alphabetical order of the two suffixes.
  pub sa_strcmp-Sign :
      (p1 p2 : ℕ)
      → p1 ≢ p2
      → p1 < last
      → p2 < last
      → Ends (sa_strcmp text last p1 p2) (Sign (tail_of text last p1) (tail_of text last p2))
  unfolding sa_strcmp
  sa_strcmp-Sign p1 p2 ne a b =
      let differ : (p1 == p2) ≡ false = ground arith in
      rw (differ, lt→ltb p1 last a, lt→ltb p2 last b)
        (strcmp_loop-Sign (min (last - p1) (last - p2)) p1 p2 ne (omega arith) (omega arith) refl)
