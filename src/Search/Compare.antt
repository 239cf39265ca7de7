-- ===== src/Search/Compare.antt =====
-- `cmp_sistr` of lib/search.c finds the first difference of a text and a key.
use sufary.Base.{
  ℕ, zero, suc, ◌+◌, ◌≤◌, ◌<◌, ◌≡◌, refl, sym, ap, ◌∙◌, inl, inr, List, [], ◌∷◌, length, get_or,
  get_elem?-eq-get_or, arith, true, false, Bool-cases, ◌-◌, leb,
}
use sufary.Base.Int.{ℤ, pos, negsuc, minus, eq_int}
use sufary.Base.Run.{Ends}
use sufary.Search.Lex.{Agree}
use sufary.Search.{cmp_loop, cmp_sistr}

-- The characters of a text from `p` on, and of a key, as numbers in one order: a byte `t` is
-- `t + 1`, and what a key stores as -1 is 0.
abbrev pub char_at : List ℕ → ℕ → ℕ → ℕ
char_at text p j = suc (get_or text (p + j) 0)

abbrev pub key_char : ℤ → ℕ
key_char (pos n) = suc n
key_char (negsuc _) = 0

abbrev pub key_at : List ℤ → ℕ → ℕ
key_at key j = key_char (get_or key j (negsuc 0))

-- What the sign of a comparison that stopped after `e` of `n` characters means.
abbrev pub Verdict : ℕ → (ℕ → ℕ) → (ℕ → ℕ) → ℕ → ℤ → Type 0
Verdict n f g e (negsuc _) = (e < n) × (f e < g e)
Verdict n f g e (pos (suc _)) = (e < n) × (g e < f e)
Verdict n f g e (pos zero) = e ≡ n

-- A comparison from `i` on, of `n` characters.
abbrev pub Compares : ℕ → (ℕ → ℕ) → (ℕ → ℕ) → ℕ → ℤ × ℕ → Type 0
Compares n f g i r = (e : ℕ) × (r.1 ≡ i + e) × (e ≤ n) × Agree e f g × Verdict n f g e r.0

eq_int→eq : (t : ℕ) (k : ℤ) → eq_int t k ≡ true → suc t ≡ key_char k
eq_int→eq t (pos n) h = ground arith
eq_int→eq t (negsuc n) h = ground arith

Verdict-pos : (n : ℕ) (f g : ℕ → ℕ) (e x : ℕ) → 0 < x → e < n → g e < f e → Verdict n f g e (pos x)
Verdict-pos n f g e zero h p q = elim h [ ]
Verdict-pos n f g e (suc x) h p q = (p, q)

minus-Verdict :
    (n : ℕ) (f g : ℕ → ℕ) (t : ℕ) (k : ℤ)
    → f 0 ≡ suc t
    → g 0 ≡ key_char k
    → eq_int t k ≡ false
    → Verdict (suc n) f g 0 (minus t k)
minus-Verdict n f g t (pos m) p q h = elim (Bool-cases (leb m t)) [
  | inl above ↦
      rw above (Verdict-pos (suc n) f g 0 (t - m) (ground arith) (omega arith) (ground arith))
  | inr below ↦ rw below (omega arith, ground arith)
]
minus-Verdict n f g t (negsuc m) p q h =
    Verdict-pos (suc n) f g 0 (t + m + 1) (omega arith) (omega arith) (omega arith)

Agree-cons :
    (n : ℕ) (f g : ℕ → ℕ)
    → f 0 ≡ g 0
    → Agree n (λ j. f (suc j)) (λ j. g (suc j))
    → Agree (suc n) f g
Agree-cons n f g e a zero b = e
Agree-cons n f g e a (suc j) b = a j (omega arith)

char_at-suc : (text : List ℕ) (p j : ℕ) → char_at text (p + 1) j ≡ char_at text p (suc j)
char_at-suc text p j =
    let e : p + 1 + j ≡ p + suc j = omega arith in ap (λ k. suc (get_or text k 0)) e

Verdict-suc :
    (n : ℕ) (f g f' g' : ℕ → ℕ) (e : ℕ) (r : ℤ)
    → f e ≡ f' (suc e)
    → g e ≡ g' (suc e)
    → Verdict n f g e r
    → Verdict (suc n) f' g' (suc e) r
Verdict-suc n f g f' g' e (negsuc _) p q v = omega arith
Verdict-suc n f g f' g' e (pos zero) p q v = omega arith
Verdict-suc n f g f' g' e (pos (suc _)) p q v = omega arith

module _ (text : List ℕ) where
  -- The characters that the loop reads lie inside the text: it reads the next one only while all
  -- before it agree.
  cmp_loop-Compares :
      (n p : ℕ) (str : List ℤ) (i : ℕ)
      → n ≤ length str
      → ((j : ℕ) → j < n → Agree j (char_at text p) (key_at str) → p + j < length text)
      → Ends (cmp_loop text p str n i) (Compares n (char_at text p) (key_at str) i)
  unfolding cmp_loop
  cmp_loop-Compares zero p str i h inside =
      ((pos 0, i), refl, (0, omega arith, omega arith, (λ j b. elim b [ ]), refl))
  cmp_loop-Compares (suc n) p [] i h inside = elim h [ ]
  cmp_loop-Compares (suc n) p (k ∷ str) i h inside =
      let f = char_at text p in
      let g = key_at (k ∷ str) in
      let here : p < length text = omega (arith, inside 0 (omega arith) (λ j b. elim b [ ])) in
      let first : f 0 ≡ suc (get_or text p 0) =
        let e : p + 0 ≡ p = omega arith in ap (λ q. suc (get_or text q 0)) e in
      rw (get_elem?-eq-get_or text p 0 here) (elim (Bool-cases (eq_int (get_or text p 0) k)) [
        | inr differ ↦ rw differ (
          (minus (get_or text p 0) k, i),
          refl,
          (
            0,
            omega arith,
            omega arith,
            (λ j b. elim b [ ]),
            minus-Verdict n f g (get_or text p 0) k first refl differ,
          ),
        )
        | inl equal ↦
            let head : f 0 ≡ g 0 = first ∙ eq_int→eq (get_or text p 0) k equal in
            let rest = cmp_loop-Compares n (p + 1) str (i + 1) (omega arith) λ j b a. omega (
              arith,
              inside (suc j) (omega arith)
                  (Agree-cons j f g head (λ m c. sym (char_at-suc text p m) ∙ a m c)),
            ) in
            let (e, at, le, agree, verdict) = rest.2 in
            rw equal (
              rest.0,
              rest.1,
              (
                suc e,
                omega arith,
                omega arith,
                Agree-cons e f g head (λ m c. sym (char_at-suc text p m) ∙ agree m c),
                Verdict-suc n (char_at text (p + 1)) (key_at str) f g e rest.0.0
                    (char_at-suc text p e) refl verdict,
              ),
            )
      ])

  -- Where the text is long enough for every character that has to be read, `cmp_sistr` ends at the
  -- first difference, or after `len` characters, and returns a number of the right sign together
  -- with the number of characters before the difference.
  pub cmp_sistr-Compares :
      (p : ℕ) (str : List ℤ) (len : ℕ)
      → len ≤ length str
      → ((j : ℕ) → j < len → Agree j (char_at text p) (key_at str) → p + j < length text)
      → Ends (cmp_sistr text p str len) (Compares len (char_at text p) (key_at str) 0)
  unfolding cmp_sistr
  cmp_sistr-Compares p str len h inside = cmp_loop-Compares len p str 0 h inside
