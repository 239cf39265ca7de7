-- ===== src/Search/Lex.antt =====
-- Texts and keys as functions from positions to characters, compared up to a length.
use sufary.Base.{ℕ, suc, ◌≤◌, ◌<◌, ◌≡◌, ◌⊎◌, inl, inr, sym, ◌∙◌, arith}
use native.Mathlib.Decide.{dec_lt}

-- The first `n` characters are the same.
abbrev pub Agree : ℕ → (ℕ → ℕ) → (ℕ → ℕ) → Type 0
Agree n f g = (j : ℕ) → j < n → f j ≡ g j

-- The first difference within the first `n` characters makes `f` the smaller one.
abbrev pub Lt : ℕ → (ℕ → ℕ) → (ℕ → ℕ) → Type 0
Lt n f g = (d : ℕ) × (d < n) × Agree d f g × (f d < g d)

abbrev pub Le : ℕ → (ℕ → ℕ) → (ℕ → ℕ) → Type 0
Le n f g = Lt n f g ⊎ Agree n f g

compare_cases : (d e : ℕ) → (d < e) ⊎ ((d ≡ e) ⊎ (e < d))
compare_cases d e = elim (dec_lt d e) [
  | yes p ↦ inl p
  | no p ↦ elim (dec_lt e d) [ yes q ↦ inr (inr q) | no q ↦ inr (inl (omega arith)) ]
]

module _ {f g : ℕ → ℕ} where
  pub Agree-sym : (n : ℕ) → Agree n f g → Agree n g f
  Agree-sym n h j b = sym (h j b)

  pub Agree-mono : {m n : ℕ} → m ≤ n → Agree n f g → Agree m f g
  Agree-mono le h j b = h j (omega arith)

  pub Agree-suc : (n : ℕ) → Agree n f g → f n ≡ g n → Agree (suc n) f g
  Agree-suc n h e j b = elim (dec_lt j n) [
    | yes p ↦ h j p
    | no p ↦ let q : j ≡ n = omega arith in rw q e
  ]

  -- Fewer characters tell less.
  pub Le-mono : {m n : ℕ} → m ≤ n → Le n f g → Le m f g
  Le-mono {m} le (inr a) = inr (Agree-mono le a)
  Le-mono {m} le (inl (d, b, a, l)) = elim (dec_lt d m) [
    | yes p ↦ inl (d, p, a, l)
    | no p ↦ inr (Agree-mono (omega arith) a)
  ]

  pub Lt-mono : {m n : ℕ} → m ≤ n → Lt m f g → Lt n f g
  Lt-mono le (d, b, a, l) = (d, omega arith, a, l)

  -- The first difference has one sign.
  pub Lt-Le-absurd : {n : ℕ} → Lt n f g → Le n g f → ⊥
  Lt-Le-absurd (d, b, a, l) (inr e) = omega (arith, e d b)
  Lt-Le-absurd (d, b, a, l) (inl (e, c, a', l')) = elim (compare_cases d e) [
    | inl p ↦ omega (arith, a' d p)
    | inr (inl same) ↦ let l2 : f e < g e = rw same at l in omega arith
    | inr (inr p) ↦ omega (arith, a e p)
  ]

  pub Le-antisymm : (n : ℕ) → Le n f g → Le n g f → Agree n f g
  Le-antisymm n (inr a) h = a
  Le-antisymm n (inl s) h = absurd (Lt-Le-absurd {n = n} s h)

module _ {f g h : ℕ → ℕ} where
  pub Agree-trans : {n : ℕ} → Agree n f g → Agree n g h → Agree n f h
  Agree-trans p q j b = p j b ∙ q j b

  Lt-trans : {n : ℕ} → Lt n f g → Lt n g h → Lt n f h
  Lt-trans (d, b, a, l) (e, c, a', l') = elim (compare_cases d e) [
    | inl p ↦ (d, b, λ j q. a j q ∙ a' j (omega arith), omega (arith, a' d p))
    | inr (inl same) ↦
        let l2 : f e < g e = rw same at l in (e, c, λ j q. a j (omega arith) ∙ a' j q, omega arith)
    | inr (inr p) ↦ (e, c, λ j q. a j (omega arith) ∙ a' j q, omega (arith, a e p))
  ]

  pub Lt-Agree : {n : ℕ} → Lt n f g → Agree n g h → Lt n f h
  Lt-Agree (d, b, a, l) e = (d, b, λ j q. a j q ∙ e j (omega arith), omega (arith, e d b))

  pub Agree-Lt : {n : ℕ} → Agree n f g → Lt n g h → Lt n f h
  Agree-Lt e (d, b, a, l) = (d, b, λ j q. e j (omega arith) ∙ a j q, omega (arith, e d b))

  pub Lt-Le : {n : ℕ} → Lt n f g → Le n g h → Lt n f h
  Lt-Le {n} p (inl q) = Lt-trans {n = n} p q
  Lt-Le {n} p (inr e) = Lt-Agree {n = n} p e

  pub Le-Lt : {n : ℕ} → Le n f g → Lt n g h → Lt n f h
  Le-Lt {n} (inl p) q = Lt-trans {n = n} p q
  Le-Lt {n} (inr e) q = Agree-Lt {n = n} e q

  pub Agree-Le : {n : ℕ} → Agree n f g → Le n g h → Le n f h
  Agree-Le {n} e (inl q) = inl (Agree-Lt {n = n} e q)
  Agree-Le {n} e (inr q) = inr (Agree-trans {n = n} e q)

  pub Le-Agree : {n : ℕ} → Le n f g → Agree n g h → Le n f h
  Le-Agree {n} (inl q) e = inl (Lt-Agree {n = n} q e)
  Le-Agree {n} (inr q) e = inr (Agree-trans {n = n} q e)
