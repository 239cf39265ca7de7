-- ===== src/ArticleFinder/Known.antt =====
-- What the check bytes of src/af.c tell of the documents, between two keywords.
use sufary.Base.{
  ℕ, zero, suc, ◌/◌, ◌≤◌, ◌<◌, ◌≡◌, refl, sym, ◌∙◌, ◌⊎◌, inl, inr, ◌↔◌, List, length, get_or,
  Bool-cases, true, false, arith,
}
use native.Mathlib.Decide.{dec_lt, ℕ_discrete}
use sufary.Did.{Did}
use sufary.Regex.BitLaws.{same_bits, test_bit}
use sufary.ArticleFinder.BitPatterns.{pattern_of, test_bit-pattern_of}
use sufary.ArticleFinder.Marks.{Marked, Sets}

module _ (did : Did) where
  -- All bits from 1 to `m` are set.
  abbrev pub AllSet : ℕ → ℕ → Type 0
  AllSet m v = (k : ℕ) → 1 ≤ k → k ≤ m → test_bit k v ≡ true

  -- The check bytes tell what is known of the documents: `Bad` ones hold an unwanted keyword, and
  -- `Good` ones the first `m` wanted ones.
  pub record Known (m : ℕ) (Bad Good : ℕ → Type 0) (c : List ℕ) : Type 0 where
    pub size : did.didsize / 2 ≤ length c
    pub bad : (i : ℕ) → Marked c 0 i ↔ Bad i
    pub good : (i : ℕ) → AllSet m (get_or c i 0) ↔ Good i
    pub clear : (k i : ℕ) → m < k → test_bit k (get_or c i 0) ≡ false

  -- The check byte of a document that is wanted so far.
  pub is_pattern :
      (m : ℕ) (Bad Good : ℕ → Type 0) (c : List ℕ)
      → Known m Bad Good c
      → (i : ℕ) → (get_or c i 0 ≡ pattern_of m) ↔ ((¬ Bad i) × Good i)
  is_pattern m Bad Good c known i = (
    λ e. (
      λ b. let h = (known.bad i).1 b in let shown = test_bit-pattern_of 0 m in ground (arith, e),
      (known.good i).0 (λ k p q. let shown = test_bit-pattern_of k m in ground (arith, e)),
    ),
    λ (b, g).
        same_bits (get_or c i 0) (pattern_of m) (λ k. test_bit-pattern k b ((known.good i).1 g)),
  )
    where
      test_bit-pattern :
          (k : ℕ)
          → ¬ Bad i
          → AllSet m (get_or c i 0)
          → test_bit k (get_or c i 0) ≡ test_bit k (pattern_of m)
      test_bit-pattern zero b all = elim (Bool-cases (test_bit 0 (get_or c i 0))) [
        | inl set ↦ absurd (b ((known.bad i).0 set))
        | inr unset ↦ unset ∙ sym (test_bit-pattern_of 0 m)
      ]
      test_bit-pattern (suc k) b all = elim (dec_lt m (suc k)) [
        | yes far ↦
            let shown = test_bit-pattern_of (suc k) m in
            let unset = known.clear (suc k) i far in ground arith
        | no near ↦
            let shown = test_bit-pattern_of (suc k) m in
            let set = all (suc k) (omega arith) (omega arith) in ground arith
      ]

  -- A mark for an unwanted keyword.
  pub Known-unwanted :
      (Bad P : ℕ → Type 0) (c d : List ℕ)
      → Known 0 Bad (λ _. Unit) c
      → Sets did 0 P c d
      → Known 0 (λ i. Bad i ⊎ P i) (λ _. Unit) d
  Known-unwanted Bad P c d known sets = record {
    size = omega (arith, known.size, sets.size);
    bad = λ i. (
      λ h. elim ((sets.marks 0 i).0 h) [ inl g ↦ inl ((known.bad i).0 g) | inr (_, p) ↦ inr p ],
      elim [
        | inl b ↦ (sets.marks 0 i).1 (inl ((known.bad i).1 b))
        | inr p ↦ (sets.marks 0 i).1 (inr (refl, p))
      ],
    );
    good = λ i. (λ _. tt, λ _ k p q. absurd (omega arith));
    clear = λ k i far. elim (Bool-cases (test_bit k (get_or d i 0))) [
      | inr unset ↦ unset
      | inl set ↦ elim ((sets.marks k i).0 set) [
        | inl old ↦ let unset = known.clear k i far in absurd (ground arith)
        | inr (e, _) ↦ absurd (omega arith)
      ]
    ];
  }

  -- A mark for the next wanted keyword.
  pub Known-wanted :
      (m : ℕ) (Bad Good P : ℕ → Type 0) (c d : List ℕ)
      → Known m Bad Good c
      → Sets did (suc m) P c d
      → Known (suc m) Bad (λ i. Good i × P i) d
  Known-wanted m Bad Good P c d known sets = record {
    size = omega (arith, known.size, sets.size);
    bad = λ i. (
      λ h. elim ((sets.marks 0 i).0 h) [
        | inl g ↦ (known.bad i).0 g
        | inr (e, _) ↦ absurd (omega arith)
      ],
      λ b. (sets.marks 0 i).1 (inl ((known.bad i).1 b)),
    );
    good = λ i. (
      λ all. (
        (known.good i).0 (λ k p q. elim ((sets.marks k i).0 (all k p (omega arith))) [
          | inl old ↦ old
          | inr (e, _) ↦ absurd (omega arith)
        ]),
        newly_marked i (all (suc m) (omega arith) (omega arith)),
      ),
      λ (g, p) k lo hi. elim (ℕ_discrete k (suc m)) [
        | yes e ↦ (sets.marks k i).1 (inr (e, p))
        | no ne ↦ (sets.marks k i).1 (inl ((known.good i).1 g k lo (omega arith)))
      ],
    );
    clear = λ k i far. elim (Bool-cases (test_bit k (get_or d i 0))) [
      | inr unset ↦ unset
      | inl set ↦ elim ((sets.marks k i).0 set) [
        | inl old ↦ let unset = known.clear k i (omega arith) in absurd (ground arith)
        | inr (e, _) ↦ absurd (omega arith)
      ]
    ];
  }
    where
      newly_marked : (i : ℕ) → Marked d (suc m) i → P i
      newly_marked i h = elim ((sets.marks (suc m) i).0 h) [
        | inl old ↦ let unset = known.clear (suc m) i (omega arith) in absurd (ground arith)
        | inr (_, p) ↦ p
      ]

  pub Known-iff :
      (m : ℕ) (Bad Bad' Good Good' : ℕ → Type 0) (c : List ℕ)
      → Known m Bad Good c
      → ((i : ℕ) → Bad i ↔ Bad' i)
      → ((i : ℕ) → Good i ↔ Good' i)
      → Known m Bad' Good' c
  Known-iff m Bad Bad' Good Good' c known b g = record {
    size = known.size;
    bad = λ i. (λ h. (b i).0 ((known.bad i).0 h), λ h. (known.bad i).1 ((b i).1 h));
    good = λ i. (λ h. (g i).0 ((known.good i).0 h), λ h. (known.good i).1 ((g i).1 h));
    clear = known.clear;
  }
