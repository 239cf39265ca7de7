-- ===== src/ArticleFinder/Marks.antt =====
-- `check_keyword` of src/af.c and the check bytes of the documents.
use Prim.Native.Nat.{bit_and, bit_or}
use sufary.Base.{
  ℕ, zero, suc, ◌+◌, ◌-◌, ◌/◌, ◌^◌, ◌≤◌, ◌<◌, ◌≡◌, refl, ◌⊎◌, inl, inr, ◌↔◌, List, length,
  length-set, get_or, get_or-set_same, get_or-set_other, get_elem?-eq-get_or, set, Bool, Bool-cases,
  true, false, ◌==◌, ◌||◌, if◌then◌else◌, arith,
}
use native.Mathlib.Decide.{dec_lt, ℕ_discrete}
use sufary.Base.Run.{Ends, Ends-bind}
use sufary.File.{Sufary, sa_aryidx2txtidx}
use sufary.Search.{SufResult}
use sufary.Search.Round.{entry}
use sufary.Did.{Did, DidResult, sa_didsearch}
use sufary.Did.Locate.{IsRegions, Contains, Located, sa_didsearch-Located}
use sufary.Regex.BitLaws.{test_bit-pow, test_bit, test_bit-bit_or, bit_and-pow}
use sufary.ArticleFinder.{mark, check_loop, check_keyword}

-- bit `k` of the check byte of document `i`
abbrev pub Marked : List ℕ → ℕ → ℕ → Type 0
Marked did_check k i = test_bit k (get_or did_check i 0) ≡ true

module _ (did : Did) where
  -- Bit `b` of the documents of which `P` holds is set, and nothing else has changed.
  pub record Sets (b : ℕ) (P : ℕ → Type 0) (before after : List ℕ) : Type 0 where
    pub size : length after ≡ length before
    pub marks : (k i : ℕ) → Marked after k i ↔ (Marked before k i ⊎ ((k ≡ b) × P i))

  pub Sets-none : (b : ℕ) (P : ℕ → Type 0) (c : List ℕ) → ((i : ℕ) → ¬ P i) → Sets b P c c
  Sets-none b P c none = record {
    size = refl;
    marks = λ k i. (inl, elim [ inl h ↦ h | inr (_, p) ↦ absurd (none i p) ]);
  }

  pub Sets-trans :
      (b : ℕ) (P Q R : ℕ → Type 0) (c d e : List ℕ)
      → Sets b P c d
      → Sets b Q d e
      → ((i : ℕ) → R i ↔ (P i ⊎ Q i))
      → Sets b R c e
  Sets-trans b P Q R c d e p q r = record {
    size = omega (arith, p.size, q.size);
    marks = λ k i. (
      λ h. elim ((q.marks k i).0 h) [
        | inl g ↦ elim ((p.marks k i).0 g) [ inl f ↦ inl f | inr (s, f) ↦ inr (s, (r i).1 (inl f)) ]
        | inr (s, f) ↦ inr (s, (r i).1 (inr f))
      ],
      elim [
        | inl f ↦ (q.marks k i).1 (inl ((p.marks k i).1 (inl f)))
        | inr (s, f) ↦ elim ((r i).0 f) [
          | inl g ↦ (q.marks k i).1 (inl ((p.marks k i).1 (inr (s, g))))
          | inr g ↦ (q.marks k i).1 (inr (s, g))
        ]
      ],
    );
  }

  Sets-iff :
      (b : ℕ) (P Q : ℕ → Type 0) (c d : List ℕ)
      → Sets b P c d
      → ((i : ℕ) → P i ↔ Q i)
      → Sets b Q c d
  Sets-iff b P Q c d p e = record {
    size = p.size;
    marks = λ k i. (
      λ h. elim ((p.marks k i).0 h) [ inl f ↦ inl f | inr (s, f) ↦ inr (s, (e i).0 f) ],
      elim [ inl f ↦ (p.marks k i).1 (inl f) | inr (s, f) ↦ (p.marks k i).1 (inr (s, (e i).1 f)) ],
    );
  }

  set_marks :
      (b doc k i : ℕ) (c : List ℕ)
      → doc < length c
      → Marked (set c doc (bit_or (get_or c doc 0) (2 ^ b))) k i
        ↔ (Marked c k i ⊎ ((k ≡ b) × (i ≡ doc)))
  set_marks b doc k i c h =
      let new = bit_or (get_or c doc 0) (2 ^ b) in
      elim (ℕ_discrete doc i) [
        | no ne ↦
            rw (get_or-set_other c doc i new 0 ne)
              (inl, elim [ inl p ↦ p | inr (_, s) ↦ absurd (ne (omega arith)) ])
        | yes same ↦ rw (← same) (
            rw (get_or-set_same c doc new 0 h) (
              rw (test_bit-bit_or k (get_or c doc 0) (2 ^ b))
                (rw (test_bit-pow k b) (same_bit (test_bit k (get_or c doc 0))))))
      ]
    where
      same_bit : (t : Bool) → ((t || (k == b)) ≡ true) ↔ ((t ≡ true) ⊎ ((k ≡ b) × (doc ≡ doc)))
      same_bit true = (λ _. inl refl, λ _. refl)
      same_bit false = (
        λ q. inr (ground arith, refl),
        elim [ inl q ↦ absurd (ground arith) | inr (s, _) ↦ ground arith ],
      )

  set-Sets :
      (b doc : ℕ) (c : List ℕ)
      → doc < length c
      → Sets b (λ i. i ≡ doc) c (set c doc (bit_or (get_or c doc 0) (2 ^ b)))
  set-Sets b doc c h = record {
    size = length-set c doc (bit_or (get_or c doc 0) (2 ^ b));
    marks = λ k i. set_marks b doc k i c h;
  }

  -- Document `i` contains the position.
  abbrev pub Holds : ℕ → ℕ → Type 0
  Holds target i = (i < did.didsize / 2) × Contains did target i

  pub one_document : (target i j : ℕ) → IsRegions did → Holds target i → Holds target j → i ≡ j
  one_document target i j regions (b, c) (b', c') = elim (ℕ_discrete i j) [
    | yes e ↦ e
    | no ne ↦ elim (dec_lt i j) [
      | yes l ↦ omega (arith, regions.apart i j l b')
      | no l ↦ omega (arith, regions.apart j i (omega arith) b)
    ]
  ]

  -- A number that has not grown tells that nothing has been marked.
  abbrev pub Counts : ℕ → ℕ → List ℕ → ℕ → List ℕ → Type 0
  Counts b before c after d =
      (before ≤ after) × (after ≡ before → (i : ℕ) → Marked d b i → Marked c b i)

  module _ (ary : Sufary) where
    -- Document `i` contains one of the positions of `n` entries.
    abbrev pub HoldsFrom : ℕ → ℕ → ℕ → Type 0
    HoldsFrom from n i = (j : ℕ) × (from ≤ j) × (j < from + n) × Holds (entry ary j) i

    pub HoldsFrom-suc :
        (from n i : ℕ)
        → HoldsFrom from (suc n) i ↔ (Holds (entry ary from) i ⊎ HoldsFrom (from + 1) n i)
    HoldsFrom-suc from n i = (
      λ (j, a, b, h). elim (ℕ_discrete j from) [
        | yes same ↦ inl (rw same at h)
        | no ne ↦ inr (j, omega arith, omega arith, h)
      ],
      elim [
        | inl h ↦ (from, omega arith, omega arith, h)
        | inr (j, a, b, h) ↦ (j, omega arith, omega arith, h)
      ],
    )

  module _ (ary : Sufary) (junk : ℕ) (regions : IsRegions did) where
    mark-Sets :
        (b target num : ℕ) (dr : DidResult) (c : List ℕ)
        → did.didsize / 2 ≤ length c
        → Located did target dr
        → Ends
            (mark ary did junk (2 ^ b) dr num c)
            (λ (num', d). Sets b (Holds target) c d × Counts b num c num' d)
    unfolding mark
    mark-Sets b target num dr c h (inr (e, none)) = rw e (
      (num, c),
      refl,
      (Sets-none b (Holds target) c (λ i (p, q). none i p q), (omega arith, λ _ i m. m)),
    )
    mark-Sets b target num dr c h (inl (e, bound, contains, _, _)) =
        let old = get_or c dr.no 0 in
        let sets = set-Sets b dr.no c (omega arith) in
        let shown = bit_and-pow b old in
        rw e (
          rw (get_elem?-eq-get_or c dr.no 0 (omega arith)) (
            (if bit_and old (2 ^ b) == 0 then num + 1 else num, set c dr.no (bit_or old (2 ^ b))),
            refl,
            (
              Sets-iff b (λ i. i ≡ dr.no) (Holds target) c _ sets
                  (λ i. (
                    λ same. rw same (bound, contains),
                    λ held. one_document target i dr.no regions held (bound, contains),
                  )),
              elim (Bool-cases (bit_and old (2 ^ b) == 0)) [
                | inl new ↦ rw new (omega arith, λ same. absurd (omega arith))
                | inr old_mark ↦ rw old_mark (
                  omega arith,
                  λ same i m. elim ((sets.marks b i).0 m) [
                    | inl p ↦ p
                    | inr (_, at) ↦ rw at (ground (arith, shown))
                  ],
                )
              ],
            ),
          ))

    check_loop-Sets :
        (b rounds ai num : ℕ) (c : List ℕ)
        → did.didsize / 2 ≤ length c
        → ai + rounds ≤ length ary.array
        → ((j : ℕ) → ai ≤ j → j < ai + rounds → entry ary j < 2147483648)
        → Ends
            (check_loop ary did junk (2 ^ b) rounds ai num c)
            (λ (num', d). Sets b (HoldsFrom ary ai rounds) c d × Counts b num c num' d)
    unfolding check_loop sa_aryidx2txtidx
    check_loop-Sets b zero ai num c h room ints = (
      (num, c),
      refl,
      (
        Sets-none b (HoldsFrom ary ai 0) c (λ i (j, p, q, _). omega arith),
        (omega arith, λ _ i m. m),
      ),
    )
    check_loop-Sets b (suc rounds) ai num c h room ints =
        rw (get_elem?-eq-get_or ary.array ai 0 (omega arith)) (
          Ends-bind (sa_didsearch junk did (entry ary ai)) _
            (sa_didsearch-Located did (entry ary ai) regions (ints ai (omega arith) (omega arith))
              junk)
            (λ dr located.
              Ends-bind (mark ary did junk (2 ^ b) dr num c) _
                (mark-Sets b (entry ary ai) num dr c h located)
                (λ (num', d) (first, (grows, none)).
                  let ((num'', e), ran, (rest, (grows', none'))) =
                    check_loop-Sets b rounds (ai + 1) num' d (omega (arith, first.size))
                      (omega arith) (λ j p q. ints j (omega arith) (omega arith)) in
                  (
                    (num'', e),
                    ran,
                    (
                      Sets-trans b (Holds (entry ary ai)) (HoldsFrom ary (ai + 1) rounds)
                          (HoldsFrom ary ai (suc rounds)) c d e first rest
                          (HoldsFrom-suc ary ai rounds),
                      (omega arith, λ same i m. none (omega arith) i (none' (omega arith) i m)),
                    ),
                  ))))

    -- For documents that do not overlap, each with a check byte, a range in the array whose entries
    -- are not negative, and a mark of one bit, `check_keyword` ends: the bit is set for the documents that contain a position of the
    -- range, no other bit has changed, and the result is 0 only if no document has newly got it.
    pub check_keyword-Sets :
        (b : ℕ) (sr : SufResult) (c : List ℕ)
        → did.didsize / 2 ≤ length c
        → sr.left ≤ sr.right
        → sr.right < length ary.array
        → ((j : ℕ) → sr.left ≤ j → j ≤ sr.right → entry ary j < 2147483648)
        → Ends (check_keyword ary did junk sr (2 ^ b) c) (λ (num', d).
          Sets b (HoldsFrom ary sr.left (sr.right + 1 - sr.left)) c d × Counts b 0 c num' d)
    unfolding check_keyword
    check_keyword-Sets b sr c h p q ints =
        check_loop-Sets b (sr.right + 1 - sr.left) sr.left 0 c h (omega arith)
          (λ j l m. ints j l (omega arith))
