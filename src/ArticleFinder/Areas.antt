-- ===== src/ArticleFinder/Areas.antt =====
-- `check_last_keyword` of src/af.c and the areas that it stores.
use sufary.Base.{
  ℕ, zero, suc, ◌+◌, ◌-◌, ◌/◌, ◌≤◌, ◌<◌, ◌≡◌, ◌≢◌, refl, sym, ◌∙◌, ◌⊎◌, inl, inr, ◌↔◌, List, [],
  ◌∷◌, ◌++◌, length, length-append, length-set, get_or, get_or-set_same, get_or-set_other,
  get_elem?-eq-get_or, set, ltb, Bool-cases, true, ◌==◌, All, arith,
}
use native.Mathlib.Decide.{ℕ_discrete}
use sufary.Base.Run.{Ends, Ends-bind}
use sufary.File.{Sufary, sa_aryidx2txtidx}
use sufary.Search.{SufResult, success}
use sufary.Search.Round.{entry}
use sufary.Did.{Did, DidResult, sa_didsearch}
use sufary.Did.Locate.{IsRegions, Located, sa_didsearch-Located, from_of, to_of}
use sufary.ArticleFinder.{take_area, last_loop, check_last_keyword}
use sufary.ArticleFinder.Marks.{Holds, HoldsFrom, HoldsFrom-suc, one_document}

-- Document `i` is among the areas.
abbrev pub Reported : ℕ → List DidResult → Type 0
Reported i [] = ⊥
Reported i (dr ∷ tas) = (i ≡ dr.no) ⊎ Reported i tas

-- No document is there twice.
abbrev pub NoTwice : List DidResult → Type 0
NoTwice [] = Unit
NoTwice (dr ∷ tas) = (¬ Reported dr.no tas) × NoTwice tas

-- The area is the whole document.
abbrev pub IsArea : Did → DidResult → Type 0
IsArea did dr = (dr.start ≡ from_of did dr.no) × (dr.start + dr.size ≡ to_of did dr.no)

Reported-append :
    (i : ℕ) (tas : List DidResult) (dr : DidResult)
    → Reported i (tas ++ dr ∷ []) ↔ (Reported i tas ⊎ (i ≡ dr.no))
Reported-append i [] dr =
    (elim [ inl e ↦ inr e | inr f ↦ elim f [ ] ], elim [ inl f ↦ elim f [ ] | inr e ↦ inl e ])
Reported-append i (d ∷ tas) dr = (
  elim [
    | inl e ↦ inl (inl e)
    | inr h ↦ elim ((Reported-append i tas dr).0 h) [ inl g ↦ inl (inr g) | inr g ↦ inr g ]
  ],
  elim [
    | inl h ↦ elim h [ inl e ↦ inl e | inr g ↦ inr ((Reported-append i tas dr).1 (inl g)) ]
    | inr e ↦ inr ((Reported-append i tas dr).1 (inr e))
  ],
)

NoTwice-append :
    (tas : List DidResult) (dr : DidResult)
    → NoTwice tas
    → ¬ Reported dr.no tas
    → NoTwice (tas ++ dr ∷ [])
NoTwice-append [] dr once new = (λ f. f, tt)
NoTwice-append (d ∷ tas) dr (out, once) new = (
  λ r. elim ((Reported-append d.no tas dr).0 r) [ inl h ↦ out h | inr e ↦ new (inl (sym e)) ],
  NoTwice-append tas dr once (λ r. new (inr r)),
)

All-append :
    (did : Did) (tas : List DidResult) (dr : DidResult)
    → All (IsArea did) tas
    → IsArea did dr
    → All (IsArea did) (tas ++ dr ∷ [])
All-append did [] dr h a = (a, tt)
All-append did (d ∷ tas) dr (p, h) a = (p, All-append did tas dr h a)

module _ (did : Did) (sikii : ℕ) (c0 : List ℕ) where
  -- What is stored of the documents of which `P` holds: those whose check byte was `sikii`.
  pub record Stored (P : ℕ → Type 0) (tas : List DidResult) (c : List ℕ) : Type 0 where
    pub size : length c ≡ length c0
    pub reported : (i : ℕ) → Reported i tas ↔ ((get_or c0 i 0 ≡ sikii) × P i)
    pub spent : (i : ℕ) → Reported i tas → get_or c i 0 ≡ 1
    pub kept : (i : ℕ) → Reported i tas ⊎ (get_or c i 0 ≡ get_or c0 i 0)
    pub areas : All (IsArea did) tas
    pub once : NoTwice tas

  Stored-iff :
      (P Q : ℕ → Type 0) (tas : List DidResult) (c : List ℕ)
      → Stored P tas c
      → ((i : ℕ) → get_or c0 i 0 ≡ sikii → P i ↔ Q i)
      → Stored Q tas c
  Stored-iff P Q tas c s e = record {
    size = s.size;
    reported = λ i. (
      λ r. let (a, p) = (s.reported i).0 r in (a, (e i a).0 p),
      λ (a, q). (s.reported i).1 (a, (e i a).1 q),
    );
    spent = s.spent;
    kept = s.kept;
    areas = s.areas;
    once = s.once;
  }

  store-Stored :
      (P : ℕ → Type 0) (tas : List DidResult) (c : List ℕ) (dr : DidResult)
      → sikii ≢ 1
      → Stored P tas c
      → IsArea did dr
      → dr.no < length c
      → get_or c dr.no 0 ≡ sikii
      → Stored (λ i. P i ⊎ (i ≡ dr.no)) (tas ++ dr ∷ []) (set c dr.no 1)
  store-Stored P tas c dr ne s area h same =
      let new : ¬ Reported dr.no tas = λ r. ne (sym same ∙ s.spent dr.no r) in
      let first : get_or c0 dr.no 0 ≡ sikii = elim (s.kept dr.no) [
        | inl r ↦ absurd (new r)
        | inr e ↦ sym e ∙ same
      ] in
      record {
        size = omega (arith, length-set c dr.no 1, s.size);
        reported = λ i. (
          λ r. elim ((Reported-append i tas dr).0 r) [
            | inl p ↦ let (a, q) = (s.reported i).0 p in (a, inl q)
            | inr e ↦ (rw e first, inr e)
          ],
          λ (a, q).
              (Reported-append i tas dr).1
                (elim q [ inl p ↦ inl ((s.reported i).1 (a, p)) | inr e ↦ inr e ]),
        );
        spent = λ i r. elim (ℕ_discrete dr.no i) [
          | yes e ↦ let here = get_or-set_same c dr.no 1 0 h in rw (← e) here
          | no other ↦
              get_or-set_other c dr.no i 1 0 other ∙ (elim ((Reported-append i tas dr).0 r) [
                | inl p ↦ s.spent i p
                | inr e ↦ absurd (other (sym e))
              ])
        ];
        kept = λ i. elim (ℕ_discrete dr.no i) [
          | yes e ↦ inl ((Reported-append i tas dr).1 (inr (sym e)))
          | no other ↦ elim (s.kept i) [
            | inl p ↦ inl ((Reported-append i tas dr).1 (inl p))
            | inr e ↦ inr (get_or-set_other c dr.no i 1 0 other ∙ e)
          ]
        ];
        areas = All-append did tas dr s.areas area;
        once = NoTwice-append tas dr s.once new;
      }

  module _ (ary : Sufary) (junk : ℕ) (regions : IsRegions did) (ne : sikii ≢ 1) where
    take_area-Stored :
        (P : ℕ → Type 0) (target room : ℕ) (tas : List DidResult) (c : List ℕ) (dr : DidResult)
        → Stored P tas c
        → did.didsize / 2 ≤ length c
        → length tas < room
        → Located did target dr
        → Ends (take_area ary did junk room sikii dr tas c) (λ (tas', c').
          Stored (λ i. P i ⊎ Holds did target i) tas' c' × (length tas' ≤ suc (length tas)))
    unfolding take_area
    take_area-Stored P target room tas c dr s h free (inr (e, none)) = rw e (
      (tas, c),
      refl,
      (
        Stored-iff P _ tas c s
            (λ i _. (inl, elim [ inl p ↦ p | inr (a, b) ↦ absurd (none i a b) ])),
        omega arith,
      ),
    )
    take_area-Stored P target room tas c dr s h free (inl (e, bound, contains, from, to)) =
        let place : ltb (length tas) room ≡ true = ground arith in
        let dr' : DidResult = record dr { stat = success } in
        let held : Holds did target dr.no = (bound, contains) in
        rw e (
          rw (get_elem?-eq-get_or c dr.no 0 (omega arith))
            (elim (Bool-cases (get_or c dr.no 0 == sikii)) [
              | inl same ↦
                  rw (same, place)
                    (
                      (tas ++ dr' ∷ [], set c dr.no 1),
                      refl,
                      (
                        Stored-iff (λ i. P i ⊎ (i ≡ dr.no)) _ _ _
                            (store-Stored P tas c dr' ne s (from, to) (omega arith) (ground arith))
                            (λ i _. (
                              elim [ inl p ↦ inl p | inr at ↦ inr (rw at held) ],
                              elim [
                                | inl p ↦ inl p
                                | inr q ↦ inr (one_document did target i dr.no regions q held)
                              ],
                            )),
                        omega (arith, length-append tas (dr' ∷ [])),
                      ),
                    )
              | inr other ↦ rw other (
                (tas, c),
                refl,
                (
                  Stored-iff P _ tas c s (λ i first. (
                    inl,
                    elim [
                      | inl p ↦ p
                      | inr q ↦
                          let at = one_document did target i dr.no regions q held in
                          elim (s.kept i) [
                            | inl r ↦ ((s.reported i).0 r).1
                            | inr k ↦ absurd (ground (arith, at, k, first, other))
                          ]
                    ],
                  )),
                  omega arith,
                ),
              )
            ]))

    last_loop-Stored :
        (P : ℕ → Type 0) (room rounds ai : ℕ) (tas : List DidResult) (c : List ℕ)
        → Stored P tas c
        → did.didsize / 2 ≤ length c
        → length tas + rounds ≤ room
        → ai + rounds ≤ length ary.array
        → ((j : ℕ) → ai ≤ j → j < ai + rounds → entry ary j < 2147483648)
        → Ends
            (last_loop ary did junk room sikii rounds ai tas c)
            (λ (tas', c'). Stored (λ i. P i ⊎ HoldsFrom did ary ai rounds i) tas' c')
    unfolding last_loop sa_aryidx2txtidx
    last_loop-Stored P room zero ai tas c s h free inside ints = (
      (tas, c),
      refl,
      Stored-iff P _ tas c s
          (λ i _. (inl, elim [ inl p ↦ p | inr (j, a, b, _) ↦ absurd (omega arith) ])),
    )
    last_loop-Stored P room (suc rounds) ai tas c s h free inside ints =
        rw (get_elem?-eq-get_or ary.array ai 0 (omega arith)) (
          Ends-bind (sa_didsearch junk did (entry ary ai)) _
            (sa_didsearch-Located did (entry ary ai) regions (ints ai (omega arith) (omega arith))
              junk)
            (λ dr located.
              Ends-bind (take_area ary did junk room sikii dr tas c) _
                (take_area-Stored P (entry ary ai) room tas c dr s h (omega arith) located)
                (λ (tas', c') (s', grown).
                  let (out, ran, stored) =
                    last_loop-Stored (λ i. P i ⊎ Holds did (entry ary ai) i) room rounds (ai + 1)
                      tas' c' s' (omega (arith, s'.size, s.size)) (omega arith) (omega arith)
                      (λ j p q. ints j (omega arith) (omega arith)) in
                  (
                    out,
                    ran,
                    Stored-iff _ _ out.0 out.1 stored (λ i _. (
                      elim [
                        | inl p ↦ elim p [
                          | inl q ↦ inl q
                          | inr q ↦ inr ((HoldsFrom-suc did ary ai rounds i).1 (inl q))
                        ]
                        | inr q ↦ inr ((HoldsFrom-suc did ary ai rounds i).1 (inr q))
                      ],
                      elim [
                        | inl p ↦ inl (inl p)
                        | inr q ↦ elim ((HoldsFrom-suc did ary ai rounds i).0 q) [
                          | inl r ↦ inl (inr r)
                          | inr r ↦ inr r
                        ]
                      ],
                    )),
                  ))))

    -- For documents that do not overlap, each with a check byte, a range in the array whose entries
    -- are not negative, and a `sikii` other than 1, `check_last_keyword`, given its memory, ends, so that the memory is large enough.
    -- It stores, once each and in full, exactly the documents that contain a position of the range
    -- and whose check byte is `sikii`.
    pub check_last_keyword-Stored :
        (sr : SufResult)
        → did.didsize / 2 ≤ length c0
        → sr.left ≤ sr.right
        → sr.right < length ary.array
        → ((j : ℕ) → sr.left ≤ j → j ≤ sr.right → entry ary j < 2147483648)
        → Ends
            (check_last_keyword ary did junk true sr sikii c0)
            (λ (tas, c). Stored (HoldsFrom did ary sr.left (sr.right + 1 - sr.left)) tas c)
    unfolding check_last_keyword
    check_last_keyword-Stored sr h p q ints =
        let (out, ran, stored) =
          last_loop-Stored (λ i. ⊥) (sr.right + 1 - sr.left) (sr.right + 1 - sr.left) sr.left [] c0
            (record {
              size = refl;
              reported = λ i. (λ f. elim f [ ], λ (_, f). f);
              spent = λ i f. elim f [ ];
              kept = λ i. inr refl;
              areas = tt;
              once = tt;
            })
            h (omega arith) (omega arith) (λ j l m. ints j l (omega arith)) in
        (
          out,
          ran,
          Stored-iff _ _ out.0 out.1 stored (λ i _. (elim [ inl f ↦ elim f [ ] | inr q ↦ q ], inr)),
        )
