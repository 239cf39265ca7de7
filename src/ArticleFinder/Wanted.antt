-- ===== src/ArticleFinder/Wanted.antt =====
-- The documents that `do_kensaku` of src/af.c is asked for, and its search.
use sufary.Base.{
  ℕ, suc, ◌+◌, ◌-◌, ◌/◌, ◌^◌, ◌≤◌, ◌<◌, ◌≡◌, ◌≢◌, refl, ◌⊎◌, inl, inr, ◌↔◌, List, [], ◌∷◌, length,
  get_or, Bool-cases, true, ◌==◌, All, arith,
}
use native.Mathlib.Omega.{pow_step}
use sufary.Base.Run.{Ends, Ends-bind}
use sufary.File.{Sufary}
use sufary.Search.{SufResult, sa_find}
use sufary.Search.Round.{entry}
use sufary.Search.Suffix.{IsOpened, IsOrdered}
use sufary.Did.{Did}
use sufary.Did.Locate.{IsRegions}
use sufary.Regex.BitLaws.{test_bit-zero}
use sufary.ArticleFinder.{
  Kensaku, nkeys_loop, last_key, keys_loop, search_keys, prints, in_text_areas, Message, not_found,
}
use sufary.ArticleFinder.BitPatterns.{pattern_of, pattern_of_checker, next_checker}
use sufary.ArticleFinder.Marks.{check_keyword-Sets}
use sufary.ArticleFinder.Areas.{Reported, NoTwice, IsArea, check_last_keyword-Stored}
use sufary.ArticleFinder.HasKey.{IsKey, HasSome, HasAll, find_key}
use sufary.ArticleFinder.Known.{Known, is_pattern, Known-unwanted, Known-wanted, Known-iff}

-- The areas are those of the wanted documents, once each and in full.
abbrev pub Answers : Did → (ℕ → Type 0) → Kensaku → Type 0
Answers did Want k =
    ((i : ℕ) → Reported i k.areas ↔ Want i) × All (IsArea did) k.areas × NoTwice k.areas

module _ (ary : Sufary) (did : Did) (junk : ℕ) (opened : IsOpened ary)
    (ordered : IsOrdered ary 0 0 (ary.arraysize - 1)) (some_entry : 0 < ary.arraysize)
    (regions : IsRegions did) (small : ary.textsize < 2147483648) where
  natural :
      (sr : SufResult)
      → sr.right < ary.arraysize
      → (j : ℕ) → sr.left ≤ j
      → j ≤ sr.right
      → entry ary j < 2147483648
  natural sr q j l m = omega (arith, opened.is_position j (omega arith), small)

  nkeys_loop-Known :
      (keys : List (List ℕ)) (Bad : ℕ → Type 0) (c : List ℕ)
      → Known did 0 Bad (λ _. Unit) c
      → All IsKey keys
      → Ends
          (nkeys_loop ary did junk true keys c)
          (Known did 0 (λ i. Bad i ⊎ HasSome ary did keys i) (λ _. Unit))
  unfolding nkeys_loop
  nkeys_loop-Known [] Bad c known h = (
    c,
    refl,
    Known-iff did 0 Bad _ _ _ c known (λ i. (inl, elim [ inl b ↦ b | inr f ↦ elim f [ ] ]))
        (λ i. (λ t. t, λ t. t)),
  )
  nkeys_loop-Known (key ∷ keys) Bad c known (is_key, h) =
      Ends-bind (sa_find ary 0 (ary.arraysize - 1) key 0) _
        (find_key ary did junk opened ordered some_entry regions key is_key)
        (λ sr search. elim search [
          | inl (e, none) ↦
              let (d, ran, rest) = nkeys_loop-Known keys Bad c known h in
              rw e (
                d,
                ran,
                Known-iff did 0 _ _ _ _ d rest
                    (λ i. (
                      elim [ inl b ↦ inl b | inr s ↦ inr (inr s) ],
                      elim [
                        | inl b ↦ inl b
                        | inr s ↦ elim s [ inl k ↦ absurd (none i k) | inr r ↦ inr r ]
                      ],
                    ))
                    (λ i. (λ t. t, λ t. t)),
              )
          | inr (e, p, q, iff) ↦
              let ((num, d), ran, (sets, _)) =
                check_keyword-Sets did ary junk regions 0 sr c known.size p
                  (omega (arith, opened.has_array)) (natural sr q) in
              let (out, ran', rest) =
                nkeys_loop-Known keys _ d (Known-unwanted did Bad _ c d known sets) h in
              rw e (
                rw ran (
                  out,
                  ran',
                  Known-iff did 0 _ _ _ _ out rest
                      (λ i. (
                        elim [
                          | inl b ↦ elim b [ inl b' ↦ inl b' | inr k ↦ inr (inl ((iff i).0 k)) ]
                          | inr s ↦ inr (inr s)
                        ],
                        elim [
                          | inl b ↦ inl (inl b)
                          | inr s ↦ elim s [ inl k ↦ inl (inr ((iff i).1 k)) | inr r ↦ inr r ]
                        ],
                      ))
                      (λ i. (λ t. t, λ t. t)),
                ))
        ])

  Answers-iff :
      (Want Want' : ℕ → Type 0) (k : Kensaku)
      → Answers did Want k
      → ((i : ℕ) → Want i ↔ Want' i)
      → Answers did Want' k
  Answers-iff Want Want' k (reported, areas, once) e =
      ((λ i. (λ r. (e i).0 ((reported i).0 r), λ w. (reported i).1 ((e i).1 w))), areas, once)

  Answers-none :
      (Want : ℕ → Type 0) (value : ℕ) (c : List ℕ) (printed : List Message)
      → ((i : ℕ) → ¬ Want i)
      → Answers did Want (record { value = value; did_check = c; printed = printed; areas = [] })
  Answers-none Want value c printed none =
      ((λ i. (λ f. elim f [ ], λ w. absurd (none i w))), tt, tt)

  last_key-Answers :
      (m : ℕ) (Bad Good : ℕ → Type 0) (key : List ℕ) (c : List ℕ)
      → m ≤ 7
      → Known did m Bad Good c
      → IsKey key
      → Ends
          (last_key ary did junk true key (2 ^ m) c)
          (Answers did (λ i. (¬ Bad i) × (Good i × HasAll ary did (key ∷ []) i)))
  unfolding last_key
  last_key-Answers m Bad Good key c few known is_key =
      Ends-bind (sa_find ary 0 (ary.arraysize - 1) key 0) _
        (find_key ary did junk opened ordered some_entry regions key is_key)
        (λ sr search. elim search [
          | inl (e, none) ↦
              rw e
                (_, refl, Answers-none _ 0 c (not_found key ∷ []) (λ i (_, (_, (k, _))). none i k))
          | inr (e, p, q, iff) ↦
              let odd : pattern_of m ≢ 1 = not_one m in
              let (out, ran, stored) =
                check_last_keyword-Stored did (pattern_of m) c ary junk regions odd sr known.size p
                  (omega (arith, opened.has_array)) (natural sr q) in
              rw e (
                rw (pattern_of_checker m few) (
                  rw ran (
                    _,
                    refl,
                    (
                      (λ i. (
                        λ r.
                            let (at, held) = (stored.reported i).0 r in
                            let (b, g) = (is_pattern did m Bad Good c known i).0 at in
                            (b, (g, ((iff i).0 held, tt))),
                        λ (b, (g, (k, _))).
                            (stored.reported i).1
                              ((is_pattern did m Bad Good c known i).1 (b, g), (iff i).1 k),
                      )),
                      stored.areas,
                      stored.once,
                    ),
                  )))
        ])
    where
      not_one : (m : ℕ) → pattern_of m ≢ 1
      not_one m e = omega (arith, pow_step 2 m)

  keys_loop-Answers :
      (key : List ℕ) (keys : List (List ℕ)) (m : ℕ) (Bad Good : ℕ → Type 0) (c : List ℕ)
      → m + length keys ≤ 7
      → Known did m Bad Good c
      → IsKey key
      → All IsKey keys
      → Ends
          (keys_loop ary did junk true (key ∷ keys) (2 ^ m) c)
          (Answers did (λ i. (¬ Bad i) × (Good i × HasAll ary did (key ∷ keys) i)))
  unfolding keys_loop
  keys_loop-Answers key [] m Bad Good c few known is_key h =
      last_key-Answers m Bad Good key c (omega arith) known is_key
  keys_loop-Answers key (next ∷ keys) m Bad Good c few known is_key (is_next, h) =
      Ends-bind (sa_find ary 0 (ary.arraysize - 1) key 0) _
        (find_key ary did junk opened ordered some_entry regions key is_key)
        (λ sr search. elim search [
          | inl (e, none) ↦
              rw e
                (_, refl, Answers-none _ 0 c (not_found key ∷ []) (λ i (_, (_, (k, _))). none i k))
          | inr (e, p, q, iff) ↦
              let ((num, d), ran, (sets, (_, uncounted))) =
                check_keyword-Sets did ary junk regions (suc m) sr c known.size p
                  (omega (arith, opened.has_array)) (natural sr q) in
              let known' = Known-wanted did m Bad Good _ c d known sets in
              let (k, ran', answers) =
                keys_loop-Answers next keys (suc m) Bad _ d (omega arith) known' is_next h in
              rw e (
                rw (next_checker m (omega arith)) (
                  rw ran (
                    rw ran' (elim (Bool-cases (num == 0)) [
                      | inl zero_areas ↦ rw zero_areas (
                        _,
                        refl,
                        Answers-none _ 0 d [] (λ i (_, (_, (held, _))).
                            let set = (sets.marks (suc m) i).1 (inr (refl, (iff i).1 held)) in
                            let old = uncounted (ground arith) i set in
                            let unset = known.clear (suc m) i (omega arith) in
                            absurd (ground arith)),
                      )
                      | inr some_areas ↦ rw some_areas (
                        _,
                        refl,
                        Answers-iff _ _ (prints (in_text_areas key num) k) answers (λ i. (
                          λ (b, ((g, held), rest)). (b, (g, ((iff i).0 held, rest))),
                          λ (b, (g, (has, rest))). (b, ((g, (iff i).1 has), rest)),
                        )),
                      )
                    ]))))
        ])

  -- On an opened, ordered index that is not empty, of a text that an int can measure, with documents
  -- that do not overlap and cleared check bytes, where the memory for the areas is found, for one to eight wanted keywords and any unwanted ones, each without the byte 0 and
  -- shorter than the search's buffer: the search ends, and its areas are exactly the documents that
  -- hold each wanted keyword and no unwanted one, once each and in full.
  pub search_keys-Answers :
      (nkeys : List (List ℕ)) (key : List ℕ) (keys : List (List ℕ)) (c : List ℕ)
      → All IsKey nkeys
      → IsKey key
      → All IsKey keys
      → length keys ≤ 7
      → did.didsize / 2 ≤ length c
      → ((i : ℕ) → get_or c i 0 ≡ 0)
      → Ends
          (search_keys ary did junk true (record { nkeys = nkeys; keys = key ∷ keys }) c)
          (Answers did (λ i. (¬ HasSome ary did nkeys i) × HasAll ary did (key ∷ keys) i))
  unfolding search_keys
  search_keys-Answers nkeys key keys c are_nkeys is_key are_keys few size clear =
      Ends-bind (nkeys_loop ary did junk true nkeys c) _
        (nkeys_loop-Known nkeys (λ _. ⊥) c nothing_known are_nkeys)
        (λ d known.
          let (k, ran, answers) =
            keys_loop-Answers key keys 0 _ _ d (omega arith) known is_key are_keys in
          (
            k,
            ran,
            Answers-iff _ _ k answers (λ i. (
              λ (b, (_, all)). ((λ s. b (inr s)), all),
              λ (b, all). ((λ f. elim f [ inl g ↦ elim g [ ] | inr s ↦ b s ]), (tt, all)),
            )),
          ))
    where
      nothing_known : Known did 0 (λ _. ⊥) (λ _. Unit) c
      nothing_known = record {
        size = size;
        bad = λ i.
            let e = clear i in
            let unset = test_bit-zero 0 in (λ h. absurd (ground arith), λ f. elim f [ ]);
        good = λ i. (λ _. tt, λ _ k p q. absurd (omega arith));
        clear = λ k i _. rw (clear i) (test_bit-zero k);
      }
