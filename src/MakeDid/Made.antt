-- ===== src/MakeDid/Made.antt =====
-- `sa_make_did` of lib/make-did.c as a whole, where no end tag is given.
use sufary.Base.{
  ℕ, ◌+◌, ◌-◌, ◌*◌, ◌≤◌, ◌<◌, ◌≡◌, refl, sym, ◌⊎◌, inl, inr, ◌↔◌, take_all, List, [], ◌++◌, length,
  get_or, take, drop, length-take, get_or-take, length-drop, length-append, get_or-append_left, set,
  length-set, get_or-set_same, get_or-set_other, All, Option, none, some, true, false, arith, ◌∙◌,
  Bool-cases, leb,
}
use sufary.Base.Int.{ℤ}
use sufary.Base.Run.{Ends}
use sufary.File.{Sufary, sa_get_text_size}
use sufary.Search.{keyword_max_length, SufResult}
use sufary.Search.Round.{entry}
use sufary.Search.Suffix.{Occurs, IsOpened, IsOrdered}
use sufary.Search.Find.{Finds, sa_find-Finds}
use sufary.MakeIndex.{is_positive}
use sufary.MakeDid.{longcomp, sort_first, end_at_next, sa_make_did, make_of_starts, count_of}
use sufary.MakeDid.Spread.{
  IsPaired, Spread, spread_loop-IsPaired, position_loop-Stored, Stored, store-done,
}
use sufary.MakeDid.Regions.{
  IsSort, IsMade, paired-IsRegions, from_of-paired, to_of-paired, to_of-last,
}

pub longcomp-le : (a b : ℕ) → is_positive (longcomp a b) ≡ false → a ≤ b
unfolding longcomp
longcomp-le a b h = elim (Bool-cases (leb b a)) [
  | inl below ↦ let h' : is_positive (longcomp a b) ≡ false = h in ground arith
  | inr above ↦ ground arith
]

module _ (qsort : (ℕ → ℕ → ℤ) → List ℕ → List ℕ) (fresh : ℕ → List ℕ)
    (sorts : IsSort (qsort longcomp)) where
  -- the starts in order
  abbrev start : ℕ → List ℕ → ℕ → ℕ
  start num rslt k = get_or (qsort longcomp (take num rslt)) k 0

  module _ (ary : Sufary) (num : ℕ) (rslt : List ℕ) (positive : 0 < num)
      (room : length rslt ≡ num * 2) where
    taken : length (take num rslt) ≡ num
    taken = omega (arith, length-take num rslt)

    sorted : length (qsort longcomp (take num rslt)) ≡ num
    sorted = sorts.keeps (take num rslt) ∙ taken

    abbrev whole : List ℕ
    whole = qsort longcomp (take num rslt) ++ drop num rslt

    whole_room : length whole ≡ num * 2
    whole_room = omega (
      arith,
      length-append (qsort longcomp (take num rslt)) (drop num rslt),
      sorted,
      length-drop num rslt,
    )

    -- with the end of the text in the last place
    first-Spread :
        Spread num
          (start num rslt)
          ary.textsize
          positive
          (num - 1)
          (set whole (num * 2 - 1) ary.textsize)
    first-Spread = record {
      has_room = omega (arith, length-set whole (num * 2 - 1) ary.textsize, whole_room);
      below = λ j h.
          get_or-set_other whole (num * 2 - 1) j ary.textsize 0 (omega arith)
          ∙ get_or-append_left (qsort longcomp (take num rslt)) (drop num rslt) j 0
              (omega (arith, sorted));
      odd = λ m h k. absurd (omega arith);
      even = λ m h k. absurd (omega arith);
      end =
          let e : 2 * num - 1 ≡ num * 2 - 1 = omega arith in
          rw e (get_or-set_same whole (num * 2 - 1) ary.textsize 0 (omega (arith, whole_room)));
    }

    end_at_next-IsPaired : Ends (end_at_next qsort fresh ary num rslt) (λ r.
        (words : List ℕ) × (r ≡ some words) × IsPaired num (start num rslt) ary.textsize words)
    unfolding end_at_next sort_first sa_get_text_size
    end_at_next-IsPaired =
        let (words, ran, paired) =
          spread_loop-IsPaired num (start num rslt) ary.textsize positive (num - 1)
            (set whole (num * 2 - 1) ary.textsize) (omega arith) first-Spread in
        rw (store-done whole (num * 2 - 1) ary.textsize (omega (arith, whole_room)))
          (rw ran (some words, refl, (words, refl, paired)))

    -- The sorted starts are the positions of the entries that were read.
    module _ (left : ℕ) (opened : IsOpened ary) (block : left + num ≤ ary.arraysize)
        (stored : Stored ary left 0 0 num 0 (fresh (num * 2)) rslt) where
      read_at : (j : ℕ) → j < num → get_or (take num rslt) j 0 ≡ entry ary (left + j)
      read_at j h =
          let e : 0 + j ≡ j = omega arith in
          omega
            (arith, get_or-take num rslt j 0 h, rw e at (stored.read j (omega arith) (omega arith)))

      start_drawn :
          (k : ℕ) → k < num → (j : ℕ) × (j < num) × (start num rslt k ≡ entry ary (left + j))
      start_drawn k h =
          let (j, b, e) = sorts.drawn (take num rslt) k (omega (arith, taken)) in
          let b' : j < num = omega (arith, taken) in (j, b', e ∙ read_at j b')

      start_covers :
          (j : ℕ) → j < num → (k : ℕ) × (k < num) × (start num rslt k ≡ entry ary (left + j))
      start_covers j h =
          let (k, b, e) = sorts.covers (take num rslt) j (omega (arith, taken)) in
          (k, omega (arith, taken), e ∙ read_at j h)

      start_ascends : (i j : ℕ) → i < j → j < num → start num rslt i ≤ start num rslt j
      start_ascends i j h b =
          longcomp-le (start num rslt i) (start num rslt j)
            (sorts.ascends (take num rslt) i j h (omega (arith, taken)))

      start_inside : (k : ℕ) → k < num → start num rslt k ≤ ary.textsize
      start_inside k h =
          let (j, b, e) = start_drawn k h in
          omega (arith, e, opened.is_position (left + j) (omega arith))

      paired-IsMade :
          (tag words : List ℕ)
          → ary.textsize < 2147483648
          → ((i : ℕ) → i < ary.arraysize → Occurs ary 0 tag i ↔ ((left ≤ i) × (i < left + num)))
          → IsPaired num (start num rslt) ary.textsize words
          → IsMade ary tag words
      paired-IsMade tag words small found paired =
          let s = start num rslt in
          let t = ary.textsize in
          let fits : t < 2147483648 = small in
          let from = from_of-paired num s t words paired start_ascends start_inside fits in
          record {
            regions = paired-IsRegions num s t words paired start_ascends start_inside fits;
            count = num;
            counted = paired.0;
            some_document = positive;
            begins = λ k h.
                let (j, b, e) = start_drawn k h in
                (
                  left + j,
                  omega arith,
                  (found (left + j) (omega arith)).1 (omega arith, omega arith),
                  from k h ∙ e,
                );
            every = λ i h occurs.
                let (a, b) = (found i h).0 occurs in
                let (k, c, e) = start_covers (i - left) (omega arith) in
                let same : left + (i - left) ≡ i = omega arith in (k, c, from k c ∙ (rw same at e));
            next = λ k h.
                to_of-paired num s t words paired start_ascends start_inside fits k h
                ∙ sym (from (k + 1) h);
            last = to_of-last num s t words paired start_ascends start_inside fits;
          }

  abbrev Result : Sufary → List ℕ → Option (List ℕ) → Type 0
  Result ary tag r =
      ((r ≡ none) × ((i : ℕ) → i < ary.arraysize → ¬ Occurs ary 0 tag i))
      ⊎ ((words : List ℕ) × (r ≡ some words) × IsMade ary tag words)

  make_of_starts-Result :
      (ary : Sufary) (tag : List ℕ) (sr : SufResult)
      → ((n : ℕ) → length (fresh n) ≡ n)
      → IsOpened ary
      → 0 < ary.arraysize
      → ary.textsize < 2147483648
      → Finds ary 0 (ary.arraysize - 1) tag 0 sr
      → Ends (make_of_starts qsort fresh ary [] true sr) (Result ary tag)
  unfolding make_of_starts
  make_of_starts-Result ary tag sr sized opened positive small finds = elim finds [
    | inl (e, nowhere) ↦
        rw (e, make_of_starts)
          (none, refl, inl (refl, λ i h. nowhere i (omega arith) (omega arith)))
    | inr (e, a, b, c, found) ↦
        let num = count_of sr in
        let (rslt, ran', stored) =
          position_loop-Stored ary sr.left 0 0 num 0 (fresh (num * 2))
            (omega (arith, opened.has_array)) (omega (arith, sized (num * 2))) in
        let room : length rslt ≡ num * 2 = stored.same_length ∙ sized (num * 2) in
        let (r, ran'', (words, is_some, paired)) =
          end_at_next-IsPaired ary num rslt (omega arith) room in
        let all = take_all (num * 2) words (omega (arith, paired.0)) in
        let block : (i : ℕ)
            → i < ary.arraysize
            → Occurs ary 0 tag i ↔ ((sr.left ≤ i) × (i < sr.left + num)) =
          λ i h. (
            λ o. let (p, q) = (found i (omega arith) (omega arith)).0 o in (p, omega arith),
            λ (p, q). (found i (omega arith) (omega arith)).1 (p, omega arith),
          ) in
        rw (e, make_of_starts)
          (rw ran' (
            rw ran'' (
              rw is_some (
                rw all (
                  some words,
                  refl,
                  inr (
                    words,
                    refl,
                    paired-IsMade ary num rslt (omega arith) room sr.left opened (omega arith)
                        stored tag words small block paired,
                  ),
                )))))
  ]

  -- Of an opened index in alphabetical order, of a text that an int can measure, and for a tag of
  -- fewer than KEYWORD_MAX_LENGTH bytes, none of them 0, `sa_make_did` without an end tag ends. It
  -- returns FAIL if the tag does not occur; else it writes regions that do not overlap, which begin
  -- at the occurrences of the tag, each ending where the next one begins and the last with the text.
  -- `qsort` sorts, `malloc` gives as many entries as are asked for, and the output can be opened.
  pub sa_make_did-IsMade :
      (ary : Sufary) (tag : List ℕ)
      → ((n : ℕ) → length (fresh n) ≡ n)
      → IsOpened ary
      → IsOrdered ary 0 0 (ary.arraysize - 1)
      → 0 < ary.arraysize
      → ary.textsize < 2147483648
      → All (λ b. 0 < b) tag
      → length tag < keyword_max_length
      → Ends (sa_make_did qsort fresh (some ary) tag [] true) (λ r.
        ((r ≡ none) × ((i : ℕ) → i < ary.arraysize → ¬ Occurs ary 0 tag i))
        ⊎ ((words : List ℕ) × (r ≡ some words) × IsMade ary tag words))
  unfolding sa_make_did
  sa_make_did-IsMade ary tag sized opened ordered positive small nonzero short =
      let (sr, ran, finds) =
        sa_find-Finds ary 0 (ary.arraysize - 1) 0 tag opened ordered (omega arith) nonzero
          (omega arith) short in
      let (r, ran', result) = make_of_starts-Result ary tag sr sized opened positive small finds in
      rw ran (r, ran', result)
