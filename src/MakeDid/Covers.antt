-- ===== src/MakeDid/Covers.antt =====
-- lib/make-did.c and lib/did.c together: a search in the file that was written.
use sufary.Base.{
  ℕ, zero, suc, ◌+◌, ◌-◌, ◌≤◌, ◌<◌, ◌≡◌, ◌∙◌, inl, inr, List, [], length, All, some, true, arith,
}
use native.Mathlib.Decide.{dec_lt, ℕ_discrete}
use sufary.Base.Int.{ℤ}
use sufary.Base.Run.{Ends}
use sufary.File.{Sufary}
use sufary.Search.{success, keyword_max_length}
use sufary.Search.Round.{entry}
use sufary.Search.Suffix.{Occurs, IsOpened, IsOrdered}
use sufary.Did.{DidResult, sa_didsearch}
use sufary.Did.Locate.{from_of, to_of, Contains, sa_didsearch-Located}
use sufary.MakeDid.{longcomp, sa_make_did}
use sufary.MakeDid.Regions.{IsSort, IsMade, did_of}
use sufary.MakeDid.Made.{sa_make_did-IsMade}

module _ (ary : Sufary) (tag words : List ℕ) (made : IsMade ary tag words) (target : ℕ)
    (behind_first : from_of (did_of words) 0 ≤ target) (in_text : target < ary.textsize) where
  -- If no document contains the position, all begin up to it.
  all_before :
      ((i : ℕ) → i < made.count → ¬ Contains (did_of words) target i)
      → (k : ℕ) → k < made.count
      → from_of (did_of words) k ≤ target
  all_before none zero h = behind_first
  all_before none (suc k) h =
      let e : k + 1 ≡ suc k = omega arith in
      let before = all_before none k (omega arith) in
      let next : to_of (did_of words) k ≡ from_of (did_of words) (suc k) =
        rw e at (made.next k (omega arith)) in
      elim (dec_lt target (to_of (did_of words) k)) [
        | yes inside ↦ absurd (none k (omega arith) (before, inside))
        | no past ↦ omega (arith, next)
      ]

  some-Contains : ¬ ((i : ℕ) → i < made.count → ¬ Contains (did_of words) target i)
  some-Contains none =
      let last = made.count - 1 in
      let here : last < made.count = omega (arith, made.some_document) in
      none last here (
        all_before none last here,
        omega (arith, made.last last (omega (arith, made.some_document))),
      )

-- The region that holds the position begins at the last occurrence of the tag up to it.
abbrev pub LastTag : Sufary → List ℕ → ℕ → DidResult → Type 0
LastTag ary tag target r =
    (r.stat ≡ success)
    × (r.start ≤ target)
    × (target < r.start + r.size)
    × ((i : ℕ) × (i < ary.arraysize) × Occurs ary 0 tag i × (r.start ≡ entry ary i))
    × ((i : ℕ)
        → i < ary.arraysize
        → Occurs ary 0 tag i
        → entry ary i ≤ target
        → entry ary i ≤ r.start)

module _ (ary : Sufary) (tag words : List ℕ) (made : IsMade ary tag words) where
  from_mono :
      (i j : ℕ) → i ≤ j → j < made.count → from_of (did_of words) i ≤ from_of (did_of words) j
  from_mono i j h b =
      let regions = made.regions in
      let counted = made.counted in
      elim (ℕ_discrete i j) [
        | yes e ↦ rw e (omega arith)
        | no ne ↦
            omega (
              arith,
              regions.apart i j (omega arith) (omega arith),
              regions.forward i (omega arith),
            )
      ]

  found-LastTag :
      (target junk : ℕ)
      → target < ary.textsize
      → ary.textsize < 2147483648
      → (i : ℕ) → i < ary.arraysize
      → Occurs ary 0 tag i
      → entry ary i ≤ target
      → Ends (sa_didsearch junk (did_of words) target) (LastTag ary tag target)
  found-LastTag target junk b small i inside occurs before =
      let did = did_of words in
      let counted = made.counted in
      let (k, c, at) = made.every i inside occurs in
      let behind_first : from_of did 0 ≤ target = omega (arith, from_mono 0 k (omega arith) c) in
      let (r, ran, located) = sa_didsearch-Located did target made.regions (omega arith) junk in
      elim located [
        | inr (_, none) ↦
            absurd
              (some-Contains ary tag words made target behind_first b (λ i c. none i (omega arith)))
        | inl (e, number, (low, high), start, end) ↦
            let n : r.no < made.count = omega arith in
            let (i', b', o', at') = made.begins r.no n in
            (
              r,
              ran,
              (
                e,
                omega arith,
                omega arith,
                (i', b', o', start ∙ at'),
                λ m p o q.
                    let (k', c', here) = made.every m p o in
                    elim (dec_lt r.no k') [
                      | no up_to ↦ omega (arith, from_mono k' r.no (omega arith) n)
                      | yes later ↦
                          absurd (omega (arith, made.regions.apart r.no k' later (omega arith)))
                    ],
              ),
            )
      ]

module _ (qsort : (ℕ → ℕ → ℤ) → List ℕ → List ℕ) (fresh : ℕ → List ℕ)
    (sorts : IsSort (qsort longcomp)) where
  -- Of an opened index in alphabetical order, of a text that an int can measure, and for a tag of
  -- fewer than KEYWORD_MAX_LENGTH bytes, none of them 0, that occurs up to a position of the text,
  -- `sa_make_did` without an end tag ends and writes a file. `sa_didsearch` for the position in that
  -- file ends, and finds a document that contains it and begins at the last occurrence of the tag
  -- up to the position. `qsort` sorts, `malloc` gives what is asked for, and the output can be opened.
  pub sa_make_did-LastTag :
      (ary : Sufary) (tag : List ℕ) (target junk : ℕ)
      → ((n : ℕ) → length (fresh n) ≡ n)
      → IsOpened ary
      → IsOrdered ary 0 0 (ary.arraysize - 1)
      → ary.textsize < 2147483648
      → All (λ b. 0 < b) tag
      → length tag < keyword_max_length
      → target < ary.textsize
      → (i : ℕ) → i < ary.arraysize
      → Occurs ary 0 tag i
      → entry ary i ≤ target
      → Ends (sa_make_did qsort fresh (some ary) tag [] true) (λ r.
        (words : List ℕ) × (r ≡ some words)
        × Ends (sa_didsearch junk (did_of words) target) (LastTag ary tag target))
  sa_make_did-LastTag ary tag target junk sized opened ordered small nonzero short b i inside occurs
        before =
      let (r, ran, result) =
        sa_make_did-IsMade qsort fresh sorts ary tag sized opened ordered (omega arith) small
          nonzero short in
      elim result [
        | inl (_, nowhere) ↦ absurd (nowhere i inside occurs)
        | inr (words, e, made) ↦ (
          r,
          ran,
          (words, e, found-LastTag ary tag words made target junk b small i inside occurs before),
        )
      ]
