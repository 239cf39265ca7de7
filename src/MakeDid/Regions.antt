-- ===== src/MakeDid/Regions.antt =====
-- What `sa_make_did` of lib/make-did.c writes is a file of regions for `sa_didsearch` of lib/did.c.
use sufary.Base.{
  ℕ, ◌+◌, ◌-◌, ◌*◌, ◌/◌, ◌≤◌, ◌<◌, ◌≡◌, List, map, length, get_or, get_or-map, length-map, false,
  arith, ◌∙◌, ap,
}
use native.Mathlib.Decide.{dec_lt, ℕ_discrete}
use sufary.Util.{reverse_word}
use sufary.Util.Order.{reverse_word-reverse_word}
use sufary.File.{Sufary}
use sufary.Search.Round.{entry}
use sufary.Search.Suffix.{Occurs}
use sufary.Did.{Did}
use sufary.Did.Locate.{from_of, to_of, IsRegions}
use sufary.MakeIndex.{is_positive}
use sufary.MakeDid.{longcomp}
use sufary.MakeDid.Spread.{IsPaired}

-- What the C library promises of `qsort` with `longcomp`: the same entries in ascending order.
pub record IsSort (sort : List ℕ → List ℕ) : Type 0 where
  pub keeps : (xs : List ℕ) → length (sort xs) ≡ length xs
  pub drawn :
      (xs : List ℕ) (k : ℕ)
      → k < length xs
      → (i : ℕ) × (i < length xs) × (get_or (sort xs) k 0 ≡ get_or xs i 0)
  pub covers :
      (xs : List ℕ) (i : ℕ)
      → i < length xs
      → (k : ℕ) × (k < length xs) × (get_or (sort xs) k 0 ≡ get_or xs i 0)
  pub ascends :
      (xs : List ℕ) (i j : ℕ)
      → i < j
      → j < length xs
      → is_positive (longcomp (get_or (sort xs) i 0) (get_or (sort xs) j 0)) ≡ false

-- What is read of a file of these entries, whose bytes the host has in the other order.
abbrev pub did_of : List ℕ → Did
did_of words = record { docid = map reverse_word words; didsize = length words }

word_at :
    (words : List ℕ) (i : ℕ)
    → get_or words i 0 < 4294967296
    → reverse_word (get_or (map reverse_word words) i 0) ≡ get_or words i 0
unfolding reverse_word
word_at words i h =
    ap reverse_word (get_or-map reverse_word words i 0)
    ∙ reverse_word-reverse_word (get_or words i 0) h

module _ (n : ℕ) (start : ℕ → ℕ) (last : ℕ) (words : List ℕ) (paired : IsPaired n start last words)
    (ascends : (i j : ℕ) → i < j → j < n → start i ≤ start j)
    (inside : (k : ℕ) → k < n → start k ≤ last) (fits : last < 2147483648) where
  pub from_of-paired : (k : ℕ) → k < n → from_of (did_of words) k ≡ start k
  from_of-paired k h =
      let e : k * 2 ≡ 2 * k = omega arith in
      rw e (word_at words (2 * k) (omega (arith, paired.1 k h, inside k h)) ∙ paired.1 k h)

  pub to_of-paired : (k : ℕ) → k + 1 < n → to_of (did_of words) k ≡ start (k + 1)
  to_of-paired k h =
      let e : k * 2 + 1 ≡ 2 * k + 1 = omega arith in
      let w = paired.2 k h in
      rw e (word_at words (2 * k + 1) (omega (arith, w, inside (k + 1) h)) ∙ w)

  pub to_of-last : (k : ℕ) → k + 1 ≡ n → to_of (did_of words) k ≡ last
  to_of-last k h =
      let e : k * 2 + 1 ≡ 2 * n - 1 = omega arith in
      rw e (word_at words (2 * n - 1) (omega (arith, paired.3)) ∙ paired.3)

  start_mono : (i j : ℕ) → i ≤ j → j < n → start i ≤ start j
  start_mono i j h b = elim (ℕ_discrete i j) [
    | yes e ↦ rw e (omega arith)
    | no ne ↦ ascends i j (omega arith) b
  ]

  count_paired : length words / 2 ≡ n
  count_paired = omega (arith, paired.0)

  -- Each word is the start or the end of a document.
  paired-small :
      (i : ℕ) → i < length words → reverse_word (get_or (map reverse_word words) i 0) < 2147483648
  paired-small i h =
      let k = i / 2 in
      let b : k < n = omega (arith, paired.0) in
      elim (ℕ_discrete (k * 2) i) [
        | yes start_word ↦ rw (← start_word) (omega (arith, from_of-paired k b, inside k b))
        | no ne ↦
            let end_word : k * 2 + 1 ≡ i = omega arith in
            elim (dec_lt (k + 1) n) [
              | yes more ↦ rw (← end_word) (omega (arith, to_of-paired k more, inside (k + 1) more))
              | no end ↦ rw (← end_word) (omega (arith, to_of-last k (omega arith)))
            ]
      ]

  pub paired-IsRegions : IsRegions (did_of words)
  paired-IsRegions = record {
    is_int = paired-small;
    has_docid = omega (arith, length-map reverse_word words);
    apart = λ i j h b.
        let c : j < n = omega (arith, count_paired) in
        omega (
          arith,
          to_of-paired i (omega arith),
          from_of-paired j c,
          start_mono (i + 1) j (omega arith) c,
        );
    forward = λ i b.
        let c : i < n = omega (arith, count_paired) in
        elim (dec_lt (i + 1) n) [
          | yes more ↦ omega (
            arith,
            from_of-paired i c,
            to_of-paired i more,
            start_mono i (i + 1) (omega arith) more,
          )
          | no end ↦ omega (arith, from_of-paired i c, to_of-last i (omega arith), inside i c)
        ];
  }

-- The documents of a text begin at the occurrences of the tag, each ends where the next one begins,
-- and the last with the text.
pub record IsMade (ary : Sufary) (tag : List ℕ) (words : List ℕ) : Type 0 where
  pub regions : IsRegions (did_of words)
  pub count : ℕ
  pub counted : length words ≡ 2 * count
  pub some_document : 0 < count
  pub begins :
      (k : ℕ)
      → k < count
      → (i : ℕ) × (i < ary.arraysize)
        × Occurs ary 0 tag i
        × (from_of (did_of words) k ≡ entry ary i)
  pub every :
      (i : ℕ)
      → i < ary.arraysize
      → Occurs ary 0 tag i
      → (k : ℕ) × (k < count) × (from_of (did_of words) k ≡ entry ary i)
  pub next : (k : ℕ) → k + 1 < count → to_of (did_of words) k ≡ from_of (did_of words) (k + 1)
  pub last : (k : ℕ) → k + 1 ≡ count → to_of (did_of words) k ≡ ary.textsize
