-- ===== src/Tests/ArticleFinderTests.antt =====
-- src/af.c on the index of "aba" with the documents [0, 2) and [2, 3).
use sufary.Base.{
  ℕ, zero, suc, get_or, ◌≤◌, ◌<◌, ◌≡◌, ◌^◌, refl, List, [], ◌∷◌, true, get_or-All, arith,
}
use sufary.Base.Run.{Ends, done}
use sufary.File.{sa_aryidx2txtidx}
use sufary.Util.{reverse_word}
use sufary.Search.{success, sa_find}
use sufary.Search.Round.{entry}
use sufary.Did.{Did, sa_didsearch}
use sufary.Did.Locate.{from_of, to_of, IsRegions}
use sufary.ArticleFinder.HasKey.{HasSome, HasAll}
use sufary.ArticleFinder.Marks.{Sets, HoldsFrom, Counts, check_keyword-Sets}
use sufary.ArticleFinder.Areas.{Stored, check_last_keyword-Stored}
use sufary.ArticleFinder.SplitKeys.{wanted, unwanted}
use sufary.ArticleFinder.ParseKeys.{parse_keys-joined}
use sufary.ArticleFinder.Query.{do_kensaku-Answers}
use sufary.ArticleFinder.Wanted.{Answers, search_keys-Answers}
use sufary.ArticleFinder.{
  no_keys, parse_keys, check_keyword, check_last_keyword, search_keys, do_kensaku, found,
  in_text_areas,
}
use sufary.Tests.SearchTests.{aba, aba-IsOpened, aba-IsOrdered}

abbrev pub two_areas : Did
two_areas = record { docid = 0 ∷ 33554432 ∷ 33554432 ∷ 50331648 ∷ []; didsize = 4 }

-- "a&^b"
kensaku_unwanted :
    do_kensaku aba two_areas 7 true (97 ∷ 38 ∷ 94 ∷ 98 ∷ 0 ∷ []) (0 ∷ 0 ∷ 0 ∷ 0 ∷ [])
    ≡ done (record {
      value = 1;
      did_check = 1 ∷ 1 ∷ 0 ∷ 0 ∷ [];
      printed = found 1 ∷ [];
      areas = record { start = 2; size = 1; no = 1; stat = success } ∷ [];
    })
unfolding do_kensaku reverse_word sa_aryidx2txtidx sa_find sa_didsearch
kensaku_unwanted = refl

-- "a&b"
kensaku_both :
    do_kensaku aba two_areas 7 true (97 ∷ 38 ∷ 98 ∷ 0 ∷ []) (0 ∷ 0 ∷ 0 ∷ 0 ∷ [])
    ≡ done (record {
      value = 1;
      did_check = 1 ∷ 2 ∷ 0 ∷ 0 ∷ [];
      printed = in_text_areas (97 ∷ []) 2 ∷ found 1 ∷ [];
      areas = record { start = 0; size = 2; no = 0; stat = success } ∷ [];
    })
unfolding do_kensaku reverse_word sa_aryidx2txtidx sa_find sa_didsearch
kensaku_both = refl

area_ends :
    (from_of two_areas 0 ≡ 0)
    × (to_of two_areas 0 ≡ 2)
    × (from_of two_areas 1 ≡ 2)
    × (to_of two_areas 1 ≡ 3)
unfolding reverse_word
area_ends = (refl, refl, refl, refl)

two_areas-apart : (i j : ℕ) → i < j → j < 2 → to_of two_areas i ≤ from_of two_areas j
two_areas-apart zero (suc zero) h b = omega (arith, area_ends.1, area_ends.2)
two_areas-apart zero zero h b = absurd (omega arith)
two_areas-apart (suc i) j h b = absurd (omega arith)
two_areas-apart i (suc (suc j)) h b = absurd (omega arith)

two_areas-forward : (i : ℕ) → i < 2 → from_of two_areas i ≤ to_of two_areas i
two_areas-forward zero h = omega (arith, area_ends.0, area_ends.1)
two_areas-forward (suc zero) h = omega (arith, area_ends.2, area_ends.3)
two_areas-forward (suc (suc i)) h = absurd (omega arith)

two_areas-is_int : (i : ℕ) → i < 4 → reverse_word (get_or two_areas.docid i 0) < 2147483648
unfolding reverse_word
two_areas-is_int zero h = omega arith
two_areas-is_int (suc zero) h = omega arith
two_areas-is_int (suc (suc zero)) h = omega arith
two_areas-is_int (suc (suc (suc zero))) h = omega arith
two_areas-is_int (suc (suc (suc (suc i)))) h = absurd (omega arith)

two_areas-IsRegions : IsRegions two_areas
two_areas-IsRegions = record {
  has_docid = omega arith;
  apart = two_areas-apart;
  is_int = two_areas-is_int;
  forward = two_areas-forward;
}

abbrev unchecked : List ℕ
unchecked = 0 ∷ 0 ∷ 0 ∷ 0 ∷ []

-- "a&^b"
search_keys-Answers_example :
    Ends
      (search_keys aba two_areas 7 true
        (record { nkeys = (98 ∷ []) ∷ []; keys = (97 ∷ []) ∷ [] })
        unchecked)
      (Answers two_areas (λ i.
        (¬ HasSome aba two_areas ((98 ∷ []) ∷ []) i) × HasAll aba two_areas ((97 ∷ []) ∷ []) i))
search_keys-Answers_example =
    search_keys-Answers aba two_areas 7 aba-IsOpened aba-IsOrdered (omega arith) two_areas-IsRegions
      (omega arith) ((98 ∷ []) ∷ []) (97 ∷ []) [] unchecked (((omega arith, tt), omega arith), tt)
      ((omega arith, tt), omega arith) tt (omega arith) (omega arith)
      (λ i. get_or-All (λ b. b ≡ 0) unchecked i 0 (refl, (refl, (refl, (refl, tt)))) refl)

aba-natural : (j : ℕ) → 0 ≤ j → j ≤ 1 → entry aba j < 2147483648
aba-natural j p q = let inside = aba-IsOpened.is_position j (omega arith) in omega arith

-- "a" is at the entries 0 and 1, which both documents hold.
check_keyword-Sets_example :
    Ends
      (check_keyword aba two_areas 7
        (record { left = 0; right = 1; stat = success })
        (2 ^ 1)
        unchecked)
      (λ (num, d).
        Sets two_areas 1 (HoldsFrom two_areas aba 0 2) unchecked d
        × Counts two_areas 1 0 unchecked num d)
check_keyword-Sets_example =
    check_keyword-Sets two_areas aba 7 two_areas-IsRegions 1
      (record { left = 0; right = 1; stat = success }) unchecked (omega arith) (omega arith)
      (omega arith) aba-natural

check_last_keyword-Stored_example :
    Ends
      (check_last_keyword aba two_areas 7 true
        (record { left = 0; right = 1; stat = success })
        0
        unchecked)
      (λ (tas, c). Stored two_areas 0 unchecked (HoldsFrom two_areas aba 0 2) tas c)
check_last_keyword-Stored_example =
    check_last_keyword-Stored two_areas 0 unchecked aba 7 two_areas-IsRegions (λ e. omega arith)
      (record { left = 0; right = 1; stat = success }) (omega arith) (omega arith) (omega arith)
      aba-natural

parse_keys-joined_example :
    parse_keys (97 ∷ 38 ∷ 94 ∷ 98 ∷ 0 ∷ []) no_keys
    ≡ done (true, record { nkeys = (98 ∷ []) ∷ []; keys = (97 ∷ []) ∷ [] })
parse_keys-joined_example =
    parse_keys-joined (wanted (97 ∷ [])) (unwanted (98 ∷ []) ∷ [])
      ((λ e. omega arith), ((omega arith, λ e. omega arith), tt), omega arith)
      ((((omega arith, λ e. omega arith), tt), omega arith), tt) (omega arith)

do_kensaku-Answers_example :
    Ends (do_kensaku aba two_areas 7 true (97 ∷ 38 ∷ 94 ∷ 98 ∷ 0 ∷ []) unchecked) (
      Answers two_areas (λ i.
        (¬ HasSome aba two_areas ((98 ∷ []) ∷ []) i) × HasAll aba two_areas ((97 ∷ []) ∷ []) i))
do_kensaku-Answers_example =
    do_kensaku-Answers aba two_areas 7 aba-IsOpened aba-IsOrdered (omega arith) two_areas-IsRegions
      (omega arith) unchecked (omega arith)
      (λ i. get_or-All (λ b. b ≡ 0) unchecked i 0 (refl, (refl, (refl, (refl, tt)))) refl)
      (wanted (97 ∷ [])) (unwanted (98 ∷ []) ∷ [])
      ((λ e. omega arith), ((omega arith, λ e. omega arith), tt), omega arith)
      ((((omega arith, λ e. omega arith), tt), omega arith), tt) (omega arith) (omega arith)
      (omega arith)
