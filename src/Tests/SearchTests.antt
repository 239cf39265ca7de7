-- ===== src/Tests/SearchTests.antt =====
-- lib/search.c and `sa_is_sorted` on the text "aba", whose suffixes in order start at 2, 0 and 1.
use sufary.Base.{
  ℕ, zero, suc, ◌≤◌, ◌<◌, ◌≡◌, refl, ◌⊎◌, inl, inr, [], ◌∷◌, arith, get_or, get_or-All,
}
use sufary.Base.{◌/◌, ◌+◌}
use sufary.Base.Run.{Ends, done}
use sufary.File.{Sufary, sa_aryidx2txtptr, sa_get_text_size, sa_get_array_size}
use sufary.Util.{reverse_word, sa_reverse_byte_order}
use sufary.Base.Int.{pos}
use sufary.Search.{success, sa_find, cmp_sistr, midpoint}
use sufary.Search.Compare.{Compares, char_at, key_at, cmp_sistr-Compares}
use sufary.Search.Midpoint.{midpoint_exact}
use sufary.Util.Reversed.{IsReversed, sa_reverse_byte_order-IsReversed}
use sufary.MakeIndex.Strcmp.{Sign, tail_of, sa_strcmp-Sign}
use sufary.Search.Round.{entry}
use sufary.Search.Suffix.{IsOpened, IsOrdered}
use sufary.Search.Find.{Finds, sa_find-Finds}
use sufary.MakeIndex.{sa_is_sorted, sa_strcmp}
use sufary.MakeIndex.IsSorted.{Distinct, sa_is_sorted-IsOrdered}

abbrev pub aba : Sufary
aba = record {
  text = 97 ∷ 98 ∷ 97 ∷ 0 ∷ 0 ∷ 0 ∷ 0 ∷ 0 ∷ [];
  array = 33554432 ∷ 0 ∷ 16777216 ∷ [];
  textsize = 3;
  arraysize = 3;
}

aba-entries : (entry aba 0 ≡ 2) × (entry aba 1 ≡ 0) × (entry aba 2 ≡ 1)
unfolding reverse_word
aba-entries = (refl, refl, refl)

aba-padding : (p : ℕ) → 3 ≤ p → get_or aba.text p 0 ≡ 0
aba-padding (suc (suc (suc p))) h =
    get_or-All (λ b. b ≡ 0) (0 ∷ 0 ∷ 0 ∷ 0 ∷ 0 ∷ []) p 0 (omega arith) refl
aba-padding zero h = absurd (omega arith)
aba-padding (suc zero) h = absurd (omega arith)
aba-padding (suc (suc zero)) h = absurd (omega arith)

aba-is_position : (i : ℕ) → i < 3 → entry aba i < 3
aba-is_position zero h = omega (arith, aba-entries.0)
aba-is_position (suc zero) h = omega (arith, aba-entries.1)
aba-is_position (suc (suc zero)) h = omega (arith, aba-entries.2)
aba-is_position (suc (suc (suc i))) h = absurd (omega arith)

pub aba-IsOpened : IsOpened aba
aba-IsOpened = record {
  ends_inside = omega arith;
  is_byte = λ p. get_or-All (λ b. b < 256) aba.text p 0 (omega arith) (omega arith);
  padding = aba-padding;
  has_array = omega arith;
  is_position = aba-is_position;
}

aba-Distinct : Distinct aba
aba-Distinct zero h = omega (arith, aba-entries.0, aba-entries.1)
aba-Distinct (suc zero) h = omega (arith, aba-entries.1, aba-entries.2)
aba-Distinct (suc (suc j)) h = absurd (omega arith)

aba-sorted : sa_is_sorted aba ≡ done 1
unfolding sa_is_sorted sa_strcmp reverse_word sa_aryidx2txtptr sa_get_text_size sa_get_array_size
aba-sorted = refl

sa_is_sorted-IsOrdered_example :
    Ends
      (sa_is_sorted aba)
      (λ r. ((r ≡ 1) × IsOrdered aba 0 0 2) ⊎ ((r ≡ 0) × ¬ IsOrdered aba 0 0 2))
sa_is_sorted-IsOrdered_example = sa_is_sorted-IsOrdered aba aba-IsOpened aba-Distinct (omega arith)

IsOrdered-of_check :
    Ends
      (sa_is_sorted aba)
      (λ r. ((r ≡ 1) × IsOrdered aba 0 0 2) ⊎ ((r ≡ 0) × ¬ IsOrdered aba 0 0 2))
    → IsOrdered aba 0 0 2
IsOrdered-of_check (r, ran, inl (e, ordered)) = ordered
IsOrdered-of_check (r, ran, inr (e, _)) = absurd (ground (arith, aba-sorted))

pub aba-IsOrdered : IsOrdered aba 0 0 2
aba-IsOrdered = IsOrdered-of_check sa_is_sorted-IsOrdered_example

-- "a" is found at entries 0 and 1.
find_a : sa_find aba 0 2 (97 ∷ []) 0 ≡ done (record { left = 0; right = 1; stat = success })
unfolding sa_find reverse_word
find_a = refl

sa_find-Finds_example : Ends (sa_find aba 0 2 (97 ∷ []) 0) (Finds aba 0 2 (97 ∷ []) 0)
sa_find-Finds_example =
    sa_find-Finds aba 0 2 0 (97 ∷ []) aba-IsOpened aba-IsOrdered (omega arith) (omega arith)
      (omega arith) (omega arith)

-- "aba" is compared with "b": the first characters differ.
cmp_sistr-Compares_example :
    Ends
      (cmp_sistr aba.text 0 (pos 98 ∷ []) 1)
      (Compares 1 (char_at aba.text 0) (key_at (pos 98 ∷ [])) 0)
cmp_sistr-Compares_example =
    cmp_sistr-Compares aba.text 0 (pos 98 ∷ []) 1 (omega arith) (λ j h a. omega arith)

sa_strcmp-Sign_example :
    Ends (sa_strcmp aba.text 3 0 1) (Sign (tail_of aba.text 3 0) (tail_of aba.text 3 1))
sa_strcmp-Sign_example =
    sa_strcmp-Sign aba.text 3 (omega arith) 0 1 (omega arith) (omega arith) (omega arith)

midpoint_exact_example : midpoint 7 9 ≡ (7 + 9) / 2
midpoint_exact_example = midpoint_exact 7 9

-- Three of five bytes.
sa_reverse_byte_order-IsReversed_example :
    IsReversed (1 ∷ 2 ∷ 3 ∷ 4 ∷ 5 ∷ []) 3 (sa_reverse_byte_order (1 ∷ 2 ∷ 3 ∷ 4 ∷ 5 ∷ []) 3)
sa_reverse_byte_order-IsReversed_example =
    sa_reverse_byte_order-IsReversed (1 ∷ 2 ∷ 3 ∷ 4 ∷ 5 ∷ []) 3 (omega arith)
