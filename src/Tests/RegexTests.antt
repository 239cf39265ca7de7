-- ===== src/Tests/RegexTests.antt =====
-- lib/regex.c on the index of "aba", whose suffixes in order start at 2, 0 and 1.
use sufary.Base.{
  ℕ, ◌≤◌, ◌<◌, ◌≡◌, ◌≢◌, refl, [], ◌∷◌, true, false, none, ◌↔◌, get_or, get_or-All, arith,
}
use sufary.Base.{Bool, Bool-cases, inl, inr, ◌&&◌, ◌-◌, leb, length, if◌then◌else◌}
use sufary.ArticleFinder.{string_at}
use sufary.Regex.IgnoreCase.{sa_expand_ignore_case}
use sufary.Regex.Expand.{sa_expand_ignore_case-expanded}
use sufary.Base.Run.{done, stop, out_of_fuel, exit_failure, Ends}
use sufary.File.{sa_aryidx2txtidx}
use sufary.Util.{reverse_word}
use sufary.Regex.Sub.{sa_regex, SaResult}
use sufary.Regex.Results.{Listed, result_at}
use sufary.Regex.Pattern.{char, any, Pattern, Matches}
use sufary.Regex.Exact.{sa_regex-Adds}
use sufary.Regex.Halting.{sa_regex-ne-out_of_fuel}
use sufary.Tests.SearchTests.{aba, aba-IsOpened, aba-IsOrdered}

-- ".b"
regex_dot :
    sa_regex aba (λ s. none) 0 0 2 (46 ∷ 98 ∷ 0 ∷ []) 2 ≡ done (record { value = 0; len = 2 } ∷ [])
unfolding sa_regex reverse_word sa_aryidx2txtidx
regex_dot = refl

-- "[ab]a?"
regex_class :
    sa_regex aba (λ s. none) 0 0 2 (91 ∷ 97 ∷ 98 ∷ 93 ∷ 97 ∷ 63 ∷ 0 ∷ []) 6
    ≡ done (
        record { value = 2; len = 1 }
        ∷ record { value = 0; len = 1 }
        ∷ record { value = 1; len = 2 }
        ∷ record { value = 1; len = 1 }
        ∷ [])
unfolding sa_regex reverse_word sa_aryidx2txtidx
regex_class = refl

-- "(ab|b)a"
regex_alternation :
    sa_regex aba (λ s. none) 0 0 2 (40 ∷ 97 ∷ 98 ∷ 124 ∷ 98 ∷ 41 ∷ 97 ∷ 0 ∷ []) 7
    ≡ done (record { value = 0; len = 3 } ∷ record { value = 1; len = 2 } ∷ [])
unfolding sa_regex reverse_word sa_aryidx2txtidx
regex_alternation = refl

-- "a.?"
abbrev a_and_more : Pattern
a_and_more = (char 97, false) ∷ (any, true) ∷ []

aba-ascii : (p : ℕ) → get_or aba.text p 0 < 128
aba-ascii p = get_or-All (λ b. b < 128) aba.text p 0 (omega arith) (omega arith)

sa_regex-Adds_example : Ends (sa_regex aba (λ s. none) 0 0 2 (97 ∷ 46 ∷ 63 ∷ 0 ∷ []) 3) (λ out.
    (x : SaResult)
    → Listed x out ↔ (
        (i : ℕ) × (0 ≤ i)
        × (i ≤ 2)
        × ((n : ℕ) × (x ≡ result_at aba i n) × Matches aba a_and_more 0 i n)))
sa_regex-Adds_example =
    sa_regex-Adds aba aba-IsOpened aba-ascii (λ s. none) 0 a_and_more 0 2
      (
        (
          omega arith,
          omega arith,
          (λ e. omega arith),
          (λ e. omega arith),
          (λ e. omega arith),
          (λ e. omega arith),
          (λ e. omega arith),
        ),
        tt,
      )
      (omega arith) (omega arith) aba-IsOrdered

abbrev is_small : ℕ → Bool
is_small c = leb 97 c && leb c 122

abbrev capital : ℕ → ℕ
capital c = if is_small c then c - 32 else c

capital_positive : (c : ℕ) → 0 < c → 0 < capital c
capital_positive c h = elim (Bool-cases (leb 97 c)) [
  | inr low ↦ rw low h
  | inl high ↦ elim (Bool-cases (leb c 122)) [
    | inl at ↦ rw (high, at) (ground arith)
    | inr past ↦ rw (high, past) h
  ]
]

read_back : string_at (97 ∷ 63 ∷ 0 ∷ []) ≡ done (97 ∷ 63 ∷ [])
unfolding string_at
read_back = refl

-- "a?"
sa_expand_ignore_case-expanded_example :
    Ends
      (sa_expand_ignore_case is_small
        (λ c. c)
        capital
        (1 ∷ 1 ∷ 1 ∷ 1 ∷ 1 ∷ 1 ∷ 1 ∷ 1 ∷ 1 ∷ [])
        (97 ∷ 63 ∷ 0 ∷ []))
      (λ result. (length result ≡ 9) × (string_at result ≡ done (91 ∷ 97 ∷ 65 ∷ 93 ∷ 92 ∷ 63 ∷ [])))
sa_expand_ignore_case-expanded_example =
    sa_expand_ignore_case-expanded is_small (λ c. c) capital (λ c h. h) capital_positive
      (97 ∷ 63 ∷ 0 ∷ []) (97 ∷ 63 ∷ []) (1 ∷ 1 ∷ 1 ∷ 1 ∷ 1 ∷ 1 ∷ 1 ∷ 1 ∷ 1 ∷ []) read_back
      (omega arith, (omega arith, tt)) refl

-- "(a", which has no end, ends the program.
regex_unclosed : sa_regex aba (λ s. none) 0 0 2 (40 ∷ 97 ∷ 0 ∷ []) 2 ≡ stop exit_failure
unfolding sa_regex reverse_word sa_aryidx2txtidx
regex_unclosed = refl

sa_regex-ne-out_of_fuel_example :
    sa_regex aba (λ s. none) 0 2 0 (91 ∷ 97 ∷ 63 ∷ 42 ∷ 0 ∷ []) 4 ≢ stop out_of_fuel
sa_regex-ne-out_of_fuel_example =
    sa_regex-ne-out_of_fuel aba (λ s. none) 0 2 0 (91 ∷ 97 ∷ 63 ∷ 42 ∷ 0 ∷ []) 4
