-- ===== src/Tests/RegionTests.antt =====
-- lib/region.c on the text "ab\n\nc\nd", and on "a<b>c</b>".
use sufary.Base.{ℕ, ◌<◌, ◌≡◌, refl, ◌⊎◌, [], ◌∷◌, ◌+◌, ◌-◌, arith, List}
use sufary.Base.Run.{Ends, done}
use sufary.File.{Sufary}
use sufary.Region.{
  sa_seek_bol, sa_seek_eol, sa_seek_context_lines, sa_seek_context_region, forward_loop,
  sa_seek_pattern_backward, sa_seek_pattern_forward,
}
use sufary.Region.Lines.{IsLineStart, IsLineEnd, sa_seek_bol-IsLineStart, sa_seek_eol-IsLineEnd}
use sufary.Region.Newlines.{newlines}
use sufary.Region.ContextLines.{
  IsContext, sa_seek_context_lines-IsContext, forward_loop_skips_empty,
}
use sufary.Region.Pattern.{
  IsLast, IsFirst, IsTagged, sa_seek_pattern_backward-IsLast, sa_seek_pattern_forward-IsFirst,
  sa_seek_context_region-IsTagged,
}

abbrev four_lines : Sufary
four_lines = record {
  text = 97 ∷ 98 ∷ 10 ∷ 10 ∷ 99 ∷ 10 ∷ 100 ∷ 0 ∷ [];
  array = [];
  textsize = 7;
  arraysize = 0;
}

abbrev tagged : Sufary
tagged = record {
  text = 97 ∷ 60 ∷ 98 ∷ 62 ∷ 99 ∷ 60 ∷ 47 ∷ 98 ∷ 62 ∷ 0 ∷ [];
  array = [];
  textsize = 9;
  arraysize = 0;
}

abbrev open_tag : List ℕ
open_tag = 60 ∷ 98 ∷ 62 ∷ []

abbrev close_tag : List ℕ
close_tag = 60 ∷ 47 ∷ 98 ∷ 62 ∷ []

sa_seek_bol-IsLineStart_example :
    Ends (sa_seek_bol four_lines.text 5 0) (IsLineStart four_lines.text 0 5)
sa_seek_bol-IsLineStart_example =
    sa_seek_bol-IsLineStart four_lines.text 5 0 (omega arith) (omega arith)

sa_seek_eol-IsLineEnd_example :
    Ends (sa_seek_eol four_lines.text 0 7) (IsLineEnd four_lines.text 0 7)
sa_seek_eol-IsLineEnd_example =
    sa_seek_eol-IsLineEnd four_lines.text 0 7 (omega arith) (omega arith)

-- The first line with one more line after it: the empty line and the one behind it are taken.
context_of_first : sa_seek_context_lines four_lines 0 0 1 ≡ done (record { ptr = 0; len = 6 })
unfolding sa_seek_context_lines
context_of_first = refl

sa_seek_context_lines-IsContext_example :
    Ends (sa_seek_context_lines four_lines 4 1 1) (IsContext four_lines 4 1 1)
sa_seek_context_lines-IsContext_example =
    sa_seek_context_lines-IsContext four_lines 4 1 1 (omega arith) (omega arith)

forward_loop_skips_empty_example :
    Ends
      (forward_loop four_lines.text 1 7 3)
      (λ t. (3 + 1 < t) × ((newlines four_lines.text 3 (t - 3) ≡ 2) ⊎ (t ≡ 7)))
forward_loop_skips_empty_example =
    forward_loop_skips_empty four_lines.text 3 7 (omega arith) (omega arith) refl

region_of_tags :
    sa_seek_context_region tagged 4 open_tag close_tag ≡ done (record { ptr = 1; len = 8 })
unfolding sa_seek_context_region
region_of_tags = refl

sa_seek_pattern_backward-IsLast_example :
    Ends (sa_seek_pattern_backward tagged.text 4 0 open_tag) (IsLast tagged.text open_tag 0 4)
sa_seek_pattern_backward-IsLast_example =
    sa_seek_pattern_backward-IsLast tagged.text open_tag 4 0 (omega arith) (omega arith)

sa_seek_pattern_forward-IsFirst_example :
    Ends (sa_seek_pattern_forward tagged.text 4 9 close_tag) (IsFirst tagged.text close_tag 4 9)
sa_seek_pattern_forward-IsFirst_example =
    sa_seek_pattern_forward-IsFirst tagged.text close_tag 4 9 (omega arith) (omega arith)

sa_seek_context_region-IsTagged_example :
    Ends (sa_seek_context_region tagged 4 open_tag close_tag) (IsTagged tagged 4 open_tag close_tag)
sa_seek_context_region-IsTagged_example =
    sa_seek_context_region-IsTagged tagged 4 open_tag close_tag (omega arith) (omega arith)
      (omega arith)
