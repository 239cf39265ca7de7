-- ===== src/Region/ContextLines.antt =====
-- `sa_seek_context_lines` of lib/region.c as a whole.
use sufary.Base.{
  ℕ, ◌+◌, ◌-◌, ◌*◌, ◌≤◌, ◌<◌, ◌≡◌, refl, ◌⊎◌, inl, inr, List, length, get_or, lt→ltb, arith,
}
use native.Mathlib.Decide.{dec_lt}
use sufary.Base.Run.{Ends}
use sufary.File.{Sufary}
use sufary.Region.{SaString, newline, sa_seek_context_lines, string_between, forward_loop}
use sufary.Region.Lines.{IsLineStart, IsLineEnd, sa_seek_bol-IsLineStart, sa_seek_eol-IsLineEnd}
use sufary.Region.Newlines.{
  newlines, newlines-split, newlines-clear, newlines-at, newlines-line, newlines-line_le,
}
use sufary.Region.Context.{Before, After, backward_loop-Before, forward_loop-After}

-- Whole lines around `pos`, up to `stop`: `bkwrd` line ends before it, or all there are, and
-- `frwrd + 1` behind it, or all there are, with at most one more for each line after.
pub record IsContext (ary : Sufary) (pos bkwrd frwrd : ℕ) (str : SaString) : Type 0 where
  pub stop : ℕ
  pub stops : str.ptr + str.len ≡ stop
  pub ptr_le : str.ptr ≤ pos
  pub pos_le : pos ≤ stop
  pub inside : stop ≤ ary.textsize
  pub head : (str.ptr ≡ 0) ⊎ ((0 < str.ptr) × (get_or ary.text (str.ptr - 1) 0 ≡ newline))
  pub tail : (stop ≡ ary.textsize) ⊎ ((0 < stop) × (get_or ary.text (stop - 1) 0 ≡ newline))
  pub lines_before : newlines ary.text str.ptr (pos - str.ptr) ≤ bkwrd
  pub all_before : (newlines ary.text str.ptr (pos - str.ptr) ≡ bkwrd) ⊎ (str.ptr ≡ 0)
  pub lines_after : newlines ary.text pos (stop - pos) ≤ 2 * frwrd + 1
  pub all_after : (frwrd + 1 ≤ newlines ary.text pos (stop - pos)) ⊎ (stop ≡ ary.textsize)

module _ (ary : Sufary) (pos bkwrd frwrd : ℕ) (fits : ary.textsize ≤ length ary.text)
    (pos_in : pos ≤ ary.textsize) where
  -- The line end behind the beginning of the line of `pos` lies behind `pos`.
  pos-le_end :
      (h e : ℕ) → IsLineStart ary.text 0 pos h → IsLineEnd ary.text h ary.textsize e → pos ≤ e
  pos-le_end h e start end = elim end.ends [
    | inl last ↦ omega arith
    | inr (p, q) ↦ elim (dec_lt (e - 1) pos) [
      | no out ↦ omega arith
      | yes early ↦ absurd (start.clear (e - 1) (omega arith) early q)
    ]
  ]

  collect :
      (h e a t : ℕ)
      → IsLineStart ary.text 0 pos h
      → IsLineEnd ary.text h ary.textsize e
      → Before ary.text bkwrd 0 h a
      → After ary.text frwrd ary.textsize e t
      → IsContext ary pos bkwrd frwrd (string_between a t)
  collect h e a t start end before after =
      let past = pos-le_end h e start end in
      let whole : a + (t - a) ≡ t = omega (arith, before.le_head, start.le_pos, after.tail_le) in
      let none_before =
        newlines-clear ary.text (pos - h) h pos (omega (arith, start.le_pos)) start.clear in
      let up_to_pos = newlines-split ary.text a h pos before.le_head start.le_pos in
      let own = newlines-split ary.text h pos e start.le_pos past in
      let on = newlines-split ary.text pos e t past after.tail_le in
      record {
        stop = t;
        stops = whole;
        ptr_le = omega (arith, before.le_head, start.le_pos);
        pos_le = omega (arith, after.tail_le);
        inside = after.le_eof;
        head = before.starts;
        tail = after.ends;
        lines_before = omega (arith, before.counted, before.lines_le);
        all_before = elim before.full [
          | inl f ↦ inl (omega (arith, before.counted))
          | inr f ↦ inr f
        ];
        lines_after =
            omega (arith, after.at_most, newlines-line_le ary.text h e end.pos_le end.clear);
        all_after = elim after.enough [
          | inr last ↦ elim end.ends [
            | inl all ↦ inr (omega (arith, after.tail_le, after.le_eof))
            | inr (p, q) ↦ inl (omega (arith, newlines-line ary.text h e p end.clear q))
          ]
          | inl last ↦ inr last
        ];
      }

  -- For a position of the text, `sa_seek_context_lines` ends, and the string that it returns is whole
  -- lines: it goes back over exactly `bkwrd` line ends, or to the beginning of the text, and on over
  -- `frwrd` + 1 to 2 * `frwrd` + 1 line ends, or to the end of the text.
  pub sa_seek_context_lines-IsContext :
      Ends (sa_seek_context_lines ary pos bkwrd frwrd) (IsContext ary pos bkwrd frwrd)
  unfolding sa_seek_context_lines
  sa_seek_context_lines-IsContext =
      let eof : 0 + ary.textsize ≡ ary.textsize = omega arith in
      let (h, ran_h, start) = sa_seek_bol-IsLineStart ary.text pos 0 (omega arith) (omega arith) in
      let (e, ran_e, end) =
        sa_seek_eol-IsLineEnd ary.text h ary.textsize (omega (arith, start.le_pos)) fits in
      let (a, ran_a, before) =
        backward_loop-Before ary.text bkwrd 0 h (omega arith) (omega (arith, start.le_pos))
          start.starts in
      let (t, ran_t, after) =
        forward_loop-After ary.text frwrd ary.textsize e end.le_eof fits
          (elim end.ends [ inl q ↦ inl q | inr (p, q) ↦ inr (omega arith, q) ]) in
      rw eof (
        rw ran_h (
          rw ran_e (
            rw ran_a
              (rw ran_t (string_between a t, refl, collect h e a t start end before after)))))

-- Where a line that begins at `tail` is empty and the text goes on behind it, one round of the loop
-- takes more than that line: it ends behind the second line end, or at the end of the text.
pub forward_loop_skips_empty :
    (text : List ℕ) (tail eof : ℕ)
    → tail + 1 < eof
    → eof ≤ length text
    → get_or text tail 0 ≡ newline
    → Ends
        (forward_loop text 1 eof tail)
        (λ t. (tail + 1 < t) × ((newlines text tail (t - tail) ≡ 2) ⊎ (t ≡ eof)))
unfolding forward_loop
forward_loop_skips_empty text tail eof h b at =
    let (e, ran, end) = sa_seek_eol-IsLineEnd text (tail + 1) eof (omega arith) b in
    let split = newlines-split text tail (tail + 1) e (omega arith) end.pos_le in
    let one : tail + 1 - tail ≡ 1 = omega arith in
    rw (lt→ltb tail eof (omega arith)) (
      rw ran (
        e,
        refl,
        elim end.ends [
          | inl last ↦ (omega arith, inr last)
          | inr (p, q) ↦ (
            p,
            inl (
                omega (
                  arith,
                  rw one at split,
                  newlines-at text tail at,
                  newlines-line text (tail + 1) e p end.clear q,
                )),
          )
        ],
      ))
