-- ===== src/Region/Context.antt =====
-- `sa_seek_context_lines` of lib/region.c: the line of a position, with lines before and after it.
use sufary.Base.{
  ℕ, zero, suc, ◌+◌, ◌-◌, ◌*◌, ◌≤◌, ◌<◌, ◌≡◌, refl, ◌⊎◌, inl, inr, List, length, get_or, ltb,
  lt→ltb, false, arith,
}
use native.Mathlib.Decide.{dec_lt}
use sufary.Base.Run.{Ends}
use sufary.Region.{newline, backward_loop, forward_loop}
use sufary.Region.Lines.{IsLineEnd, sa_seek_bol-IsLineStart, sa_seek_eol-IsLineEnd}
use sufary.Region.Newlines.{
  newlines, newlines-split, newlines-one, newlines-line, newlines-line_le, IsStart,
}

module _ (text : List ℕ) where
  -- What the first loop finds, `n` lines before `head`.
  pub record Before (bkwrd bof head h : ℕ) : Type 0 where
    pub lines : ℕ
    pub bof_le : bof ≤ h
    pub le_head : h ≤ head
    pub starts : IsStart text bof h
    pub counted : newlines text h (head - h) ≡ lines
    pub lines_le : lines ≤ bkwrd
    pub full : (lines ≡ bkwrd) ⊎ (h ≡ bof)

  pub backward_loop-Before :
      (bkwrd bof head : ℕ)
      → bof ≤ head
      → head ≤ length text
      → IsStart text bof head
      → Ends (backward_loop text bkwrd bof head) (Before bkwrd bof head)
  unfolding backward_loop
  backward_loop-Before zero bof head h b s = (
    head,
    refl,
    record {
      lines = 0;
      bof_le = h;
      le_head = omega arith;
      starts = s;
      counted = let e : head - head ≡ 0 = omega arith in rw e (unfold newlines in refl);
      lines_le = omega arith;
      full = inl refl;
    },
  )
  backward_loop-Before (suc n) bof head h b s = elim (dec_lt bof head) [
    | no at_start ↦
        let stop : ltb bof head ≡ false = ground arith in
        rw stop (
          head,
          refl,
          record {
            lines = 0;
            bof_le = h;
            le_head = omega arith;
            starts = s;
            counted = let e : head - head ≡ 0 = omega arith in rw e (unfold newlines in refl);
            lines_le = omega arith;
            full = inr (omega arith);
          },
        )
    | yes inside ↦
        let (e, ran, is_start) =
          sa_seek_bol-IsLineStart text (head - 1) bof (omega arith) (omega arith) in
        let (r, ran', before) =
          backward_loop-Before n bof e is_start.bof_le (omega (arith, is_start.le_pos))
            is_start.starts in
        rw (lt→ltb bof head inside) (
          rw ran (
            rw ran' (
              r,
              refl,
              record {
                lines = suc before.lines;
                bof_le = before.bof_le;
                le_head = omega (arith, before.le_head, is_start.le_pos);
                starts = before.starts;
                counted = omega (
                  arith,
                  newlines-split text r e head before.le_head (omega (arith, is_start.le_pos)),
                  before.counted,
                  newlines-line text e head (omega (arith, is_start.le_pos)) is_start.clear
                      (elim s [ inl q ↦ absurd (omega arith) | inr q ↦ q.1 ]),
                );
                lines_le = omega (arith, before.lines_le);
                full = elim before.full [ inl f ↦ inl (omega arith) | inr f ↦ inr f ];
              },
            )))
  ]

  -- What the second loop finds. It looks for the next line end from `tail + 1` on, so each round
  -- passes one line end, or two where the byte at `tail` is one.
  pub record After (frwrd eof tail t : ℕ) : Type 0 where
    pub tail_le : tail ≤ t
    pub le_eof : t ≤ eof
    pub ends : (t ≡ eof) ⊎ ((0 < t) × (get_or text (t - 1) 0 ≡ newline))
    pub enough : (t ≡ eof) ⊎ (frwrd ≤ newlines text tail (t - tail))
    pub at_most : newlines text tail (t - tail) ≤ 2 * frwrd

  nothing : (a : ℕ) → newlines text a (a - a) ≡ 0
  unfolding newlines
  nothing a = let e : a - a ≡ 0 = omega arith in rw e

  round_lines :
      (eof tail e : ℕ)
      → IsLineEnd text (tail + 1) eof e
      → (newlines text tail (e - tail) ≤ 2) × ((e ≡ eof) ⊎ (1 ≤ newlines text tail (e - tail)))
  round_lines eof tail e is_end =
      let s = newlines-split text tail (tail + 1) e (omega arith) is_end.pos_le in
      let one : tail + 1 - tail ≡ 1 = omega arith in
      (
        omega (
          arith,
          rw one at s,
          newlines-one text tail,
          newlines-line_le text (tail + 1) e is_end.pos_le is_end.clear,
        ),
        elim is_end.ends [
          | inl last ↦ inl last
          | inr (p, q) ↦ inr (omega (arith, s, newlines-line text (tail + 1) e p is_end.clear q))
        ],
      )

  pub forward_loop-After :
      (frwrd eof tail : ℕ)
      → tail ≤ eof
      → eof ≤ length text
      → (tail ≡ eof) ⊎ ((0 < tail) × (get_or text (tail - 1) 0 ≡ newline))
      → Ends (forward_loop text frwrd eof tail) (After frwrd eof tail)
  unfolding forward_loop
  forward_loop-After zero eof tail h b s = (
    tail,
    refl,
    record {
      tail_le = omega arith;
      le_eof = h;
      ends = s;
      enough = inr (omega arith);
      at_most = omega (arith, nothing tail);
    },
  )
  forward_loop-After (suc n) eof tail h b s = elim (dec_lt tail eof) [
    | no at_end ↦
        let stop : ltb tail eof ≡ false = ground arith in
        rw stop (
          tail,
          refl,
          record {
            tail_le = omega arith;
            le_eof = h;
            ends = s;
            enough = inl (omega arith);
            at_most = omega (arith, nothing tail);
          },
        )
    | yes inside ↦
        let (e, ran, is_end) = sa_seek_eol-IsLineEnd text (tail + 1) eof (omega arith) b in
        let end : (e ≡ eof) ⊎ ((0 < e) × (get_or text (e - 1) 0 ≡ newline)) = elim is_end.ends [
          | inl q ↦ inl q
          | inr (p, q) ↦ inr (omega arith, q)
        ] in
        let (t, ran', after) = forward_loop-After n eof e is_end.le_eof b end in
        let lines = round_lines eof tail e is_end in
        let split = newlines-split text tail e t (omega (arith, is_end.pos_le)) after.tail_le in
        rw (lt→ltb tail eof inside) (
          rw ran (
            rw ran' (
              t,
              refl,
              record {
                tail_le = omega (arith, after.tail_le, is_end.pos_le);
                le_eof = after.le_eof;
                ends = after.ends;
                enough = elim lines.1 [
                  | inl last ↦ inl (omega (arith, after.tail_le, after.le_eof))
                  | inr some_line ↦ elim after.enough [
                    | inl last ↦ inl last
                    | inr more ↦ inr (omega arith)
                  ]
                ];
                at_most = omega (arith, after.at_most);
              },
            )))
  ]
