-- ===== src/Region/Lines.antt =====
-- `sa_seek_bol` and `sa_seek_eol` of lib/region.c find the ends of a line.
use sufary.Base.{
  ℕ, zero, suc, ◌+◌, ◌-◌, ◌≤◌, ◌<◌, ◌≡◌, ◌≢◌, refl, ◌⊎◌, inl, inr, List, length, get_or,
  get_elem?-eq-get_or, leb, ltb, lt→ltb, true, false, ◌==◌, Bool-cases, arith,
}
use native.Mathlib.Decide.{dec_lt, ℕ_discrete}
use sufary.Base.Run.{Ends}
use sufary.Region.{newline, bol_loop, eol_loop, sa_seek_bol, sa_seek_eol}

module _ (text : List ℕ) where
  -- no line ends between `a` and `b`
  abbrev pub NoNewline : ℕ → ℕ → Type 0
  NoNewline a b = (j : ℕ) → a ≤ j → j < b → get_or text j 0 ≢ newline

  -- `b` is where the line of `pos` begins, not before `bof`.
  pub record IsLineStart (bof pos b : ℕ) : Type 0 where
    pub bof_le : bof ≤ b
    pub le_pos : b ≤ pos
    pub clear : NoNewline b pos
    pub starts : (b ≡ bof) ⊎ ((0 < b) × (get_or text (b - 1) 0 ≡ newline))

  -- `e` is behind the line end that follows `pos`, or `eof`.
  pub record IsLineEnd (pos eof e : ℕ) : Type 0 where
    pub pos_le : pos ≤ e
    pub le_eof : e ≤ eof
    pub clear : NoNewline pos (e - 1)
    pub ends : (e ≡ eof) ⊎ ((pos < e) × (get_or text (e - 1) 0 ≡ newline))

  bol_loop-IsLineStart :
      (pos bof : ℕ)
      → bof ≤ pos
      → pos ≤ length text
      → Ends (bol_loop text pos bof) (IsLineStart bof pos)
  unfolding bol_loop
  bol_loop-IsLineStart zero bof h b = (
    bof,
    refl,
    record { bof_le = omega arith; le_pos = h; clear = λ j p q. elim q [ ]; starts = inl refl },
  )
  bol_loop-IsLineStart (suc pos) bof h b = elim (dec_lt bof (suc pos)) [
    | no at_start ↦
        let same : bof ≡ suc pos = omega arith in
        let stop : ltb bof (suc pos) ≡ false = ground arith in
        rw stop (
          bof,
          refl,
          record {
            bof_le = omega arith;
            le_pos = h;
            clear = λ j p q. absurd (omega arith);
            starts = inl refl;
          },
        )
    | yes inside ↦
        rw (lt→ltb bof (suc pos) inside, get_elem?-eq-get_or text pos 0 (omega arith))
          (elim (Bool-cases (get_or text pos 0 == newline)) [
            | inl found ↦ rw found (
              pos + 1,
              refl,
              record {
                bof_le = omega arith;
                le_pos = omega arith;
                clear = λ j p q. absurd (omega arith);
                starts =
                    inr (
                      omega arith,
                      (let e : pos + 1 - 1 ≡ pos = omega arith in rw e (ground arith)),
                    );
              },
            )
            | inr other ↦
                let (e, ran, is_start) = bol_loop-IsLineStart pos bof (omega arith) (omega arith) in
                rw other (
                  rw ran (
                    e,
                    refl,
                    record {
                      bof_le = is_start.bof_le;
                      le_pos = omega (arith, is_start.le_pos);
                      clear = λ j p q. elim (ℕ_discrete j pos) [
                        | yes same ↦ rw same (ground arith)
                        | no ne ↦ is_start.clear j p (omega arith)
                      ];
                      starts = is_start.starts;
                    },
                  ))
          ])
  ]

  -- From a position of the text that is not before `bof`, `sa_seek_bol` ends, and returns where the
  -- line of the position begins, or `bof` if no line begins in between.
  pub sa_seek_bol-IsLineStart :
      (pos bof : ℕ)
      → bof ≤ pos
      → pos ≤ length text
      → Ends (sa_seek_bol text pos bof) (IsLineStart bof pos)
  unfolding sa_seek_bol
  sa_seek_bol-IsLineStart pos bof h b =
      let in_order : leb bof pos ≡ true = ground arith in
      rw in_order (bol_loop-IsLineStart pos bof h b)

  eol_loop-IsLineEnd :
      (n pos eof : ℕ)
      → pos + n ≡ eof
      → eof ≤ length text
      → Ends (eol_loop text n pos eof) (IsLineEnd pos eof)
  unfolding eol_loop
  eol_loop-IsLineEnd zero pos eof h b = (
    eof,
    refl,
    record {
      pos_le = omega arith;
      le_eof = omega arith;
      clear = λ j p q. absurd (omega arith);
      ends = inl refl;
    },
  )
  eol_loop-IsLineEnd (suc n) pos eof h b =
      rw (get_elem?-eq-get_or text pos 0 (omega arith))
        (elim (Bool-cases (get_or text pos 0 == newline)) [
          | inl found ↦ rw found (
            pos + 1,
            refl,
            record {
              pos_le = omega arith;
              le_eof = omega arith;
              clear = λ j p q. absurd (omega arith);
              ends =
                  inr
                    (omega arith, (let e : pos + 1 - 1 ≡ pos = omega arith in rw e (ground arith)));
            },
          )
          | inr other ↦
              let (e, ran, is_end) = eol_loop-IsLineEnd n (pos + 1) eof (omega arith) b in
              rw other (
                e,
                ran,
                record {
                  pos_le = omega (arith, is_end.pos_le);
                  le_eof = is_end.le_eof;
                  clear = λ j p q. elim (ℕ_discrete j pos) [
                    | yes same ↦ rw same (ground arith)
                    | no ne ↦ is_end.clear j (omega arith) q
                  ];
                  ends = elim is_end.ends [
                    | inl last ↦ inl last
                    | inr (p, q) ↦ inr (omega arith, q)
                  ];
                },
              )
        ])

  -- From a position that is not behind `eof`, in a text that goes on to `eof`, `sa_seek_eol` ends,
  -- and returns the position behind the next line end, or `eof` if there is none.
  pub sa_seek_eol-IsLineEnd :
      (pos eof : ℕ)
      → pos ≤ eof
      → eof ≤ length text
      → Ends (sa_seek_eol text pos eof) (IsLineEnd pos eof)
  unfolding sa_seek_eol
  sa_seek_eol-IsLineEnd pos eof h b =
      let in_order : leb pos eof ≡ true = ground arith in
      rw in_order (eol_loop-IsLineEnd (eof - pos) pos eof (omega arith) b)
