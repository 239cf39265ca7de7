-- ===== src/Region/Pattern.antt =====
-- The searches for a tag in lib/region.c: the nearest occurrence before a position, and behind it.
use sufary.Base.{
  ℕ, zero, suc, ◌+◌, ◌-◌, ◌≤◌, ◌<◌, ◌≡◌, refl, ◌⊎◌, inl, inr, List, [], ◌∷◌, length, take, drop,
  leb, ltb, lt→ltb, Bool-cases, true, false, arith,
}
use native.Mathlib.Decide.{dec_lt, ℕ_discrete}
use sufary.Base.Run.{Ends}
use sufary.File.{Sufary}
use sufary.Region.{
  SaString, bytes_at, same_bytes, matches_at, backward_pattern_loop, sa_seek_pattern_backward,
  forward_pattern_loop, sa_seek_pattern_forward, sa_seek_context_region, string_between,
}

same_bytes→eq : (xs ys : List ℕ) → same_bytes xs ys ≡ true → xs ≡ ys
unfolding same_bytes
same_bytes→eq [] [] h = refl
same_bytes→eq [] (y ∷ ys) h = ground arith
same_bytes→eq (x ∷ xs) [] h = ground arith
same_bytes→eq (x ∷ xs) (y ∷ ys) h = ground (arith, same_bytes→eq xs ys)

same_bytes_refl : (xs : List ℕ) → same_bytes xs xs ≡ true
unfolding same_bytes
same_bytes_refl [] = refl
same_bytes_refl (x ∷ xs) = ground (arith, same_bytes_refl xs)

module _ (text : List ℕ) (pattern : List ℕ) where
  -- The pattern stands at `p`.
  abbrev pub StandsAt : ℕ → Type 0
  StandsAt p = take (length pattern) (drop p text) ≡ pattern

  -- `memcmp` finds out whether it does.
  matches_at-StandsAt :
      (p : ℕ)
      → p + length pattern ≤ length text
      → Ends
          (matches_at text p pattern)
          (λ b. ((b ≡ true) × StandsAt p) ⊎ ((b ≡ false) × ¬ StandsAt p))
  unfolding matches_at bytes_at
  matches_at-StandsAt p h =
      let inside : leb (p + length pattern) (length text) ≡ true = ground arith in
      let bytes = take (length pattern) (drop p text) in
      rw inside (
        same_bytes bytes pattern,
        refl,
        elim (Bool-cases (same_bytes bytes pattern)) [
          | inl e ↦ inl (e, same_bytes→eq bytes pattern e)
          | inr e ↦ inr (e, λ q. differs bytes q e)
        ],
      )
    where
      differs : (bytes : List ℕ) → bytes ≡ pattern → same_bytes bytes pattern ≡ false → ⊥
      differs bytes q e =
          let t : same_bytes bytes pattern ≡ true = rw q (same_bytes_refl pattern) in cc

  -- The last occurrence from `bof` + 1 to `pos`, or `bof`.
  pub record IsLast (bof pos r : ℕ) : Type 0 where
    pub bof_le : bof ≤ r
    pub le_pos : r ≤ pos
    pub stands : (r ≡ bof) ⊎ StandsAt r
    pub none_after : (p : ℕ) → r < p → p ≤ pos → ¬ StandsAt p

  backward_pattern_loop-IsLast :
      (pos bof : ℕ)
      → bof ≤ pos
      → pos + length pattern ≤ length text
      → Ends (backward_pattern_loop text pos bof pattern) (IsLast bof pos)
  unfolding backward_pattern_loop
  backward_pattern_loop-IsLast zero bof h b = (
    bof,
    refl,
    record {
      bof_le = omega arith;
      le_pos = h;
      stands = inl refl;
      none_after = λ p q r. absurd (omega arith);
    },
  )
  backward_pattern_loop-IsLast (suc pos) bof h b = elim (dec_lt bof (suc pos)) [
    | no at_start ↦
        let stop : ltb bof (suc pos) ≡ false = ground arith in
        rw stop (
          bof,
          refl,
          record {
            bof_le = omega arith;
            le_pos = h;
            stands = inl refl;
            none_after = λ p q r. absurd (omega arith);
          },
        )
    | yes inside ↦
        let (found, ran, means) = matches_at-StandsAt (suc pos) b in
        rw (lt→ltb bof (suc pos) inside) (
          rw ran (elim means [
            | inl (e, here) ↦ rw e (
              suc pos,
              refl,
              record {
                bof_le = h;
                le_pos = omega arith;
                stands = inr here;
                none_after = λ p q r. absurd (omega arith);
              },
            )
            | inr (e, not_here) ↦
                let (r, ran', last) =
                  backward_pattern_loop-IsLast pos bof (omega arith) (omega arith) in
                rw e (
                  rw ran' (
                    r,
                    refl,
                    record {
                      bof_le = last.bof_le;
                      le_pos = omega (arith, last.le_pos);
                      stands = last.stands;
                      none_after = λ p q k. elim (ℕ_discrete p (suc pos)) [
                        | yes same ↦ rw same not_here
                        | no ne ↦ last.none_after p q (omega arith)
                      ];
                    },
                  ))
          ]))
  ]

  -- The end of the first occurrence from `pos` on that lies before `eof`, or `eof`.
  abbrev pub IsFirst : ℕ → ℕ → ℕ → Type 0
  IsFirst pos eof r =
      ((s : ℕ) × (pos ≤ s)
        × (r ≡ s + length pattern)
        × (r ≤ eof)
        × StandsAt s
        × ((p : ℕ) → pos ≤ p → p < s → ¬ StandsAt p))
      ⊎ ((r ≡ eof) × ((p : ℕ) → pos ≤ p → p + length pattern ≤ eof → ¬ StandsAt p))

  IsFirst-next : (pos eof r : ℕ) → ¬ StandsAt pos → IsFirst (pos + 1) eof r → IsFirst pos eof r
  IsFirst-next pos eof r not_here (inl (s, a, b, c, d, none)) = inl (
    s,
    omega arith,
    b,
    c,
    d,
    λ p q k. elim (ℕ_discrete p pos) [
      | yes same ↦ rw same not_here
      | no ne ↦ none p (omega arith) k
    ],
  )
  IsFirst-next pos eof r not_here (inr (e, none)) = inr (
    e,
    λ p q k. elim (ℕ_discrete p pos) [
      | yes same ↦ rw same not_here
      | no ne ↦ none p (omega arith) k
    ],
  )

  forward_pattern_loop-IsFirst :
      (fuel pos eof : ℕ)
      → pos ≤ suc eof
      → suc eof < pos + fuel
      → eof ≤ length text
      → Ends (forward_pattern_loop text fuel pos eof pattern) (IsFirst pos eof)
  unfolding forward_pattern_loop
  forward_pattern_loop-IsFirst zero pos eof k f b = absurd (omega arith)
  forward_pattern_loop-IsFirst (suc fuel) pos eof k f b =
      elim (Bool-cases (leb (pos + length pattern) eof)) [
        | inr past ↦ rw past (eof, refl, inr (refl, λ p q k'. absurd (ground arith)))
        | inl inside ↦
            let fits : pos + length pattern ≤ length text = ground arith in
            let (found, ran, means) = matches_at-StandsAt pos fits in
            rw inside (
              rw ran (elim means [
                | inl (e, here) ↦ rw e (
                  pos + length pattern,
                  refl,
                  inl (pos, omega arith, refl, ground arith, here, λ p q k. absurd (omega arith)),
                )
                | inr (e, not_here) ↦
                    let (r, ran', first) =
                      forward_pattern_loop-IsFirst fuel (pos + 1) eof (ground arith) (omega arith)
                        b in
                    rw e (rw ran' (r, refl, IsFirst-next pos eof r not_here first))
              ]))
      ]

  -- From a position that is not before `bof`, and at which the pattern still fits in what is mapped,
  -- the backward search ends, and returns the last occurrence behind `bof` and up to `pos`, or `bof`
  -- if there is none.
  pub sa_seek_pattern_backward-IsLast :
      (pos bof : ℕ)
      → bof ≤ pos
      → pos + length pattern ≤ length text
      → Ends (sa_seek_pattern_backward text pos bof pattern) (IsLast bof pos)
  unfolding sa_seek_pattern_backward
  sa_seek_pattern_backward-IsLast pos bof h b =
      let in_order : leb bof pos ≡ true = ground arith in
      rw in_order (backward_pattern_loop-IsLast pos bof h b)

  -- From a position before `eof`, in a text that goes on to `eof`, the forward search ends, and
  -- returns the end of the first occurrence from `pos` on that ends up to `eof`, or `eof` if there is
  -- none.
  pub sa_seek_pattern_forward-IsFirst :
      (pos eof : ℕ)
      → pos < eof
      → eof ≤ length text
      → Ends (sa_seek_pattern_forward text pos eof pattern) (IsFirst pos eof)
  unfolding sa_seek_pattern_forward
  sa_seek_pattern_forward-IsFirst pos eof h b =
      rw (lt→ltb pos eof h)
        (forward_pattern_loop-IsFirst (suc (suc (eof - pos))) pos eof (omega arith) (omega arith) b)

-- The region around `pos`, from the last begin tag up to it to the first end tag from it on.
pub record IsTagged (ary : Sufary) (pos : ℕ) (begin_tag end_tag : List ℕ) (str : SaString)
    : Type 0 where
  pub stop : ℕ
  pub stops : str.ptr + str.len ≡ stop
  pub begins : IsLast ary.text begin_tag 0 pos str.ptr
  pub finishes : IsFirst ary.text end_tag pos ary.textsize stop

-- For a position inside the text, at which the begin tag still fits in what is mapped,
-- `sa_seek_context_region` ends, and returns the text from the last begin tag up to the position to
-- the end of the first end tag from it on; without a tag, the beginning or the end of the text.
pub sa_seek_context_region-IsTagged :
    (ary : Sufary) (pos : ℕ) (begin_tag end_tag : List ℕ)
    → pos < ary.textsize
    → ary.textsize ≤ length ary.text
    → pos + length begin_tag ≤ length ary.text
    → Ends (sa_seek_context_region ary pos begin_tag end_tag) (IsTagged ary pos begin_tag end_tag)
unfolding sa_seek_context_region
sa_seek_context_region-IsTagged ary pos begin_tag end_tag h fits room =
    let eof : 0 + ary.textsize ≡ ary.textsize = omega arith in
    let (a, ran_a, last) =
      sa_seek_pattern_backward-IsLast ary.text begin_tag pos 0 (omega arith) room in
    let (t, ran_t, first) =
      sa_seek_pattern_forward-IsFirst ary.text end_tag pos ary.textsize h fits in
    let past : pos ≤ t = elim first [
      | inl (s, p, e, _, _, _) ↦ omega arith
      | inr (e, _) ↦ omega arith
    ] in
    rw eof (
      rw ran_a (
        rw ran_t (
          string_between a t,
          refl,
          record { stop = t; stops = omega (arith, last.le_pos); begins = last; finishes = first },
        )))
