-- ===== src/MakeIndex/TwoLevel.antt =====
-- `two_level_compare` of lib/make-index.c, and the first characters that a block keeps.
use sufary.Base.{
  ℕ, zero, suc, ◌+◌, ◌-◌, ◌≤◌, ◌<◌, ◌≡◌, ◌≢◌, refl, ◌⊎◌, inl, inr, List, [], ◌∷◌, ◌++◌, length,
  get_or, drop, drop-get_or, get_elem?, get_elem?-eq-get_or, Bool-cases, true, false, ltb, leb,
  lt→ltb, ◌==◌, if◌then◌else◌, arith,
}
use native.Mathlib.Decide.{dec_lt}
use sufary.Base.Int.{ℤ, pos, negsuc, sub_ℕ}
use sufary.Base.Run.{Run, Ends, done, or_fault, ◌>>=◌}
use sufary.MakeIndex.Strcmp.{tail_of, Sign, Sign-cons, Sign-head, tail_of-cons, tail_of-end}
use sufary.MakeIndex.Heap.{Block, strcmp, strncpy, cached, two_level_compare, str_cache_size}
use sufary.MakeIndex.UpHeap.{position}

-- A mapped text: a zero byte stands behind its end, and none in it.
pub record IsCString (text : List ℕ) (last : ℕ) : Type 0 where
  pub ends_inside : last < length text
  pub is_terminated : get_or text last 0 ≡ 0
  pub no_zero : (p : ℕ) → p < last → 0 < get_or text p 0

Sign-shorter : (y : ℕ) (ys : List ℕ) → 0 < y → Sign [] (y ∷ ys) (sub_ℕ 0 y)
Sign-shorter zero ys h = elim h [ ]
Sign-shorter (suc y) ys h =
    let below : leb (suc y) 0 ≡ false = ground arith in rw below (tt, λ le. le)

Sign-beyond : (x d : ℕ) (xs : List ℕ) → 0 < d → Sign (x ∷ xs) [] (pos d)
Sign-beyond x zero xs h = elim h [ ]
Sign-beyond x (suc d) xs h = (tt, λ le. le)

Sign-longer : (x : ℕ) (xs : List ℕ) → 0 < x → Sign (x ∷ xs) [] (sub_ℕ x 0)
Sign-longer x xs h =
    let above : leb 0 x ≡ true = ground arith in rw above (Sign-beyond x (x - 0) xs (omega arith))

module _ (text : List ℕ) (last : ℕ) where
  -- the place of the character behind the one at `p`; the end of the text is its own
  abbrev pub next : ℕ → ℕ
  next p = if ltb p last then p + 1 else p

  -- The `n` characters from `p` on, with zeros behind the end of the text, and a zero byte.
  abbrev pub window : ℕ → ℕ → List ℕ
  window zero p = 0 ∷ []
  window (suc n) p = get_or text p 0 ∷ window n (next p)

  -- What the comparison of the first `n` characters tells of the two strings.
  Level : ℕ → ℕ → ℕ → ℤ → Type 0
  Level n p q r =
      ((r ≡ pos 0)
        × (p + n ≤ last)
        × (q + n ≤ last)
        × ((r' : ℤ)
            → Sign (tail_of text last (p + n)) (tail_of text last (q + n)) r'
            → Sign (tail_of text last p) (tail_of text last q) r'))
      ⊎ Sign (tail_of text last p) (tail_of text last q) r

  module _ (c : IsCString text last) where
    fits : last ≤ length text
    fits = omega (arith, c.ends_inside)

    at : (p : ℕ) → p ≤ last → drop p text ≡ get_or text p 0 ∷ drop (p + 1) text
    at p h =
        let e : p + 1 ≡ suc p = omega arith in
        rw e (drop-get_or p text 0 (omega (arith, c.ends_inside)))

    strncpy-window :
        (n p : ℕ) → p ≤ last → Ends (strncpy n (drop p text)) (λ cs. cs ++ 0 ∷ [] ≡ window n p)
    unfolding strncpy
    strncpy-window zero p h = ([], refl, refl)
    strncpy-window (suc n) p h = elim (Bool-cases (ltb p last)) [
      | inl inside ↦
          let more : (get_or text p 0 == 0) ≡ false = ground (arith, c.no_zero p) in
          let (cs, ran, e) = strncpy-window n (p + 1) (ground arith) in
          rw (at p h, more, inside) (rw ran (get_or text p 0 ∷ cs, refl, rw e refl))
      | inr out ↦
          let here : p ≡ last = ground arith in
          let zero_byte : get_or text p 0 ≡ 0 = rw here c.is_terminated in
          let (cs, ran, e) = strncpy-window n p h in
          rw (at p h, zero_byte, out)
            (rw (← zero_byte, ← at p h)
              (rw ran (get_or text p 0 ∷ cs, refl, rw zero_byte (rw e refl))))
    ]

    same-inside :
        (p q : ℕ)
        → p ≢ q
        → p ≤ last
        → q ≤ last
        → get_or text p 0 ≡ get_or text q 0
        → (p < last) × (q < last) × ((get_or text p 0 == 0) ≡ false)
    same-inside p q ne a b e = elim (dec_lt p last) [
      | yes i ↦ elim (dec_lt q last) [
        | yes j ↦ (i, j, ground (arith, c.no_zero p i))
        | no j ↦
            let at_end : q ≡ last = omega arith in
            let zero_byte = c.is_terminated in
            absurd (omega (arith, rw (← at_end) at zero_byte, c.no_zero p i))
      ]
      | no i ↦
          let at_end : p ≡ last = omega arith in
          let zero_byte = c.is_terminated in
          absurd (omega (arith, rw (← at_end) at zero_byte, c.no_zero q (omega arith)))
    ]

    differ-Sign :
        (p q : ℕ)
        → p ≢ q
        → p ≤ last
        → q ≤ last
        → get_or text p 0 ≢ get_or text q 0
        → Sign
            (tail_of text last p)
            (tail_of text last q)
            (sub_ℕ (get_or text p 0) (get_or text q 0))
    differ-Sign p q ne a b d = elim (dec_lt p last) [
      | yes i ↦ elim (dec_lt q last) [
        | yes j ↦
            rw (tail_of-cons text last fits p i, tail_of-cons text last fits q j)
              (Sign-head (get_or text p 0) (get_or text q 0) _ _ d)
        | no j ↦
            let at_end : q ≡ last = omega arith in
            let zero_byte : get_or text q 0 ≡ 0 = rw at_end c.is_terminated in
            rw (tail_of-cons text last fits p i, tail_of-end text last fits q at_end, zero_byte)
              (Sign-longer (get_or text p 0) (tail_of text last (p + 1)) (c.no_zero p i))
      ]
      | no i ↦
          let at_end : p ≡ last = omega arith in
          let inside : q < last = omega arith in
          let zero_byte : get_or text p 0 ≡ 0 = rw at_end c.is_terminated in
          rw (tail_of-cons text last fits q inside, tail_of-end text last fits p at_end, zero_byte)
            (Sign-shorter (get_or text q 0) (tail_of text last (q + 1)) (c.no_zero q inside))
    ]

    extend-Sign :
        (p q : ℕ) (r : ℤ)
        → p < last
        → q < last
        → get_or text p 0 ≡ get_or text q 0
        → Sign (tail_of text last (p + 1)) (tail_of text last (q + 1)) r
        → Sign (tail_of text last p) (tail_of text last q) r
    extend-Sign p q r i j e h =
        rw (tail_of-cons text last fits p i, tail_of-cons text last fits q j, e)
          (Sign-cons (get_or text q 0) _ _ r h)

    strcmp-Sign :
        (n p q : ℕ)
        → last < p + n
        → p ≢ q
        → p ≤ last
        → q ≤ last
        → Ends
            (strcmp (drop p text) (drop q text))
            (Sign (tail_of text last p) (tail_of text last q))
    unfolding strcmp
    strcmp-Sign zero p q e ne a b = absurd (omega arith)
    strcmp-Sign (suc n) p q e ne a b =
        rw (at p a, at q b)
          (elim (Bool-cases (get_or text p 0 == get_or text q 0)) [
            | inr differ ↦ rw differ (_, refl, differ-Sign p q ne a b (ground arith))
            | inl same ↦
                let eq : get_or text p 0 ≡ get_or text q 0 = ground arith in
                let (i, j, more) = same-inside p q ne a b eq in
                let (r, ran, sign) =
                  strcmp-Sign n (p + 1) (q + 1) (omega arith) (omega arith) (omega arith)
                    (omega arith) in
                rw (same, more) (r, ran, extend-Sign p q r i j eq sign)
          ])

    windows-Level :
        (n p q : ℕ)
        → p ≢ q
        → p ≤ last
        → q ≤ last
        → Ends (strcmp (window n p) (window n q)) (Level n p q)
    unfolding strcmp Level
    windows-Level zero p q ne a b =
        let e : p + 0 ≡ p = omega arith in
        let f : q + 0 ≡ q = omega arith in
        (pos 0, refl, inl (refl, omega arith, omega arith, λ r sign. rw (e, f) at sign))
    windows-Level (suc n) p q ne a b = elim (Bool-cases (get_or text p 0 == get_or text q 0)) [
      | inr differ ↦ rw differ (_, refl, inr (differ-Sign p q ne a b (ground arith)))
      | inl same ↦
          let eq : get_or text p 0 ≡ get_or text q 0 = ground arith in
          let (i, j, more) = same-inside p q ne a b eq in
          let (r, ran, level) =
            windows-Level n (p + 1) (q + 1) (omega arith) (omega arith) (omega arith) in
          rw (same, more, lt→ltb p last i, lt→ltb q last j) (r, ran, Level-suc n p q r i j eq level)
    ]
      where
        Level-suc :
            (n p q : ℕ) (r : ℤ)
            → p < last
            → q < last
            → get_or text p 0 ≡ get_or text q 0
            → Level n (p + 1) (q + 1) r
            → Level (suc n) p q r
        Level-suc n p q r i j eq (inr sign) = inr (extend-Sign p q r i j eq sign)
        Level-suc n p q r i j eq (inl (none, a, b, later)) =
            let e : p + suc n ≡ p + 1 + n = omega arith in
            let f : q + suc n ≡ q + 1 + n = omega arith in
            inl (
              none,
              omega arith,
              omega arith,
              λ r' sign. extend-Sign p q r' i j eq (later r' (rw (e, f) at sign)),
            )

    -- The second comparison, behind the first `n` characters.
    second-Sign :
        (n p q : ℕ) (second : Run ℤ)
        → second ≡ strcmp (drop (p + n) text) (drop (q + n) text)
        → p ≢ q
        → (r : ℤ) → Level n p q r
        → Ends
            (elim r [
              | pos zero ↦ second
              | pos (suc m) ↦ done (pos (suc m))
              | negsuc m ↦ done (negsuc m)
            ])
            (Sign (tail_of text last p) (tail_of text last q))
    unfolding Level
    second-Sign n p q second same ne (pos zero) (inl (none, a, b, later)) =
        let (r, ran, sign) =
          strcmp-Sign (suc last) (p + n) (q + n) (omega arith) (λ e. ne (omega arith)) a b in
        rw same (r, ran, later r sign)
    second-Sign n p q second same ne (pos zero) (inr sign) = elim sign [ ]
    second-Sign n p q second same ne (pos (suc m)) (inl (none, _, _, _)) = cc
    second-Sign n p q second same ne (pos (suc m)) (inr sign) = (pos (suc m), refl, sign)
    second-Sign n p q second same ne (negsuc m) (inl (none, _, _, _)) = cc
    second-Sign n p q second same ne (negsuc m) (inr sign) = (negsuc m, refl, sign)

  -- The block's characters are those of its present string.
  module _ (array : List ℕ) where
    abbrev pub IsCached : Block → Type 0
    IsCached b = b.strbuf ≡ window str_cache_size (position array b)

    pub cached-IsCached :
        (c : IsCString text last) (b : Block)
        → b.aryidx < length array
        → position array b ≤ last
        → Ends
            (cached text last array b)
            (λ b'. (b' ≡ record b { strbuf = window str_cache_size (position array b) }))
    unfolding cached
    cached-IsCached c b h a =
        let (cs, ran, e) = strncpy-window c str_cache_size (position array b) a in
        rw (get_elem?-eq-get_or array b.aryidx 0 h) (rw ran (_, refl, rw e refl))

    -- For two blocks whose entries are different positions of a text without zero bytes, and that
    -- keep the characters of their strings, `two_level_compare` ends, and the sign of the number it
    -- returns is the alphabetical order of the two strings.
    pub two_level_compare-Sign :
        (c : IsCString text last) (x y : Block)
        → (x.aryidx < length array) × (position array x ≤ last) × IsCached x
        → (y.aryidx < length array) × (position array y ≤ last) × IsCached y
        → position array x ≢ position array y
        → Ends
            (two_level_compare text last array x y)
            (Sign (tail_of text last (position array x)) (tail_of text last (position array y)))
    unfolding two_level_compare
    two_level_compare-Sign c x y (h, a, cx) (h', b, cy) ne =
        let (r, ran, level) =
          windows-Level c str_cache_size (position array x) (position array y) ne a b in
        let second = or_fault (get_elem? array x.aryidx) >>= λ aa.
        or_fault (get_elem? array y.aryidx) >>= λ bb.
        strcmp (drop (aa + str_cache_size) text) (drop (bb + str_cache_size) text) in
        rw (cx, cy)
          (rw ran (
            second-Sign c str_cache_size (position array x) (position array y) second
              (rw (get_elem?-eq-get_or array x.aryidx 0 h, get_elem?-eq-get_or array y.aryidx 0 h')
                refl)
              ne r level))
