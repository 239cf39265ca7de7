-- ===== src/MakeIndex/SplitSteps.antt =====
-- How the entries stand while the multikey quicksort of lib/make-index.c partitions them by one
-- character of each string, and what an exchange makes of it.
use sufary.Base.{
  ℕ, suc, ◌+◌, ◌-◌, ◌≤◌, ◌<◌, ◌≡◌, refl, sym, ap, inl, inr, List, length, get_or,
  get_elem?-eq-get_or, Bool-cases, leb, arith,
}
use native.Mathlib.Decide.{ℕ_discrete}
use sufary.Base.Run.{done}
use sufary.MakeIndex.TwoLevel.{IsCString}
use sufary.MakeIndex.MultikeyQsort.{Split, char_at_depth}
use sufary.MakeIndex.Swaps.{Kept, swapped, at_swapped, swapped-Kept}

-- the character of the string at `p` at a depth; a zero byte ends the text
abbrev pub letter : List ℕ → ℕ → ℕ → ℕ
letter text depth p = get_or text (p + depth) 0

module _ (text : List ℕ) (last depth n : ℕ) where
  -- The strings of the first `n` entries go on to the depth.
  abbrev pub AllReach : List ℕ → Type 0
  AllReach x = (n ≤ length x) × ((i : ℕ) → i < n → get_or x i 0 + depth ≤ last)

  -- Where the characters of the entries are equal to `v`, smaller, not looked at, larger, and equal.
  pub record IsSplit (v : ℕ) (s : Split) : Type 0 where
    pub reach : AllReach s.x
    pub low : 1 ≤ s.a
    pub ab : s.a ≤ s.b
    pub bc : s.b ≤ suc s.c
    pub cd : s.c ≤ s.d
    pub dn : s.d < n
    pub equal_left : (i : ℕ) → i < s.a → letter text depth (get_or s.x i 0) ≡ v
    pub less : (i : ℕ) → s.a ≤ i → i < s.b → letter text depth (get_or s.x i 0) < v
    pub more : (i : ℕ) → s.c < i → i ≤ s.d → v < letter text depth (get_or s.x i 0)
    pub equal_right : (i : ℕ) → s.d < i → i < n → letter text depth (get_or s.x i 0) ≡ v

  module _ (c : IsCString text last) where
    pub char_at_depth-letter :
        (x : List ℕ) (i : ℕ)
        → AllReach x
        → i < n
        → char_at_depth text last depth x i ≡ done (letter text depth (get_or x i 0))
    unfolding char_at_depth
    char_at_depth-letter x i (long, reach) h =
        let p = get_or x i 0 in
        let inside = c.ends_inside in
        rw (get_elem?-eq-get_or x i 0 (omega arith)) (elim (Bool-cases (leb last (p + depth))) [
          | inl end ↦
              let at_end : p + depth ≡ last = ground (arith, reach i h) in
              rw (end, at_end) (ap done (sym c.is_terminated))
          | inr more ↦
              rw more (rw (get_elem?-eq-get_or text (p + depth) 0 (omega (arith, reach i h))) refl)
        ])

    pub swapped-AllReach :
        (x : List ℕ) (i j : ℕ) → AllReach x → i < n → j < n → AllReach (swapped x i j)
    swapped-AllReach x i j (long, reach) h k =
        let kept = swapped-Kept x i j (omega arith) (omega arith) n h k in
        (
          omega (arith, kept.long),
          λ l m.
              at_swapped x i j (omega arith) (omega arith) (λ e. e + depth ≤ last) l
                (λ e. reach j k) (λ e. reach i h) (λ _ _. reach l m),
        )

    -- What the loops keep, and the entries that they leave as they are.
    abbrev pub Goes : ℕ → List ℕ → Split → Type 0
    Goes v x s = IsSplit v s × Kept n x s.x

    module _ (v : ℕ) where
      pub left_equal :
          (s : Split)
          → IsSplit v s
          → s.b ≤ s.c
          → letter text depth (get_or s.x s.b 0) ≡ v
          → IsSplit v (record s { x = swapped s.x s.a s.b; a = s.a + 1; b = s.b + 1 })
      left_equal s h l e =
          let x = s.x in
          let (long, reach) = h.reach in
          let a_in : s.a < length x = omega (arith, h.ab, h.cd, h.dn) in
          let b_in : s.b < length x = omega (arith, h.cd, h.dn) in
          let L : ℕ → ℕ = letter text depth in
          record {
            reach =
                swapped-AllReach x s.a s.b h.reach (omega (arith, h.ab, h.cd, h.dn))
                  (omega (arith, h.cd, h.dn));
            low = omega arith;
            ab = omega (arith, h.ab);
            bc = omega arith;
            cd = h.cd;
            dn = h.dn;
            equal_left = λ i m.
                at_swapped x s.a s.b a_in b_in (λ y. L y ≡ v) i (λ _. e)
                  (λ at_b. let same : s.a ≡ s.b = omega (arith, h.ab) in rw same e)
                  (λ ne _. h.equal_left i (omega arith));
            less = λ i m m'.
                at_swapped x s.a s.b a_in b_in (λ y. L y < v) i (λ at_a. absurd (omega arith))
                  (λ at_b. h.less s.a (omega arith) (omega arith))
                  (λ _ ne. h.less i (omega arith) (omega arith));
            more = λ i m m'.
                at_swapped x s.a s.b a_in b_in (λ y. v < L y) i
                  (λ at_a. absurd (omega (arith, h.ab))) (λ at_b. absurd (omega arith))
                  (λ _ _. h.more i m m');
            equal_right = λ i m m'.
                at_swapped x s.a s.b a_in b_in (λ y. L y ≡ v) i
                  (λ at_a. absurd (omega (arith, h.ab, h.cd)))
                  (λ at_b. absurd (omega (arith, h.cd))) (λ _ _. h.equal_right i m m');
          }

      pub right_equal :
          (s : Split)
          → IsSplit v s
          → s.b ≤ s.c
          → letter text depth (get_or s.x s.c 0) ≡ v
          → IsSplit v (record s { x = swapped s.x s.c s.d; d = s.d - 1; c = s.c - 1 })
      right_equal s h l e =
          let x = s.x in
          let (long, reach) = h.reach in
          let c_in : s.c < length x = omega (arith, h.cd, h.dn) in
          let d_in : s.d < length x = omega (arith, h.dn) in
          let L : ℕ → ℕ = letter text depth in
          record {
            reach = swapped-AllReach x s.c s.d h.reach (omega (arith, h.cd, h.dn)) h.dn;
            low = h.low;
            ab = h.ab;
            bc = omega (arith, h.low, h.ab);
            cd = omega (arith, h.cd);
            dn = omega (arith, h.dn);
            equal_left = λ i m.
                at_swapped x s.c s.d c_in d_in (λ y. L y ≡ v) i
                  (λ at_c. absurd (omega (arith, h.ab)))
                  (λ at_d. absurd (omega (arith, h.ab, h.cd))) (λ _ _. h.equal_left i m);
            less = λ i m m'.
                at_swapped x s.c s.d c_in d_in (λ y. L y < v) i (λ at_c. absurd (omega arith))
                  (λ at_d. absurd (omega (arith, h.cd))) (λ _ _. h.less i m m');
            more = λ i m m'.
                at_swapped x s.c s.d c_in d_in (λ y. v < L y) i
                  (λ at_c. h.more s.d (omega (arith, h.low, h.ab)) (omega arith))
                  (λ at_d. absurd (omega (arith, h.low, h.ab, h.cd)))
                  (λ ne _. h.more i (omega (arith, h.low, h.ab)) (omega (arith, h.cd)));
            equal_right = λ i m m'.
                at_swapped x s.c s.d c_in d_in (λ y. L y ≡ v) i
                  (λ at_c. let same : s.d ≡ s.c = omega (arith, h.cd) in rw same e) (λ at_d. e)
                  (λ _ ne. h.equal_right i (omega arith) m');
          }

      pub both_wrong :
          (s : Split)
          → IsSplit v s
          → s.b < s.c
          → v < letter text depth (get_or s.x s.b 0)
          → letter text depth (get_or s.x s.c 0) < v
          → IsSplit v (record s { x = swapped s.x s.b s.c; b = s.b + 1; c = s.c - 1 })
      both_wrong s h l above under =
          let x = s.x in
          let (long, reach) = h.reach in
          let b_in : s.b < length x = omega (arith, h.cd, h.dn) in
          let c_in : s.c < length x = omega (arith, h.cd, h.dn) in
          let L : ℕ → ℕ = letter text depth in
          record {
            reach =
                swapped-AllReach x s.b s.c h.reach (omega (arith, h.cd, h.dn))
                  (omega (arith, h.cd, h.dn));
            low = h.low;
            ab = omega (arith, h.ab);
            bc = omega arith;
            cd = omega (arith, h.cd);
            dn = h.dn;
            equal_left = λ i m.
                at_swapped x s.b s.c b_in c_in (λ y. L y ≡ v) i
                  (λ at_b. absurd (omega (arith, h.ab))) (λ at_c. absurd (omega (arith, h.ab)))
                  (λ _ _. h.equal_left i m);
            less = λ i m m'.
                at_swapped x s.b s.c b_in c_in (λ y. L y < v) i (λ at_b. under)
                  (λ at_c. absurd (omega arith)) (λ ne _. h.less i m (omega arith));
            more = λ i m m'.
                at_swapped x s.b s.c b_in c_in (λ y. v < L y) i (λ at_b. absurd (omega arith))
                  (λ at_c. above) (λ _ ne. h.more i (omega arith) m');
            equal_right = λ i m m'.
                at_swapped x s.b s.c b_in c_in (λ y. L y ≡ v) i
                  (λ at_b. absurd (omega (arith, h.cd))) (λ at_c. absurd (omega (arith, h.cd)))
                  (λ _ _. h.equal_right i m m');
          }

      pub pass_less :
          (s : Split)
          → IsSplit v s
          → s.b ≤ s.c
          → letter text depth (get_or s.x s.b 0) < v
          → IsSplit v (record s { b = s.b + 1 })
      pass_less s h l e = record {
        reach = h.reach;
        low = h.low;
        ab = omega (arith, h.ab);
        bc = omega arith;
        cd = h.cd;
        dn = h.dn;
        equal_left = h.equal_left;
        less = λ i m m'. elim (ℕ_discrete i s.b) [
          | yes at_b ↦ rw at_b e
          | no ne ↦ h.less i m (omega arith)
        ];
        more = h.more;
        equal_right = h.equal_right;
      }

      pub pass_more :
          (s : Split)
          → IsSplit v s
          → s.b ≤ s.c
          → v < letter text depth (get_or s.x s.c 0)
          → IsSplit v (record s { c = s.c - 1 })
      pass_more s h l e = record {
        reach = h.reach;
        low = h.low;
        ab = h.ab;
        bc = omega (arith, h.low, h.ab);
        cd = omega (arith, h.cd);
        dn = h.dn;
        equal_left = h.equal_left;
        less = h.less;
        more = λ i m m'. elim (ℕ_discrete i s.c) [
          | yes at_c ↦ rw at_c e
          | no ne ↦ h.more i (omega (arith, h.low, h.ab)) m'
        ];
        equal_right = h.equal_right;
      }
