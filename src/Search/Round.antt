-- ===== src/Search/Round.antt =====
-- One round of the `while` of `sa_bsearch`, in lib/search.c.
use sufary.Base.{
  ℕ, zero, suc, ◌+◌, ◌-◌, ◌≤◌, ◌<◌, ◌≡◌, refl, sym, ap, ◌∙◌, List, length, get_or, drop,
  get_or-drop, length-drop, get_elem?-eq-get_or, arith, true, false, Bool, min, leb,
}
use native.Mathlib.Decide.{dec_lt}
use sufary.Base.Int.{ℤ, pos, negsuc}
use sufary.Base.Run.{Ends}
use sufary.File.{Sufary, sa_aryidx2txtptr}
use sufary.Util.{reverse_word}
use sufary.Search.{BsearchResult, success, narrow, bsearch_round, midpoint, txt_skip, key_skip}
use sufary.Search.Lex.{
  Agree, Le, Lt, Agree-sym, Le-mono, Le-antisymm, Le-Lt, Lt-Le, Agree-Le, Le-Agree,
}
use sufary.Search.Compare.{char_at, key_char, key_at, Verdict, Compares, cmp_sistr-Compares}
use sufary.Search.Midpoint.{midpoint_exact}

-- the position of the text that entry `i` of the index names
abbrev pub entry : Sufary → ℕ → ℕ
entry ary i = reverse_word (get_or ary.array i 0)

-- the characters that the search compares at entry `i`: from `base` characters behind it on
abbrev pub suffix_at : Sufary → ℕ → ℕ → ℕ → ℕ
suffix_at ary base i = char_at ary.text (entry ary i + base)

module _ (ary : Sufary) (key : List ℤ) (keylen base lo hi : ℕ) where
  -- What the search needs of the entries [lo, hi): they exist, their strings ascend, and a string
  -- that agrees with the key so far goes on inside the mapped text.
  pub record Searchable : Type 0 where
    pub fits : hi ≤ length ary.array
    pub within : hi ≤ ary.arraysize
    pub has_key : keylen ≤ length key
    pub ascend :
        (i j n : ℕ) → lo ≤ i → i ≤ j → j < hi → Le n (suffix_at ary base i) (suffix_at ary base j)
    pub readable :
        (i j : ℕ)
        → lo ≤ i
        → i < hi
        → j < keylen
        → Agree j (suffix_at ary base i) (key_at key)
        → entry ary i + base + j < length ary.text

  -- The invariant of the `while`. Entries before `left` are below the key, those from `right` on
  -- above it, and `p` and `q` characters are known of the ends of what is left.
  pub record Inv (s : BsearchResult) : Type 0 where
    pub p : ℕ
    pub q : ℕ
    pub base_kept : s.base_txt_skip ≡ base
    pub left_len : s.left_prefix_len ≡ base + p
    pub right_len : s.right_prefix_len ≡ base + q
    pub p_le : p ≤ keylen
    pub q_le : q ≤ keylen
    pub lo_le : lo ≤ s.left
    pub ordered : s.left ≤ s.right
    pub hi_le : s.right ≤ hi
    pub below : (i : ℕ) → lo ≤ i → i < s.left → Lt keylen (suffix_at ary base i) (key_at key)
    pub above : (i : ℕ) → s.right ≤ i → i < hi → Lt keylen (key_at key) (suffix_at ary base i)
    pub from_left : (i : ℕ) → s.left ≤ i → i < s.right → Le p (key_at key) (suffix_at ary base i)
    pub from_right : (i : ℕ) → s.left ≤ i → i < s.right → Le q (suffix_at ary base i) (key_at key)

  -- The loop has stopped at an entry whose string begins with the key.
  pub record Hit (s : BsearchResult) : Type 0 where
    pub hit_state : s.state ≡ success
    pub left_le : s.left ≤ s.center
    pub lt_right : s.center < s.right
    pub agrees : Agree keylen (suffix_at ary base s.center) (key_at key)

  abbrev pub Narrowed : BsearchResult → BsearchResult × Bool → Type 0
  Narrowed s (s', true) = Inv s' × Hit s'
  Narrowed s (s', false) = Inv s' × (s'.state ≡ s.state) × (s'.right - s'.left < s.right - s.left)

module _ {ary : Sufary} {key : List ℤ} {keylen base lo hi : ℕ}
    (ok : Searchable ary key keylen base lo hi) where
  module _ (s : BsearchResult) (inv : Inv ary key keylen base lo hi s) where
    -- All strings of the range agree with the key on what both ends agree on.
    skipped :
        (i : ℕ)
        → s.left ≤ i
        → i < s.right
        → Agree (min inv.p inv.q) (suffix_at ary base i) (key_at key)
    skipped i l r =
        Le-antisymm (min inv.p inv.q) (Le-mono (omega arith) (inv.from_right i l r))
          (Le-mono (omega arith) (inv.from_left i l r))

    module _ (m d : ℕ) (left_le : s.left ≤ m) (lt_right : m < s.right) (d_le : d ≤ keylen)
        (same : Agree d (suffix_at ary base m) (key_at key)) where
      narrow-Narrowed :
          (r : ℤ)
          → Verdict keylen (suffix_at ary base m) (key_at key) d r
          → Narrowed ary key keylen base lo hi s (narrow s m (base + d) r)
      narrow-Narrowed (negsuc x) (lt, less) = (
        record {
          base_kept = inv.base_kept;
          right_len = inv.right_len;
          q_le = inv.q_le;
          q = inv.q;
          hi_le = inv.hi_le;
          above = inv.above;
          p = d;
          left_len = refl;
          p_le = d_le;
          lo_le = omega (arith, inv.lo_le);
          ordered = omega arith;
          below = λ i l r. elim (dec_lt i s.left) [
            | yes old ↦ inv.below i l old
            | no new ↦
                Le-Lt {n = keylen} (ok.ascend i m keylen l (omega arith) (omega (arith, inv.hi_le)))
                  (d, lt, same, less)
          ];
          from_left = λ i l r.
              Agree-Le {n = d} (Agree-sym d same) (
                ok.ascend m i d (omega (arith, inv.lo_le)) (omega arith)
                  (omega (arith, inv.hi_le)));
          from_right = λ i l r. inv.from_right i (omega arith) r;
        },
        refl,
        omega arith,
      )
      narrow-Narrowed (pos zero) v = (
        record {
          p = inv.p;
          q = inv.q;
          base_kept = inv.base_kept;
          left_len = inv.left_len;
          right_len = inv.right_len;
          p_le = inv.p_le;
          q_le = inv.q_le;
          lo_le = inv.lo_le;
          ordered = inv.ordered;
          hi_le = inv.hi_le;
          below = inv.below;
          above = inv.above;
          from_left = inv.from_left;
          from_right = inv.from_right;
        },
        record { hit_state = refl; left_le = left_le; lt_right = lt_right; agrees = rw v at same },
      )
      narrow-Narrowed (pos (suc x)) (lt, less) = (
        record {
          p = inv.p;
          base_kept = inv.base_kept;
          left_len = inv.left_len;
          p_le = inv.p_le;
          lo_le = inv.lo_le;
          below = inv.below;
          q = d;
          right_len = refl;
          q_le = d_le;
          ordered = left_le;
          hi_le = omega (arith, inv.hi_le);
          above = λ i l r. elim (dec_lt i s.right) [
            | no old ↦ inv.above i (omega arith) r
            | yes new ↦
                Lt-Le {n = keylen} (d, lt, Agree-sym d same, less)
                  (ok.ascend m i keylen (omega (arith, inv.lo_le)) l r)
          ];
          from_left = λ i l r. inv.from_left i l (omega arith);
          from_right = λ i l r.
              Le-Agree {n = d}
                (ok.ascend i m d (omega (arith, inv.lo_le)) (omega arith)
                  (omega (arith, inv.hi_le)))
                same;
        },
        refl,
        omega arith,
      )

    -- What is compared beyond the skipped part belongs to the whole comparison.
    module _ (m n : ℕ) (skip : Agree n (suffix_at ary base m) (key_at key)) where
      rest_text :
          (j : ℕ) → char_at ary.text (entry ary m + (base + n)) j ≡ suffix_at ary base m (n + j)
      rest_text j =
          let e : entry ary m + (base + n) + j ≡ entry ary m + base + (n + j) = omega arith in
          ap (λ k. suc (get_or ary.text k 0)) e

      rest_key : (j : ℕ) → key_at (drop n key) j ≡ key_at key (n + j)
      rest_key j = ap key_char (get_or-drop n key j (negsuc 0))

      Agree-whole :
          (e : ℕ)
          → Agree e (char_at ary.text (entry ary m + (base + n))) (key_at (drop n key))
          → Agree (n + e) (suffix_at ary base m) (key_at key)
      Agree-whole e a j b = elim (dec_lt j n) [
        | yes old ↦ skip j old
        | no new ↦
            let back : n + (j - n) ≡ j = omega arith in
            rw back at (sym (rest_text (j - n)) ∙ a (j - n) (omega arith) ∙ rest_key (j - n))
      ]

      Verdict-whole :
          (e : ℕ) (r : ℤ)
          → n ≤ keylen
          → Verdict
              (keylen - n)
              (char_at ary.text (entry ary m + (base + n)))
              (key_at (drop n key))
              e
              r
          → Verdict keylen (suffix_at ary base m) (key_at key) (n + e) r
      Verdict-whole e (negsuc _) h v = omega (arith, rest_text e, rest_key e)
      Verdict-whole e (pos zero) h v = omega arith
      Verdict-whole e (pos (suc _)) h v = omega (arith, rest_text e, rest_key e)

    -- The end of a round, from what the comparison returns.
    module _ (m n : ℕ) (left_le : s.left ≤ m) (lt_right : m < s.right) (n_le : n ≤ keylen)
        (skip : Agree n (suffix_at ary base m) (key_at key)) where
      compared-Narrowed :
          (r : ℤ × ℕ)
          → Compares
              (keylen - n)
              (char_at ary.text (entry ary m + (base + n)))
              (key_at (drop n key))
              0
              r
          → Narrowed ary key keylen base lo hi s (narrow s m (base + n + r.1) r.0)
      compared-Narrowed r (e, at, le, agree, verdict) =
          let stopped : base + n + r.1 ≡ base + (n + e) = omega arith in
          rw stopped (
            narrow-Narrowed m (n + e) left_le lt_right (omega arith) (Agree-whole m n skip e agree)
              r.0 (Verdict-whole m n skip e r.0 n_le verdict))

      rest_readable :
          (j : ℕ)
          → j < keylen - n
          → Agree j (char_at ary.text (entry ary m + (base + n))) (key_at (drop n key))
          → entry ary m + (base + n) + j < length ary.text
      rest_readable j b a = omega (
        arith,
        ok.readable m (n + j) (omega (arith, inv.lo_le)) (omega (arith, inv.hi_le)) (omega arith)
            (Agree-whole m n skip j a),
      )

    -- A round keeps the invariant, and either hits or shrinks the range.
    pub bsearch_round-Narrowed :
        s.left < s.right
        → Ends (bsearch_round ary key keylen s) (Narrowed ary key keylen base lo hi s)
    unfolding bsearch_round sa_aryidx2txtptr
    bsearch_round-Narrowed h =
        let m = midpoint s.left s.right in
        let n = min inv.p inv.q in
        let left_le : s.left ≤ m = omega (arith, midpoint_exact s.left s.right) in
        let lt_right : m < s.right = omega (arith, midpoint_exact s.left s.right) in
        let n_le : n ≤ keylen = omega (arith, inv.p_le) in
        let txt : txt_skip s ≡ base + n = omega (arith, inv.left_len, inv.right_len) in
        let rest : key_skip s ≡ n = omega (arith, inv.left_len, inv.right_len, inv.base_kept) in
        let some_key : leb n keylen ≡ true = ground arith in
        let start : 0 + entry ary m + (base + n) ≡ entry ary m + (base + n) = omega arith in
        let skip = skipped m left_le lt_right in
        let (r, ran, compares) =
          cmp_sistr-Compares ary.text (entry ary m + (base + n)) (drop n key) (keylen - n)
            (omega (arith, length-drop n key, ok.has_key))
            (rest_readable m n left_le lt_right n_le skip) in
        rw (get_elem?-eq-get_or ary.array m 0 (omega (arith, inv.hi_le, ok.fits))) (
          rw rest (
            rw txt (
              rw some_key (
                rw start (
                  rw ran (
                    narrow s m (base + n + r.1) r.0,
                    refl,
                    compared-Narrowed m n left_le lt_right n_le skip r compares,
                  ))))))
