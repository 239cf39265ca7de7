-- ===== src/IndexPoint/Delimiter.antt =====
-- The functions of lib/index-point.c that go from delimiter to delimiter find the points in order.
use sufary.Base.{
  ℕ, zero, suc, ◌+◌, ◌-◌, ◌≤◌, ◌<◌, ◌≡◌, refl, sym, ◌∙◌, inl, inr, List, length, get_or,
  get_elem?-eq-get_or, Bool, true, false, Bool-cases, ltb, lt→ltb, ◌==◌, arith, some,
}
use mathlib.Core.Bool.{false≢true}
use native.Mathlib.Decide.{dec_lt, ℕ_discrete}
use sufary.Base.Run.{done, Ends}
use sufary.IndexPoint.{
  Settings, strchr, skip_byte, is_delimiter, skip_delimiters, delimiter_loop, sa_is_skip,
  sa_get_next_ip_after_delimiter, sa_set_my_delimiters, line_delimiters, word_delimiters,
  sa_get_next_ip_line, sa_get_next_ip_word,
}
use sufary.IndexPoint.Contract.{IsNext, NextPoint}

-- The byte at the position is one of the delimiters, or 0.
abbrev pub delimits : List ℕ → List ℕ → ℕ → Bool
delimits delimiters text j = strchr delimiters (get_or text j 0)

-- A point is the beginning of the text, or a position behind a delimiter whose byte is neither a
-- delimiter nor to be skipped.
abbrev pub AfterDelimiter : Settings → List ℕ → List ℕ → ℕ → Type 0
AfterDelimiter g delimiters text zero = Unit
AfterDelimiter g delimiters text (suc j) =
    (delimits delimiters text j ≡ true)
    × (delimits delimiters text (suc j) ≡ false)
    × (skip_byte g (get_or text (suc j) 0) ≡ false)

-- The search may go on from any position.
abbrev pub Anywhere : ℕ → Type 0
Anywhere j = Unit

module _ (g : Settings) (delimiters text : List ℕ) (len : ℕ) (fits : len ≤ length text)
    (given : g.my_delimiters ≡ some delimiters) where
  abbrev delim : ℕ → Bool
  delim j = delimits delimiters text j

  abbrev Point : ℕ → Type 0
  Point j = AfterDelimiter g delimiters text j

  is_delimiter-done : (j : ℕ) → j < len → is_delimiter g text len j ≡ done (delim j)
  unfolding is_delimiter
  is_delimiter-done j h = rw (get_elem?-eq-get_or text j 0 (omega arith)) (rw given refl)

  sa_is_skip-done :
      (j : ℕ) → j < len → sa_is_skip g text len j ≡ done (skip_byte g (get_or text j 0))
  unfolding sa_is_skip
  sa_is_skip-done j h = rw (get_elem?-eq-get_or text j 0 (omega arith)) refl

  -- the end of a sequence of delimiters
  record Skipped (ip e : ℕ) : Type 0 where
    le : ip ≤ e
    inside : e ≤ len
    all : (j : ℕ) → ip ≤ j → j < e → delim j ≡ true
    ended : e < len → delim e ≡ false

  skip_delimiters-Skipped :
      (rounds ip : ℕ) → ip + rounds ≡ len → Ends (skip_delimiters g text len rounds ip) (Skipped ip)
  unfolding skip_delimiters
  skip_delimiters-Skipped zero ip h = (
    ip,
    refl,
    record {
      le = omega arith;
      inside = omega arith;
      all = λ j p q. absurd (omega arith);
      ended = λ q. absurd (omega arith);
    },
  )
  skip_delimiters-Skipped (suc rounds) ip h =
      rw (is_delimiter-done ip (omega arith)) (elim (Bool-cases (delim ip)) [
        | inr other ↦ rw other (
          ip,
          refl,
          record {
            le = omega arith;
            inside = omega arith;
            all = λ j p q. absurd (omega arith);
            ended = λ q. other;
          },
        )
        | inl found ↦
            let (e, ran, s) = skip_delimiters-Skipped rounds (ip + 1) (omega arith) in
            rw found (
              e,
              ran,
              record {
                le = omega (arith, s.le);
                inside = s.inside;
                all = λ j p q. elim (ℕ_discrete j ip) [
                  | yes same ↦ rw same found
                  | no ne ↦ s.all j (omega arith) q
                ];
                ended = s.ended;
              },
            )
      ])

  -- No position behind `n` and up to `ip` is a point.
  abbrev Clear : ℕ → ℕ → Type 0
  Clear n ip = (j : ℕ) → n < j → j ≤ ip → ¬ Point j

  Clear-suc : (n ip : ℕ) → delim ip ≡ false → Clear n ip → Clear n (ip + 1)
  Clear-suc n ip other clear j p q = elim (ℕ_discrete j (ip + 1)) [
    | no ne ↦ clear j p (omega arith)
    | yes same ↦
        let e : ip + 1 ≡ suc ip = omega arith in
        rw (same ∙ e) (λ point. false≢true (sym other ∙ point.0))
  ]

  -- Inside a sequence of delimiters there is no point.
  Clear-Skipped : (n ip e : ℕ) → Skipped ip e → Clear n ip → (j : ℕ) → n < j → j < e → ¬ Point j
  Clear-Skipped n ip e s clear zero p q = absurd (omega arith)
  Clear-Skipped n ip e s clear (suc j) p q = elim (dec_lt ip (suc j)) [
    | no early ↦ clear (suc j) p (omega arith)
    | yes late ↦ λ point. false≢true (sym point.1 ∙ s.all (suc j) (omega arith) q)
  ]

  abbrev skipped_byte : ℕ → Bool
  skipped_byte j = skip_byte g (get_or text j 0)

  Point-at :
      (e : ℕ) → 0 < e → delim (e - 1) ≡ true → delim e ≡ false → skipped_byte e ≡ false → Point e
  Point-at zero h a b c = absurd (omega arith)
  Point-at (suc e) h a b c = let same : suc e - 1 ≡ e = omega arith in (rw same at a, b, c)

  not_Point : (e : ℕ) → 0 < e → skipped_byte e ≡ true → ¬ Point e
  not_Point zero h c point = absurd (omega arith)
  not_Point (suc e) h c point = false≢true (sym point.2 ∙ c)

  -- a sequence that begins with a delimiter is not empty
  Skipped-lt : (ip e : ℕ) → ip < len → delim ip ≡ true → Skipped ip e → ip < e
  Skipped-lt ip e h found s = elim (ℕ_discrete ip e) [
    | no ne ↦ omega (arith, s.le)
    | yes same ↦ absurd (false≢true (sym (s.ended (omega arith)) ∙ (rw same at found)))
  ]

  Clear-through :
      (n ip e : ℕ)
      → n ≤ ip
      → ip < e
      → Skipped ip e
      → e < len
      → Clear n ip
      → skipped_byte e ≡ true
      → Clear n (e + 1)
  Clear-through n ip e a b s inside clear skip = Clear-suc n e (s.ended inside) (λ j p q.
      elim (ℕ_discrete j e) [
        | yes same ↦ rw same (not_Point e (omega arith) skip)
        | no ne ↦ Clear-Skipped n ip e s clear j p (omega arith)
      ])

  delimiter_loop-IsNext :
      (fuel ip n : ℕ)
      → n ≤ ip
      → n < len
      → len - ip < fuel
      → Clear n ip
      → Ends (delimiter_loop g text len fuel ip) (IsNext len Point (n + 1))
  unfolding delimiter_loop
  delimiter_loop-IsNext zero ip n a b f clear = absurd (omega arith)
  delimiter_loop-IsNext (suc fuel) ip n a b f clear = elim (dec_lt ip len) [
    | no out ↦
        let stop : ltb ip len ≡ false = ground arith in
        rw stop (
          len,
          refl,
          (
            omega arith,
            omega arith,
            λ h. absurd (omega arith),
            λ j p q. clear j (omega arith) (omega arith),
          ),
        )
    | yes inside ↦ rw (lt→ltb ip len inside) (
        rw (is_delimiter-done ip inside) (elim (Bool-cases (delim ip)) [
          | inr other ↦ rw other (
              delimiter_loop-IsNext fuel (ip + 1) n (omega arith) b (omega arith)
                (Clear-suc n ip other clear))
          | inl found ↦
              let (e, ran, s) = skip_delimiters-Skipped (len - ip) ip (omega arith) in
              let past = Skipped-lt ip e inside found s in
              let none_up_to = Clear-Skipped n ip e s clear in
              rw found (
                rw ran (elim (ℕ_discrete e len) [
                  | yes last ↦
                      let stop : (e == len) ≡ true = ground arith in
                      rw stop (
                        len,
                        refl,
                        (
                          omega arith,
                          omega arith,
                          λ h. absurd (omega arith),
                          λ j p q. none_up_to j (omega arith) (omega arith),
                        ),
                      )
                  | no ne ↦
                      let more : (e == len) ≡ false = ground arith in
                      let below : e < len = omega (arith, s.inside) in
                      rw more (
                        rw (sa_is_skip-done e below) (elim (Bool-cases (skipped_byte e)) [
                          | inr take ↦
                              let before = s.all (e - 1) (omega arith) (omega arith) in
                              rw take (
                                e,
                                refl,
                                (
                                  omega arith,
                                  omega arith,
                                  λ h. Point-at e (omega arith) before (s.ended below) take,
                                  λ j p q. none_up_to j (omega arith) q,
                                ),
                              )
                          | inl skip ↦ rw skip (
                              delimiter_loop-IsNext fuel (e + 1) n (omega arith) b (omega arith)
                                (Clear-through n ip e a past s below clear skip))
                        ]))
                ]))
        ]))
  ]

  -- Where the delimiters are set, in a text of `len` bytes at least, sa_get_next_ip_after_delimiter
  -- ends whenever it is called at -1 or at a position. At -1 it returns 0, and else the next position
  -- behind a delimiter whose byte is neither a delimiter nor to be skipped, or the length of the text.
  pub sa_get_next_ip_after_delimiter-NextPoint :
      NextPoint len
        (sa_get_next_ip_after_delimiter g text len)
        (AfterDelimiter g delimiters text)
        Anywhere
  unfolding sa_get_next_ip_after_delimiter
  sa_get_next_ip_after_delimiter-NextPoint = record {
    from_zero = tt;
    from_point = λ j p. tt;
    top = (0, refl, (omega arith, omega arith, λ h. tt, λ j p q. absurd (omega arith)));
    after = λ n inside from.
        let (r, ran, next) =
          delimiter_loop-IsNext (suc (len - n)) n n (omega arith) inside (omega arith)
            (λ j p q. absurd (omega arith)) in
        let in_range = lt→ltb n len inside in rw in_range (r, rw in_range at ran, next);
  }

module _ (g : Settings) (text : List ℕ) (len : ℕ) (fits : len ≤ length text) where
  pub sa_get_next_ip_line-NextPoint :
      NextPoint len
        (sa_get_next_ip_line g text len)
        (AfterDelimiter g line_delimiters text)
        Anywhere
  unfolding sa_get_next_ip_line sa_set_my_delimiters skip_byte
  sa_get_next_ip_line-NextPoint =
      sa_get_next_ip_after_delimiter-NextPoint (sa_set_my_delimiters (some line_delimiters) g)
        line_delimiters text len fits refl

  pub sa_get_next_ip_word-NextPoint :
      NextPoint len
        (sa_get_next_ip_word g text len)
        (AfterDelimiter g word_delimiters text)
        Anywhere
  unfolding sa_get_next_ip_word sa_set_my_delimiters skip_byte
  sa_get_next_ip_word-NextPoint =
      sa_get_next_ip_after_delimiter-NextPoint (sa_set_my_delimiters (some word_delimiters) g)
        word_delimiters text len fits refl
