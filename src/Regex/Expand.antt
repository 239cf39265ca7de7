-- ===== src/Regex/Expand.antt =====
-- `sa_expand_ignore_case` of lib/regex.c, its memory and the string that it writes.
use sufary.Base.{
  ℕ, zero, suc, ◌+◌, ◌*◌, ◌≤◌, ◌<◌, ◌≡◌, refl, ◌∙◌, ap, List, [], ◌∷◌, ◌++◌, length, length-append,
  length-set, set, take, Bool, Bool-cases, inl, inr, true, false, ltb, ◌==◌, if◌then◌else◌, All,
  arith,
}
use sufary.Base.Run.{Ends, Ends-bind, done}
use sufary.ArticleFinder.{string_at}
use sufary.Regex.IgnoreCase.{is_meta, put, expand_char, expand_loop, sa_expand_ignore_case}

append_assoc : (xs ys zs : List ℕ) → (xs ++ ys) ++ zs ≡ xs ++ (ys ++ zs)
append_assoc [] ys zs = refl
append_assoc (x ∷ xs) ys zs = ap (λ l. x ∷ l) (append_assoc xs ys zs)

append_one : (xs ys : List ℕ) (x : ℕ) → (xs ++ x ∷ []) ++ ys ≡ xs ++ x ∷ ys
append_one xs ys x = append_assoc xs (x ∷ []) ys

append_none : (xs : List ℕ) → xs ++ [] ≡ xs
append_none [] = refl
append_none (x ∷ xs) = ap (λ l. x ∷ l) (append_none xs)

four_more :
    (out : List ℕ) (a b c d : ℕ)
    → ((out ++ a ∷ b ∷ []) ++ c ∷ []) ++ d ∷ [] ≡ out ++ a ∷ b ∷ c ∷ d ∷ []
four_more out a b c d =
    append_one (out ++ a ∷ b ∷ []) (d ∷ []) c ∙ append_assoc out (a ∷ b ∷ []) (c ∷ d ∷ [])

take-set : (xs : List ℕ) (j c : ℕ) → j < length xs → take (suc j) (set xs j c) ≡ take j xs ++ c ∷ []
take-set [] j c h = absurd (omega arith)
take-set (x ∷ xs) zero c h = refl
take-set (x ∷ xs) (suc j) c h = ap (λ l. x ∷ l) (take-set xs j c (omega arith))

-- The memory has `n` bytes and begins with `out`.
record Written (n : ℕ) (out new_key : List ℕ) : Type 0 where
  size : length new_key ≡ n
  starts : take (length out) new_key ≡ out

put-Written :
    (n j c : ℕ) (out new_key : List ℕ)
    → Written n out new_key
    → j ≡ length out
    → j < n
    → Ends (put new_key j c) (Written n (out ++ c ∷ []))
unfolding put
put-Written n j c out new_key w e h =
    let fits : ltb j (length new_key) ≡ true = ground (arith, w.size) in
    let more : length (out ++ c ∷ []) ≡ suc j = omega (arith, length-append out (c ∷ [])) in
    let start : take j new_key ≡ out = rw e w.starts in
    rw fits (
      set new_key j c,
      refl,
      record {
        size = omega (arith, length-set new_key j c, w.size);
        starts =
            rw more (let here = take-set new_key j c (omega (arith, w.size)) in rw start at here);
      },
    )

-- A string is read back from memory that begins with it and a zero byte.
string_at-Written :
    (out new_key : List ℕ)
    → All (λ c. 0 < c) out
    → take (length (out ++ 0 ∷ [])) new_key ≡ out ++ 0 ∷ []
    → string_at new_key ≡ done out
unfolding string_at
string_at-Written [] [] h e = absurd (ground arith)
string_at-Written [] (x ∷ xs) h e = let z : x ≡ 0 = ground arith in rw z refl
string_at-Written (c ∷ out) [] h e = absurd (ground arith)
string_at-Written (c ∷ out) (x ∷ xs) (positive, h) e =
    let same : x ≡ c = ground arith in
    let rest : take (length (out ++ 0 ∷ [])) xs ≡ out ++ 0 ∷ [] = ground arith in
    let some_char : (c == 0) ≡ false = ground arith in
    rw same (rw some_char (rw (string_at-Written out xs h rest) refl))

module _ (isalpha : ℕ → Bool) (tolower toupper : ℕ → ℕ) where
  -- How a character is written in a pattern that matches it, a letter in both cases.
  abbrev pub spelled : ℕ → List ℕ
  spelled c =
      if isalpha c
      then 91 ∷ tolower c ∷ toupper c ∷ 93 ∷ []
      else if is_meta c
      then 92 ∷ c ∷ []
      else c ∷ []

  abbrev pub expanded : List ℕ → List ℕ
  expanded [] = []
  expanded (c ∷ key) = spelled c ++ expanded key

  -- What is written of one character, and where the next one goes.
  abbrev Spells : ℕ → List ℕ → ℕ → List ℕ × ℕ → Type 0
  Spells n out c (new_key, j) =
      Written n (out ++ spelled c) new_key × (j ≡ length (out ++ spelled c))

  expand_char-Spells :
      (n c j : ℕ) (out new_key : List ℕ)
      → Written n out new_key
      → j ≡ length out
      → j + 4 < n
      → Ends (expand_char isalpha tolower toupper c j new_key) (Spells n out c)
  unfolding expand_char
  expand_char-Spells n c j out new_key w e h = elim (Bool-cases (isalpha c)) [
    | inl letter ↦
        let lower = tolower c in
        let upper = toupper c in
        rw letter (
          Ends-bind (put new_key j 91) _ (put-Written n j 91 out new_key w e (omega arith)) (λ k v.
            Ends-bind (put k (j + 1) lower) _
              (put-Written n (j + 1) lower (out ++ 91 ∷ []) k v
                (omega (arith, length-append out (91 ∷ []))) (omega arith))
              (λ k' v'.
                let two = append_one out (lower ∷ []) 91 in
                let w2 : Written n (out ++ 91 ∷ lower ∷ []) k' = rw two at v' in
                Ends-bind (put k' (j + 2) upper) _
                  (put-Written n (j + 2) upper (out ++ 91 ∷ lower ∷ []) k' w2
                    (omega (arith, length-append out (91 ∷ lower ∷ []))) (omega arith))
                  (λ k'' v''.
                    Ends-bind (put k'' (j + 3) 93) _
                      (put-Written n (j + 3) 93 ((out ++ 91 ∷ lower ∷ []) ++ upper ∷ []) k'' v''
                        (omega (
                          arith,
                          length-append (out ++ 91 ∷ lower ∷ []) (upper ∷ []),
                          length-append out (91 ∷ lower ∷ []),
                        ))
                        (omega arith))
                      (λ k4 v4.
                        let four = four_more out 91 lower upper 93 in
                        (
                          (k4, j + 4),
                          refl,
                          (
                            rw four at v4,
                            omega (arith, length-append out (91 ∷ lower ∷ upper ∷ 93 ∷ [])),
                          ),
                        ))))))
    | inr no_letter ↦ elim (Bool-cases (is_meta c)) [
      | inl meta ↦
          rw (no_letter, meta)
            (Ends-bind (put new_key j 92) _ (put-Written n j 92 out new_key w e (omega arith))
              (λ k v.
                Ends-bind (put k (j + 1) c) _
                  (put-Written n (j + 1) c (out ++ 92 ∷ []) k v
                    (omega (arith, length-append out (92 ∷ []))) (omega arith))
                  (λ k' v'.
                    let two = append_one out (c ∷ []) 92 in
                    (
                      (k', j + 2),
                      refl,
                      (rw two at v', omega (arith, length-append out (92 ∷ c ∷ []))),
                    ))))
      | inr plain ↦
          rw (no_letter, plain)
            (Ends-bind (put new_key j c) _ (put-Written n j c out new_key w e (omega arith))
              (λ a w'. ((a, j + 1), refl, (w', omega (arith, length-append out (c ∷ []))))))
    ]
  ]

  length-spelled : (c : ℕ) → length (spelled c) ≤ 4
  length-spelled c = elim (Bool-cases (isalpha c)) [
    | inl letter ↦ rw letter (omega arith)
    | inr no_letter ↦ elim (Bool-cases (is_meta c)) [
      | inl meta ↦ rw (no_letter, meta) (omega arith)
      | inr plain ↦ rw (no_letter, plain) (omega arith)
    ]
  ]

  expand_loop-Written :
      (key : List ℕ) (n j : ℕ) (out new_key : List ℕ)
      → Written n out new_key
      → j ≡ length out
      → j + 4 * length key < n
      → Ends (expand_loop isalpha tolower toupper key j new_key) (λ (new_key', j').
        Written n (out ++ expanded key) new_key' × (j' ≡ length (out ++ expanded key)))
  unfolding expand_loop
  expand_loop-Written [] n j out new_key w e h =
      let all = append_none out in ((new_key, j), refl, (rw all w, rw all e))
  expand_loop-Written (c ∷ key) n j out new_key w e h =
      Ends-bind (expand_char isalpha tolower toupper c j new_key) _
        (expand_char-Spells n c j out new_key w e (omega arith))
        (λ (k, j') (w', e').
          let longer : j' ≤ j + 4 =
            omega (arith, length-append out (spelled c), length-spelled c) in
          let (last, ran, (w'', e'')) =
            expand_loop-Written key n j' (out ++ spelled c) k w' e' (omega arith) in
          let all = append_assoc out (spelled c) (expanded key) in
          (last, ran, (rw all at w'', rw all at e'')))

  expanded_positive :
      ((c : ℕ) → 0 < c → 0 < tolower c)
      → ((c : ℕ) → 0 < c → 0 < toupper c)
      → (key : List ℕ) → All (λ c. 0 < c) key
      → All (λ c. 0 < c) (expanded key)
  expanded_positive low up [] h = tt
  expanded_positive low up (c ∷ key) (p, h) =
      let rest = expanded_positive low up key h in
      elim (Bool-cases (isalpha c)) [
        | inl letter ↦ rw letter (omega arith, (low c p, (up c p, (omega arith, rest))))
        | inr no_letter ↦ elim (Bool-cases (is_meta c)) [
          | inl meta ↦ rw (no_letter, meta) (omega arith, (p, rest))
          | inr plain ↦ rw (no_letter, plain) (p, rest)
        ]
      ]

  -- For a C string of `n` characters, memory of 4 * n + 1 bytes and functions of ctype.h that give
  -- no zero byte, the expansion ends, so that it stays within the memory, and the C string that it
  -- leaves there has each character spelled.
  pub sa_expand_ignore_case-expanded :
      ((c : ℕ) → 0 < c → 0 < tolower c)
      → ((c : ℕ) → 0 < c → 0 < toupper c)
      → (key s new_key : List ℕ) → string_at key ≡ done s
      → All (λ c. 0 < c) s
      → length new_key ≡ length s * 4 + 1
      → Ends
          (sa_expand_ignore_case isalpha tolower toupper new_key key)
          (λ result. (length result ≡ length new_key) × (string_at result ≡ done (expanded s)))
  unfolding sa_expand_ignore_case
  sa_expand_ignore_case-expanded low up key s new_key is_string positive size = rw is_string (
      Ends-bind (expand_loop isalpha tolower toupper s 0 new_key) _
        (expand_loop-Written s (length new_key) 0 [] new_key (record { size = refl; starts = refl })
          refl (omega arith))
        (λ (k, j) (w, e).
          let (result, ran, w') =
            put-Written (length new_key) j 0 (expanded s) k w e
              (omega (arith, length-expanded s)) in
          (
            result,
            ran,
            (
              w'.size,
              string_at-Written (expanded s) result (expanded_positive low up s positive) w'.starts,
            ),
          )))
    where
      length-expanded : (s : List ℕ) → length (expanded s) ≤ 4 * length s
      length-expanded [] = omega arith
      length-expanded (c ∷ s) =
          omega (arith, length-append (spelled c) (expanded s), length-spelled c, length-expanded s)
