-- ===== src/Regex/Results.antt =====
-- Which results the loops of lib/regex.c add to a list.
use Prim.Native.Nat.{bit_and}
use sufary.Base.{
  ℕ, zero, suc, ◌+◌, ◌-◌, ◌*◌, ◌/◌, ◌%◌, ◌^◌, ◌≤◌, ◌<◌, ◌≡◌, refl, ◌⊎◌, inl, inr, ◌↔◌, List, [],
  ◌∷◌, ◌++◌, length, get_elem?-eq-get_or, Bool-cases, true, ◌==◌, not, arith,
}
use native.Mathlib.Decide.{dec_lt, ℕ_discrete}
use sufary.Base.Run.{Run, Ends}
use sufary.File.{Sufary, sa_aryidx2txtidx}
use sufary.Search.{SufResult}
use sufary.Search.Round.{entry}
use sufary.Regex.Bits.{bit_found}
use sufary.Regex.BitLaws.{zero-bit_and}
use sufary.Regex.Sub.{
  SaResult, SaResultList, store_loop, sa_regex_store_result, bit_loop, vector_loop,
}

-- The result stands in the list.
abbrev pub Listed : SaResult → SaResultList → Type 0
Listed x [] = ⊥
Listed x (y ∷ ys) = (x ≡ y) ⊎ Listed x ys

-- `out` has the results of `before`, and those of which `P` holds.
abbrev pub Adds : (SaResult → Type 0) → SaResultList → SaResultList → Type 0
Adds P before out = (x : SaResult) → Listed x out ↔ (Listed x before ⊎ P x)

pub Adds-refl :
    (P : SaResult → Type 0) (xs : SaResultList) → ((x : SaResult) → ¬ P x) → Adds P xs xs
Adds-refl P xs none x = (inl, elim [ inl h ↦ h | inr p ↦ absurd (none x p) ])

pub Adds-trans :
    (P Q R : SaResult → Type 0) (xs ys zs : SaResultList)
    → Adds P xs ys
    → Adds Q ys zs
    → ((x : SaResult) → R x ↔ (P x ⊎ Q x))
    → Adds R xs zs
Adds-trans P Q R xs ys zs p q r x = (
  λ h. elim ((q x).0 h) [
    | inl g ↦ elim ((p x).0 g) [ inl f ↦ inl f | inr f ↦ inr ((r x).1 (inl f)) ]
    | inr g ↦ inr ((r x).1 (inr g))
  ],
  elim [
    | inl f ↦ (q x).1 (inl ((p x).1 (inl f)))
    | inr f ↦ elim ((r x).0 f) [ inl g ↦ (q x).1 (inl ((p x).1 (inr g))) | inr g ↦ (q x).1 (inr g) ]
  ],
)

pub Adds-iff :
    (P Q : SaResult → Type 0) (xs ys : SaResultList)
    → Adds P xs ys
    → ((x : SaResult) → P x ↔ Q x)
    → Adds Q xs ys
Adds-iff P Q xs ys p e x = (
  λ h. elim ((p x).0 h) [ inl f ↦ inl f | inr f ↦ inr ((e x).0 f) ],
  elim [ inl f ↦ (p x).1 (inl f) | inr f ↦ (p x).1 (inr ((e x).1 f)) ],
)

Listed-append :
    (x y : SaResult) (xs : SaResultList) → Listed x (xs ++ y ∷ []) ↔ (Listed x xs ⊎ (x ≡ y))
Listed-append x y [] =
    (elim [ inl e ↦ inr e | inr f ↦ elim f [ ] ], elim [ inl f ↦ elim f [ ] | inr e ↦ inl e ])
Listed-append x y (z ∷ zs) = (
  elim [
    | inl e ↦ inl (inl e)
    | inr h ↦ elim ((Listed-append x y zs).0 h) [ inl g ↦ inl (inr g) | inr g ↦ inr g ]
  ],
  elim [
    | inl h ↦ elim h [ inl e ↦ inl e | inr g ↦ inr ((Listed-append x y zs).1 (inl g)) ]
    | inr e ↦ inr ((Listed-append x y zs).1 (inr e))
  ],
)

module _ (ary : Sufary) where
  abbrev pub result_at : ℕ → ℕ → SaResult
  result_at i len = record { value = entry ary i; len = len }

  abbrev EntryFrom : ℕ → ℕ → ℕ → SaResult → Type 0
  EntryFrom i rounds len x = (j : ℕ) × (i ≤ j) × (j < i + rounds) × (x ≡ result_at j len)

  store_loop-Adds :
      (rounds i len : ℕ) (xs : SaResultList)
      → i + rounds ≤ length ary.array
      → Ends (store_loop ary rounds i len xs) (Adds (EntryFrom i rounds len) xs)
  unfolding store_loop sa_aryidx2txtidx
  store_loop-Adds zero i len xs h = (xs, refl, Adds-refl _ xs (λ x (j, a, b, e). omega arith))
  store_loop-Adds (suc rounds) i len xs h =
      let first = result_at i len in
      let (out, ran, adds) = store_loop-Adds rounds (i + 1) len (xs ++ first ∷ []) (omega arith) in
      rw (get_elem?-eq-get_or ary.array i 0 (omega arith)) (
        out,
        ran,
        Adds-trans (λ x. x ≡ first) (EntryFrom (i + 1) rounds len) _ xs (xs ++ first ∷ []) out
            (λ x. Listed-append x first xs) adds
            (λ x. (
              λ (j, a, b, e). elim (ℕ_discrete j i) [
                | yes same ↦ inl (rw same at e)
                | no ne ↦ inr (j, omega arith, omega arith, e)
              ],
              elim [
                | inl e ↦ (i, omega arith, omega arith, e)
                | inr (j, a, b, e) ↦ (j, omega arith, omega arith, e)
              ],
            )),
      )

  -- All entries of the range are stored, and nothing else.
  abbrev pub EntryIn : SufResult → ℕ → SaResult → Type 0
  EntryIn sr len x = (j : ℕ) × (sr.left ≤ j) × (j ≤ sr.right) × (x ≡ result_at j len)

  pub sa_regex_store_result-Adds :
      (sr : SufResult) (len : ℕ) (xs : SaResultList)
      → sr.left ≤ sr.right
      → sr.right < length ary.array
      → Ends (sa_regex_store_result ary sr len xs) (Adds (EntryIn sr len) xs)
  unfolding sa_regex_store_result
  sa_regex_store_result-Adds sr len xs h b =
      let (out, ran, adds) =
        store_loop-Adds (sr.right + 1 - sr.left) sr.left len xs (omega arith) in
      (
        out,
        ran,
        Adds-iff (EntryFrom sr.left (sr.right + 1 - sr.left) len) (EntryIn sr len) xs out adds
            (λ x. (λ (j, a, c, e). (j, a, omega arith, e), λ (j, a, c, e). (j, a, omega arith, e))),
      )

  -- A loop over the characters of a vector adds what is added for each of them.
  module _ (f : ℕ → SaResultList → Run SaResultList) (P : ℕ → SaResult → Type 0) where
    abbrev Runs : ℕ → Type 0
    Runs t = (xs : SaResultList) → Ends (f t xs) (Adds (P t) xs)

    -- bit `k` of the byte
    abbrev Bit : ℕ → ℕ → Type 0
    Bit byte k = not (bit_and byte (2 ^ k) == 0) ≡ true

    abbrev BitFrom : ℕ → ℕ → ℕ → ℕ → SaResult → Type 0
    BitFrom byte bit_idx rounds t x =
        (k : ℕ) × (bit_idx ≤ k) × (k < bit_idx + rounds) × Bit byte k × P (t + k) x

    BitFrom-suc :
        (byte rounds bit_idx t : ℕ) (x : SaResult)
        → BitFrom byte bit_idx (suc rounds) t x
          ↔ ((Bit byte bit_idx × P (t + bit_idx) x) ⊎ BitFrom byte (bit_idx + 1) rounds t x)
    BitFrom-suc byte rounds bit_idx t x = (
      λ (k, a, b, c, p). elim (ℕ_discrete k bit_idx) [
        | yes same ↦ inl (rw same at c, rw same at p)
        | no ne ↦ inr (k, omega arith, omega arith, c, p)
      ],
      elim [
        | inl (c, p) ↦ (bit_idx, omega arith, omega arith, c, p)
        | inr (k, a, b, c, p) ↦ (k, omega arith, omega arith, c, p)
      ],
    )

    bit_loop-Adds :
        (byte rounds bit_idx t : ℕ) (xs : SaResultList)
        → ((k : ℕ) → k < bit_idx + rounds → Bit byte k → Runs (t + k))
        → Ends
            (bit_loop ary f byte rounds bit_idx (t + bit_idx) xs)
            (Adds (BitFrom byte bit_idx rounds t) xs)
    unfolding bit_loop
    bit_loop-Adds byte zero bit_idx t xs runs =
        (xs, refl, Adds-refl _ xs (λ x (k, a, b, _, _). omega arith))
    bit_loop-Adds byte (suc rounds) bit_idx t xs runs =
        let next : t + bit_idx + 1 ≡ t + (bit_idx + 1) = omega arith in
        let runs' = λ (k : ℕ) (b : k < bit_idx + 1 + rounds). runs k (omega arith) in
        elim (Bool-cases (bit_and byte (2 ^ bit_idx) == 0)) [
          | inl off ↦
              let (out, ran, adds) = bit_loop-Adds byte rounds (bit_idx + 1) t xs runs' in
              rw off (
                rw next (
                  out,
                  ran,
                  Adds-iff (BitFrom byte (bit_idx + 1) rounds t)
                      (BitFrom byte bit_idx (suc rounds) t) xs out adds
                      (λ x. (
                        λ p. (BitFrom-suc byte rounds bit_idx t x).1 (inr p),
                        λ p. elim ((BitFrom-suc byte rounds bit_idx t x).0 p) [
                          | inl (c, _) ↦ absurd (ground arith)
                          | inr q ↦ q
                        ],
                      )),
                ))
          | inr on ↦
              let bit : Bit byte bit_idx = ground arith in
              let (ys, ran', adds') = runs bit_idx (omega arith) bit xs in
              let (out, ran, adds) = bit_loop-Adds byte rounds (bit_idx + 1) t ys runs' in
              rw on (
                rw ran' (
                  rw next (
                    out,
                    ran,
                    Adds-trans (P (t + bit_idx)) (BitFrom byte (bit_idx + 1) rounds t)
                        (BitFrom byte bit_idx (suc rounds) t) xs ys out adds' adds
                        (λ x. (
                          λ p. elim ((BitFrom-suc byte rounds bit_idx t x).0 p) [
                            | inl (_, q) ↦ inl q
                            | inr q ↦ inr q
                          ],
                          elim [
                            | inl q ↦ (BitFrom-suc byte rounds bit_idx t x).1 (inl (bit, q))
                            | inr q ↦ (BitFrom-suc byte rounds bit_idx t x).1 (inr q)
                          ],
                        )),
                  )))
        ]

    -- the characters of a vector, from `t` on
    abbrev pub InVector : List ℕ → ℕ → SaResult → Type 0
    InVector v t x = (u : ℕ) × (u < 8 * length v) × (bit_found v u ≡ true) × P (t + u) x

    bit_found_head :
        (b u : ℕ) (bs : List ℕ) → u < 8 → bit_found (b ∷ bs) u ≡ not (bit_and b (2 ^ u) == 0)
    unfolding bit_found
    bit_found_head b u bs h =
        let e : u / 8 ≡ 0 = omega arith in let e' : u % 8 ≡ u = omega arith in rw (e, e') refl

    bit_found_tail : (b u : ℕ) (bs : List ℕ) → bit_found (b ∷ bs) (8 + u) ≡ bit_found bs u
    unfolding bit_found
    bit_found_tail b u bs =
        let e : (8 + u) / 8 ≡ suc (u / 8) = omega arith in
        let e' : (8 + u) % 8 ≡ u % 8 = omega arith in rw (e, e') refl

    InVector-cons :
        (b t : ℕ) (bs : List ℕ) (x : SaResult)
        → InVector (b ∷ bs) t x ↔ (BitFrom b 0 8 t x ⊎ InVector bs (t + 8) x)
    InVector-cons b t bs x = (
      λ (u, h, c, p). elim (dec_lt u 8) [
        | yes low ↦ inl (u, omega arith, omega arith, rw (bit_found_head b u bs low) at c, p)
        | no high ↦
            let e : 8 + (u - 8) ≡ u = omega arith in
            let e' : t + 8 + (u - 8) ≡ t + u = omega arith in
            let tail = bit_found_tail b (u - 8) bs in
            inr (u - 8, omega arith, rw tail at (rw (← e) at c), rw e' p)
      ],
      elim [
        | inl (k, a, h, c, p) ↦
            let low : k < 8 = omega arith in (k, omega arith, rw (bit_found_head b k bs low) c, p)
        | inr (u, h, c, p) ↦
            let e : t + 8 + u ≡ t + (8 + u) = omega arith in
            (8 + u, omega arith, rw (bit_found_tail b u bs) c, rw e at p)
      ],
    )

    pub vector_loop-Adds :
        (v : List ℕ) (t : ℕ) (xs : SaResultList)
        → ((u : ℕ) → u < 8 * length v → bit_found v u ≡ true → Runs (t + u))
        → Ends (vector_loop ary f v t xs) (Adds (InVector v t) xs)
    unfolding vector_loop
    vector_loop-Adds [] t xs runs = (xs, refl, Adds-refl _ xs (λ x (u, h, _, _). omega arith))
    vector_loop-Adds (b ∷ bs) t xs runs =
        let head = λ (k : ℕ) (h : k < 0 + 8) (c : Bit b k).
          let low : k < 8 = omega arith in
          runs k (omega arith) (rw (bit_found_head b k bs low) c) in
        let tail = λ (u : ℕ) (h : u < 8 * length bs) (c : bit_found bs u ≡ true).
          let e : t + 8 + u ≡ t + (8 + u) = omega arith in
          let r : Runs (t + 8 + u) =
            rw e (runs (8 + u) (omega arith) (rw (bit_found_tail b u bs) c)) in
          r in
        let zero_t : t + 0 ≡ t = omega arith in
        elim (Bool-cases (b == 0)) [
          | inl off ↦
              let z : b ≡ 0 = ground arith in
              let (out, ran, adds) = vector_loop-Adds bs (t + 8) xs tail in
              rw off (
                out,
                ran,
                Adds-iff (InVector bs (t + 8)) (InVector (b ∷ bs) t) xs out adds (λ x. (
                  λ p. (InVector-cons b t bs x).1 (inr p),
                  λ p. elim ((InVector-cons b t bs x).0 p) [
                    | inl (k, _, _, c, _) ↦ absurd (ground (arith, z, zero-bit_and (2 ^ k)))
                    | inr q ↦ q
                  ],
                )),
              )
          | inr on ↦
              let (ys, ran', adds') = bit_loop-Adds b 8 0 t xs head in
              let (out, ran, adds) = vector_loop-Adds bs (t + 8) ys tail in
              rw on (
                rw (rw zero_t at ran') (
                  out,
                  ran,
                  Adds-trans (BitFrom b 0 8 t) (InVector bs (t + 8)) (InVector (b ∷ bs) t) xs ys out
                      adds' adds (InVector-cons b t bs),
                ))
        ]
