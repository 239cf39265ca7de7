-- ===== src/MakeIndex/WriteIndex.antt =====
-- `sa_write_index` of lib/make-index.c writes the points of the text, each once and in order.
use Prim.Native.Nat.{bit_and}
use sufary.Base.{
  ℕ, zero, suc, ◌+◌, ◌≤◌, ◌<◌, ◌≡◌, refl, ◌⊎◌, inl, inr, ◌↔◌, List, [], ◌∷◌, ltb, lt→ltb,
  Bool-cases, true, false, arith, if◌then◌else◌, ◌==◌,
}
use native.Mathlib.Decide.{dec_lt, ℕ_discrete}
use sufary.Base.Int.{ℤ, pos, negsuc, less_int}
use sufary.Base.Run.{Run, done, Ends}
use sufary.IndexPoint.Contract.{IsNext, NextPoint}
use sufary.MakeIndex.{write_loop, sa_write_index, cut_top}

-- The list is strictly ascending, from `first` on.
abbrev pub Ascends : ℕ → List ℕ → Type 0
Ascends first [] = Unit {0}
Ascends first (x ∷ xs) = (first ≤ x) × Ascends (x + 1) xs

-- The value stands in the list.
abbrev pub Stands : ℕ → List ℕ → Type 0
Stands j [] = ⊥
Stands j (x ∷ xs) = (j ≡ x) ⊎ Stands j xs

-- the first position that can be written
abbrev pub first_of : ℕ → ℕ
first_of mode = if bit_and mode cut_top == 0 then 0 else 1

Ascends-le : (first j : ℕ) (xs : List ℕ) → Ascends first xs → Stands j xs → first ≤ j
Ascends-le first j [] h s = elim s [ ]
Ascends-le first j (x ∷ xs) h (inl e) = omega (arith, h.0)
Ascends-le first j (x ∷ xs) h (inr s) = omega (arith, h.0, Ascends-le (x + 1) j xs h.1 s)

-- The entries are the points of the text from `first` on.
abbrev pub Writes : ℕ → (ℕ → Type 0) → ℕ → List ℕ → Type 0
Writes len Point first xs =
    Ascends first xs × ((j : ℕ) → Stands j xs ↔ ((first ≤ j) × (j < len) × Point j))

module _ (len : ℕ) (next : ℤ → Run ℕ) (Point From : ℕ → Type 0)
    (ok : NextPoint len next Point From) where
  -- from the next point on, to from `first` on
  Writes-cons :
      (first r : ℕ) (xs : List ℕ)
      → r < len
      → IsNext len Point first r
      → Writes len Point (r + 1) xs
      → Writes len Point first (r ∷ xs)
  Writes-cons first r xs inside (a, b, point, none) (ascends, stands) = (
    (a, ascends),
    λ j. (
      elim [
        | inl e ↦ (omega arith, omega arith, rw e (point inside))
        | inr s ↦ let (p, q, t) = (stands j).0 s in (omega arith, q, t)
      ],
      λ (p, q, t). elim (dec_lt j r) [
        | yes early ↦ absurd (none j p early t)
        | no late ↦ elim (ℕ_discrete j r) [
          | yes same ↦ inl same
          | no ne ↦ inr ((stands j).1 (omega arith, q, t))
        ]
      ],
    ),
  )

  Writes-nil : (first r : ℕ) → ¬ (r < len) → IsNext len Point first r → Writes len Point first []
  Writes-nil first r out (a, b, point, none) =
      (tt, λ j. (λ s. elim s [ ], λ (p, q, t). none j p (omega arith) t))

  -- where the loop may stand
  data Turn : ℤ → ℕ → Type 0 where
    top : Turn (negsuc 0) 0
    at : (n : ℕ) → n < len → From n → Turn (pos n) (n + 1)

  Turn-IsNext : {i : ℤ} {first : ℕ} → Turn i first → Ends (next i) (IsNext len Point first)
  Turn-IsNext top = ok.top
  Turn-IsNext (at n h from) = ok.after n h from

  Turn-less : {i : ℤ} {first : ℕ} → Turn i first → less_int i len ≡ true
  Turn-less top = refl
  Turn-less (at n h from) = lt→ltb n len h

  Turn-le : {i : ℤ} {first : ℕ} → Turn i first → first ≤ len
  Turn-le top = omega arith
  Turn-le (at n h from) = omega arith

  write_loop_end :
      (fuel r : ℕ) → 0 < fuel → ¬ (r < len) → write_loop next len fuel (pos r) ≡ done []
  unfolding write_loop
  write_loop_end zero r h out = elim h [ ]
  write_loop_end (suc fuel) r h out =
      let stop : ltb r len ≡ false = ground arith in rw (stop, write_loop)

  write_loop-Writes :
      (fuel : ℕ) (i : ℤ) (first : ℕ)
      → Turn i first
      → len + 1 < first + fuel
      → Ends (write_loop next len fuel i) (Writes len Point first)
  unfolding write_loop
  write_loop-Writes zero i first turn f = absurd (omega (arith, Turn-le turn))
  write_loop-Writes (suc fuel) i first turn f =
      let (r, ran, is_next) = Turn-IsNext turn in
      elim (dec_lt r len) [
        | yes inside ↦
            let (xs, ran', writes) =
              write_loop-Writes fuel (pos r) (r + 1)
                (at r inside (ok.from_point r (is_next.2 inside))) (omega (arith, is_next.0)) in
            rw (Turn-less turn, write_loop)
              (rw ran (
                rw (ran', lt→ltb r len inside)
                  (r ∷ xs, refl, Writes-cons first r xs inside is_next writes)))
        | no out ↦
            let stop : ltb r len ≡ false = ground arith in
            let last = write_loop_end fuel r (omega (arith, is_next.0, is_next.1)) out in
            rw (Turn-less turn, write_loop)
              (rw ran (rw (last, stop) ([], refl, Writes-nil first r out is_next)))
      ]

  start-Turn :
      (mode : ℕ)
      → 0 < len
      → Turn (if bit_and mode cut_top == 0 then negsuc 0 else pos 0) (first_of mode)
  start-Turn mode h = elim (Bool-cases (bit_and mode cut_top == 0)) [
    | inl e ↦ rw e top
    | inr e ↦ rw e (at 0 h ok.from_zero)
  ]

  -- Given a function that finds the points of a text that is not empty, `sa_write_index` ends, and
  -- writes in ascending order all points, and nothing else; with SA_CUT_TOP all but position 0.
  pub sa_write_index-Writes :
      (mode : ℕ) → 0 < len → Ends (sa_write_index next len mode) (Writes len Point (first_of mode))
  unfolding sa_write_index
  sa_write_index-Writes mode h =
      write_loop-Writes (len + 2) _ (first_of mode) (start-Turn mode h) (omega arith)
