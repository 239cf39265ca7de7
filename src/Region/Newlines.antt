-- ===== src/Region/Newlines.antt =====
-- Counting the line ends in a part of a text.
use sufary.Base.{
  ℕ, zero, suc, ◌+◌, ◌-◌, ◌≤◌, ◌<◌, ◌≡◌, refl, ◌⊎◌, List, get_or, ◌==◌, if◌then◌else◌, arith,
}
use native.Mathlib.Decide.{dec_lt}
use sufary.Region.{newline}
use sufary.Region.Lines.{NoNewline}

-- the number of line ends among the `n` bytes at `a`
unfoldable pub newlines : List ℕ → ℕ → ℕ → ℕ
newlines text a zero = 0
newlines text a (suc n) = (if get_or text a 0 == newline then 1 else 0) + newlines text (a + 1) n

module _ (text : List ℕ) where
  pub newlines-add :
      (m n a : ℕ) → newlines text a (m + n) ≡ newlines text a m + newlines text (a + m) n
  unfolding newlines
  newlines-add zero n a =
      let e : zero + n ≡ n = omega arith in
      let e' : a + zero ≡ a = omega arith in rw (e, e') (omega arith)
  newlines-add (suc m) n a =
      let e : suc m + n ≡ suc (m + n) = omega arith in
      let e' : a + suc m ≡ a + 1 + m = omega arith in
      rw (e, e') (omega (arith, newlines-add m n (a + 1)))

  pub newlines-split :
      (a b c : ℕ)
      → a ≤ b
      → b ≤ c
      → newlines text a (c - a) ≡ newlines text a (b - a) + newlines text b (c - b)
  newlines-split a b c h k =
      let e : c - a ≡ (b - a) + (c - b) = omega arith in
      let e' : a + (b - a) ≡ b = omega arith in rw e (rw e' at (newlines-add (b - a) (c - b) a))

  pub newlines-clear : (n a b : ℕ) → b ≡ a + n → NoNewline text a b → newlines text a n ≡ 0
  unfolding newlines
  newlines-clear zero a b e h = refl
  newlines-clear (suc n) a b e h = ground (
    arith,
    h a (omega arith) (omega arith),
    newlines-clear n (a + 1) b (omega arith) (λ j p q. h j (omega arith) q),
  )

  pub newlines-one : (a : ℕ) → newlines text a 1 ≤ 1
  unfolding newlines
  newlines-one a = ground arith

  pub newlines-at : (a : ℕ) → get_or text a 0 ≡ newline → newlines text a 1 ≡ 1
  unfolding newlines
  newlines-at a h = ground arith

  -- a line that is followed by its end
  pub newlines-line :
      (a e : ℕ)
      → a < e
      → NoNewline text a (e - 1)
      → get_or text (e - 1) 0 ≡ newline
      → newlines text a (e - a) ≡ 1
  newlines-line a e h clear at =
      let s = newlines-split a (e - 1) e (omega arith) (omega arith) in
      let one : e - (e - 1) ≡ 1 = omega arith in
      omega (
        arith,
        rw one at s,
        newlines-clear (e - 1 - a) a (e - 1) (omega arith) clear,
        newlines-at (e - 1) at,
      )

  pub newlines-line_le : (a e : ℕ) → a ≤ e → NoNewline text a (e - 1) → newlines text a (e - a) ≤ 1
  newlines-line_le a e h clear = elim (dec_lt a e) [
    | no p ↦ let z : e - a ≡ 0 = omega arith in rw z (unfold newlines in (omega arith))
    | yes p ↦
        let s = newlines-split a (e - 1) e (omega arith) (omega arith) in
        let one : e - (e - 1) ≡ 1 = omega arith in
        omega (
          arith,
          rw one at s,
          newlines-clear (e - 1 - a) a (e - 1) (omega arith) clear,
          newlines-one (e - 1),
        )
  ]

  -- A line may begin at `h`.
  abbrev pub IsStart : ℕ → ℕ → Type 0
  IsStart bof h = (h ≡ bof) ⊎ ((0 < h) × (get_or text (h - 1) 0 ≡ newline))
