-- ===== src/IndexPoint/Contract.antt =====
-- What `sa_write_index` of lib/make-index.c relies on in the function that it is given.
use sufary.Base.{ℕ, ◌+◌, ◌≤◌, ◌<◌}
use sufary.Base.Int.{ℤ, pos, negsuc}
use sufary.Base.Run.{Run, Ends}

-- `r` is the next point from `first` on, or the length of the text.
abbrev pub IsNext : ℕ → (ℕ → Type 0) → ℕ → ℕ → Type 0
IsNext len Point first r =
    (first ≤ r) × (r ≤ len) × (r < len → Point r) × ((j : ℕ) → first ≤ j → j < r → ¬ Point j)

-- `next` finds the points of a text of `len` bytes one after the other. It is called at -1, or at
-- a position that it may go on from.
pub record NextPoint (len : ℕ) (next : ℤ → Run ℕ) (Point From : ℕ → Type 0) : Type 0 where
  pub from_zero : From 0
  pub from_point : (j : ℕ) → Point j → From j
  pub top : Ends (next (negsuc 0)) (IsNext len Point 0)
  pub after : (n : ℕ) → n < len → From n → Ends (next (pos n)) (IsNext len Point (n + 1))
