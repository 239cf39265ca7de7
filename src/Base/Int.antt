-- ===== src/Base/Int.antt =====
-- C's `int` where a value can be negative: `negsuc n` is -(n + 1).
use Prim.Native.Nat.{ℕ, ◌+◌, ◌-◌, ◌%◌}
use mathlib.Core.Bool.{Bool, true, false}
use sufary.Base.Tests.{leb, ltb, ◌==◌, if◌then◌else◌}

pub data ℤ : Type 0 where
  pos : ℕ → ℤ
  negsuc : ℕ → ℤ

-- a - b, as an integer
abbrev pub sub_ℕ : ℕ → ℕ → ℤ
sub_ℕ a b = if leb b a then pos (a - b) else negsuc (b - a - 1)

-- t - k for an unsigned char `t`
abbrev pub minus : ℕ → ℤ → ℤ
minus t (pos n) = sub_ℕ t n
minus t (negsuc n) = pos (t + n + 1)

-- t == k
abbrev pub eq_int : ℕ → ℤ → Bool
eq_int t (pos n) = t == n
eq_int t (negsuc n) = false

-- i < n
abbrev pub less_int : ℤ → ℕ → Bool
less_int (pos i) n = ltb i n
less_int (negsuc _) n = true

-- n < i
abbrev pub above : ℤ → ℕ → Bool
above (pos i) n = ltb n i
above (negsuc _) n = false

-- i - n
abbrev pub less_by : ℤ → ℕ → ℤ
less_by (pos i) n = sub_ℕ i n
less_by (negsuc i) n = negsuc (i + n)

-- the number of rounds of a loop up to `n`
abbrev pub rounds_to : ℤ → ℕ
rounds_to (pos n) = n
rounds_to (negsuc _) = 0

-- An `int` as its word, 2 ^ 31 and more for the negative ones: what is stored of a number in it, and
-- whether one is negative, below another, and up to another.
abbrev pub to_word : ℕ → ℕ
to_word n = n % 4294967296

abbrev pub is_negative : ℕ → Bool
is_negative w = leb 2147483648 w

abbrev pub ltb_int : ℕ → ℕ → Bool
ltb_int a b =
    if is_negative a
    then (if is_negative b then ltb a b else true)
    else (if is_negative b then false else ltb a b)

abbrev pub leb_int : ℕ → ℕ → Bool
leb_int a b =
    if is_negative a
    then (if is_negative b then leb a b else true)
    else (if is_negative b then false else leb a b)

-- a - b, wrapping around
abbrev pub sub_int : ℕ → ℕ → ℕ
sub_int a b = to_word (a + 4294967296 - b)
