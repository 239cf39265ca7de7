-- ===== src/Search/Midpoint.antt =====
-- The middle of a range, which lib/search.c and lib/did.c compute without the sum of its ends.
use Prim.Native.Nat.{bit_and, digits, bit_and-bitwise}
use sufary.Base.{ℕ, zero, suc, ◌+◌, ◌/◌, ◌%◌, ◌<◌, ◌≡◌, refl, ap, min, arith}
use sufary.Search.{midpoint}

-- The digits of `bit_and`, for any number of rounds that is enough.
abbrev and_digits : ℕ → ℕ → ℕ → ℕ
and_digits n a b = digits (λ b. zero) min n a b

zero-bit_and : (b : ℕ) → bit_and 0 b ≡ 0
zero-bit_and b = bit_and-bitwise 0 b

and_digits-zero : (n b : ℕ) → and_digits n 0 b ≡ 0
and_digits-zero zero b = refl
and_digits-zero (suc n) b = refl

-- 1 & a is the last bit of `a`.
one-bit_and : (a : ℕ) → bit_and 1 a ≡ a % 2
one-bit_and a = omega (arith, bit_and-bitwise 1 a)

bit-bit_and : (x b : ℕ) → x < 2 → bit_and x b ≡ min x (b % 2)
bit-bit_and zero b h = omega (arith, zero-bit_and b)
bit-bit_and (suc zero) b h = omega (arith, one-bit_and b)
bit-bit_and (suc (suc x)) b h = absurd (omega arith)

-- The sum of the halves and of the bit both ends share is the middle of the range, rounded down.
pub midpoint_exact : (l r : ℕ) → midpoint l r ≡ (l + r) / 2
unfolding midpoint
midpoint_exact l r = omega (
  arith,
  one-bit_and l,
  ap (λ x. bit_and x r) (one-bit_and l),
  bit-bit_and (l % 2) r (omega arith),
)
