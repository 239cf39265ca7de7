-- ===== src/Util/Order.antt =====
-- What the byte order functions of lib/util.c do.
use sufary.Base.{ℕ, ◌+◌, ◌*◌, ◌/◌, ◌%◌, ◌<◌, ◌≡◌, refl, [], ◌∷◌, arith}
use sufary.Util.{sa_reverse_byte_order, bytes_of, word_of, reverse_word}

pub sa_reverse_byte_order_four :
    (a b c d : ℕ) → sa_reverse_byte_order (a ∷ b ∷ c ∷ d ∷ []) 4 ≡ d ∷ c ∷ b ∷ a ∷ []
unfolding sa_reverse_byte_order
sa_reverse_byte_order_four a b c d = refl

pub reverse_word_lem :
    (w : ℕ)
    → reverse_word w
      ≡ w / 16777216 % 256
        + 256 * (w / 65536 % 256)
        + 65536 * (w / 256 % 256)
        + 16777216 * (w % 256)
unfolding reverse_word
reverse_word_lem w = refl

pub word_of-bytes_of : (w : ℕ) → w < 4294967296 → word_of (bytes_of w) ≡ w
unfolding word_of bytes_of
word_of-bytes_of w h = omega arith

pub reverse_word-lt : (w : ℕ) → reverse_word w < 4294967296
reverse_word-lt w = omega (arith, reverse_word_lem w)

-- Reversing the bytes of a 32-bit word twice gives the word back.
pub reverse_word-reverse_word : (w : ℕ) → w < 4294967296 → reverse_word (reverse_word w) ≡ w
reverse_word-reverse_word w h = omega (arith, reverse_word_lem w, reverse_word_lem (reverse_word w))
