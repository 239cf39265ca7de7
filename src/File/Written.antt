-- ===== src/File/Written.antt =====
-- An index that `sa_fwrite` writes, and `sa_aryidx2txtidx` reads, in lib/file.c and lib/search.c.
use sufary.Base.{
  ℕ, zero, suc, ◌+◌, ◌*◌, ◌/◌, ◌%◌, ◌<◌, ◌≡◌, refl, List, [], ◌∷◌, ◌++◌, length, get_elem?, get_or,
  All, All-get_or, some, arith,
}
use sufary.Base.Run.{done}
use sufary.Util.{word_of, reverse_word, index_size}
use sufary.Util.Order.{reverse_word_lem}
use sufary.File.{Sufary, sa_fwrite, sa_aryidx2txtidx}

-- the bytes of a file of entries
abbrev pub file_of : List ℕ → List ℕ
file_of [] = []
file_of (e ∷ es) = sa_fwrite e ++ file_of es

-- the words of a little-endian host that stand in a mapped file
abbrev pub words_of : List ℕ → List ℕ
words_of (a ∷ b ∷ c ∷ d ∷ bytes) = word_of (a ∷ b ∷ c ∷ d ∷ []) ∷ words_of bytes
words_of _ = []

-- what `sa_open` makes of the file of an index
abbrev pub opened : List ℕ → ℕ → List ℕ → Sufary
opened text textsize file = record {
  text = text;
  array = words_of file;
  textsize = textsize;
  arraysize = length file / index_size;
}

-- The word that stands where `sa_fwrite` has written `e`.
written : ℕ → ℕ
written e =
    e / 16777216 % 256 + 256 * (e / 65536 % 256) + 65536 * (e / 256 % 256) + 16777216 * (e % 256)

reverse_word-written : (e : ℕ) → e < 4294967296 → reverse_word (written e) ≡ e
unfolding written
reverse_word-written e h = omega (arith, reverse_word_lem (written e))

words_of-file_of :
    (e : ℕ) (es : List ℕ) → words_of (file_of (e ∷ es)) ≡ written e ∷ words_of (file_of es)
unfolding sa_fwrite word_of written
words_of-file_of e es = refl

length-file_of : (es : List ℕ) → length (file_of es) ≡ 4 * length es
unfolding sa_fwrite
length-file_of [] = refl
length-file_of (e ∷ es) = omega (arith, length-file_of es)

word_at :
    (es : List ℕ) (i : ℕ)
    → i < length es
    → get_elem? (words_of (file_of es)) i ≡ some (written (get_or es i 0))
word_at [] i h = absurd (omega arith)
word_at (e ∷ es) zero h = rw (words_of-file_of e es) refl
word_at (e ∷ es) (suc i) h = rw (words_of-file_of e es) (word_at es i (omega arith))

-- Of an index of 32-bit entries that `sa_fwrite` wrote, the size is the number of the entries, and
-- `sa_aryidx2txtidx` reads each of them as it was written.
pub sa_aryidx2txtidx-sa_fwrite :
    (text : List ℕ) (textsize : ℕ) (es : List ℕ)
    → All (λ e. e < 4294967296) es
    → ((opened text textsize (file_of es)).arraysize ≡ length es)
      × ((i : ℕ)
          → i < length es
          → sa_aryidx2txtidx (opened text textsize (file_of es)) i ≡ done (get_or es i 0))
unfolding sa_aryidx2txtidx
sa_aryidx2txtidx-sa_fwrite text textsize es small = (
  omega (arith, length-file_of es),
  λ i h. rw (word_at es i h) (
      rw (reverse_word-written (get_or es i 0) (All-get_or (λ e. e < 4294967296) es i 0 small h))
        refl),
)
