-- ===== src/Util.antt =====
-- lib/util.c: the byte order of an index entry.
pub mod Order
pub mod Reversed
use sufary.Base.{
  ℕ, zero, suc, ◌+◌, ◌-◌, ◌*◌, ◌/◌, ◌%◌, ◌≡◌, List, [], ◌∷◌, length, get_or, set, ◌++◌, ltb,
  if◌then◌else◌,
}
use sufary.Base.Run.{Run, done, stop, buffer_overflow}

-- One exchange of the loop: `tmp = c[j]; c[j] = c[size - 1 - j]; c[size - 1 - j] = tmp`.
unfoldable pub exchange : List ℕ → ℕ → ℕ → List ℕ
exchange c size j =
    let tmp = get_or c j 0 in
    let c' = set c j (get_or c (size - 1 - j) 0) in set c' (size - 1 - j) tmp

-- The loop over `j`, by the number of rounds that are left.
unfoldable pub reverse_loop : ℕ → List ℕ → ℕ → ℕ → List ℕ
unfolding exchange
reverse_loop zero c size j = c
reverse_loop (suc rounds) c size j = reverse_loop rounds (exchange c size j) size (j + 1)

-- `sa_reverse_byte_order(p, size)` on the `size` bytes at `p`.
unfoldable pub sa_reverse_byte_order : List ℕ → ℕ → List ℕ
unfolding exchange reverse_loop
sa_reverse_byte_order c size = reverse_loop (size / 2) c size 0

-- `sizeof(SA_INDEX)`; SA_INDEX is `int`
abbrev pub index_size : ℕ
index_size = 4

-- The object representation of an `int` bit pattern on a little-endian host, low byte first.
unfoldable pub bytes_of : ℕ → List ℕ
bytes_of w = (w % 256) ∷ (w / 256 % 256) ∷ (w / 65536 % 256) ∷ (w / 16777216 % 256) ∷ []

unfoldable pub word_of : List ℕ → ℕ
word_of (a ∷ b ∷ c ∷ d ∷ _) = a + 256 * b + 65536 * c + 16777216 * d
word_of _ = 0

-- `sa_reverse_byte_order(&w, sizeof(SA_INDEX))`
unfoldable pub reverse_word : ℕ → ℕ
unfolding sa_reverse_byte_order bytes_of word_of
reverse_word w = word_of (sa_reverse_byte_order (bytes_of w) index_size)

-- `sprintf(new_fname, "%s.%s", fname, suffix)` into a buffer for `room` characters. A name is the
-- characters of its C string.
unfoldable pub sa_add_suffix_to_file_name : ℕ → List ℕ → List ℕ → Run (List ℕ)
sa_add_suffix_to_file_name room fname suffix =
    let new_fname = fname ++ 46 ∷ suffix in
    if ltb (length new_fname) room then done new_fname else stop buffer_overflow
