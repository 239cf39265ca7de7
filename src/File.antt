-- ===== src/File.antt =====
-- lib/file.c and the access functions at the end of lib/search.c: an opened text with its index.
pub mod Opening
pub mod Closed
pub mod RoundTrip
pub mod Written
use sufary.Base.{ℕ, ◌+◌, List, get_elem?}
use sufary.Base.Run.{Run, done, or_fault, ◌>>=◌}
use sufary.Util.{reverse_word, sa_reverse_byte_order, bytes_of, index_size}

-- SUFARY. `text` is what can be read from the address of the mapped text on: the bytes of the file,
-- and the zero bytes that fill its last page. `array` is the mapped index as the host's words.
pub record Sufary : Type 0 where
  pub text : List ℕ
  pub array : List ℕ
  pub textsize : ℕ
  pub arraysize : ℕ

unfoldable pub sa_get_text_size : Sufary → ℕ
sa_get_text_size ary = ary.textsize

unfoldable pub sa_get_array_size : Sufary → ℕ
sa_get_array_size ary = ary.arraysize

-- An entry of the index is stored high byte first. A word of 2 ^ 31 or more is a negative `int`:
-- as a position it lies outside the text, as it does for C.
unfoldable pub sa_aryidx2txtidx : Sufary → ℕ → Run ℕ
sa_aryidx2txtidx ary idx = do w ← or_fault (get_elem? ary.array idx); done (reverse_word w)

-- A pointer into the text is its distance from `text`.
unfoldable pub sa_txtidx2txtptr : Sufary → ℕ → ℕ
sa_txtidx2txtptr ary idx = 0 + idx

unfoldable pub sa_aryidx2txtptr : Sufary → ℕ → Run ℕ
sa_aryidx2txtptr ary idx = do w ← or_fault (get_elem? ary.array idx); done (0 + reverse_word w)

-- `sa_fwrite` on a little-endian host: the bytes that are written.
unfoldable pub sa_fwrite : ℕ → List ℕ
unfolding sa_reverse_byte_order bytes_of
sa_fwrite idx = sa_reverse_byte_order (bytes_of idx) index_size
