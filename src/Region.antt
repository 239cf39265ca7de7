-- ===== src/Region.antt =====
-- lib/region.c: the lines and the tagged regions around a position. A pointer into the text is its
-- distance from the text's beginning.
pub mod Lines
pub mod Newlines
pub mod Context
pub mod ContextLines
pub mod Pattern
use sufary.Base.{
  ℕ, zero, suc, ◌+◌, ◌-◌, Bool, true, false, List, [], ◌∷◌, ◌++◌, length, get_elem?, take, drop,
  ltb, leb, ◌==◌, ◌&&◌, if◌then◌else◌, Option, none, some,
}
use sufary.Base.Int.{ℤ, sub_ℕ}
use sufary.Base.Run.{Run, done, stop, out_of_fuel, out_of_bounds, or_fault, assert, ◌>>=◌, ◌>>◌}
use sufary.File.{Sufary, sa_get_text_size, sa_txtidx2txtptr}

-- SA_STRING, a part of the text
pub record SaString : Type 0 where
  pub ptr : ℕ
  pub len : ℕ

abbrev pub newline : ℕ
newline = 10

-- The `len` bytes at `p`, for the C library's `memcpy` and `memcmp`, which access all of them.
unfoldable pub bytes_at : List ℕ → ℕ → ℕ → Run (List ℕ)
bytes_at text p len =
    if leb (p + len) (length text) then done (take len (drop p text)) else stop out_of_bounds

-- What `dst` holds afterwards, and the result.
unfoldable pub sa_copy_region : List ℕ → SaString → Run (List ℕ × ℕ)
unfolding bytes_at
sa_copy_region text src = do bytes ← bytes_at text src.ptr src.len; done (bytes ++ 0 ∷ [], src.len)

-- `allocated` is whether `malloc` finds the memory; `none` is NULL.
unfoldable pub sa_dup_region : Bool → List ℕ → SaString → Run (Option (List ℕ))
unfolding sa_copy_region
sa_dup_region allocated text src = elim allocated [
  | false ↦ done none
  | true ↦ sa_copy_region text src >>= λ (dst, len). done (some dst)
]

-- `memcmp(pos, pattern.ptr, pattern.len) == 0`
unfoldable pub same_bytes : List ℕ → List ℕ → Bool
same_bytes [] [] = true
same_bytes (x ∷ xs) (y ∷ ys) = x == y && same_bytes xs ys
same_bytes _ _ = false

module _ (text : List ℕ) where
  -- The `while` of `sa_seek_bol`, on `pos`.
  unfoldable pub bol_loop : ℕ → ℕ → Run ℕ
  bol_loop zero bof = done bof
  bol_loop (suc pos) bof = do
    let rest = bol_loop pos bof
    let read = or_fault (get_elem? text pos) >>= λ c. if c == newline then done (pos + 1) else rest
    if ltb bof (suc pos) then read else done bof

  unfoldable pub sa_seek_bol : ℕ → ℕ → Run ℕ
  unfolding bol_loop
  sa_seek_bol pos bof = do assert (leb bof pos); bol_loop pos bof

  -- The `while` of `sa_seek_eol`, with `rounds` bytes left before `eof`.
  unfoldable pub eol_loop : ℕ → ℕ → ℕ → Run ℕ
  eol_loop zero pos eof = done eof
  eol_loop (suc rounds) pos eof = do
    c ← or_fault (get_elem? text pos)
    let rest = eol_loop rounds (pos + 1) eof
    if c == newline then done (pos + 1) else rest

  unfoldable pub sa_seek_eol : ℕ → ℕ → Run ℕ
  unfolding eol_loop
  sa_seek_eol pos eof = do assert (leb pos eof); eol_loop (eof - pos) pos eof

  -- The first `while` of `sa_seek_context_lines`.
  unfoldable pub backward_loop : ℕ → ℕ → ℕ → Run ℕ
  backward_loop zero bof head = done head
  backward_loop (suc bkwrd) bof head =
      if ltb bof head then sa_seek_bol (head - 1) bof >>= backward_loop bkwrd bof else done head

  -- The second one.
  unfoldable pub forward_loop : ℕ → ℕ → ℕ → Run ℕ
  forward_loop zero eof tail = done tail
  forward_loop (suc frwrd) eof tail =
      if ltb tail eof then sa_seek_eol (tail + 1) eof >>= forward_loop frwrd eof else done tail

  unfoldable pub matches_at : ℕ → List ℕ → Run Bool
  unfolding bytes_at same_bytes
  matches_at pos pattern = do
    bytes ← bytes_at text pos (length pattern)
    done (same_bytes bytes pattern)

  -- The `while` of `sa_seek_pattern_backward`, on `pos`.
  unfoldable pub backward_pattern_loop : ℕ → ℕ → List ℕ → Run ℕ
  backward_pattern_loop zero bof pattern = done bof
  backward_pattern_loop (suc pos) bof pattern = do
    let rest = backward_pattern_loop pos bof pattern
    let look = matches_at (suc pos) pattern >>= λ found. if found then done (suc pos) else rest
    if ltb bof (suc pos) then look else done bof

  unfoldable pub sa_seek_pattern_backward : ℕ → ℕ → List ℕ → Run ℕ
  unfolding backward_pattern_loop matches_at
  sa_seek_pattern_backward pos bof pattern = do
    assert (leb bof pos)
    backward_pattern_loop pos bof pattern

  -- The `while` of `sa_seek_pattern_forward`. A pattern that is longer than the text before `eof`
  -- puts `eof - pattern.len` before it, so the test fails there too.
  unfoldable pub forward_pattern_loop : ℕ → ℕ → ℕ → List ℕ → Run ℕ
  forward_pattern_loop zero pos eof pattern = stop out_of_fuel
  forward_pattern_loop (suc fuel) pos eof pattern = do
    let rest = forward_pattern_loop fuel (pos + 1) eof pattern
    let look =
        matches_at pos pattern >>= λ found. if found then done (pos + length pattern) else rest
    if leb (pos + length pattern) eof then look else done eof

  unfoldable pub sa_seek_pattern_forward : ℕ → ℕ → List ℕ → Run ℕ
  unfolding forward_pattern_loop matches_at
  sa_seek_pattern_forward pos eof pattern = do
    assert (ltb pos eof)
    forward_pattern_loop (suc (suc (eof - pos))) pos eof pattern

abbrev pub string_between : ℕ → ℕ → SaString
string_between head tail = record { ptr = head; len = tail - head }

module _ (ary : Sufary) where
  unfoldable pub sa_seek_context_lines : ℕ → ℕ → ℕ → Run SaString
  unfolding sa_seek_bol sa_seek_eol backward_loop forward_loop sa_get_text_size
  sa_seek_context_lines pos bkwrd frwrd = do
    let bof : ℕ = 0
    let eof = bof + sa_get_text_size ary
    head ← sa_seek_bol ary.text pos bof
    tail ← sa_seek_eol ary.text head eof
    head' ← backward_loop ary.text bkwrd bof head
    tail' ← forward_loop ary.text frwrd eof tail
    done (string_between head' tail')

  unfoldable pub sa_seek_context_region : ℕ → List ℕ → List ℕ → Run SaString
  unfolding sa_seek_pattern_backward sa_seek_pattern_forward sa_get_text_size
  sa_seek_context_region pos begin_tag end_tag = do
    let bof : ℕ = 0
    let eof = bof + sa_get_text_size ary
    head ← sa_seek_pattern_backward ary.text pos bof begin_tag
    tail ← sa_seek_pattern_forward ary.text pos eof end_tag
    done (string_between head tail)

  unfoldable pub sa_position_in_string : SaString → ℕ → ℤ
  unfolding sa_txtidx2txtptr
  sa_position_in_string sstr pos = sub_ℕ (sa_txtidx2txtptr ary pos) sstr.ptr
