-- ===== src/Search.antt =====
-- lib/search.c: the search for a key in a suffix array.
pub mod Lex
pub mod Compare
pub mod Midpoint
pub mod Round
pub mod Loop
pub mod Suffix
pub mod LexOrder
pub mod Boundary
pub mod Block
pub mod Find
pub mod Halting
use Prim.Native.Nat.{bit_and}
use sufary.Base.{
  ℕ, zero, suc, ◌+◌, ◌-◌, ◌/◌, Bool, true, false, List, [], ◌∷◌, ◌++◌, map, min, length, get_elem?,
  drop, ltb, leb, if◌then◌else◌, ◌&&◌,
}
use sufary.Base.Int.{ℤ, pos, negsuc, minus, eq_int}
use sufary.Base.Run.{Run, done, stop, out_of_fuel, buffer_overflow, assert, or_fault, ◌>>=◌, ◌>>◌}
use sufary.File.{Sufary, sa_get_array_size, sa_aryidx2txtptr}

-- SA_STAT
pub data Stat : Type 0 where
  success fail : Stat

-- SUF_RESULT, without the pointer to the array that was searched. The C code leaves `left` and
-- `right` unset where it fails; here they are 0.
pub record SufResult : Type 0 where
  pub left : ℕ
  pub right : ℕ
  pub stat : Stat

-- SA_BSEARCH_RESULT
pub record BsearchResult : Type 0 where
  pub center : ℕ
  pub left : ℕ
  pub right : ℕ
  pub left_prefix_len : ℕ
  pub right_prefix_len : ℕ
  pub base_txt_skip : ℕ
  pub state : Stat

-- The loop of `cmp_sistr` in round `i`, with `rounds` left: `txt` points into the text, `str` is
-- what is left of the key. The result is the difference, and what `*diffpos` is set to.
unfoldable pub cmp_loop : List ℕ → ℕ → List ℤ → ℕ → ℕ → Run (ℤ × ℕ)
cmp_loop text txt str zero i = done (pos 0, i)
cmp_loop text txt [] (suc rounds) i = or_fault (get_elem? [] 0)
cmp_loop text txt (k ∷ str) (suc rounds) i = do
  t ← or_fault (get_elem? text txt)
  let rest = cmp_loop text (txt + 1) str rounds (i + 1)
  if eq_int t k then rest else done (minus t k, i)

-- Compares the string at `txt` with the first `len` characters of `str`.
unfoldable pub cmp_sistr : List ℕ → ℕ → List ℤ → ℕ → Run (ℤ × ℕ)
unfolding cmp_loop
cmp_sistr text txt str len = cmp_loop text txt str len 0

-- `left / 2 + right / 2 + (1 & left & right)`
unfoldable pub midpoint : ℕ → ℕ → ℕ
midpoint left right = left / 2 + right / 2 + bit_and (bit_and 1 left) right

-- The end of a round: what the sign of the comparison at `cur` does, and whether the loop breaks.
-- `len` is `txt_skip + diffpos`.
abbrev pub narrow : BsearchResult → ℕ → ℕ → ℤ → BsearchResult × Bool
narrow sbr cur len (negsuc _) = (record sbr { left = cur + 1; left_prefix_len = len }, false)
narrow sbr cur len (pos (suc _)) = (record sbr { right = cur; right_prefix_len = len }, false)
narrow sbr cur len (pos zero) = (record sbr { center = cur; state = success }, true)

-- The `break`, or the next round.
abbrev pub unless_stopped :
    (BsearchResult → Run BsearchResult) → BsearchResult × Bool → Run BsearchResult
unless_stopped again (sbr, true) = done sbr
unless_stopped again (sbr, false) = again sbr

abbrev pub txt_skip : BsearchResult → ℕ
txt_skip sbr = min sbr.left_prefix_len sbr.right_prefix_len

abbrev pub key_skip : BsearchResult → ℕ
key_skip sbr = txt_skip sbr - sbr.base_txt_skip

module _ (ary : Sufary) (key : List ℤ) (keylen : ℕ) where
  -- One round of the `while` of `sa_bsearch`. The test of `key_skip` is the assertion
  -- `0 <= len` of `cmp_sistr`.
  unfoldable pub bsearch_round : BsearchResult → Run (BsearchResult × Bool)
  unfolding midpoint cmp_sistr sa_aryidx2txtptr
  bsearch_round sbr = do
    let cur = midpoint sbr.left sbr.right
    txt ← sa_aryidx2txtptr ary cur
    assert (leb (key_skip sbr) keylen)
    (result_of_cmp, diffpos) ←
        cmp_sistr ary.text (txt + txt_skip sbr) (drop (key_skip sbr) key) (keylen - key_skip sbr)
    done (narrow sbr cur (txt_skip sbr + diffpos) result_of_cmp)

  -- The `while`, with fuel.
  unfoldable pub bsearch_loop : ℕ → BsearchResult → Run BsearchResult
  bsearch_loop zero sbr = stop out_of_fuel
  bsearch_loop (suc fuel) sbr = elim (ltb sbr.left sbr.right) [
    | false ↦ done sbr
    | true ↦ bsearch_round sbr >>= unless_stopped (bsearch_loop fuel)
  ]

  abbrev pub finish : BsearchResult → BsearchResult
  finish sbr = elim sbr.state [
    | success ↦ sbr
    | fail ↦ record sbr { center = midpoint sbr.left sbr.right }
  ]

  -- A round shrinks the range, so its width is fuel enough.
  unfoldable pub sa_bsearch : BsearchResult → Run BsearchResult
  unfolding bsearch_round bsearch_loop sa_get_array_size
  sa_bsearch sbr = do
    assert (leb sbr.right (sa_get_array_size ary))
    assert (ltb sbr.left sbr.right)
    sbr' ← bsearch_loop (suc (sbr.right - sbr.left)) (record sbr { state = fail })
    done (finish sbr')

abbrev pub keyword_max_length : ℕ
keyword_max_length = 5000

-- A write below `limit`, the end of a buffer.
abbrev pub room : ℕ → ℕ → Run (Unit {0})
room i limit = if ltb i limit then done tt else stop buffer_overflow

-- Steps 2 and 3 of `sa_find`: from the entry that was hit, the ends of the block of matches.
-- `keyary` holds the key and the number 256 or -1 behind it; it has room for
-- `keyword_max_length` entries, and no search reads past what is stored here.
unfoldable pub find_ends : Sufary → List ℕ → ℕ → BsearchResult → Run SufResult
unfolding sa_bsearch
find_ends ary key base_txt_skip sbr = elim sbr.state [
  | fail ↦ done (record { left = 0; right = 0; stat = fail })
  | success ↦ do
    let keylen = length key
    room keylen keyword_max_length
    sbr_r ←
        sa_bsearch ary (map pos key ++ pos 256 ∷ []) (keylen + 1)
          (record sbr { left = sbr.center; left_prefix_len = keylen + base_txt_skip })
    sbr_l ←
        sa_bsearch ary (map pos key ++ negsuc 0 ∷ []) (keylen + 1)
          (record sbr { right = sbr.center + 1; right_prefix_len = keylen + base_txt_skip })
    done (record { left = sbr_l.center; right = sbr_r.center - 1; stat = success })
]

-- Finds the entries from `left` to `right` whose strings begin with the key, `base_txt_skip`
-- characters behind their positions. `key` is the bytes of the key, as many as `keylen`.
unfoldable pub sa_find : Sufary → ℕ → ℕ → List ℕ → ℕ → Run SufResult
unfolding sa_bsearch find_ends
sa_find ary left right key base_txt_skip = do
  assert (ltb right ary.arraysize)
  let keylen = length key
  let keyary = map pos key
  room keylen (keyword_max_length + 1)
  sbr ← sa_bsearch ary keyary keylen (record {
    center = 0;
    left = left;
    right = right + 1;
    left_prefix_len = base_txt_skip;
    right_prefix_len = base_txt_skip;
    base_txt_skip = base_txt_skip;
    state = fail;
  })
  find_ends ary key base_txt_skip sbr
