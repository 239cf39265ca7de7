-- ===== src/MakeDid.antt =====
-- lib/make-did.c: from the tags in a text, the file of its documents.
pub mod Spread
pub mod Regions
pub mod Made
pub mod Covers
use sufary.Base.{
  ℕ, zero, suc, ◌+◌, ◌-◌, ◌*◌, ◌==◌, Bool, true, false, List, [], ◌∷◌, ◌++◌, length, get_elem?, set,
  take, drop, ltb, if◌then◌else◌, Option, none, some,
}
use sufary.Base.Int.{ℤ, sub_ℕ}
use sufary.Base.Run.{Run, done, stop, out_of_bounds, or_fault, ◌>>=◌}
use sufary.File.{Sufary, sa_get_text_size, sa_aryidx2txtidx}
use sufary.Search.{Stat, success, fail, SufResult, sa_find}

-- Positions are not negative, so their difference is an `int`.
unfoldable pub longcomp : ℕ → ℕ → ℤ
longcomp i j = sub_ℕ i j

-- `rslt[i] = v`
abbrev pub store : List ℕ → ℕ → ℕ → Run (List ℕ)
store rslt i v = if ltb i (length rslt) then done (set rslt i v) else stop out_of_bounds

-- sr.right - sr.left + 1
abbrev pub count_of : SufResult → ℕ
count_of sr = sr.right - sr.left + 1

-- The two loops `for (i = 0; i < num; i++)`, with `rounds` left: the positions of the entries from
-- `left` on, each `plus` bytes further, are stored from `to` on.
unfoldable pub position_loop : Sufary → ℕ → ℕ → ℕ → ℕ → ℕ → List ℕ → Run (List ℕ)
position_loop ary left plus to zero i rslt = done rslt
position_loop ary left plus to (suc rounds) i rslt = do
  p ← sa_aryidx2txtidx ary (left + i)
  rslt' ← store rslt (to + i) (p + plus)
  position_loop ary left plus to rounds (i + 1) rslt'

-- The loop that goes down from `num * 2 - 2` by 2, with i = 2 * rounds:
-- `rslt[i] = rslt[i - 1] = rslt[i / 2]`.
unfoldable pub spread_loop : ℕ → List ℕ → Run (List ℕ)
spread_loop zero rslt = done rslt
spread_loop (suc rounds) rslt = do
  v ← or_fault (get_elem? rslt (suc rounds))
  rslt' ← store rslt (2 * suc rounds - 1) v
  rslt'' ← store rslt' (2 * suc rounds) v
  spread_loop rounds rslt''

-- `qsort` is the C library's, by what it makes of the entries that it is given; `fresh n` is what
-- `malloc` returns for `n` entries.
module _ (qsort : (ℕ → ℕ → ℤ) → List ℕ → List ℕ) (fresh : ℕ → List ℕ) where
  -- `qsort(rslt, n, sizeof(SA_INDEX), longcomp)`
  unfoldable pub sort_first : ℕ → List ℕ → List ℕ
  sort_first n rslt = qsort longcomp (take n rslt) ++ drop n rslt

  -- Without an end tag a document ends where the next one starts.
  unfoldable pub end_at_next : Sufary → ℕ → List ℕ → Run (Option (List ℕ))
  unfolding sort_first spread_loop sa_get_text_size
  end_at_next ary num rslt = do
    rslt' ← store (sort_first num rslt) (num * 2 - 1) (sa_get_text_size ary)
    rslt'' ← spread_loop (num - 1) rslt'
    done (some rslt'')

  -- With an end tag a document ends behind it. `none` is FAIL.
  unfoldable pub end_at_tag : Sufary → List ℕ → ℕ → List ℕ → Run (Option (List ℕ))
  unfolding sort_first position_loop sa_find
  end_at_tag ary tag2 num rslt = do
    sr_tag2 ← sa_find ary 0 (ary.arraysize - 1) tag2 0
    elim sr_tag2.stat [
      | fail ↦ done none
      | success ↦
          let all = position_loop ary sr_tag2.left (length tag2) num num 0 rslt >>= λ rslt'.
          done (some (sort_first (num * 2) rslt')) in
          if num == count_of sr_tag2 then all else done none
    ]

  abbrev pub ends_of : Sufary → List ℕ → ℕ → List ℕ → Run (Option (List ℕ))
  ends_of ary [] = end_at_next ary
  ends_of ary (c ∷ cs) = end_at_tag ary (c ∷ cs)

  -- What is written, if the output file can be opened.
  abbrev pub written : Bool → ℕ → Option (List ℕ) → Option (List ℕ)
  written created num none = none
  written created num (some rslt) = if created then some (take (num * 2) rslt) else none

  -- `sa_make_did` from the search for the start tag on.
  unfoldable pub make_of_starts : Sufary → List ℕ → Bool → SufResult → Run (Option (List ℕ))
  unfolding position_loop end_at_next end_at_tag
  make_of_starts ary tag2 created sr_tag1 = elim sr_tag1.stat [
    | fail ↦ done none
    | success ↦ do
      let num = count_of sr_tag1
      rslt ← position_loop ary sr_tag1.left 0 0 num 0 (fresh (num * 2))
      r ← ends_of ary tag2 num rslt
      done (written created num r)
  ]

  -- `sa_make_did`: `opened` is the result of `sa_open`, `created` is whether `fopen` opens the
  -- output, an empty `tag2` stands for NULL too. The result is the entries that `sa_fwrite` writes, in
  -- order, or `none` for FAIL. An empty array is stopped by an assertion of the search, as in C.
  unfoldable pub sa_make_did : Option Sufary → List ℕ → List ℕ → Bool → Run (Option (List ℕ))
  unfolding sa_find make_of_starts
  sa_make_did none tag1 tag2 created = done none
  sa_make_did (some ary) tag1 tag2 created =
      sa_find ary 0 (ary.arraysize - 1) tag1 0 >>= make_of_starts ary tag2 created
