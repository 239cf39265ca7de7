-- ===== src/Did.antt =====
-- lib/did.c: the document that contains a position of the text.
pub mod Locate
pub mod Opening
pub mod Leak
use sufary.Base.{
  ℕ, zero, suc, ◌+◌, ◌-◌, ◌*◌, ◌/◌, Bool, true, false, List, get_elem?, ltb, leb, ◌&&◌,
  if◌then◌else◌,
}
use sufary.Base.Run.{Run, done, stop, out_of_fuel, assertion, or_fault, ◌>>=◌}
use sufary.Base.Int.{is_negative, ltb_int, leb_int, sub_int}
use sufary.Util.{reverse_word}
use sufary.Search.{Stat, success, fail, midpoint}

-- DID: the mapped words of the file, in which a document is two entries, its start and its end. A
-- position is an `int` as its word: from 2 ^ 31 on it is negative. `didsize` is not negative.
pub record Did : Type 0 where
  pub docid : List ℕ
  pub didsize : ℕ

-- DID_RESULT, whose `start` and `size` are words too.
pub record DidResult : Type 0 where
  pub start : ℕ
  pub size : ℕ
  pub no : ℕ
  pub stat : Stat

unfoldable pub sa_dididx2txtidx : Did → ℕ → Run ℕ
sa_dididx2txtidx did idx = do w ← or_fault (get_elem? did.docid idx); done (reverse_word w)

-- number of documents, not number of indexes
unfoldable pub sa_get_did_size : Did → ℕ
sa_get_did_size did = did.didsize / 2

unfoldable pub sa_get_start_position : Did → ℕ → Run ℕ
unfolding sa_dididx2txtidx
sa_get_start_position did id = sa_dididx2txtidx did (id * 2)

unfoldable pub sa_get_end_position : Did → ℕ → Run ℕ
unfolding sa_dididx2txtidx
sa_get_end_position did id = sa_dididx2txtidx did (id * 2 + 1)

-- the variables of `sa_didsearch`
pub record Scan : Type 0 where
  pub li : ℕ
  pub ri : ℕ
  pub cur : ℕ
  pub region_from : ℕ
  pub region_to : ℕ

-- The end of a round of the `while`, and whether it breaks.
abbrev pub step_to : ℕ → Scan → Scan × Bool
step_to target s =
    if leb_int s.region_to target
    then (record s { li = s.cur + 1 }, false)
    else (if ltb_int target s.region_from then (record s { ri = s.cur }, false) else (s, true))

abbrev pub unless_found : (Scan → Run Scan) → Scan × Bool → Run Scan
unless_found again (s, true) = done s
unless_found again (s, false) = again s

module _ (did : Did) (target : ℕ) where
  unfoldable pub scan_round : Scan → Run (Scan × Bool)
  unfolding sa_dididx2txtidx midpoint
  scan_round s = do
    let cur = midpoint s.li s.ri
    region_from ← sa_dididx2txtidx did (cur * 2)
    region_to ← sa_dididx2txtidx did (cur * 2 + 1)
    done (step_to target (record s { cur = cur; region_from = region_from; region_to = region_to }))

  -- The `while`, with fuel.
  unfoldable pub scan_loop : ℕ → Scan → Run Scan
  scan_loop zero s = stop out_of_fuel
  scan_loop (suc fuel) s = elim (ltb s.li s.ri) [
    | false ↦ done s
    | true ↦ scan_round s >>= unless_found (scan_loop fuel)
  ]

-- What `sa_didsearch` returns of the last region that it looked at.
abbrev pub result_of : ℕ → Scan → DidResult
result_of target s =
    if leb_int s.region_from target && ltb_int target s.region_to
    then record {
      start = s.region_from;
      size = sub_int s.region_to s.region_from;
      no = s.cur;
      stat = success;
    }
    else record {
      start = 0;
      size = 0;
      no = if ltb_int target s.region_from then 0 else s.cur + 1;
      stat = fail;
    }

-- `sa_didsearch`. `cur` is not initialised in C: it is whatever stands there, the argument `junk`.
unfoldable pub sa_didsearch : ℕ → Did → ℕ → Run DidResult
unfolding sa_get_did_size scan_round scan_loop
sa_didsearch junk did target = elim (is_negative target) [
  | true ↦ stop assertion
  | false ↦ do
    let size = sa_get_did_size did
    s ←
        scan_loop did target (suc size)
          (record { li = 0; ri = size; cur = junk; region_from = 0; region_to = 0 })
    done (result_of target s)
]
