-- ===== src/Search/Halting.antt =====
-- The searches of lib/search.c end on any index, also one that is not in order.
use sufary.Base.{
  ℕ, zero, suc, ◌+◌, ◌-◌, ◌≤◌, ◌<◌, Bool, true, false, Bool-cases, List, [], ◌∷◌, inl, inr,
  get_elem?, length, map, drop, ltb, leb, ◌++◌, arith,
}
use sufary.Base.Int.{ℤ, pos, negsuc, eq_int}
use sufary.Base.Run.{Run, or_fault, assert}
use sufary.Base.Halting.{
  Finishes, finished, Halts, halted, Finishes-bind, Finishes-if, or_fault-Halts, assert-Halts,
  out_of_bounds-Finishes, buffer_overflow-Finishes,
}
use sufary.File.{Sufary, sa_aryidx2txtptr}
use sufary.Search.{
  Stat, BsearchResult, SufResult, success, fail, cmp_loop, cmp_sistr, midpoint, narrow,
  unless_stopped, txt_skip, key_skip, bsearch_round, bsearch_loop, sa_bsearch, finish, room,
  keyword_max_length, find_ends, sa_find,
}
use sufary.Search.Midpoint.{midpoint_exact}

cmp_loop-Halts :
    (text : List ℕ) (txt : ℕ) (str : List ℤ) (rounds i : ℕ) → Halts (cmp_loop text txt str rounds i)
unfolding cmp_loop
cmp_loop-Halts text txt str zero i = halted (pos 0, i)
cmp_loop-Halts text txt [] (suc rounds) i = out_of_bounds-Finishes
cmp_loop-Halts text txt (k ∷ str) (suc rounds) i =
    Finishes-bind (or_fault (get_elem? text txt)) _ (or_fault-Halts (get_elem? text txt)) (λ t _.
      Finishes-if (eq_int t k) _ _ (λ _. cmp_loop-Halts text (txt + 1) str rounds (i + 1))
        (λ _. halted _))

cmp_sistr-Halts :
    (text : List ℕ) (txt : ℕ) (str : List ℤ) (len : ℕ) → Halts (cmp_sistr text txt str len)
unfolding cmp_sistr
cmp_sistr-Halts text txt str len = cmp_loop-Halts text txt str len 0

sa_aryidx2txtptr-Halts : (ary : Sufary) (i : ℕ) → Halts (sa_aryidx2txtptr ary i)
unfolding sa_aryidx2txtptr
sa_aryidx2txtptr-Halts ary i =
    Finishes-bind (or_fault (get_elem? ary.array i)) _ (or_fault-Halts (get_elem? ary.array i))
      (λ w _. halted _)

room-Halts : (i limit : ℕ) → Halts (room i limit)
room-Halts i limit = Finishes-if (ltb i limit) _ _ (λ _. halted tt) (λ _. buffer_overflow-Finishes)

-- A round ends the loop, or makes the range smaller.
abbrev Narrower : BsearchResult → BsearchResult × Bool → Type 0
Narrower sbr (sbr', true) = Unit
Narrower sbr (sbr', false) = sbr'.right - sbr'.left < sbr.right - sbr.left

narrow-Narrower :
    (sbr : BsearchResult) (cur len : ℕ) (r : ℤ)
    → sbr.left ≤ cur
    → cur < sbr.right
    → Narrower sbr (narrow sbr cur len r)
narrow-Narrower sbr cur len (negsuc _) h k = omega arith
narrow-Narrower sbr cur len (pos zero) h k = tt
narrow-Narrower sbr cur len (pos (suc _)) h k = omega arith

unless_stopped-Halts :
    (again : BsearchResult → Run BsearchResult) (sbr : BsearchResult) (r : BsearchResult × Bool)
    → Narrower sbr r
    → ((sbr' : BsearchResult) → sbr'.right - sbr'.left < sbr.right - sbr.left → Halts (again sbr'))
    → Halts (unless_stopped again r)
unless_stopped-Halts again sbr (sbr', true) narrower next = halted sbr'
unless_stopped-Halts again sbr (sbr', false) narrower next = next sbr' narrower

module _ (ary : Sufary) (key : List ℤ) (keylen : ℕ) where
  round-Narrower :
      (sbr : BsearchResult)
      → sbr.left < sbr.right
      → Finishes (Narrower sbr) (bsearch_round ary key keylen sbr)
  unfolding bsearch_round
  round-Narrower sbr h =
      let cur = midpoint sbr.left sbr.right in
      let middle = midpoint_exact sbr.left sbr.right in
      Finishes-bind (sa_aryidx2txtptr ary cur) _ (sa_aryidx2txtptr-Halts ary cur) (λ txt _.
        Finishes-bind (assert (leb (key_skip sbr) keylen)) _
          (assert-Halts (leb (key_skip sbr) keylen))
          (λ _ _.
            Finishes-bind
              (cmp_sistr ary.text (txt + txt_skip sbr) (drop (key_skip sbr) key)
                (keylen - key_skip sbr))
              _
              (cmp_sistr-Halts ary.text (txt + txt_skip sbr) (drop (key_skip sbr) key)
                (keylen - key_skip sbr))
              (λ (r, diffpos) _.
                finished (narrow sbr cur (txt_skip sbr + diffpos) r) (
                  narrow-Narrower sbr cur (txt_skip sbr + diffpos) r (omega arith) (omega arith)))))

  loop-Halts :
      (fuel : ℕ) (sbr : BsearchResult)
      → sbr.right - sbr.left < fuel
      → Halts (bsearch_loop ary key keylen fuel sbr)
  unfolding bsearch_loop
  loop-Halts zero sbr f = absurd (omega arith)
  loop-Halts (suc fuel) sbr f = elim (Bool-cases (ltb sbr.left sbr.right)) [
    | inr over ↦ rw (over, bsearch_loop) (halted sbr)
    | inl more ↦
        rw (more, bsearch_loop)
          (Finishes-bind (bsearch_round ary key keylen sbr) _ (round-Narrower sbr (ground arith))
            (λ r narrower.
              unless_stopped-Halts (bsearch_loop ary key keylen fuel) sbr r narrower
                (λ sbr' less. loop-Halts fuel sbr' (omega arith))))
  ]

  sa_bsearch-Halts : (sbr : BsearchResult) → Halts (sa_bsearch ary key keylen sbr)
  unfolding sa_bsearch
  sa_bsearch-Halts sbr =
      Finishes-bind (assert (leb sbr.right ary.arraysize)) _
        (assert-Halts (leb sbr.right ary.arraysize))
        (λ _ _.
          Finishes-bind (assert (ltb sbr.left sbr.right)) _ (assert-Halts (ltb sbr.left sbr.right))
            (λ _ _.
              Finishes-bind
                (bsearch_loop ary key keylen (suc (sbr.right - sbr.left))
                  (record sbr { state = fail }))
                _
                (loop-Halts (suc (sbr.right - sbr.left)) (record sbr { state = fail })
                  (omega arith))
                (λ sbr' _. halted (finish ary key keylen sbr'))))

by_state-Halts :
    (st : Stat) (x y : Run SufResult)
    → Halts x
    → Halts y
    → Halts (elim st [ fail ↦ x | success ↦ y ])
by_state-Halts fail x y h k = h
by_state-Halts success x y h k = k

find_ends-Halts :
    (ary : Sufary) (key : List ℕ) (base_txt_skip : ℕ) (sbr : BsearchResult)
    → Halts (find_ends ary key base_txt_skip sbr)
unfolding find_ends
find_ends-Halts ary key base_txt_skip sbr =
    let keylen = length key in
    let right = record sbr { left = sbr.center; left_prefix_len = keylen + base_txt_skip } in
    let left = record sbr { right = sbr.center + 1; right_prefix_len = keylen + base_txt_skip } in
    by_state-Halts sbr.state _ _ (halted _) (
      Finishes-bind (room keylen keyword_max_length) _ (room-Halts keylen keyword_max_length)
        (λ _ _.
          Finishes-bind (sa_bsearch ary (map pos key ++ pos 256 ∷ []) (keylen + 1) right) _
            (sa_bsearch-Halts ary (map pos key ++ pos 256 ∷ []) (keylen + 1) right)
            (λ sbr_r _.
              Finishes-bind (sa_bsearch ary (map pos key ++ negsuc 0 ∷ []) (keylen + 1) left) _
                (sa_bsearch-Halts ary (map pos key ++ negsuc 0 ∷ []) (keylen + 1) left)
                (λ sbr_l _. halted _))))

-- On any index, sorted or not, and for any key and range, `sa_find` has fuel enough: it ends, with a
-- result or with one of the faults of the program.
pub sa_find-Halts :
    (ary : Sufary) (left right : ℕ) (key : List ℕ) (base_txt_skip : ℕ)
    → Halts (sa_find ary left right key base_txt_skip)
unfolding sa_find
sa_find-Halts ary left right key base_txt_skip =
    let keylen = length key in
    let whole : BsearchResult = record {
      center = 0;
      left = left;
      right = right + 1;
      left_prefix_len = base_txt_skip;
      right_prefix_len = base_txt_skip;
      base_txt_skip = base_txt_skip;
      state = fail;
    } in
    Finishes-bind (assert (ltb right ary.arraysize)) _ (assert-Halts (ltb right ary.arraysize))
      (λ _ _.
        Finishes-bind (room keylen (keyword_max_length + 1)) _
          (room-Halts keylen (keyword_max_length + 1))
          (λ _ _.
            Finishes-bind (sa_bsearch ary (map pos key) keylen whole) _
              (sa_bsearch-Halts ary (map pos key) keylen whole)
              (λ sbr _. find_ends-Halts ary key base_txt_skip sbr)))
