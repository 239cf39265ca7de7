-- ===== src/ArticleFinder.antt =====
-- src/af.c: the documents that hold all of some keywords and none of others.
pub mod BitPatterns
pub mod Marks
pub mod Areas
pub mod HasKey
pub mod Known
pub mod Wanted
pub mod SplitKeys
pub mod ParseKeys
pub mod Query
use Prim.Native.Nat.{bit_and, bit_or}
use sufary.Base.{
  ℕ, zero, suc, ◌+◌, ◌-◌, ◌*◌, ◌%◌, Bool, true, false, List, [], ◌∷◌, ◌++◌, get_elem?, set, drop,
  length, ltb, ◌==◌, ◌&&◌, if◌then◌else◌,
}
use sufary.Base.Run.{Run, done, stop, buffer_overflow, out_of_bounds, exit_failure, or_fault, ◌>>=◌}
use sufary.File.{Sufary, sa_aryidx2txtidx, sa_txtidx2txtptr}
use sufary.Region.{SaString}
use sufary.IndexPoint.{msb_on}
use sufary.Search.{SufResult, success, fail, sa_find}
use sufary.Did.{Did, DidResult, sa_didsearch}

-- `nkeys` and `keys` with their numbers: a list holds the strings that are stored.
pub record Keys : Type 0 where
  pub nkeys : List (List ℕ)
  pub keys : List (List ℕ)

abbrev pub no_keys : Keys
no_keys = record { nkeys = []; keys = [] }

abbrev pub ampersand : ℕ
ampersand = 38

abbrev pub caret : ℕ
caret = 94

-- The C string at the beginning of the bytes, without its zero.
unfoldable pub string_at : List ℕ → Run (List ℕ)
string_at [] = stop out_of_bounds
string_at (c ∷ cs) =
    let rest = string_at cs >>= λ s. done (c ∷ s) in if c == 0 then done [] else rest

-- `strcpy` to the next of the 100 rows of 80 characters
unfoldable pub store_key : List (List ℕ) → List ℕ → Run (List (List ℕ))
store_key rows s =
    if ltb (length rows) 100 && ltb (length s) 80
    then done (rows ++ s ∷ [])
    else stop buffer_overflow

-- `start` is a position in `kstr`.
unfoldable pub parse_keys_sub : List ℕ → ℕ → Keys → Run Keys
unfolding string_at store_key
parse_keys_sub kstr start ks = do
  c ← or_fault (get_elem? kstr start)
  let unwanted = string_at (drop (start + 1) kstr) >>= store_key ks.nkeys >>= λ rows.
      done (record ks { nkeys = rows })
  let wanted =
      string_at (drop start kstr) >>= store_key ks.keys >>= λ rows. done (record ks { keys = rows })
  if c == caret then unwanted else wanted

-- The first loop of `parse_keys`, with `rounds` left: whether "&&" stands in the string.
unfoldable pub double_loop : List ℕ → ℕ → ℕ → Run Bool
double_loop kstr zero i = done false
double_loop kstr (suc rounds) i = do
  c ← or_fault (get_elem? kstr i)
  d ← or_fault (get_elem? kstr (i + 1))
  let rest = double_loop kstr rounds (i + 1)
  if c == ampersand && d == ampersand then done true else rest

-- The second loop, with `rounds` left: the string, `start`, and the keys.
unfoldable pub split_loop : ℕ → ℕ → List ℕ → ℕ → Keys → Run (List ℕ × ℕ × Keys)
unfolding parse_keys_sub
split_loop zero i kstr start ks = done (kstr, start, ks)
split_loop (suc rounds) i kstr start ks = do
  c ← or_fault (get_elem? kstr i)
  let kstr' = set kstr i 0
  let key = parse_keys_sub kstr' start ks >>= split_loop rounds (i + 1) kstr' (i + 1)
  let rest = split_loop rounds (i + 1) kstr start ks
  if c == ampersand then key else rest

-- The part of `parse_keys` behind its first `return 0`. For an empty string `kstr[keylen - 1]` lies
-- before the string.
unfoldable pub split_keys : List ℕ → ℕ → Keys → Run (Bool × Keys)
unfolding split_loop
split_keys kstr zero ks = stop out_of_bounds
split_keys kstr (suc last) ks = do
  c ← or_fault (get_elem? kstr last)
  let split = split_loop (suc last) 0 kstr 0 ks >>= λ (kstr', start, ks').
      or_fault (get_elem? kstr' start) >>= λ d.
      (if d == 0 then done ks' else parse_keys_sub kstr' start ks') >>= λ ks''.
      done (ltb 0 (length ks''.keys), ks'')
  if c == ampersand then done (false, ks) else split

-- `parse_keys` on the bytes from `kstr` on; the result is whether it went well, and the keys.
unfoldable pub parse_keys : List ℕ → Keys → Run (Bool × Keys)
unfolding string_at double_loop split_keys
parse_keys kstr ks = do
  s ← string_at kstr
  let keylen = length s
  double ← double_loop kstr (keylen - 1) 0
  let rest = split_keys kstr keylen ks
  if double then done (false, ks) else rest

-- what `do_kensaku` prints
pub data Message : Type 0 where
  keyword_format_error : Message
  in_text_areas : List ℕ → ℕ → Message
  found : ℕ → Message
  not_found : List ℕ → Message

-- What a search leaves: its result, `did_check`, what it printed, and the areas that
-- `check_last_keyword` stores.
pub record Kensaku : Type 0 where
  pub value : ℕ
  pub did_check : List ℕ
  pub printed : List Message
  pub areas : List DidResult

abbrev pub prints : Message → Kensaku → Kensaku
prints msg k = record k { printed = msg ∷ k.printed }

-- `junk` is what stands in a variable that `sa_didsearch` does not initialise.
module _ (ary : Sufary) (did : Did) (junk : ℕ) where
  -- One round of `check_keyword`: the mark of the document, and the number of documents.
  unfoldable pub mark : ℕ → DidResult → ℕ → List ℕ → Run (ℕ × List ℕ)
  mark var dr num_of_tas did_check = elim dr.stat [
    | fail ↦ done (num_of_tas, did_check)
    | success ↦ do
      c ← or_fault (get_elem? did_check dr.no)
      done (
        if bit_and c var == 0 then num_of_tas + 1 else num_of_tas,
        set did_check dr.no (bit_or c var),
      )
  ]

  -- The loop, with `rounds` left.
  unfoldable pub check_loop : ℕ → ℕ → ℕ → ℕ → List ℕ → Run (ℕ × List ℕ)
  unfolding mark sa_aryidx2txtidx
  check_loop var zero ai num_of_tas did_check = done (num_of_tas, did_check)
  check_loop var (suc rounds) ai num_of_tas did_check = do
    position ← sa_aryidx2txtidx ary ai
    dr ← sa_didsearch junk did position
    (num_of_tas', did_check') ← mark var dr num_of_tas did_check
    check_loop var rounds (ai + 1) num_of_tas' did_check'

  unfoldable pub check_keyword : SufResult → ℕ → List ℕ → Run (ℕ × List ℕ)
  unfolding check_loop
  check_keyword sr var did_check = check_loop var (sr.right + 1 - sr.left) sr.left 0 did_check

  -- One round of `check_last_keyword`, with the areas that are stored. `room` is their number in
  -- the memory for them.
  unfoldable pub take_area :
      ℕ → ℕ → DidResult → List DidResult → List ℕ → Run (List DidResult × List ℕ)
  take_area room sikii dr tas did_check = elim dr.stat [
    | fail ↦ done (tas, did_check)
    | success ↦ do
      c ← or_fault (get_elem? did_check dr.no)
      let store =
          if ltb (length tas) room
          then done (tas ++ dr ∷ [], set did_check dr.no 1)
          else stop buffer_overflow
      if c == sikii then store else done (tas, did_check)
  ]

  unfoldable pub last_loop : ℕ → ℕ → ℕ → ℕ → List DidResult → List ℕ → Run (List DidResult × List ℕ)
  unfolding take_area sa_aryidx2txtidx
  last_loop room sikii zero ai tas did_check = done (tas, did_check)
  last_loop room sikii (suc rounds) ai tas did_check = do
    position ← sa_aryidx2txtidx ary ai
    dr ← sa_didsearch junk did position
    (tas', did_check') ← take_area room sikii dr tas did_check
    last_loop room sikii rounds (ai + 1) tas' did_check'

  -- `allocated` is whether `sa_malloc` finds the memory.
  module _ (allocated : Bool) where
    unfoldable pub check_last_keyword : SufResult → ℕ → List ℕ → Run (List DidResult × List ℕ)
    unfolding last_loop
    check_last_keyword sr sikii did_check =
        let room = sr.right + 1 - sr.left in
        if allocated then last_loop room sikii room sr.left [] did_check else stop exit_failure

    -- The first loop of `do_kensaku`: what stands in a document of an unwanted keyword. The index
    -- is not empty, since an empty file cannot be mapped.
    unfoldable pub nkeys_loop : List (List ℕ) → List ℕ → Run (List ℕ)
    unfolding check_keyword
    nkeys_loop [] did_check = done did_check
    nkeys_loop (key ∷ nkeys) did_check = do
      sr ← sa_find ary 0 (ary.arraysize - 1) key 0
      did_check' ← elim sr.stat [
        | success ↦ check_keyword sr 1 did_check >>= λ (_, c). done c
        | fail ↦ done did_check
      ]
      nkeys_loop nkeys did_check'

    -- the end of `do_kensaku`, for the last keyword
    unfoldable pub last_key : List ℕ → ℕ → List ℕ → Run Kensaku
    unfolding check_last_keyword
    last_key key checker did_check = do
      sr ← sa_find ary 0 (ary.arraysize - 1) key 0
      elim sr.stat [
        | success ↦ check_last_keyword sr ((checker * 2 + 254) % 256) did_check >>= λ (tas, c).
            done
              (record { value = 1; did_check = c; printed = found (length tas) ∷ []; areas = tas })
        | fail ↦
            done (record {
              value = 0;
              did_check = did_check;
              printed = not_found key ∷ [];
              areas = [];
            })
      ]

    -- The second loop, and what follows it; `checker` is an unsigned char.
    unfoldable pub keys_loop : List (List ℕ) → ℕ → List ℕ → Run Kensaku
    unfolding check_keyword last_key
    keys_loop [] checker did_check = stop out_of_bounds
    keys_loop (key ∷ []) checker did_check = last_key key checker did_check
    keys_loop (key ∷ next ∷ keys) checker did_check = do
      sr ← sa_find ary 0 (ary.arraysize - 1) key 0
      elim sr.stat [
        | success ↦ do
          (ntas, did_check') ← check_keyword sr (checker * 2 % 256) did_check
          let none : Kensaku = record {
            value = 0;
            did_check = did_check';
            printed = [];
            areas = [];
          }
          let rest = keys_loop (next ∷ keys) (checker * 2 % 256) did_check' >>= λ k.
              done (prints (in_text_areas key ntas) k)
          if ntas == 0 then done none else rest
        | fail ↦
            done (record {
              value = 0;
              did_check = did_check;
              printed = not_found key ∷ [];
              areas = [];
            })
      ]

    -- `do_kensaku` behind `parse_keys`
    unfoldable pub search_keys : Keys → List ℕ → Run Kensaku
    unfolding nkeys_loop keys_loop
    search_keys ks did_check = nkeys_loop ks.nkeys did_check >>= keys_loop ks.keys 1

    -- `do_kensaku`, apart from the output of the areas
    unfoldable pub do_kensaku : List ℕ → List ℕ → Run Kensaku
    unfolding search_keys parse_keys
    do_kensaku key did_check = do
      (well, ks) ← parse_keys key no_keys
      let search = search_keys ks did_check
      let refused : Kensaku = record {
        value = 0;
        did_check = did_check;
        printed = keyword_format_error ∷ [];
        areas = [];
      }
      if well then search else done refused

  -- `print_result`: the loop that counts the bytes with the highest bit at the end of what is shown
  unfoldable pub trailing_loop : ℕ → ℕ → ℕ → Run ℕ
  trailing_loop ptr zero ctr8 = done ctr8
  trailing_loop ptr (suc j) ctr8 = do
    c ← or_fault (get_elem? ary.text (ptr + j))
    let rest = trailing_loop ptr j (ctr8 + 1)
    if msb_on c then rest else done ctr8

  -- the string that is shown of an area: all of it, or its first characters
  unfoldable pub shown : Bool → ℕ → DidResult → Run SaString
  unfolding trailing_loop sa_txtidx2txtptr
  shown display_all_flag display_char_num dr =
      let ptr = sa_txtidx2txtptr ary dr.start in
      let part = trailing_loop ptr display_char_num 0 >>= λ ctr8. done (record {
        ptr = ptr;
        len = if ctr8 % 2 == 1 then display_char_num - 1 else display_char_num;
      }) in
      if display_all_flag then done (record { ptr = ptr; len = dr.size }) else part

  -- `print_result`, where `display_char_num` is positive: the strings, in order
  unfoldable pub print_result : Bool → ℕ → List DidResult → Run (List SaString)
  unfolding shown
  print_result display_all_flag display_char_num [] = done []
  print_result display_all_flag display_char_num (dr ∷ tas) = do
    art ← shown display_all_flag display_char_num dr
    rest ← print_result display_all_flag display_char_num tas
    done (art ∷ rest)
