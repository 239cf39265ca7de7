-- ===== src/File/Opening.antt =====
-- lib/file.c: opening and closing a text with its index.
use sufary.Base.{ℕ, ◌/◌, List, [], ◌∷◌, Option, none, some}
use sufary.Base.Run.{Run, done, ◌>>=◌}
use sufary.Base.Int.{to_word}
use sufary.Util.{sa_add_suffix_to_file_name, index_size}
use sufary.Search.{Stat, success, fail}
use sufary.MemoryMap.{
  SaMmap, System, Outcome, sa_mmap_ro, memory_allocate_error, file_open_error, mmap_error, allocate,
  sa_free, sa_open_mmap, sa_close_mmap, sa_get_mmap_size, sa_get_mmap_ptr,
}

-- SA_FILE_NAME_MAX
abbrev pub file_name_max : ℕ
file_name_max = 1000

-- SUFARY, at the address `ary`, with the addresses and sizes of its mapped files. A size is an `int`,
-- as its word.
pub record Opened : Type 0 where
  pub ary : ℕ
  pub mmtxt : Option SaMmap
  pub text : ℕ
  pub textsize : ℕ
  pub mmary : Option SaMmap
  pub array : ℕ
  pub arraysize : ℕ

-- What `sa_calloc` gives.
abbrev pub zeroed : ℕ → Opened
zeroed ary = record {
  ary = ary;
  mmtxt = none;
  text = 0;
  textsize = 0;
  mmary = none;
  array = 0;
  arraysize = 0;
}

unfoldable pub sa_get_text_ptr : Opened → ℕ
sa_get_text_ptr ary = ary.text

unfoldable pub sa_get_array_ptr : Opened → ℕ
sa_get_array_ptr ary = ary.array

-- what `sa_opentextfile` does with the mapped file
unfoldable pub set_text : Opened → Option SaMmap × System → Stat × Opened × System
unfolding sa_get_mmap_size sa_get_mmap_ptr
set_text ary (none, s) = (fail, ary, record s { sa_error_no = mmap_error })
set_text ary (some mms, s) = (
  success,
  record ary {
    mmtxt = some mms;
    textsize = to_word (sa_get_mmap_size mms);
    text = sa_get_mmap_ptr mms;
  },
  s,
)

-- what `sa_openarrayfile` does with the mapped file
unfoldable pub set_array : Opened → Option SaMmap × System → Stat × Opened × System
unfolding sa_get_mmap_size sa_get_mmap_ptr
set_array ary (none, s) = (fail, ary, record s { sa_error_no = mmap_error })
set_array ary (some mms, s) = (
  success,
  record ary {
    mmary = some mms;
    arraysize = to_word (sa_get_mmap_size mms / index_size);
    array = sa_get_mmap_ptr mms;
  },
  s,
)

unfoldable pub sa_closetextfile : Opened → System → Run System
unfolding sa_close_mmap
sa_closetextfile ary s = sa_close_mmap ary.mmtxt s

unfoldable pub sa_closearrayfile : Opened → System → Run System
unfolding sa_close_mmap
sa_closearrayfile ary s = sa_close_mmap ary.mmary s

unfoldable pub sa_close : Opened → System → Run System
unfolding sa_closetextfile sa_closearrayfile sa_free
sa_close ary s = do s' ← sa_closetextfile ary s; s'' ← sa_closearrayfile ary s'; sa_free ary.ary s''

-- the branch of `sa_open` where one of the files cannot be mapped
unfoldable pub give_up : Opened → System → Run (Option Opened × System)
unfolding sa_close sa_free
give_up newary s = do
  s' ← sa_close newary s
  s'' ← sa_free newary.ary s'
  done (none, record s'' { sa_error_no = file_open_error })

unfoldable pub open_result : Stat × Opened × System → Run (Option Opened × System)
unfolding give_up
open_result (fail, newary, s) = give_up newary s
open_result (success, newary, s) = done (some newary, s)

-- "ary", the suffix of an index
abbrev pub ary_suffix : List ℕ
ary_suffix = 97 ∷ 114 ∷ 121 ∷ []

-- The name of the index: with NULL and an empty name, that of the text with a suffix.
unfoldable pub array_name : List ℕ → Option (List ℕ) → Run (List ℕ)
unfolding sa_add_suffix_to_file_name
array_name txt_fname none = sa_add_suffix_to_file_name file_name_max txt_fname ary_suffix
array_name txt_fname (some []) = sa_add_suffix_to_file_name file_name_max txt_fname ary_suffix
array_name txt_fname (some (c ∷ cs)) = done (c ∷ cs)

-- `sizeof_mmap` is `sizeof(SA_MMAP)`, and `mmp_c` and `file_c` are `__FILE__` of lib/mmp.c and
-- lib/file.c. `txt` and `idx` are what the system's functions return for
-- a file of a name, when it is opened as the text and as the index.
module _ (sizeof_mmap : ℕ) (mmp_c file_c : List ℕ) (txt idx : List ℕ → Outcome) where
  unfoldable pub sa_opentextfile : Opened → List ℕ → System → Run (Stat × Opened × System)
  unfolding sa_open_mmap set_text
  sa_opentextfile ary filename s =
      sa_open_mmap sizeof_mmap mmp_c sa_mmap_ro (txt filename) s >>= λ r. done (set_text ary r)

  unfoldable pub sa_openarrayfile : Opened → List ℕ → System → Run (Stat × Opened × System)
  unfolding sa_open_mmap set_array
  sa_openarrayfile ary filename s =
      sa_open_mmap sizeof_mmap mmp_c sa_mmap_ro (idx filename) s >>= λ r. done (set_array ary r)

  -- The index is opened only if the text could be.
  unfoldable pub array_next : List ℕ → Stat × Opened × System → Run (Stat × Opened × System)
  unfolding sa_openarrayfile
  array_next ary_fname (fail, newary, s) = done (fail, newary, s)
  array_next ary_fname (success, newary, s) = sa_openarrayfile newary ary_fname s

  -- What `sa_open` does with what `sa_calloc` returns.
  unfoldable pub open_both : List ℕ → List ℕ → Option ℕ × System → Run (Option Opened × System)
  unfolding sa_opentextfile array_next open_result
  open_both txt_fname ary_fname (none, s) =
      done (none, record s { sa_error_no = memory_allocate_error })
  open_both txt_fname ary_fname (some ary, s) = do
    r ← sa_opentextfile (zeroed ary) txt_fname s
    r' ← array_next ary_fname r
    open_result r'

  -- `sa_open`; `allocated` and `node` are what the C library returns for `sa_calloc`,
  -- whose second argument is 1.
  unfoldable pub sa_open :
      Option ℕ → Option ℕ → List ℕ → Option (List ℕ) → System → Run (Option Opened × System)
  unfolding array_name allocate open_both
  sa_open allocated node txt_fname ary_fname s = do
    name ← array_name txt_fname ary_fname
    r ← allocate allocated node 1 file_c 73 s
    open_both txt_fname name r
