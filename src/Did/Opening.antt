-- ===== src/Did/Opening.antt =====
-- lib/did.c: opening and closing a file of documents.
use sufary.Base.{ℕ, ◌/◌, List, Option, none, some}
use sufary.Base.Run.{Run, done, ◌>>=◌}
use sufary.Util.{index_size}
use sufary.Base.Int.{to_word}
use sufary.MemoryMap.{
  SaMmap, System, Outcome, sa_mmap_ro, memory_allocate_error, mmap_error, allocate, sa_free,
  sa_open_mmap, sa_close_mmap, sa_get_mmap_size, sa_get_mmap_ptr,
}

-- DID, at the address `did`.
pub record OpenedDid : Type 0 where
  pub did : ℕ
  pub mmdid : Option SaMmap
  pub docid : ℕ
  pub didsize : ℕ

-- what `sa_open_did` does with the mapped file
unfoldable pub set_did : ℕ → Option SaMmap × System → Option OpenedDid × System
unfolding sa_get_mmap_ptr sa_get_mmap_size
set_did newdid (none, s) = (none, record s { sa_error_no = mmap_error })
set_did newdid (some mms, s) = (
  some (record {
    did = newdid;
    mmdid = some mms;
    docid = sa_get_mmap_ptr mms;
    didsize = to_word (sa_get_mmap_size mms / index_size);
  }),
  s,
)

unfoldable pub sa_close_did : OpenedDid → System → Run System
unfolding sa_close_mmap sa_free
sa_close_did did s = sa_close_mmap did.mmdid s >>= sa_free did.did

-- `sizeof_mmap` is `sizeof(SA_MMAP)`, and `mmp_c` and `did_c` are `__FILE__` of lib/mmp.c and
-- lib/did.c. `outcome` is what the system's functions return for the file.
module _ (sizeof_mmap : ℕ) (mmp_c did_c : List ℕ) (outcome : Outcome) where
  -- What `sa_open_did` does with what `sa_calloc` returns.
  unfoldable pub open_file_of : Option ℕ × System → Run (Option OpenedDid × System)
  unfolding sa_open_mmap set_did
  open_file_of (none, s) = done (none, record s { sa_error_no = memory_allocate_error })
  open_file_of (some newdid, s) =
      sa_open_mmap sizeof_mmap mmp_c sa_mmap_ro outcome s >>= λ r. done (set_did newdid r)

  -- `sa_open_did`; `allocated` and `entry` are what the C library returns for
  -- `sa_calloc`, whose second argument is 1.
  unfoldable pub sa_open_did : Option ℕ → Option ℕ → System → Run (Option OpenedDid × System)
  unfolding allocate open_file_of
  sa_open_did allocated entry s = allocate allocated entry 1 did_c 150 s >>= open_file_of
