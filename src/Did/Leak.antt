-- ===== src/Did/Leak.antt =====
-- What lib/did.c allocates and maps for a file of documents, and what it gives back.
use sufary.Base.{ℕ, ◌<◌, length, ◌≡◌, refl, ◌==◌, List, true, Option, none, some, arith}
use sufary.Base.Run.{Ends, done}
use sufary.Memory.Sound.{copy_name-done}
use sufary.Memory.{malloc_list_file_name_max, c_free, sa_malloc_aux}
use sufary.MemoryMap.{SaMmap, System, Outcome, sa_mmap_ro, memory_allocate_error, mmap_error}
use sufary.MemoryMap.Undone.{Undone, with_block, sa_free-with_block, sa_open_mmap-Undone}
use sufary.Did.Opening.{OpenedDid, set_did, sa_close_did, sa_open_did}

module _ (sizeof_mmap : ℕ) (mmp_c did_c : List ℕ) (outcome : Outcome) where
  -- What `sa_open_did` leaves: all as it was, without memory; the block of the struct, where the file
  -- cannot be mapped; and else what `sa_close_did` gives back.
  abbrev pub LeavesOrLeaks : Option ℕ → Option ℕ → System → Option OpenedDid × System → Type 0
  LeavesOrLeaks (some p) (some q) s (none, s') =
      s' ≡ record (with_block p q 1 did_c 150 s) { sa_error_no = mmap_error }
  LeavesOrLeaks (some p) (some q) s (some did, s') = sa_close_did did s' ≡ done s
  LeavesOrLeaks _ _ s (r, s') = (r ≡ none) × (s' ≡ record s { sa_error_no = memory_allocate_error })

  set_did-LeavesOrLeaks :
      (p q : ℕ) (s : System) (r : Option SaMmap × System)
      → Undone (with_block p q 1 did_c 150 s) r
      → LeavesOrLeaks (some p) (some q) s (set_did p r)
  unfolding set_did sa_close_did
  set_did-LeavesOrLeaks p q s (none, s') same = rw same refl
  set_did-LeavesOrLeaks p q s (some m, s') (d, ms, closed) =
      rw closed (sa_free-with_block p q 1 did_c 150 s)

  -- For names of the source files that fit in the list of allocations, and whatever the system's
  -- functions return, `sa_open_did` ends. Without memory it returns NULL, and
  -- only `sa_error_no` changes. If the file cannot be mapped it returns NULL, and the block of the
  -- struct stays allocated. Else `sa_close_did` gives the state as it was before.
  pub sa_open_did-LeavesOrLeaks :
      (allocated entry : Option ℕ) (s : System)
      → length mmp_c < malloc_list_file_name_max
      → length did_c < malloc_list_file_name_max
      → Ends
          (sa_open_did sizeof_mmap mmp_c did_c outcome allocated entry s)
          (LeavesOrLeaks allocated entry s)
  unfolding sa_open_did sa_malloc_aux c_free
  sa_open_did-LeavesOrLeaks none entry s short short' = (_, refl, (refl, refl))
  sa_open_did-LeavesOrLeaks (some p) none s short short' =
      let same : (p == p) ≡ true = ground arith in rw same (_, refl, (refl, refl))
  sa_open_did-LeavesOrLeaks (some p) (some q) s short short' =
      let (r, ran, undone) =
        sa_open_mmap-Undone sizeof_mmap mmp_c short sa_mmap_ro outcome
          (with_block p q 1 did_c 150 s) in
      rw (copy_name-done did_c short')
        (rw ran (set_did p r, refl, set_did-LeavesOrLeaks p q s r undone))
