-- ===== src/Tests/ResourceTests.antt =====
-- Opening and closing in lib/mmp.c, lib/file.c and lib/did.c, from a state with nothing open.
use sufary.Base.{ℕ, ◌<◌, get_or, List, ◌≡◌, refl, [], ◌∷◌, none, some, arith}
use sufary.Base.Run.{Ends, done, ◌>>=◌}
use sufary.MemoryMap.{System, Outcome, sa_mmap_ro, other_error, file_open_error, sa_open_mmap}
use sufary.MemoryMap.Undone.{Undone, sa_open_mmap-Undone}
use sufary.File.{sa_aryidx2txtidx}
use sufary.File.Written.{file_of, opened, sa_aryidx2txtidx-sa_fwrite}
use sufary.File.Opening.{sa_open}
use sufary.File.RoundTrip.{all_succeed, close_opened, sa_close-sa_open}
use sufary.Did.Opening.{sa_open_did}
use sufary.Did.Leak.{LeavesOrLeaks, sa_open_did-LeavesOrLeaks}

abbrev nothing_open : System
nothing_open = record {
  heap = record { malloc_list = []; live = [] };
  descriptors = [];
  mappings = [];
  sa_error_no = other_error;
}

-- The file is opened, and cannot be mapped, as an empty one.
abbrev not_mapped : Outcome
not_mapped = record {
  allocated = some 32;
  node = some 40;
  opened = some 3;
  st_size = some 0;
  mapped = none;
}

-- "mmp.c", "file.c" and "did.c"
abbrev mmp_c : List ℕ
mmp_c = 109 ∷ 109 ∷ 112 ∷ 46 ∷ 99 ∷ []

abbrev file_c : List ℕ
file_c = 102 ∷ 105 ∷ 108 ∷ 101 ∷ 46 ∷ 99 ∷ []

abbrev did_c : List ℕ
did_c = 100 ∷ 105 ∷ 100 ∷ 46 ∷ 99 ∷ []

-- "a.txt"
abbrev a_txt : List ℕ
a_txt = 97 ∷ 46 ∷ 116 ∷ 120 ∷ 116 ∷ []

sa_open_mmap-Undone_example :
    Ends (sa_open_mmap 24 mmp_c sa_mmap_ro not_mapped nothing_open) (Undone nothing_open)
sa_open_mmap-Undone_example =
    sa_open_mmap-Undone 24 mmp_c (omega arith) sa_mmap_ro not_mapped nothing_open

-- The text is mapped, and its index is not.
open_without_index :
    sa_open 24 mmp_c file_c
      (λ _. all_succeed 16 24 3 5 4096)
      (λ _. not_mapped)
      (some 8)
      (some 12)
      a_txt
      none
      nothing_open
    ≡ done (none, record nothing_open { sa_error_no = file_open_error })
unfolding sa_open
open_without_index = refl

sa_close-sa_open_example :
    (sa_open 24 mmp_c file_c
        (λ _. all_succeed 16 24 3 5 4096)
        (λ _. all_succeed 32 40 3 20 8192)
        (some 8)
        (some 12)
        a_txt
        none
        nothing_open
      >>= close_opened)
    ≡ done nothing_open
sa_close-sa_open_example =
    sa_close-sa_open 24 mmp_c file_c (omega arith) (omega arith) 16 24 3 5 4096 32 40 3 20 8192 8 12
      a_txt none nothing_open (omega arith) (omega arith) (omega arith) (omega arith) (omega arith)

sa_open_did-LeavesOrLeaks_example :
    Ends
      (sa_open_did 24 mmp_c did_c not_mapped (some 8) (some 12) nothing_open)
      (LeavesOrLeaks 24 mmp_c did_c not_mapped (some 8) (some 12) nothing_open)
sa_open_did-LeavesOrLeaks_example =
    sa_open_did-LeavesOrLeaks 24 mmp_c did_c not_mapped (some 8) (some 12) nothing_open
      (omega arith) (omega arith)

sa_aryidx2txtidx-sa_fwrite_example :
    ((opened [] 0 (file_of (3 ∷ 70000 ∷ []))).arraysize ≡ 2)
    × ((i : ℕ)
        → i < 2
        → sa_aryidx2txtidx (opened [] 0 (file_of (3 ∷ 70000 ∷ []))) i
          ≡ done (get_or (3 ∷ 70000 ∷ []) i 0))
sa_aryidx2txtidx-sa_fwrite_example =
    sa_aryidx2txtidx-sa_fwrite [] 0 (3 ∷ 70000 ∷ []) (omega arith, (omega arith, tt))
