-- ===== src/File/RoundTrip.antt =====
-- Opening a text with its index, and closing both again, in lib/file.c.
use sufary.Base.{
  ℕ, ◌+◌, ◌<◌, ◌≡◌, ◌≢◌, refl, ◌==◌, ◌&&◌, ◌/◌, Bool-cases, List, ◌∷◌, length, true, false, Option,
  none, some, arith, inl, inr,
}
use sufary.Base.Run.{Run, done, ◌>>=◌}
use sufary.Base.Int.{to_word}
use sufary.Memory.Sound.{copy_name-done}
use sufary.Memory.{malloc_list_file_name_max, unlink, c_free, release, sa_free_aux, sa_malloc_aux}
use sufary.Util.{index_size}
use sufary.MemoryMap.{System, Outcome, munmap, sa_free}
use sufary.MemoryMap.Undone.{with_block, sa_free-with_block, sa_close_mmap-with_block}
use sufary.File.Opening.{Opened, sa_close, sa_open, file_name_max}
use sufary.File.Closed.{array_name-Ends}

-- what a client does with the result of `sa_open` when it has done its work
abbrev pub close_opened : Option Opened × System → Run System
close_opened (none, s) = done s
close_opened (some ary, s) = sa_close ary s

munmap_second :
    (map size map' size' : ℕ) (ms : List (ℕ × ℕ))
    → munmap map size ((map', size') ∷ (map, size) ∷ ms) ≡ (map', size') ∷ ms
unfolding munmap
munmap_second map size map' size' ms =
    let same : (map == map) ≡ true = ground arith in
    let same' : (size == size) ≡ true = ground arith in
    elim (Bool-cases (map == map' && size == size')) [
      | inl e ↦
          let e' : map ≡ map' = ground arith in
          let e'' : size ≡ size' = ground arith in rw e (rw e' (rw e'' refl))
      | inr ne ↦ rw ne (rw same (rw same' refl))
    ]

-- The block below the last one is freed.
sa_free_second :
    (p q p' q' size : ℕ) (file : List ℕ) (line : ℕ) (s : System)
    → p ≢ p'
    → q ≢ q'
    → q ≢ p'
    → p ≢ q'
    → sa_free p (with_block p' q' size file line (with_block p q size file line s))
      ≡ done (with_block p' q' size file line s)
unfolding sa_free sa_free_aux unlink release c_free
sa_free_second p q p' q' size file line s a b c d =
    let t1 : (p' == p) ≡ false = ground arith in
    let t2 : (p == p) ≡ true = ground arith in
    let t3 : (q == q') ≡ false = ground arith in
    let t4 : (q == p') ≡ false = ground arith in
    let t5 : (q == q) ≡ true = ground arith in
    let t6 : (p == q') ≡ false = ground arith in
    let t7 : (p == p') ≡ false = ground arith in
    rw t1 (rw t2 (rw t3 (rw t4 (rw t5 (rw t6 (rw t7 (rw t2 refl)))))))

-- the outcome where all succeed
abbrev pub all_succeed : ℕ → ℕ → ℕ → ℕ → ℕ → Outcome
all_succeed p q fd size map = record {
  allocated = some p;
  node = some q;
  opened = some fd;
  st_size = some size;
  mapped = some map;
}

module _ (sizeof_mmap : ℕ) (mmp_c file_c : List ℕ)
    (short : length mmp_c < malloc_list_file_name_max)
    (short' : length file_c < malloc_list_file_name_max)
    (p q fd size map p' q' fd' size' map' : ℕ) where
  -- the state behind `sa_open`, with the mappings `ms`
  abbrev both_open : ℕ → ℕ → List (ℕ × ℕ) → System → System
  both_open ary entry ms s = with_block p' q' sizeof_mmap mmp_c 68 (
      with_block p q sizeof_mmap mmp_c 68
        (with_block ary entry 1 file_c 73 (record s { mappings = ms })))

  abbrev handle : ℕ → Opened
  handle ary = record {
    ary = ary;
    mmtxt = some (record { mm = p; size = size; map = map; other = 0 });
    text = map;
    textsize = to_word size;
    mmary = some (record { mm = p'; size = size'; map = map'; other = 0 });
    array = map';
    arraysize = to_word (size' / index_size);
  }

  sa_open_succeeds :
      (ary entry : ℕ) (txt_fname : List ℕ) (ary_fname : Option (List ℕ)) (s : System)
      → length txt_fname + 4 < file_name_max
      → sa_open sizeof_mmap mmp_c file_c
          (λ _. all_succeed p q fd size map)
          (λ _. all_succeed p' q' fd' size' map')
          (some ary)
          (some entry)
          txt_fname
          ary_fname
          s
        ≡ done (some (handle ary), both_open ary entry ((map', size') ∷ (map, size) ∷ s.mappings) s)
  unfolding sa_open sa_malloc_aux
  sa_open_succeeds ary entry txt_fname ary_fname s h =
      let (name, named) = array_name-Ends txt_fname ary_fname h in
      let same : (fd == fd) ≡ true = ground arith in
      let same' : (fd' == fd') ≡ true = ground arith in
      rw named (
        rw (copy_name-done file_c short') (
          rw (copy_name-done mmp_c short)
            (rw same (rw (copy_name-done mmp_c short) (rw same' refl)))))

  sa_close_opens :
      (ary entry : ℕ) (s : System)
      → p ≢ p'
      → q ≢ q'
      → q ≢ p'
      → p ≢ q'
      → sa_close (handle ary) (both_open ary entry ((map', size') ∷ (map, size) ∷ s.mappings) s)
        ≡ done s
  unfolding sa_close
  sa_close_opens ary entry s a b c d =
      let ms = (map', size') ∷ s.mappings in
      let w = with_block ary entry 1 file_c 73 s in
      let w' = with_block ary entry 1 file_c 73 (record s { mappings = ms }) in
      rw (munmap_second map size map' size' s.mappings) (
        rw (sa_free_second p q p' q' sizeof_mmap mmp_c 68 w' a b c d) (
          rw
            (sa_close_mmap-with_block (record { mm = p'; size = size'; map = map'; other = 0 }) q'
              sizeof_mmap mmp_c 68 w)
            (sa_free-with_block ary entry 1 file_c 73 s)))

  -- Where the name of the text leaves room for a suffix, those of the source files fit in the list of
  -- allocations, everything can be opened and mapped, and the C library's second pair of allocations has other addresses than the first, what `sa_close` does
  -- with the result of `sa_open` gives the state before: what is allocated, the list of allocations,
  -- the open descriptors and the mappings.
  pub sa_close-sa_open :
      (ary entry : ℕ) (txt_fname : List ℕ) (ary_fname : Option (List ℕ)) (s : System)
      → length txt_fname + 4 < file_name_max
      → p ≢ p'
      → q ≢ q'
      → q ≢ p'
      → p ≢ q'
      → (sa_open sizeof_mmap mmp_c file_c
            (λ _. all_succeed p q fd size map)
            (λ _. all_succeed p' q' fd' size' map')
            (some ary)
            (some entry)
            txt_fname
            ary_fname
            s
          >>= close_opened)
        ≡ done s
  sa_close-sa_open ary entry txt_fname ary_fname s h a b c d =
      rw (sa_open_succeeds ary entry txt_fname ary_fname s h) (sa_close_opens ary entry s a b c d)
