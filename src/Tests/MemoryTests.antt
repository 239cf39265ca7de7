-- ===== src/Tests/MemoryTests.antt =====
-- lib/my-malloc.c with one block of 16 bytes at 1000, whose entry of the list is at 2000.
use sufary.Base.{◌≡◌, refl, [], ◌∷◌, some, arith}
use sufary.Base.Run.{Ends, done, stop, buffer_overflow}
use sufary.Memory.{Heap, sa_malloc_aux, sa_free_aux, sa_memory_leak_check}
use sufary.Memory.Sound.{
  IsSound, Reports, sa_malloc_aux-IsSound, sa_free_aux-IsSound, sa_memory_leak_check-Reports,
}

abbrev one_block : Heap
one_block = record {
  malloc_list = record { node = 2000; ptr = 1000; size = 16; file = []; line = 7 } ∷ [];
  live = 2000 ∷ 1000 ∷ [];
}

leak_of_one_block :
    sa_memory_leak_check one_block ≡ done (0, record { malloc_list = []; live = 1000 ∷ [] })
unfolding sa_memory_leak_check
leak_of_one_block = refl

sa_malloc_aux-IsSound_example :
    Ends (sa_malloc_aux (some 3000) (some 4000) 8 [] 9 one_block) (λ (r, h'). IsSound h')
sa_malloc_aux-IsSound_example =
    sa_malloc_aux-IsSound (some 3000) (some 4000) 8 [] 9 one_block (omega arith) (λ a. refl)

sa_free_aux-IsSound_example : Ends (sa_free_aux 1000 one_block) IsSound
sa_free_aux-IsSound_example = sa_free_aux-IsSound 1000 one_block (omega arith) (λ a. refl)

sa_memory_leak_check-Reports_example : Ends (sa_memory_leak_check one_block) (Reports one_block)
sa_memory_leak_check-Reports_example = sa_memory_leak_check-Reports one_block (λ a. refl)

-- Twenty characters and the zero byte behind them do not fit in the entry.
long_name :
    sa_malloc_aux
      (some 3000)
      (some 4000)
      8
      (46 ∷ 46 ∷ 47 ∷ 46 ∷ 46 ∷ 47 ∷ 46 ∷ 46 ∷ 47 ∷ 108 ∷ 105 ∷ 98 ∷ 47 ∷ 102 ∷ 105 ∷ 108 ∷ 101
        ∷ 115 ∷ 46 ∷ 99 ∷ [])
      9
      one_block
    ≡ stop buffer_overflow
unfolding sa_malloc_aux
long_name = refl
