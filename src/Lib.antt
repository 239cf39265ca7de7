-- ===== src/Lib.antt =====
-- sufary: a library for full-text search in C. An index of a text is the list of the positions at
-- which a search may begin (index points), in the alphabetical order of the strings that start
-- there: a suffix array. mkary writes the positions and sorts them, sass searches.
--
-- The parts and the files that model them:
--   Base                  shared: numbers, lists, C's int, and what a run of code can come to
--   Util, Util/*          lib/util.c, and the byte order of the entries of an index
--   File, File/*          lib/file.c and the accessors of lib/search.c: the opened text and index;
--                         opening and closing them
--   Search, Search/*      lib/search.c: cmp_sistr, sa_bsearch, sa_find
--   MakeIndex, MakeIndex/*  lib/make-index.c: writing an index, the sorting of it by the multikey
--                         quicksort or in blocks merged by a heap, and the check of its order
--   IndexPoint, IndexPoint/*  lib/index-point.c: the functions that find the next index point
--   Memory, Memory/*      lib/my-malloc.c: the allocations and the check for leaks
--   MemoryMap, MemoryMap/*  lib/mmp.c: files that are mapped into memory
--   Did, Did/*            lib/did.c: the document that contains a position; opening its file
--   MakeDid, MakeDid/*    lib/make-did.c: the file of the documents that a tag begins
--   Region, Region/*      lib/region.c: the lines or the tagged region around a position
--   Regex, Regex/*        lib/regex.c: the search for patterns, and the one that ignores case
--   ArticleFinder, ArticleFinder/*  src/af.c: the documents with all and none of some keywords
--   Tests, Tests/*        runs and instances on small inputs
--
-- How they meet: sa_write_index is given one of the functions of IndexPoint, by the contract
-- NextPoint of IndexPoint/Contract. What it writes is sorted, and sa_is_sorted checks the result:
-- the order that it decides, IsOrdered of Search/Suffix, is what sa_find needs. sa_make_did searches
-- for the tag of a document with sa_find, and writes the file that sa_didsearch reads. A position that
-- a search finds is given to sa_didsearch and to the functions of Region. sa_regex narrows a range of
-- the index by one call of sa_find after the other, each on the strings behind the characters that the
-- range shares (Regex/Narrow). do_kensaku of src/af.c puts sa_find and sa_didsearch together: each
-- keyword has a bit in the check byte of the documents. sa_open and sa_open_did map their files by
-- sa_open_mmap, whose structs and theirs come from the list of Memory.
--
-- Conventions. A definition has the name of the C function it models. A pointer into the text is its
-- distance from the text's first byte. A C int that is not negative is a native number; where it can
-- be negative it is a ℤ of Base/Int, or its word, as the positions in a file of documents, and the sizes
-- that sa_open stores. Code that can fail returns a Run of Base/Run: a result, or the
-- fault that ends it: a failed assertion, an access outside a buffer, a write behind its end, or the
-- end of the fuel. A theorem says that a run ends (Ends), with a result of which something holds, so
-- that none of the faults occurs.
--
-- Loops. A loop that counts is recursion on what it counts: the bytes before `eof`, the entries
-- left. The others run on fuel. sa_bsearch and sa_didsearch have the width of the range plus one: a
-- round makes it smaller. The loops of IndexPoint and sa_seek_pattern_forward have the bytes left, a
-- round goes on by at least one. sa_write_index has the length of the text plus two, for the call at
-- -1 and the last test. sa_regex has the length of the key: each call is given a shorter one. The heap
-- has the place in it, the quicksort the number of entries and the length of the text. No theorem
-- assumes that the fuel suffices.
--
-- Bounds. The keys of sa_find have fewer than KEYWORD_MAX_LENGTH bytes: the code copies a key of any
-- length into an array of that many entries and writes one more entry behind it, which for a longer
-- key is a write out of the buffer. The sum of the ends of a range may exceed an int, which is why
-- the middle is computed from the halves; the other sums stay below the sizes of files. A word of an
-- index is stored high byte first and read by a host of the other order. An entry of the list of
-- allocations has room for a file name of fewer than MALLOC_LIST_FILE_NAME_MAX characters, which the
-- code does not test.
--
-- What the operating system provides is assumed: the text is mapped with zero bytes behind it, so a
-- text whose size is a multiple of the page size is not an opened text in the sense of IsOpened.
-- strchr, memcmp and memcpy are read as the C standard defines them. qsort is a parameter of
-- sa_make_did, of which IsSort in MakeDid/Regions says what the C standard promises, and of the sorting
-- of an index, as rand is. sscanf and the functions of ctype.h are parameters of the search for
-- patterns; what an unset variable holds is one too.
--
-- What open, fstat, mmap and the C library's allocations return for a file is the argument Outcome of
-- MemoryMap, with -1 and NULL among it; the state there, System, is what is allocated, the descriptors
-- that are open, the mappings, and sa_error_no. The search and the other parts work on the content of
-- what is mapped, the record Sufary of File.
--
-- Not modelled: the code of lib/mmp.c for Windows, sa_sort_index, which chooses one of the ways of
-- sorting, and the commands in src/ but for the search of src/af.c. Debug output and progress meters
-- are left out, and outside of MemoryMap, File and Did the error numbers too. src/getopt.c is a copy of the GNU library; the bindings and the user
-- interface only call the library.
pub mod Base
pub mod Util
pub mod File
pub mod Search
pub mod MakeIndex
pub mod Memory
pub mod MemoryMap
pub mod Did
pub mod MakeDid
pub mod Regex
pub mod ArticleFinder
pub mod Region
pub mod IndexPoint
mod Tests
