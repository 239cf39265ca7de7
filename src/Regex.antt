-- ===== src/Regex.antt =====
-- lib/regex.c: the search for a pattern in a suffix array.
pub mod Bits
pub mod BitLaws
pub mod Class
pub mod Sub
pub mod Results
pub mod Narrow
pub mod Pattern
pub mod Exact
pub mod IgnoreCase
pub mod Expand
pub mod ClassHalting
pub mod Halting
