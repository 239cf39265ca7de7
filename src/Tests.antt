-- ===== src/Tests.antt =====
-- Runs on small inputs, and each theorem with hypotheses at an input that meets them.
mod SearchTests
mod ArticleFinderTests
mod SortIndexTests
mod MergeTests
mod DidTests
mod RegionTests
mod IndexPointTests
mod MakeDidTests
mod MemoryTests
mod ResourceTests
mod RegexTests
