-- ===== src/Tests.antt =====
-- The theorems at concrete inputs: a small organisation of a SIG, a person and a KEP.
mod Fixtures
mod Reconciled
mod Searches
mod Changes
mod Clearances
mod Merges
mod States
mod Vectors
mod Grounded
mod Answers
mod Ingested
mod Cached
