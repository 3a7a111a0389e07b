-- ===== src/Verify/Mutation.antt =====
-- Mutation analysis (internal/verify/mutation.go): the edit sites of a program, the score of a suite,
-- and the harvest of programs that are provably wrong. The parser and the printer of Go are given; a
-- tree has the children of a node in the order of `ast.Inspect`. The positions that an edit clears
-- for the printer are the printer's.
pub mod Sites
pub mod ScarFree
pub mod Harvest
pub mod Tally
pub mod Counts
pub mod Raced
