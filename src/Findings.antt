-- ===== src/Findings.antt =====
-- Where the code of filter.go and assembler.go does not do what it means to.
pub mod Accumulator
pub mod LongJumps
