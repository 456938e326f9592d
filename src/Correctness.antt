-- ===== src/Correctness.antt =====
-- What the program that `Policy.Assemble` (filter.go) returns does, against what the policy means.
pub mod Header
pub mod Translation
pub mod Groups
pub mod Proper
pub mod Meaning
pub mod Verdict
pub mod Program
pub mod Unconditional
pub mod Distinct
pub mod Single
