-- ===== src/Optimizer/Sound.antt =====
-- The rewrites keep the truth value of a predicate on the records where it is regular.
pub mod Regular
pub mod Chains
pub mod Pairs
pub mod Dominance
pub mod Subsumption
pub mod Absorption
pub mod Leaves
pub mod Rules
