-- ===== src/Evaluation.antt =====
-- pkg/feature/domain: which variation a user is given.
pub mod Model
pub mod External
pub mod Integers
pub mod Clause
pub mod Rule
pub mod Strategy
pub mod Assign
pub mod Order
pub mod Evaluate
pub mod Rollout
pub mod Known
pub mod Assignment
pub mod Unweighted
pub mod Addition
pub mod EveryFeature
