-- ===== src/Claim.antt =====
-- scripts/check-claim-generation.py, a module for each group of its functions.
pub mod Transport
pub mod Lease
pub mod Marker
pub mod Shape
pub mod Comments
pub mod State
pub mod Verdict
pub mod Policy
pub mod Routine
pub mod Runs
pub mod Sweep
pub mod Main
