-- ===== src/Telemetry.antt =====
-- roadmap-telemetry.py and fsgg_telemetry_defaults.py: the durable state of roadmap dispatches and
-- the publication of their events.
pub mod Machine
pub mod Host
pub mod Command
pub mod Files
pub mod Publish
pub mod Events
pub mod Identity
pub mod Assignment
pub mod Original
pub mod Matching
pub mod Descent
pub mod Begin
pub mod Ledger
pub mod Reconcile
pub mod Dashboard
pub mod Lifecycle
pub mod Observed
pub mod Observations
pub mod Main
pub mod History
pub mod Stuck
pub mod CiAssignment
pub mod Repository
pub mod Credential
pub mod Runs
pub mod Ahead
