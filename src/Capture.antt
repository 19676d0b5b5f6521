-- ===== src/Capture.antt =====
-- capture/: what is kept of a session's trajectory.
pub mod Exclusion
pub mod Bounding
pub mod Filtering
pub mod Tables
pub mod Repository
pub mod Snapshot
pub mod Identity
pub mod Contracts
pub mod Admission
pub mod Action
pub mod Outcome
pub mod Service
pub mod Artifacts
pub mod Config
