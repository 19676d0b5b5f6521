-- ===== src/Rerun.antt =====
-- rerun/: the second stage. A plan is built from a report, an executor may run it, and the branch
-- that it returns is validated and compared with the original run.
pub mod Diagnosis
pub mod Request
pub mod Branch
pub mod Workflow
pub mod Live
pub mod Safety
pub mod Checkpoints
pub mod Observed
pub mod Scores
