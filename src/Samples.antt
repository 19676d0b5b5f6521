-- ===== src/Samples.antt =====
-- Small runs, reports and values on which the theorems are applied. No part of the program is
-- modelled here.
mod Traces
mod DetectRuns
mod RerunRuns
mod CaptureRuns
mod RepositoryRuns
mod ServiceRuns
mod ProtocolRuns
mod ConfigRuns
