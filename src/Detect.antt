-- ===== src/Detect.antt =====
-- diagnose/detect/: deterministic rules, the registry of rule packs, the heuristic analyzer and the
-- policies that pick a root cause.
pub mod Matching
pub mod Findings
pub mod Anomalies
pub mod Selection
pub mod Registry
pub mod Analyzer
