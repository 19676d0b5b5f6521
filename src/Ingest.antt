-- ===== src/Ingest.antt =====
-- ingest/: what comes into the trace format from outside.
pub mod NativeProtocol
