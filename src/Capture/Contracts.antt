-- ===== src/Capture/Contracts.antt =====
-- The result of a delivery in capture/contracts.py, the adapter of capture/hosts/base.py, the
-- configuration of capture/config.py, and what capture/service.py takes from the system around it.
use agent_debug_x.Base.{ℕ, String, Bool, Option, List, Dict}
use agent_debug_x.Python.{Value, Fields, Result}
use agent_debug_x.Schema.{AgentEvent, AgentTrajectory}
use agent_debug_x.Scrub.{Redaction}
use agent_debug_x.Capture.Tables.{HookNotification, TranscriptSnapshot}

pub data CaptureStatus : Type 0 where
  disabled no_op captured pending failed : CaptureStatus

pub record CaptureResult : Type 0 where
  pub status : CaptureStatus
  pub trace_id : Option String
  pub event_count : ℕ
  pub last_event_id : Option String
  pub boundary_id : Option String
  pub warnings : List String
  pub elapsed_ms : ℕ

pub record PlatformCaptureConfig : Type 0 where
  pub enabled : Bool
  pub capture_events : List String

pub record CaptureConfig : Type 0 where
  pub schema_version : ℕ
  pub project_root : String
  pub store_path : String
  pub platforms : Dict String PlatformCaptureConfig

-- `version` is `none` where the adapter has no such attribute.
pub record HostCaptureAdapter : Type 0 where
  pub host : String
  pub event_boundaries : Dict String String
  pub version : Option ℕ
  pub validate_transcript_path : HookNotification → Result String
  pub normalize : HookNotification → TranscriptSnapshot → String → Result AgentTrajectory

pub record FileStat : Type 0 where
  pub st_size : ℕ
  pub st_mtime_ns : ℕ

-- The files, the libraries and the redactions with which a delivery works
pub record Surroundings : Type 0 where
  -- `load_capture_config(self.project_root)`
  pub config : Result (Option CaptureConfig)
  -- `path.expanduser().resolve()`
  pub resolve : String → String
  pub stat : String → Result FileStat
  pub read_bytes : String → Result (List ℕ)
  -- whether the repository opens its database
  pub opened : Result (Unit {0})
  -- what `reconcile_prior_receipts` raises, if its transaction fails (a busy database)
  pub reconciles : Result (Unit {0})
  pub loads : List ℕ → Result Value
  pub sha256 : List ℕ → String
  pub hexdigest : String → String
  pub dumps : Fields → String
  pub payload_size : AgentEvent → ℕ
  pub redactions : List Redaction

-- The time of a delivery, and the whole milliseconds that have passed when the deadline is checked,
-- when a receipt is closed and when the result is made
pub record Clock : Type 0 where
  pub time : ℕ
  pub at_deadline : ℕ
  pub at_close : ℕ
  pub at_end : ℕ

pub record CaptureService : Type 0 where
  pub project_root : String
  pub adapter : HostCaptureAdapter
  pub session_end_deadline_ms : ℕ
