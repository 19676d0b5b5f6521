-- ===== src/Capture/Tables.antt =====
-- The tables of capture/repository.py and the records of capture/contracts.py, with the rows that the
-- repository writes and looks up. A column that holds JSON text holds the value itself, and a path is
-- a text.
use agent_debug_x.Base.{
  ℕ, ◌+◌, String, Bool, true, false, not, ◌&&◌, Option, none, some, List, [], ◌∷◌, any, find_first,
  last?, length, if◌then◌else◌, ltb, or_else, ◌==◌, string_eq, option_eq, Dict,
}
use agent_debug_x.Python.{Value, Fields}
use agent_debug_x.Schema.{AgentTrajectory}

pub data ReceiptStatus : Type 0 where
  pending committed no_op failed : ReceiptStatus

-- A row of `capture_receipts`
pub record CaptureReceipt : Type 0 where
  pub receipt_id : String
  pub host : String
  pub session_id : String
  pub project_id : String
  pub transcript_path : String
  pub cwd : String
  pub native_event_name : String
  pub logical_boundary_kind : String
  pub boundary_id : Option String
  pub native_event_id : Option String
  pub observed_at : ℕ
  pub transcript_size : Option ℕ
  pub status : ReceiptStatus
  pub task : Option Value
  pub session_end_reason : Option String
  pub warnings : List String
  pub error : Option String
  pub duration_ms : Option ℕ
  pub native_payload : Fields
  pub source_version : String

pub data SessionStatus : Type 0 where
  active ended : SessionStatus

-- A row of `capture_sessions`
pub record CaptureSession : Type 0 where
  pub host : String
  pub session_id : String
  pub project_id : String
  pub trace_id : String
  pub transcript_path : String
  pub transcript_size : ℕ
  pub transcript_sha256 : Option String
  pub last_boundary_id : Option String
  pub last_event_id : Option String
  pub event_count : ℕ
  pub status : SessionStatus
  pub adapter_version : ℕ
  pub updated_at : ℕ
  pub ended_at : Option ℕ

-- A row of `capture_traces`
pub record CaptureTrace : Type 0 where
  pub host : String
  pub session_id : String
  pub sequence : ℕ
  pub trace_id : String
  pub boundary_id : Option String
  pub event_count : ℕ
  pub created_at : ℕ

pub record Store : Type 0 where
  pub receipts : List CaptureReceipt
  pub sessions : List CaptureSession
  pub traces : List CaptureTrace
  pub trajectories : Dict String AgentTrajectory

-- The fields of a notification that the repository reads
pub record HookNotification : Type 0 where
  pub host : String
  pub event_name : String
  pub session_id : String
  pub transcript_path : String
  pub cwd : String
  pub observed_at : ℕ
  pub native_event_id : Option String
  pub task : Option Value
  pub session_end_reason : Option String
  pub native_payload : Fields

pub record CaptureRequest : Type 0 where
  pub notification : HookNotification
  pub project_id : String
  pub trace_id : String
  pub receipt_id : String
  pub logical_boundary_kind : String
  pub source_version : String

-- Bytes are numbers.
pub record TranscriptSnapshot : Type 0 where
  pub path : String
  pub complete_bytes : List ℕ
  pub complete_size : ℕ
  pub content_sha256 : String
  pub last_record_sha256 : String
  pub records : List Fields
  pub ignored_tail_bytes : ℕ

-- The keys of `result_metadata`, `none` where one is missing
pub record ResultMetadata : Type 0 where
  pub project_id : Option String
  pub boundary_id : Option String
  pub warnings : List String
  pub adapter_version : Option ℕ
  pub duration_ms : Option ℕ

-- `row['status'] in {'committed', 'no_op'}`
unfoldable pub is_terminal : ReceiptStatus → Bool
is_terminal pending = false
is_terminal committed = true
is_terminal no_op = true
is_terminal failed = false

unfoldable pub has_receipt_id : String → CaptureReceipt → Bool
has_receipt_id receipt_id receipt = receipt.receipt_id == receipt_id

-- The row that the insertion of `begin_receipt` writes
unfoldable pub new_receipt : CaptureRequest → CaptureReceipt
new_receipt request =
    let notification = request.notification in
    record {
      receipt_id = request.receipt_id;
      host = notification.host;
      session_id = notification.session_id;
      project_id = request.project_id;
      transcript_path = notification.transcript_path;
      cwd = notification.cwd;
      native_event_name = notification.event_name;
      logical_boundary_kind = request.logical_boundary_kind;
      boundary_id = none;
      native_event_id = notification.native_event_id;
      observed_at = notification.observed_at;
      transcript_size = none;
      status = pending;
      task = notification.task;
      session_end_reason = notification.session_end_reason;
      warnings = [];
      error = none;
      duration_ms = none;
      native_payload = notification.native_payload;
      source_version = request.source_version;
    }

-- `load_receipt`
unfoldable pub load_receipt : String → Store → Option CaptureReceipt
load_receipt receipt_id store = find_first (has_receipt_id receipt_id) store.receipts

-- `host = ? AND session_id = ? AND boundary_id = ?`
unfoldable pub has_boundary : String → String → String → CaptureReceipt → Bool
has_boundary host session_id boundary_id receipt =
    receipt.host == host
    && (receipt.session_id == session_id && receipt.boundary_id == some boundary_id)

unfoldable pub load_boundary_receipt : String → String → String → Store → Option CaptureReceipt
load_boundary_receipt host session_id boundary_id store =
    find_first (has_boundary host session_id boundary_id) store.receipts

unfoldable pub is_session : String → String → CaptureSession → Bool
is_session host session_id session = session.host == host && session.session_id == session_id

unfoldable pub load_session : String → String → Store → Option CaptureSession
load_session host session_id store = find_first (is_session host session_id) store.sessions

-- `UPDATE ... WHERE`: the rows that satisfy the condition are changed, in place.
unfoldable pub update_where {ℓ} : {A : Type ℓ} → (A → Bool) → (A → A) → List A → List A
update_where p f [] = []
update_where p f (row ∷ rows) =
    let rest = update_where p f rows in if p row then f row ∷ rest else row ∷ rest

-- Whether the unique index `capture_boundary_once` refuses the boundary for the receipt
unfoldable pub boundary_taken : CaptureReceipt → Option String → Store → Bool
boundary_taken receipt none store = false
boundary_taken receipt (some boundary_id) store =
    any
      (λ other.
        has_boundary receipt.host receipt.session_id boundary_id other
        && not (other.receipt_id == receipt.receipt_id))
      store.receipts

-- `SELECT COALESCE(MAX(sequence), 0) + 1`
unfoldable pub next_sequence : String → String → List CaptureTrace → ℕ
next_sequence host session_id [] = 1
next_sequence host session_id (trace ∷ traces) =
    let rest = next_sequence host session_id traces in
    if trace.host == host && trace.session_id == session_id && ltb trace.sequence rest
    then rest
    else if trace.host == host && trace.session_id == session_id
    then trace.sequence + 1
    else rest

unfoldable pub has_trace_id : String → CaptureTrace → Bool
has_trace_id trace_id trace = trace.trace_id == trace_id

unfoldable pub ends_session : CaptureReceipt → Bool
ends_session receipt = receipt.native_event_name == "SessionEnd"

-- The row that `commit_capture` writes for the session
unfoldable pub captured_session :
    ℕ
    → CaptureReceipt
    → AgentTrajectory
    → TranscriptSnapshot
    → ResultMetadata
    → String
    → CaptureSession
captured_session now receipt trajectory snapshot metadata project_id = record {
  host = receipt.host;
  session_id = receipt.session_id;
  project_id = project_id;
  trace_id = trajectory.trace_id;
  transcript_path = snapshot.path;
  transcript_size = snapshot.complete_size;
  transcript_sha256 = some snapshot.content_sha256;
  last_boundary_id = metadata.boundary_id;
  last_event_id = elim (last? trajectory.events) [ none ↦ none | some e ↦ some e.event_id ];
  event_count = length trajectory.events;
  status = if ends_session receipt then ended else active;
  adapter_version = or_else metadata.adapter_version 1;
  updated_at = now;
  ended_at = if ends_session receipt then some now else none;
}

-- `INSERT ... ON CONFLICT(host, session_id) DO UPDATE`
unfoldable pub upsert_session : CaptureSession → List CaptureSession → List CaptureSession
upsert_session session [] = session ∷ []
upsert_session session (other ∷ sessions) =
    let rest = upsert_session session sessions in
    if is_session session.host session.session_id other then session ∷ sessions else other ∷ rest

-- The row of the receipt once it is committed
unfoldable pub committed_receipt :
    TranscriptSnapshot → ResultMetadata → CaptureReceipt → CaptureReceipt
committed_receipt snapshot metadata receipt = record receipt {
  boundary_id = metadata.boundary_id;
  transcript_size = some snapshot.complete_size;
  status = committed;
  warnings = metadata.warnings;
  error = none;
  duration_ms = metadata.duration_ms;
}

unfoldable pub captured_trace :
    ℕ → CaptureReceipt → AgentTrajectory → ResultMetadata → List CaptureTrace → CaptureTrace
captured_trace now receipt trajectory metadata traces = record {
  host = receipt.host;
  session_id = receipt.session_id;
  sequence = next_sequence receipt.host receipt.session_id traces;
  trace_id = trajectory.trace_id;
  boundary_id = metadata.boundary_id;
  event_count = length trajectory.events;
  created_at = now;
}
