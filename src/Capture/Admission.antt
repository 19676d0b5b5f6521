-- ===== src/Capture/Admission.antt =====
-- capture/service.py: what `CaptureService.handle` checks before it has a receipt. It reads the
-- store and does not write to it.
use Prim.Native.Char.{char}
use agent_debug_x.Base.{
  ℕ, String, ◌+++◌, Bool, true, false, not, ◌&&◌, ◌||◌, Option, none, some, List, [], any, lookup,
  if◌then◌else◌, ◌==◌, string_eq, nat_eq,
}
use agent_debug_x.Python.{Result, ok, err, value_error, ◌>>=◌, ◌>>◌, require, show_nat, has_prefix}
use agent_debug_x.Capture.Tables.{
  CaptureReceipt, CaptureSession, Store, HookNotification, CaptureRequest, load_session, ended,
  SessionStatus,
}
use agent_debug_x.Capture.Repository.{list_replayable}
use agent_debug_x.Capture.Identity.{trace_id_for, project_id_for, receipt_id_for}
use agent_debug_x.Capture.Contracts.{
  CaptureResult, CaptureConfig, FileStat, Surroundings, Clock, CaptureService, no_op,
}

-- What `handle` has at hand once it asks for a receipt
pub record Delivery : Type 0 where
  pub request : CaptureRequest
  pub transcript_path : String
  pub session : Option CaptureSession

-- The answer of an early return, or the delivery that goes on
pub data Admission : Type 0 where
  answered : (result : CaptureResult) → Admission
  admitted : (delivery : Delivery) → Admission

-- `cwd.relative_to(root)` does not raise, on absolute paths that are resolved
unfoldable pub is_within : String → String → Bool
is_within root cwd = cwd == root || has_prefix (if root == "/" then "/" else root +++ "/") cwd

-- The values of a result that `session` gives, `current` where it may be missing
unfoldable pub event_count_of : Option CaptureSession → ℕ
event_count_of none = 0
event_count_of (some session) = session.event_count

unfoldable pub last_event_of : Option CaptureSession → Option String
last_event_of none = none
last_event_of (some session) = session.last_event_id

unfoldable pub no_op_result :
    String → Option CaptureSession → Option String → List String → ℕ → CaptureResult
unfolding event_count_of last_event_of
no_op_result trace_id current boundary_id warnings elapsed = record {
  status = no_op;
  trace_id = some trace_id;
  event_count = event_count_of current;
  last_event_id = last_event_of current;
  boundary_id = boundary_id;
  warnings = warnings;
  elapsed_ms = elapsed;
}

unfoldable pub is_ended : SessionStatus → Bool
is_ended ended = true
is_ended _ = false

-- `notification.event_name in {'SessionStart', 'UserPromptSubmit'}`
unfoldable pub is_reconciliation : HookNotification → Bool
is_reconciliation notification =
    notification.event_name == "SessionStart" || notification.event_name == "UserPromptSubmit"

unfoldable pub same_session : HookNotification → CaptureReceipt → Bool
same_session notification receipt =
    receipt.host == notification.host && receipt.session_id == notification.session_id

unfoldable pub text_at : Option String → String → Result String
text_at none message = err (value_error message)
text_at (some text) message = ok text

-- `f'{transcript_path}\0{stat.st_size}\0{stat.st_mtime_ns}'`
unfoldable pub source_version_of : String → FileStat → String
source_version_of path stat =
    let nul = String.◌∷◌ (char 0 tt) "" in
    path +++ nul +++ show_nat stat.st_size +++ nul +++ show_nat stat.st_mtime_ns

-- The two returns before a receipt is asked for: nothing was captured of a session that starts, or
-- the transcript has not grown since the capture of its session and no receipt waits for a replay.
unfoldable pub early_answer :
    Clock
    → HookNotification
    → String
    → FileStat
    → Option CaptureSession
    → Bool
    → Option CaptureResult
unfolding is_reconciliation no_op_result is_ended
early_answer clock notification trace_id stat none replayable =
    if notification.event_name == "SessionStart" && not replayable
    then some (no_op_result trace_id none none [] clock.at_end)
    else none
early_answer clock notification trace_id stat (some session) replayable =
    if is_reconciliation notification
      && (session.transcript_size == stat.st_size
          && (not replayable
              && not (notification.event_name == "SessionStart" && is_ended session.status)))
    then some (no_op_result trace_id (some session) session.last_boundary_id [] clock.at_end)
    else none

-- What the checks have found: the logical boundary of the event, and the transcript
pub record Checked : Type 0 where
  pub boundary_kind : String
  pub transcript_path : String
  pub stat : FileStat

module _ (service : CaptureService) (around : Surroundings) where
  -- The checks, in their order
  unfoldable pub check : CaptureConfig → HookNotification → Result Checked
  check config notification = do
    require (around.resolve config.project_root == service.project_root)
        (value_error "capture config project root does not match dispatch scope")
    require (service.adapter.host == notification.host)
        (value_error "capture platform does not match hook notification")
    require (is_within service.project_root (around.resolve notification.cwd))
        (value_error "hook cwd is outside the configured project")
    boundary_kind ←
        text_at (lookup service.adapter.event_boundaries notification.event_name)
          ("unsupported capture event: " +++ notification.event_name)
    path ← service.adapter.validate_transcript_path notification
    stat ← around.stat path
    around.opened
    ok (record { boundary_kind = boundary_kind; transcript_path = path; stat = stat })

  unfoldable pub request_of : HookNotification → Checked → CaptureRequest
  request_of notification checked =
      let source_version = source_version_of checked.transcript_path checked.stat in
      record {
        notification = notification;
        project_id = project_id_for around.hexdigest (around.resolve service.project_root);
        trace_id = trace_id_for around.hexdigest notification.host notification.session_id;
        receipt_id = receipt_id_for around.hexdigest around.dumps notification source_version;
        logical_boundary_kind = checked.boundary_kind;
        source_version = source_version;
      }

module _ (service : CaptureService) (around : Surroundings) (clock : Clock) where
  -- The session, the receipts that wait for a replay, and the early returns
  unfoldable pub admission : HookNotification → Store → Checked → Admission
  admission notification store checked =
      let request = request_of service around notification checked in
      let session = load_session notification.host notification.session_id store in
      let replayable =
        any (same_session notification) (list_replayable request.project_id none store) in
      elim (early_answer clock notification request.trace_id checked.stat session replayable) [
        | some result ↦ answered result
        | none ↦ admitted (record {
          request = request;
          transcript_path = checked.transcript_path;
          session = session;
        })
      ]

  unfoldable pub admit : CaptureConfig → HookNotification → Store → Result Admission
  admit config notification store = check service around config notification >>= λ checked.
      ok (admission notification store checked)
