-- ===== src/Capture/Service.antt =====
-- capture/service.py: `CaptureService.handle`, from the receipt of a notification to its result. A
-- value of the clock stands for each reading of the time.
pub mod Rules
pub mod Traced
pub mod Stores
pub mod Captured
pub mod Handled
pub mod Repeated
pub mod Quiet
pub mod Answers
use agent_debug_x.Base.{
  String, not, ◌&&◌, Option, none, some, List, [], ◌∷◌, any, length, leb, if◌then◌else◌, or_else,
  ◌==◌, string_eq, nat_eq, option_eq,
}
use agent_debug_x.Python.{Result, ok, err, Error, message_of, put, str}
use agent_debug_x.Schema.{AgentTrajectory}
use agent_debug_x.Capture.Filtering.{PreparedTrajectory, prepare_for_capture}
use agent_debug_x.Capture.Tables.{
  CaptureSession, Store, HookNotification, TranscriptSnapshot, is_terminal, load_session,
  load_boundary_receipt,
}
use agent_debug_x.Capture.Repository.{
  begin_receipt, commit_capture, commit_no_op, mark_failed, reconcile_prior_receipts,
}
use agent_debug_x.Capture.Identity.{trace_id_for_boundary, boundary_id_for}
use agent_debug_x.Capture.Snapshot.{read_complete_jsonl}
use agent_debug_x.Capture.Contracts.{
  CaptureResult, CaptureConfig, Surroundings, Clock, CaptureService, captured, pending, failed,
}
use agent_debug_x.Capture.Admission.{
  Delivery, Admission, answered, admitted, no_op_result, is_reconciliation, admit,
}
use agent_debug_x.Capture.Action.{◌>>=◌, ◌>>◌, Action, pure, lift, gets, act, guarded, transact}
use agent_debug_x.Capture.Outcome.{
  has_durable_assistant_boundary, is_other_receipt, is_same_content, last_event_id, is_same_end,
  is_empty, counter_warnings, is_caught, bare_result, enabled_config,
}

module _ (service : CaptureService) (around : Surroundings) (clock : Clock) where
  -- The calls of `commit_no_op` and of `reconcile_prior_receipts`
  unfoldable pub close :
      Delivery → TranscriptSnapshot → Option String → List String → Action (Unit {0})
  close delivery snapshot boundary_id warnings = transact (
      commit_no_op clock.time delivery.request.receipt_id snapshot (record {
        project_id = none;
        boundary_id = boundary_id;
        warnings = warnings;
        adapter_version = none;
        duration_ms = some clock.at_close;
      }))

  unfoldable pub reconcile : Delivery → Action (Unit {0})
  reconcile delivery =
      let request = delivery.request in
      guarded around.reconciles (
        reconcile_prior_receipts request.project_id request.notification.host
          request.notification.session_id request.receipt_id)

  unfoldable pub current_session : Delivery → Action (Option CaptureSession)
  current_session delivery =
      let notification = delivery.request.notification in
      gets (load_session notification.host notification.session_id)

  unfoldable pub commit :
      Delivery → TranscriptSnapshot → String → PreparedTrajectory → Action (Unit {0})
  commit delivery snapshot boundary_id prepared = transact (
      commit_capture clock.time delivery.request.receipt_id prepared.trajectory snapshot (record {
        project_id = some delivery.request.project_id;
        boundary_id = some boundary_id;
        warnings = counter_warnings prepared.counters;
        adapter_version = some (or_else service.adapter.version 1);
        duration_ms = some clock.at_close;
      }))

  unfoldable pub captured_result : String → String → PreparedTrajectory → CaptureResult
  captured_result trace_id boundary_id prepared = record {
    status = captured;
    trace_id = some trace_id;
    event_count = length prepared.trajectory.events;
    last_event_id = last_event_id prepared.trajectory;
    boundary_id = some boundary_id;
    warnings = counter_warnings prepared.counters;
    elapsed_ms = clock.at_end;
  }

  -- Behind `prepare_for_capture`: three reasons not to capture, and the capture.
  unfoldable pub record_prepared :
      Delivery → TranscriptSnapshot → String → String → PreparedTrajectory → Action CaptureResult
  record_prepared delivery snapshot boundary_id trace_id prepared =
      let notification = delivery.request.notification in
      let answer = λ (trace : String) (session : Option CaptureSession) (warnings : List String).
        no_op_result trace session (some boundary_id) warnings clock.at_end in
      if is_empty prepared.trajectory.events
      then (do
        close delivery snapshot (some boundary_id) ("no meaningful events" ∷ [])
        reconcile delivery
        current ← current_session delivery
        pure (answer trace_id current ("no meaningful events" ∷ [])))
      else if not (notification.event_name == "TaskCompleted")
          && is_same_end delivery.session prepared.trajectory
      then (do
        close delivery snapshot (some boundary_id) []
        reconcile delivery
        pure (
            answer (elim delivery.session [ none ↦ trace_id | some session ↦ session.trace_id ])
              delivery.session []))
      else if is_reconciliation notification
          && not (has_durable_assistant_boundary prepared.trajectory)
      then (do
        close delivery snapshot (some boundary_id) ("no prior durable assistant boundary" ∷ [])
        reconcile delivery
        pure (answer trace_id none ("no prior durable assistant boundary" ∷ [])))
      else (do
        commit delivery snapshot boundary_id prepared
        reconcile delivery
        pure (captured_result trace_id boundary_id prepared))

  -- `trajectory.metadata['capture_project_id'] = project_id`, and the filter
  unfoldable pub prepare : Delivery → AgentTrajectory → PreparedTrajectory
  prepare delivery trajectory =
      prepare_for_capture around.payload_size around.redactions (record trajectory {
        metadata = put trajectory.metadata "capture_project_id" (str delivery.request.project_id);
      })

  -- From the snapshot on: a boundary that another receipt has, a transcript with the content of the
  -- session, and the rest.
  unfoldable pub capture_snapshot : Delivery → TranscriptSnapshot → Action CaptureResult
  capture_snapshot delivery snapshot =
      let request = delivery.request in
      let notification = request.notification in
      let boundary_id = boundary_id_for around.hexdigest request snapshot in
      let trace_id =
        trace_id_for_boundary around.hexdigest notification.host notification.session_id
          boundary_id in
      let duplicate = "duplicate content boundary" ∷ [] in
      do
        existing ←
            gets (load_boundary_receipt notification.host notification.session_id boundary_id)
        (if is_other_receipt request.receipt_id existing
            then (do
              close delivery snapshot none duplicate
              current ← current_session delivery
              reconcile delivery
              pure (no_op_result trace_id current (some boundary_id) duplicate clock.at_end))
            else if is_same_content delivery.session snapshot
            then (do
              close delivery snapshot (some boundary_id) []
              reconcile delivery
              pure (no_op_result trace_id delivery.session (some boundary_id) [] clock.at_end))
            else (do
              trajectory ← lift (service.adapter.normalize notification snapshot trace_id)
              record_prepared delivery snapshot boundary_id trace_id (prepare delivery trajectory)))

  -- The reading of the transcript. A session that ends waits if the time is up.
  unfoldable pub capture_transcript : Delivery → Action CaptureResult
  capture_transcript delivery = do
    content ← lift (around.read_bytes delivery.transcript_path)
    snapshot ← lift (
        read_complete_jsonl around.loads around.sha256 (around.resolve delivery.transcript_path)
          content)
    (if delivery.request.notification.event_name == "SessionEnd"
          && leb service.session_end_deadline_ms clock.at_deadline
        then pure (record bare_result {
          status = pending;
          trace_id = some delivery.request.trace_id;
          elapsed_ms = clock.at_end;
        })
        else capture_snapshot delivery snapshot)

  -- A receipt that is closed is answered, and any other is worked on.
  unfoldable pub deliver : Delivery → Action CaptureResult
  deliver delivery = do
    receipt ← act (begin_receipt delivery.request)
    (if is_terminal receipt.status
        then (do
          current ← current_session delivery
          pure (no_op_result delivery.request.trace_id current receipt.boundary_id [] clock.at_end))
        else capture_transcript delivery)

  unfoldable pub failed_result : Error → CaptureResult
  failed_result raised = record bare_result {
    status = failed;
    warnings = message_of raised ∷ [];
    elapsed_ms = clock.at_end;
  }

  -- The handler of the exceptions, with the receipt that it marks
  unfoldable pub settle :
      Option String → Result CaptureResult × Store → Result CaptureResult × Store
  settle receipt_id (ok result, store) = (ok result, store)
  settle none (err raised, store) =
      (if is_caught raised then ok (failed_result raised) else err raised, store)
  settle (some receipt_id) (err raised, store) =
      if is_caught raised
      then (
        ok (failed_result raised),
        mark_failed receipt_id (message_of raised) clock.at_end store,
      )
      else (err raised, store)

  -- The answer of an early return, or that of the delivery
  unfoldable pub respond : Admission → Action CaptureResult
  respond (answered result) store = (ok result, store)
  respond (admitted delivery) store =
      settle (some delivery.request.receipt_id) (deliver delivery store)

  unfoldable pub handle_enabled : CaptureConfig → HookNotification → Action CaptureResult
  handle_enabled config notification store =
      elim (admit service around clock config notification store) [
        | err raised ↦ settle none (err raised, store)
        | ok admission ↦ respond admission store
      ]

  -- With what the loading of the configuration returns or raises
  unfoldable pub handle_loaded :
      Result (Option CaptureConfig) → HookNotification → Action CaptureResult
  handle_loaded (err raised) notification store = (err raised, store)
  handle_loaded (ok loaded) notification store = elim (enabled_config notification.host loaded) [
    | none ↦ (ok (record bare_result { elapsed_ms = clock.at_end }), store)
    | some config ↦ handle_enabled config notification store
  ]

  -- `CaptureService.handle`. The configuration is loaded outside the handler of the exceptions.
  unfoldable pub handle : HookNotification → Action CaptureResult
  handle = handle_loaded around.config
