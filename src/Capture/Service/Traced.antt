-- ===== src/Capture/Service/Traced.antt =====
-- Deliveries of capture/service.py against the step relation of the repository.
use agent_debug_x.Base.{
  String, ◌≡◌, Option, some, List, inl, inr, Option-cases, Bool-cases, string_eq,
}
use agent_debug_x.Python.{Result, ok, err, Result-cases}
use agent_debug_x.Capture.Filtering.{PreparedTrajectory}
use agent_debug_x.Capture.Tables.{
  CaptureSession, Store, HookNotification, TranscriptSnapshot, is_terminal,
}
use agent_debug_x.Capture.Repository.{begin_receipt}
use agent_debug_x.Capture.Repository.Receipts.{begin_receipt-begin_receipt}
use agent_debug_x.Capture.Repository.History.{
  History, now, later, begun, captured, closed, failing, superseded,
}
use agent_debug_x.Capture.Contracts.{
  CaptureResult, CaptureConfig, Surroundings, Clock, CaptureService,
}
use agent_debug_x.Capture.Admission.{Delivery, Admission, answered, admitted, admit}
use agent_debug_x.Capture.Action.{Action, ◌>>=◌, ◌>>◌}
use agent_debug_x.Capture.Service.{
  close, reconcile, commit, current_session, record_prepared, capture_snapshot, capture_transcript,
  deliver, settle, respond, handle_loaded, handle_enabled, handle,
}
use agent_debug_x.Capture.Outcome.{enabled_config, is_caught}
use agent_debug_x.Capture.Service.Rules.{
  IsOpen, IsRaised, Traced, Smooth, pure-Smooth, gets-Smooth, guarded-Smooth, transact-Traced,
  pure-Traced, gets-Traced, lift-Traced, if-Traced,
}

History-append :
    (store next last : Store) → History store next → History next last → History store last
History-append _ _ last (now store) rest = rest
History-append _ next last (later store step_ _ step history) rest =
    later store step_ last step (History-append step_ next last history rest)

module _ (service : CaptureService) (around : Surroundings) (clock : Clock) (delivery : Delivery)
    (reconciles : around.reconciles ≡ ok tt) where
  reconcile-Smooth :
      {A : Type 0} (rest : Action A)
      → Smooth rest
      → Smooth (reconcile service around clock delivery >> rest)
  unfolding reconcile
  reconcile-Smooth rest = guarded-Smooth _ _ rest reconciles (superseded _ _ _ _)

  close-Traced :
      {A : Type 0} (snapshot : TranscriptSnapshot) (boundary_id : Option String)
      (warnings : List String)
      → (rest : Action A) → Smooth rest
      → Traced delivery.request.receipt_id
          (close service around clock delivery snapshot boundary_id warnings >> rest)
  unfolding close
  close-Traced snapshot boundary_id warnings rest =
      transact-Traced _ _ rest
        (λ store next o e. closed _ _ _ _ store next o.receipt o.found o.not_terminal e)

  commit-Traced :
      {A : Type 0} (snapshot : TranscriptSnapshot) (boundary_id : String)
      (prepared : PreparedTrajectory)
      → (rest : Action A) → Smooth rest
      → Traced delivery.request.receipt_id
          (commit service around clock delivery snapshot boundary_id prepared >> rest)
  unfolding commit
  commit-Traced snapshot boundary_id prepared rest =
      transact-Traced _ _ rest (λ store next o e. captured _ _ _ _ _ store next e)

  current-Smooth :
      {A : Type 0} (rest : Option CaptureSession → Action A)
      → ((session : Option CaptureSession) → Smooth (rest session))
      → Smooth (current_session service around clock delivery >>= rest)
  unfolding current_session
  current-Smooth rest = gets-Smooth _ rest

  ruleset rules = (
    if-Traced, close-Traced, commit-Traced, lift-Traced, gets-Traced, pure-Traced, reconcile-Smooth,
    current-Smooth, pure-Smooth,
  )

  record_prepared-Traced :
      (snapshot : TranscriptSnapshot) (boundary_id trace_id : String)
      (prepared : PreparedTrajectory)
      → Traced delivery.request.receipt_id
          (record_prepared service around clock delivery snapshot boundary_id trace_id prepared)
  unfolding record_prepared
  record_prepared-Traced snapshot boundary_id trace_id prepared = search rules depth 14

  capture_snapshot-Traced :
      (snapshot : TranscriptSnapshot)
      → Traced delivery.request.receipt_id (capture_snapshot service around clock delivery snapshot)
  unfolding capture_snapshot
  capture_snapshot-Traced snapshot = search (rules, record_prepared-Traced) depth 14

  capture_transcript-Traced :
      Traced delivery.request.receipt_id (capture_transcript service around clock delivery)
  unfolding capture_transcript
  capture_transcript-Traced = search (rules, capture_snapshot-Traced) depth 14

  -- A delivery makes a history, and where it raises its receipt is open.
  deliver-Traced :
      (store : Store)
      → History store (deliver service around clock delivery store).1
        × (IsRaised (deliver service around clock delivery store).0
            → IsOpen delivery.request.receipt_id (deliver service around clock delivery store).1)
  unfolding deliver current_session
  deliver-Traced store =
      let after = (begin_receipt delivery.request store).0 in
      let receipt = (begin_receipt delivery.request store).1 in
      let found = (begin_receipt-begin_receipt delivery.request store).0 in
      elim (Bool-cases (is_terminal receipt.status)) [
        | inl t ↦ rw t (
            (
              later store after after (begun delivery.request store) (now after),
              λ raised. absurd raised,
            ))
        | inr t ↦
            (let open_ : IsOpen delivery.request.receipt_id after = record {
              receipt = receipt;
              found = found;
              not_terminal = t;
            } in
              let (history, raises) = capture_transcript-Traced.traced after open_ in
              rw t ((later store after _ (begun delivery.request store) history, raises)))
      ]

module _ (service : CaptureService) (around : Surroundings) (clock : Clock)
    (reconciles : around.reconciles ≡ ok tt) where
  settle-History :
      (receipt_id : String) (store : Store) (outcome : Result CaptureResult × Store)
      → History store outcome.1
      → (IsRaised outcome.0 → IsOpen receipt_id outcome.1)
      → History store (settle service around clock (some receipt_id) outcome).1
  unfolding settle
  settle-History receipt_id store (ok result, after) history raises = history
  settle-History receipt_id store (err raised, after) history raises =
      let open_ = raises tt in
      elim (Bool-cases (is_caught raised)) [
        | inl c ↦ rw c (
            History-append store after _ history (
              later after _ _
                (failing receipt_id _ _ after open_.receipt open_.found open_.not_terminal)
                (now _)))
        | inr c ↦ rw c history
      ]

  respond-History :
      (admission : Admission) (store : Store)
      → History store (respond service around clock admission store).1
  unfolding respond
  respond-History (answered result) store = now store
  respond-History (admitted delivery) store =
      let (history, raises) = deliver-Traced service around clock delivery reconciles store in
      settle-History delivery.request.receipt_id store _ history raises

  handle_enabled-History :
      (config : CaptureConfig) (notification : HookNotification) (store : Store)
      → History store (handle_enabled service around clock config notification store).1
  unfolding handle_enabled settle
  handle_enabled-History config notification store =
      elim (Result-cases (admit service around clock config notification store)) [
        | inl (admission, e) ↦ rw (handle_enabled, e) (respond-History admission store)
        | inr (raised, e) ↦ rw (handle_enabled, e) (now store)
      ]

  handle_loaded-History :
      (loaded : Result (Option CaptureConfig)) (notification : HookNotification) (store : Store)
      → History store (handle_loaded service around clock loaded notification store).1
  unfolding handle_loaded
  handle_loaded-History (err raised) notification store = now store
  handle_loaded-History (ok loaded) notification store =
      elim (Option-cases (enabled_config notification.host loaded)) [
        | inl o ↦ rw (handle_loaded, o) (now store)
        | inr (config, o) ↦ rw (handle_loaded, o) (handle_enabled-History config notification store)
      ]

  -- If no transaction of `reconcile_prior_receipts` fails (the reads of the database are taken to
  -- answer), then, whatever the configuration, the adapter, the files and the clock are, a
  -- notification takes the store along a history: only steps of the relation `Step` are taken, so
  -- that a receipt is closed without a capture or marked as failed only while it is open.
  pub handle-History :
      (notification : HookNotification) (store : Store)
      → History store (handle service around clock notification store).1
  unfolding handle
  handle-History notification store = handle_loaded-History around.config notification store
