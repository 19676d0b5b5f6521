-- ===== src/Capture/Service/Captured.antt =====
-- What a delivery of capture/service.py that answers `captured` has stored.
use agent_debug_x.Base.{
  ℕ, String, ◌≡◌, refl, sym, ◌∙◌, true, Option, some, List, inl, inr, lookup-insert, Bool-cases,
  string_eq,
}
use agent_debug_x.Python.{ok}
use agent_debug_x.Capture.Filtering.{PreparedTrajectory}
use agent_debug_x.Capture.Tables.{
  CaptureReceipt, CaptureSession, Store, TranscriptSnapshot, ResultMetadata, is_terminal,
  has_receipt_id, load_receipt, committed_receipt,
}
use agent_debug_x.Capture.Repository.{begin_receipt, commit_capture, reconcile_prior_receipts}
use agent_debug_x.Capture.Repository.Receipts.{
  begin_receipt-begin_receipt, commit_capture-cases, write_capture-eq-ok,
  committed_receipt-load_receipt, load_receipt-id, find_first-update_other,
}
use mathlib.Core.Option.{some-injective}
use agent_debug_x.Capture.Contracts.{CaptureResult, Surroundings, Clock, CaptureService}
use agent_debug_x.Capture.Admission.{Delivery, no_op_result}
use agent_debug_x.Capture.Action.{Action, pure, ◌>>=◌, ◌>>◌}
use agent_debug_x.Capture.Service.{
  close, reconcile, commit, captured_result, current_session, record_prepared, capture_snapshot,
  capture_transcript, deliver,
}
use agent_debug_x.Capture.Service.Rules.{IsOpen}
use agent_debug_x.Capture.Service.Stores.{
  IsStored, Stored, Silent, Stores, Silent-Stores, transact-Silent, transact-Stores, guarded-Silent,
  guarded-Stored, no_op-Silent, pending-Silent, gets-Silent, gets-Stores, lift-Stores, if-Stores,
  reconciled_id, terminal_prior,
}

-- The store once the prior receipts of a delivery are reconciled
abbrev reconciled : Delivery → Store → Store
reconciled delivery store =
    let request = delivery.request in
    reconcile_prior_receipts request.project_id request.notification.host
      request.notification.session_id request.receipt_id store

module _ (service : CaptureService) (around : Surroundings) (clock : Clock)
    (delivery : Delivery) where
  reconcile-Silent :
      (rest : Action CaptureResult)
      → Silent rest
      → Silent (reconcile service around clock delivery >> rest)
  unfolding reconcile
  reconcile-Silent rest = guarded-Silent _ _ rest

  current-Silent :
      (rest : Option CaptureSession → Action CaptureResult)
      → ((session : Option CaptureSession) → Silent (rest session))
      → Silent (current_session service around clock delivery >>= rest)
  unfolding current_session
  current-Silent rest = gets-Silent _ rest

  close-Stores :
      (snapshot : TranscriptSnapshot) (boundary_id : Option String) (warnings : List String)
      → (rest : Action CaptureResult) → Silent rest
      → Stores delivery.request.receipt_id
          (close service around clock delivery snapshot boundary_id warnings >> rest)
  unfolding close
  close-Stores snapshot boundary_id warnings rest h = Silent-Stores _ _ (transact-Silent _ rest h)

  -- The receipt that a commit closed stays as it is when the prior ones are reconciled.
  reconciled_found :
      (store : Store) (receipt : CaptureReceipt)
      → load_receipt delivery.request.receipt_id store ≡ some receipt
      → is_terminal receipt.status ≡ true
      → load_receipt delivery.request.receipt_id (reconciled delivery store) ≡ some receipt
  unfolding load_receipt reconcile_prior_receipts
  reconciled_found store receipt found terminal =
      find_first-update_other (has_receipt_id delivery.request.receipt_id) _ _
        (λ other e. reconciled_id delivery.request.receipt_id _ other) store.receipts receipt found
        (terminal_prior _ _ _ _ receipt terminal)

  -- The commit writes the receipt and the trajectory.
  commit-IsStored :
      (snapshot : TranscriptSnapshot) (boundary_id trace_id : String)
      → (prepared : PreparedTrajectory) (metadata : ResultMetadata) (time : ℕ) (store next : Store)
      → metadata.boundary_id ≡ some boundary_id
      → IsOpen delivery.request.receipt_id store
      → commit_capture time delivery.request.receipt_id prepared.trajectory snapshot metadata store
        ≡ ok next
      → IsStored delivery.request.receipt_id
          (captured_result service around clock trace_id boundary_id prepared)
          (reconciled delivery next)
  unfolding captured_result committed_receipt is_terminal reconcile_prior_receipts
  commit-IsStored snapshot boundary_id trace_id prepared metadata time store next b open_ h =
      let id = delivery.request.receipt_id in
      let (receipt, l, cases) =
        commit_capture-cases time id prepared.trajectory snapshot metadata store next h in
      elim cases [
        | inl (t, _) ↦
            (let same : receipt ≡ open_.receipt =
                some-injective receipt open_.receipt (sym l ∙ open_.found) in
              let t' : is_terminal open_.receipt.status ≡ true = rw (← same) t in
              let n = open_.not_terminal in cc)
        | inr (t, w) ↦
            (let (_, receipts, _, trajectories) =
                write_capture-eq-ok time receipt prepared.trajectory snapshot metadata store next
                  w in
              let found =
                committed_receipt-load_receipt id store next receipt snapshot metadata l
                  (rw (load_receipt-id id store receipt l) at receipts) in
              record {
                receipt = committed_receipt snapshot metadata receipt;
                found =
                    reconciled_found next (committed_receipt snapshot metadata receipt) found refl;
                committed = refl;
                boundary = b;
                trajectory = prepared.trajectory;
                kept = rw trajectories (
                    lookup-insert store.trajectories prepared.trajectory.trace_id
                      prepared.trajectory.trace_id prepared.trajectory
                    ∙ rw
                        ((string_eq.beq_iff prepared.trajectory.trace_id
                            prepared.trajectory.trace_id).1
                          refl)
                        refl);
                counted = refl;
                last = refl;
              })
      ]

  commit-Stores :
      (snapshot : TranscriptSnapshot) (boundary_id trace_id : String)
      → (prepared : PreparedTrajectory)
      → Stores delivery.request.receipt_id (
          commit service around clock delivery snapshot boundary_id prepared
          >> (reconcile service around clock delivery
              >> pure (captured_result service around clock trace_id boundary_id prepared)))
  unfolding commit reconcile
  commit-Stores snapshot boundary_id trace_id prepared =
      transact-Stores _ _
        (reconcile service around clock delivery
          >> pure (captured_result service around clock trace_id boundary_id prepared))
        (λ store next open_ e. guarded-Stored _ around.reconciles _ _ next (
          commit-IsStored snapshot boundary_id trace_id prepared _ clock.time store next refl open_
            e))

  ruleset rules = (
    if-Stores, close-Stores, commit-Stores, lift-Stores, gets-Stores, Silent-Stores,
    reconcile-Silent, current-Silent, no_op-Silent,
  )

  record_prepared-Stores :
      (snapshot : TranscriptSnapshot) (boundary_id trace_id : String)
      → (prepared : PreparedTrajectory)
      → Stores delivery.request.receipt_id
          (record_prepared service around clock delivery snapshot boundary_id trace_id prepared)
  unfolding record_prepared
  record_prepared-Stores snapshot boundary_id trace_id prepared = search rules depth 14

  capture_snapshot-Stores :
      (snapshot : TranscriptSnapshot)
      → Stores delivery.request.receipt_id (capture_snapshot service around clock delivery snapshot)
  unfolding capture_snapshot
  capture_snapshot-Stores snapshot = search (rules, record_prepared-Stores) depth 14

  capture_transcript-Stores :
      Stores delivery.request.receipt_id (capture_transcript service around clock delivery)
  unfolding capture_transcript
  capture_transcript-Stores = search (rules, pending-Silent, capture_snapshot-Stores) depth 14

  pub deliver-Stored :
      (store : Store)
      → Stored delivery.request.receipt_id
          (deliver service around clock delivery store).0
          (deliver service around clock delivery store).1
  unfolding deliver current_session no_op_result
  deliver-Stored store =
      let after = (begin_receipt delivery.request store).0 in
      let receipt = (begin_receipt delivery.request store).1 in
      let found = (begin_receipt-begin_receipt delivery.request store).0 in
      elim (Bool-cases (is_terminal receipt.status)) [
        | inl t ↦ rw t (λ e. cc)
        | inr t ↦ rw t (
            capture_transcript-Stores.stores after
              (record { receipt = receipt; found = found; not_terminal = t }))
      ]
