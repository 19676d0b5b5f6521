-- ===== src/Capture/Service/Answers.antt =====
-- `CaptureService.handle` of capture/service.py answers whatever goes wrong behind its checks.
use agent_debug_x.Base.{
  ℕ, String, ◌≡◌, refl, ap, ◌∙◌, Option, none, some, List, inl, inr, lookup, Option-cases,
  Bool-cases, ◌==◌, string_eq,
}
use agent_debug_x.Python.{Result, ok, err, value_error, Result-cases}
use agent_debug_x.Capture.Filtering.{PreparedTrajectory}
use agent_debug_x.Capture.Tables.{
  CaptureSession, Store, HookNotification, TranscriptSnapshot, is_terminal,
}
use agent_debug_x.Capture.Repository.{begin_receipt}
use agent_debug_x.Capture.Contracts.{
  CaptureResult, CaptureConfig, Surroundings, Clock, CaptureService,
}
use agent_debug_x.Capture.Admission.{
  Delivery, Admission, answered, admitted, admit, check, admission, is_within, text_at,
}
use agent_debug_x.Capture.Snapshot.{read_complete_jsonl}
use agent_debug_x.Capture.Action.{Action, ◌>>=◌, ◌>>◌}
use agent_debug_x.Capture.Service.{
  close, reconcile, commit, current_session, record_prepared, capture_snapshot, capture_transcript,
  deliver, settle, respond, handle_enabled, handle_loaded, handle,
}
use agent_debug_x.Capture.Outcome.{enabled_config, is_caught}
use agent_debug_x.Capture.Service.Quiet.{
  Handled, Quiet, Answers, ok-Quiet, bind-Quiet, require-Quiet, gets-Answers, lift-Answers,
  pure-Answers, guarded-Answers, transact-Answers, if-Answers, commit_no_op-Quiet,
  commit_capture-Quiet, read_complete_jsonl-Quiet, text_at-Quiet,
}

-- What the adapter, the files, the JSON parser and the database raise is handled: it is an OSError, a ValueError, a
-- TypeError or an error of SQLite.
pub record IsTame (service : CaptureService) (around : Surroundings) : Type 0 where
  pub loaded : Option CaptureConfig
  pub loads : around.config ≡ ok loaded
  pub opens : Quiet around.opened
  pub reconciles : Quiet around.reconciles
  pub parses : (line : List ℕ) → Quiet (around.loads line)
  pub stats : (path : String) → Quiet (around.stat path)
  pub reads : (path : String) → Quiet (around.read_bytes path)
  pub validates : (n : HookNotification) → Quiet (service.adapter.validate_transcript_path n)
  pub normalizes :
      (n : HookNotification) (snapshot : TranscriptSnapshot) (trace_id : String)
      → Quiet (service.adapter.normalize n snapshot trace_id)

module _ (service : CaptureService) (around : Surroundings) (tame : IsTame service around)
    (clock : Clock) where
  module _ (delivery : Delivery) where
    close-Answers :
        {A : Type 0} (snapshot : TranscriptSnapshot) (boundary_id : Option String)
        (warnings : List String)
        → (rest : Action A) → Answers rest
        → Answers (close service around clock delivery snapshot boundary_id warnings >> rest)
    unfolding close
    close-Answers snapshot boundary_id warnings rest =
        transact-Answers _ rest (λ store. commit_no_op-Quiet _ _ snapshot _ store)

    commit-Answers :
        {A : Type 0} (snapshot : TranscriptSnapshot) (boundary_id : String)
        (prepared : PreparedTrajectory)
        → (rest : Action A) → Answers rest
        → Answers (commit service around clock delivery snapshot boundary_id prepared >> rest)
    unfolding commit
    commit-Answers snapshot boundary_id prepared rest =
        transact-Answers _ rest
          (λ store. commit_capture-Quiet _ _ _ snapshot _ delivery.request.project_id store refl)

    reconcile-Answers :
        {A : Type 0} (rest : Action A)
        → Answers rest
        → Answers (reconcile service around clock delivery >> rest)
    unfolding reconcile
    reconcile-Answers rest = guarded-Answers _ _ rest tame.reconciles

    current-Answers :
        {A : Type 0} (rest : Option CaptureSession → Action A)
        → ((session : Option CaptureSession) → Answers (rest session))
        → Answers (current_session service around clock delivery >>= rest)
    unfolding current_session
    current-Answers rest = gets-Answers _ rest

    ruleset rules = (
      if-Answers, close-Answers, commit-Answers, lift-Answers, gets-Answers, pure-Answers,
      reconcile-Answers, current-Answers,
    )

    record_prepared-Answers :
        (snapshot : TranscriptSnapshot) (boundary_id trace_id : String)
        (prepared : PreparedTrajectory)
        → Answers
            (record_prepared service around clock delivery snapshot boundary_id trace_id prepared)
    unfolding record_prepared
    record_prepared-Answers snapshot boundary_id trace_id prepared = search rules depth 14

    capture_snapshot-Answers :
        (snapshot : TranscriptSnapshot)
        → Answers (capture_snapshot service around clock delivery snapshot)
    unfolding capture_snapshot
    capture_snapshot-Answers snapshot =
        search (rules, record_prepared-Answers, tame.normalizes) depth 14

    read_transcript-Quiet :
        (path : String) (content : List ℕ)
        → Quiet (read_complete_jsonl around.loads around.sha256 path content)
    read_transcript-Quiet path content =
        read_complete_jsonl-Quiet around.loads tame.parses around.sha256 path content

    capture_transcript-Answers : Answers (capture_transcript service around clock delivery)
    unfolding capture_transcript
    capture_transcript-Answers =
        search (rules, capture_snapshot-Answers, tame.reads, read_transcript-Quiet) depth 14

    deliver-Handled : (store : Store) → Handled (deliver service around clock delivery store).0
    unfolding deliver current_session
    deliver-Handled store =
        elim (Bool-cases (is_terminal (begin_receipt delivery.request store).1.status)) [
          | inl t ↦ rw t tt
          | inr t ↦
              rw t (capture_transcript-Answers.answers (begin_receipt delivery.request store).0)
        ]

  check-Quiet :
      (config : CaptureConfig) (n : HookNotification) → Quiet (check service around config n)
  unfolding check text_at is_caught
  check-Quiet config n =
      require-Quiet (around.resolve config.project_root == service.project_root) (value_error _) _
        refl
        (require-Quiet (service.adapter.host == n.host) (value_error _) _ refl (
          require-Quiet (is_within service.project_root (around.resolve n.cwd)) (value_error _) _
            refl
            (bind-Quiet (text_at (lookup service.adapter.event_boundaries n.event_name) _) _
              (text_at-Quiet _ _)
              (λ kind. bind-Quiet _ _ (tame.validates n) (λ path.
                bind-Quiet _ _ (tame.stats path)
                  (λ stat. bind-Quiet _ _ tame.opens (λ _. ok-Quiet _)))))))

  settle-ok :
      (receipt_id : Option String) (outcome : Result CaptureResult × Store)
      → Handled outcome.0
      → (answer : CaptureResult) × ((settle service around clock receipt_id outcome).0 ≡ ok answer)
  unfolding settle
  settle-ok receipt_id (ok answer, store) q = (answer, refl)
  settle-ok none (err raised, store) q = rw q (_, refl)
  settle-ok (some receipt_id) (err raised, store) q = rw q (_, refl)

  respond-ok :
      (admission : Admission) (store : Store)
      → (answer : CaptureResult) × ((respond service around clock admission store).0 ≡ ok answer)
  unfolding respond
  respond-ok (answered result) store = (result, refl)
  respond-ok (admitted delivery) store =
      settle-ok (some delivery.request.receipt_id) _ (deliver-Handled delivery store)

  handle_enabled-ok :
      (config : CaptureConfig) (n : HookNotification) (store : Store)
      → (answer : CaptureResult) × ((handle_enabled service around clock config n store).0
          ≡ ok answer)
  unfolding handle_enabled admit
  handle_enabled-ok config n store = elim (Result-cases (check service around config n)) [
    | inl (checked, e) ↦
        rw (handle_enabled, e) (respond-ok (admission service around clock n store checked) store)
    | inr (raised, e) ↦
        rw (handle_enabled, e)
          (settle-ok none (err raised, store) (rw e at ((check-Quiet config n).quiet)))
  ]

  handle_loaded-ok :
      (loaded : Option CaptureConfig) (n : HookNotification) (store : Store)
      → (answer : CaptureResult) × ((handle_loaded service around clock (ok loaded) n store).0
          ≡ ok answer)
  unfolding handle_loaded
  handle_loaded-ok loaded n store = elim (Option-cases (enabled_config n.host loaded)) [
    | inl o ↦ rw (handle_loaded, o) (_, refl)
    | inr (config, o) ↦ rw (handle_loaded, o) (handle_enabled-ok config n store)
  ]

  -- If the configuration loads, and the adapter, the files, the JSON parser of the transcript and the
  -- database raise at most OSError, ValueError, TypeError or an error of SQLite, a notification is
  -- always answered: no exception leaves `handle`, neither one of those nor one that the service or
  -- the repository raise.
  pub handle-ok :
      (n : HookNotification) (store : Store)
      → (answer : CaptureResult) × ((handle service around clock n store).0 ≡ ok answer)
  unfolding handle
  handle-ok n store =
      let (answer, e) = handle_loaded-ok tame.loaded n store in
      (answer, ap (λ l. (handle_loaded service around clock l n store).0) tame.loads ∙ e)
