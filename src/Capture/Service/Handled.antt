-- ===== src/Capture/Service/Handled.antt =====
-- What `CaptureService.handle` of capture/service.py answers.
use agent_debug_x.Base.{
  String, ◌≡◌, refl, ap, ◌∙◌, ◌⊎◌, arith, Bool, Option, none, some, any, inl, inr, Option-cases,
  Bool-cases, string_eq, nat_eq,
}
use agent_debug_x.Python.{Result, ok, err, Error, Result-cases}
use mathlib.Core.Path.{subst}
use agent_debug_x.Capture.Tables.{
  CaptureSession, Store, HookNotification, CaptureRequest, load_session,
}
use agent_debug_x.Capture.Repository.{list_replayable}
use agent_debug_x.Capture.Contracts.{
  CaptureResult, CaptureConfig, FileStat, Surroundings, Clock, CaptureService, captured, no_op,
}
use agent_debug_x.Capture.Admission.{
  Delivery, Checked, answered, admitted, admit, check, admission, request_of, early_answer,
  no_op_result, same_session,
}
use agent_debug_x.Capture.Service.{
  deliver, failed_result, settle, respond, handle_loaded, handle_enabled, handle,
}
use agent_debug_x.Capture.Outcome.{bare_result, enabled_config, is_caught}
use agent_debug_x.Capture.Service.Stores.{IsStored}
use agent_debug_x.Capture.Service.Captured.{deliver-Stored}

early_answer-no_op :
    (clock : Clock) (notification : HookNotification) (trace_id : String) (stat : FileStat)
    → (session : Option CaptureSession) (replayable : Bool) (result : CaptureResult)
    → early_answer clock notification trace_id stat session replayable ≡ some result
    → result.status ≡ no_op
unfolding early_answer no_op_result
early_answer-no_op clock notification trace_id stat none replayable result h = ground arith
early_answer-no_op clock notification trace_id stat (some session) replayable result h =
    ground arith

module _ (service : CaptureService) (around : Surroundings) where
  -- A notification whose configuration is enabled and whose checks pass
  pub record IsChecked (notification : HookNotification) (checked : Checked) : Type 0 where
    pub loaded : Option CaptureConfig
    pub config : CaptureConfig
    pub loads : around.config ≡ ok loaded
    pub enabled : enabled_config notification.host loaded ≡ some config
    pub checks : check service around config notification ≡ ok checked

module _ (service : CaptureService) (around : Surroundings) (clock : Clock) where
  -- Past the checks a notification is answered with `no_op`, or asks for the receipt of its request.
  pub admission-cases :
      (notification : HookNotification) (store : Store) (checked : Checked)
      → ((result : CaptureResult) × (admission service around clock notification store checked
            ≡ answered result)
          × (result.status ≡ no_op))
        ⊎ ((delivery : Delivery) × (admission service around clock notification store checked
              ≡ admitted delivery)
            × (delivery.request ≡ request_of service around notification checked))
  unfolding admission
  admission-cases notification store checked =
      let request = request_of service around notification checked in
      let session = load_session notification.host notification.session_id store in
      let replayable =
        any (same_session notification) (list_replayable request.project_id none store) in
      elim (Option-cases
        (early_answer clock notification request.trace_id checked.stat session replayable)) [
          | inl e ↦ inr (
            record {
              request = request;
              transcript_path = checked.transcript_path;
              session = session;
            },
            rw (admission, e) refl,
            refl,
          )
          | inr (result, e) ↦ inl (
            result,
            rw (admission, e) refl,
            early_answer-no_op clock notification request.trace_id checked.stat session replayable
                result e,
          )
        ]

  pub handle-checked :
      (notification : HookNotification) (checked : Checked) (store : Store)
      → IsChecked service around notification checked
      → handle service around clock notification store
        ≡ respond service around clock
            (admission service around clock notification store checked)
            store
  unfolding handle handle_loaded handle_enabled admit
  handle-checked notification checked store c =
      ap (λ l. handle_loaded service around clock l notification store) c.loads
      ∙ rw (handle_loaded, c.enabled) (rw (handle_enabled, c.checks) refl)

  -- The handler of exceptions answers `captured` only where nothing was raised.
  settle-captured :
      (receipt_id : Option String) (outcome : Result CaptureResult × Store)
      → (result : CaptureResult) (next : Store)
      → settle service around clock receipt_id outcome ≡ (ok result, next)
      → result.status ≡ captured
      → outcome ≡ (ok result, next)
  unfolding settle failed_result bare_result
  settle-captured receipt_id (ok other, store) result next h s = h
  settle-captured none (err raised, store) result next h s = elim (Bool-cases (is_caught raised)) [
    | inl c ↦ (let h' = rw c at h in cc)
    | inr c ↦ (let h' = rw c at h in cc)
  ]
  settle-captured (some receipt_id) (err raised, store) result next h s =
      elim (Bool-cases (is_caught raised)) [
        | inl c ↦ (let h' = rw c at h in cc)
        | inr c ↦ (let h' = rw c at h in cc)
      ]

  -- A notification that is answered `captured` came through the checks, and was delivered.
  pub record IsDelivered (notification : HookNotification) (result : CaptureResult)
      (store next : Store) : Type 0 where
    pub checked : Checked
    pub passed : IsChecked service around notification checked
    pub delivery : Delivery
    pub request : delivery.request ≡ request_of service around notification checked
    pub delivers : deliver service around clock delivery store ≡ (ok result, next)

  respond-IsDelivered :
      (notification : HookNotification) (checked : Checked) (result : CaptureResult)
      (store next : Store)
      → IsChecked service around notification checked
      → respond service around clock
          (admission service around clock notification store checked)
          store
        ≡ (ok result, next)
      → result.status ≡ captured
      → IsDelivered notification result store next
  unfolding respond
  respond-IsDelivered notification checked result store next c h s =
      elim (admission-cases notification store checked) [
        | inl (early, e, status) ↦
            (let bad : ◌≡◌ {A = Result CaptureResult × Store} (ok early, store) (ok result, next) =
                rw (respond, e) at h in
              absurd (cc))
        | inr (delivery, e, request) ↦ record {
          checked = checked;
          passed = c;
          delivery = delivery;
          request = request;
          delivers =
              settle-captured (some delivery.request.receipt_id) _ result next
                (rw (respond, e) at h) s;
        }
      ]

  handle_enabled-IsDelivered :
      (loaded : Option CaptureConfig) (config : CaptureConfig) (notification : HookNotification)
      → (result : CaptureResult) (store next : Store) → around.config ≡ ok loaded
      → enabled_config notification.host loaded ≡ some config
      → handle_enabled service around clock config notification store ≡ (ok result, next)
      → result.status ≡ captured
      → IsDelivered notification result store next
  unfolding handle_enabled admit
  handle_enabled-IsDelivered loaded config notification result store next l o h s =
      elim (Result-cases (check service around config notification)) [
        | inl (checked, e) ↦
            respond-IsDelivered notification checked result store next
              (record { loaded = loaded; config = config; loads = l; enabled = o; checks = e })
              (rw (handle_enabled, e) at h) s
        | inr (raised, e) ↦
            (let bad : outcome_ raised store ≡ (ok result, next) =
                settle-captured none (err raised, store) result next (rw (handle_enabled, e) at h)
                  s in
              absurd (cc))
      ]
    where
      outcome_ : Error → Store → Result CaptureResult × Store
      outcome_ raised store = (err raised, store)

  handle_loaded-IsDelivered :
      (loaded : Result (Option CaptureConfig)) (notification : HookNotification)
      → (result : CaptureResult) (store next : Store) → around.config ≡ loaded
      → handle_loaded service around clock loaded notification store ≡ (ok result, next)
      → result.status ≡ captured
      → IsDelivered notification result store next
  unfolding handle_loaded bare_result
  handle_loaded-IsDelivered (err raised) notification result store next l h s = absurd (cc)
  handle_loaded-IsDelivered (ok loaded) notification result store next l h s =
      elim (Option-cases (enabled_config notification.host loaded)) [
        | inl o ↦ (let h' = rw (handle_loaded, o) at h in absurd (cc))
        | inr (config, o) ↦
            handle_enabled-IsDelivered loaded config notification result store next l o
              (rw (handle_loaded, o) at h) s
      ]

  handle-IsDelivered :
      (notification : HookNotification) (result : CaptureResult) (store next : Store)
      → handle service around clock notification store ≡ (ok result, next)
      → result.status ≡ captured
      → IsDelivered notification result store next
  unfolding handle
  handle-IsDelivered notification result store next h s =
      handle_loaded-IsDelivered around.config notification result store next refl h s

  -- The answer `captured` is kept: some receipt of the store, which `begin_receipt` asked for, is
  -- committed with the boundary that the answer names, and a trajectory is stored under its id which
  -- has as many events as the answer counts and ends with the event that it names.
  pub handle-IsStored :
      (notification : HookNotification) (result : CaptureResult) (store next : Store)
      → handle service around clock notification store ≡ (ok result, next)
      → result.status ≡ captured
      → (checked : Checked) × IsChecked service around notification checked
        × IsStored (request_of service around notification checked).receipt_id result next
  handle-IsStored notification result store next h s =
      let d = handle-IsDelivered notification result store next h s in
      let stored = deliver-Stored service around clock d.delivery store in
      (
        d.checked,
        d.passed,
        subst (λ (r : CaptureRequest). IsStored r.receipt_id result next) d.request
            ((rw d.delivers at stored) s),
      )
