-- ===== src/Capture/Service/Repeated.antt =====
-- A notification that capture/service.py is given again.
use agent_debug_x.Base.{◌≡◌, refl, ◌∙◌, true, some, [], inl, inr, string_eq, nat_eq}
use agent_debug_x.Python.{ok}
use agent_debug_x.Capture.Tables.{
  CaptureReceipt, Store, HookNotification, is_terminal, load_receipt, load_session,
}
use agent_debug_x.Capture.Repository.Receipts.{begin_receipt-found}
use agent_debug_x.Capture.Contracts.{
  CaptureResult, Surroundings, Clock, CaptureService, captured, no_op,
}
use agent_debug_x.Capture.Admission.{Delivery, Checked, request_of, no_op_result}
use agent_debug_x.Capture.Service.{current_session, deliver, settle, respond, handle}
use agent_debug_x.Capture.Service.Handled.{
  IsChecked, admission-cases, handle-checked, handle-IsStored,
}

module _ (service : CaptureService) (around : Surroundings) (clock : Clock) where
  deliver-terminal :
      (delivery : Delivery) (receipt : CaptureReceipt) (store : Store)
      → load_receipt delivery.request.receipt_id store ≡ some receipt
      → is_terminal receipt.status ≡ true
      → (answer : CaptureResult) × (deliver service around clock delivery store
          ≡ (ok answer, store))
        × (answer.status ≡ no_op)
  unfolding deliver current_session no_op_result
  deliver-terminal delivery receipt store found terminal = (
    no_op_result delivery.request.trace_id
        (load_session delivery.request.notification.host delivery.request.notification.session_id
          store)
        receipt.boundary_id [] clock.at_end,
    rw (begin_receipt-found delivery.request store receipt found) (rw terminal refl),
    refl,
  )

  -- A notification whose checks pass and whose receipt is terminal changes nothing.
  terminal-handle :
      (notification : HookNotification) (checked : Checked) (receipt : CaptureReceipt)
      (store : Store)
      → IsChecked service around notification checked
      → load_receipt (request_of service around notification checked).receipt_id store
        ≡ some receipt
      → is_terminal receipt.status ≡ true
      → (answer : CaptureResult) × (handle service around clock notification store
          ≡ (ok answer, store))
        × (answer.status ≡ no_op)
  unfolding respond settle
  terminal-handle notification checked receipt store c found terminal =
      elim (admission-cases service around clock notification store checked) [
        | inl (early, e, status) ↦ (
          early,
          handle-checked service around clock notification checked store c ∙ rw e refl,
          status,
        )
        | inr (delivery, e, request) ↦
            (let (answer, d, status) =
                deliver-terminal delivery receipt store (rw request found) terminal in
              (
                answer,
                handle-checked service around clock notification checked store c
                    ∙ rw (e, respond) (rw d refl),
                status,
              ))
      ]

-- A notification that is answered `captured` and comes again, at whatever time and with the files,
-- the configuration and the adapter as they were, is answered `no_op` and leaves the store as it is.
pub handle-handle :
    (service : CaptureService) (around : Surroundings) (clock again : Clock)
    → (notification : HookNotification) (result : CaptureResult) (store next : Store)
    → handle service around clock notification store ≡ (ok result, next)
    → result.status ≡ captured
    → (answer : CaptureResult) × (handle service around again notification next ≡ (ok answer, next))
      × (answer.status ≡ no_op)
unfolding is_terminal
handle-handle service around clock again notification result store next h s =
    let (checked, c, stored) =
      handle-IsStored service around clock notification result store next h s in
    terminal-handle service around again notification checked stored.receipt next c stored.found
      (rw stored.committed refl)
