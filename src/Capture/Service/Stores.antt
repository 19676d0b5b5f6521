-- ===== src/Capture/Service/Stores.antt =====
-- Rules for the methods of capture/service.py: which of them never answer `captured`, and which have
-- stored the capture where they do.
use agent_debug_x.Base.{
  ℕ, String, ◌≡◌, refl, Bool, true, false, Option, some, List, length, inl, inr, if◌then◌else◌,
  lookup, string_eq, arith,
}
use agent_debug_x.Python.{Result, ok, err, Result-cases}
use agent_debug_x.Schema.{AgentTrajectory}
use agent_debug_x.Capture.Tables.{
  CaptureReceipt, CaptureSession, ReceiptStatus, Store, is_terminal, has_receipt_id, load_receipt,
}
use agent_debug_x.Capture.Repository.{is_prior, reconciled_receipt, is_open}
use agent_debug_x.Capture.Contracts.{CaptureResult, captured, pending}
use agent_debug_x.Capture.Admission.{no_op_result}
use agent_debug_x.Capture.Action.{Action, pure, lift, gets, guarded, transact, resume, ◌>>=◌, ◌>>◌}
use agent_debug_x.Capture.Outcome.{bare_result, last_event_id}
use agent_debug_x.Capture.Service.Rules.{IsOpen, transact-ok, transact-err}

-- The receipt of the delivery is committed with the boundary of the result, and a trajectory is stored
-- under its id that has the events which the result counts and ends with.
pub record IsStored (receipt_id : String) (result : CaptureResult) (store : Store) : Type 0 where
  pub receipt : CaptureReceipt
  pub found : load_receipt receipt_id store ≡ some receipt
  pub committed : receipt.status ≡ ReceiptStatus.committed
  pub boundary : receipt.boundary_id ≡ result.boundary_id
  pub trajectory : AgentTrajectory
  pub kept : lookup store.trajectories trajectory.trace_id ≡ some trajectory
  pub counted : result.event_count ≡ length trajectory.events
  pub last : result.last_event_id ≡ last_event_id trajectory

abbrev pub Uncaptured : Result CaptureResult → Type 0
Uncaptured (err raised) = Unit
Uncaptured (ok result) = result.status ≡ captured → ⊥

abbrev pub Stored : String → Result CaptureResult → Store → Type 0
Stored receipt_id (err raised) store = Unit
Stored receipt_id (ok result) store = result.status ≡ captured → IsStored receipt_id result store

-- It never answers `captured`.
pub record Silent (call : Action CaptureResult) : Type 0 where
  pub silent : (store : Store) → Uncaptured (call store).0

-- From a store where the receipt is open, an answer `captured` means that the capture is stored.
pub record Stores (receipt_id : String) (call : Action CaptureResult) : Type 0 where
  pub stores :
      (store : Store) → IsOpen receipt_id store → Stored receipt_id (call store).0 (call store).1

Uncaptured-Stored :
    (receipt_id : String) (result : Result CaptureResult) (store : Store)
    → Uncaptured result
    → Stored receipt_id result store
Uncaptured-Stored receipt_id (err raised) store h = tt
Uncaptured-Stored receipt_id (ok result) store h = λ c. absurd (h c)

pub Silent-Stores :
    (receipt_id : String) (call : Action CaptureResult) → Silent call → Stores receipt_id call
Silent-Stores receipt_id call h = record {
  stores = λ store _. Uncaptured-Stored receipt_id _ _ (h.silent store);
}

pub transact-Silent :
    (step : Store → Result Store) (rest : Action CaptureResult)
    → Silent rest
    → Silent (transact step >> rest)
transact-Silent step rest h = record { silent = λ store. go store (step store) }
  where
    go : (store : Store) (result : Result Store) → Uncaptured (resume rest store result).0
    go store (ok next) = h.silent next
    go store (err raised) = tt

pub transact-Stores :
    (receipt_id : String) (step : Store → Result Store) (rest : Action CaptureResult)
    → ((store next : Store)
        → IsOpen receipt_id store
        → step store ≡ ok next
        → Stored receipt_id (rest next).0 (rest next).1)
    → Stores receipt_id (transact step >> rest)
transact-Stores receipt_id step rest h = record {
  stores = λ store open_. elim (Result-cases (step store)) [
    | inl (next, e) ↦ rw (transact-ok step rest store next e) (h store next open_ e)
    | inr (raised, e) ↦ rw (transact-err step rest store raised e) tt
  ];
}

pub guarded-Silent :
    (outcome : Result (Unit {0})) (step : Store → Store) (rest : Action CaptureResult)
    → Silent rest
    → Silent (guarded outcome step >> rest)
guarded-Silent (ok done) step rest h = record { silent = λ store. h.silent (step store) }
guarded-Silent (err raised) step rest h = record { silent = λ store. tt }

-- An answer behind a step: it is given only where the step was taken.
pub guarded-Stored :
    (receipt_id : String) (outcome : Result (Unit {0})) (step : Store → Store)
    (result : CaptureResult) (store : Store)
    → IsStored receipt_id result (step store)
    → Stored receipt_id
        ((guarded outcome step >> pure result) store).0
        ((guarded outcome step >> pure result) store).1
guarded-Stored receipt_id (ok done) step result store h = λ _. h
guarded-Stored receipt_id (err raised) step result store h = tt

pub no_op-Silent :
    (trace_id : String) (current : Option CaptureSession) (boundary_id : Option String)
    → (warnings : List String) (elapsed : ℕ)
    → Silent (pure (no_op_result trace_id current boundary_id warnings elapsed))
unfolding no_op_result
no_op-Silent trace_id current boundary_id warnings elapsed = record { silent = λ store. λ e. cc }

pub pending-Silent :
    (trace_id : Option String) (elapsed : ℕ)
    → Silent
        (pure (record bare_result { status = pending; trace_id = trace_id; elapsed_ms = elapsed }))
unfolding bare_result
pending-Silent trace_id elapsed = record { silent = λ store. λ e. cc }

module _ {A : Type 0} where
  pub gets-Silent :
      (read : Store → A) (rest : A → Action CaptureResult)
      → ((value : A) → Silent (rest value))
      → Silent (gets read >>= rest)
  gets-Silent read rest h = record { silent = λ store. (h (read store)).silent store }

  pub gets-Stores :
      (receipt_id : String) (read : Store → A) (rest : A → Action CaptureResult)
      → ((value : A) → Stores receipt_id (rest value))
      → Stores receipt_id (gets read >>= rest)
  gets-Stores receipt_id read rest h = record { stores = λ store. (h (read store)).stores store }

  pub lift-Stores :
      (receipt_id : String) (call : Result A) (rest : A → Action CaptureResult)
      → ((value : A) → Stores receipt_id (rest value))
      → Stores receipt_id (lift call >>= rest)
  lift-Stores receipt_id (ok value) rest h = record { stores = (h value).stores }
  lift-Stores receipt_id (err raised) rest h = record { stores = λ store _. tt }

pub if-Stores :
    (receipt_id : String) (test : Bool) (yes_ no_ : Action CaptureResult)
    → Stores receipt_id yes_
    → Stores receipt_id no_
    → Stores receipt_id (if test then yes_ else no_)
if-Stores receipt_id true yes_ no_ y n = y
if-Stores receipt_id false yes_ no_ y n = n

pub reconciled_id :
    (receipt_id warning : String) (receipt : CaptureReceipt)
    → has_receipt_id receipt_id (reconciled_receipt warning receipt)
      ≡ has_receipt_id receipt_id receipt
unfolding has_receipt_id reconciled_receipt
reconciled_id receipt_id warning receipt = refl

pub terminal_prior :
    (project_id host session_id current : String) (receipt : CaptureReceipt)
    → is_terminal receipt.status ≡ true
    → is_prior project_id host session_id current receipt ≡ false
unfolding is_prior is_open
terminal_prior project_id host session_id current receipt t = rw t (ground arith)
