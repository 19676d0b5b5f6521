-- ===== src/Capture/Service/Rules.antt =====
-- Rules for the methods of capture/service.py: which of them take only steps of a history of the
-- store, and leave the receipt open where they raise.
use agent_debug_x.Base.{ap, String, ◌≡◌, Bool, true, false, some, if◌then◌else◌, inl, inr}
use agent_debug_x.Python.{Result, ok, err, Error, Result-cases}
use agent_debug_x.Capture.Tables.{CaptureReceipt, Store, is_terminal, load_receipt}
use agent_debug_x.Capture.Repository.History.{Step, History, now, later}
use agent_debug_x.Capture.Action.{Action, pure, lift, gets, guarded, transact, resume, ◌>>=◌, ◌>>◌}

-- The receipt is in the store and is not terminal.
pub record IsOpen (receipt_id : String) (store : Store) : Type 0 where
  pub receipt : CaptureReceipt
  pub found : load_receipt receipt_id store ≡ some receipt
  pub not_terminal : is_terminal receipt.status ≡ false

abbrev pub IsRaised : {A : Type 0} → Result A → Type 0
IsRaised (ok value) = ⊥
IsRaised (err raised) = Unit

-- From a store where the receipt is open, the call makes a history, and where it raises the receipt is
-- still open.
pub record Traced {A : Type 0} (receipt_id : String) (call : Action A) : Type 0 where
  pub traced :
      (store : Store)
      → IsOpen receipt_id store
      → History store (call store).1 × (IsRaised (call store).0 → IsOpen receipt_id (call store).1)

-- It makes a history, and raises nothing.
pub record Smooth {A : Type 0} (call : Action A) : Type 0 where
  pub smooth : (store : Store) → History store (call store).1 × (IsRaised (call store).0 → ⊥)

-- A transaction that returns took a step, if the receipt was open.
abbrev pub Steps : String → (Store → Result Store) → Type 0
Steps receipt_id step =
    (store next : Store) → IsOpen receipt_id store → step store ≡ ok next → Step store next

module _ {A : Type 0} where
  pub pure-Smooth : (value : A) → Smooth (pure value)
  pure-Smooth value = record { smooth = λ store. (now store, λ raised. raised) }

  pub gets-Smooth :
      {B : Type 0} (read : Store → A) (rest : A → Action B)
      → ((value : A) → Smooth (rest value))
      → Smooth (gets read >>= rest)
  gets-Smooth read rest h = record { smooth = λ store. (h (read store)).smooth store }

  -- A step whose transaction does not fail
  pub guarded-Smooth :
      (outcome : Result (Unit {0})) (step : Store → Store) (rest : Action A)
      → outcome ≡ ok tt
      → ((store : Store) → Step store (step store))
      → Smooth rest
      → Smooth (guarded outcome step >> rest)
  guarded-Smooth (err raised) step rest o steps h = cc
  guarded-Smooth (ok done) step rest o steps h = record {
    smooth = λ store.
        let (history, quiet) = h.smooth (step store) in
        (later store (step store) (rest (step store)).1 (steps store) history, quiet);
  }

  pub transact-ok :
      (step : Store → Result Store) (rest : Action A) (store next : Store)
      → step store ≡ ok next
      → (transact step >> rest) store ≡ rest next
  transact-ok step rest store next e = ap (resume rest store) e

  pub transact-err :
      (step : Store → Result Store) (rest : Action A) (store : Store) (raised : Error)
      → step store ≡ err raised
      → (transact step >> rest) store ≡ (err raised, store)
  transact-err step rest store raised e = ap (resume rest store) e

  pub transact-Traced :
      (receipt_id : String) (step : Store → Result Store) (rest : Action A)
      → Steps receipt_id step
      → Smooth rest
      → Traced receipt_id (transact step >> rest)
  transact-Traced receipt_id step rest steps h = record {
    traced = λ store open_. elim (Result-cases (step store)) [
      | inl (next, e) ↦
          (let (history, quiet) = h.smooth next in
            rw (transact-ok step rest store next e) (
              (
                later store next (rest next).1 (steps store next open_ e) history,
                λ raised. absurd (quiet raised),
              )))
      | inr (raised, e) ↦ rw (transact-err step rest store raised e) ((now store, λ _. open_))
    ];
  }

  pub pure-Traced : (receipt_id : String) (value : A) → Traced receipt_id (pure value)
  pure-Traced receipt_id value = record {
    traced = λ store open_. (now store, λ raised. absurd raised);
  }

  pub gets-Traced :
      {B : Type 0} (receipt_id : String) (read : Store → A) (rest : A → Action B)
      → ((value : A) → Traced receipt_id (rest value))
      → Traced receipt_id (gets read >>= rest)
  gets-Traced receipt_id read rest h = record { traced = λ store. (h (read store)).traced store }

  pub lift-Traced :
      {B : Type 0} (receipt_id : String) (call : Result A) (rest : A → Action B)
      → ((value : A) → Traced receipt_id (rest value))
      → Traced receipt_id (lift call >>= rest)
  lift-Traced receipt_id (ok value) rest h = record { traced = λ store. (h value).traced store }
  lift-Traced receipt_id (err raised) rest h = record {
    traced = λ store open_. (now store, λ _. open_);
  }

  pub if-Traced :
      (receipt_id : String) (test : Bool) (yes_ no_ : Action A)
      → Traced receipt_id yes_
      → Traced receipt_id no_
      → Traced receipt_id (if test then yes_ else no_)
  if-Traced receipt_id true yes_ no_ y n = y
  if-Traced receipt_id false yes_ no_ y n = n
