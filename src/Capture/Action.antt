-- ===== src/Capture/Action.antt =====
-- A method that works on the store of captures and may raise: what was written before it raises stays
-- written. No part of the program is modelled here.
use agent_debug_x.Python.{Result, ok, err}
use agent_debug_x.Capture.Tables.{Store}

abbrev pub Action : Type 0 → Type 0
Action A = Store → Result A × Store

module _ {A : Type 0} where
  abbrev pub pure : A → Action A
  pure value store = (ok value, store)

  -- A call that leaves the store alone
  abbrev pub lift : Result A → Action A
  lift call store = (call, store)

  abbrev pub gets : (Store → A) → Action A
  gets read store = (ok (read store), store)

  abbrev pub act : (Store → Store × A) → Action A
  act step store = let (after, value) = step store in (ok value, after)

abbrev pub modify : (Store → Store) → Action (Unit {0})
modify step store = (ok tt, step store)

-- A step that the outcome of its transaction precedes: nothing is written where it raises.
abbrev pub guarded : Result (Unit {0}) → (Store → Store) → Action (Unit {0})
guarded (ok done) step store = (ok tt, step store)
guarded (err raised) step store = (err raised, store)

-- A transaction, which is rolled back where it raises
abbrev pub transact : (Store → Result Store) → Action (Unit {0})
transact step store = elim (step store) [
  | ok after ↦ (ok tt, after)
  | err raised ↦ (err raised, store)
]

infixl 5 ◌>>=◌ ◌>>◌
abbrev pub ◌>>=◌ : {A B : Type 0} (call : Action A) (rest : A → Action B) → Action B
◌>>=◌ call rest store =
    let (result, after) = call store in
    elim result [ ok value ↦ rest value after | err raised ↦ (err raised, after) ]

abbrev pub ◌>>◌ : {B : Type 0} (call : Action (Unit {0})) (rest : Action B) → Action B
call >> rest = call >>= λ nothing. rest

-- What follows a transaction, on its outcome
module _ {A : Type 0} where
  abbrev pub resume : Action A → Store → Result Store → Result A × Store
  resume rest store result =
      let (done, after) = elim result as (λ _. Result (Unit {0}) × Store) [
        | ok after ↦ (ok tt, after)
        | err raised ↦ (err raised, store)
      ] in
      elim done [ ok value ↦ rest after | err raised ↦ (err raised, after) ]
