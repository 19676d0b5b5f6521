-- ===== src/Capture/Service/Quiet.antt =====
-- Rules for the methods of capture/service.py: what they raise is handled. So is what the repository and
-- the reading of a snapshot raise.
use agent_debug_x.Base.{
  ℕ, ◌+◌, String, ◌≡◌, refl, Bool, true, false, Option, none, some, List, [], ◌∷◌, inl, inr,
  if◌then◌else◌, Option-cases, Bool-cases, string_eq,
}
use agent_debug_x.Python.{
  Result, ok, err, Error, Value, Fields, value_error, integrity_error, Result-cases, require,
  as_dict, show_nat, is_decode_error,
}
use agent_debug_x.Python
use agent_debug_x.Schema.{AgentTrajectory}
use agent_debug_x.Capture.Tables.{
  CaptureReceipt, Store, TranscriptSnapshot, ResultMetadata, is_terminal, load_receipt,
  boundary_taken,
}
use agent_debug_x.Capture.Repository.{commit_no_op, commit_capture, write_capture, project_of}
use agent_debug_x.Capture.Snapshot.{
  read_record, read_records, is_blank, read_complete_jsonl, lines_from,
}
use agent_debug_x.Capture.Admission.{text_at}
use agent_debug_x.Capture.Action.{Action, pure, lift, gets, guarded, transact, resume, ◌>>=◌, ◌>>◌}
use agent_debug_x.Capture.Outcome.{is_caught}

abbrev pub Handled : {A : Type 0} → Result A → Type 0
Handled (ok value) = Unit
Handled (err raised) = is_caught raised ≡ true

-- What is raised, if anything, is handled.
pub record Quiet {A : Type 0} (call : Result A) : Type 0 where
  pub quiet : Handled call

pub ok-Quiet : {A : Type 0} (value : A) → Quiet (ok value)
ok-Quiet value = record { quiet = tt }

err-Quiet : {A : Type 0} (raised : Error) → is_caught raised ≡ true → Quiet {A = A} (err raised)
err-Quiet raised h = record { quiet = h }

-- The same of a chain
pub bind-Quiet :
    {A B : Type 0} (call : Result A) (rest : A → Result B)
    → Quiet call
    → ((value : A) → Quiet (rest value))
    → Quiet (Python.◌>>=◌ call rest)
bind-Quiet (ok value) rest h k = k value
bind-Quiet (err raised) rest h k = record { quiet = h.quiet }

pub require-Quiet :
    {B : Type 0} (test : Bool) (error : Error) (rest : Result B)
    → is_caught error ≡ true
    → Quiet rest
    → Quiet (Python.◌>>◌ (require test error) rest)
require-Quiet true error rest h k = k
require-Quiet false error rest h k = record { quiet = h }

pub record Answers {A : Type 0} (call : Action A) : Type 0 where
  pub answers : (store : Store) → Handled (call store).0

module _ {A B : Type 0} where
  pub gets-Answers :
      (read : Store → A) (rest : A → Action B)
      → ((value : A) → Answers (rest value))
      → Answers (gets read >>= rest)
  gets-Answers read rest h = record { answers = λ store. (h (read store)).answers store }

  pub lift-Answers :
      (call : Result A) (rest : A → Action B)
      → Quiet call
      → ((value : A) → Answers (rest value))
      → Answers (lift call >>= rest)
  lift-Answers (ok value) rest q h = h value
  lift-Answers (err raised) rest q h = record { answers = λ store. q.quiet }

module _ {A : Type 0} where
  pub pure-Answers : (value : A) → Answers (pure value)
  pure-Answers value = record { answers = λ store. tt }

  pub guarded-Answers :
      (outcome : Result (Unit {0})) (step : Store → Store) (rest : Action A)
      → Quiet outcome
      → Answers rest
      → Answers (guarded outcome step >> rest)
  guarded-Answers (ok done) step rest q h = record { answers = λ store. h.answers (step store) }
  guarded-Answers (err raised) step rest q h = record { answers = λ store. q.quiet }

  pub transact-Answers :
      (step : Store → Result Store) (rest : Action A)
      → ((store : Store) → Quiet (step store))
      → Answers rest
      → Answers (transact step >> rest)
  transact-Answers step rest q h = record { answers = λ store. go store (step store) (q store) }
    where
      go :
          (store : Store) (outcome : Result Store)
          → Quiet outcome
          → Handled (resume rest store outcome).0
      go store (ok next) q = h.answers next
      go store (err raised) q = q.quiet

  pub if-Answers :
      (test : Bool) (yes_ no_ : Action A)
      → Answers yes_
      → Answers no_
      → Answers (if test then yes_ else no_)
  if-Answers true yes_ no_ y n = y
  if-Answers false yes_ no_ y n = n

pub commit_no_op-Quiet :
    (time : ℕ) (receipt_id : String) (snapshot : TranscriptSnapshot) (metadata : ResultMetadata)
    → (store : Store) → Quiet (commit_no_op time receipt_id snapshot metadata store)
unfolding commit_no_op is_caught
commit_no_op-Quiet time receipt_id snapshot metadata store =
    elim (Option-cases (load_receipt receipt_id store)) [
      | inl e ↦ rw (commit_no_op, e) (err-Quiet _ refl)
      | inr (receipt, e) ↦ elim (Bool-cases (boundary_taken receipt metadata.boundary_id store)) [
        | inl t ↦ rw (commit_no_op, e, t) (err-Quiet _ refl)
        | inr t ↦ rw (commit_no_op, e, t) (ok-Quiet _)
      ]
    ]

project_of-Quiet :
    (given : Option String) (project_id : String)
    → given ≡ some project_id
    → Quiet (project_of given)
unfolding project_of
project_of-Quiet none project_id e = cc
project_of-Quiet (some other) project_id e = ok-Quiet other

write_capture-Quiet :
    (time : ℕ) (receipt : CaptureReceipt) (trajectory : AgentTrajectory)
    → (snapshot : TranscriptSnapshot) (metadata : ResultMetadata) (project_id : String)
    → (store : Store) → metadata.project_id ≡ some project_id
    → Quiet (write_capture time receipt trajectory snapshot metadata store)
unfolding write_capture is_caught project_of
write_capture-Quiet time receipt trajectory snapshot metadata project_id store e =
    require-Quiet _ _ _ refl (
      bind-Quiet _ _ (project_of-Quiet metadata.project_id project_id e)
        (λ project. require-Quiet _ _ _ refl (ok-Quiet _)))

pub commit_capture-Quiet :
    (time : ℕ) (receipt_id : String) (trajectory : AgentTrajectory)
    → (snapshot : TranscriptSnapshot) (metadata : ResultMetadata) (project_id : String)
    → (store : Store) → metadata.project_id ≡ some project_id
    → Quiet (commit_capture time receipt_id trajectory snapshot metadata store)
unfolding commit_capture is_caught
commit_capture-Quiet time receipt_id trajectory snapshot metadata project_id store p =
    elim (Option-cases (load_receipt receipt_id store)) [
      | inl e ↦ rw (commit_capture, e) (err-Quiet _ refl)
      | inr (receipt, e) ↦ elim (Bool-cases (is_terminal receipt.status)) [
        | inl t ↦ rw (commit_capture, e, t) (ok-Quiet _)
        | inr t ↦
            rw (commit_capture, e, t)
              (write_capture-Quiet time receipt trajectory snapshot metadata project_id store p)
      ]
    ]

module _ (loads : List ℕ → Result Value) (parses : (line : List ℕ) → Quiet (loads line)) where
  read_record-Quiet : (number : ℕ) (line : List ℕ) → Quiet (read_record loads number line)
  unfolding read_record is_caught
  read_record-Quiet number line = elim (Result-cases (loads line)) [
    | inr (raised, e) ↦ elim (Bool-cases (is_decode_error raised)) [
      | inl d ↦ rw (read_record, e, d) (err-Quiet _ refl)
      | inr d ↦ rw (read_record, e, d) (err-Quiet raised (rw e at ((parses line).quiet)))
    ]
    | inl (value, e) ↦ elim (Option-cases (as_dict value)) [
      | inl o ↦ rw (read_record, e, o) (err-Quiet _ refl)
      | inr (payload, o) ↦ rw (read_record, e, o) (ok-Quiet _)
    ]
  ]

  read_records-Quiet :
      (number : ℕ) (lines : List (List ℕ)) (last : List ℕ)
      → Quiet (read_records loads number lines last)
  unfolding read_records
  read_records-Quiet number [] last = ok-Quiet _
  read_records-Quiet number (line ∷ lines) last = elim (Bool-cases (is_blank line)) [
    | inl b ↦ rw b (read_records-Quiet (number + 1) lines last)
    | inr b ↦ rw b (
        bind-Quiet _ _ (read_record-Quiet number line) (λ payload.
          bind-Quiet _ _ (read_records-Quiet (number + 1) lines line) (λ rest. ok-Quiet _)))
  ]

  pub read_complete_jsonl-Quiet :
      (sha256 : List ℕ → String) (path : String) (content : List ℕ)
      → Quiet (read_complete_jsonl loads sha256 path content)
  unfolding read_complete_jsonl
  read_complete_jsonl-Quiet sha256 path content =
      bind-Quiet _ _ (read_records-Quiet 1 (lines_from [] false _) []) (λ read. ok-Quiet _)

pub text_at-Quiet : (text : Option String) (message : String) → Quiet (text_at text message)
unfolding text_at is_caught
text_at-Quiet none message = err-Quiet _ refl
text_at-Quiet (some text) message = ok-Quiet text
