-- ===== src/Capture/Repository/Traces.antt =====
-- The numbering of captured traces in capture/repository.py, and what is left to replay.
use agent_debug_x.Base.{
  keep, ℕ, ◌≤◌, String, ◌≡◌, refl, ap, ◌∙◌, inl, inr, Bool, true, false, not, ◌&&◌, ◌||◌, Option,
  List, [], ◌∷◌, ◌++◌, map, contains, IsDistinct, IsDistinct-snoc, any, All, All-append, All-imp,
  ltb, ◌==◌, string_eq, Bool-cases, arith, sort_by-All,
}
use text.Mathlib.TextEquality.{eq_iff}
use agent_debug_x.Python.{ok}
use agent_debug_x.Schema.{AgentTrajectory}
use agent_debug_x.Capture.Tables.{
  CaptureReceipt, CaptureTrace, Store, TranscriptSnapshot, ResultMetadata, is_terminal,
  update_where, next_sequence, has_trace_id, has_receipt_id, captured_trace,
}
use agent_debug_x.Capture.Repository.{
  commit_capture, reconcile_prior_receipts, is_prior, is_open, reconciled_receipt, list_replayable,
  is_replayable, observed_le,
}
use agent_debug_x.Capture.Repository.Receipts.{write_capture-eq-ok, commit_capture-cases}

abbrev same_session : CaptureTrace → CaptureTrace → Bool
same_session trace other = trace.host == other.host && trace.session_id == other.session_id

-- Of two traces of one session the one behind has the greater number.
abbrev pub before : CaptureTrace → CaptureTrace → Bool
before trace other = not (same_session trace other) || ltb trace.sequence other.sequence

abbrev pub IsOrdered : List CaptureTrace → Type 0
IsOrdered [] = Unit
IsOrdered (trace ∷ traces) = All (λ other. before trace other ≡ true) traces × IsOrdered traces

abbrev pub trace_ids : List CaptureTrace → List String
trace_ids traces = map (λ trace. trace.trace_id) traces

-- No trace is captured twice, and the traces of a session are numbered in their order.
pub record IsWellKept (traces : List CaptureTrace) : Type 0 where
  pub distinct : IsDistinct (trace_ids traces)
  pub ordered : IsOrdered traces

next_sequence-le :
    (host session_id : String) (trace : CaptureTrace) (traces : List CaptureTrace)
    → next_sequence host session_id traces ≤ next_sequence host session_id (trace ∷ traces)
unfolding next_sequence
next_sequence-le host session_id trace traces =
    let n = next_sequence host session_id traces in
    elim (Bool-cases (trace.host == host && trace.session_id == session_id)) [
      | inr e ↦ rw e (omega arith)
      | inl e ↦ elim (Bool-cases (ltb trace.sequence n)) [
        | inl f ↦ rw (e, f) (omega arith)
        | inr f ↦ rw (e, f) (ground arith)
      ]
    ]

next_sequence-head :
    (host session_id : String) (trace : CaptureTrace) (traces : List CaptureTrace)
    → (not (trace.host == host && trace.session_id == session_id)
        || ltb trace.sequence (next_sequence host session_id (trace ∷ traces)))
      ≡ true
unfolding next_sequence
next_sequence-head host session_id trace traces =
    let n = next_sequence host session_id traces in
    elim (Bool-cases (trace.host == host && trace.session_id == session_id)) [
      | inr e ↦ rw e refl
      | inl e ↦ elim (Bool-cases (ltb trace.sequence n)) [
        | inl f ↦ rw (e, f, f) refl
        | inr f ↦ rw (e, f) (ground arith)
      ]
    ]

below :
    (own session : String) (sequence : ℕ) (host session_id : String) (m n : ℕ)
    → m ≤ n
    → (not (own == host && session == session_id) || ltb sequence m) ≡ true
    → (not (own == host && session == session_id) || ltb sequence n) ≡ true
below own session sequence host session_id m n le h =
    elim (Bool-cases (own == host && session == session_id)) [
      | inr e ↦ rw e refl
      | inl e ↦ (let lt : ltb sequence m ≡ true = rw e at h in rw e (ground arith))
    ]

next_sequence-gt :
    (host session_id : String) (traces : List CaptureTrace)
    → All
        (λ trace.
          (not (trace.host == host && trace.session_id == session_id)
            || ltb trace.sequence (next_sequence host session_id traces))
          ≡ true)
        traces
unfolding next_sequence
next_sequence-gt host session_id [] = tt
next_sequence-gt host session_id (trace ∷ traces) = (
  next_sequence-head host session_id trace traces,
  All-imp
      (λ other h.
        below other.host other.session_id other.sequence host session_id _ _
          (next_sequence-le host session_id trace traces) h)
      traces (next_sequence-gt host session_id traces),
)

IsOrdered-snoc :
    (traces : List CaptureTrace) (trace : CaptureTrace)
    → IsOrdered traces
    → All (λ other. before other trace ≡ true) traces
    → IsOrdered (traces ++ trace ∷ [])
IsOrdered-snoc [] trace o h = (tt, tt)
IsOrdered-snoc (other ∷ traces) trace o h = (
  All-append (λ t. before other t ≡ true) traces (trace ∷ []) o.0 (h.0, tt),
  IsOrdered-snoc traces trace o.1 h.1,
)

trace_ids-append :
    (traces : List CaptureTrace) (trace : CaptureTrace)
    → trace_ids (traces ++ trace ∷ []) ≡ trace_ids traces ++ trace.trace_id ∷ []
trace_ids-append [] trace = refl
trace_ids-append (other ∷ traces) trace =
    ap (λ ids. other.trace_id ∷ ids) (trace_ids-append traces trace)

contains-trace_ids :
    (trace_id : String) (traces : List CaptureTrace)
    → contains (trace_ids traces) trace_id ≡ any (has_trace_id trace_id) traces
unfolding contains any has_trace_id
contains-trace_ids trace_id [] = refl
contains-trace_ids trace_id (trace ∷ traces) = rw (contains-trace_ids trace_id traces) refl

-- A commit that returns keeps the traces well kept: a trace that was captured before is refused, and
-- the number that a new one gets is greater than those of its session.
pub commit_capture-IsWellKept :
    (time : ℕ) (receipt_id : String) (trajectory : AgentTrajectory) (snapshot : TranscriptSnapshot)
    → (metadata : ResultMetadata) (store next : Store) → IsWellKept store.traces
    → commit_capture time receipt_id trajectory snapshot metadata store ≡ ok next
    → IsWellKept next.traces
unfolding captured_trace
commit_capture-IsWellKept time receipt_id trajectory snapshot metadata store next kept h =
    let (receipt, l, cases) =
      commit_capture-cases time receipt_id trajectory snapshot metadata store next h in
    elim cases [
      | inl (t, same) ↦ rw same kept
      | inr (t, w) ↦
          (let (fresh, _, traces, _) =
              write_capture-eq-ok time receipt trajectory snapshot metadata store next w in
            let trace = captured_trace time receipt trajectory metadata store.traces in
            rw traces (record {
              distinct = rw (trace_ids-append store.traces trace) (
                  IsDistinct-snoc (trace_ids store.traces) trajectory.trace_id kept.distinct
                    (contains-trace_ids trajectory.trace_id store.traces ∙ fresh));
              ordered =
                  IsOrdered-snoc store.traces trace kept.ordered
                    (next_sequence-gt receipt.host receipt.session_id store.traces);
            }))
    ]

All-update_where {ℓ} :
    {A : Type ℓ} (P : A → Type 0) (p : A → Bool) (f : A → A)
    → ((a : A) → p a ≡ true → P (f a))
    → ((a : A) → p a ≡ false → P a)
    → (rows : List A) → All P (update_where p f rows)
unfolding update_where
All-update_where P p f changed unchanged [] = tt
All-update_where P p f changed unchanged (row ∷ rows) = elim (Bool-cases (p row)) [
  | inl e ↦ rw e ((changed row e, All-update_where P p f changed unchanged rows))
  | inr e ↦ rw e ((unchanged row e, All-update_where P p f changed unchanged rows))
]

-- What holds of a row, and that it is kept, together
All-kept {ℓ} :
    {A : Type ℓ} (P : A → Type 0) (p : A → Bool) (Q : A → Type 0)
    → ((a : A) → p a ≡ true → P a → Q a)
    → (rows : List A) → All P rows
    → All Q (keep p rows)
unfolding keep
All-kept P p Q h [] k = tt
All-kept P p Q h (row ∷ rows) k = elim (Bool-cases (p row)) [
  | inl e ↦ rw e (h row e k.0, All-kept P p Q h rows k.1)
  | inr e ↦ rw e (All-kept P p Q h rows k.1)
]

reconciled_prior :
    (project_id host session_id current : String) (receipt : CaptureReceipt)
    → is_prior project_id host session_id current
        (reconciled_receipt "reconciled by a later cumulative snapshot" receipt)
      ≡ false
unfolding is_prior is_open reconciled_receipt is_terminal
reconciled_prior project_id host session_id current receipt = ground arith

-- Of the receipts of that project, host and session none but the current one is open.
abbrev pub IsOnlyOpen : String → String → String → String → CaptureReceipt → Type 0
IsOnlyOpen project_id host session_id current receipt =
    receipt.project_id ≡ project_id
    → receipt.host ≡ host
    → receipt.session_id ≡ session_id
    → receipt.receipt_id ≡ current

open-IsOnlyOpen :
    (project_id host session_id current : String) (asked : Option String) (receipt : CaptureReceipt)
    → is_replayable project_id asked receipt ≡ true
    → is_prior project_id host session_id current receipt ≡ false
    → IsOnlyOpen project_id host session_id current receipt
unfolding is_replayable is_prior has_receipt_id
open-IsOnlyOpen project_id host session_id current asked receipt o p q r s = ground (
  arith,
  eq_iff receipt.project_id project_id,
  eq_iff receipt.host host,
  eq_iff receipt.session_id session_id,
  eq_iff receipt.receipt_id current,
)

-- After `reconcile_prior_receipts` every receipt of that project, host and session that is listed for
-- replay is the current one, whichever host the list is asked for.
pub list_replayable-reconcile_prior_receipts :
    (project_id host session_id current : String) (asked : Option String) (store : Store)
    → All (IsOnlyOpen project_id host session_id current) (
        list_replayable project_id asked
          (reconcile_prior_receipts project_id host session_id current store))
unfolding list_replayable reconcile_prior_receipts
list_replayable-reconcile_prior_receipts project_id host session_id current asked store =
    let closed =
      λ (receipt : CaptureReceipt). is_prior project_id host session_id current receipt ≡ false in
    let update = reconciled_receipt "reconciled by a later cumulative snapshot" in
    let rows = update_where (is_prior project_id host session_id current) update store.receipts in
    sort_by-All observed_le (IsOnlyOpen project_id host session_id current) _ (
      All-kept (λ receipt. is_prior project_id host session_id current receipt ≡ false)
        (is_replayable project_id asked) (IsOnlyOpen project_id host session_id current)
        (λ receipt o p. open-IsOnlyOpen project_id host session_id current asked receipt o p) rows
        (All-update_where closed (is_prior project_id host session_id current) update
          (λ a e. reconciled_prior project_id host session_id current a) (λ a e. e) store.receipts))
