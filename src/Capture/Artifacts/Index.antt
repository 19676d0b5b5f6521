-- ===== src/Capture/Artifacts/Index.antt =====
-- The index of a session in files against the table of its traces.
use agent_debug_x.Base.{
  ℕ, String, ◌≡◌, refl, ap, sym, ◌∙◌, inl, inr, true, false, some, List, [], ◌∷◌, ◌++◌, keep,
  keep-append, All, string_eq, Bool-cases, arith, IsSorted, sort_by-eq,
}
use text.Mathlib.TextEquality.{eq_iff}
use agent_debug_x.Python.{ok}
use agent_debug_x.Schema.{AgentTrajectory}
use agent_debug_x.Capture.Tables.{
  CaptureReceipt, CaptureTrace, Store, TranscriptSnapshot, ResultMetadata, load_receipt,
  is_terminal, captured_trace,
}
use agent_debug_x.Capture.Repository.{commit_capture}
use agent_debug_x.Capture.Repository.Receipts.{write_capture-eq-ok}
use agent_debug_x.Capture.Repository.Traces.{
  before, IsOrdered, IsWellKept, commit_capture-IsWellKept,
}
use agent_debug_x.Capture.Artifacts.{session_traces, is_trace_of, sequence_le}

module _ (host session_id : String) where
  before-sequence_le :
      (trace other : CaptureTrace)
      → is_trace_of host session_id trace ≡ true
      → is_trace_of host session_id other ≡ true
      → before trace other ≡ true
      → sequence_le trace other ≡ true
  unfolding is_trace_of sequence_le
  before-sequence_le trace other t o b = ground (
    arith,
    eq_iff trace.host host,
    eq_iff trace.session_id session_id,
    eq_iff other.host host,
    eq_iff other.session_id session_id,
    eq_iff trace.host other.host,
    eq_iff trace.session_id other.session_id,
  )

  keep-after :
      (trace : CaptureTrace)
      → is_trace_of host session_id trace ≡ true
      → (traces : List CaptureTrace) → All (λ other. before trace other ≡ true) traces
      → All (λ other. sequence_le trace other ≡ true) (keep (is_trace_of host session_id) traces)
  unfolding keep
  keep-after trace t [] h = tt
  keep-after trace t (other ∷ traces) h = elim (Bool-cases (is_trace_of host session_id other)) [
    | inl e ↦ rw e (before-sequence_le trace other t e h.0, keep-after trace t traces h.1)
    | inr e ↦ rw e (keep-after trace t traces h.1)
  ]

  keep-IsSorted :
      (traces : List CaptureTrace)
      → IsOrdered traces
      → IsSorted sequence_le (keep (is_trace_of host session_id) traces)
  unfolding keep
  keep-IsSorted [] h = tt
  keep-IsSorted (trace ∷ traces) h = elim (Bool-cases (is_trace_of host session_id trace)) [
    | inl e ↦ rw e (keep-after trace e traces h.0, keep-IsSorted traces h.1)
    | inr e ↦ rw e (keep-IsSorted traces h.1)
  ]

  -- The numbers are in the order of the captures, so that sorting by them changes nothing.
  session_traces-keep :
      (traces : List CaptureTrace)
      → IsOrdered traces
      → session_traces host session_id traces ≡ keep (is_trace_of host session_id) traces
  unfolding session_traces
  session_traces-keep traces h =
      sort_by-eq sequence_le (keep (is_trace_of host session_id) traces) (keep-IsSorted traces h)

keep-captured :
    (time : ℕ) (receipt : CaptureReceipt) (trajectory : AgentTrajectory) (metadata : ResultMetadata)
    → (traces : List CaptureTrace)
    → let trace = captured_trace time receipt trajectory metadata traces in
      keep (is_trace_of receipt.host receipt.session_id) (trace ∷ []) ≡ trace ∷ []
unfolding keep captured_trace is_trace_of
keep-captured time receipt trajectory metadata traces =
    rw
      (
        (string_eq.beq_iff receipt.host receipt.host).1 refl,
        (string_eq.beq_iff receipt.session_id receipt.session_id).1 refl,
      )
      refl

commit_capture-traces :
    (time : ℕ) (receipt_id : String) (trajectory : AgentTrajectory) (snapshot : TranscriptSnapshot)
    → (metadata : ResultMetadata) (store next : Store) (receipt : CaptureReceipt)
    → load_receipt receipt_id store ≡ some receipt
    → is_terminal receipt.status ≡ false
    → commit_capture time receipt_id trajectory snapshot metadata store ≡ ok next
    → next.traces
      ≡ store.traces ++ captured_trace time receipt trajectory metadata store.traces ∷ []
unfolding commit_capture
commit_capture-traces time receipt_id trajectory snapshot metadata store next receipt l o h =
    (write_capture-eq-ok time receipt trajectory snapshot metadata store next
      (rw (commit_capture, l, o) at h)).2

-- A commit for a receipt that is open, if it returns, adds its trace at the end of the index of the
-- session: the traces that were there keep their places, whatever other sessions have captured in
-- between.
pub commit_capture-session_traces :
    (time : ℕ) (receipt_id : String) (trajectory : AgentTrajectory) (snapshot : TranscriptSnapshot)
    → (metadata : ResultMetadata) (store next : Store) (receipt : CaptureReceipt)
    → IsWellKept store.traces
    → load_receipt receipt_id store ≡ some receipt
    → is_terminal receipt.status ≡ false
    → commit_capture time receipt_id trajectory snapshot metadata store ≡ ok next
    → session_traces receipt.host receipt.session_id next.traces
      ≡ session_traces receipt.host receipt.session_id store.traces
        ++ captured_trace time receipt trajectory metadata store.traces ∷ []
commit_capture-session_traces time receipt_id trajectory snapshot metadata store next receipt kept l
      o h =
    let host = receipt.host in
    let session = receipt.session_id in
    let p = is_trace_of host session in
    let trace = captured_trace time receipt trajectory metadata store.traces in
    let after =
      commit_capture-IsWellKept time receipt_id trajectory snapshot metadata store next kept h in
    session_traces-keep host session next.traces after.ordered
    ∙ (ap (keep p) (
          commit_capture-traces time receipt_id trajectory snapshot metadata store next receipt l o
            h)
        ∙ (keep-append p store.traces (trace ∷ [])
            ∙ (ap (λ new. keep p store.traces ++ new)
                  (keep-captured time receipt trajectory metadata store.traces)
                ∙ ap (λ old. old ++ trace ∷ [])
                    (sym (session_traces-keep host session store.traces kept.ordered)))))
