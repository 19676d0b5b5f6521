-- ===== src/Capture/Repository/Receipts.antt =====
-- What the operations of capture/repository.py do to receipts.
use agent_debug_x.Base.{
  ℕ, String, ◌≡◌, refl, ap, sym, inl, inr, Bool, true, false, not, none, some, List, [], ◌∷◌, ◌++◌,
  find_first-found, ◌+++◌, ◌⊎◌, find_first, any, insert, string_eq, Bool-cases, Option-cases, arith,
}
use agent_debug_x.Python.{
  ok, err, value_error, integrity_error, >>=-eq-ok, require->>-eq-ok, ok-injective,
}
use agent_debug_x.Schema.{AgentTrajectory}
use agent_debug_x.Capture.Tables.{
  CaptureReceipt, Store, CaptureRequest, TranscriptSnapshot, ResultMetadata, is_terminal,
  has_receipt_id, new_receipt, load_receipt, update_where, boundary_taken, has_trace_id,
  committed_receipt, captured_trace,
}
use agent_debug_x.Capture.Repository.{
  commit_no_op, no_op_receipt, begin_receipt, write_capture, commit_capture, project_of,
}
use mathlib.Core.Option.{some-injective}

-- Where every row that is changed still satisfies the condition, the first such row is the old one,
-- changed.
find_first-update_where {ℓ} :
    {A : Type ℓ} (p : A → Bool) (f : A → A)
    → ((a : A) → p a ≡ true → p (f a) ≡ true)
    → (rows : List A) (a : A) → find_first p rows ≡ some a
    → find_first p (update_where p f rows) ≡ some (f a)
unfolding find_first update_where
find_first-update_where p f stable [] a h = cc
find_first-update_where p f stable (row ∷ rows) a h = elim (Bool-cases (p row)) [
  | inl e ↦
      (let same : row ≡ a = some-injective row a (rw e at h) in
        rw e (rw (stable row e) (ap some (ap f same))))
  | inr e ↦ rw (e, e) (find_first-update_where p f stable rows a (rw e at h))
]

-- A row that is found is left alone by an update whose condition it does not satisfy.
pub find_first-update_other {ℓ} :
    {A : Type ℓ} (p q : A → Bool) (f : A → A)
    → ((a : A) → q a ≡ true → p (f a) ≡ p a)
    → (rows : List A) (a : A) → find_first p rows ≡ some a
    → q a ≡ false
    → find_first p (update_where q f rows) ≡ some a
unfolding find_first update_where
find_first-update_other p q f stable [] a h n = cc
find_first-update_other p q f stable (row ∷ rows) a h n = elim (Bool-cases (p row)) [
  | inl e ↦
      (let same : row ≡ a = some-injective row a (rw e at h) in
        let n' : q row ≡ false = rw same n in rw n' (rw e (ap some same)))
  | inr e ↦ elim (Bool-cases (q row)) [
    | inl t ↦ rw (t, stable row t, e) (find_first-update_other p q f stable rows a (rw e at h) n)
    | inr t ↦ rw (t, e) (find_first-update_other p q f stable rows a (rw e at h) n)
  ]
]

find_first-append_new {ℓ} :
    {A : Type ℓ} (p : A → Bool) (rows : List A) (row : A)
    → find_first p rows ≡ none
    → p row ≡ true
    → find_first p (rows ++ row ∷ []) ≡ some row
unfolding find_first
find_first-append_new p [] row h e = rw e refl
find_first-append_new p (other ∷ rows) row h e = elim (Bool-cases (p other)) [
  | inl t ↦ (let bad : some other ≡ none = rw t at h in cc)
  | inr t ↦ rw t (find_first-append_new p rows row (rw t at h) e)
]

load_receipt-new :
    (request : CaptureRequest) (store : Store)
    → load_receipt request.receipt_id store ≡ none
    → load_receipt request.receipt_id
        (record store { receipts = store.receipts ++ new_receipt request ∷ [] })
      ≡ some (new_receipt request)
unfolding load_receipt has_receipt_id new_receipt
load_receipt-new request store h =
    find_first-append_new (has_receipt_id request.receipt_id) store.receipts (new_receipt request) h
      ((string_eq.beq_iff request.receipt_id request.receipt_id).1 refl)

pub begin_receipt-found :
    (request : CaptureRequest) (store : Store) (receipt : CaptureReceipt)
    → load_receipt request.receipt_id store ≡ some receipt
    → begin_receipt request store ≡ (store, receipt)
unfolding begin_receipt
begin_receipt-found request store receipt h = rw (begin_receipt, h) refl

pub begin_receipt-new :
    (request : CaptureRequest) (store : Store)
    → load_receipt request.receipt_id store ≡ none
    → begin_receipt request store ≡ (
      record store { receipts = store.receipts ++ new_receipt request ∷ [] },
      new_receipt request,
    )
unfolding begin_receipt
begin_receipt-new request store h = rw (begin_receipt, h) refl

-- After `begin_receipt` the receipt of the request is in the store, as it is returned, and a second
-- delivery of the request changes nothing and returns the same receipt.
pub begin_receipt-begin_receipt :
    (request : CaptureRequest) (store : Store)
    → (load_receipt request.receipt_id (begin_receipt request store).0
        ≡ some (begin_receipt request store).1)
      × (begin_receipt request (begin_receipt request store).0 ≡ begin_receipt request store)
begin_receipt-begin_receipt request store =
    elim (Option-cases (load_receipt request.receipt_id store)) [
      | inr (receipt, e) ↦
          rw (begin_receipt-found request store receipt e)
            ((e, begin_receipt-found request store receipt e))
      | inl e ↦
          (let found = load_receipt-new request store e in
            rw (begin_receipt-new request store e) ((found, begin_receipt-found request _ _ found)))
    ]

-- What `write_capture` returns, and the checks behind it.
pub write_capture-eq-ok :
    (now : ℕ) (receipt : CaptureReceipt) (trajectory : AgentTrajectory)
    → (snapshot : TranscriptSnapshot) (metadata : ResultMetadata) (store next : Store)
    → write_capture now receipt trajectory snapshot metadata store ≡ ok next
    → (any (has_trace_id trajectory.trace_id) store.traces ≡ false)
      × (next.receipts
          ≡ update_where
              (has_receipt_id receipt.receipt_id)
              (committed_receipt snapshot metadata)
              store.receipts)
      × (next.traces
          ≡ store.traces ++ captured_trace now receipt trajectory metadata store.traces ∷ [])
      × (next.trajectories ≡ insert store.trajectories trajectory.trace_id trajectory)
unfolding write_capture
write_capture-eq-ok now receipt trajectory snapshot metadata store next h =
    let (fresh, h₁) =
      require->>-eq-ok (not (any (has_trace_id trajectory.trace_id) store.traces)) _ _ h in
    let (project_id, _, h₂) = >>=-eq-ok (project_of metadata.project_id) _ h₁ in
    let (_, h₃) =
      require->>-eq-ok (not (boundary_taken receipt metadata.boundary_id store)) _ _ h₂ in
    let same = ok-injective h₃ in
    (
      ground arith,
      sym (ap (λ (s : Store). s.receipts) same),
      sym (ap (λ (s : Store). s.traces) same),
      sym (ap (λ (s : Store). s.trajectories) same),
    )

pub load_receipt-id :
    (receipt_id : String) (store : Store) (receipt : CaptureReceipt)
    → load_receipt receipt_id store ≡ some receipt
    → receipt.receipt_id ≡ receipt_id
unfolding load_receipt has_receipt_id
load_receipt-id receipt_id store receipt h =
    (string_eq.beq_iff receipt.receipt_id receipt_id).0
      (find_first-found (has_receipt_id receipt_id) store.receipts receipt h).0

pub committed_receipt-load_receipt :
    (receipt_id : String) (store next : Store) (receipt : CaptureReceipt)
    → (snapshot : TranscriptSnapshot) (metadata : ResultMetadata)
    → load_receipt receipt_id store ≡ some receipt
    → next.receipts
      ≡ update_where
          (has_receipt_id receipt_id)
          (committed_receipt snapshot metadata)
          store.receipts
    → load_receipt receipt_id next ≡ some (committed_receipt snapshot metadata receipt)
unfolding load_receipt has_receipt_id committed_receipt
committed_receipt-load_receipt receipt_id store next receipt snapshot metadata l h = rw h (
    find_first-update_where (has_receipt_id receipt_id) (committed_receipt snapshot metadata)
      (λ r e. e) store.receipts receipt l)

commit_capture-terminal :
    (now : ℕ) (receipt_id : String) (trajectory : AgentTrajectory)
    → (snapshot : TranscriptSnapshot) (metadata : ResultMetadata) (store : Store)
    → (receipt : CaptureReceipt) → load_receipt receipt_id store ≡ some receipt
    → is_terminal receipt.status ≡ true
    → commit_capture now receipt_id trajectory snapshot metadata store ≡ ok store
unfolding commit_capture
commit_capture-terminal now receipt_id trajectory snapshot metadata store receipt l t =
    rw (commit_capture, l, t) refl

-- What a commit that returns did: the receipt was terminal, and the store is as it was; or the
-- capture was written.
pub commit_capture-cases :
    (now : ℕ) (receipt_id : String) (trajectory : AgentTrajectory)
    → (snapshot : TranscriptSnapshot) (metadata : ResultMetadata) (store next : Store)
    → commit_capture now receipt_id trajectory snapshot metadata store ≡ ok next
    → (receipt : CaptureReceipt) × (load_receipt receipt_id store ≡ some receipt)
      × (((is_terminal receipt.status ≡ true) × (next ≡ store))
          ⊎ ((is_terminal receipt.status ≡ false)
              × (write_capture now receipt trajectory snapshot metadata store ≡ ok next)))
unfolding commit_capture
commit_capture-cases now receipt_id trajectory snapshot metadata store next h =
    elim (Option-cases (load_receipt receipt_id store)) [
      | inl e ↦
          (let bad : err (value_error ("unknown capture receipt: " +++ receipt_id)) ≡ ok next =
              rw (commit_capture, e) at h in
            cc)
      | inr (receipt, e) ↦ elim (Bool-cases (is_terminal receipt.status)) [
        | inl t ↦ (receipt, e, inl (t, sym (ok-injective (rw (commit_capture, e, t) at h))))
        | inr t ↦ (receipt, e, inr (t, rw (commit_capture, e, t) at h))
      ]
    ]

-- A commit that returns leaves its receipt terminal, and then a second commit of the same receipt,
-- with whatever trajectory, returns the store unchanged.
pub commit_capture-commit_capture :
    (now later : ℕ) (receipt_id : String) (trajectory other : AgentTrajectory)
    → (snapshot fresh : TranscriptSnapshot) (metadata again : ResultMetadata) (store next : Store)
    → commit_capture now receipt_id trajectory snapshot metadata store ≡ ok next
    → commit_capture later receipt_id other fresh again next ≡ ok next
unfolding committed_receipt is_terminal
commit_capture-commit_capture now later receipt_id trajectory other snapshot fresh metadata again
      store next h =
    let (receipt, l, c) =
      commit_capture-cases now receipt_id trajectory snapshot metadata store next h in
    elim c [
      | inl (t, same) ↦
          rw same (commit_capture-terminal later receipt_id other fresh again store receipt l t)
      | inr (t, w) ↦
          (let (_, receipts, _, _) =
              write_capture-eq-ok now receipt trajectory snapshot metadata store next w in
            let l' =
              committed_receipt-load_receipt receipt_id store next receipt snapshot metadata l
                (rw (load_receipt-id receipt_id store receipt l) at receipts) in
            commit_capture-terminal later receipt_id other fresh again next
              (committed_receipt snapshot metadata receipt) l' refl)
    ]

-- What a receipt is closed with, without a capture.
pub commit_no_op-eq-ok :
    (now : ℕ) (receipt_id : String) (snapshot : TranscriptSnapshot) (metadata : ResultMetadata)
    → (store next : Store) → commit_no_op now receipt_id snapshot metadata store ≡ ok next
    → next.receipts
      ≡ update_where (has_receipt_id receipt_id) (no_op_receipt snapshot metadata) store.receipts
unfolding commit_no_op
commit_no_op-eq-ok now receipt_id snapshot metadata store next h =
    elim (Option-cases (load_receipt receipt_id store)) [
      | inl e ↦
          (let bad : err (value_error ("unknown capture receipt: " +++ receipt_id)) ≡ ok next =
              rw (commit_no_op, e) at h in
            cc)
      | inr (receipt, e) ↦ elim (Bool-cases (boundary_taken receipt metadata.boundary_id store)) [
        | inl t ↦
            (let bad : err (integrity_error "capture_boundary_once") ≡ ok next =
                rw (commit_no_op, e, t) at h in
              cc)
        | inr t ↦ ap (λ (s : Store). s.receipts) (sym (ok-injective (rw (commit_no_op, e, t) at h)))
      ]
    ]
