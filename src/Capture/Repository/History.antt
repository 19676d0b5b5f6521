-- ===== src/Capture/Repository/History.antt =====
-- Histories of a store of capture/repository.py: which steps it takes, and what stays true along them.
use agent_debug_x.Base.{
  ℕ, String, ◌≡◌, refl, sym, ◌∙◌, inl, inr, Bool, true, false, ◌&&◌, some, List, [], ◌∷◌, ◌++◌,
  find_first, ◌==◌, string_eq, Bool-cases, Option-cases, arith,
}
use agent_debug_x.Python.{ok}
use agent_debug_x.Schema.{AgentTrajectory}
use agent_debug_x.Capture.Tables.{
  CaptureReceipt, Store, CaptureRequest, TranscriptSnapshot, ResultMetadata, is_terminal,
  has_receipt_id, new_receipt, load_receipt, committed_receipt,
}
use agent_debug_x.Capture.Repository.{
  begin_receipt, commit_capture, mark_reconciled, reconcile_prior_receipts, commit_no_op,
  no_op_receipt, mark_failed, failed_receipt, is_prior, is_open, reconciled_receipt,
}
use agent_debug_x.Capture.Repository.Receipts.{
  find_first-update_other, load_receipt-id, begin_receipt-found, begin_receipt-new,
  write_capture-eq-ok, commit_capture-cases, commit_no_op-eq-ok,
}
use mathlib.Core.Option.{some-injective}

-- The steps that deliveries take. A receipt is closed without a capture, or marked as failed, only
-- while it is open.
pub data Step : Store → Store → Type 0 where
  begun : (request : CaptureRequest) (store : Store) → Step store (begin_receipt request store).0
  captured :
      (now : ℕ) (receipt_id : String) (trajectory : AgentTrajectory) (snapshot : TranscriptSnapshot)
      → (metadata : ResultMetadata) (store next : Store)
      → commit_capture now receipt_id trajectory snapshot metadata store ≡ ok next
      → Step store next
  closed :
      (now : ℕ) (receipt_id : String) (snapshot : TranscriptSnapshot) (metadata : ResultMetadata)
      → (store next : Store) (receipt : CaptureReceipt)
      → load_receipt receipt_id store ≡ some receipt
      → is_terminal receipt.status ≡ false
      → commit_no_op now receipt_id snapshot metadata store ≡ ok next
      → Step store next
  failing :
      (receipt_id error : String) (duration_ms : ℕ) (store : Store) (receipt : CaptureReceipt)
      → load_receipt receipt_id store ≡ some receipt
      → is_terminal receipt.status ≡ false
      → Step store (mark_failed receipt_id error duration_ms store)
  reconciled : (receipt_id : String) (store : Store) → Step store (mark_reconciled receipt_id store)
  superseded :
      (project_id host session_id current : String) (store : Store)
      → Step store (reconcile_prior_receipts project_id host session_id current store)

pub data History : Store → Store → Type 0 where
  now : (store : Store) → History store store
  later : (store next last : Store) → Step store next → History next last → History store last

find_first-append_found {ℓ} :
    {A : Type ℓ} (p : A → Bool) (rows more : List A) (a : A)
    → find_first p rows ≡ some a
    → find_first p (rows ++ more) ≡ some a
unfolding find_first
find_first-append_found p [] more a h = cc
find_first-append_found p (row ∷ rows) more a h = elim (Bool-cases (p row)) [
  | inl e ↦ rw e (rw e at h)
  | inr e ↦ rw e (find_first-append_found p rows more a (rw e at h))
]

-- The receipt with that id is terminal, and is this one.
pub record IsClosed (receipt_id : String) (receipt : CaptureReceipt) (store : Store) : Type 0 where
  pub found : load_receipt receipt_id store ≡ some receipt
  pub terminal : is_terminal receipt.status ≡ true

begin_receipt-IsClosed :
    (request : CaptureRequest) (receipt_id : String) (receipt : CaptureReceipt) (store : Store)
    → load_receipt receipt_id store ≡ some receipt
    → load_receipt receipt_id (begin_receipt request store).0 ≡ some receipt
unfolding load_receipt
begin_receipt-IsClosed request receipt_id receipt store h =
    elim (Option-cases (load_receipt request.receipt_id store)) [
      | inr (old, e) ↦ rw (begin_receipt-found request store old e) h
      | inl e ↦ rw (begin_receipt-new request store e) (
          find_first-append_found (has_receipt_id receipt_id) store.receipts
            (new_receipt request ∷ []) receipt h)
    ]

other_receipt :
    (store : Store) (receipt_id other_id : String) (receipt other : CaptureReceipt)
    → IsClosed receipt_id receipt store
    → load_receipt other_id store ≡ some other
    → is_terminal other.status ≡ false
    → has_receipt_id other_id receipt ≡ false
unfolding has_receipt_id
other_receipt store receipt_id other_id receipt other c h open_ =
    elim (Bool-cases (receipt.receipt_id == other_id)) [
      | inr e ↦ e
      | inl e ↦
          (let same : receipt_id ≡ other_id =
              sym (load_receipt-id receipt_id store receipt c.found)
              ∙ (string_eq.beq_iff receipt.receipt_id other_id).0 e in
            let found : load_receipt other_id store ≡ some receipt = rw (← same) c.found in
            let equal : receipt ≡ other = some-injective receipt other (sym found ∙ h) in
            let bad : is_terminal other.status ≡ true = rw (← equal) c.terminal in cc)
    ]

Step-IsClosed :
    (receipt_id : String) (receipt : CaptureReceipt) (store next : Store)
    → Step store next
    → IsClosed receipt_id receipt store
    → IsClosed receipt_id receipt next
unfolding load_receipt has_receipt_id committed_receipt no_op_receipt mark_failed failed_receipt
    mark_reconciled reconcile_prior_receipts reconciled_receipt is_open is_prior
Step-IsClosed receipt_id receipt _ _ (begun request store) c = record {
  found = begin_receipt-IsClosed request receipt_id receipt store c.found;
  terminal = c.terminal;
}
Step-IsClosed receipt_id receipt _ _
      (captured time other_id trajectory snapshot metadata store next h) c =
    let (other, l, cases) =
      commit_capture-cases time other_id trajectory snapshot metadata store next h in
    elim cases [
      | inl (t, same) ↦ rw same c
      | inr (t, w) ↦
          (let (_, receipts, _, _) =
              write_capture-eq-ok time other trajectory snapshot metadata store next w in
            let apart = other_receipt store receipt_id other_id receipt other c l t in
            let apart' : has_receipt_id other.receipt_id receipt ≡ false =
              rw (load_receipt-id other_id store other l) apart in
            record {
              found = rw receipts (
                  find_first-update_other (has_receipt_id receipt_id)
                    (has_receipt_id other.receipt_id) (committed_receipt snapshot metadata)
                    (λ a e. refl) store.receipts receipt c.found apart');
              terminal = c.terminal;
            })
    ]
Step-IsClosed receipt_id receipt _ _ (closed time other_id snapshot metadata store next other l t h)
      c =
    record {
      found = rw (commit_no_op-eq-ok time other_id snapshot metadata store next h) (
          find_first-update_other (has_receipt_id receipt_id) (has_receipt_id other_id)
            (no_op_receipt snapshot metadata) (λ a e. refl) store.receipts receipt c.found
            (other_receipt store receipt_id other_id receipt other c l t));
      terminal = c.terminal;
    }
Step-IsClosed receipt_id receipt _ _ (failing other_id error duration_ms store other l t) c =
    record {
      found =
          find_first-update_other (has_receipt_id receipt_id) (has_receipt_id other_id)
            (failed_receipt error duration_ms) (λ a e. refl) store.receipts receipt c.found
            (other_receipt store receipt_id other_id receipt other c l t);
      terminal = c.terminal;
    }
Step-IsClosed receipt_id receipt _ _ (reconciled other_id store) c = record {
  found =
      find_first-update_other (has_receipt_id receipt_id)
        (λ r. has_receipt_id other_id r && is_open r)
        (reconciled_receipt "reconciled by a later delivery") (λ a e. refl) store.receipts receipt
        c.found (rw c.terminal (ground arith));
  terminal = c.terminal;
}
Step-IsClosed receipt_id receipt _ _ (superseded project_id host session_id current store) c =
    record {
      found =
          find_first-update_other (has_receipt_id receipt_id)
            (is_prior project_id host session_id current)
            (reconciled_receipt "reconciled by a later cumulative snapshot") (λ a e. refl)
            store.receipts receipt c.found (rw c.terminal (ground arith));
      terminal = c.terminal;
    }

-- Along every history of deliveries, commits and reconciliations, and of closings and failures of
-- open receipts, a receipt that is terminal stays as it is, column by column.
pub History-IsClosed :
    (receipt_id : String) (receipt : CaptureReceipt) (store last : Store)
    → History store last
    → IsClosed receipt_id receipt store
    → IsClosed receipt_id receipt last
History-IsClosed receipt_id receipt _ _ (now store) c = c
History-IsClosed receipt_id receipt _ _ (later store next last step rest) c =
    History-IsClosed receipt_id receipt next last rest
      (Step-IsClosed receipt_id receipt store next step c)
