-- ===== src/Capture/Repository/Summary.antt =====
-- The summary of a project in capture/repository.py against the receipts that are left to replay.
use agent_debug_x.Base.{
  ◌+◌, String, ◌≡◌, refl, Bool, not, ◌&&◌, Option, List, [], ◌∷◌, keep, length, length-keep,
  count_if, if◌then◌else◌, string_eq, arith, length-sort_by,
}
use agent_debug_x.Capture.Tables.{
  CaptureReceipt, Store, ReceiptStatus, pending, failed, committed, no_op, is_terminal,
}
use agent_debug_x.Capture.Repository.{
  status_of, count_status, is_asked, has_status, list_replayable, is_replayable, is_open,
  observed_le,
}

open_status :
    (asked : Bool) (s : ReceiptStatus)
    → (if not (is_terminal s) && asked then 1 else 0)
      ≡ (if asked && has_status pending s then 1 else 0)
        + (if asked && has_status failed s then 1 else 0)
unfolding is_terminal has_status
open_status asked pending = ground arith
open_status asked committed = ground arith
open_status asked no_op = ground arith
open_status asked failed = ground arith

count_open :
    (project_id : String) (asked : Option String) (receipts : List CaptureReceipt)
    → count_if (is_replayable project_id asked) receipts
      ≡ count_status project_id asked pending receipts
        + count_status project_id asked failed receipts
unfolding count_if is_replayable is_open count_status is_asked
count_open project_id asked [] = refl
count_open project_id asked (receipt ∷ receipts) = omega (
  arith,
  count_open project_id asked receipts,
  open_status (is_asked project_id asked receipt.project_id receipt.host) receipt.status,
)

-- The summary of a project counts as pending and failed together exactly the receipts that are listed
-- for replay, whichever host is asked for.
pub status_of-list_replayable :
    (project_id : String) (asked : Option String) (store : Store)
    → (status_of project_id asked store).pending_receipts
        + (status_of project_id asked store).failed_receipts
      ≡ length (list_replayable project_id asked store)
unfolding status_of list_replayable
status_of-list_replayable project_id asked store =
    let rows = keep (is_replayable project_id asked) store.receipts in
    omega (
      arith,
      count_open project_id asked store.receipts,
      length-keep (is_replayable project_id asked) store.receipts,
      length-sort_by observed_le rows,
    )
