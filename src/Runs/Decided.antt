-- ===== src/Runs/Decided.antt =====
-- `DecideApproval` of internal/agentruns/store.go.
use ia_cstudio.Prelude.{Bool, not, ◌&&◌, if◌then◌else◌}
use ia_cstudio.Runs.Types.{Status, ApprovalStatus}
use ia_cstudio.Runs.Gates.{is_waiting, is_rejected}
use ia_cstudio.Runs.Changes
use ia_cstudio.Runs.Store
use ia_cstudio.Runs.Store.{Store}

-- The status of a run after a decision on one of its gates.
unfoldable pub next_status : ApprovalStatus → Status → Bool → Status
next_status decision status pending =
    if is_rejected decision
    then Status.failed
    else if is_waiting status && not pending
    then Status.running
    else status
