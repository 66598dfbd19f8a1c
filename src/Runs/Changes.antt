-- ===== src/Runs/Changes.antt =====
-- internal/agentruns/store.go: the closures that `Store.update` runs on one run, and the helpers
-- that they call. Each closure returns its errors before its first write, so a closure is a function
-- to the changed run or an error. `redact` stands for `redactText`.
use ia_cstudio.Prelude.{
  ℕ, ◌+◌, String, ◌<>◌, Bool, true, not, ◌&&◌, ◌||◌, List, [], ◌∷◌, ◌++◌, none, some, if◌then◌else◌,
  length, Result, ok, err, ◌==◌, ◌>>=◌,
}
use ia_cstudio.Text.Cut.{truncate}
use ia_cstudio.Text.Numbered.{numbered}
use ia_cstudio.Runs.Types.{
  Status, LogLevel, ApprovalStatus, Time, ProposedPatch, ApprovalGate, Run, Error, terminal_status,
}
use ia_cstudio.Runs.Gates.{
  is_pending, has_pending_approvals, is_waiting, is_running, is_canceled, set_once, kind_text,
  decision_text, is_approved, is_rejected, max_log_message_len, max_patch_diff_len,
}

-- `SetStatus`
unfoldable pub set_status : Status → Run → Time → Result Error Run
set_status status run now =
    if terminal_status run.status
    then err Error.terminated
    else ok (record run {
      status = status;
      started_at = if is_running status then set_once run.started_at now else run.started_at;
      canceled = is_canceled status || run.canceled;
      completed_at =
          if terminal_status status then set_once run.completed_at now else run.completed_at;
    })

-- The loop of `ConsumeApprovalBinding`: the first gate with the id loses its binding.
unfoldable pub spend : String → List ApprovalGate → Result Error (List ApprovalGate)
spend approval_id [] = err Error.approval_not_found
spend approval_id (gate ∷ gates) =
    let rest = spend approval_id gates >>= λ later. ok (gate ∷ later) in
    if gate.id == approval_id
    then (if not (is_approved gate.status) || gate.operation_binding.value == ""
        then err Error.approval_binding_unavailable
        else ok (record gate { operation_binding = record { value = "" } } ∷ gates))
    else rest

-- what follows a decision, once the gate and the log are written
unfoldable pub settle : ApprovalStatus → Run → Time → Run
settle decision run now =
    if is_rejected decision
    then record run {
      status = Status.failed;
      error = "approval gate rejected";
      completed_at = set_once run.completed_at now;
    }
    else if is_waiting run.status && not (has_pending_approvals run.approvals)
    then record run { status = Status.running; started_at = set_once run.started_at now }
    else run

module _ (redact : String → String) where
  unfoldable pub append_log : Run → Time → LogLevel → String → Run
  append_log run at level message = record run {
    logs =
        run.logs
        ++ record {
          id = numbered "log_" (length run.logs + 1);
          at = at;
          level = level;
          message = truncate (redact message) max_log_message_len;
        }
          ∷ [];
  }

  -- `Cancel`
  unfoldable pub cancel : Run → Time → Result Error Run
  unfolding append_log
  cancel run now =
      if terminal_status run.status
      then err Error.terminated
      else ok (
          append_log
            (record run {
              canceled = true;
              status = Status.canceled;
              completed_at = set_once run.completed_at now;
            })
            now LogLevel.audit "Agent run canceled.")

  -- `Fail`
  unfoldable pub fail : String → Run → Time → Result Error Run
  unfolding append_log
  fail message run now =
      let failure_message = truncate (redact message) max_log_message_len in
      if terminal_status run.status
      then err Error.terminated
      else ok (
          append_log
            (record run {
              status = Status.failed;
              error = failure_message;
              completed_at = set_once run.completed_at now;
            })
            now LogLevel.audit
            (if failure_message == ""
              then "Agent run failed."
              else "Agent run failed: " <> failure_message))

  -- `addLog`
  unfoldable pub add_log : LogLevel → String → Bool → Run → Time → Result Error Run
  unfolding append_log
  add_log level message reject_pending run now =
      if terminal_status run.status
      then err Error.terminated
      else if reject_pending && (is_waiting run.status || has_pending_approvals run.approvals)
      then err Error.approval_pending
      else ok (append_log run now level message)

  -- `AddPatch`, once the path is normalised
  unfoldable pub add_patch : String → ProposedPatch → Run → Time → Result Error Run
  add_patch patch_path patch run now =
      if terminal_status run.status
      then err Error.terminated
      else ok (record run {
        patches =
            run.patches
            ++ record {
              id = numbered "patch_" (length run.patches + 1);
              path = patch_path;
              summary = truncate (redact patch.summary) max_log_message_len;
              diff = truncate (redact patch.diff) max_patch_diff_len;
              created_at = now;
            }
              ∷ [];
      })

  -- the gate that `AddApproval` appends
  unfoldable pub new_gate : ApprovalGate → ℕ → Time → ApprovalGate
  new_gate gate n now = record gate {
    id = numbered "approval_" n;
    status = ApprovalStatus.pending;
    summary = truncate (redact gate.summary) max_log_message_len;
    created_at = now;
    decided_at = none;
    decided_by = "";
  }

  -- `AddApproval`
  unfoldable pub add_approval : ApprovalGate → Run → Time → Result Error Run
  add_approval gate run now =
      if terminal_status run.status
      then err Error.terminated
      else ok (record run {
        approvals = run.approvals ++ new_gate gate (length run.approvals + 1) now ∷ [];
        status = Status.waiting_approval;
      })

  unfoldable pub consume : String → String → Run → Time → Result Error Run
  unfolding append_log
  consume approval_id message run now =
      if terminal_status run.status
      then err Error.terminated
      else if is_waiting run.status || has_pending_approvals run.approvals
      then err Error.approval_pending
      else spend approval_id run.approvals >>= λ approvals.
          ok (append_log (record run { approvals = approvals }) now LogLevel.audit message)

  unfoldable pub decided_gate : ApprovalStatus → String → Time → ApprovalGate → ApprovalGate
  decided_gate decision decided_by now gate = record gate {
    status = decision;
    decided_at = some now;
    decided_by = truncate (redact decided_by) max_log_message_len;
  }

  -- The loop of `DecideApproval`: the first gate with the id is decided.
  unfoldable pub decide_gate :
      String
      → ApprovalStatus
      → String
      → Time
      → List ApprovalGate
      → Result Error (ApprovalGate × List ApprovalGate)
  decide_gate approval_id decision decided_by now [] = err Error.approval_not_found
  decide_gate approval_id decision decided_by now (gate ∷ gates) =
      let rest = decide_gate approval_id decision decided_by now gates >>= λ found.
      ok (found.0, gate ∷ found.1) in
      if gate.id == approval_id
      then (if is_pending gate
          then ok (
            decided_gate decision decided_by now gate,
            decided_gate decision decided_by now gate ∷ gates,
          )
          else err Error.approval_decided)
      else rest

  -- `DecideApproval`
  unfoldable pub decide_approval : String → ApprovalStatus → String → Run → Time → Result Error Run
  unfolding append_log settle
  decide_approval approval_id decision decided_by run now =
      if terminal_status run.status
      then err Error.terminated
      else decide_gate approval_id decision decided_by now run.approvals >>= λ found. ok (
          settle decision
            (append_log (record run { approvals = found.1 }) now LogLevel.audit
              ("Approval gate "
                <> found.0.id
                <> " ("
                <> kind_text found.0.kind
                <> ") "
                <> decision_text decision
                <> "."))
            now)
