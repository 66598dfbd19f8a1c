-- ===== src/Runs/Tests.antt =====
-- Runs of the store of internal/agentruns/store.go on concrete requests.
use ia_cstudio.Prelude.{
  ◌≡◌, ◌≢◌, refl, true, false, List, [], ◌∷◌, Option, none, some, arith, Result, ok, err, map, ltb,
  length,
}
use ia_cstudio.Text.Trim.{trim_space}
use ia_cstudio.Text.Numbered.{numbered}
use ia_cstudio.Runs.Types.{
  Run, Time, Mode, Status, ApprovalKind, ApprovalStatus, ApprovalGate, CreateRequest, Error,
  terminal_status, mode_valid, valid_approval_kind,
}
use ia_cstudio.Runs.Changes
use ia_cstudio.Runs.Gates.{
  is_waiting, is_approved, is_pending, has_pending_approvals, valid_approval_binding,
}
use ia_cstudio.Text.Cut.{truncate}
use ia_cstudio.Runs.Lifecycle.{IsRun}
use ia_cstudio.Runs.Bounded.{IsBounded}
use ia_cstudio.Runs.Store
use ia_cstudio.Runs.Store.{
  list, Store, Host, StoreOption, with_max_runs, find, update, run_id, new_store,
}
use ia_cstudio.Runs.Trace.{Op, step, run_ops}
use ia_cstudio.Runs.History.{Queued, EachRun, Holds}
use ia_cstudio.Runs.Terminal.{terminal_run_frozen, run_ops-IsRun}
use ia_cstudio.Runs.Bounded.Always.{run_ops-IsBounded}
use ia_cstudio.Runs.Blank.{first_gate}
use ia_cstudio.Runs.Spent.{consume_needs_approval, consume_once}
use ia_cstudio.Runs.Summaries.{
  list_project_summaries, summarize_run, runs_of, list_project_summaries-list,
}
use ia_cstudio.Runs.Contract.{IsCreated, create-IsCreated, run_ops-IsQueue}

-- a redaction that keeps the text, and a hash
abbrev host : Host
host = record { redact = λ text. text; hash_text = λ text key. text }

abbrev request : CreateRequest
request = record {
  project = "demo";
  prompt = "list buckets";
  provider_id = "aws";
  mode = Mode.read_only;
  created_by = "ann";
}

abbrev gate : ApprovalGate
gate = record {
  id = "";
  kind = ApprovalKind.cloud_write;
  status = ApprovalStatus.other "";
  summary = "Authorize";
  created_at = 0;
  decided_at = none;
  decided_by = "";
  operation_binding = record { value = "b1" };
}

-- a store of at most two runs
abbrev empty : Store
empty = new_store (with_max_runs 2 ∷ []) (7 ∷ [])

-- one run, whose gate is approved
abbrev approved_ops : List (Op × Time)
approved_ops =
    (Op.create request, 1)
    ∷ (Op.add_approval "run_000001" gate, 2)
    ∷ (Op.decide "run_000001" "approval_000001" ApprovalStatus.approved "ann", 3)
    ∷ []

abbrev canceled_ops : List (Op × Time)
canceled_ops = (Op.create request, 1) ∷ (Op.cancel "run_000001", 2) ∷ []

run_id_test : run_id 1 ≡ "run_000001"
unfolding numbered
run_id_test = refl

abbrev approved : Store
approved = run_ops host approved_ops empty

abbrev status_of : Option Run → Option Status
status_of none = none
status_of (some r) = some r.status

approved_test : status_of (find "run_000001" approved.runs) ≡ some Status.running
unfolding run_ops step Store.create Store.add_approval Store.decide_approval
    Store.consume_approval_binding Store.cancel new_store update find valid_approval_kind
    valid_approval_binding trim_space mode_valid Store.evict Store.put numbered Changes.add_approval
    Changes.cancel Changes.consume Changes.spend Changes.append_log terminal_status
    Store.created_run Changes.decide_approval Changes.decide_gate Changes.new_gate is_pending
    has_pending_approvals Changes.decided_gate truncate
approved_test = refl

abbrev canceled : Store
canceled = run_ops host canceled_ops empty

abbrev run_of : Option Run → Run
run_of none = Store.created_run host request Mode.read_only "" [] 0
run_of (some r) = r

abbrev canceled_run : Run
canceled_run = run_of (find "run_000001" canceled.runs)

approved-Queued : Queued approved
approved-Queued = run_ops-IsQueue host (with_max_runs 2 ∷ []) (7 ∷ []) approved_ops (omega arith)

canceled-Queued : Queued canceled
canceled-Queued = run_ops-IsQueue host (with_max_runs 2 ∷ []) (7 ∷ []) canceled_ops (omega arith)

run_ops-IsQueue_example :
    Queued (run_ops host approved_ops (new_store (with_max_runs 2 ∷ []) (7 ∷ [])))
run_ops-IsQueue_example =
    run_ops-IsQueue host (with_max_runs 2 ∷ []) (7 ∷ []) approved_ops (omega arith)

run_ops-IsRun_example :
    EachRun IsRun (run_ops host approved_ops (new_store (with_max_runs 2 ∷ []) (7 ∷ [])))
run_ops-IsRun_example =
    run_ops-IsRun host (with_max_runs 2 ∷ []) (7 ∷ []) approved_ops (omega arith)

run_ops-IsBounded_example :
    EachRun IsBounded (run_ops host approved_ops (new_store (with_max_runs 2 ∷ []) (7 ∷ [])))
run_ops-IsBounded_example =
    run_ops-IsBounded host (with_max_runs 2 ∷ []) (7 ∷ []) approved_ops (omega arith)

terminal_run_frozen_example :
    Holds
      (λ u. u ≡ canceled_run)
      (run_id 1)
      (run_ops host ((Op.cancel "run_000001", 3) ∷ (Op.create request, 4) ∷ []) canceled)
unfolding run_ops step Store.create Store.add_approval Store.decide_approval
    Store.consume_approval_binding Store.cancel new_store update find valid_approval_kind
    valid_approval_binding trim_space mode_valid Store.evict Store.put numbered Changes.add_approval
    Changes.cancel Changes.consume Changes.spend Changes.append_log terminal_status
    Store.created_run Changes.decide_approval Changes.decide_gate Changes.new_gate is_pending
    has_pending_approvals Changes.decided_gate truncate
terminal_run_frozen_example =
    terminal_run_frozen host 1 ((Op.cancel "run_000001", 3) ∷ (Op.create request, 4) ∷ []) canceled
      canceled_run canceled-Queued (omega arith) (omega arith) refl refl

abbrev consumed : Store × Result Error Run
consumed = Store.consume_approval_binding host (run_id 1) "approval_000001" "done" approved 4

abbrev consumed_run : Run
consumed_run = run_of (find "run_000001" consumed.0.runs)

consumed_ok : consumed.1 ≡ ok consumed_run
unfolding run_ops step Store.create Store.add_approval Store.decide_approval
    Store.consume_approval_binding Store.cancel new_store update find valid_approval_kind
    valid_approval_binding trim_space mode_valid Store.evict Store.put numbered Changes.add_approval
    Changes.cancel Changes.consume Changes.spend Changes.append_log terminal_status
    Store.created_run Changes.decide_approval Changes.decide_gate Changes.new_gate is_pending
    has_pending_approvals Changes.decided_gate truncate
consumed_ok = refl

consume_once_example :
    (x : Error) × ((Store.consume_approval_binding host
        (run_id 1)
        "approval_000001"
        "again"
        (run_ops host ((Op.create request, 5) ∷ []) consumed.0)
        6).1
      ≡ err x)
unfolding run_ops step Store.create Store.add_approval Store.decide_approval
    Store.consume_approval_binding Store.cancel new_store update find valid_approval_kind
    valid_approval_binding trim_space mode_valid Store.evict Store.put numbered Changes.add_approval
    Changes.cancel Changes.consume Changes.spend Changes.append_log terminal_status
    Store.created_run Changes.decide_approval Changes.decide_gate Changes.new_gate is_pending
    has_pending_approvals Changes.decided_gate truncate
consume_once_example =
    consume_once host 1 "approval_000001" "done" "again" approved 4 6 ((Op.create request, 5) ∷ [])
      approved-Queued (omega arith) (omega arith) consumed_ok

consume_needs_approval_example :
    (r : Run) × (find (run_id 1) approved.runs ≡ some r)
    × (terminal_status r.status ≡ false)
    × (is_waiting r.status ≡ false)
    × (has_pending_approvals r.approvals ≡ false)
    × (g : ApprovalGate) × (first_gate "approval_000001" r.approvals ≡ some g)
    × (is_approved g.status ≡ true)
    × (g.operation_binding.value ≢ "")
consume_needs_approval_example =
    consume_needs_approval host (run_id 1) "approval_000001" "done" approved 4 consumed_ok

create-IsCreated_example :
    IsCreated approved
      (Store.create host request approved 9).0
      (run_of (find (run_id 2) (Store.create host request approved 9).0.runs))
unfolding run_ops step Store.create Store.add_approval Store.decide_approval
    Store.consume_approval_binding Store.cancel new_store update find valid_approval_kind
    valid_approval_binding trim_space mode_valid Store.evict Store.put numbered Changes.add_approval
    Changes.cancel Changes.consume Changes.spend Changes.append_log terminal_status
    Store.created_run Changes.decide_approval Changes.decide_gate Changes.new_gate is_pending
    has_pending_approvals Changes.decided_gate truncate
create-IsCreated_example =
    create-IsCreated host request approved 9 approved-Queued (omega arith) (omega arith) refl

abbrev waiting : Store
waiting = run_ops host ((Op.create request, 1) ∷ (Op.add_approval "run_000001" gate, 2) ∷ []) empty

abbrev decided_result : Store × Result Error Run
decided_result =
    Store.decide_approval host "run_000001" "approval_000001" ApprovalStatus.rejected "ann" waiting
      3

abbrev decided_run : Run
decided_run = run_of (find "run_000001" decided_result.0.runs)

list_project_summaries-list_example :
    (list_project_summaries "demo" waiting
      ≡ map summarize_run (runs_of (trim_space "demo") (list waiting)))
    × (has_pending_approvals decided_run.approvals
        ≡ ltb 0 (summarize_run decided_run).pending_approval_count)
    × ((summarize_run decided_run).pending_approval_count
        ≡ length (summarize_run decided_run).pending_gates)
list_project_summaries-list_example = list_project_summaries-list "demo" waiting decided_run
