-- ===== src/Runs/Summaries.antt =====
-- internal/agentruns/store.go: the summaries of a project's runs.
use ia_cstudio.Prelude.{
  ℕ, ◌+◌, ◌≡◌, refl, ap, String, Bool, List, [], ◌∷◌, Option, none, some, map, if◌then◌else◌,
  length, ltb, arith, Bool-cases, Option-cases, inl, inr, ◌==◌,
}
use ia_cstudio.Text.Trim.{trim_space}
use ia_cstudio.Runs.Types.{Run, Mode, Status, Time, ApprovalGate, ApprovalKind}
use ia_cstudio.Runs.Gates.{is_pending, has_pending_approvals}
use ia_cstudio.Runs.Store.{Store, find, list, list_from}

pub record PendingApprovalGate : Type 0 where
  pub id : String
  pub kind : ApprovalKind
  pub summary : String
  pub created_at : Time

pub record RunSummary : Type 0 where
  pub id : String
  pub project : String
  pub provider_id : String
  pub mode : Mode
  pub status : Status
  pub prompt_preview : String
  pub prompt_hash : String
  pub created_at : Time
  pub updated_at : Time
  pub started_at : Option Time
  pub completed_at : Option Time
  pub canceled : Bool
  pub error : String
  pub log_count : ℕ
  pub patch_count : ℕ
  pub approval_count : ℕ
  pub pending_approval_count : ℕ
  pub pending_gates : List PendingApprovalGate

abbrev pending_gate : ApprovalGate → PendingApprovalGate
pending_gate gate = record {
  id = gate.id;
  kind = gate.kind;
  summary = gate.summary;
  created_at = gate.created_at;
}

-- The loop of `summarizeRun`: the count and the gates that are pending.
unfoldable pub count_pending : List ApprovalGate → ℕ × List PendingApprovalGate
count_pending [] = (0, [])
count_pending (gate ∷ gates) =
    let rest = count_pending gates in
    if is_pending gate then (rest.0 + 1, pending_gate gate ∷ rest.1) else rest

unfoldable pub summarize_run : Run → RunSummary
unfolding count_pending
summarize_run run = record {
  id = run.id;
  project = run.project;
  provider_id = run.provider_id;
  mode = run.mode;
  status = run.status;
  prompt_preview = run.prompt_preview;
  prompt_hash = run.prompt_hash;
  created_at = run.created_at;
  updated_at = run.updated_at;
  started_at = run.started_at;
  completed_at = run.completed_at;
  canceled = run.canceled;
  error = run.error;
  log_count = length run.logs;
  patch_count = length run.patches;
  approval_count = length run.approvals;
  pending_approval_count = (count_pending run.approvals).0;
  pending_gates = (count_pending run.approvals).1;
}

-- The loop of `ListProjectSummaries`.
unfoldable pub summaries_from : String → List String → List (String × Run) → List RunSummary
unfolding summarize_run
summaries_from project [] runs = []
summaries_from project (id ∷ order) runs =
    let rest = summaries_from project order runs in
    elim (find id runs) [
      | none ↦ rest
      | some run ↦ if run.project == project then summarize_run run ∷ rest else rest
    ]

unfoldable pub list_project_summaries : String → Store → List RunSummary
unfolding summaries_from
list_project_summaries project s = summaries_from (trim_space project) s.order s.runs

-- the runs of a project, in order
unfoldable pub runs_of : String → List Run → List Run
runs_of project [] = []
runs_of project (run ∷ runs) =
    let rest = runs_of project runs in if run.project == project then run ∷ rest else rest

summaries_from-list :
    (project : String) (order : List String) (runs : List (String × Run))
    → summaries_from project order runs ≡ map summarize_run (runs_of project (list_from order runs))
unfolding summaries_from runs_of list_from
summaries_from-list project [] runs = refl
summaries_from-list project (id ∷ order) runs = elim (Option-cases (find id runs)) [
  | inl missing ↦ rw (missing, summaries_from, list_from) (summaries_from-list project order runs)
  | inr (run, held) ↦ elim (Bool-cases (run.project == project)) [
    | inl mine ↦
        rw (held, summaries_from, list_from)
          (rw mine (ap (λ rest. summarize_run run ∷ rest) (summaries_from-list project order runs)))
    | inr other ↦
        rw (held, summaries_from, list_from) (rw other (summaries_from-list project order runs))
  ]
]

count_pending-gates :
    (gates : List ApprovalGate)
    → (has_pending_approvals gates ≡ ltb 0 (count_pending gates).0)
      × ((count_pending gates).0 ≡ length (count_pending gates).1)
unfolding count_pending has_pending_approvals
count_pending-gates [] = (refl, refl)
count_pending-gates (gate ∷ gates) =
    let (some_pending, counted) = count_pending-gates gates in
    elim (Bool-cases (is_pending gate)) [
      | inl waits ↦ (ground arith, rw (waits, count_pending) (omega (arith, counted)))
      | inr done ↦ (ground arith, rw (done, count_pending) counted)
    ]

-- The summaries of a project are those of its runs in the full list, in the same order; the summary
-- of a run lists as many pending gates as it counts, and counts some exactly if the run has any.
pub list_project_summaries-list :
    (project : String) (s : Store) (run : Run)
    → (list_project_summaries project s ≡ map summarize_run (runs_of (trim_space project) (list s)))
      × (has_pending_approvals run.approvals ≡ ltb 0 (summarize_run run).pending_approval_count)
      × ((summarize_run run).pending_approval_count ≡ length (summarize_run run).pending_gates)
unfolding list_project_summaries list summarize_run
list_project_summaries-list project s run =
    let (some_pending, counted) = count_pending-gates run.approvals in
    (summaries_from-list (trim_space project) s.order s.runs, some_pending, counted)
