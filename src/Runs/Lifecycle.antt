-- ===== src/Runs/Lifecycle.antt =====
-- Well-formed runs of internal/agentruns/store.go; `Kept` is about each closure of `Store.update`.
pub mod Kept
use ia_cstudio.Prelude.{
  ℕ, ◌≡◌, refl, String, Bool, true, false, not, List, [], ◌∷◌, ◌++◌, Option, none, some, arith, All,
  All-append, Result, ok, err, Bool-cases, inl, inr, ◌⊎◌, ◌==◌, eq_iff, ◌||◌, if◌then◌else◌, ◌>>=◌,
  Result-cases,
}
use ia_cstudio.Runs.Types.{
  Status, Mode, LogLevel, ApprovalStatus, Time, ProposedPatch, ApprovalGate, Run, Error, mode_valid,
  valid_status, terminal_status,
}
use ia_cstudio.Runs.Gates.{
  valid_approval_binding, is_pending, is_running, is_canceled, is_approved, is_rejected,
  has_pending_approvals,
}
use ia_cstudio.Runs.Changes
use ia_cstudio.Runs.Effect.{is_decision}

abbrev pub is_set : Option Time → Bool
is_set none = false
is_set (some t) = true

-- A gate: undecided exactly while it is pending, and with no binding or a well-formed one.
pub record IsGate (g : ApprovalGate) : Type 0 where
  pub decided : is_set g.decided_at ≡ not (is_pending g)
  pub known : (is_pending g ≡ true) ⊎ (is_decision g.status ≡ true)
  pub bound :
      (g.operation_binding.value ≡ "") ⊎ (valid_approval_binding g.operation_binding.value ≡ true)

-- A run: completed exactly in a terminal status, canceled exactly in the status of that name,
-- started if it runs, with a known status and mode, and with such gates.
pub record IsRun (r : Run) : Type 0 where
  pub valid : valid_status r.status ≡ true
  pub mode : mode_valid r.mode ≡ true
  pub completed : is_set r.completed_at ≡ terminal_status r.status
  pub canceled : r.canceled ≡ is_canceled r.status
  pub started : is_running r.status ≡ true → is_set r.started_at ≡ true
  pub gates : All IsGate r.approvals

pub set_status-IsRun :
    (status : Status) (r : Run) (now : Time) {r' : Run}
    → valid_status status ≡ true
    → Changes.set_status status r now ≡ ok r'
    → IsRun r
    → IsRun r'
unfolding Changes.set_status terminal_status valid_status
set_status-IsRun status r now v e w = ground arith

pub append_log-IsRun :
    (redact : String → String) (r : Run) (at : Time) (level : LogLevel) (message : String)
    → IsRun r
    → IsRun (Changes.append_log redact r at level message)
unfolding Changes.append_log
append_log-IsRun redact r at level message w = record {
  valid = w.valid;
  mode = w.mode;
  completed = w.completed;
  canceled = w.canceled;
  started = w.started;
  gates = w.gates;
}

-- Replacing the gates of a run by well-formed ones.
pub with_gates :
    (r : Run) (gates : List ApprovalGate)
    → IsRun r
    → All IsGate gates
    → IsRun (record r { approvals = gates })
with_gates r gates w g = record {
  valid = w.valid;
  mode = w.mode;
  completed = w.completed;
  canceled = w.canceled;
  started = w.started;
  gates = g;
}

pub spend-IsGate :
    (id : String) (gates : List ApprovalGate) {later : List ApprovalGate}
    → Changes.spend id gates ≡ ok later
    → All IsGate gates
    → All IsGate later
unfolding Changes.spend is_pending
spend-IsGate id [] e w = cc
spend-IsGate id (g ∷ gates) {later} e (wg, w) = elim (Bool-cases (g.id == id)) [
  | inl same ↦ ground arith
  | inr other ↦ elim (Result-cases (Changes.spend id gates)) [
    | inl (rest, found) ↦
        let tail : All IsGate rest = spend-IsGate id gates found w in
        let shape : later ≡ g ∷ rest = ground arith in rw shape (wg, tail)
    | inr (x, failed) ↦ absurd (ground arith)
  ]
]

pub decide_gate-IsGate :
    (redact : String → String) (id : String) (decision : ApprovalStatus) (by : String) (now : Time)
    (gates : List ApprovalGate) {found : ApprovalGate × List ApprovalGate}
    → is_decision decision ≡ true
    → Changes.decide_gate redact id decision by now gates ≡ ok found
    → All IsGate gates
    → All IsGate found.1
unfolding Changes.decide_gate Changes.decided_gate is_pending
decide_gate-IsGate redact id decision by now [] d e w = cc
decide_gate-IsGate redact id decision by now (g ∷ gates) {found} d e (wg, w) =
    elim (Bool-cases (g.id == id)) [
      | inl same ↦ ground arith
      | inr other ↦ elim (Result-cases (Changes.decide_gate redact id decision by now gates)) [
        | inl (rest, decided) ↦
            let tail : All IsGate rest.1 =
              decide_gate-IsGate redact id decision by now gates d decided w in
            let shape : found.1 ≡ g ∷ rest.1 = ground arith in rw shape (wg, tail)
        | inr (x, failed) ↦ absurd (ground arith)
      ]
    ]
