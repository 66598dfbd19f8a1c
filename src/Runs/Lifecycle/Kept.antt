-- ===== src/Runs/Lifecycle/Kept.antt =====
-- Well-formed runs and the closures of `Store.update`, internal/agentruns/store.go.
use ia_cstudio.Prelude.{
  ℕ, ◌+◌, ◌<>◌, ◌≡◌, refl, String, Bool, true, false, [], ◌∷◌, arith, All, All-append, Result, ok,
  Bool-cases, inl, inr, ◌⊎◌, Result-cases, length,
}
use ia_cstudio.Runs.Types.{
  LogLevel, ApprovalStatus, Time, ProposedPatch, ApprovalGate, Run, Error, valid_status,
  terminal_status,
}
use ia_cstudio.Runs.Gates.{valid_approval_binding, is_pending, kind_text, decision_text}
use ia_cstudio.Runs.Changes
use ia_cstudio.Runs.Store.{Host}
use ia_cstudio.Runs.Effect.{Mutation, is_decision}
use ia_cstudio.Runs.Lifecycle.{
  IsGate, IsRun, set_status-IsRun, append_log-IsRun, with_gates, spend-IsGate, decide_gate-IsGate,
}

module _ (redact : String → String) where
  pub cancel-IsRun :
      (r : Run) (now : Time) {r' : Run} → Changes.cancel redact r now ≡ ok r' → IsRun r → IsRun r'
  unfolding Changes.cancel terminal_status valid_status
  cancel-IsRun r now e w = ground arith

  pub fail-IsRun :
      (message : String) (r : Run) (now : Time) {r' : Run}
      → Changes.fail redact message r now ≡ ok r'
      → IsRun r
      → IsRun r'
  unfolding Changes.fail terminal_status valid_status
  fail-IsRun message r now e w = ground arith

  pub add_log-IsRun :
      (level : LogLevel) (message : String) (reject : Bool) (r : Run) (now : Time) {r' : Run}
      → Changes.add_log redact level message reject r now ≡ ok r'
      → IsRun r
      → IsRun r'
  unfolding Changes.add_log
  add_log-IsRun level message reject r now e w = ground arith

  pub add_patch-IsRun :
      (path : String) (patch : ProposedPatch) (r : Run) (now : Time) {r' : Run}
      → Changes.add_patch redact path patch r now ≡ ok r'
      → IsRun r
      → IsRun r'
  unfolding Changes.add_patch
  add_patch-IsRun path patch r now e w = ground arith

  new_gate-IsGate :
      (gate : ApprovalGate) (n : ℕ) (now : Time)
      → (gate.operation_binding.value ≡ "")
        ⊎ (valid_approval_binding gate.operation_binding.value ≡ true)
      → IsGate (Changes.new_gate redact gate n now)
  unfolding Changes.new_gate is_pending
  new_gate-IsGate gate n now b = record { decided = refl; known = inl refl; bound = b }

  pub add_approval-IsRun :
      (gate : ApprovalGate) (r : Run) (now : Time) {r' : Run}
      → (gate.operation_binding.value ≡ "")
        ⊎ (valid_approval_binding gate.operation_binding.value ≡ true)
      → Changes.add_approval redact gate r now ≡ ok r'
      → IsRun r
      → IsRun r'
  unfolding Changes.add_approval terminal_status valid_status
  add_approval-IsRun gate r now b e w = ground (
    arith,
    All-append IsGate r.approvals (Changes.new_gate redact gate (length r.approvals + 1) now ∷ [])
        w.gates (new_gate-IsGate gate (length r.approvals + 1) now b, tt),
  )

  pub consume-IsRun :
      (id message : String) (r : Run) (now : Time) {r' : Run}
      → Changes.consume redact id message r now ≡ ok r'
      → IsRun r
      → IsRun r'
  unfolding Changes.consume
  consume-IsRun id message r now {r'} e w = elim (Result-cases (Changes.spend id r.approvals)) [
    | inl (later, spent) ↦
        let g : All IsGate later = spend-IsGate id r.approvals spent w.gates in
        let shape : r'
            ≡ Changes.append_log redact (record r { approvals = later }) now LogLevel.audit
                message =
          ground arith in
        rw shape (append_log-IsRun redact _ now LogLevel.audit message (with_gates r later w g))
    | inr (x, failed) ↦ absurd (ground arith)
  ]

  settle-IsRun :
      (decision : ApprovalStatus) (r : Run) (now : Time)
      → terminal_status r.status ≡ false
      → IsRun r
      → IsRun (Changes.settle decision r now)
  unfolding Changes.settle terminal_status valid_status
  settle-IsRun decision r now live w = ground arith

  -- the message that `DecideApproval` logs
  verdict : ApprovalStatus → ApprovalGate → String
  verdict decision gate =
      "Approval gate "
      <> gate.id
      <> " ("
      <> kind_text gate.kind
      <> ") "
      <> decision_text decision
      <> "."

  pub decide-IsRun :
      (id : String) (decision : ApprovalStatus) (by : String) (r : Run) (now : Time) {r' : Run}
      → is_decision decision ≡ true
      → Changes.decide_approval redact id decision by r now ≡ ok r'
      → IsRun r
      → IsRun r'
  unfolding Changes.decide_approval verdict
  decide-IsRun id decision by r now {r'} d e w = elim (Bool-cases (terminal_status r.status)) [
    | inl over ↦ absurd (ground arith)
    | inr live ↦ elim (Result-cases (Changes.decide_gate redact id decision by now r.approvals)) [
      | inl (found, decided) ↦
          let logged : Run =
            Changes.append_log redact (record r { approvals = found.1 }) now LogLevel.audit
              (verdict decision found.0) in
          let gates : All IsGate found.1 =
            decide_gate-IsGate redact id decision by now r.approvals d decided w.gates in
          let shape : r' ≡ Changes.settle decision logged now = ground arith in
          rw shape (
            settle-IsRun decision logged now (unfold Changes.append_log in live)
              (append_log-IsRun redact _ now LogLevel.audit _ (with_gates r found.1 w gates)))
      | inr (x, failed) ↦ absurd (ground arith)
    ]
  ]

-- Every closure that the store runs keeps a run well formed.
pub Mutation-IsRun :
    {host : Host} {mutate : Run → Time → Result Error Run} (r : Run) (now : Time) {r' : Run}
    → Mutation host mutate
    → mutate r now ≡ ok r'
    → IsRun r
    → IsRun r'
Mutation-IsRun r now (Mutation.set_status status v) e w = set_status-IsRun status r now v e w
Mutation-IsRun {host} r now Mutation.cancel e w = cancel-IsRun host.redact r now e w
Mutation-IsRun {host} r now (Mutation.fail message) e w = fail-IsRun host.redact message r now e w
Mutation-IsRun {host} r now (Mutation.add_log level message reject) e w =
    add_log-IsRun host.redact level message reject r now e w
Mutation-IsRun {host} r now (Mutation.consume id message) e w =
    consume-IsRun host.redact id message r now e w
Mutation-IsRun {host} r now (Mutation.add_patch path patch) e w =
    add_patch-IsRun host.redact path patch r now e w
Mutation-IsRun {host} r now (Mutation.add_approval gate b) e w =
    add_approval-IsRun host.redact gate r now b e w
Mutation-IsRun {host} r now (Mutation.decide id decision by d) e w =
    decide-IsRun host.redact id decision by r now d e w
