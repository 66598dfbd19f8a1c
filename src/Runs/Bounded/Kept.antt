-- ===== src/Runs/Bounded/Kept.antt =====
-- The byte limits of internal/agentruns/store.go and each closure of `Store.update`.
use ia_cstudio.Prelude.{
  ◌+◌, ◌≤◌, ◌≡◌, String, len, ◌<>◌, Bool, not, ◌&&◌, List, [], ◌∷◌, Option, arith, inl, inr, All,
  All-append, Result, ok, length, Result-cases, Bool-cases, ◌==◌, if◌then◌else◌,
}
use ia_cstudio.Text.Numbered.{numbered}
use ia_cstudio.Text.Cut.{truncate, len-truncate-le}
use ia_cstudio.Runs.Types.{
  Run, Time, Error, ProposedPatch, ApprovalGate, ApprovalStatus, LogLevel, Status, terminal_status,
}
use ia_cstudio.Runs.Gates.{
  max_log_message_len, max_patch_diff_len, set_once, kind_text, decision_text, is_rejected,
  is_waiting, has_pending_approvals,
}
use ia_cstudio.Runs.Changes
use ia_cstudio.Runs.Store.{Host}
use ia_cstudio.Runs.Effect.{Mutation}
use ia_cstudio.Runs.Bounded.{LogFits, PatchFits, GateFits, IsBounded, message_fits}

module _ (redact : String → String) where
  append_log-IsBounded :
      (r : Run) (at : Time) (level : LogLevel) (message : String)
      → IsBounded r
      → IsBounded (Changes.append_log redact r at level message)
  unfolding Changes.append_log
  append_log-IsBounded r at level message b = record {
    preview = b.preview;
    provider = b.provider;
    creator = b.creator;
    error = b.error;
    logs = All-append LogFits r.logs _ b.logs (message_fits _, tt);
    patches = b.patches;
    gates = b.gates;
  }

  spend-GateFits :
      (id : String) (gates : List ApprovalGate) {later : List ApprovalGate}
      → Changes.spend id gates ≡ ok later
      → All GateFits gates
      → All GateFits later
  unfolding Changes.spend
  spend-GateFits id [] e w = cc
  spend-GateFits id (g ∷ gates) {later} e (wg, w) = elim (Bool-cases (g.id == id)) [
    | inl same ↦ ground arith
    | inr other ↦ elim (Result-cases (Changes.spend id gates)) [
      | inl (rest, found) ↦
          let shape : later ≡ g ∷ rest = ground arith in
          rw shape (wg, spend-GateFits id gates found w)
      | inr (x, failed) ↦ absurd (ground arith)
    ]
  ]

  decide_gate-GateFits :
      (id : String) (decision : ApprovalStatus) (by : String) (now : Time)
      (gates : List ApprovalGate) {found : ApprovalGate × List ApprovalGate}
      → Changes.decide_gate redact id decision by now gates ≡ ok found
      → All GateFits gates
      → All GateFits found.1
  unfolding Changes.decide_gate Changes.decided_gate
  decide_gate-GateFits id decision by now [] e w = cc
  decide_gate-GateFits id decision by now (g ∷ gates) {found} e (wg, w) =
      elim (Bool-cases (g.id == id)) [
        | inl same ↦
            let shape : found.1 ≡ Changes.decided_gate redact decision by now g ∷ gates =
              ground arith in
            rw shape ((wg.0, message_fits _), w)
        | inr other ↦ elim (Result-cases (Changes.decide_gate redact id decision by now gates)) [
          | inl (rest, decided) ↦
              let shape : found.1 ≡ g ∷ rest.1 = ground arith in
              rw shape (wg, decide_gate-GateFits id decision by now gates decided w)
          | inr (x, failed) ↦ absurd (ground arith)
        ]
      ]

  with_gates :
      (r : Run) (gates : List ApprovalGate)
      → IsBounded r
      → All GateFits gates
      → IsBounded (record r { approvals = gates })
  with_gates r gates b g = record {
    preview = b.preview;
    provider = b.provider;
    creator = b.creator;
    error = b.error;
    logs = b.logs;
    patches = b.patches;
    gates = g;
  }

  consume-IsBounded :
      (id message : String) (r : Run) (now : Time) {r' : Run}
      → Changes.consume redact id message r now ≡ ok r'
      → IsBounded r
      → IsBounded r'
  unfolding Changes.consume
  consume-IsBounded id message r now {r'} e b = elim (Result-cases (Changes.spend id r.approvals)) [
    | inl (later, spent) ↦
        let shape : r'
            ≡ Changes.append_log redact (record r { approvals = later }) now LogLevel.audit
                message =
          ground arith in
        rw shape (
          append_log-IsBounded _ now LogLevel.audit message
            (with_gates r later b (spend-GateFits id r.approvals spent b.gates)))
    | inr (x, failed) ↦ absurd (ground arith)
  ]

  -- a run that fails with a message that fits
  with_failure :
      (status : Status) (text : String) (at : Option Time) (r : Run)
      → IsBounded r
      → len text ≤ max_log_message_len
      → IsBounded (record r { status = status; error = text; completed_at = at })
  with_failure status text at r b fits = record {
    preview = b.preview;
    provider = b.provider;
    creator = b.creator;
    error = fits;
    logs = b.logs;
    patches = b.patches;
    gates = b.gates;
  }

  fail-IsBounded :
      (message : String) (r : Run) (now : Time) {r' : Run}
      → Changes.fail redact message r now ≡ ok r'
      → IsBounded r
      → IsBounded r'
  unfolding Changes.fail
  fail-IsBounded message r now {r'} e b =
      let text = truncate (redact message) max_log_message_len in
      let said = if text == "" then "Agent run failed." else "Agent run failed: " <> text in
      ground (
        arith,
        append_log-IsBounded _ now LogLevel.audit said (
            with_failure Status.failed text (set_once r.completed_at now) r b
              (message_fits (redact message))),
      )

  cancel-IsBounded :
      (r : Run) (now : Time) {r' : Run}
      → Changes.cancel redact r now ≡ ok r'
      → IsBounded r
      → IsBounded r'
  unfolding Changes.cancel Changes.append_log
  cancel-IsBounded r now {r'} e b = elim (Bool-cases (terminal_status r.status)) [
    | inl over ↦ absurd (ground arith)
    | inr live ↦
        let logged = append_log-IsBounded r now LogLevel.audit "Agent run canceled." b in
        ground arith
  ]

  set_status-IsBounded :
      (status : Status) (r : Run) (now : Time) {r' : Run}
      → Changes.set_status status r now ≡ ok r'
      → IsBounded r
      → IsBounded r'
  unfolding Changes.set_status
  set_status-IsBounded status r now e b = ground arith

  add_log-IsBounded :
      (level : LogLevel) (message : String) (reject : Bool) (r : Run) (now : Time) {r' : Run}
      → Changes.add_log redact level message reject r now ≡ ok r'
      → IsBounded r
      → IsBounded r'
  unfolding Changes.add_log
  add_log-IsBounded level message reject r now e b =
      ground (arith, append_log-IsBounded r now level message b)

  add_patch-IsBounded :
      (path : String) (patch : ProposedPatch) (r : Run) (now : Time) {r' : Run}
      → Changes.add_patch redact path patch r now ≡ ok r'
      → IsBounded r
      → IsBounded r'
  unfolding Changes.add_patch
  add_patch-IsBounded path patch r now e b =
      let fits = len-truncate-le (redact patch.diff) max_patch_diff_len (omega arith) in
      let added : ProposedPatch = record {
        id = numbered "patch_" (length r.patches + 1);
        path = path;
        summary = truncate (redact patch.summary) max_log_message_len;
        diff = truncate (redact patch.diff) max_patch_diff_len;
        created_at = now;
      } in
      ground (
        arith,
        All-append PatchFits r.patches (added ∷ []) b.patches
            ((message_fits (redact patch.summary), fits), tt),
      )

  add_approval-IsBounded :
      (gate : ApprovalGate) (r : Run) (now : Time) {r' : Run}
      → Changes.add_approval redact gate r now ≡ ok r'
      → IsBounded r
      → IsBounded r'
  unfolding Changes.add_approval Changes.new_gate
  add_approval-IsBounded gate r now e b =
      let empty : len "" ≤ max_log_message_len = omega arith in
      ground (
        arith,
        All-append GateFits r.approvals
            (Changes.new_gate redact gate (length r.approvals + 1) now ∷ []) b.gates
            ((message_fits (redact gate.summary), empty), tt),
      )

  settle-IsBounded :
      (decision : ApprovalStatus) (r : Run) (now : Time)
      → IsBounded r
      → IsBounded (Changes.settle decision r now)
  unfolding Changes.settle
  settle-IsBounded decision r now b = elim (Bool-cases (is_rejected decision)) [
    | inl refused ↦ rw refused (
        with_failure Status.failed "approval gate rejected" (set_once r.completed_at now) r b
          (omega arith))
    | inr fine ↦
        elim (Bool-cases (is_waiting r.status && not (has_pending_approvals r.approvals))) [
          | inl go ↦
              rw (fine, go)
                (record {
                  preview = b.preview;
                  provider = b.provider;
                  creator = b.creator;
                  error = b.error;
                  logs = b.logs;
                  patches = b.patches;
                  gates = b.gates;
                })
          | inr stay ↦ rw (fine, stay) b
        ]
  ]

  decide-IsBounded :
      (id : String) (decision : ApprovalStatus) (by : String) (r : Run) (now : Time) {r' : Run}
      → Changes.decide_approval redact id decision by r now ≡ ok r'
      → IsBounded r
      → IsBounded r'
  unfolding Changes.decide_approval
  decide-IsBounded id decision by r now {r'} e b = elim (Bool-cases (terminal_status r.status)) [
    | inl over ↦ absurd (ground arith)
    | inr live ↦ elim (Result-cases (Changes.decide_gate redact id decision by now r.approvals)) [
      | inl (found, decided) ↦
          let said =
            "Approval gate "
            <> found.0.id
            <> " ("
            <> kind_text found.0.kind
            <> ") "
            <> decision_text decision
            <> "." in
          let logged : Run =
            Changes.append_log redact (record r { approvals = found.1 }) now LogLevel.audit said in
          let gates = decide_gate-GateFits id decision by now r.approvals decided b.gates in
          let shape : r' ≡ Changes.settle decision logged now = ground arith in
          rw shape (
            settle-IsBounded decision logged now
              (append_log-IsBounded _ now LogLevel.audit said (with_gates r found.1 b gates)))
      | inr (x, failed) ↦ absurd (ground arith)
    ]
  ]

-- Every closure that the store runs keeps a run's texts short.
pub Mutation-IsBounded :
    {host : Host} {mutate : Run → Time → Result Error Run} (r : Run) (now : Time) {r' : Run}
    → Mutation host mutate
    → mutate r now ≡ ok r'
    → IsBounded r
    → IsBounded r'
Mutation-IsBounded {host} r now (Mutation.set_status status v) e b =
    set_status-IsBounded host.redact status r now e b
Mutation-IsBounded {host} r now Mutation.cancel e b = cancel-IsBounded host.redact r now e b
Mutation-IsBounded {host} r now (Mutation.fail message) e b =
    fail-IsBounded host.redact message r now e b
Mutation-IsBounded {host} r now (Mutation.add_log level message reject) e b =
    add_log-IsBounded host.redact level message reject r now e b
Mutation-IsBounded {host} r now (Mutation.consume id message) e b =
    consume-IsBounded host.redact id message r now e b
Mutation-IsBounded {host} r now (Mutation.add_patch path patch) e b =
    add_patch-IsBounded host.redact path patch r now e b
Mutation-IsBounded {host} r now (Mutation.add_approval gate bound) e b =
    add_approval-IsBounded host.redact gate r now e b
Mutation-IsBounded {host} r now (Mutation.decide id decision by d) e b =
    decide-IsBounded host.redact id decision by r now e b
