-- ===== src/Runs/Spent.antt =====
-- `ConsumeApprovalBinding` of internal/agentruns/store.go.
use mathlib.Core.Option.{none-ne-some, some-injective}
use ia_cstudio.Prelude.{
  ℕ, ◌+◌, ◌^◌, ◌≤◌, ◌<◌, ◌≡◌, ◌≢◌, refl, sym, ◌∙◌, String, true, false, List, some, arith, inl, inr,
  Result, ok, err, length, Result-cases, Option-cases, eq_refl,
}
use ia_cstudio.Runs.Types.{Run, Time, Error, ApprovalGate, terminal_status}
use ia_cstudio.Runs.Gates.{is_approved, is_waiting, has_pending_approvals}
use ia_cstudio.Runs.Changes
use ia_cstudio.Runs.Store
use ia_cstudio.Runs.Store.{Store, Host, find, update, run_id}
use ia_cstudio.Runs.Trace.{Op, step, run_ops}
use ia_cstudio.Runs.Effect.{step-Effect}
use ia_cstudio.Runs.Map.{find-put}
use ia_cstudio.Runs.Updates.{stamped, update_missing, update_failed, update_done}
use ia_cstudio.Runs.History.{Queued, Holds-run_ops, Effect-Queued}
use ia_cstudio.Runs.Blank.{first_gate, IsSpent, spend-ok, spend_spent, consume_gates, Found-IsSpent}

-- What a successful `update` found and stored.
pub update-ok :
    (id : String) (mutate : Run → Time → Result Error Run) (s : Store) (now : Time) {u : Run}
    → (update id mutate s now).1 ≡ ok u
    → (r : Run) × (r' : Run) × (find id s.runs ≡ some r)
      × (mutate r now ≡ ok r')
      × (u ≡ stamped r' now)
      × (find id (update id mutate s now).0.runs ≡ some u)
update-ok id mutate s now {u} e = elim (Option-cases (find id s.runs)) [
  | inl missing ↦ let clash = rw (update_missing id mutate s now missing) at e in cc
  | inr (r, held) ↦ elim (Result-cases (mutate r now)) [
    | inr (x, failed) ↦ let clash = rw (update_failed id mutate s now r x held failed) at e in cc
    | inl (r', done) ↦
        let shape = update_done id mutate s now r r' held done in
        let is : u ≡ stamped r' now = ground (arith, rw shape at e) in
        (r, r', held, done, is, rw shape (find-put id id _ s.runs ∙ rw (eq_refl, is) refl))
  ]
]

-- A binding is spent only for a live run that waits for no approval, by a gate of the given id that
-- is approved and still has its binding.
pub consume_needs_approval :
    (host : Host) (id approval_id message : String) (s : Store) (now : Time) {u : Run}
    → (Store.consume_approval_binding host id approval_id message s now).1 ≡ ok u
    → (r : Run) × (find id s.runs ≡ some r)
      × (terminal_status r.status ≡ false)
      × (is_waiting r.status ≡ false)
      × (has_pending_approvals r.approvals ≡ false)
      × (g : ApprovalGate) × (first_gate approval_id r.approvals ≡ some g)
      × (is_approved g.status ≡ true)
      × (g.operation_binding.value ≢ "")
unfolding Store.consume_approval_binding Changes.consume
consume_needs_approval host id approval_id message s now e =
    let (r, r', held, done, is, after) = update-ok id _ s now e in
    let (before, left) =
      spend-ok approval_id r.approvals r'.approvals
        (consume_gates host.redact approval_id message r now done) in
    (r, held, ground arith, ground arith, ground arith, before.0, before.1, before.2, before.3)

-- A binding that was spent is not spent again.
never_again :
    (host : Host) (k : ℕ) (approval_id message again : String) (s : Store) (now later : Time)
    (ops : List (Op × Time)) {u : Run}
    → Queued s
    → s.next + length ops + 1 < 2 ^ 64
    → k ≤ s.next
    → (Store.consume_approval_binding host (run_id k) approval_id message s now).1 ≡ ok u
    → (v : Run)
    → (Store.consume_approval_binding host
        (run_id k)
        approval_id
        again
        (run_ops host ops
          (Store.consume_approval_binding host (run_id k) approval_id message s now).0)
        later).1
      ≢ ok v
unfolding Store.consume_approval_binding step
never_again host k approval_id message again s now later ops {u} q fits old e v f =
    let (r, r', held, done, is, after) = update-ok (run_id k) _ s now e in
    let (before, left) =
      spend-ok approval_id r.approvals r'.approvals
        (consume_gates host.redact approval_id message r now done) in
    let spent : IsSpent approval_id u = rw is left in
    let s' = (step host (Op.consume (run_id k) approval_id message) s now).0 in
    let (q', up, one) =
      Effect-Queued (step-Effect host s now (Op.consume (run_id k) approval_id message)) q
        (omega arith) in
    let (r₂, r₂', held₂, done₂, is₂, after₂) =
      update-ok (run_id k) _ (run_ops host ops s') later f in
    elim (Holds-run_ops host (IsSpent approval_id) (Found-IsSpent approval_id) k ops s' q'
      (omega arith) (omega arith) (inr (u, after, spent))) [
        | inl gone ↦ none-ne-some _ (sym gone ∙ held₂)
        | inr (w, held_w, (g, first, blank)) ↦
            let same : w ≡ r₂ = some-injective _ _ (sym held_w ∙ held₂) in
            spend_spent approval_id r₂.approvals g (rw same at first) blank r₂'.approvals
              (consume_gates host.redact approval_id again r₂ later done₂)
      ]

-- One approval allows one execution: in a store that is a queue, for an id that was issued, after a
-- binding was spent every later attempt to spend the binding of the same gate fails, whatever
-- operations come between, as long as the counter of ids does not wrap around.
pub consume_once :
    (host : Host) (k : ℕ) (approval_id message again : String) (s : Store) (now later : Time)
    (ops : List (Op × Time)) {u : Run}
    → Queued s
    → s.next + length ops + 1 < 2 ^ 64
    → k ≤ s.next
    → (Store.consume_approval_binding host (run_id k) approval_id message s now).1 ≡ ok u
    → (x : Error) × ((Store.consume_approval_binding host
          (run_id k)
          approval_id
          again
          (run_ops host ops
            (Store.consume_approval_binding host (run_id k) approval_id message s now).0)
          later).1
        ≡ err x)
consume_once host k approval_id message again s now later ops q fits old e =
    let first = Store.consume_approval_binding host (run_id k) approval_id message s now in
    let second =
      Store.consume_approval_binding host (run_id k) approval_id again (run_ops host ops first.0)
        later in
    elim (Result-cases second.1) [
      | inr failed ↦ failed
      | inl (v, f) ↦
          absurd (never_again host k approval_id message again s now later ops q fits old e v f)
    ]
