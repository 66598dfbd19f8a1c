-- ===== src/Routing/Calls.antt =====
-- The routes behind a call of `Execute` of internal/agentrouting/executor.go.
use mathlib.Core.Option.{none-ne-some, some-injective}
use ia_cstudio.Prelude.{
  ℕ, ◌≡◌, refl, sym, ap, ◌∙◌, String, true, ◌&&◌, List, [], ◌∷◌, Option, none, some, arith, inl,
  inr, ◌⊎◌, eq_iff, Bool-cases, Option-cases, Result, ok, err, Result-cases,
}
use ia_cstudio.Runs.Types.{Run, Time, Error, ApprovalGate}
use ia_cstudio.Runs.Gates.{is_approved}
use ia_cstudio.Runs.Store
use ia_cstudio.Runs.Store.{Store, Host, find}
use ia_cstudio.Routing.Policy.{Request, valid_request}
use ia_cstudio.Routing.Outcome.{Decision}
use ia_cstudio.Routing.Authorizer.{Authorizer, authorize}
use ia_cstudio.Routing.Binding.{
  new_tool_approval_binding, binding_matches, BindingError, valid_binding,
}
use ia_cstudio.Routing.Recorder.{
  Pause, meanwhile, RouteError, RouteHost, is_allowed, is_approval_required, run_in_scope,
  validate_run_id, lift_pending, route_audit_message, bound_gate, spend_gate, recorded, approve_run,
  approve_bound, record_approved_tool_call, record_bound_approval, record_outcome,
}
use ia_cstudio.Routing.Router.{
  RouteResult, no_binding, with_decision, route_unapproved, route_decision, route_bound,
  route_tool_call,
}
use ia_cstudio.Routing.Permit.{Permit, allowed-Permit}

bound_gate-some :
    (host : RouteHost) (key : List ℕ) (run_id : String) (request : Request) (arguments : List ℕ)
    (gates : List ApprovalGate) {gate : ApprovalGate}
    → bound_gate host key run_id request arguments gates ≡ some gate
    → (is_approved gate.status ≡ true)
      × (binding_matches host.digest gate.operation_binding.value key run_id request arguments
          ≡ true)
unfolding bound_gate
bound_gate-some host key run_id request arguments [] e = absurd (none-ne-some _ e)
bound_gate-some host key run_id request arguments (g ∷ gates) {gate} e =
    let hit =
      is_approved g.status
      && binding_matches host.digest g.operation_binding.value key run_id request arguments in
    elim (Bool-cases hit) [
      | inl found ↦
          let same : g ≡ gate = some-injective _ _ (rw (found, bound_gate) at e) in
          rw (sym same) (ground arith)
      | inr other ↦
          bound_gate-some host key run_id request arguments gates (rw (other, bound_gate) at e)
    ]

-- A binding that matches is the one of this key, run, request and arguments.
binding_matches-is :
    (digest : List ℕ → List ℕ → String) (value : String) (key : List ℕ) (run_id : String)
    (request : Request) (arguments : List ℕ)
    → binding_matches digest value key run_id request arguments ≡ true
    → new_tool_approval_binding digest key run_id request arguments ≡ ok value
unfolding binding_matches
binding_matches-is digest value key run_id request arguments e =
    elim (Bool-cases (valid_binding value)) [
      | inr bad ↦ let clash = rw (bad, binding_matches) at e in cc
      | inl good ↦
          elim (Result-cases (new_tool_approval_binding digest key run_id request arguments)) [
            | inl (expected, made) ↦
                let same = rw made at (rw (good, binding_matches) at e) in
                made ∙ ap (λ v. ok v) (sym ((eq_iff value expected).0 same))
            | inr (x, failed) ↦ let clash = rw failed at (rw (good, binding_matches) at e) in cc
          ]
    ]

-- An approval that was spent on this operation: an approved gate of the run, bound to the operation,
-- whose binding was consumed in the store that other callers had left by then; `after` is the store in
-- which it is spent.
pub record Approval (host : RouteHost) (key : List ℕ) (run_id : String) (request : Request)
    (arguments : List ℕ) (s : Store) (now : Time) : Type 0 where
  pub run : Run
  pub gate : ApprovalGate
  pub recorded : Run
  pub held : find run_id s.runs ≡ some run
  pub scope : run_in_scope run request ≡ true
  pub first : bound_gate host key run_id request arguments run.approvals ≡ some gate
  pub approved : is_approved gate.status ≡ true
  pub bound :
      new_tool_approval_binding host.digest key run_id request arguments
      ≡ ok gate.operation_binding.value
  pub after : Store
  pub spent :
      Store.consume_approval_binding host.runs run_id gate.id
        (route_audit_message host "Allowed" request)
        (meanwhile host Pause.spending s)
        now
      ≡ (after, ok recorded)

module _ (host : RouteHost) (key : List ℕ) (run_id : String) (request : Request)
    (arguments : List ℕ) (s : Store) (now : Time) where
  -- An approval was spent on the operation, and the store is the one in which it is spent.
  abbrev pub SpentIn : Store → Type 0
  SpentIn t = (approval : Approval host key run_id request arguments s now) × (approval.after ≡ t)

  lift_pending-ok :
      (r : Store × Result Error Run) {t : Store} {u : Run}
      → lift_pending r ≡ (t, ok u)
      → r ≡ (t, ok u)
  lift_pending-ok (s', ok run) e = cc
  lift_pending-ok (s', err Error.approval_pending) e = cc
  lift_pending-ok (s', err _) e = cc

  recorded-ok :
      (r : Store × Result RouteError Run) {t : Store} {u : Run}
      → recorded r ≡ (t, ok (some u))
      → r ≡ (t, ok u)
  recorded-ok (s', ok run) e = cc
  recorded-ok (s', err x) e = cc

  spend_gate-some :
      (run : Run) {t : Store} {u : Run}
      → spend_gate host key run_id request arguments run s now ≡ (t, ok (some u))
      → (gate : ApprovalGate) × (bound_gate host key run_id request arguments run.approvals
          ≡ some gate)
        × (Store.consume_approval_binding host.runs run_id gate.id
              (route_audit_message host "Allowed" request)
              (meanwhile host Pause.spending s)
              now
            ≡ (t, ok u))
  unfolding spend_gate
  spend_gate-some run {t} {u} e =
      elim (Option-cases (bound_gate host key run_id request arguments run.approvals)) [
        | inl none_bound ↦ let clash = rw (none_bound, spend_gate) at e in cc
        | inr (gate, first) ↦
            (gate, first, lift_pending-ok _ (recorded-ok _ (rw (first, spend_gate) at e)))
      ]

  approve_run-some :
      {t : Store} {u : Run}
      → approve_run host key run_id request arguments s now ≡ (t, ok (some u))
      → (approval : Approval host key run_id request arguments s now) × (approval.after ≡ t)
  unfolding approve_run
  approve_run-some {t} {u} e = elim (Option-cases (find run_id s.runs)) [
    | inl missing ↦ let clash = rw (missing, approve_run) at e in cc
    | inr (run, held) ↦ elim (Bool-cases (run_in_scope run request)) [
      | inr out ↦ let clash = rw out at (rw (held, approve_run) at e) in cc
      | inl scope ↦
          let (gate, first, spent) =
            spend_gate-some run (rw scope at (rw (held, approve_run) at e)) in
          let (approved, matches) =
            bound_gate-some host key run_id request arguments run.approvals first in
          (
            record {
              run = run;
              gate = gate;
              recorded = u;
              held = held;
              scope = scope;
              first = first;
              approved = approved;
              bound =
                  binding_matches-is host.digest gate.operation_binding.value key run_id request
                    arguments matches;
              after = t;
              spent = spent;
            },
            refl,
          )
    ]
  ]

  approve_bound-some :
      (made : Result BindingError String) {t : Store} {u : Run}
      → approve_bound host key run_id request arguments s now made ≡ (t, ok (some u))
      → approve_run host key run_id request arguments s now ≡ (t, ok (some u))
  unfolding approve_bound
  approve_bound-some (ok value) e = e
  approve_bound-some (err x) e = cc

  -- A recorded approval was an approved gate of the run, bound to the operation, and it was spent.
  record_approved-some :
      {t : Store} {u : Run}
      → record_approved_tool_call host key run_id request arguments s now ≡ (t, ok (some u))
      → (approval : Approval host key run_id request arguments s now) × (approval.after ≡ t)
  unfolding record_approved_tool_call
  record_approved-some e = elim (Option-cases (validate_run_id run_id)) [
    | inr (x, bad) ↦ let clash = rw (bad, record_approved_tool_call) at e in cc
    | inl good ↦ elim (Bool-cases (valid_request request)) [
      | inr bad ↦ let clash = rw bad at (rw (good, record_approved_tool_call) at e) in cc
      | inl asked ↦
          approve_run-some
            (approve_bound-some _ (rw asked at (rw (good, record_approved_tool_call) at e)))
    ]
  ]

  with_decision-ok :
      (decision : Decision) (r : Store × Result RouteError Run) {t : Store} {route : RouteResult}
      → with_decision decision r ≡ (t, ok route)
      → route.decision ≡ decision
  with_decision-ok decision (s', ok run) e = cc
  with_decision-ok decision (s', err x) e = cc

  route_unapproved-allowed :
      (authorizer : Authorizer) (decision : Decision) (r : Store × Result RouteError (Option Run))
      {t : Store} {route : RouteResult}
      → route_unapproved host authorizer key run_id request arguments decision now r ≡ (t, ok route)
      → is_allowed route.decision.status ≡ true
      → (is_allowed decision.status ≡ true) ⊎ ((u : Run) × (r ≡ (t, ok (some u))))
  unfolding route_unapproved
  route_unapproved-allowed authorizer decision (s', err x) e allows = cc
  route_unapproved-allowed authorizer decision (s', ok none) e allows = inl (
      rw
        (with_decision-ok decision
          (record_bound_approval host key run_id request arguments decision
            (meanwhile host Pause.asking s') now)
          e)
        at allows)
  route_unapproved-allowed authorizer decision (s', ok (some u)) e allows = inr (u, cc)

  -- why a routed call is allowed
  route_decision-allowed :
      (authorizer : Authorizer) (decision : Decision) {t : Store} {route : RouteResult}
      → route_decision host authorizer key run_id request arguments decision s now ≡ (t, ok route)
      → is_allowed route.decision.status ≡ true
      → (is_allowed decision.status ≡ true) ⊎ SpentIn t
  unfolding route_decision
  route_decision-allowed authorizer decision {t} {route} e allows =
      elim (Bool-cases (is_approval_required decision.status)) [
        | inr direct ↦ inl (
            rw
              (with_decision-ok decision
                (record_outcome host run_id request decision no_binding s now)
                (rw (direct, route_decision) at e))
              at allows)
        | inl asks ↦
            elim (route_unapproved-allowed authorizer decision
              (record_approved_tool_call host key run_id request arguments s now)
              (rw (asks, route_decision) at e) allows) [
                | inl permitted ↦ inl permitted
                | inr (u, done) ↦ inr (record_approved-some done)
              ]
      ]

  route_bound-ok :
      (authorizer : Authorizer) (made : Result BindingError String) {t : Store}
      {route : RouteResult}
      → route_bound host authorizer key run_id request arguments s now made ≡ (t, ok route)
      → route_decision host authorizer key run_id request arguments
          (authorize authorizer request)
          s
          now
        ≡ (t, ok route)
  unfolding route_bound
  route_bound-ok authorizer (ok value) e = e
  route_bound-ok authorizer (err x) e = cc

  -- A routed call is allowed by the outcome for the request, or by an approval that is spent.
  pub route_tool_call-allowed :
      (authorizer : Authorizer) {t : Store} {route : RouteResult}
      → route_tool_call host authorizer key run_id request arguments s now ≡ (t, ok route)
      → is_allowed route.decision.status ≡ true
      → Permit authorizer request ⊎ SpentIn t
  unfolding route_tool_call
  route_tool_call-allowed authorizer e allows = elim (Option-cases (validate_run_id run_id)) [
    | inr (x, bad) ↦ let clash = rw (bad, route_tool_call) at e in cc
    | inl good ↦ elim (Bool-cases (valid_request request)) [
      | inr bad ↦ let clash = rw bad at (rw (good, route_tool_call) at e) in cc
      | inl asked ↦
          elim (route_decision-allowed authorizer (authorize authorizer request)
            (route_bound-ok authorizer _ (rw asked at (rw (good, route_tool_call) at e))) allows) [
              | inl permitted ↦ inl (allowed-Permit authorizer request permitted)
              | inr approval ↦ inr approval
            ]
    ]
  ]
