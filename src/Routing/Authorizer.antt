-- ===== src/Routing/Authorizer.antt =====
-- internal/agentrouting/authorizer.go and policy_store.go: the policies by scope, and the outcome
-- against the firewall's live decision on the tool. The evaluator and the file that keeps the
-- policies are parameters.
use ia_cstudio.Prelude.{
  String, Bool, not, ◌&&◌, List, [], ◌∷◌, Option, none, some, if◌then◌else◌, ◌==◌, Result, ok, err,
  all,
}
use ia_cstudio.Airlock.Types.{ToolInventoryEntry, same_risk}
use ia_cstudio.Airlock.Evaluation.{ToolError}
use ia_cstudio.Routing.Policy.{
  Request, Rule, Policy, is_deny, valid_field, valid_policy, match_validated,
}
use ia_cstudio.Routing.Outcome.{Decision, DecisionReason}
use ia_cstudio.Routing.Decision.{denied, preflight, evaluate_matched}

pub record PolicyScope : Type 0 where
  pub project : String
  pub provider_id : String

unfoldable pub valid_scope : PolicyScope → Bool
valid_scope scope = valid_field scope.project && valid_field scope.provider_id

-- `==` on scopes, the keys of the store
unfoldable pub same_scope : PolicyScope → PolicyScope → Bool
same_scope a b = a.project == b.project && a.provider_id == b.provider_id

abbrev pub Policies : Type 0
Policies = List (PolicyScope × Policy)

pub record PolicyStore : Type 0 where
  pub policies : Policies
  pub path : String

pub data PolicyError : Type 0 where
  invalid_scope invalid_policy scope_mismatch policy_not_found : PolicyError
  persist_failed : String → PolicyError

-- `s.policies[scope] = snapshot`
unfoldable pub set_policy : Policies → PolicyScope → Policy → Policies
set_policy [] scope policy = (scope, policy) ∷ []
set_policy ((k, old) ∷ rest) scope policy =
    let later = set_policy rest scope policy in
    if same_scope k scope then (scope, policy) ∷ rest else (k, old) ∷ later

unfoldable pub find_policy : Policies → PolicyScope → Option Policy
find_policy [] scope = none
find_policy ((k, policy) ∷ rest) scope =
    if same_scope k scope then some policy else find_policy rest scope

abbrev pub in_scope : PolicyScope → Rule → Bool
in_scope scope rule = rule.project == scope.project && rule.provider_id == scope.provider_id

-- `Save`; `persist` stands for `persistPolicyStoreLocked`.
unfoldable pub save :
    (String → PolicyScope → Policy → Result String Policies)
    → PolicyScope
    → Policy
    → PolicyStore
    → PolicyStore × Option PolicyError
save persist scope policy s =
    if not (valid_scope scope)
    then (s, some PolicyError.invalid_scope)
    else if not (valid_policy policy)
    then (s, some PolicyError.invalid_policy)
    else if not (all (in_scope scope) policy)
    then (s, some PolicyError.scope_mismatch)
    else if s.path == ""
    then (record s { policies = set_policy s.policies scope policy }, none)
    else elim (persist s.path scope policy) [
      | err e ↦ (s, some (PolicyError.persist_failed e))
      | ok persisted ↦ (record s { policies = persisted }, none)
    ]

unfoldable pub get_policy : PolicyStore → PolicyScope → Result PolicyError Policy
get_policy s scope =
    if not (valid_scope scope)
    then err PolicyError.invalid_scope
    else elim (find_policy s.policies scope) [
      | none ↦ err PolicyError.policy_not_found
      | some policy ↦ ok policy
    ]

-- where an authorizer has its policy: one snapshot, or a store
pub data Source : Type 0 where
  snapshot : Policy → Source
  stored : PolicyStore → Source

abbrev pub Evaluator : Type 0
Evaluator = String → String → String → Result ToolError ToolInventoryEntry

-- An authorizer; `none` for a nil evaluator.
pub record Authorizer : Type 0 where
  pub source : Source
  pub evaluator : Option Evaluator

-- `NewAuthorizer`, with an evaluator
unfoldable pub new_authorizer : Policy → Evaluator → Result PolicyError Authorizer
new_authorizer policy evaluator =
    if valid_policy policy
    then ok (record { source = snapshot policy; evaluator = some evaluator })
    else err PolicyError.invalid_policy

unfoldable pub policy_for : Source → Request → Result PolicyError Policy
policy_for (snapshot policy) request = ok policy
policy_for (stored policies) request =
    get_policy policies (record { project = request.project; provider_id = request.provider_id })

-- the checks of the firewall's entry
unfoldable pub authorize_entry : Rule → Request → ToolInventoryEntry → Decision
authorize_entry rule request e =
    if not (e.server_id == request.server_id)
    then denied DecisionReason.airlock_server_mismatch
    else if not (e.name == request.tool_name)
    then denied DecisionReason.airlock_tool_mismatch
    else if not (same_risk e.risk e.decision.risk)
    then denied DecisionReason.invalid_airlock_decision
    else evaluate_matched rule request e.decision

unfoldable pub authorize_rule : Evaluator → Rule → Request → Decision
unfolding authorize_entry
authorize_rule evaluator rule request =
    if is_deny rule.effect
    then denied DecisionReason.policy_denied
    else elim (evaluator request.server_id request.project request.tool_name) [
      | err e ↦ denied DecisionReason.airlock_unavailable
      | ok e ↦ authorize_entry rule request e
    ]

unfoldable pub authorize_policy : Evaluator → Policy → Request → Decision
unfolding authorize_rule
authorize_policy evaluator policy request =
    if not (valid_policy policy)
    then denied DecisionReason.invalid_policy
    else elim (match_validated policy request) [
      | none ↦ denied DecisionReason.no_matching_rule
      | some rule ↦ authorize_rule evaluator rule request
    ]

unfoldable pub authorize : Authorizer → Request → Decision
unfolding authorize_policy policy_for
authorize a request = elim (preflight request) [
  | some decision ↦ decision
  | none ↦ elim a.evaluator [
    | none ↦ denied DecisionReason.airlock_unavailable
    | some evaluator ↦ elim (policy_for a.source request) [
      | err e ↦ denied DecisionReason.policy_unavailable
      | ok policy ↦ authorize_policy evaluator policy request
    ]
  ]
]
