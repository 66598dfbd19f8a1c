-- ===== src/Routing/Policy.antt =====
-- internal/agentrouting/policy.go: requests, rules and policies. An error that only says which field
-- is wrong is the test that fails.
use ia_cstudio.Prelude.{
  String, Bool, true, false, not, ◌&&◌, ◌||◌, List, [], ◌∷◌, Option, none, some, if◌then◌else◌,
  ◌==◌, any, all,
}
use ia_cstudio.Text.Trim.{trim_space}
use ia_cstudio.Runs.Types.{Mode, mode_valid}
use ia_cstudio.Airlock.Types.{ToolRisk, same_risk}

pub data Effect : Type 0 where
  allow deny : Effect
  other : String → Effect

pub record Request : Type 0 where
  pub project : String
  pub provider_id : String
  pub connection_id : String
  pub server_id : String
  pub tool_name : String
  pub mode : Mode
  pub risk : ToolRisk

pub record Rule : Type 0 where
  pub project : String
  pub provider_id : String
  pub connection_id : String
  pub server_id : String
  pub tool_name : String
  pub modes : List Mode
  pub risk : ToolRisk
  pub effect : Effect
  pub approval_required : Bool

abbrev pub Policy : Type 0
Policy = List Rule

-- `==` on modes
unfoldable pub same_mode : Mode → Mode → Bool
same_mode Mode.read_only Mode.read_only = true
same_mode Mode.propose_only Mode.propose_only = true
same_mode Mode.approved_execute Mode.approved_execute = true
same_mode (Mode.other a) (Mode.other b) = a == b
same_mode _ _ = false

unfoldable pub valid_risk : ToolRisk → Bool
valid_risk (ToolRisk.other s) = false
valid_risk _ = true

-- `validateRequiredFields` on one field
unfoldable pub valid_field : String → Bool
valid_field value = not (trim_space value == "") && trim_space value == value

unfoldable pub valid_request : Request → Bool
valid_request r =
    valid_field r.project
    && valid_field r.provider_id
    && valid_field r.connection_id
    && valid_field r.server_id
    && valid_field r.tool_name
    && mode_valid r.mode
    && valid_risk r.risk

abbrev is_nonempty : List Mode → Bool
is_nonempty [] = false
is_nonempty (mode ∷ modes) = true

abbrev pub is_allow : Effect → Bool
is_allow Effect.allow = true
is_allow _ = false

abbrev pub is_deny : Effect → Bool
is_deny Effect.deny = true
is_deny _ = false

unfoldable pub valid_rule : Rule → Bool
valid_rule r =
    valid_field r.project
    && valid_field r.provider_id
    && valid_field r.connection_id
    && valid_field r.server_id
    && valid_field r.tool_name
    && is_nonempty r.modes
    && all mode_valid r.modes
    && valid_risk r.risk
    && (is_allow r.effect || is_deny r.effect)
    && not (is_deny r.effect && r.approval_required)
    && not (is_allow r.effect && same_risk r.risk ToolRisk.unknown)
    && not
        (is_allow r.effect && not (same_risk r.risk ToolRisk.read_only) && not r.approval_required)

-- `matchesValidated`
unfoldable pub rule_matches : Rule → Request → Bool
rule_matches rule request =
    rule.project == request.project
    && rule.provider_id == request.provider_id
    && rule.connection_id == request.connection_id
    && rule.server_id == request.server_id
    && rule.tool_name == request.tool_name
    && same_risk rule.risk request.risk
    && any (λ mode. same_mode mode request.mode) rule.modes

-- `Rule.Matches`
unfoldable pub matches : Rule → Request → Bool
matches rule request = valid_rule rule && valid_request request && rule_matches rule request

unfoldable pub valid_policy : Policy → Bool
valid_policy policy = all valid_rule policy

-- `matchValidated`
unfoldable pub match_validated : Policy → Request → Option Rule
match_validated [] request = none
match_validated (rule ∷ rules) request =
    if rule_matches rule request then some rule else match_validated rules request

-- `Policy.Match`
unfoldable pub match_policy : Policy → Request → Option Rule
match_policy policy request =
    if valid_request request && valid_policy policy then match_validated policy request else none
