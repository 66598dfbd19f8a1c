-- ===== src/Routing/ScopedTests.antt =====
-- The policy store of internal/agentrouting/policy_store.go on concrete policies.
use ia_cstudio.Prelude.{◌≡◌, refl, String, false, [], ◌∷◌, none, Result, ok, err, if◌then◌else◌}
use ia_cstudio.Text.Trim.{trim_space}
use ia_cstudio.Runs.Types.{Mode, mode_valid}
use ia_cstudio.Airlock.Types.{ToolRisk, same_risk}
use ia_cstudio.Routing.Policy.{Effect, Policy, valid_field, valid_policy, valid_risk, valid_rule}
use ia_cstudio.Routing.Authorizer.{
  PolicyScope, PolicyStore, Policies, valid_scope, same_scope, save, get_policy,
}
use ia_cstudio.Routing.Scoped.{save-get_policy}

abbrev scope : PolicyScope
scope = record { project = "demo"; provider_id = "aws" }

abbrev other : PolicyScope
other = record { project = "demo"; provider_id = "gcp" }

abbrev policy : Policy
policy =
    record {
      project = "demo";
      provider_id = "aws";
      connection_id = "c1";
      server_id = "s1";
      tool_name = "get";
      modes = Mode.read_only ∷ [];
      risk = ToolRisk.read_only;
      effect = Effect.allow;
      approval_required = false;
    }
    ∷ []

abbrev empty : PolicyStore
empty = record { policies = []; path = "" }

abbrev persist : String → PolicyScope → Policy → Result String Policies
persist _ _ _ = err "no file"

save_test : (save persist scope policy empty).1 ≡ none
unfolding save valid_scope valid_field trim_space valid_policy valid_rule mode_valid valid_risk
    same_risk
save_test = refl

save-get_policy_example :
    get_policy (save persist scope policy empty).0 other
    ≡ (if same_scope scope other then ok policy else get_policy empty other)
save-get_policy_example = save-get_policy persist scope policy empty refl other save_test
