-- ===== src/Plans/Classify.antt =====
-- internal/plan/classifier.go: what a planned change may do, for the reviewer and for the gate.
-- Lower-casing and the verb `%q` are parameters.
pub mod Risk
pub mod Cidr
pub mod Markdown
pub mod Summary
pub mod Acknowledged
pub mod Blocking
mod Tests
use ia_cstudio.Prelude.{
  ℕ, ◌+◌, String, ◌<>◌, Bool, true, false, not, ◌&&◌, ◌||◌, List, [], ◌∷◌, ◌++◌, Option, none, some,
  if◌then◌else◌, ◌==◌, eqb, ltb, length, map, all,
}
use ia_cstudio.Text.Trim.{trim_space, contains, contains_any}
use ia_cstudio.Text.Split.{split_once, join}
use ia_cstudio.Text.Numbered.{decimal}
use ia_cstudio.Plans.Change.{
  Value, Items, Fields, null, bool, number, text, array, object, nil, item, end, field, FieldChange,
  ResourceChange, PlanResult,
}

pub data RiskLevel : Type 0 where
  safe risky destructive unknown : RiskLevel

pub record ClassifiedChange : Type 0 where
  pub address : String
  pub resource_type : String
  pub name : String
  pub provider : String
  pub action : String
  pub risk : RiskLevel
  pub categories : List String
  pub reason : String
  pub reviewer_focus : List String
  pub field_changes : List FieldChange

pub record ClassificationSummary : Type 0 where
  pub safe : ℕ
  pub risky : ℕ
  pub destructive : ℕ
  pub unknown : ℕ
  pub total : ℕ
  pub requires_acknowledgment : Bool
  pub text : String

-- what the code finds out about a change
pub record Verdict : Type 0 where
  pub risk : RiskLevel
  pub categories : List String
  pub reason : String
  pub reviewer_focus : List String

pub record Words : Type 0 where
  pub lower : String → String
  pub quote : String → String

-- the part of a path before the first dot
abbrev is_metadata_root : String → Bool
is_metadata_root root =
    root == "tags"
    || root == "tags_all"
    || root == "description"
    || root == "labels"
    || root == "annotations"

abbrev is_nonempty : List FieldChange → Bool
is_nonempty [] = false
is_nonempty (c ∷ cs) = true

unfoldable pub is_metadata_only_update : List FieldChange → Bool
is_metadata_only_update changes =
    is_nonempty changes
    && all (λ (c : FieldChange). is_metadata_root (split_once b'.' c.path).0) changes

unfoldable pub is_iam_resource : Words → String → Bool
is_iam_resource words resource_type =
    contains_any (words.lower resource_type)
      ("_iam_" ∷ "iam" ∷ "role_assignment" ∷ "role_binding" ∷ "service_account" ∷ [])

unfoldable pub is_network_exposure_resource : Words → String → Bool
is_network_exposure_resource words resource_type = contains_any (words.lower resource_type) (
    "security_group" ∷ "firewall" ∷ "network_acl" ∷ "network_security_group" ∷ "route" ∷ "listener"
    ∷ "load_balancer" ∷ "target_group" ∷ "vpc_peering" ∷ "internet_gateway" ∷ [])

unfoldable pub is_stateful_resource : Words → String → Bool
is_stateful_resource words resource_type = contains_any (words.lower resource_type) (
    "db_instance" ∷ "db_cluster" ∷ "rds" ∷ "dynamodb" ∷ "s3_bucket" ∷ "storage_bucket"
    ∷ "sql_database" ∷ "postgresql" ∷ "mysql" ∷ "disk" ∷ "volume" ∷ "snapshot" ∷ "redis"
    ∷ "elasticache" ∷ "backup" ∷ [])

-- `containsPublicCIDR` on a value, a slice and a map
unfoldable mutual
  pub contains_public_cidr : Value → Bool
  contains_public_cidr null = false
  contains_public_cidr (bool b) = false
  contains_public_cidr (number n) = false
  contains_public_cidr (text s) = s == "0.0.0.0/0" || s == "::/0"
  contains_public_cidr (array items) = items_contain_public_cidr items
  contains_public_cidr (object fields) = fields_contain_public_cidr fields

  pub items_contain_public_cidr : Items → Bool
  items_contain_public_cidr nil = false
  items_contain_public_cidr (item v vs) = contains_public_cidr v || items_contain_public_cidr vs

  pub fields_contain_public_cidr : Fields → Bool
  fields_contain_public_cidr end = false
  fields_contain_public_cidr (field k v fs) =
      contains_public_cidr v || fields_contain_public_cidr fs

-- `containsPublicCIDR(change.After)`; a nil map has no items
abbrev pub after_public : Option Fields → Bool
after_public none = false
after_public (some fields) = contains_public_cidr (object fields)

unfoldable pub action_label : String → String
action_label action =
    if action == "replace"
    then "Replacing"
    else if action == "delete"
    then "Deleting"
    else if action == "create"
    then "Creating"
    else if action == "update"
    then "Updating"
    else "Changing"

unfoldable pub no_mutation : Verdict
no_mutation = record {
  risk = RiskLevel.safe;
  categories = "safe_noise" ∷ [];
  reason = "No infrastructure mutation is planned.";
  reviewer_focus =
      "Confirm the plan contains no create, update, replace, or delete action for this resource."
      ∷ [];
}

unfoldable pub metadata_only : Verdict
metadata_only = record {
  risk = RiskLevel.safe;
  categories = "safe_noise" ∷ [];
  reason = "Only metadata fields such as tags or description changed.";
  reviewer_focus = "Confirm tag and description values match the owning team's conventions." ∷ [];
}

unfoldable pub removal : Words → String → String → Verdict
unfolding action_label
removal words action resource_type =
    if is_stateful_resource words resource_type
    then record {
      risk = RiskLevel.destructive;
      categories = "destructive" ∷ "data" ∷ [];
      reason =
          action_label action <> " " <> resource_type <> " can remove or recreate stateful data.";
      reviewer_focus =
          "Verify backups, snapshots, retention policy, and restore steps before approving." ∷ [];
    }
    else record {
      risk = RiskLevel.destructive;
      categories = "destructive" ∷ [];
      reason =
          action_label action <> " " <> resource_type <> " can remove existing infrastructure.";
      reviewer_focus =
          "Confirm the resource is intentionally removed and downstream dependencies are understood."
          ∷ [];
    }

unfoldable pub unrecognized : Words → String → Verdict
unrecognized words action = record {
  risk = RiskLevel.unknown;
  categories = "unknown" ∷ [];
  reason = "Action " <> words.quote action <> " is not recognized by the semantic classifier.";
  reviewer_focus = "Inspect the raw plan and provider documentation before approving." ∷ [];
}

-- the second `switch`: the rules on the resource
unfoldable pub resource_verdict : Words → String → Option Fields → Verdict
resource_verdict words resource_type after =
    if is_iam_resource words resource_type
    then record {
      risk = RiskLevel.risky;
      categories = "identity" ∷ [];
      reason = "IAM changes can expand permissions or trust relationships.";
      reviewer_focus =
          "Review newly granted actions, principals, conditions, and assume-role paths." ∷ [];
    }
    else if is_network_exposure_resource words resource_type || after_public after
    then (if after_public after
        then record {
          risk = RiskLevel.risky;
          categories = "network_exposure" ∷ [];
          reason = "The planned network configuration includes public CIDR exposure.";
          reviewer_focus =
              "Check 0.0.0.0/0 or ::/0 rules, ports, protocols, and source restrictions." ∷ [];
        }
        else record {
          risk = RiskLevel.risky;
          categories = "network_exposure" ∷ [];
          reason = "Network boundary changes can alter service reachability.";
          reviewer_focus =
              "Review ingress, egress, route, firewall, listener, and peering changes." ∷ [];
        })
    else if is_stateful_resource words resource_type
    then record {
      risk = RiskLevel.risky;
      categories = "data" ∷ "cost_sensitive" ∷ [];
      reason = "Stateful data resources can affect durability, availability, or spend.";
      reviewer_focus =
          "Review storage class, deletion protection, encryption, retention, and size changes."
          ∷ [];
    }
    else record {
      risk = RiskLevel.unknown;
      categories = "unknown" ∷ [];
      reason = "This change does not match a known safe pattern.";
      reviewer_focus =
          "Inspect provider defaults, cost impact, and dependency changes before applying." ∷ [];
    }

-- the first `switch`, on the action
unfoldable pub verdict : Words → ResourceChange → Verdict
unfolding no_mutation removal metadata_only resource_verdict unrecognized
verdict words change =
    if change.action == "no-op" || change.action == "read"
    then no_mutation
    else if change.action == "delete" || change.action == "replace"
    then removal words change.action change.resource_type
    else if change.action == "update"
    then (if is_metadata_only_update change.field_changes
        then metadata_only
        else resource_verdict words change.resource_type change.after)
    else if change.action == "create"
    then resource_verdict words change.resource_type change.after
    else unrecognized words change.action

unfoldable pub classify_change : Words → ResourceChange → ClassifiedChange
unfolding verdict
classify_change words change = record {
  address = change.address;
  resource_type = change.resource_type;
  name = change.name;
  provider = change.provider;
  action = change.action;
  risk = (verdict words change).risk;
  categories = (verdict words change).categories;
  reason = (verdict words change).reason;
  reviewer_focus = (verdict words change).reviewer_focus;
  field_changes = change.field_changes;
}
