-- ===== src/Plans/Classify/Tests.antt =====
-- A plan of three changes.
use ia_cstudio.Prelude.{
  ◌≡◌, ◌↔◌, refl, String, true, not, List, [], ◌∷◌, Option, none, some, ok, err, inl, all, length,
  if◌then◌else◌, ◌==◌,
}
use ia_cstudio.Plans.Change.{
  Fields, text, array, object, nil, item, end, field, ResourceChange, PlanResult,
}
use ia_cstudio.Plans.Parse.{
  TfFullResourceChange, parse_full_plan, diff_maps, field_of, is_destructive,
}
use ia_cstudio.Plans.Parse.Diff.{reports, values_differ, reports-diff_maps}
use ia_cstudio.Plans.Counts
use ia_cstudio.Plans.Counts.{Summarizes, parsed-Summarizes}
use ia_cstudio.Plans.Classify.{
  Words, RiskLevel, safe, risky, destructive, unknown, verdict, contains_public_cidr,
}
use ia_cstudio.Plans.Classify.Risk.{is_safe, is_destructive_risk, harmless, verdict_risk}
use ia_cstudio.Plans.Classify.Cidr.{IsPublic, contains_public_cidr_iff}
use ia_cstudio.Plans.Classify.Summary.{Decoder, classify, classify_plan_request}
use ia_cstudio.Plans.Classify.Acknowledged.{sum_of, acknowledged}
use ia_cstudio.Plans.Classify.Blocking.{IsPlanOf, IsHarmless, request-IsHarmless}

-- lower-casing that leaves lower case as it is
abbrev words : Words
words = record { lower = λ s. s; quote = λ s. s }

abbrev world : Fields
world = field "cidr_blocks" (array (item (text "0.0.0.0/0") nil)) end

abbrev closed : Fields
closed = field "cidr_blocks" (array nil) end

abbrev change : String → List String → Option Fields → Option Fields → TfFullResourceChange
change kind actions before after = record {
  address = "a";
  resource_type = kind;
  name = "n";
  provider = "aws";
  actions = actions;
  before = before;
  after = after;
}

abbrev decoded : List TfFullResourceChange
decoded =
    change "aws_db_instance" ("delete" ∷ "create" ∷ []) none none
    ∷ change "aws_thing" ("create" ∷ []) none (some world)
    ∷ change "aws_thing" ("no-op" ∷ []) none none
    ∷ []

-- a decoder that knows one text
abbrev decoder : Decoder
decoder = record {
  line = λ s. none;
  full = λ s. if s == "{}" then ok decoded else err "bad";
  sprint = λ v. "v";
}

abbrev replaced : ResourceChange
replaced = record {
  address = "a";
  resource_type = "aws_db_instance";
  name = "n";
  provider = "aws";
  action = "replace";
  action_reason = "";
  before = none;
  after = none;
  field_changes = [];
}

abbrev parsed : PlanResult
parsed = record {
  changes = replaced ∷ [];
  summary = record { add = 1; change = 0; destroy = 1; imported = 0; no_op = 0; total = 2 };
  warnings = [];
  errors = [];
  has_changes = true;
  requires_approval = true;
}

parsed-Summarizes_example : Summarizes parsed
unfolding parse_full_plan
parsed-Summarizes_example =
    parsed-Summarizes (λ v. "v")
      (λ s. ok (change "aws_db_instance" ("delete" ∷ "create" ∷ []) none none ∷ [])) (λ s. none)
      "{}" parsed (inl refl)

text_test :
    (classify_plan_request words decoder "{}" "" none).summary.text
    ≡ "Semantic plan: 1 safe · 1 risky · 1 destructive"
unfolding classify_plan_request parse_full_plan
    ia_cstudio.Plans.Classify.Markdown.format_summary_text ia_cstudio.Plans.Classify.classify_change
    ia_cstudio.Plans.Classify.is_iam_resource ia_cstudio.Text.Trim.contains_any
    ia_cstudio.Text.Trim.contains ia_cstudio.Plans.Classify.is_network_exposure_resource
    contains_public_cidr ia_cstudio.Plans.Classify.is_stateful_resource ia_cstudio.Text.Split.join
    ia_cstudio.Text.Numbered.decimal
text_test = refl

bad_test : (classify_plan_request words decoder "{" "" none).summary.requires_acknowledgment ≡ true
unfolding classify_plan_request parse_full_plan
bad_test = refl

verdict_risk_example :
    (is_safe (verdict words replaced).risk ≡ harmless replaced)
    × (is_destructive_risk (verdict words replaced).risk ≡ is_destructive replaced.action)
verdict_risk_example = verdict_risk words replaced

reports-diff_maps_example :
    reports (diff_maps (λ v. "v") "" world closed) "cidr_blocks"
    ≡ values_differ (λ v. "v") (field_of world "cidr_blocks") (field_of closed "cidr_blocks")
unfolding field_of
reports-diff_maps_example = reports-diff_maps (λ v. "v") world closed "cidr_blocks" (refl, tt)

contains_public_cidr_iff_example :
    (contains_public_cidr (object world) ≡ true) ↔ IsPublic (object world)
contains_public_cidr_iff_example = contains_public_cidr_iff (object world)

acknowledged_example :
    (sum_of (classify words (some parsed)).summary ≡ (classify words (some parsed)).summary.total)
    × ((classify words (some parsed)).summary.total ≡ length parsed.changes)
    × ((classify words (some parsed)).summary.destructive
        ≡ Counts.number is_destructive parsed.changes)
    × ((classify words (some parsed)).summary.requires_acknowledgment
        ≡ not (all harmless parsed.changes))
acknowledged_example = acknowledged words parsed

-- a decoder that finds a plan without changes
abbrev idle : Decoder
idle = record decoder { full = λ s. ok [] }

request-IsHarmless_example :
    IsHarmless words (IsPlanOf idle "{}" "" none) (classify_plan_request words idle "{}" "" none)
unfolding classify_plan_request parse_full_plan
request-IsHarmless_example = request-IsHarmless words idle "{}" "" none refl
