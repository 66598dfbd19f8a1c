-- ===== src/Plans/Classify/Summary.antt =====
-- `Classify`, `ClassifyFullPlan` and `UnknownClassification` of internal/plan/classifier.go, and the
-- choices of internal/api/plan_classification.go.
use ia_cstudio.Prelude.{
  ◌+◌, String, Bool, true, false, not, ◌&&◌, ◌||◌, List, [], ◌∷◌, Option, none, some, if◌then◌else◌,
  ◌==◌, ltb, length, map, Result, ok, err,
}
use ia_cstudio.Text.Trim.{trim_space, contains}
use ia_cstudio.Plans.Change.{Value, ResourceChange, PlanResult}
use ia_cstudio.Plans.Parse.{TfPlanLine, TfFullResourceChange, parse_full_plan, parse_stream_output}
use ia_cstudio.Plans.Classify.{
  RiskLevel, ClassifiedChange, ClassificationSummary, Words, safe, risky, destructive, unknown,
  classify_change,
}
use ia_cstudio.Plans.Classify.Markdown.{format_summary_text, format_classification_markdown}

pub record ClassificationResult : Type 0 where
  pub summary : ClassificationSummary
  pub changes : List ClassifiedChange
  pub markdown : String

unfoldable pub count_risk : ClassificationSummary → RiskLevel → ClassificationSummary
count_risk s safe = record s { safe = s.safe + 1 }
count_risk s risky = record s { risky = s.risky + 1 }
count_risk s destructive = record s { destructive = s.destructive + 1 }
count_risk s unknown = record s { unknown = s.unknown + 1 }

unfoldable pub count_risks : ClassificationSummary → List ClassifiedChange → ClassificationSummary
unfolding count_risk
count_risks s [] = s
count_risks s (c ∷ cs) = count_risks (count_risk s c.risk) cs

-- the flag that the apply gate reads
unfoldable pub with_acknowledgment : ClassificationSummary → ClassificationSummary
with_acknowledgment s = record s {
  requires_acknowledgment = ltb 0 s.risky || ltb 0 s.destructive || ltb 0 s.unknown;
}

unfoldable pub summary_of : List ClassifiedChange → ClassificationSummary
unfolding count_risks with_acknowledgment
summary_of classified =
    let counted = with_acknowledgment (
      count_risks
        (record {
          safe = 0;
          risky = 0;
          destructive = 0;
          unknown = 0;
          total = length classified;
          requires_acknowledgment = false;
          text = "";
        })
        classified) in
    record counted { text = format_summary_text counted }

unfoldable pub unknown_classification : String → ClassificationResult
unknown_classification reason =
    let said = if trim_space reason == "" then "plan could not be classified" else reason in
    let summary : ClassificationSummary = record {
      safe = 0;
      risky = 0;
      destructive = 0;
      unknown = 1;
      total = 1;
      requires_acknowledgment = true;
      text = "Semantic plan: 1 unknown change";
    } in
    let changes : List ClassifiedChange =
      record {
        address = "(plan)";
        resource_type = "";
        name = "";
        provider = "";
        action = "unknown";
        risk = RiskLevel.unknown;
        categories = "unknown" ∷ [];
        reason = said;
        reviewer_focus = "Inspect the saved plan output before applying." ∷ [];
        field_changes = [];
      }
      ∷ [] in
    record {
      summary = summary;
      changes = changes;
      markdown = format_classification_markdown summary changes;
    }

-- no result: a nil pointer
unfoldable pub classify : Words → Option PlanResult → ClassificationResult
unfolding summary_of unknown_classification
classify words none = unknown_classification "no plan result was available"
classify words (some result) =
    let classified = map (classify_change words) result.changes in
    let summary = summary_of classified in
    record {
      summary = summary;
      changes = classified;
      markdown = format_classification_markdown summary classified;
    }

-- the parameters of the parser
pub record Decoder : Type 0 where
  pub line : String → Option TfPlanLine
  pub full : String → Result String (List TfFullResourceChange)
  pub sprint : Value → String

unfoldable pub classify_full_plan : Words → Decoder → String → Result String ClassificationResult
unfolding classify
classify_full_plan words decoder json_output =
    elim (parse_full_plan decoder.sprint decoder.full json_output) [
      | err e ↦ err e
      | ok parsed ↦ ok (classify words (some parsed))
    ]

-- a classification that failed blocks
abbrev pub or_unknown : String → Result String ClassificationResult → ClassificationResult
unfolding unknown_classification
or_unknown reason (ok result) = result
or_unknown reason (err e) = unknown_classification reason

-- the saved plan, if its file can be read
unfoldable pub classify_saved_plan : Words → Decoder → Option String → ClassificationResult
unfolding classify_full_plan unknown_classification
classify_saved_plan words decoder none =
    unknown_classification "saved plan JSON is unavailable; run plan before applying"
classify_saved_plan words decoder (some json_output) =
    or_unknown "saved plan JSON could not be parsed; rerun plan before applying"
      (classify_full_plan words decoder json_output)

abbrev pub has_no_changes : List ResourceChange → Bool
has_no_changes [] = true
has_no_changes (c ∷ cs) = false

-- `classifyPlanRequest`: what was posted, as JSON or as text, or else the saved plan
unfoldable pub classify_plan_request :
    Words → Decoder → (plan_json plan_text : String) → Option String → ClassificationResult
unfolding classify_saved_plan
classify_plan_request words decoder plan_json plan_text saved =
    let parsed = parse_stream_output decoder.line plan_text in
    if not (plan_json == "")
    then or_unknown "posted plan JSON could not be parsed"
        (classify_full_plan words decoder plan_json)
    else if not (trim_space plan_text == "")
    then (if has_no_changes parsed.changes && contains plan_text "to add"
        then unknown_classification "posted plan text lacks machine-readable resource changes"
        else classify words (some parsed))
    else classify_saved_plan words decoder saved
