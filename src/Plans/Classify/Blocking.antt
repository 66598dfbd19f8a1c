-- ===== src/Plans/Classify/Blocking.antt =====
-- What passes without an acknowledgement: `classifyPlanRequest` of internal/api/plan_classification.go.
use ia_cstudio.Prelude.{
  ◌⊎◌, Bool-cases, ok, ◌≡◌, refl, sym, ◌∙◌, String, true, false, ◌&&◌, Option, none, some, arith,
  inl, inr, Result-cases, all, ◌==◌,
}
use ia_cstudio.Text.Trim.{trim_space, contains}
use ia_cstudio.Plans.Change.{PlanResult}
use ia_cstudio.Plans.Parse.{parse_full_plan, parse_stream_output}
use ia_cstudio.Plans.Classify.{Words}
use ia_cstudio.Plans.Classify.Risk.{harmless}
use ia_cstudio.Plans.Classify.Summary.{
  ClassificationResult, Decoder, unknown_classification, classify, classify_full_plan, or_unknown,
  classify_saved_plan, classify_plan_request, has_no_changes,
}
use ia_cstudio.Plans.Classify.Acknowledged.{acknowledged}

-- The plan that a request or the saved file gives: what the posted JSON is decoded to; without it what
-- is read of the posted text, unless no change is read of it and it says "to add"; without either what
-- the saved plan is decoded to.
pub IsPlanOf : Decoder → String → String → Option String → PlanResult → Type 0
IsPlanOf decoder plan_json plan_text saved r =
    ((plan_json == "" ≡ false) × (parse_full_plan decoder.sprint decoder.full plan_json ≡ ok r))
    ⊎ (((plan_json == "" ≡ true)
          × (trim_space plan_text == "" ≡ false)
          × (r ≡ parse_stream_output decoder.line plan_text)
          × ((has_no_changes r.changes && contains plan_text "to add") ≡ false))
        ⊎ ((plan_json == "" ≡ true)
            × (trim_space plan_text == "" ≡ true)
            × ((json : String) × (saved ≡ some json)
                × (parse_full_plan decoder.sprint decoder.full json ≡ ok r))))

-- The result is the classification of a plan of the kind given that changes nothing but metadata.
abbrev pub IsHarmless : Words → (PlanResult → Type 0) → ClassificationResult → Type 0
IsHarmless words IsPlan c =
    (r : PlanResult) × IsPlan r × (c ≡ classify words (some r)) × (all harmless r.changes ≡ true)

module _ (words : Words) (IsPlan : PlanResult → Type 0) where
  Passes : ClassificationResult → Type 0
  Passes c = c.summary.requires_acknowledgment ≡ false → IsHarmless words IsPlan c

  unknown-Passes : (reason : String) → Passes (unknown_classification reason)
  unfolding Passes unknown_classification
  unknown-Passes reason e = cc

  parsed-Passes : (r : PlanResult) → IsPlan r → Passes (classify words (some r))
  unfolding Passes
  parsed-Passes r plan e =
      let (_, _, _, asks) = acknowledged words r in (r, plan, refl, ground (arith, sym asks ∙ e))

  full-Passes :
      (decoder : Decoder) (reason json_output : String)
      → ((r : PlanResult)
          → parse_full_plan decoder.sprint decoder.full json_output ≡ ok r
          → IsPlan r)
      → Passes (or_unknown reason (classify_full_plan words decoder json_output))
  unfolding classify_full_plan
  full-Passes decoder reason json_output plan =
      elim (Result-cases (parse_full_plan decoder.sprint decoder.full json_output)) [
        | inl (r, parsed) ↦ rw (parsed, classify_full_plan) (parsed-Passes r (plan r parsed))
        | inr (x, failed) ↦ rw (failed, classify_full_plan) (unknown-Passes reason)
      ]

  saved-Passes :
      (decoder : Decoder) (saved : Option String)
      → ((json : String) (r : PlanResult)
          → saved ≡ some json
          → parse_full_plan decoder.sprint decoder.full json ≡ ok r
          → IsPlan r)
      → Passes (classify_saved_plan words decoder saved)
  unfolding classify_saved_plan
  saved-Passes decoder none plan = unknown-Passes _
  saved-Passes decoder (some json_output) plan =
      full-Passes decoder _ json_output (λ r. plan json_output r refl)

  request-Passes :
      (decoder : Decoder) (plan_json plan_text : String) (saved : Option String)
      → (plan_json == "" ≡ false
          → (r : PlanResult) → parse_full_plan decoder.sprint decoder.full plan_json ≡ ok r
          → IsPlan r)
      → (plan_json == "" ≡ true
          → trim_space plan_text == "" ≡ false
          → (has_no_changes (parse_stream_output decoder.line plan_text).changes
              && contains plan_text "to add")
            ≡ false
          → IsPlan (parse_stream_output decoder.line plan_text))
      → (plan_json == "" ≡ true
          → trim_space plan_text == "" ≡ true
          → (json : String) (r : PlanResult) → saved ≡ some json
          → parse_full_plan decoder.sprint decoder.full json ≡ ok r
          → IsPlan r)
      → Passes (classify_plan_request words decoder plan_json plan_text saved)
  unfolding classify_plan_request
  request-Passes decoder plan_json plan_text saved from_json from_text from_file =
      let parsed = parse_stream_output decoder.line plan_text in
      elim (Bool-cases (plan_json == "")) [
        | inr posted ↦
            rw (posted, classify_plan_request)
              (full-Passes decoder "posted plan JSON could not be parsed" plan_json
                (from_json posted))
        | inl absent ↦ elim (Bool-cases (trim_space plan_text == "")) [
          | inr text ↦
              elim (Bool-cases (has_no_changes parsed.changes && contains plan_text "to add")) [
                | inl unread ↦ rw (absent, text, unread, classify_plan_request) (unknown-Passes _)
                | inr read ↦
                    rw (absent, text, read, classify_plan_request)
                      (parsed-Passes parsed (from_text absent text read))
              ]
          | inl blank ↦
              rw (absent, blank, classify_plan_request)
                (saved-Passes decoder saved (from_file absent blank))
        ]
      ]

-- An answer that requires no acknowledgement is the classification of the plan that was posted or
-- saved, as it was decoded or read, and this plan only has changes that mutate nothing or update
-- metadata. A posted JSON or a saved plan that cannot be decoded, and a saved plan that is missing,
-- give no such answer. A posted text of which no change can be read does, unless it says "to add".
pub request-IsHarmless :
    (words : Words) (decoder : Decoder) (plan_json plan_text : String) (saved : Option String)
    → (classify_plan_request words decoder plan_json plan_text
        saved).summary.requires_acknowledgment
      ≡ false
    → IsHarmless words
        (IsPlanOf decoder plan_json plan_text saved)
        (classify_plan_request words decoder plan_json plan_text saved)
unfolding Passes IsPlanOf
request-IsHarmless words decoder plan_json plan_text saved =
    request-Passes words (IsPlanOf decoder plan_json plan_text saved) decoder plan_json plan_text
      saved (λ posted r e. inl (posted, e))
      (λ absent text read. inr (inl (absent, text, refl, read)))
      (λ absent blank json r is e. inr (inr (absent, blank, (json, is, e))))
