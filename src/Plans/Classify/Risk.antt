-- ===== src/Plans/Classify/Risk.antt =====
-- The risk that internal/plan/classifier.go assigns to a change.
use ia_cstudio.Prelude.{
  if-both, ◌≡◌, refl, String, Bool, true, false, ◌&&◌, ◌||◌, Option, inl, inr, Bool-cases, ◌==◌,
  eq_iff,
}
use ia_cstudio.Plans.Change.{Fields, ResourceChange}
use ia_cstudio.Plans.Parse.{is_destructive}
use ia_cstudio.Plans.Classify.{
  RiskLevel, Verdict, Words, safe, destructive, verdict, resource_verdict, removal, no_mutation,
  metadata_only, unrecognized, is_metadata_only_update, is_iam_resource,
  is_network_exposure_resource, is_stateful_resource, after_public,
}

abbrev pub is_safe : RiskLevel → Bool
is_safe safe = true
is_safe _ = false

abbrev pub is_destructive_risk : RiskLevel → Bool
is_destructive_risk destructive = true
is_destructive_risk _ = false

-- No mutation, or an update of metadata only.
abbrev pub harmless : ResourceChange → Bool
harmless c =
    c.action == "no-op"
    || c.action == "read"
    || c.action == "update" && is_metadata_only_update c.field_changes

abbrev Between : Verdict → Type 0
Between v = (is_safe v.risk ≡ false) × (is_destructive_risk v.risk ≡ false)

-- The rules on the resource find a change neither safe nor destructive.
resource-Between :
    (words : Words) (resource_type : String) (after : Option Fields)
    → Between (resource_verdict words resource_type after)
unfolding resource_verdict
resource-Between words resource_type after =
    if-both Between (is_iam_resource words resource_type) (refl, refl)
      (if-both Between (is_network_exposure_resource words resource_type || after_public after)
        (if-both Between (after_public after) (refl, refl) (refl, refl))
        (if-both Between (is_stateful_resource words resource_type) (refl, refl) (refl, refl)))

removal-destructive :
    (words : Words) (action resource_type : String)
    → (removal words action resource_type).risk ≡ RiskLevel.destructive
unfolding removal
removal-destructive words action resource_type =
    if-both (λ (v : Verdict). v.risk ≡ RiskLevel.destructive)
      (is_stateful_resource words resource_type) refl refl

abbrev Assigned : ResourceChange → Verdict → Type 0
Assigned c v =
    (is_safe v.risk ≡ harmless c) × (is_destructive_risk v.risk ≡ is_destructive c.action)

-- A change is safe exactly if it mutates nothing or updates only metadata, and destructive exactly if
-- it deletes or replaces, whatever the resource is.
pub verdict_risk :
    (words : Words) (c : ResourceChange)
    → (is_safe (verdict words c).risk ≡ harmless c)
      × (is_destructive_risk (verdict words c).risk ≡ is_destructive c.action)
unfolding verdict is_destructive no_mutation metadata_only unrecognized
verdict_risk words c = elim (Bool-cases (c.action == "no-op")) [
  | inl idle ↦ rw ((eq_iff c.action "no-op").0 idle) (refl, refl)
  | inr not_idle ↦ elim (Bool-cases (c.action == "read")) [
    | inl reads ↦ rw ((eq_iff c.action "read").0 reads) (refl, refl)
    | inr not_reads ↦ elim (Bool-cases (c.action == "delete")) [
      | inl deletes ↦
          rw ((eq_iff c.action "delete").0 deletes)
            (rw (removal-destructive words "delete" c.resource_type) (refl, refl))
      | inr not_deletes ↦ elim (Bool-cases (c.action == "replace")) [
        | inl replaces ↦
            rw ((eq_iff c.action "replace").0 replaces)
              (rw (removal-destructive words "replace" c.resource_type) (refl, refl))
        | inr not_replaces ↦ elim (Bool-cases (c.action == "update")) [
          | inl updates ↦
              rw ((eq_iff c.action "update").0 updates)
                (elim (Bool-cases (is_metadata_only_update c.field_changes)) [
                  | inl metadata ↦ rw metadata (refl, refl)
                  | inr other ↦ rw other (resource-Between words c.resource_type c.after)
                ])
          | inr not_updates ↦
              rw (not_idle, not_reads, not_deletes, not_replaces, not_updates)
                (if-both Between (c.action == "create")
                  (resource-Between words c.resource_type c.after) (refl, refl))
        ]
      ]
    ]
  ]
]
