-- ===== src/Plans/Classify/Markdown.antt =====
-- The texts of internal/plan/classifier.go: the summary line and the list for the reviewer.
use Prim.Native.String.{compare}
use Prim.Native.Nat.{Ordering}
use ia_cstudio.Prelude.{
  ℕ, zero, suc, ◌-◌, String, ◌<>◌, Bool, true, false, not, List, [], ◌∷◌, ◌++◌, if◌then◌else◌, eqb,
  ltb, length,
}
use ia_cstudio.Text.Trim.{trim_space}
use ia_cstudio.Text.Split.{join}
use ia_cstudio.Text.Numbered.{decimal}
use ia_cstudio.Plans.Classify.{
  RiskLevel, ClassifiedChange, ClassificationSummary, safe, risky, destructive, unknown,
}

unfoldable pub risk_rank : RiskLevel → ℕ
risk_rank destructive = 4
risk_rank risky = 3
risk_rank unknown = 2
risk_rank safe = 1

-- `strings.ToUpper` of the level
abbrev pub risk_upper : RiskLevel → String
risk_upper safe = "SAFE"
risk_upper risky = "RISKY"
risk_upper destructive = "DESTRUCTIVE"
risk_upper unknown = "UNKNOWN"

-- `<` on strings
abbrev less : String → String → Bool
less a b = elim (compare a b) [ Ordering.lt ↦ true | _ ↦ false ]

-- the order of `sort.SliceStable`
unfoldable pub comes_before : ClassifiedChange → ClassifiedChange → Bool
unfolding risk_rank
comes_before a b =
    if not (eqb (risk_rank a.risk) (risk_rank b.risk))
    then ltb (risk_rank b.risk) (risk_rank a.risk)
    else less a.address b.address

-- a change in front of those that do not come before it
unfoldable pub insert_change : ClassifiedChange → List ClassifiedChange → List ClassifiedChange
unfolding comes_before
insert_change c [] = c ∷ []
insert_change c (x ∷ xs) =
    let later = insert_change c xs in if comes_before x c then x ∷ later else c ∷ x ∷ xs

-- `sort.SliceStable`
unfoldable pub sort_changes : List ClassifiedChange → List ClassifiedChange
unfolding insert_change
sort_changes [] = []
sort_changes (c ∷ cs) = insert_change c (sort_changes cs)

-- a count, if there is any
part : ℕ → String → List String
part n label = if ltb 0 n then (decimal n <> label) ∷ [] else []

unfoldable pub format_summary_text : ClassificationSummary → String
unfolding part
format_summary_text s =
    if eqb s.total 0
    then "Semantic plan: no infrastructure changes"
    else "Semantic plan: "
      <> join " · " (
          part s.safe " safe"
          ++ part s.risky " risky"
          ++ part s.destructive " destructive"
          ++ part s.unknown " unknown")

focus_text : List String → String
focus_text [] = ""
focus_text (f ∷ fs) = " Focus: " <> join " " (f ∷ fs)

-- the line of a change
unfoldable pub change_line : ClassifiedChange → String
unfolding focus_text
change_line c =
    "- ["
    <> risk_upper c.risk
    <> "] "
    <> c.action
    <> " `"
    <> c.address
    <> "`: "
    <> c.reason
    <> focus_text c.reviewer_focus
    <> "\n"

-- the lines of the first changes
unfoldable pub change_lines : ℕ → List ClassifiedChange → String
unfolding change_line
change_lines zero cs = ""
change_lines (suc n) [] = ""
change_lines (suc n) (c ∷ cs) = change_line c <> change_lines n cs

abbrev is_empty : List ClassifiedChange → Bool
is_empty [] = true
is_empty (c ∷ cs) = false

unfoldable pub format_classification_markdown :
    ClassificationSummary → List ClassifiedChange → String
unfolding change_lines sort_changes
format_classification_markdown summary changes =
    let head =
      if summary.requires_acknowledgment
      then summary.text <> "\n\nAcknowledgement required before apply."
      else summary.text in
    let rest =
      if ltb 8 (length changes)
      then "- ...and " <> decimal (length changes - 8) <> " more change(s)\n"
      else "" in
    if is_empty changes
    then head
    else trim_space (head <> "\n\n" <> change_lines 8 (sort_changes changes) <> rest)
