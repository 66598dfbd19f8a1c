-- ===== src/Plans/Classify/Acknowledged.antt =====
-- When the gate asks for an acknowledgement: internal/plan/classifier.go.
use ia_cstudio.Prelude.{
  ℕ, ◌+◌, ◌≤◌, ◌≡◌, refl, ap, ◌∙◌, Bool, true, false, not, ◌||◌, List, [], ◌∷◌, some, if◌then◌else◌,
  arith, inl, inr, Bool-cases, ltb, length, length-map, map, all,
}
use ia_cstudio.Plans.Change.{ResourceChange, PlanResult}
use ia_cstudio.Plans.Parse.{is_destructive}
use ia_cstudio.Plans.Counts.{number}
use ia_cstudio.Plans.Classify.{
  RiskLevel, ClassifiedChange, ClassificationSummary, Words, safe, risky, destructive, unknown,
  verdict, classify_change,
}
use ia_cstudio.Plans.Classify.Risk.{is_safe, is_destructive_risk, harmless, verdict_risk}
use ia_cstudio.Plans.Classify.Summary.{
  count_risk, count_risks, with_acknowledgment, summary_of, classify,
}

-- how many changes have a risk that passes a test
abbrev count_of : (RiskLevel → Bool) → List ClassifiedChange → ℕ
count_of p [] = 0
count_of p (c ∷ cs) = (if p c.risk then 1 else 0) + count_of p cs

abbrev pub sum_of : ClassificationSummary → ℕ
sum_of s = s.safe + s.risky + s.destructive + s.unknown

count_step :
    (s : ClassificationSummary) (r : RiskLevel)
    → ((count_risk s r).destructive ≡ s.destructive + (if is_destructive_risk r then 1 else 0))
      × ((count_risk s r).safe ≡ s.safe + (if is_safe r then 1 else 0))
      × (sum_of (count_risk s r) ≡ sum_of s + 1)
      × ((count_risk s r).total ≡ s.total)
unfolding count_risk
count_step s safe = (omega arith, omega arith, omega arith, refl)
count_step s risky = (omega arith, omega arith, omega arith, refl)
count_step s destructive = (omega arith, omega arith, omega arith, refl)
count_step s unknown = (omega arith, omega arith, omega arith, refl)

counted :
    (s : ClassificationSummary) (cs : List ClassifiedChange)
    → ((count_risks s cs).destructive ≡ s.destructive + count_of is_destructive_risk cs)
      × ((count_risks s cs).safe ≡ s.safe + count_of is_safe cs)
      × (sum_of (count_risks s cs) ≡ sum_of s + length cs)
      × ((count_risks s cs).total ≡ s.total)
unfolding count_risks
counted s [] = (omega arith, omega arith, omega arith, refl)
counted s (c ∷ cs) =
    let (a, b, t, k) = count_step s c.risk in
    let (a', b', t', k') = counted (count_risk s c.risk) cs in
    (omega (arith, a, a'), omega (arith, b, b'), omega (arith, t, t'), k' ∙ k)

classified_destructive :
    (words : Words) (cs : List ResourceChange)
    → count_of is_destructive_risk (map (classify_change words) cs) ≡ number is_destructive cs
unfolding number classify_change
classified_destructive words [] = refl
classified_destructive words (c ∷ cs) =
    rw ((verdict_risk words c).1, classified_destructive words cs) refl

-- The safe changes are all of them exactly if each is harmless.
classified_safe :
    (words : Words) (cs : List ResourceChange)
    → (count_of is_safe (map (classify_change words) cs) ≤ length cs)
      × (ltb (count_of is_safe (map (classify_change words) cs)) (length cs)
          ≡ not (all harmless cs))
unfolding classify_change
classified_safe words [] = (omega arith, refl)
classified_safe words (c ∷ cs) =
    let (few, rest) = classified_safe words cs in
    elim (Bool-cases (harmless c)) [
      | inl fine ↦
          let counts : is_safe (verdict words c).risk ≡ true = (verdict_risk words c).0 ∙ fine in
          rw (counts, fine) (omega (arith, few), ground (arith, rest))
      | inr not_fine ↦
          let counts : is_safe (verdict words c).risk ≡ false =
            (verdict_risk words c).0 ∙ not_fine in
          rw (counts, not_fine) (omega (arith, few), ground (arith, few))
    ]

flags : (a b c d n : ℕ) → a + b + c + d ≡ n → (ltb 0 b || ltb 0 c || ltb 0 d) ≡ ltb a n
flags a b c d n h = ground arith

-- The counts of a classification add up to the number of planned changes, as many are destructive as
-- delete or replace, and an acknowledgement is required unless every change is harmless: mutates
-- nothing or updates only metadata.
pub acknowledged :
    (words : Words) (r : PlanResult)
    → (sum_of (classify words (some r)).summary ≡ (classify words (some r)).summary.total)
      × ((classify words (some r)).summary.total ≡ length r.changes)
      × ((classify words (some r)).summary.destructive ≡ number is_destructive r.changes)
      × ((classify words (some r)).summary.requires_acknowledgment ≡ not (all harmless r.changes))
unfolding classify summary_of with_acknowledgment
acknowledged words r =
    let cs = map (classify_change words) r.changes in
    let start : ClassificationSummary = record {
      safe = 0;
      risky = 0;
      destructive = 0;
      unknown = 0;
      total = length cs;
      requires_acknowledgment = false;
      text = "";
    } in
    let (d, s, t, k) = counted start cs in
    let size = length-map (classify_change words) r.changes in
    let done = count_risks start cs in
    let (few, ack) = classified_safe words r.changes in
    (
      omega (arith, t, k),
      k ∙ size,
      omega (arith, d, classified_destructive words r.changes),
      flags done.safe done.risky done.destructive done.unknown (length r.changes)
            (omega (arith, t, size))
          ∙ ap (λ n. ltb n (length r.changes)) (omega (arith, s))
          ∙ ack,
    )
