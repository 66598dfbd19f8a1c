-- ===== src/Plans/Counts.antt =====
-- The summaries that internal/plan/plan.go counts.
use ia_cstudio.Prelude.{
  ◌⊎◌, ℕ, ◌+◌, ◌≡◌, refl, ap, ◌∙◌, subst, if-both, String, Bool, false, ◌||◌, List, [], ◌∷◌, Option,
  none, some, if◌then◌else◌, arith, inl, inr, Bool-cases, ◌==◌, eq_iff, ltb, any, Result, ok,
  Result-cases, Option-cases,
}
use ia_cstudio.Text.Trim.{trim_space}
use ia_cstudio.Text.Split.{split}
use ia_cstudio.Plans.Change.{Value, ResourceChange, PlanSummary, PlanResult}
use ia_cstudio.Plans.Parse.{
  TfPlanLine, TfDiagnostic, add_if_diagnostic, TfFullResourceChange, empty_result, empty_summary,
  add_diagnostic, read_entry, read_line, read_lines, count_action, count_full_action,
  is_destructive, count_changes, summarize, parse_stream_output, full_changes, parse_full_plan,
}

-- how many changes have an action that passes a test
unfoldable pub number : (String → Bool) → List ResourceChange → ℕ
number p [] = 0
number p (c ∷ cs) = (if p c.action then 1 else 0) + number p cs

abbrev pub adds : String → Bool
adds action = action == "create" || action == "replace"

abbrev pub updates : String → Bool
updates action = action == "update"

abbrev pub mutates : String → Bool
mutates action = adds action || updates action || is_destructive action

-- The summary agrees with the changes.
pub record Summarizes (r : PlanResult) : Type 0 where
  pub added : r.summary.add ≡ number adds r.changes
  pub changed : r.summary.change ≡ number updates r.changes
  pub destroyed : r.summary.destroy ≡ number is_destructive r.changes
  pub total : r.summary.total ≡ r.summary.add + r.summary.change + r.summary.destroy
  pub has_changes : r.has_changes ≡ any (λ (c : ResourceChange). mutates c.action) r.changes
  pub requires_approval :
      r.requires_approval ≡ any (λ (c : ResourceChange). is_destructive c.action) r.changes

-- one step of a count
Counts : (PlanSummary → String → PlanSummary) → Type 0
Counts count =
    (s : PlanSummary) (a : String)
    → ((count s a).add ≡ (if adds a then 1 else 0) + s.add)
      × ((count s a).change ≡ (if updates a then 1 else 0) + s.change)
      × ((count s a).destroy ≡ (if is_destructive a then 1 else 0) + s.destroy)

stream-Counts : Counts count_action
unfolding Counts count_action is_destructive
stream-Counts s a = elim (Bool-cases (a == "create")) [
  | inl same ↦ rw ((eq_iff a "create").0 same) (omega arith, omega arith, omega arith)
  | inr not_create ↦ elim (Bool-cases (a == "update")) [
    | inl same ↦ rw ((eq_iff a "update").0 same) (omega arith, omega arith, omega arith)
    | inr not_update ↦ elim (Bool-cases (a == "delete")) [
      | inl same ↦ rw ((eq_iff a "delete").0 same) (omega arith, omega arith, omega arith)
      | inr not_delete ↦ elim (Bool-cases (a == "replace")) [
        | inl same ↦ rw ((eq_iff a "replace").0 same) (omega arith, omega arith, omega arith)
        | inr not_replace ↦
            rw (not_create, not_update, not_delete, not_replace)
              (elim (Bool-cases (a == "read")) [
                | inl reads ↦ rw reads (omega arith, omega arith, omega arith)
                | inr other ↦ rw other (omega arith, omega arith, omega arith)
              ])
      ]
    ]
  ]
]

full-Counts : Counts count_full_action
unfolding Counts count_full_action is_destructive
full-Counts s a = elim (Bool-cases (a == "create")) [
  | inl same ↦ rw ((eq_iff a "create").0 same) (omega arith, omega arith, omega arith)
  | inr not_create ↦ elim (Bool-cases (a == "update")) [
    | inl same ↦ rw ((eq_iff a "update").0 same) (omega arith, omega arith, omega arith)
    | inr not_update ↦ elim (Bool-cases (a == "delete")) [
      | inl same ↦ rw ((eq_iff a "delete").0 same) (omega arith, omega arith, omega arith)
      | inr not_delete ↦ elim (Bool-cases (a == "replace")) [
        | inl same ↦ rw ((eq_iff a "replace").0 same) (omega arith, omega arith, omega arith)
        | inr not_replace ↦
            rw (not_create, not_update, not_delete, not_replace)
              (omega arith, omega arith, omega arith)
      ]
    ]
  ]
]

number-count :
    (count : PlanSummary → String → PlanSummary)
    → Counts count
    → (s : PlanSummary) (cs : List ResourceChange)
    → ((count_changes count s cs).add ≡ number adds cs + s.add)
      × ((count_changes count s cs).change ≡ number updates cs + s.change)
      × ((count_changes count s cs).destroy ≡ number is_destructive cs + s.destroy)
unfolding Counts count_changes number
number-count count step s [] = (omega arith, omega arith, omega arith)
number-count count step s (c ∷ cs) =
    let (a, b, d) = step s c.action in
    let (a', b', d') = number-count count step (count s c.action) cs in
    (omega (arith, a, a'), omega (arith, b, b'), omega (arith, d, d'))

sum_positive :
    (a b c : Bool) (m n k : ℕ)
    → ltb 0 (((if a then 1 else 0) + m) + ((if b then 1 else 0) + n) + ((if c then 1 else 0) + k))
      ≡ ((a || b || c) || ltb 0 (m + n + k))
sum_positive a b c m n k = ground arith

any-number :
    (cs : List ResourceChange)
    → ltb 0 (number adds cs + number updates cs + number is_destructive cs)
      ≡ any (λ (c : ResourceChange). mutates c.action) cs
unfolding number
any-number [] = refl
any-number (c ∷ cs) =
    let rest = any-number cs in
    sum_positive (adds c.action) (updates c.action) (is_destructive c.action) (number adds cs)
      (number updates cs) (number is_destructive cs)
    ∙ ap (λ b. mutates c.action || b) rest

summarize-Summarizes :
    (count : PlanSummary → String → PlanSummary) (r : PlanResult)
    → Counts count
    → r.summary ≡ empty_summary
    → r.requires_approval ≡ false
    → Summarizes (summarize count r)
unfolding summarize
summarize-Summarizes count r step fresh quiet =
    let (a, b, d) = number-count count step r.summary r.changes in
    let a' : (count_changes count r.summary r.changes).add ≡ number adds r.changes =
      omega (arith, a, ap (λ (x : PlanSummary). x.add) fresh) in
    let b' : (count_changes count r.summary r.changes).change ≡ number updates r.changes =
      omega (arith, b, ap (λ (x : PlanSummary). x.change) fresh) in
    let d' : (count_changes count r.summary r.changes).destroy ≡ number is_destructive r.changes =
      omega (arith, d, ap (λ (x : PlanSummary). x.destroy) fresh) in
    record {
      added = a';
      changed = b';
      destroyed = d';
      total = refl;
      has_changes = rw (a', b', d') (any-number r.changes);
      requires_approval = rw quiet refl;
    }

-- Reading lines adds changes and diagnostics, and leaves the summary and the flags.
abbrev Untouched : PlanResult → Type 0
Untouched r = (r.summary ≡ empty_summary) × (r.requires_approval ≡ false)

diagnosed-Untouched :
    (r : PlanResult) (d : Option TfDiagnostic) → Untouched r → Untouched (add_if_diagnostic r d)
unfolding add_diagnostic
diagnosed-Untouched r none h = h
diagnosed-Untouched r (some d) h = elim (Bool-cases (d.severity == "error")) [
  | inl bad ↦ rw bad h
  | inr fine ↦ rw fine h
]

entry-Untouched :
    (r : PlanResult) (entry : TfPlanLine) → Untouched r → Untouched (read_entry r entry)
unfolding read_entry
entry-Untouched r entry h = elim (Option-cases entry.change) [
  | inl missing ↦ rw (missing, read_entry) (diagnosed-Untouched r entry.diagnostic h)
  | inr (c, held) ↦
      rw (held, read_entry)
        (if-both Untouched (entry.line_type == "planned_change") h
          (diagnosed-Untouched r entry.diagnostic h))
]

line-Untouched :
    (decode : String → Option TfPlanLine) (r : PlanResult) (line : String)
    → Untouched r
    → Untouched (read_line decode r line)
unfolding read_line
line-Untouched decode r line h = elim (Bool-cases (trim_space line == "")) [
  | inl blank ↦ rw (blank, read_line) h
  | inr given ↦
      rw (given, read_line)
        (elim (Option-cases (decode (trim_space line))) [
          | inl no_json ↦ rw no_json h
          | inr (entry, decoded) ↦ rw decoded (entry-Untouched r entry h)
        ])
]

lines-Untouched :
    (decode : String → Option TfPlanLine) (r : PlanResult) (lines : List String)
    → Untouched r
    → Untouched (read_lines decode r lines)
unfolding read_lines
lines-Untouched decode r [] h = h
lines-Untouched decode r (line ∷ lines) h =
    lines-Untouched decode (read_line decode r line) lines (line-Untouched decode r line h)

-- Whatever the decoders give, the summary of a plan that was parsed, from a full plan or from streamed
-- lines, agrees with its changes: what is added, changed and destroyed, a replacement counting as both
-- added and destroyed, the total of the three, whether anything changes, and whether an approval is
-- required: if something is deleted or replaced.
pub parsed-Summarizes :
    (sprint : Value → String) (full : String → Result String (List TfFullResourceChange))
    (line : String → Option TfPlanLine) (input : String) (r : PlanResult)
    → (parse_full_plan sprint full input ≡ ok r) ⊎ (parse_stream_output line input ≡ r)
    → Summarizes r
unfolding parse_stream_output parse_full_plan
parsed-Summarizes sprint full line input r (inr is) =
    let (fresh, quiet) =
      lines-Untouched line empty_result (split b'\n' (trim_space input)) (refl, refl) in
    subst Summarizes is (
      summarize-Summarizes count_action
        (read_lines line empty_result (split b'\n' (trim_space input))) stream-Counts fresh quiet)
parsed-Summarizes sprint full line input r (inl e) = elim (Result-cases (full input)) [
  | inr (x, failed) ↦ let clash = rw (failed, parse_full_plan) at e in cc
  | inl (rcs, decoded) ↦
      let parsed : PlanResult = record empty_result { changes = full_changes sprint rcs } in
      let is : summarize count_full_action parsed ≡ r =
        (let h = rw (decoded, parse_full_plan) at e in cc) in
      subst Summarizes is (summarize-Summarizes count_full_action parsed full-Counts refl refl)
]
