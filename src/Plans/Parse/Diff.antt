-- ===== src/Plans/Parse/Diff.antt =====
-- What `diffMaps` of internal/plan/plan.go reports at the top level.
use ia_cstudio.Prelude.{
  any-append, ◌≡◌, refl, sym, ap, ◌∙◌, String, Bool, true, false, not, ◌&&◌, ◌||◌, List, Option,
  none, some, arith, inl, inr, Bool-cases, Option-cases, ◌==◌, eq_iff, any,
}
use ia_cstudio.Plans.Change.{Value, Fields, end, field, FieldChange}
use ia_cstudio.Plans.Parse.{field_of, path_of, diff_before, diff_after, diff_maps}

-- Each key stands once, as in a map.
abbrev pub UniqueKeys : Fields → Type 0
UniqueKeys end = Unit
UniqueKeys (field k v fs) = (field_of fs k ≡ none) × UniqueKeys fs

-- A change has the path.
abbrev pub reports : List FieldChange → String → Bool
reports changes path = any (λ (c : FieldChange). c.path == path) changes

-- Two values of a key differ if one is missing, or if they are printed differently.
abbrev pub values_differ : (Value → String) → Option Value → Option Value → Bool
values_differ sprint none none = false
values_differ sprint none (some b) = true
values_differ sprint (some a) none = true
values_differ sprint (some a) (some b) = not (sprint a == sprint b)

-- as seen from the loop over `before`
abbrev differs_before : (Value → String) → Option Value → Option Value → Bool
differs_before sprint none after = false
differs_before sprint (some a) none = true
differs_before sprint (some a) (some b) = not (sprint a == sprint b)

abbrev is_missing : Option Value → Bool
is_missing none = true
is_missing (some v) = false

abbrev is_given : Option Value → Bool
is_given none = false
is_given (some v) = true

module _ (sprint : Value → String) where
  before_step :
      (j : String) (v : Value) (before after : Fields) (k : String)
      → reports (diff_before sprint "" (field j v before) after) k ≡ (
          (j == k && differs_before sprint (some v) (field_of after j))
          || reports (diff_before sprint "" before after) k)
  unfolding diff_before path_of
  before_step j v before after k = elim (Option-cases (field_of after j)) [
    | inl missing ↦ rw (missing, diff_before) (ground arith)
    | inr (new, held) ↦
        rw (held, diff_before)
          (elim (Bool-cases (sprint v == sprint new)) [
            | inl same ↦ rw same (ground arith)
            | inr differ ↦ rw differ (ground arith)
          ])
  ]

  after_step :
      (j : String) (v : Value) (before after : Fields) (k : String)
      → reports (diff_after sprint "" before (field j v after)) k ≡ (
          (j == k && is_missing (field_of before j))
          || reports (diff_after sprint "" before after) k)
  unfolding diff_after path_of
  after_step j v before after k = elim (Option-cases (field_of before j)) [
    | inl missing ↦ rw (missing, diff_after) (ground arith)
    | inr (old, held) ↦ rw (held, diff_after) (ground arith)
  ]

  reports-before :
      (before after : Fields) (k : String)
      → UniqueKeys before
      → reports (diff_before sprint "" before after) k
        ≡ differs_before sprint (field_of before k) (field_of after k)
  unfolding diff_before field_of path_of
  reports-before end after k u = refl
  reports-before (field j v before) after k (new, u) = elim (Bool-cases (j == k)) [
    | inr other ↦ before_step j v before after k ∙ rw other (reports-before before after k u)
    | inl same ↦
        let is : j ≡ k = (eq_iff j k).0 same in
        let gone : reports (diff_before sprint "" before after) k ≡ false =
          reports-before before after k u
          ∙ ap (λ o. differs_before sprint o (field_of after k))
              (sym (ap (field_of before) is) ∙ new) in
        before_step j v before after k
        ∙ rw (same, gone)
            (ap (λ x. differs_before sprint (some v) (field_of after x) || false) is ∙ ground arith)
  ]

  reports-after :
      (before after : Fields) (k : String)
      → reports (diff_after sprint "" before after) k
        ≡ (is_missing (field_of before k) && is_given (field_of after k))
  unfolding diff_after field_of path_of
  reports-after before end k = ground arith
  reports-after before (field j v after) k = elim (Bool-cases (j == k)) [
    | inr other ↦ after_step j v before after k ∙ rw other (reports-after before after k)
    | inl same ↦
        after_step j v before after k
        ∙ rw (same, (eq_iff j k).0 same, reports-after before after k) (ground arith)
  ]

  both_sides :
      (a b : Option Value)
      → (differs_before sprint a b || (is_missing a && is_given b)) ≡ values_differ sprint a b
  both_sides none none = refl
  both_sides none (some b) = refl
  both_sides (some a) none = refl
  both_sides (some a) (some b) = ground arith

  -- A diff of two maps, at the top level, reports a key exactly if its values differ: if it is in one
  -- of the maps only, or if its values in the two are printed differently.
  pub reports-diff_maps :
      (before after : Fields) (k : String)
      → UniqueKeys before
      → reports (diff_maps sprint "" before after) k
        ≡ values_differ sprint (field_of before k) (field_of after k)
  unfolding diff_maps
  reports-diff_maps before after k u =
      any-append _ (diff_before sprint "" before after) (diff_after sprint "" before after)
      ∙ rw (reports-before before after k u, reports-after before after k)
          (both_sides (field_of before k) (field_of after k))
