-- ===== src/Blast/Visits.antt =====
-- What a loop over dependents visits.
use ia_cstudio.Prelude.{
  ◌≡◌, refl, sym, ap, ◌∙◌, String, Bool, true, false, not, ◌&&◌, ◌||◌, List, [], ◌∷◌, ◌++◌, arith,
  inl, inr, Bool-cases, ◌==◌, eq_iff, eq_refl, any, any-append,
}
use ia_cstudio.Blast.Graph.{Dependency, DependencyGraph, deps_at}
use ia_cstudio.Blast.Analyze.{
  ImpactedResource, visited_has, visit_dependents, visit_direct, indirect_resource,
}

-- The address is one of the impacted resources.
abbrev pub impacts : List ImpactedResource → String → Bool
impacts rs addr = any (λ (r : ImpactedResource). r.address == addr) rs

-- An edge comes from the address.
abbrev pub comes_from : List Dependency → String → Bool
comes_from deps addr = any (λ (d : Dependency). d.from == addr) deps

abbrev pub Distinct : List ImpactedResource → Type 0
Distinct [] = Unit
Distinct (r ∷ rs) = (impacts rs r.address ≡ false) × Distinct rs

-- Equal texts answer every test alike.
same_test : (a b c : String) → a == b ≡ true → a == c ≡ (b == c)
same_test a b c e = ap (λ x. x == c) ((eq_iff a b).0 e)

visited_same :
    (visited : List String) (a b : String)
    → a == b ≡ true
    → visited_has visited a ≡ visited_has visited b
visited_same visited a b e = ap (visited_has visited) ((eq_iff a b).0 e)

module _ (make : Dependency → ImpactedResource)
    (named : (d : Dependency) → (make d).address ≡ d.from) where
  -- The loop finds the addresses that an edge comes from and that were not visited, and they are
  -- visited after it.
  pub impacts-visit :
      (visited : List String) (deps : List Dependency) (x : String)
      → impacts (visit_dependents make visited deps).0 x
        ≡ (comes_from deps x && not (visited_has visited x))
  unfolding visit_dependents
  impacts-visit visited [] x = refl
  impacts-visit visited (dep ∷ deps) x = elim (Bool-cases (visited_has visited dep.from)) [
    | inl old ↦ rw old (elim (Bool-cases (dep.from == x)) [
      | inr other ↦ rw other (impacts-visit visited deps x)
      | inl same ↦
          let seen : visited_has visited x ≡ true =
            sym (visited_same visited dep.from x same) ∙ old in
          impacts-visit visited deps x ∙ rw (same, seen) (ground arith)
    ])
    | inr new ↦
        rw (new, named dep)
          (elim (Bool-cases (dep.from == x)) [
            | inr other ↦ rw other (impacts-visit (dep.from ∷ visited) deps x ∙ rw other refl)
            | inl same ↦
                let unseen : visited_has visited x ≡ false =
                  sym (visited_same visited dep.from x same) ∙ new in
                rw (same, unseen) refl
          ])
  ]

  pub visited-visit :
      (visited : List String) (deps : List Dependency) (x : String)
      → visited_has (visit_dependents make visited deps).1 x
        ≡ (visited_has visited x || comes_from deps x)
  unfolding visit_dependents
  visited-visit visited [] x = ground arith
  visited-visit visited (dep ∷ deps) x = elim (Bool-cases (visited_has visited dep.from)) [
    | inl old ↦ rw old (elim (Bool-cases (dep.from == x)) [
      | inr other ↦ rw other (visited-visit visited deps x)
      | inl same ↦
          let seen : visited_has visited x ≡ true =
            sym (visited_same visited dep.from x same) ∙ old in
          visited-visit visited deps x ∙ rw (same, seen) refl
    ])
    | inr new ↦ rw new (visited-visit (dep.from ∷ visited) deps x ∙ ground arith)
  ]

  pub visit-Distinct :
      (visited : List String) (deps : List Dependency)
      → Distinct (visit_dependents make visited deps).0
  unfolding visit_dependents
  visit-Distinct visited [] = tt
  visit-Distinct visited (dep ∷ deps) = elim (Bool-cases (visited_has visited dep.from)) [
    | inl old ↦ rw old (visit-Distinct visited deps)
    | inr new ↦ rw new (
      impacts-visit (dep.from ∷ visited) deps (make dep).address
          ∙ rw (named dep, eq_refl) (ground arith),
      visit-Distinct (dep.from ∷ visited) deps,
    )
  ]

pub disjoint-Distinct :
    (rs ss : List ImpactedResource)
    → Distinct rs
    → Distinct ss
    → ((x : String) → impacts rs x ≡ true → impacts ss x ≡ false)
    → Distinct (rs ++ ss)
disjoint-Distinct [] ss d e apart = e
disjoint-Distinct (r ∷ rs) ss (new, d) e apart = (
  any-append _ rs ss ∙ rw (new, apart r.address (rw (eq_refl r.address) refl)) refl,
  disjoint-Distinct rs ss d e (λ x h. apart x (rw h (ground arith))),
)

-- An edge comes from the address to one of the resources.
abbrev pub reaches_any : DependencyGraph → List ImpactedResource → String → Bool
reaches_any graph directs addr =
    any (λ (d : ImpactedResource). comes_from (deps_at graph.dependents d.address) addr) directs

module _ (graph : DependencyGraph) (target action : String) where
  named_indirect :
      (direct : ImpactedResource) (d : Dependency)
      → (indirect_resource target action direct d).address ≡ d.from
  unfolding indirect_resource
  named_indirect direct d = refl

  pub impacts-visit_direct :
      (visited : List String) (directs : List ImpactedResource) (x : String)
      → impacts (visit_direct graph target action visited directs) x
        ≡ (reaches_any graph directs x && not (visited_has visited x))
  unfolding visit_direct
  impacts-visit_direct visited [] x = refl
  impacts-visit_direct visited (d ∷ ds) x =
      let make = indirect_resource target action d in
      let deps = deps_at graph.dependents d.address in
      let after = (visit_dependents make visited deps).1 in
      any-append _ (visit_dependents make visited deps).0
        (visit_direct graph target action after ds)
      ∙ rw
          (
            impacts-visit make (named_indirect d) visited deps x,
            impacts-visit_direct after ds x,
            visited-visit make (named_indirect d) visited deps x,
          )
          (ground arith)

  pub visit_direct-Distinct :
      (visited : List String) (directs : List ImpactedResource)
      → Distinct (visit_direct graph target action visited directs)
  unfolding visit_direct
  visit_direct-Distinct visited [] = tt
  visit_direct-Distinct visited (d ∷ ds) =
      let make = indirect_resource target action d in
      let deps = deps_at graph.dependents d.address in
      let after = (visit_dependents make visited deps).1 in
      disjoint-Distinct (visit_dependents make visited deps).0
        (visit_direct graph target action after ds)
        (visit-Distinct make (named_indirect d) visited deps) (visit_direct-Distinct after ds)
        (λ x h.
          impacts-visit_direct after ds x
          ∙ rw (visited-visit make (named_indirect d) visited deps x) (
              let found = sym (impacts-visit make (named_indirect d) visited deps x) ∙ h in
              ground arith))
