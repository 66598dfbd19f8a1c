-- ===== src/Blast/Impact.antt =====
-- The impact that `Analyze` of internal/blast/blast.go reports.
use ia_cstudio.Prelude.{
  any-append, ◌≡◌, refl, sym, ◌∙◌, String, false, not, ◌&&◌, [], ◌∷◌, ◌++◌, arith, ◌==◌, eq_refl,
  length, length-append,
}
use ia_cstudio.Blast.Graph.{Dependency, DependencyGraph, deps_at}
use ia_cstudio.Blast.Analyze.{visit_dependents, direct_resource, analyze}
use ia_cstudio.Blast.Visits.{
  impacts, comes_from, reaches_any, Distinct, impacts-visit, visited-visit, visit-Distinct,
  impacts-visit_direct, visit_direct-Distinct, disjoint-Distinct,
}

named_direct :
    (target action : String) (d : Dependency) → (direct_resource target action d).address ≡ d.from
unfolding direct_resource
named_direct target action d = refl

-- The direct impact is exactly the resources other than the target with an edge to it; the indirect
-- impact is exactly the other resources with an edge to one of those: those at a distance of two.
pub impact_exact :
    (graph : DependencyGraph) (target action : String) (x : String)
    → (impacts (analyze graph target action).direct_impact x
        ≡ (comes_from (deps_at graph.dependents target) x && not (target == x)))
      × (impacts (analyze graph target action).indirect_impact x ≡ (
          reaches_any graph (analyze graph target action).direct_impact x
          && not (target == x)
          && not (impacts (analyze graph target action).direct_impact x)))
unfolding analyze
impact_exact graph target action x =
    let make = direct_resource target action in
    let named = named_direct target action in
    let deps = deps_at graph.dependents target in
    let (direct, visited) = visit_dependents make (target ∷ []) deps in
    let first = impacts-visit make named (target ∷ []) deps x in
    (
      first ∙ ground arith,
      impacts-visit_direct graph target action visited direct x
          ∙ rw (visited-visit make named (target ∷ []) deps x, first) (ground arith),
    )

-- No resource is reported twice, within a level or across the two, the target is not reported, and
-- the total is the number of resources reported.
pub impact-Distinct :
    (graph : DependencyGraph) (target action : String)
    → Distinct (
        (analyze graph target action).direct_impact
        ++ (analyze graph target action).indirect_impact)
      × (impacts
            ((analyze graph target action).direct_impact
              ++ (analyze graph target action).indirect_impact)
            target
          ≡ false)
      × ((analyze graph target action).total_affected
          ≡ length (
              (analyze graph target action).direct_impact
              ++ (analyze graph target action).indirect_impact))
impact-Distinct graph target action =
    let r = analyze graph target action in
    let make = direct_resource target action in
    let deps = deps_at graph.dependents target in
    let visited = (visit_dependents make (target ∷ []) deps).1 in
    let (direct, indirect) = impact_exact graph target action target in
    (
      disjoint-Distinct r.direct_impact r.indirect_impact
          (unfold analyze in visit-Distinct make (named_direct target action) (target ∷ []) deps)
          (unfold analyze in
            visit_direct-Distinct graph target action visited
              (visit_dependents make (target ∷ []) deps).0)
          (λ x h. (impact_exact graph target action x).1 ∙ rw h (ground arith)),
      any-append _ r.direct_impact r.indirect_impact
          ∙ rw (direct, indirect, eq_refl target) (ground arith),
      unfold analyze in sym (length-append r.direct_impact r.indirect_impact),
    )
