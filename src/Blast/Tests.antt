-- ===== src/Blast/Tests.antt =====
-- A small network.
use ia_cstudio.Prelude.{
  ◌≡◌, refl, String, true, false, not, ◌&&◌, List, [], ◌∷◌, ◌++◌, ◌==◌, map, length, inl, inr,
  entry, assign,
}
use ia_cstudio.Text.Trim.{contains, has_suffix}
use ia_cstudio.Blast.Graph.{Dependency, DependencyGraph, Resource, deps_at, build_graph}
use ia_cstudio.Blast.Analyze.{ImpactedResource, analyze, analyze_all}
use ia_cstudio.Blast.Visits.{impacts, comes_from, reaches_any, Distinct}
use ia_cstudio.Blast.Impact.{impact_exact, impact-Distinct}
use ia_cstudio.Blast.Edges.{is_edge, reference_found}

abbrev print : String → String
print s = s

abbrev vpc : Resource String
vpc = record { resource_type = "aws_vpc"; name = "main"; properties = [] }

abbrev subnet : Resource String
subnet = record {
  resource_type = "aws_subnet";
  name = "a";
  properties = ("vpc_id", "${aws_vpc.main.id}") ∷ [];
}

abbrev server : Resource String
server = record {
  resource_type = "aws_instance";
  name = "web";
  properties = ("subnet_id", "x") ∷ [];
}

abbrev network : List (Resource String)
network = vpc ∷ subnet ∷ server ∷ []

abbrev graph : DependencyGraph
graph = build_graph print network

direct_test :
    map (λ (r : ImpactedResource). r.address) (analyze graph "aws_vpc.main" "delete").direct_impact
    ≡ "aws_subnet.a" ∷ []
unfolding analyze entry build_graph ia_cstudio.Blast.Graph.names_resource has_suffix
    ia_cstudio.Blast.Graph.infer_resource_type assign ia_cstudio.Blast.Graph.has_dep contains
    ia_cstudio.Blast.Graph.add_dep ia_cstudio.Blast.Analyze.direct_resource
direct_test = refl

indirect_test :
    map
      (λ (r : ImpactedResource). r.address)
      (analyze graph "aws_vpc.main" "delete").indirect_impact
    ≡ "aws_instance.web" ∷ []
unfolding analyze entry build_graph ia_cstudio.Blast.Graph.names_resource has_suffix
    ia_cstudio.Blast.Graph.infer_resource_type assign ia_cstudio.Blast.Graph.has_dep contains
    ia_cstudio.Blast.Graph.add_dep ia_cstudio.Blast.Analyze.direct_resource
    ia_cstudio.Blast.Analyze.indirect_resource
indirect_test = refl

severity_test : (analyze graph "aws_vpc.main" "delete").severity ≡ "medium"
unfolding analyze entry build_graph ia_cstudio.Blast.Graph.names_resource has_suffix
    ia_cstudio.Blast.Graph.infer_resource_type assign ia_cstudio.Blast.Graph.has_dep contains
    ia_cstudio.Blast.Graph.add_dep ia_cstudio.Blast.Analyze.direct_resource
severity_test = refl

reference_found_example :
    is_edge graph "aws_vpc.main"
      (record { from = "aws_subnet.a"; to = "aws_vpc.main"; field = "vpc_id" })
    ≡ true
unfolding contains
reference_found_example =
    reference_found print network subnet "aws_vpc.main" "vpc_id" "${aws_vpc.main.id}"
      (inr (inl refl)) (inl refl) refl refl refl

impact-Distinct_example :
    Distinct (
      (analyze graph "aws_vpc.main" "delete").direct_impact
      ++ (analyze graph "aws_vpc.main" "delete").indirect_impact)
    × (impacts
          ((analyze graph "aws_vpc.main" "delete").direct_impact
            ++ (analyze graph "aws_vpc.main" "delete").indirect_impact)
          "aws_vpc.main"
        ≡ false)
    × ((analyze graph "aws_vpc.main" "delete").total_affected
        ≡ length (
            (analyze graph "aws_vpc.main" "delete").direct_impact
            ++ (analyze graph "aws_vpc.main" "delete").indirect_impact))
impact-Distinct_example = impact-Distinct graph "aws_vpc.main" "delete"

impact_exact_example :
    (impacts (analyze graph "aws_vpc.main" "delete").direct_impact "aws_subnet.a" ≡ (
      comes_from (deps_at graph.dependents "aws_vpc.main") "aws_subnet.a"
      && not ("aws_vpc.main" == "aws_subnet.a")))
    × (impacts (analyze graph "aws_vpc.main" "delete").indirect_impact "aws_subnet.a" ≡ (
        reaches_any graph (analyze graph "aws_vpc.main" "delete").direct_impact "aws_subnet.a"
        && not ("aws_vpc.main" == "aws_subnet.a")
        && not (impacts (analyze graph "aws_vpc.main" "delete").direct_impact "aws_subnet.a")))
impact_exact_example = impact_exact graph "aws_vpc.main" "delete" "aws_subnet.a"
