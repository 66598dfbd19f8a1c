-- ===== src/Blast/Analyze.antt =====
-- `Analyze` and `AnalyzeAll` of internal/blast/blast.go.
use ia_cstudio.Prelude.{
  ℕ, ◌+◌, String, ◌<>◌, Bool, ◌||◌, List, [], ◌∷◌, ◌++◌, if◌then◌else◌, ◌==◌, eqb, leb, any, length,
  assign,
}
use ia_cstudio.Text.Trim.{contains}
use ia_cstudio.Text.Split.{split_once}
use ia_cstudio.Blast.Graph.{Dependency, DependencyGraph, deps_at}

pub record ImpactedResource : Type 0 where
  pub address : String
  pub resource_type : String
  pub name : String
  pub reason : String
  pub fields : List String
  pub depth : ℕ
  pub will_break : Bool

pub record BlastResult : Type 0 where
  pub target : String
  pub action : String
  pub direct_impact : List ImpactedResource
  pub indirect_impact : List ImpactedResource
  pub total_affected : ℕ
  pub severity : String
  pub warnings : List String

abbrev pub visited_has : List String → String → Bool
visited_has visited addr = any (λ a. a == addr) visited

unfoldable pub direct_resource : String → String → Dependency → ImpactedResource
direct_resource target action dep = record {
  address = dep.from;
  resource_type = (split_once b'.' dep.from).0;
  name = (split_once b'.' dep.from).1;
  reason = "references " <> target <> " via field '" <> dep.field <> "'";
  fields = dep.field ∷ [];
  depth = 1;
  will_break = action == "delete";
}

unfoldable pub indirect_resource :
    String → String → ImpactedResource → Dependency → ImpactedResource
indirect_resource target action direct dep = record {
  address = dep.from;
  resource_type = (split_once b'.' dep.from).0;
  name = (split_once b'.' dep.from).1;
  reason = "depends on " <> direct.address <> " which references " <> target;
  fields = dep.field ∷ [];
  depth = 2;
  will_break = action == "delete";
}

-- a loop over dependents: those not visited yet are visited, and make an impacted resource each
unfoldable pub visit_dependents :
    (Dependency → ImpactedResource)
    → List String
    → List Dependency
    → List ImpactedResource × List String
visit_dependents impacted visited [] = ([], visited)
visit_dependents impacted visited (dep ∷ deps) =
    let old = visited_has visited dep.from in
    let (later, after) =
      visit_dependents impacted (if old then visited else dep.from ∷ visited) deps in
    (if old then later else impacted dep ∷ later, after)

-- the second level
unfoldable pub visit_direct :
    DependencyGraph → String → String → List String → List ImpactedResource → List ImpactedResource
visit_direct graph target action visited [] = []
visit_direct graph target action visited (direct ∷ directs) =
    let (found, after) =
      visit_dependents (indirect_resource target action direct) visited
        (deps_at graph.dependents direct.address) in
    found ++ visit_direct graph target action after directs

unfoldable pub classify_severity : ℕ → String
classify_severity total =
    if eqb total 0
    then "low"
    else if leb total 2
    then "medium"
    else if leb total 5
    then "high"
    else "critical"

unfoldable pub warnings_for : String → List ImpactedResource → List String
warnings_for target [] = []
warnings_for target (r ∷ rs) =
    let network = "Deleting " <> target <> " will cascade to networking resource " <> r.address in
    let data_loss =
      "WARNING: Database resource " <> r.address <> " depends on " <> target
      <> " — data loss risk!" in
    (if contains r.resource_type "vpc" || contains r.resource_type "network"
      then network ∷ []
      else [])
    ++ (if contains r.resource_type "db" || contains r.resource_type "rds"
        then data_loss ∷ []
        else [])
    ++ warnings_for target rs

unfoldable pub analyze : DependencyGraph → String → String → BlastResult
unfolding visit_dependents visit_direct classify_severity warnings_for
analyze graph target action =
    let (direct, visited) =
      visit_dependents (direct_resource target action) (target ∷ [])
        (deps_at graph.dependents target) in
    let indirect = visit_direct graph target action visited direct in
    let total = length direct + length indirect in
    record {
      target = target;
      action = action;
      direct_impact = direct;
      indirect_impact = indirect;
      total_affected = total;
      severity = classify_severity total;
      warnings = if action == "delete" then warnings_for target direct else [];
    }

-- the loop of `AnalyzeAll`
unfoldable pub analyze_each :
    DependencyGraph → List String → List (String × BlastResult) → List (String × BlastResult)
analyze_each graph [] results = results
analyze_each graph (addr ∷ addrs) results =
    analyze_each graph addrs (assign results addr (analyze graph addr "delete"))

unfoldable pub analyze_all : DependencyGraph → List (String × BlastResult)
unfolding analyze_each
analyze_all graph = analyze_each graph graph.resources []
