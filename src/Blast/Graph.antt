-- ===== src/Blast/Graph.antt =====
-- The dependency graph and `BuildGraph` of internal/blast/blast.go.
use ia_cstudio.Prelude.{
  String, ◌<>◌, Bool, not, ◌&&◌, ◌||◌, List, [], ◌∷◌, ◌++◌, map, if◌then◌else◌, ◌==◌, any, entry,
  or_else, assign,
}
use ia_cstudio.Text.Trim.{contains, has_suffix}

pub record Dependency : Type 0 where
  pub from : String
  pub to : String
  pub field : String

pub record DependencyGraph : Type 0 where
  pub dependencies : List (String × List Dependency)
  pub dependents : List (String × List Dependency)
  pub resources : List String

-- `parser.Resource`, the fields that the analysis reads
pub record Resource (V : Type 0) : Type 0 where
  pub resource_type : String
  pub name : String
  pub properties : List (String × V)

unfoldable pub infer_resource_type : String → String
infer_resource_type field_name =
    or_else
      (entry
        (("vpc_id", "aws_vpc")
          ∷ ("subnet_id", "aws_subnet")
          ∷ ("subnet_ids", "aws_subnet")
          ∷ ("security_group_id", "aws_security_group")
          ∷ ("security_group_ids", "aws_security_group")
          ∷ ("iam_role_arn", "aws_iam_role")
          ∷ ("role_arn", "aws_iam_role")
          ∷ ("target_group_arn", "aws_lb_target_group")
          ∷ ("lb_arn", "aws_lb")
          ∷ ("certificate_arn", "aws_acm_certificate")
          ∷ ("kms_key_id", "aws_kms_key")
          ∷ ("log_group_name", "aws_cloudwatch_log_group")
          ∷ ("sns_topic_arn", "aws_sns_topic")
          ∷ ("sqs_queue_arn", "aws_sqs_queue")
          ∷ ("bucket", "aws_s3_bucket")
          ∷ ("function_name", "aws_lambda_function")
          ∷ ("cluster_id", "aws_ecs_cluster")
          ∷ ("db_subnet_group_name", "aws_db_subnet_group")
          ∷ ("route_table_id", "aws_route_table")
          ∷ ("internet_gateway_id", "aws_internet_gateway")
          ∷ ("nat_gateway_id", "aws_nat_gateway")
          ∷ ("eip_id", "aws_eip")
          ∷ [])
        field_name)
      ""

-- `m[key]` of a map of slices: no slice for a missing key
abbrev pub deps_at : List (String × List Dependency) → String → List Dependency
deps_at m key = or_else (entry m key) []

unfoldable pub has_dep : List Dependency → String → String → Bool
has_dep deps to_addr field = any (λ (d : Dependency). d.to == to_addr && d.field == field) deps

unfoldable pub append_dep :
    List (String × List Dependency) → String → Dependency → List (String × List Dependency)
append_dep m key dep = assign m key (deps_at m key ++ dep ∷ [])

-- an edge is added to both maps
unfoldable pub add_dep : DependencyGraph → Dependency → DependencyGraph
unfolding append_dep
add_dep graph dep = record graph {
  dependencies = append_dep graph.dependencies dep.from dep;
  dependents = append_dep graph.dependents dep.to dep;
}

abbrev pub address : {V : Type 0} → Resource V → String
address r = r.resource_type <> "." <> r.name

module _ {V : Type 0} (sprint : V → String) where
  -- the index `byAddress`
  unfoldable pub by_address :
      List (String × Resource V) → List (Resource V) → List (String × Resource V)
  by_address index [] = index
  by_address index (r ∷ rs) = by_address (assign index (address r) r) rs

  -- method 1: a reference in the text of a value
  unfoldable pub scan_references :
      String → String → String → List (String × Resource V) → DependencyGraph → DependencyGraph
  scan_references from field value [] graph = graph
  scan_references from field value ((to_addr, r) ∷ index) graph =
      scan_references from field value index (
        if to_addr == from
        then graph
        else if contains value (to_addr <> ".")
        then add_dep graph (record { from = from; to = to_addr; field = field })
        else graph)

  -- method 2: the type that the field's name suggests
  unfoldable pub scan_inferred :
      String → String → String → List (String × Resource V) → DependencyGraph → DependencyGraph
  scan_inferred from field inferred_type [] graph = graph
  scan_inferred from field inferred_type ((to_addr, r) ∷ index) graph =
      scan_inferred from field inferred_type index (
        if r.resource_type == inferred_type && not (to_addr == from)
        then if not (has_dep (deps_at graph.dependencies from) to_addr field)
          then add_dep graph (record { from = from; to = to_addr; field = field })
          else graph
        else graph)

  unfoldable pub names_resource : String → Bool
  names_resource field =
      (has_suffix field "_id" || has_suffix field "_ids" || has_suffix field "_arn")
      && not (infer_resource_type field == "")

  unfoldable pub scan_field :
      List (String × Resource V) → String → String × V → DependencyGraph → DependencyGraph
  unfolding scan_references scan_inferred
  scan_field index from (field, value) graph =
      let referenced = scan_references from field (sprint value) index graph in
      if names_resource field
      then scan_inferred from field (infer_resource_type field) index referenced
      else referenced

  unfoldable pub scan_fields :
      List (String × Resource V) → String → List (String × V) → DependencyGraph → DependencyGraph
  unfolding scan_field
  scan_fields index from [] graph = graph
  scan_fields index from (property ∷ properties) graph =
      scan_fields index from properties (scan_field index from property graph)

  unfoldable pub scan_resources :
      List (String × Resource V) → List (Resource V) → DependencyGraph → DependencyGraph
  unfolding scan_fields
  scan_resources index [] graph = graph
  scan_resources index (r ∷ rs) graph =
      scan_resources index rs (scan_fields index (address r) r.properties graph)

  unfoldable pub build_graph : List (Resource V) → DependencyGraph
  unfolding by_address scan_resources
  build_graph resources =
      scan_resources (by_address [] resources) resources
        (record { dependencies = []; dependents = []; resources = map address resources })
