-- ===== src/Blast/Edges.antt =====
-- The edges that `BuildGraph` of internal/blast/blast.go finds.
use ia_cstudio.Prelude.{
  any-append, ◌≡◌, refl, ap, ◌∙◌, ◌⊎◌, inl, inr, String, ◌<>◌, Bool, true, false, not, ◌&&◌, ◌||◌,
  List, [], ◌∷◌, ◌++◌, if◌then◌else◌, arith, Bool-cases, ◌==◌, eq_iff, eq_refl, any, assign,
  entry-assign, if-both,
}
use ia_cstudio.Text.Trim.{contains}
use ia_cstudio.Blast.Graph.{
  Dependency, DependencyGraph, Resource, deps_at, append_dep, add_dep, address, by_address,
  scan_references, scan_inferred, scan_field, scan_fields, scan_resources, build_graph,
  names_resource, infer_resource_type, has_dep,
}

same_dep : Dependency → Dependency → Bool
same_dep a b = a.from == b.from && a.to == b.to && a.field == b.field

-- The edge is among those of a resource's dependents.
pub is_edge : DependencyGraph → String → Dependency → Bool
unfolding same_dep
is_edge graph to dep = any (λ d. same_dep d dep) (deps_at graph.dependents to)

abbrev pub In : {A : Type 0} → A → List A → Type 0
In x [] = ⊥
In x (y ∷ ys) = (y ≡ x) ⊎ In x ys

Grows : DependencyGraph → DependencyGraph → Type 0
Grows g h = (to : String) (dep : Dependency) → is_edge g to dep ≡ true → is_edge h to dep ≡ true

deps-append :
    (m : List (String × List Dependency)) (key : String) (dep : Dependency) (k : String)
    → deps_at (append_dep m key dep) k
      ≡ (if key == k then deps_at m key ++ dep ∷ [] else deps_at m k)
unfolding append_dep
deps-append m key dep k =
    rw (entry-assign m key (deps_at m key ++ dep ∷ []) k)
      (elim (Bool-cases (key == k)) [ inl same ↦ rw same refl | inr differ ↦ rw differ refl ])

add-Grows : (g : DependencyGraph) (dep : Dependency) → Grows g (add_dep g dep)
unfolding Grows is_edge add_dep
add-Grows g dep to d h = elim (Bool-cases (dep.to == to)) [
  | inr differ ↦ rw (deps-append g.dependents dep.to dep to, differ) h
  | inl same ↦
      let here : any (λ x. same_dep x d) (deps_at g.dependents dep.to) ≡ true =
        ap (λ k. any (λ x. same_dep x d) (deps_at g.dependents k)) ((eq_iff dep.to to).0 same)
        ∙ h in
      rw (deps-append g.dependents dep.to dep to, same)
        (any-append (λ x. same_dep x d) (deps_at g.dependents dep.to) (dep ∷ []) ∙ rw here refl)
]

add-is_edge : (g : DependencyGraph) (dep : Dependency) → is_edge (add_dep g dep) dep.to dep ≡ true
unfolding is_edge add_dep same_dep
add-is_edge g dep =
    rw (deps-append g.dependents dep.to dep dep.to, eq_refl dep.to)
      (any-append (λ x. same_dep x dep) (deps_at g.dependents dep.to) (dep ∷ [])
        ∙ rw (eq_refl dep.from, eq_refl dep.to, eq_refl dep.field) (ground arith))

Grows-refl : (g : DependencyGraph) → Grows g g
unfolding Grows
Grows-refl g to dep h = h

Grows-trans : (a b c : DependencyGraph) → Grows a b → Grows b c → Grows a c
unfolding Grows
Grows-trans a b c f g to dep h = g to dep (f to dep h)

module _ {V : Type 0} (sprint : V → String) where
  references-Grows :
      (from field value : String) (index : List (String × Resource V)) (g : DependencyGraph)
      → Grows g (scan_references sprint from field value index g)
  unfolding scan_references
  references-Grows from field value [] g = Grows-refl g
  references-Grows from field value ((to, r) ∷ index) g =
      Grows-trans g _ _
        (if-both (Grows g) (to == from) (Grows-refl g)
          (if-both (Grows g) (contains value (to <> ".")) (add-Grows g _) (Grows-refl g)))
        (references-Grows from field value index _)

  inferred-Grows :
      (from field inferred_type : String) (index : List (String × Resource V)) (g : DependencyGraph)
      → Grows g (scan_inferred sprint from field inferred_type index g)
  unfolding scan_inferred
  inferred-Grows from field inferred_type [] g = Grows-refl g
  inferred-Grows from field inferred_type ((to, r) ∷ index) g =
      Grows-trans g _ _
        (if-both (Grows g) (r.resource_type == inferred_type && not (to == from))
          (if-both (Grows g) (not (has_dep (deps_at g.dependencies from) to field)) (add-Grows g _)
            (Grows-refl g))
          (Grows-refl g))
        (inferred-Grows from field inferred_type index _)

  field-Grows :
      (index : List (String × Resource V)) (from field : String) (value : V) (g : DependencyGraph)
      → Grows
          (scan_references sprint from field (sprint value) index g)
          (scan_field sprint index from (field, value) g)
  unfolding scan_field
  field-Grows index from field value g =
      if-both (Grows (scan_references sprint from field (sprint value) index g))
        (names_resource sprint field)
        (inferred-Grows from field (infer_resource_type field) index _) (Grows-refl _)

  fields-Grows :
      (index : List (String × Resource V)) (from : String) (properties : List (String × V))
      (g : DependencyGraph)
      → Grows g (scan_fields sprint index from properties g)
  unfolding scan_fields
  fields-Grows index from [] g = Grows-refl g
  fields-Grows index from ((field, value) ∷ properties) g =
      Grows-trans g (scan_field sprint index from (field, value) g) _
        (Grows-trans g _ _ (references-Grows from field (sprint value) index g)
          (field-Grows index from field value g))
        (fields-Grows index from properties _)

  resources-Grows :
      (index : List (String × Resource V)) (rs : List (Resource V)) (g : DependencyGraph)
      → Grows g (scan_resources sprint index rs g)
  unfolding scan_resources
  resources-Grows index [] g = Grows-refl g
  resources-Grows index (r ∷ rs) g =
      Grows-trans g _ _ (fields-Grows index (address r) r.properties g) (resources-Grows index rs _)

  abbrev indexed : List (String × Resource V) → String → Bool
  indexed index to = any (λ (e : String × Resource V). e.0 == to) index

  indexed-assign :
      (index : List (String × Resource V)) (key : String) (r : Resource V) (to : String)
      → indexed (assign index key r) to ≡ (key == to || indexed index to)
  unfolding assign
  indexed-assign [] key r to = refl
  indexed-assign ((k, b) ∷ index) key r to = elim (Bool-cases (k == key)) [
    | inl same ↦ rw (same, (eq_iff k key).0 same) (ground arith)
    | inr differ ↦ rw (differ, indexed-assign index key r to) (ground arith)
  ]

  indexed-by_address :
      (rs : List (Resource V)) (index : List (String × Resource V)) (to : String)
      → indexed (by_address sprint index rs) to
        ≡ (indexed index to || any (λ (r : Resource V). address r == to) rs)
  unfolding by_address
  indexed-by_address [] index to = ground arith
  indexed-by_address (r ∷ rs) index to =
      indexed-by_address rs (assign index (address r) r) to
      ∙ rw (indexed-assign index (address r) r to) (ground arith)

  references-found :
      (from field value to : String) (index : List (String × Resource V)) (g : DependencyGraph)
      → indexed index to ≡ true
      → to == from ≡ false
      → contains value (to <> ".") ≡ true
      → is_edge
          (scan_references sprint from field value index g)
          to
          (record { from = from; to = to; field = field })
        ≡ true
  unfolding scan_references Grows
  references-found from field value to [] g h other said = cc
  references-found from field value to ((k, r) ∷ index) g h other said =
      elim (Bool-cases (k == to)) [
        | inr differ ↦ references-found from field value to index _ (rw differ at h) other said
        | inl same ↦
            let is : k ≡ to = (eq_iff k to).0 same in
            let edge : Dependency = record { from = from; to = to; field = field } in
            rw is (
              rw (other, said)
                (references-Grows from field value index (add_dep g edge) to edge
                  (add-is_edge g edge)))
      ]

  fields-found :
      (index : List (String × Resource V)) (from to field : String) (value : V)
      (properties : List (String × V)) (g : DependencyGraph)
      → In (field, value) properties
      → indexed index to ≡ true
      → to == from ≡ false
      → contains (sprint value) (to <> ".") ≡ true
      → is_edge
          (scan_fields sprint index from properties g)
          to
          (record { from = from; to = to; field = field })
        ≡ true
  unfolding scan_fields Grows
  fields-found index from to field value [] g none_left known other said = absurd none_left
  fields-found index from to field value (p ∷ properties) g (inr later) known other said =
      fields-found index from to field value properties _ later known other said
  fields-found index from to field value (p ∷ properties) g (inl is) known other said =
      let edge : Dependency = record { from = from; to = to; field = field } in
      let found = references-found from field (sprint value) to index g known other said in
      rw is (
        fields-Grows index from properties _ to edge
          (field-Grows index from field value g to edge found))

  resources-found :
      (index : List (String × Resource V)) (r : Resource V) (to field : String) (value : V)
      (rs : List (Resource V)) (g : DependencyGraph)
      → In r rs
      → In (field, value) r.properties
      → indexed index to ≡ true
      → to == address r ≡ false
      → contains (sprint value) (to <> ".") ≡ true
      → is_edge
          (scan_resources sprint index rs g)
          to
          (record { from = address r; to = to; field = field })
        ≡ true
  unfolding scan_resources Grows
  resources-found index r to field value [] g none_left holds known other said = absurd none_left
  resources-found index r to field value (q ∷ rs) g (inr later) holds known other said =
      resources-found index r to field value rs _ later holds known other said
  resources-found index r to field value (q ∷ rs) g (inl is) holds known other said = rw is (
      resources-Grows index rs _ to (record { from = address r; to = to; field = field })
        (fields-found index (address r) to field value r.properties g holds known other said))

  -- No explicit reference is missed: if the printed value of a property of a resource contains the
  -- address of another resource, followed by a dot, then the graph has the edge from the first to the
  -- second by that field among the dependents of the second, whatever else the resources hold.
  pub reference_found :
      (resources : List (Resource V)) (r : Resource V) (to field : String) (value : V)
      → In r resources
      → In (field, value) r.properties
      → any (λ (q : Resource V). address q == to) resources ≡ true
      → to == address r ≡ false
      → contains (sprint value) (to <> ".") ≡ true
      → is_edge
          (build_graph sprint resources)
          to
          (record { from = address r; to = to; field = field })
        ≡ true
  unfolding build_graph
  reference_found resources r to field value within holds known other said =
      resources-found (by_address sprint [] resources) r to field value resources _ within holds
        (indexed-by_address resources [] to ∙ known) other said
