-- ===== src/Plans/Classify/Cidr.antt =====
-- Where `containsPublicCIDR` of internal/plan/classifier.go finds a public range.
use ia_cstudio.Prelude.{
  ◌≡◌, ◌↔◌, ◌⊎◌, refl, String, Bool, true, false, ◌||◌, arith, inl, inr, ◌==◌, eq_iff,
}
use ia_cstudio.Plans.Change.{
  Value, Items, Fields, null, bool, number, text, array, object, nil, item, end, field,
}
use ia_cstudio.Plans.Classify.{
  contains_public_cidr, items_contain_public_cidr, fields_contain_public_cidr,
}

-- A public range is the value, or stands somewhere inside it.
mutual
  pub data IsPublic : Value → Type 0 where
    any_v4 : IsPublic (text "0.0.0.0/0")
    any_v6 : IsPublic (text "::/0")
    in_array : {items : Items} → IsPublicItem items → IsPublic (array items)
    in_object : {fields : Fields} → IsPublicField fields → IsPublic (object fields)

  pub data IsPublicItem : Items → Type 0 where
    first_item : {v : Value} {vs : Items} → IsPublic v → IsPublicItem (item v vs)
    later_item : {v : Value} {vs : Items} → IsPublicItem vs → IsPublicItem (item v vs)

  pub data IsPublicField : Fields → Type 0 where
    first_field : {k : String} {v : Value} {fs : Fields} → IsPublic v → IsPublicField (field k v fs)
    later_field :
        {k : String} {v : Value} {fs : Fields} → IsPublicField fs → IsPublicField (field k v fs)

or_cases : (a b : Bool) → (a || b) ≡ true → (a ≡ true) ⊎ (b ≡ true)
or_cases true b h = inl refl
or_cases false b h = inr h

text-IsPublic : (s : String) → (s == "0.0.0.0/0" || s == "::/0") ≡ true → IsPublic (text s)
text-IsPublic s h = elim (or_cases (s == "0.0.0.0/0") (s == "::/0") h) [
  | inl v4 ↦ rw ((eq_iff s "0.0.0.0/0").0 v4) any_v4
  | inr v6 ↦ rw ((eq_iff s "::/0").0 v6) any_v6
]

mutual
  unfolding contains_public_cidr

  contains-IsPublic : (v : Value) → contains_public_cidr v ≡ true → IsPublic v
  contains-IsPublic null h = cc
  contains-IsPublic (bool b) h = cc
  contains-IsPublic (number n) h = cc
  contains-IsPublic (text s) h = text-IsPublic s h
  contains-IsPublic (array items) h = in_array (items-IsPublicItem items h)
  contains-IsPublic (object fields) h = in_object (fields-IsPublicField fields h)

  items-IsPublicItem : (vs : Items) → items_contain_public_cidr vs ≡ true → IsPublicItem vs
  items-IsPublicItem nil h = cc
  items-IsPublicItem (item v vs) h =
      elim (or_cases (contains_public_cidr v) (items_contain_public_cidr vs) h) [
        | inl now ↦ first_item (contains-IsPublic v now)
        | inr later ↦ later_item (items-IsPublicItem vs later)
      ]

  fields-IsPublicField : (fs : Fields) → fields_contain_public_cidr fs ≡ true → IsPublicField fs
  fields-IsPublicField end h = cc
  fields-IsPublicField (field k v fs) h =
      elim (or_cases (contains_public_cidr v) (fields_contain_public_cidr fs) h) [
        | inl now ↦ first_field (contains-IsPublic v now)
        | inr later ↦ later_field (fields-IsPublicField fs later)
      ]

mutual
  unfolding contains_public_cidr

  IsPublic-contains : {v : Value} → IsPublic v → contains_public_cidr v ≡ true
  IsPublic-contains any_v4 = refl
  IsPublic-contains any_v6 = refl
  IsPublic-contains (in_array h) = IsPublicItem-contains h
  IsPublic-contains (in_object h) = IsPublicField-contains h

  IsPublicItem-contains : {vs : Items} → IsPublicItem vs → items_contain_public_cidr vs ≡ true
  IsPublicItem-contains (first_item h) = rw (IsPublic-contains h) refl
  IsPublicItem-contains (later_item h) = rw (IsPublicItem-contains h) (ground arith)

  IsPublicField-contains : {fs : Fields} → IsPublicField fs → fields_contain_public_cidr fs ≡ true
  IsPublicField-contains (first_field h) = rw (IsPublic-contains h) refl
  IsPublicField-contains (later_field h) = rw (IsPublicField-contains h) (ground arith)

-- The search finds a public range exactly if one stands somewhere in the value, at any depth of
-- arrays and objects.
pub contains_public_cidr_iff : (v : Value) → (contains_public_cidr v ≡ true) ↔ IsPublic v
contains_public_cidr_iff v = (contains-IsPublic v, λ h. IsPublic-contains h)
