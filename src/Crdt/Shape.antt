-- ===== src/Crdt/Shape.antt =====
-- internal/schema/schema.go: the declared shape of a value, its check, and the descent of a path into a
-- shape (subShapeSegs of internal/crdt/schemahandler.go). A Go Schema has a kind, and for an array the
-- shape of the items, for an object the shapes of the properties, or nil there.
pub mod Descends
use any_sync_sdk.Base.{
  String, Bool, true, false, List, [], ◌∷◌, Option, none, some, ◌==◌, if◌then◌else◌,
}
use any_sync_sdk.Anyenc.{
  Anyenc, Pairs, null, boolean, number, string, array, object, date_time, opaque,
}

pub data Kind : Type 0 where
  unknown string_kind number_kind boolean_kind null_kind array_kind object_kind datetime : Kind

-- `leaf` has no items and no properties, whatever its kind.
mutual
  pub data Schema : Type 0 where
    leaf : Kind → Schema
    items : Schema → Schema
    properties : Properties → Schema

  pub data Properties : Type 0 where
    no_property : Properties
    property : String → Schema → Properties → Properties

abbrev pub kind : Schema → Kind
kind (leaf k) = k
kind (items _) = array_kind
kind (properties _) = object_kind

unfoldable pub same_kind : Kind → Kind → Bool
same_kind Kind.unknown Kind.unknown = true
same_kind Kind.string_kind Kind.string_kind = true
same_kind Kind.number_kind Kind.number_kind = true
same_kind Kind.boolean_kind Kind.boolean_kind = true
same_kind Kind.null_kind Kind.null_kind = true
same_kind Kind.array_kind Kind.array_kind = true
same_kind Kind.object_kind Kind.object_kind = true
same_kind Kind.datetime Kind.datetime = true
same_kind _ _ = false

pub data ShapeError : Type 0 where
  unsupported wrong_kind unknown_field : ShapeError

unfoldable pub property_of : Properties → String → Option Schema
property_of no_property k = none
property_of (property j s ps) k = let rest = property_of ps k in if j == k then some s else rest

-- What is declared at a path below a shape.
pub data SubShape : Type 0 where
  invalid unconstrained : SubShape
  constrained : Schema → SubShape

-- The path goes on below a property, with what is found below each of them.
unfoldable mutual
  pub sub_shape_segs : Schema → List String → SubShape
  sub_shape_segs (leaf k) [] = constrained (leaf k)
  sub_shape_segs (leaf Kind.object_kind) (seg ∷ segs) = unconstrained
  sub_shape_segs (leaf Kind.array_kind) (seg ∷ segs) = unconstrained
  sub_shape_segs (leaf _) (seg ∷ segs) = invalid
  sub_shape_segs (items s) [] = constrained (items s)
  sub_shape_segs (items s) (seg ∷ segs) = unconstrained
  sub_shape_segs (properties ps) [] = constrained (properties ps)
  sub_shape_segs (properties ps) (seg ∷ segs) = sub_property ps seg segs

  pub sub_property : Properties → String → List String → SubShape
  sub_property no_property seg segs = invalid
  sub_property (property j s ps) seg segs =
      let here = sub_shape_segs s segs in
      let later = sub_property ps seg segs in if j == seg then here else later

module _ ⦃E : Anyenc⦄ where
  open E use {Value, view, entries}

  unfoldable pub kind_of : Value → Kind
  kind_of v = elim (view v) [
    | string _ ↦ Kind.string_kind
    | number _ ↦ Kind.number_kind
    | boolean _ ↦ Kind.boolean_kind
    | null ↦ Kind.null_kind
    | array _ ↦ Kind.array_kind
    | object ↦ Kind.object_kind
    | date_time _ ↦ Kind.datetime
    | opaque ↦ Kind.unknown
  ]

  unfoldable pub check_kind : Kind → Value → Option ShapeError
  unfolding kind_of same_kind
  check_kind declared v =
      if same_kind (kind_of v) Kind.unknown
      then some unsupported
      else if same_kind (kind_of v) declared
      then none
      else some wrong_kind

  abbrev pub array_items : Value → List Value
  array_items v = elim (view v) [ array vs ↦ vs | _ ↦ [] ]

  -- The first error of the elements of an array, of the pairs of an object.
  abbrev pub first_error : {A : Type 0} → (A → Option ShapeError) → List A → Option ShapeError
  first_error f [] = none
  first_error f (x ∷ xs) =
      let later = first_error f xs in elim (f x) [ some e ↦ some e | none ↦ later ]

  abbrev pub or_then : Option ShapeError → Option ShapeError → Option ShapeError
  or_then (some e) later = some e
  or_then none later = later

  unfoldable mutual
    pub validate_value : Schema → Value → Option ShapeError
    validate_value (leaf k) v = check_kind k v
    validate_value (items s) v =
        or_then (check_kind Kind.array_kind v) (first_error (validate_value s) (array_items v))
    validate_value (properties ps) v =
        or_then (check_kind Kind.object_kind v) (first_error (validate_property ps) (entries v))

    pub validate_property : Properties → String × Value → Option ShapeError
    validate_property no_property pair = some unknown_field
    validate_property (property j s ps) pair =
        let here = validate_value s pair.1 in
        let later = validate_property ps pair in if j == pair.0 then here else later
