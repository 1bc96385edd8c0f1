-- ===== src/Crdt/Shape/Descends.antt =====
-- internal/schema/schema.go with subShapeSegs: the value that a valid value has at a path has the shape that is
-- declared there.
use any_sync_sdk.Base.{
  String, ◌≡◌, ◌≢◌, refl, sym, ◌∙◌, ap, subst, List, [], ◌∷◌, Option, none, some, ◌==◌, arith,
  eq_iff, Option-cases, Bool-cases, inl, inr,
}
use any_sync_sdk.Dict.{some_injective}
use any_sync_sdk.Anyenc.{Anyenc, Pairs, find, get_path, object}
use any_sync_sdk.Crdt.Shape.{
  Kind, Schema, Properties, leaf, items, properties, no_property, property, same_kind, ShapeError,
  unknown_field, property_of, SubShape, invalid, constrained, sub_shape_segs, sub_property, kind_of,
  check_kind, first_error, or_then, validate_value, validate_property,
}

abbrev below : List String → Option Schema → SubShape
below segs none = invalid
below segs (some s) = sub_shape_segs s segs

sub_property_lem :
    (ps : Properties) (seg : String) (segs : List String)
    → sub_property ps seg segs ≡ below segs (property_of ps seg)
unfolding sub_shape_segs property_of
sub_property_lem no_property seg segs = refl
sub_property_lem (property j s ps) seg segs = elim (Bool-cases (j == seg)) [
  | inl e ↦ rw e refl
  | inr e ↦ rw e (sub_property_lem ps seg segs)
]

leaf_end :
    (k : Kind) (seg : String) (segs : List String) (t : Schema)
    → sub_shape_segs (leaf k) (seg ∷ segs) ≢ constrained t
unfolding sub_shape_segs
leaf_end Kind.unknown seg segs t h = ground arith
leaf_end Kind.string_kind seg segs t h = ground arith
leaf_end Kind.number_kind seg segs t h = ground arith
leaf_end Kind.boolean_kind seg segs t h = ground arith
leaf_end Kind.null_kind seg segs t h = ground arith
leaf_end Kind.array_kind seg segs t h = ground arith
leaf_end Kind.object_kind seg segs t h = ground arith
leaf_end Kind.datetime seg segs t h = ground arith

constrained_injective : (s t : Schema) → constrained s ≡ constrained t → s ≡ t
constrained_injective s t h = cc

path_end : (s t : Schema) → sub_shape_segs s [] ≡ constrained t → s ≡ t
unfolding sub_shape_segs
path_end (leaf k) t h = constrained_injective (leaf k) t h
path_end (items s) t h = constrained_injective (items s) t h
path_end (properties ps) t h = constrained_injective (properties ps) t h

module _ ⦃E : Anyenc⦄ where
  open E use {Value, view, get, entries, get-entries}

  abbrev checked : Value → Option Schema → Option ShapeError
  checked v none = some unknown_field
  checked v (some s) = validate_value s v

  validate_property_lem :
      (ps : Properties) (k : String) (v : Value)
      → validate_property ps (k, v) ≡ checked v (property_of ps k)
  unfolding validate_value property_of
  validate_property_lem no_property k v = refl
  validate_property_lem (property j s ps) k v = elim (Bool-cases (j == k)) [
    | inl e ↦ rw e refl
    | inr e ↦ rw e (validate_property_lem ps k v)
  ]

  find-first_error :
      (f : String × Value → Option ShapeError) (ps : Pairs Value) (k : String) (u : Value)
      → first_error f ps ≡ none
      → find k ps ≡ some u
      → f (k, u) ≡ none
  find-first_error f [] k u h e = ground arith
  find-first_error f ((j, w) ∷ ps) k u h e = elim (Option-cases (f (j, w))) [
    | inr (x, q) ↦ ground arith
    | inl q ↦ elim (Bool-cases (j == k)) [
      | inl p ↦ ground (arith, eq_iff j k)
      | inr p ↦ find-first_error f ps k u (ground arith) (ground arith)
    ]
  ]

  is_object : (v : Value) → check_kind Kind.object_kind v ≡ none → view v ≡ object
  unfolding check_kind kind_of same_kind
  is_object v h = ground arith

  no_first : (a b : Option ShapeError) → or_then a b ≡ none → (a ≡ none) × (b ≡ none)
  no_first none b h = (refl, h)
  no_first (some e) b h = ground arith

  -- A field of a valid object has the shape that is declared for it.
  field_valid :
      (ps : Properties) (v : Value) (k : String) (u : Value) (s : Schema)
      → validate_value (properties ps) v ≡ none
      → get v k ≡ some u
      → property_of ps k ≡ some s
      → validate_value s u ≡ none
  unfolding validate_value
  field_valid ps v k u s h g p =
      let (kinds, fields) =
        no_first (check_kind Kind.object_kind v) (first_error (validate_property ps) (entries v))
          h in
      let o = is_object v kinds in
      let valid =
        find-first_error (validate_property ps) (entries v) k u fields
          (sym (get-entries v k o) ∙ g) in
      ap (checked u) (sym p) ∙ sym (validate_property_lem ps k u) ∙ valid

  -- Where a path below a shape is constrained, what a value of that shape holds at the path, if anything,
  -- has the shape that is declared there.
  pub get_path-validate_value :
      (segs : List String) (s t : Schema) (v w : Value)
      → validate_value s v ≡ none
      → sub_shape_segs s segs ≡ constrained t
      → get_path v segs ≡ some w
      → validate_value t w ≡ none
  unfolding get_path sub_shape_segs
  get_path-validate_value [] s t v w h c g =
      subst (λ x. validate_value t x ≡ none) (some_injective v w g)
        (subst (λ x. validate_value x v ≡ none) (path_end s t c) h)
  get_path-validate_value (seg ∷ segs) (leaf k) t v w h c g = absurd (leaf_end k seg segs t c)
  get_path-validate_value (seg ∷ segs) (items s) t v w h c g = ground arith
  get_path-validate_value (seg ∷ segs) (properties ps) t v w h c g =
      let found = sym (sub_property_lem ps seg segs) ∙ c in
      elim (Option-cases (property_of ps seg)) [
        | inl e ↦ ground arith
        | inr (s, e) ↦ elim (Option-cases (get v seg)) [
          | inl q ↦ ground arith
          | inr (u, q) ↦
              get_path-validate_value segs s t u w (field_valid ps v seg u s h q e)
                (sym (ap (below segs) e) ∙ found) (ground arith)
        ]
      ]
