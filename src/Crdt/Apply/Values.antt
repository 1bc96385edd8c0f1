-- ===== src/Crdt/Apply/Values.antt =====
-- Reads of a record after the value helpers of internal/crdt/apply.go.
use any_sync_sdk.Base.{
  String, ◌≡◌, ◌≢◌, [], ◌∷◌, Option, none, some, arith, eq_iff, eq_refl, inl, inr, Option-cases,
}
use any_sync_sdk.Anyenc.{Anyenc, object, get_path}
use any_sync_sdk.Crdt.Versions.{FieldPath}
use any_sync_sdk.Crdt.Nested.{object_child, set_nested, unset_nested, or_keep}

module _ ⦃E : Anyenc⦄ where
  open E use {
    Value, view, get, put, del, new_object, view-put, get-put, view-new_object, get-new_object,
    view-del, get-del,
  }

  pub view-object_child : (cur : Value) (key : String) → view (object_child cur key) ≡ object
  unfolding object_child
  view-object_child cur key = grind (arith, view-new_object)

  -- The value that was written is read back.
  pub get_path-set_nested :
      (cur v : Value) (key : String) (rest : FieldPath)
      → view cur ≡ object
      → get_path (set_nested cur (key ∷ rest) v) (key ∷ rest) ≡ some v
  unfolding set_nested get_path
  get_path-set_nested cur v key [] h = ground (arith, get-put cur key key v, eq_refl key)
  get_path-set_nested cur v key (next ∷ rest) h = ground (
    arith,
    get-put cur key key (set_nested (object_child cur key) (next ∷ rest) v),
    eq_refl key,
    get_path-set_nested (object_child cur key) v next rest (view-object_child cur key),
  )

  -- A write leaves the other top-level fields alone.
  pub get-set_nested_ne :
      (cur v : Value) (key k : String) (rest : FieldPath)
      → view cur ≡ object
      → key ≢ k
      → get (set_nested cur (key ∷ rest) v) k ≡ get cur k
  unfolding set_nested
  get-set_nested_ne cur v key k [] h ne = ground (arith, get-put cur key k v, eq_iff key k)
  get-set_nested_ne cur v key k (next ∷ rest) h ne =
      ground
        (arith, get-put cur key k (set_nested (object_child cur key) (next ∷ rest) v), eq_iff key k)

  pub view-set_nested :
      (cur v : Value) (path : FieldPath) → view cur ≡ object → view (set_nested cur path v) ≡ object
  unfolding set_nested
  view-set_nested cur v [] h = h
  view-set_nested cur v (key ∷ []) h = view-put cur key v h
  view-set_nested cur v (key ∷ next ∷ rest) h = view-put cur key _ h

  -- `unsetNested` as the record that it leaves.
  abbrev pub cleared : Value → FieldPath → Value
  cleared cur path = or_keep (unset_nested cur path) cur

  pub view-cleared :
      (cur : Value) (path : FieldPath) → view cur ≡ object → view (cleared cur path) ≡ object
  unfolding unset_nested
  view-cleared cur [] h = h
  view-cleared cur (key ∷ []) h = ground (arith, view-del cur key)
  view-cleared cur (key ∷ next ∷ rest) h = grind (arith, view-put)

  pub get-cleared_ne :
      (cur : Value) (key k : String) (rest : FieldPath)
      → view cur ≡ object
      → key ≢ k
      → get (cleared cur (key ∷ rest)) k ≡ get cur k
  unfolding unset_nested
  get-cleared_ne cur key k [] h ne = ground (arith, get-del cur key k, eq_iff key k)
  get-cleared_ne cur key k (next ∷ rest) h ne = grind (arith, get-put, eq_iff)

  -- What stands at a path, read through objects alone (`v.Get` also indexes arrays).
  unfoldable pub field_at : Value → FieldPath → Option Value
  field_at cur [] = some cur
  field_at cur (key ∷ rest) = elim (view cur) [
    | object ↦ elim (get cur key) [ none ↦ none | some next ↦ field_at next rest ]
    | _ ↦ none
  ]

  pub field_at-set_nested :
      (cur v : Value) (key : String) (rest : FieldPath)
      → view cur ≡ object
      → field_at (set_nested cur (key ∷ rest) v) (key ∷ rest) ≡ some v
  unfolding set_nested field_at
  field_at-set_nested cur v key [] h =
      ground (arith, get-put cur key key v, view-put cur key v, eq_refl key)
  field_at-set_nested cur v key (next ∷ rest) h =
      let inner = set_nested (object_child cur key) (next ∷ rest) v in
      ground (
        arith,
        get-put cur key key inner,
        view-put cur key inner,
        eq_refl key,
        field_at-set_nested (object_child cur key) v next rest (view-object_child cur key),
      )

  pub field_at-cleared :
      (cur : Value) (key : String) (rest : FieldPath)
      → view cur ≡ object
      → field_at (cleared cur (key ∷ rest)) (key ∷ rest) ≡ none
  unfolding unset_nested field_at
  field_at-cleared cur key [] h = elim (Option-cases (get cur key)) [
    | inl e ↦ ground arith
    | inr (c, e) ↦ ground (arith, get-del cur key key, view-del cur key, eq_refl key)
  ]
  field_at-cleared cur key (next ∷ rest) h = elim (Option-cases (get cur key)) [
    | inl e ↦ ground arith
    | inr (c, e) ↦ elim (Option-cases (unset_nested c (next ∷ rest))) [
      | inl f ↦ ground (arith, field_at-cleared c next rest)
      | inr (d, f) ↦ ground (
        arith,
        field_at-cleared c next rest,
        get-put cur key key d,
        view-put cur key d,
        eq_refl key,
      )
    ]
  ]

  -- A path is read at its first key.
  pub field_at-congr :
      (a b : Value) (key : String) (rest : FieldPath)
      → view a ≡ object
      → view b ≡ object
      → get a key ≡ get b key
      → field_at a (key ∷ rest) ≡ field_at b (key ∷ rest)
  unfolding field_at
  field_at-congr a b key rest h k e = ground arith
