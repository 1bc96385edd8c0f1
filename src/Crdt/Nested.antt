-- ===== src/Crdt/Nested.antt =====
-- The value helpers at the end of internal/crdt/apply.go: reads and writes at a path inside a record.
use any_sync_sdk.Base.{
  String, Bool, true, false, List, [], ◌∷◌, ◌++◌, Option, none, some, if◌then◌else◌, length, eqb,
}
use mathlib.Core.Option
use any_sync_sdk.Anyenc.{Anyenc, object, array, number, get_path}
use any_sync_sdk.Crdt.Versions.{FieldPath}

-- A nil pointer where the caller keeps the record as it is.
abbrev pub or_keep {ℓ} : {A : Type ℓ} → Option A → A → A
or_keep none a = a
or_keep (some b) a = b

module _ ⦃E : Anyenc⦄ where
  open E use {Value, Number, zero_number, view, get, put, del, equal, new_object, new_array}

  -- The object under a key, a fresh one when the entry is missing or no object.
  unfoldable pub object_child : Value → String → Value
  object_child cur key = elim (get cur key) [
    | none ↦ new_object
    | some next ↦ elim (view next) [ object ↦ next | _ ↦ new_object ]
  ]

  unfoldable pub set_nested : Value → FieldPath → Value → Value
  set_nested cur [] value = cur
  set_nested cur (key ∷ []) value = put cur key value
  set_nested cur (key ∷ next ∷ rest) value =
      put cur key (set_nested (object_child cur key) (next ∷ rest) value)

  -- `none` is the answer false: nothing was there to remove.
  unfoldable pub unset_nested : Value → FieldPath → Option Value
  unset_nested cur [] = none
  unset_nested cur (key ∷ []) = elim (get cur key) [ none ↦ none | some _ ↦ some (del cur key) ]
  unset_nested cur (key ∷ next ∷ rest) = elim (get cur key) [
    | none ↦ none
    | some child ↦ elim (view child) [
      | object ↦ Option.map (put cur key) (unset_nested child (next ∷ rest))
      | _ ↦ none
    ]
  ]

  -- `walkParent` hands out the parent of the path's last key, and the caller changes it in place.
  unfoldable pub walk_parent : Value → FieldPath → (Value → String → Value) → Value
  walk_parent cur [] change = cur
  walk_parent cur (leaf ∷ []) change = change cur leaf
  walk_parent cur (key ∷ next ∷ rest) change =
      put cur key (walk_parent (object_child cur key) (next ∷ rest) change)

  -- The same for `walkParentReadOnly`, which creates nothing.
  unfoldable pub walk_parent_read_only :
      Value → FieldPath → (Value → String → Option Value) → Option Value
  walk_parent_read_only cur [] change = none
  walk_parent_read_only cur (leaf ∷ []) change = change cur leaf
  walk_parent_read_only cur (key ∷ next ∷ rest) change = elim (get cur key) [
    | none ↦ none
    | some child ↦ elim (view child) [
      | object ↦ Option.map (put cur key) (walk_parent_read_only child (next ∷ rest) change)
      | _ ↦ none
    ]
  ]

  unfoldable pub has_item : List Value → Value → Bool
  has_item [] value = false
  has_item (item ∷ items) value = if equal item value then true else has_item items value

  unfoldable pub add_item : Value → Value → String → Value
  unfolding has_item
  add_item value parent leaf = elim (get parent leaf) [
    | none ↦ put parent leaf (new_array (value ∷ []))
    | some arr ↦ elim (view arr) [
      | array items ↦
          if has_item items value then parent else put parent leaf (new_array (items ++ value ∷ []))
      | _ ↦ put parent leaf (new_array (value ∷ []))
    ]
  ]

  unfoldable pub add_to_set : Value → FieldPath → Value → Value
  unfolding walk_parent add_item
  add_to_set rec path value = walk_parent rec path (add_item value)

  unfoldable pub keep_items : List Value → Value → List Value
  keep_items [] value = []
  keep_items (item ∷ items) value =
      let rest = keep_items items value in if equal item value then rest else item ∷ rest

  unfoldable pub pull_item : Value → Value → String → Option Value
  unfolding keep_items
  pull_item value parent leaf = elim (get parent leaf) [
    | none ↦ none
    | some arr ↦ elim (view arr) [
      | array items ↦
          let kept = keep_items items value in
          if eqb (length kept) (length items) then none else some (put parent leaf (new_array kept))
      | _ ↦ none
    ]
  ]

  unfoldable pub pull_from_set : Value → FieldPath → Value → Value
  unfolding walk_parent_read_only pull_item
  pull_from_set rec path value = or_keep (walk_parent_read_only rec path (pull_item value)) rec

  unfoldable pub get_number : Value → FieldPath → Number
  unfolding get_path
  get_number rec path = elim (get_path rec path) [
    | none ↦ zero_number
    | some v ↦ elim (view v) [ number n ↦ n | _ ↦ zero_number ]
  ]
