-- ===== src/Crdt/Admission.antt =====
-- internal/crdt/controller.go, routeOf to filterOpFields, with the declarations of
-- internal/schema/dataset.go that they read: which fields an input op may write on which route.
pub mod Filter
use any_sync_sdk.Base.{
  ℕ, suc, String, Bool, true, false, not, List, [], ◌∷◌, ◌++◌, Option, none, some, ◌==◌,
  if◌then◌else◌, eqb,
}
use any_sync_sdk.Anyenc.{Anyenc, Pairs, View, object}
use any_sync_sdk.Crdt.Op
use any_sync_sdk.Crdt.Op.{Op, OpType, Change, split_dots}
use any_sync_sdk.Crdt.Apply.{op_field_heads, head_of}
use any_sync_sdk.Crdt.Hooks.{is_multi_field}
use any_sync_sdk.Crdt.Validate.{PathError, validate_path, validate_op_paths}

-- `unscoped` is the zero value, which `Normalized` resolves.
pub data Scope : Type 0 where
  unscoped synced derived local account : Scope

unfoldable pub same_scope : Scope → Scope → Bool
same_scope Scope.unscoped Scope.unscoped = true
same_scope Scope.synced Scope.synced = true
same_scope Scope.derived Scope.derived = true
same_scope Scope.local Scope.local = true
same_scope Scope.account Scope.account = true
same_scope _ _ = false

-- The fields of `schema.Dataset` that the admission reads.
pub record Dataset : Type 0 where
  pub fields : List (String × Scope)
  pub dynamic : Bool

unfoldable pub scope_of : List (String × Scope) → String → Option Scope
scope_of [] id = none
scope_of ((field, scope) ∷ rest) id = if field == id then some scope else scope_of rest id

pub data ContentError : Type 0 where
  bad_path : PathError → ContentError
  undeclared derived_only : ContentError
  wrong_route : Scope → Scope → ContentError

unfoldable pub route_of : {V : Type 0} → Change V → Scope
route_of ch = if ch.local then Scope.local else if ch.injected then Scope.account else Scope.synced

-- The test of a field's class against the route.
unfoldable pub check_scope : Scope → Scope → Option ContentError
unfolding same_scope
check_scope scope route =
    if same_scope scope Scope.derived
    then some derived_only
    else if same_scope scope route
    then none
    else some (wrong_route scope route)

unfoldable pub classify_field_write : Dataset → String → Scope → Bool → Option ContentError
unfolding scope_of check_scope
classify_field_write ds field route scope_by_key = elim (scope_of ds.fields field) [
  | some scope ↦ check_scope scope route
  | none ↦
      if not ds.dynamic
      then some undeclared
      else if scope_by_key
      then none
      else check_scope Scope.synced route
]

-- The heads of an op, up to the first error.
unfoldable pub classify_heads : Dataset → Scope → Bool → List String → Option ContentError
unfolding classify_field_write
classify_heads ds route scope_by_key [] = none
classify_heads ds route scope_by_key (field ∷ rest) =
    let later = classify_heads ds route scope_by_key rest in
    elim (classify_field_write ds field route scope_by_key) [ some e ↦ some e | none ↦ later ]

module _ ⦃E : Anyenc⦄ where
  open E use {Value, view, entries, put, new_object}

  unfoldable pub op_content_valid : Dataset → Scope → Bool → Op Value → Option ContentError
  unfolding classify_heads
  op_content_valid ds route scope_by_key op = elim (validate_op_paths op) [
    | some e ↦ some (bad_path e)
    | none ↦ classify_heads ds route scope_by_key (op_field_heads op)
  ]

  -- One key of a multi-field payload.
  unfoldable pub key_error : Dataset → Scope → Bool → String → Option ContentError
  unfolding classify_field_write
  key_error ds route scope_by_key key = elim (validate_path (split_dots key)) [
    | some e ↦ some (bad_path e)
    | none ↦ classify_field_write ds (head_of (split_dots key)) route scope_by_key
  ]

  -- The visit: the surviving keys, their number, and the errors with the keys that they name.
  pub record Filtering : Type 0 where
    pub kept : Value
    pub survivors : ℕ
    pub errors : List (String × ContentError)

  abbrev pub filter_key : Option ContentError → String → Value → Filtering → Filtering
  filter_key (some e) key v st = record st { errors = st.errors ++ (key, e) ∷ [] }
  filter_key none key v st = record st { kept = put st.kept key v; survivors = suc st.survivors }

  unfoldable pub filter_keys : Dataset → Scope → Bool → Pairs Value → Filtering → Filtering
  filter_keys ds route scope_by_key [] st = st
  filter_keys ds route scope_by_key ((key, v) ∷ rest) st =
      filter_keys ds route scope_by_key rest
        (filter_key (key_error ds route scope_by_key key) key v st)

  -- The op that is left (none: the op is dropped) and the errors; the key is empty for a whole op.
  abbrev pub Filtered : Type 0
  Filtered = Option (Op Value) × List (String × ContentError)

  abbrev pub finish_filter : Op Value → Filtering → Filtered
  finish_filter op st = elim st.errors [
    | [] ↦ (some op, [])
    | e ∷ es ↦
        if eqb st.survivors 0
        then (none, e ∷ es)
        else (some (record op { payload = some st.kept }), e ∷ es)
  ]

  abbrev pub payload_keys : Op Value → Pairs Value
  payload_keys op = elim op.payload [ none ↦ [] | some payload ↦ entries payload ]

  unfoldable pub filter_op_fields : Dataset → Scope → Bool → Op Value → Filtered
  unfolding op_content_valid filter_keys
  filter_op_fields ds route scope_by_key op =
      if is_multi_field op
      then finish_filter op (
          filter_keys ds route scope_by_key (payload_keys op)
            (record { kept = new_object; survivors = 0; errors = [] }))
      else elim (op_content_valid ds route scope_by_key op) [
        | some e ↦ (none, ("", e) ∷ [])
        | none ↦ (some op, [])
      ]
