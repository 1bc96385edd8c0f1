-- ===== src/Crdt/SchemaHandler/PreValidate.antt =====
-- internal/crdt/schemahandler.go, PreValidateMulti: the gate of a change before it enters the DAG. The
-- handler is the one with the local rules; a getter that is nil answers none.
use any_sync_sdk.Base.{String, List, [], ◌∷◌, Option, none, some, ◌==◌, if◌then◌else◌}
use any_sync_sdk.Anyenc.{Anyenc, Pairs, object}
use any_sync_sdk.Dict.{string_key, lookup}
use any_sync_sdk.Crdt.Op.{Op, OpType, RecordChange, Change, split_dots}
use any_sync_sdk.Crdt.Apply.{head_of}
use any_sync_sdk.Crdt.Lifecycle.{has_delete}
use any_sync_sdk.Crdt.Shape.{validate_value}
use any_sync_sdk.Crdt.SchemaHandler.{
  FieldRule, DeletePolicy, SchemaHandler, then_check, with_rule, shape_error, check_shape,
  check_op_shape, check_record_id, cut_rest,
}
use any_sync_sdk.Crdt.SchemaHandler.Create.{check_create_payload}
use any_sync_sdk.Crdt.SchemaHandler.Decl.{is_never}

unfoldable pub unless_never : FieldRule → Option String → Option String
unfolding is_never
unless_never rule e = if is_never rule.mutable_by then some "write-once" else e

module _ ⦃E : Anyenc⦄ (h : SchemaHandler) where
  open E use {Value, view, entries}

  -- One key of a combined $set or $unset.
  unfoldable pub pre_check_key : OpType → String × Value → Option String
  unfolding check_shape unless_never
  pre_check_key t (key, v) =
      let segs = split_dots key in
      with_rule (lookup (head_of segs) h.rules) (λ rule.
        unless_never rule (elim t as (λ x. Option String) [
          | OpType.unset ↦ none
          | _ ↦ check_shape rule (cut_rest segs) (λ s. shape_error (validate_value s v))
        ]))

  unfoldable pub pre_check_keys : OpType → Pairs Value → Option String
  unfolding pre_check_key
  pre_check_keys t [] = none
  pre_check_keys t (p ∷ ps) = then_check (pre_check_key t p) (pre_check_keys t ps)

  unfoldable pub pre_validate_multi_field : OpType → Option Value → Option String
  unfolding pre_check_keys
  pre_validate_multi_field t none = some "payload must be an object"
  pre_validate_multi_field t (some payload) = elim (view payload) [
    | object ↦ pre_check_keys t (entries payload)
    | _ ↦ some "payload must be an object"
  ]

  unfoldable pub pre_validate_path : Op Value → List String → Option String
  unfolding pre_validate_multi_field check_op_shape unless_never
  pre_validate_path op [] = pre_validate_multi_field op.type op.payload
  pre_validate_path op (head ∷ rest) =
      with_rule (lookup head h.rules) (λ rule. unless_never rule (check_op_shape h op))

  unfoldable pub pre_validate_existing_op : Op Value → Option String
  unfolding pre_validate_path
  pre_validate_existing_op op = elim op.type [
    | OpType.delete ↦ none
    | _ ↦ pre_validate_path op op.path
  ]

  unfoldable pub pre_validate_existing_ops : List (Op Value) → Option String
  unfolding pre_validate_existing_op
  pre_validate_existing_ops [] = none
  pre_validate_existing_ops (op ∷ ops) =
      then_check (pre_validate_existing_op op) (pre_validate_existing_ops ops)

  unfoldable pub pre_validate_delete : Option String
  pre_validate_delete = elim h.delete_by [
    | DeletePolicy.delete_by_none ↦ some "undeletable"
    | _ ↦ none
  ]

  unfoldable pub pre_validate_create : RecordChange Value → Option String
  unfolding check_record_id check_create_payload
  pre_validate_create rc =
      if rc.upsert
      then then_check (check_record_id h rc.id) (check_create_payload h rc.ops)
      else none

  -- The record before, which a record change with no id does not have.
  abbrev pub before_of : (String → Option Value) → RecordChange Value → Option Value
  before_of get rc = if rc.id == "" then none else get rc.id

  unfoldable pub pre_validate_live : RecordChange Value → Option Value → Option String
  unfolding pre_validate_create pre_validate_existing_ops
  pre_validate_live rc none = pre_validate_create rc
  pre_validate_live rc (some _) = pre_validate_existing_ops rc.ops

  unfoldable pub pre_validate_record : (String → Option Value) → RecordChange Value → Option String
  unfolding pre_validate_live pre_validate_delete
  pre_validate_record get rc =
      if has_delete rc.ops then pre_validate_delete else pre_validate_live rc (before_of get rc)

  unfoldable pub pre_validate_records :
      (String → Option Value) → List (RecordChange Value) → Option String
  unfolding pre_validate_record
  pre_validate_records get [] = none
  pre_validate_records get (rc ∷ rcs) =
      then_check (pre_validate_record get rc) (pre_validate_records get rcs)

  unfoldable pub pre_validate_multi : (String → Option Value) → Change Value → Option String
  unfolding pre_validate_records
  pre_validate_multi get ch = pre_validate_records get ch.records
