-- ===== src/Crdt/SchemaHandler/Create.antt =====
-- internal/crdt/schemahandler.go, BeforeCreate: the checks of a creating change and its stamps.
use any_sync_sdk.Base.{
  ◌*◌, String, Bool, not, ◌||◌, List, [], ◌∷◌, ◌++◌, Option, none, some, ◌==◌, if◌then◌else◌, eqb,
}
use any_sync_sdk.Anyenc.{Anyenc, Pairs, object}
use any_sync_sdk.Dict.{string_key, lookup}
use any_sync_sdk.Crdt.Op.{Op, OpType, RecordChange, Change, split_dots}
use any_sync_sdk.Crdt.Apply.{head_of}
use any_sync_sdk.Crdt.Hooks.{Sink, Handler}
use any_sync_sdk.Crdt.Shape.{validate_value}
use any_sync_sdk.Crdt.SchemaHandler.{
  SchemaHandler, holds, then_check, with_rule, shape_error, check_shape, check_op_shape,
  check_record_id, cut_rest,
}
use any_sync_sdk.Crdt.SchemaHandler.Modify.{
  derive, set_field, Verdict, before_modify, before_delete,
}

module _ ⦃E : Anyenc⦄ where
  open E use {Value, view, entries, new_string, new_date_time}

  -- The fields that an op puts a whole value at.
  abbrev whole_key : List String → List String
  whole_key [] = []
  whole_key (key ∷ []) = key ∷ []
  whole_key (key ∷ _ ∷ _) = []

  abbrev whole_keys : Pairs Value → List String
  whole_keys [] = []
  whole_keys ((key, v) ∷ ps) = whole_key (split_dots key) ++ whole_keys ps

  abbrev payload_keys : Option Value → List String
  payload_keys none = []
  payload_keys (some payload) = elim (view payload) [
    | object ↦ whole_keys (entries payload)
    | _ ↦ []
  ]

  -- Only ops that add content count.
  unfoldable pub present : Op Value → List String
  present op = elim op.type [
    | OpType.set ↦ elim op.path [
      | [] ↦ payload_keys op.payload
      | key ∷ rest ↦ whole_key (key ∷ rest)
    ]
    | OpType.add_to_set ↦ whole_key op.path
    | OpType.inc ↦ whole_key op.path
    | OpType.inc_gated ↦ whole_key op.path
    | _ ↦ []
  ]

  unfoldable pub present_in : List (Op Value) → List String
  unfolding present
  present_in [] = []
  present_in (op ∷ ops) = present op ++ present_in ops

  -- The keys of a multi-field payload against their shapes.
  unfoldable pub visit_keys : SchemaHandler → Pairs Value → Option String
  unfolding check_shape
  visit_keys h [] = none
  visit_keys h ((key, v) ∷ ps) =
      then_check
        (with_rule (lookup (head_of (split_dots key)) h.rules) (λ rule.
          check_shape rule (cut_rest (split_dots key)) (λ s. shape_error (validate_value s v))))
        (visit_keys h ps)

  unfoldable pub visit_multi_field : SchemaHandler → Option Value → Option String
  unfolding visit_keys
  visit_multi_field h none = some "payload must be an object"
  visit_multi_field h (some payload) = elim (view payload) [
    | object ↦ visit_keys h (entries payload)
    | _ ↦ some "payload must be an object"
  ]

  unfoldable pub check_create_op : SchemaHandler → Op Value → Option String
  unfolding visit_multi_field check_op_shape
  check_create_op h op = elim op.type [
    | OpType.set ↦ elim op.path [
      | [] ↦ visit_multi_field h op.payload
      | _ ∷ _ ↦ check_op_shape h op
    ]
    | OpType.add_to_set ↦ check_op_shape h op
    | OpType.inc ↦ check_op_shape h op
    | OpType.inc_gated ↦ check_op_shape h op
    | _ ↦ none
  ]

  unfoldable pub check_create_ops : SchemaHandler → List (Op Value) → Option String
  unfolding check_create_op
  check_create_ops h [] = none
  check_create_ops h (op ∷ ops) = then_check (check_create_op h op) (check_create_ops h ops)

  unfoldable pub check_required : List String → List String → Option String
  check_required [] keys = none
  check_required (id ∷ ids) keys =
      let later = check_required ids keys in
      if holds id keys then later else some "required field missing"

  unfoldable pub check_create_payload : SchemaHandler → List (Op Value) → Option String
  unfolding check_create_ops check_required present_in
  check_create_payload h ops =
      then_check (check_create_ops h ops) (check_required h.required_ids (present_in ops))

  abbrev derive_if : Bool → Op Value → Sink Value → Sink Value
  derive_if b op sink = if b then derive op sink else sink

  unfoldable pub derive_create_stamps : SchemaHandler → Change Value → Sink Value → Sink Value
  derive_create_stamps h ch sink =
      let s1 =
        derive_if (not ((h.creator_field == "") || (ch.creator == "")))
          (set_field h.creator_field (new_string ch.creator)) sink in
      let now = new_date_time (ch.timestamp * 1000) in
      let s2 = derive_if (not (h.create_time_field == "")) (set_field h.create_time_field now) s1 in
      if eqb ch.timestamp 0
      then s1
      else derive_if (not (h.modify_time_field == "")) (set_field h.modify_time_field now) s2

  unfoldable pub create_checks : SchemaHandler → RecordChange Value → Option String
  unfolding check_record_id check_create_payload
  create_checks h rc = then_check (check_record_id h rc.id) (check_create_payload h rc.ops)

  unfoldable pub before_create :
      SchemaHandler → Change Value → RecordChange Value → Sink Value → Verdict
  unfolding create_checks derive_create_stamps
  before_create h ch rc sink = elim (create_checks h rc) [
    | some e ↦ (sink, some e)
    | none ↦ (derive_create_stamps h ch sink, none)
  ]

  -- The handler of a declared dataset.
  unfoldable pub schema_handler : SchemaHandler → Handler Value
  unfolding before_create before_modify before_delete
  schema_handler h = record {
    before_create = before_create h;
    before_modify = λ ch before rc op sink. before_modify h ch before op sink;
    before_delete = λ ch before rc sink. (sink, before_delete h ch before);
  }
