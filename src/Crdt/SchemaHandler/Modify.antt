-- ===== src/Crdt/SchemaHandler/Modify.antt =====
-- internal/crdt/schemahandler.go, BeforeModify and BeforeDelete: the checks of an op on an existing
-- record, the bump of the modify time, and the gate of a delete.
use any_sync_sdk.Base.{
  ◌*◌, String, Bool, true, false, not, ◌||◌, List, [], ◌∷◌, ◌++◌, Option, none, some, ◌==◌,
  if◌then◌else◌,
}
use any_sync_sdk.Anyenc.{Anyenc, Pairs, object}
use any_sync_sdk.Dict.{string_key, lookup}
use any_sync_sdk.Crdt.Op.{Op, OpType, Change, split_dots}
use any_sync_sdk.Crdt.Apply.{head_of}
use any_sync_sdk.Crdt.Versions.{versions_key}
use any_sync_sdk.Crdt.Hooks.{Sink}
use any_sync_sdk.Crdt.Shape.{validate_value}
use any_sync_sdk.Crdt.SchemaHandler.{
  DeletePolicy, SchemaHandler, FieldRule, then_check, refuse_if, with_rule, shape_error,
  check_shape, check_op_shape, is_creator, check_mutable, cut_rest,
}

module _ ⦃E : Anyenc⦄ where
  open E use {Value, view, get, entries, new_date_time}

  -- Whether the sink holds an op of the field.
  abbrev queued : String → List (Op Value) → Bool
  queued field [] = false
  queued field (op ∷ ops) =
      let later = queued field ops in
      elim op.path [
        | [] ↦ later
        | key ∷ rest ↦ elim rest [ [] ↦ (key == field) || later | _ ∷ _ ↦ later ]
      ]

  abbrev pub derive : Op Value → Sink Value → Sink Value
  derive op sink = record sink { derived = sink.derived ++ op ∷ [] }

  abbrev pub set_field : String → Value → Op Value
  set_field field v = record { type = OpType.set; path = field ∷ []; payload = some v }

  unfoldable pub bump_modify_time : SchemaHandler → Change Value → Sink Value → Sink Value
  bump_modify_time h ch sink =
      if h.modify_time_field == ""
      then sink
      else if queued h.modify_time_field sink.derived
      then sink
      else derive (set_field h.modify_time_field (new_date_time (ch.timestamp * 1000))) sink

  -- One key of a combined $set or $unset.
  unfoldable pub check_key :
      SchemaHandler → Change Value → Value → OpType → String × Value → Option String
  unfolding check_mutable check_shape
  check_key h ch before t (key, v) =
      let segs = split_dots key in
      with_rule (lookup (head_of segs) h.rules) (λ rule.
        then_check (check_mutable h ch before rule) (elim t as (λ x. Option String) [
          | OpType.unset ↦ none
          | _ ↦ check_shape rule (cut_rest segs) (λ s. shape_error (validate_value s v))
        ]))

  unfoldable pub check_keys :
      SchemaHandler → Change Value → Value → OpType → Pairs Value → Option String
  unfolding check_key
  check_keys h ch before t [] = none
  check_keys h ch before t (p ∷ ps) =
      then_check (check_key h ch before t p) (check_keys h ch before t ps)

  abbrev pub touches : SchemaHandler → Pairs Value → Bool
  touches h [] = false
  touches h ((key, v) ∷ ps) =
      let later = touches h ps in
      elim (lookup (head_of (split_dots key)) h.rules) [ none ↦ later | some _ ↦ true ]

  -- The sink and the error (none: nil).
  abbrev pub Verdict : Type 0
  Verdict = Sink Value × Option String

  unfoldable pub bump_unless :
      Option String → Bool → SchemaHandler → Change Value → Sink Value → Verdict
  unfolding bump_modify_time
  bump_unless (some e) touched h ch sink = (sink, some e)
  bump_unless none touched h ch sink = (if touched then bump_modify_time h ch sink else sink, none)

  unfoldable pub before_modify_multi :
      SchemaHandler → Change Value → Value → Op Value → Sink Value → Verdict
  unfolding check_keys bump_unless
  before_modify_multi h ch before op sink = elim op.payload [
    | none ↦ (sink, some "payload must be an object")
    | some payload ↦ elim (view payload) [
      | object ↦
          bump_unless (check_keys h ch before op.type (entries payload))
            (touches h (entries payload)) h ch sink
      | _ ↦ (sink, some "payload must be an object")
    ]
  ]

  unfoldable pub check_declared :
      SchemaHandler → Change Value → Value → Op Value → FieldRule → Option String
  unfolding check_mutable check_op_shape
  check_declared h ch before op rule =
      then_check (check_mutable h ch before rule)
        (elim op.type as (λ x. Option String) [ OpType.unset ↦ none | _ ↦ check_op_shape h op ])

  unfoldable pub on_rule :
      SchemaHandler → Change Value → Value → Op Value → Sink Value → Option FieldRule → Verdict
  unfolding check_declared bump_unless
  on_rule h ch before op sink none = (sink, none)
  on_rule h ch before op sink (some rule) =
      bump_unless (check_declared h ch before op rule) true h ch sink

  unfoldable pub on_path :
      SchemaHandler → Change Value → Value → Op Value → Sink Value → List String → Verdict
  unfolding before_modify_multi on_rule
  on_path h ch before op sink [] = before_modify_multi h ch before op sink
  on_path h ch before op sink (head ∷ rest) = on_rule h ch before op sink (lookup head h.rules)

  unfoldable pub before_modify :
      SchemaHandler → Change Value → Value → Op Value → Sink Value → Verdict
  unfolding on_path
  before_modify h ch before op sink = elim op.type [
    | OpType.delete ↦ (sink, none)
    | _ ↦ on_path h ch before op sink op.path
  ]

  unfoldable pub before_delete : SchemaHandler → Change Value → Value → Option String
  unfolding is_creator
  before_delete h ch before = elim h.delete_by [
    | DeletePolicy.delete_by_none ↦ some "undeletable"
    | DeletePolicy.delete_by_anyone ↦ none
    | DeletePolicy.delete_by_author ↦
        if ch.creator == "" then some "no creator" else elim (get before versions_key) [
          | none ↦ some "no record"
          | some _ ↦ refuse_if (not (is_creator h ch.creator before)) "author only"
        ]
  ]
