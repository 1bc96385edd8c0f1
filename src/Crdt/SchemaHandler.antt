-- ===== src/Crdt/SchemaHandler.antt =====
-- internal/crdt/schemahandler.go: the handler that enforces a dataset's declaration, its compiled rule
-- table and the checks of an id, of an op's shape and of who may write a field. The id pattern is a test
-- on texts (a regular expression of the declaration). An error is the text of its kind.
pub mod Create
pub mod Decl
pub mod Compile
pub mod PreValidate
pub mod Checks
pub mod Tables
pub mod Accepts
pub mod Edits
pub mod Lands
pub mod Edited
pub mod Guards
pub mod Modify
use any_sync_sdk.Base.{
  ℕ, ◌*◌, String, Bool, true, false, not, ◌||◌, ltb, List, [], ◌∷◌, ◌++◌, map, Option, none, some,
  ◌==◌, if◌then◌else◌, eqb,
}
use Prim.Native.String.{len}
use any_sync_sdk.Anyenc.{Anyenc, Pairs, object, string}
use any_sync_sdk.Dict.{Dict, string_key, lookup}
use any_sync_sdk.Crdt.Op.{Op, OpType, RecordChange, Change, split_dots}
use any_sync_sdk.Crdt.Apply.{head_of}
use any_sync_sdk.Crdt.Versions.{versions_key}
use any_sync_sdk.Crdt.Hooks.{Sink, Handler}
use any_sync_sdk.Crdt.Shape.{
  Kind, Schema, leaf, items, properties, kind, same_kind, ShapeError, SubShape, invalid,
  unconstrained, constrained, sub_shape_segs, validate_value,
}

pub data Mutability : Type 0 where
  never by_author by_anyone : Mutability

-- IdAuto, or IdUser with the longest length and the pattern.
pub data IdRule : Type 0 where
  id_auto : IdRule
  id_user : ℕ → (String → Bool) → IdRule

pub data DeletePolicy : Type 0 where
  delete_by_anyone delete_by_author delete_by_none : DeletePolicy

pub record FieldRule : Type 0 where
  pub required : Bool
  pub mutable_by : Mutability
  pub shape : Option Schema

-- A rule table, and the fields of the stamps (empty: none declared). The handler of the source has two
-- tables: the rules that every replica enforces, and those of the local gate.
pub record SchemaHandler : Type 0 where
  pub rules : Dict String FieldRule
  pub required_ids : List String
  pub creator_field : String
  pub create_time_field : String
  pub modify_time_field : String
  pub id_rule : IdRule
  pub delete_by : DeletePolicy

-- The segments that `strings.Cut` takes off a text one after the other.
abbrev drop_last_empty : List String → List String
drop_last_empty [] = []
drop_last_empty (s ∷ []) = if s == "" then [] else s ∷ []
drop_last_empty (s ∷ t ∷ rest) = s ∷ drop_last_empty (t ∷ rest)

-- The segments of a key after its head.
abbrev pub cut_rest : List String → List String
cut_rest [] = []
cut_rest (_ ∷ rest) = drop_last_empty rest

abbrev pub then_check : Option String → Option String → Option String
then_check (some e) later = some e
then_check none later = later

abbrev pub refuse_if : Bool → String → Option String
refuse_if b message = if b then some message else none

abbrev pub holds : String → List String → Bool
holds id [] = false
holds id (x ∷ xs) = let later = holds id xs in if x == id then true else later

unfoldable pub check_record_id : SchemaHandler → String → Option String
check_record_id h id = elim h.id_rule [
  | id_auto ↦ refuse_if (not (id == "")) "explicit id"
  | id_user longest matches ↦
      if id == ""
      then some "id required"
      else if ltb longest (len id)
      then some "id too long"
      else refuse_if (not (matches id)) "id pattern"
]

module _ ⦃E : Anyenc⦄ where
  open E use {Value, view, get, entries, new_string, new_date_time}

  abbrev pub shape_error : Option ShapeError → Option String
  shape_error none = none
  shape_error (some e) = some "shape"

  abbrev valid_payload : Schema → Option Value → Option String
  valid_payload s none = none
  valid_payload s (some v) = shape_error (validate_value s v)

  -- An op against the shape that is declared at its path.
  abbrev check_op_kind : OpType → Schema → Option Value → Option String
  unfolding same_kind
  check_op_kind OpType.set s payload = valid_payload s payload
  check_op_kind OpType.inc s payload =
      refuse_if (not (same_kind (kind s) Kind.number_kind)) "not a number"
  check_op_kind OpType.inc_gated s payload =
      refuse_if (not (same_kind (kind s) Kind.number_kind)) "not a number"
  check_op_kind OpType.pull s payload =
      refuse_if (not (same_kind (kind s) Kind.array_kind)) "not an array"
  check_op_kind OpType.add_to_set (items s) payload = valid_payload s payload
  check_op_kind OpType.add_to_set s payload =
      refuse_if (not (same_kind (kind s) Kind.array_kind)) "not an array"
  check_op_kind _ s payload = none

  abbrev at_sub_shape : SubShape → (Schema → Option String) → Option String
  at_sub_shape invalid f = some "below the shape"
  at_sub_shape unconstrained f = none
  at_sub_shape (constrained s) f = f s

  abbrev pub check_shape : FieldRule → List String → (Schema → Option String) → Option String
  unfolding sub_shape_segs
  check_shape rule segs f = elim rule.shape [
    | none ↦ none
    | some s ↦ at_sub_shape (sub_shape_segs s segs) f
  ]

  abbrev pub with_rule : Option FieldRule → (FieldRule → Option String) → Option String
  with_rule none f = none
  with_rule (some rule) f = f rule

  unfoldable pub check_op_shape : SchemaHandler → Op Value → Option String
  unfolding check_shape check_op_kind
  check_op_shape h op = elim op.path [
    | [] ↦ none
    | head ∷ rest ↦
        with_rule (lookup head h.rules)
          (λ rule. check_shape rule rest (λ s. check_op_kind op.type s op.payload))
  ]

  -- The creator that the record's stamp names.
  unfoldable pub is_creator : SchemaHandler → String → Value → Bool
  is_creator h creator before = elim (get before h.creator_field) [
    | none ↦ false
    | some v ↦ elim (view v) [ string s ↦ s == creator | _ ↦ false ]
  ]

  unfoldable pub check_mutable : SchemaHandler → Change Value → Value → FieldRule → Option String
  unfolding is_creator
  check_mutable h ch before rule = elim rule.mutable_by [
    | Mutability.by_anyone ↦ none
    | Mutability.by_author ↦
        if ch.creator == ""
        then some "no creator"
        else refuse_if (not (is_creator h ch.creator before)) "author only"
    | Mutability.never ↦ some "write-once"
  ]
