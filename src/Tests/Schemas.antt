-- ===== src/Tests/Schemas.antt =====
-- The theorems on declared shapes and on the schema handler, applied at a concrete declaration.
use any_sync_sdk.Base.{true, ◌≡◌, refl, [], ◌∷◌, none, some, arith, inl}
use any_sync_sdk.Anyenc.{get_path}
use any_sync_sdk.Crdt.Op.{Op, OpType}
use any_sync_sdk.Crdt.Apply.{op_field_heads}
use any_sync_sdk.Crdt.Shape.{
  Kind, Schema, leaf, items, properties, no_property, property, sub_shape_segs, validate_value,
  check_kind,
}
use any_sync_sdk.Crdt.Shape.Descends.{get_path-validate_value}
use any_sync_sdk.Crdt.SchemaHandler.{Mutability, IdRule, DeletePolicy, FieldRule, SchemaHandler}
use any_sync_sdk.Crdt.SchemaHandler.Modify.{before_modify}
use any_sync_sdk.Crdt.SchemaHandler.Guards.{MayWrite, before_modify-MayWrite}
use any_sync_sdk.Tests.Json.{Json, str, obj, end, field, json}
use any_sync_sdk.Tests.Controllers.{change}
use any_sync_sdk.Tests.Records.{note}

-- { author: { name: string, tags: [string] } }
abbrev author_shape : Schema
author_shape = properties (
    property "name" (leaf Kind.string_kind)
      (property "tags" (items (leaf Kind.string_kind)) no_property))

abbrev document_shape : Schema
document_shape = properties (property "author" author_shape no_property)

abbrev document : Json
document = obj (field "author" (obj (field "name" (str "Ann") end)) end)

get_path-validate_value_example : validate_value (leaf Kind.string_kind) (str "Ann") ≡ none
get_path-validate_value_example =
    get_path-validate_value ("author" ∷ "name" ∷ []) document_shape (leaf Kind.string_kind) document
      (str "Ann") (unfold validate_value check_kind in refl) (unfold sub_shape_segs in refl)
      (unfold get_path in refl)

abbrev title_rule : FieldRule
title_rule = record {
  required = true;
  mutable_by = Mutability.by_anyone;
  shape = some (leaf Kind.string_kind);
}

abbrev note_handler : SchemaHandler
note_handler = record {
  rules = ("title", title_rule) ∷ [];
  required_ids = "title" ∷ [];
  creator_field = "";
  create_time_field = "";
  modify_time_field = "";
  id_rule = IdRule.id_auto;
  delete_by = DeletePolicy.delete_by_anyone;
}

abbrev pub rename : Op Json
rename = record { type = OpType.set; path = "title" ∷ []; payload = some (str "New") }

before_modify-MayWrite_example : MayWrite note_handler change note title_rule
before_modify-MayWrite_example =
    before_modify-MayWrite note_handler change note rename (record { derived = []; sibling = [] })
      "title" title_rule (λ e. ground arith)
      (unfold before_modify validate_value check_kind in refl) (unfold op_field_heads in inl refl)
      refl
