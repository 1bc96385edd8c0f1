-- ===== src/Tests/Declarations.antt =====
-- The theorems on what the local gate of a declared dataset accepts, applied at a concrete declaration.
use any_sync_sdk.Base.{true, ◌≡◌, refl, [], ◌∷◌, none, some, arith, inl}
use any_sync_sdk.Crdt.Op.{Op, OpType}
use any_sync_sdk.Crdt.Shape.{Kind, leaf, validate_value, check_kind}
use any_sync_sdk.Crdt.SchemaHandler.{Mutability, IdRule, DeletePolicy, FieldRule, SchemaHandler}
use any_sync_sdk.Crdt.SchemaHandler.Modify.{before_modify}
use any_sync_sdk.Base.{false, String, inr, Option, Bool, eq_iff}
use any_sync_sdk.Tests.Json.{num}
use any_sync_sdk.Crdt.SchemaHandler.{is_creator}
use any_sync_sdk.Crdt.Op.{RecordChange, Change, split_dots}
use any_sync_sdk.Crdt.Lifecycle.{has_delete, is_tombstone}
use any_sync_sdk.Crdt.Admission.{Scope}
use any_sync_sdk.Crdt.SchemaHandler.Decl.{Stamp, FieldDecl, DatasetDecl}
use any_sync_sdk.Crdt.SchemaHandler.Compile.{compiled, new_schema_handler}
use any_sync_sdk.Crdt.SchemaHandler.Create.{schema_handler}
use any_sync_sdk.Crdt.SchemaHandler.PreValidate.{pre_validate_multi, pre_validate_existing_op}
use any_sync_sdk.Crdt.SchemaHandler.Lands.{Lands, pre_validate_multi-modify}
use any_sync_sdk.Crdt.Modifier.{modify}
use any_sync_sdk.Crdt.SchemaHandler.Edited.{Beside, pre_validate_multi-modify_live}
use any_sync_sdk.Crdt.Apply.Gates.{IsRecord}
use any_sync_sdk.Tests.Json.{Json, str, obj, end, field, json}
use any_sync_sdk.Dict.{In}
use any_sync_sdk.Crdt.Controller.{Controller, register_all, new_controller}
use any_sync_sdk.Crdt.Controller.Content.{validate_change, admit_change}
use any_sync_sdk.Crdt.Admission.{op_content_valid, route_of}
use any_sync_sdk.Crdt.Validate.{validate_op_paths}
use any_sync_sdk.Crdt.Apply.{op_field_heads}
use any_sync_sdk.Crdt.ApplyChange.Apart.{built}
use any_sync_sdk.Tests.Controllers.{change, notes_reg}
use any_sync_sdk.Tests.Schemas.{rename}

-- A dynamic dataset: a title that its author may edit, the author's stamp, and a count that was declared
-- later, which only the local rules have.
abbrev no_field : FieldDecl
no_field = record {
  id = "";
  shape = none;
  scope = Scope.unscoped;
  required = false;
  mutable_by = Mutability.never;
  stamp = Stamp.no_stamp;
  additive = false;
}

abbrev notes_decl : DatasetDecl
notes_decl = record {
  fields =
      record no_field {
        id = "title";
        shape = some (leaf Kind.string_kind);
        required = true;
        mutable_by = Mutability.by_author;
      }
      ∷ record no_field { id = "author"; stamp = Stamp.creator }
      ∷ record no_field {
        id = "count";
        shape = some (leaf Kind.number_kind);
        additive = true;
        mutable_by = Mutability.by_anyone;
      }
      ∷ [];
  dynamic = true;
  delete_by = DeletePolicy.delete_by_author;
  user_ids = false;
  id_pattern = "";
  id_max_len = 0;
  search_text = none;
}

abbrev any_pattern : String → Option (String → Bool)
any_pattern pattern = some (λ text. true)

abbrev author_rule : FieldRule
author_rule = record {
  required = true;
  mutable_by = Mutability.by_author;
  shape = some (leaf Kind.string_kind);
}

abbrev stamp_rule : FieldRule
stamp_rule = record { required = false; mutable_by = Mutability.never; shape = none }

abbrev count_rule : FieldRule
count_rule = record {
  required = false;
  mutable_by = Mutability.by_anyone;
  shape = some (leaf Kind.number_kind);
}

abbrev replica_handler : SchemaHandler
replica_handler = record {
  rules = ("title", author_rule) ∷ ("author", stamp_rule) ∷ [];
  required_ids = "title" ∷ [];
  creator_field = "author";
  create_time_field = "";
  modify_time_field = "";
  id_rule = IdRule.id_auto;
  delete_by = DeletePolicy.delete_by_author;
}

abbrev gate_handler : SchemaHandler
gate_handler = record replica_handler {
  rules = ("title", author_rule) ∷ ("author", stamp_rule) ∷ ("count", count_rule) ∷ [];
}

notes_compiled : new_schema_handler any_pattern notes_decl ≡ compiled replica_handler gate_handler
unfolding new_schema_handler
notes_compiled = refl

abbrev fresh_note : RecordChange Json
fresh_note = record {
  id = "";
  upsert = true;
  ops =
      record {
        type = OpType.set;
        path = [];
        payload = some (obj (field "title" (str "New") (field "count" (num 1) end)));
      }
      ∷ [];
}

abbrev edited_note : RecordChange Json
edited_note = record { id = "r1"; upsert = true; ops = rename ∷ [] }

abbrev noting : Change Json
noting = record change { records = fresh_note ∷ edited_note ∷ [] }

abbrev signed_note : Json
signed_note = obj (field "id" (str "r1") (field "author" (str "ann") end))

abbrev get_note : String → Option Json
get_note id = some signed_note

-- The row of a new id, as the store hands it to the modifier.
abbrev empty_row : Json
empty_row = obj (field "id" (str "x1") end)

accepted : pre_validate_multi gate_handler get_note noting ≡ none
unfolding pre_validate_multi has_delete validate_value check_kind split_dots
accepted = refl

-- A controller that knows the dataset with its two fields that are written.
abbrev notes_content : Controller Json
notes_content = built "o1" ("notes" ∷ []) (
    record notes_reg {
      fields =
          record { id = "title"; scope = Scope.unscoped; stamped = false }
          ∷ record { id = "count"; scope = Scope.unscoped; stamped = false }
          ∷ [];
    }
    ∷ [])

noting_is_valid : validate_change notes_content noting ≡ none
unfolding validate_change register_all new_controller op_content_valid validate_op_paths
    op_field_heads route_of split_dots
noting_is_valid = refl

pre_validate_multi-modify_example :
    In fresh_note (admit_change notes_content noting).0.records
    × Lands (
        modify
          (schema_handler replica_handler)
          (admit_change notes_content noting).0
          "x1"
          fresh_note
          ""
          empty_row)
pre_validate_multi-modify_example =
    pre_validate_multi-modify any_pattern notes_decl replica_handler gate_handler notes_content
      get_note noting noting fresh_note "x1" "" empty_row notes_compiled accepted noting_is_valid
      refl (inl refl) (unfold has_delete in refl) refl refl refl

abbrev replica_note : Json
replica_note = obj (
    field "id" (str "r1")
      (field "author" (str "ann") (field "_ver" (obj (field "id" (str "a1") end)) end)))

replica_note-IsRecord : IsRecord replica_note
replica_note-IsRecord = (refl, λ o e. ground arith)

rename-Beside : Beside "author" rename
rename-Beside = (
  "title",
  [],
  refl,
  ground (arith, eq_iff "title" "author"),
  ground (arith, eq_iff "title" "_ver"),
  ground (arith, eq_iff "title" "*"),
)

pre_validate_multi-modify_live_example :
    In edited_note (admit_change notes_content noting).0.records
    × Lands (
        modify
          (schema_handler replica_handler)
          (admit_change notes_content noting).0
          "r1"
          edited_note
          ""
          replica_note)
pre_validate_multi-modify_live_example =
    pre_validate_multi-modify_live any_pattern notes_decl replica_handler gate_handler notes_content
      get_note noting noting edited_note "r1" "" signed_note replica_note
      (obj (field "id" (str "a1") end)) notes_compiled (ground (arith, eq_iff "_ver" "author"))
      accepted noting_is_valid refl (inr (inl refl)) (unfold has_delete in refl) refl
      (rename-Beside, tt) refl (unfold is_tombstone in refl) replica_note-IsRecord
      (λ e. ground (arith, eq_iff "ann" ""), unfold is_creator in refl)

-- At the local gate an $unset below a declared scalar is refused, on a replica it is not.
abbrev unset_below : Op Json
unset_below = record { type = OpType.unset; path = "title" ∷ "x" ∷ []; payload = none }

unset_below_test :
    (pre_validate_existing_op gate_handler unset_below ≡ some "below the shape")
    × ((before_modify replica_handler noting signed_note unset_below
          (record { derived = []; sibling = [] })).1
        ≡ none)
unfolding pre_validate_existing_op before_modify
unset_below_test = (refl, refl)
