-- ===== src/Crdt/SchemaHandler/Compile.antt =====
-- internal/crdt/schemahandler.go, NewSchemaHandler: a declaration compiled into a handler. The handler
-- has two rule tables and is modelled as two of them that differ in the tables: the one with the rules
-- that every replica enforces, and the one with the rules that the local gate enforces.
use any_sync_sdk.Base.{
  ℕ, String, Bool, not, ◌&&◌, List, [], ◌∷◌, ◌++◌, Option, none, some, if◌then◌else◌,
}
use any_sync_sdk.Dict.{Dict, string_key, insert}
use any_sync_sdk.Crdt.SchemaHandler.{FieldRule, IdRule, SchemaHandler}
use any_sync_sdk.Crdt.SchemaHandler.Decl.{
  Stamp, same_stamp, FieldDecl, DatasetDecl, normalized_decl, validate_dataset_decl,
  compile_id_pattern,
}

pub record RuleSet : Type 0 where
  pub rules : Dict String FieldRule
  pub required_ids : List String

abbrev pub no_rules : RuleSet
no_rules = record { rules = []; required_ids = [] }

abbrev pub rule_of : FieldDecl → FieldRule
rule_of f = record { required = f.required; mutable_by = f.mutable_by; shape = f.shape }

abbrev pub add : FieldDecl → RuleSet → RuleSet
add f rs = record {
  rules = insert f.id (rule_of f) rs.rules;
  required_ids = if f.required then rs.required_ids ++ f.id ∷ [] else rs.required_ids;
}

-- The rule tables, a field after the other.
unfoldable pub local_rules : List FieldDecl → RuleSet → RuleSet
local_rules [] rs = rs
local_rules (f ∷ fs) rs = local_rules fs (add f rs)

unfoldable pub apply_rules : Bool → List FieldDecl → RuleSet → RuleSet
apply_rules dynamic [] rs = rs
apply_rules dynamic (f ∷ fs) rs =
    apply_rules dynamic fs (if dynamic && f.additive then rs else add f rs)

-- The field of a stamp, the last one that has it.
unfoldable pub stamp_field : Stamp → List FieldDecl → String → String
unfolding same_stamp
stamp_field s [] found = found
stamp_field s (f ∷ fs) found = stamp_field s fs (if same_stamp f.stamp s then f.id else found)

unfoldable pub with_rules : DatasetDecl → IdRule → RuleSet → SchemaHandler
unfolding stamp_field
with_rules ds ids rs = record {
  rules = rs.rules;
  required_ids = rs.required_ids;
  creator_field = stamp_field Stamp.creator ds.fields "";
  create_time_field = stamp_field Stamp.create_time ds.fields "";
  modify_time_field = stamp_field Stamp.modify_time ds.fields "";
  id_rule = ids;
  delete_by = ds.delete_by;
}

-- The handler under its apply rules and under its local rules, or the error.
pub data Compiled : Type 0 where
  compiled : SchemaHandler → SchemaHandler → Compiled
  invalid_decl : String → Compiled

unfoldable pub build : DatasetDecl → IdRule → Compiled
unfolding with_rules local_rules apply_rules
build ds ids =
    compiled (with_rules ds ids (apply_rules ds.dynamic ds.fields no_rules))
      (with_rules ds ids (local_rules ds.fields no_rules))

unfoldable pub build_with_ids : DatasetDecl → Option ((String → Bool) × ℕ) → Compiled
unfolding build
build_with_ids ds none = invalid_decl "the id pattern does not compile"
build_with_ids ds (some (matches, longest)) = build ds (IdRule.id_user longest matches)

module _ (compile : String → Option (String → Bool)) where
  unfoldable pub new_schema_handler : DatasetDecl → Compiled
  unfolding validate_dataset_decl build build_with_ids normalized_decl compile_id_pattern
  new_schema_handler ds = elim (validate_dataset_decl compile ds) [
    | some e ↦ invalid_decl e
    | none ↦
        if not ds.user_ids
        then build (normalized_decl ds) IdRule.id_auto
        else build_with_ids (normalized_decl ds) (compile_id_pattern compile (normalized_decl ds))
  ]
