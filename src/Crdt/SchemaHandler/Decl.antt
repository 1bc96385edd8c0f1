-- ===== src/Crdt/SchemaHandler/Decl.antt =====
-- internal/schema/decl.go and internal/schema/dataset.go: the declaration of a dataset, what makes it
-- well-formed (ValidateDatasetDecl), and what its zero values stand for (Normalized, CompileIdPattern).
-- `compile` is regexp.Compile and the match, of Go's library (none: it does not compile); it stands for
-- the whole of `^(?:` and `)$` around a pattern. A length is a ℕ, so the check that it is not negative has
-- no counterpart. The annotations that nothing here reads are left out.
use any_sync_sdk.Base.{
  ℕ, String, Bool, true, false, not, ◌&&◌, ◌||◌, List, [], ◌∷◌, map, Option, none, some, ◌==◌,
  if◌then◌else◌, eqb,
}
use any_sync_sdk.Crdt.Validate.{has_dot}
use any_sync_sdk.Crdt.Admission.{Scope, same_scope}
use any_sync_sdk.Crdt.Shape.{Kind, Schema, leaf, kind, same_kind}
use any_sync_sdk.Crdt.SchemaHandler.{Mutability, DeletePolicy, holds, then_check, refuse_if}

pub data Stamp : Type 0 where
  no_stamp creator create_time modify_time : Stamp

unfoldable pub same_stamp : Stamp → Stamp → Bool
same_stamp Stamp.no_stamp Stamp.no_stamp = true
same_stamp Stamp.creator Stamp.creator = true
same_stamp Stamp.create_time Stamp.create_time = true
same_stamp Stamp.modify_time Stamp.modify_time = true
same_stamp _ _ = false

pub record FieldDecl : Type 0 where
  pub id : String
  pub shape : Option Schema
  pub scope : Scope
  pub required : Bool
  pub mutable_by : Mutability
  pub stamp : Stamp
  pub additive : Bool

-- `user_ids` for IdUser; `search_text` is none where there is no annotation or its Text is nil.
pub record DatasetDecl : Type 0 where
  pub fields : List FieldDecl
  pub dynamic : Bool
  pub delete_by : DeletePolicy
  pub user_ids : Bool
  pub id_pattern : String
  pub id_max_len : ℕ
  pub search_text : Option (List String)

unfoldable pub is_never : Mutability → Bool
is_never Mutability.never = true
is_never _ = false

abbrev by_author : Mutability → Bool
by_author Mutability.by_author = true
by_author _ = false

abbrev deletes_by_author : DeletePolicy → Bool
deletes_by_author DeletePolicy.delete_by_author = true
deletes_by_author _ = false

unfoldable pub check_field_id : List String → String → Option String
unfolding has_dot
check_field_id seen id =
    if id == ""
    then some "empty id"
    else if has_dot id
    then some "dotted id"
    else refuse_if (holds id seen) "duplicate id"

abbrev stamp_seen : Stamp → List Stamp → Bool
unfolding same_stamp
stamp_seen s [] = false
stamp_seen s (t ∷ ts) = same_stamp t s || stamp_seen s ts

unfoldable pub check_stamp : List Stamp → FieldDecl → Option String
unfolding same_stamp same_scope stamp_seen is_never
check_stamp stamps f =
    if same_stamp f.stamp Stamp.no_stamp
    then none
    else if not (same_scope f.scope Scope.unscoped || same_scope f.scope Scope.derived)
    then some "a stamp requires the derived scope"
    else if stamp_seen f.stamp stamps
    then some "a stamp on two fields"
    else if f.required
    then some "a stamped field is not required"
    else refuse_if (not (is_never f.mutable_by)) "a stamped field is written by the handler"

unfoldable pub check_required_scope : FieldDecl → Option String
unfolding same_scope
check_required_scope f =
    refuse_if
      (f.required && not (same_scope f.scope Scope.unscoped || same_scope f.scope Scope.synced))
      "a required field is synced"

-- The ids and the stamps of the fields before.
unfoldable pub check_fields : List String → List Stamp → List FieldDecl → Option String
unfolding check_field_id check_stamp check_required_scope
check_fields seen stamps [] = none
check_fields seen stamps (f ∷ fs) = then_check (check_field_id seen f.id) (
    then_check (check_stamp stamps f)
      (then_check (check_required_scope f) (check_fields (f.id ∷ seen) (f.stamp ∷ stamps) fs)))

abbrev has_creator_stamp : List FieldDecl → Bool
unfolding same_stamp
has_creator_stamp [] = false
has_creator_stamp (f ∷ fs) = same_stamp f.stamp Stamp.creator || has_creator_stamp fs

abbrev has_author_mutable : List FieldDecl → Bool
has_author_mutable [] = false
has_author_mutable (f ∷ fs) = by_author f.mutable_by || has_author_mutable fs

-- The keys of a search annotation: none empty, none twice.
unfoldable pub check_search_keys : List String → List String → Option String
check_search_keys seen [] = none
check_search_keys seen (k ∷ ks) =
    then_check
      (if k == "" then some "empty search key" else refuse_if (holds k seen) "a search key twice")
      (check_search_keys (k ∷ seen) ks)

unfoldable pub validate_search_text : List String → Option String
unfolding check_search_keys
validate_search_text [] = some "no search key"
validate_search_text (k ∷ ks) = check_search_keys [] (k ∷ ks)

abbrev check_search : Option (List String) → Option String
unfolding validate_search_text
check_search none = none
check_search (some text) = validate_search_text text

unfoldable pub time_stamp_needs_kind : FieldDecl → Bool
unfolding same_kind
time_stamp_needs_kind f =
    let other : Bool = elim f.shape [
      | none ↦ true
      | some s ↦ not (same_kind (kind s) Kind.datetime)
    ] in
    elim f.stamp [ Stamp.create_time ↦ other | Stamp.modify_time ↦ other | _ ↦ false ]

unfoldable pub normalized_field : FieldDecl → FieldDecl
unfolding same_stamp same_scope time_stamp_needs_kind
normalized_field f = record f {
  scope =
      if not (same_stamp f.stamp Stamp.no_stamp)
      then Scope.derived
      else if same_scope f.scope Scope.unscoped
      then Scope.synced
      else f.scope;
  shape = if time_stamp_needs_kind f then some (leaf Kind.datetime) else f.shape;
}

unfoldable pub normalized_decl : DatasetDecl → DatasetDecl
unfolding normalized_field
normalized_decl ds = record ds { fields = map normalized_field ds.fields }

abbrev pub default_id_pattern : String
default_id_pattern = "[A-Za-z0-9._:-]+"

abbrev pub default_id_max_len : ℕ
default_id_max_len = 128

module _ (compile : String → Option (String → Bool)) where
  abbrev check_pattern : String → Option String
  check_pattern pattern = elim (compile pattern) [
    | none ↦ refuse_if (not (pattern == "")) "the id pattern does not compile"
    | some _ ↦ none
  ]

  unfoldable pub validate_dataset_decl : DatasetDecl → Option String
  unfolding check_fields check_search has_creator_stamp
  validate_dataset_decl ds = then_check (check_fields [] [] ds.fields) (
      then_check
        (refuse_if
          ((has_author_mutable ds.fields || deletes_by_author ds.delete_by)
            && not (has_creator_stamp ds.fields))
          "author-gated rules require a creator stamp")
        (then_check
          (refuse_if (not ds.user_ids && (not (ds.id_pattern == "") || not (eqb ds.id_max_len 0)))
            "id constraints require user ids")
          (then_check (check_pattern ds.id_pattern) (check_search ds.search_text))))

  unfoldable pub compile_id_pattern : DatasetDecl → Option ((String → Bool) × ℕ)
  compile_id_pattern ds =
      let longest = if eqb ds.id_max_len 0 then default_id_max_len else ds.id_max_len in
      elim (compile (if ds.id_pattern == "" then default_id_pattern else ds.id_pattern)) [
        | none ↦ none
        | some matches ↦ some (matches, longest)
      ]
