-- ===== src/History/Diff.antt =====
-- internal/history/diff.go: what changed in a record between two versions. The recursion over nested
-- objects runs on fuel, the two values' heights and one for each, which is enough by a theorem.
-- What anyencutil.Equal answers of nil and a value is an argument.
pub mod Same
pub mod Enough
pub mod Hidden
use any_sync_sdk.Base.{
  ℕ, zero, suc, ◌+◌, String, Bool, true, false, not, ◌&&◌, ◌||◌, Option, none, some, List, [], ◌∷◌,
  ◌++◌, ◌==◌, sort, if◌then◌else◌,
}
use any_sync_sdk.Anyenc.{Anyenc, Pairs, View, object, string}
use any_sync_sdk.Dict.{Dict, lookup, insert, string_key}
use any_sync_sdk.Crdt.Versions.{versions_key, id_field}
use any_sync_sdk.Crdt.Lifecycle.{
  traces_key, apply_seq_field, add_seq_field, object_id_field, deleted_at_field,
}

pub data DiffKind : Type 0 where
  kind_added : DiffKind
  kind_removed : DiffKind
  kind_changed : DiffKind
  kind_deleted : DiffKind

pub record FieldDiff (V : Type 0) : Type 0 where
  pub path : List String
  pub before : Option V
  pub after : Option V

pub record RecordDiff (V : Type 0) : Type 0 where
  pub id : String
  pub kind : DiffKind
  pub fields : List (FieldDiff V)

abbrev pub is_excluded : String → Bool
is_excluded k =
    k == versions_key
    || k == traces_key
    || k == apply_seq_field
    || k == add_seq_field
    || k == object_id_field

abbrev pub has_key : String → List String → Bool
has_key k [] = false
has_key k (j ∷ js) = j == k || has_key k js

-- The reserved fields are skipped at the top of a record.
abbrev pub is_skipped : List String → String → Bool
is_skipped [] k = is_excluded k
is_skipped (p ∷ ps) k = false

module _ ⦃E : Anyenc⦄ where
  open E use {Value, view, get, entries, equal, height}

  abbrev pub get_field : Option Value → String → Option Value
  get_field none k = none
  get_field (some v) k = get v k

  abbrev pub visit_keys : Pairs Value → List String → List String
  visit_keys [] keys = keys
  visit_keys ((k, v) ∷ ps) keys = visit_keys ps (if has_key k keys then keys else keys ++ k ∷ [])

  abbrev pub is_object : Option Value → Bool
  is_object none = false
  is_object (some v) = elim (view v) [ object ↦ true | _ ↦ false ]

  unfoldable pub collect : Option Value → List String → List String
  collect none keys = keys
  collect (some v) keys = if is_object (some v) then visit_keys (entries v) keys else keys

  unfoldable pub union_keys : Option Value → Option Value → List String
  union_keys before after = sort (collect after (collect before []))

  -- Neither both are objects, nor one is and the other is absent.
  abbrev pub is_leaf : Option Value → Option Value → Bool
  is_leaf none after = not (is_object after)
  is_leaf (some v) none = not (is_object (some v))
  is_leaf (some v) (some w) = not (is_object (some v) && is_object (some w))

  abbrev pub equal_values : (Value → Bool) → Option Value → Option Value → Bool
  equal_values equal_nil none none = true
  equal_values equal_nil none (some w) = equal_nil w
  equal_values equal_nil (some v) none = equal_nil v
  equal_values equal_nil (some v) (some w) = equal v w

  -- The differences of the keys, in their order.
  abbrev pub diff_keys :
      List String → (String → List (FieldDiff Value)) → List String → List (FieldDiff Value)
  diff_keys path child [] = []
  diff_keys path child (k ∷ ks) =
      (if is_skipped path k then [] else child k) ++ diff_keys path child ks

  unfoldable pub diff_values :
      ℕ → (Value → Bool) → List String → Option Value → Option Value → List (FieldDiff Value)
  diff_values zero equal_nil path before after = []
  diff_values (suc fuel) equal_nil path before after =
      let child = λ (k : String).
        diff_values fuel equal_nil (path ++ k ∷ []) (get_field before k) (get_field after k) in
      if is_leaf before after
      then (if equal_values equal_nil before after
          then []
          else record { path = path; before = before; after = after } ∷ [])
      else diff_keys path child (union_keys before after)

  unfoldable pub is_dead : Option Value → Bool
  is_dead none = false
  is_dead (some r) = elim (get r deleted_at_field) [ none ↦ false | some d ↦ true ]

  abbrev pub size_of : Option Value → ℕ
  size_of none = 0
  size_of (some v) = suc (height v)

  abbrev pub field_diffs : (Value → Bool) → Option Value → Option Value → List (FieldDiff Value)
  field_diffs equal_nil before after =
      diff_values (size_of before + size_of after) equal_nil [] before after

  abbrev pub found : String → DiffKind → List (FieldDiff Value) → Option (RecordDiff Value)
  found id kind fields = some (record { id = id; kind = kind; fields = fields })

  abbrev pub changed : String → List (FieldDiff Value) → Option (RecordDiff Value)
  changed id [] = none
  changed id (d ∷ ds) = found id kind_changed (d ∷ ds)

  -- The record is live or absent at the version.
  unfoldable pub diff_live :
      (Value → Bool) → String → Option Value → Option Value → Option (RecordDiff Value)
  diff_live equal_nil id before none =
      if is_dead before then none else found id kind_removed (field_diffs equal_nil before none)
  diff_live equal_nil id none (some w) = found id kind_added (field_diffs equal_nil none (some w))
  diff_live equal_nil id (some v) (some w) =
      if is_dead (some v)
      then found id kind_added (field_diffs equal_nil none (some w))
      else changed id (field_diffs equal_nil (some v) (some w))

  abbrev pub both_absent : Option Value → Option Value → Bool
  both_absent none none = true
  both_absent _ _ = false

  unfoldable pub diff_records :
      (Value → Bool) → String → Option Value → Option Value → Option (RecordDiff Value)
  diff_records equal_nil id before after =
      if both_absent before after
      then none
      else if is_dead after
      then (if is_dead before then none else found id kind_deleted [])
      else diff_live equal_nil id before after

  abbrev pub record_id : Value → String
  record_id r = elim (get r id_field) [
    | none ↦ ""
    | some v ↦ elim (view v) [ string s ↦ s | _ ↦ "" ]
  ]

  unfoldable pub by_id : List (Option Value) → Dict String Value → Dict String Value
  by_id [] m = m
  by_id (none ∷ rs) m = by_id rs m
  by_id (some r ∷ rs) m = by_id rs (if record_id r == "" then m else insert (record_id r) r m)

  abbrev pub keys : Dict String Value → List String
  keys [] = []
  keys ((k, v) ∷ m) = k ∷ keys m

  abbrev pub keys_beyond : Dict String Value → Dict String Value → List String
  keys_beyond base [] = []
  keys_beyond base ((k, v) ∷ m) =
      let rest = keys_beyond base m in elim (lookup k base) [ none ↦ k ∷ rest | some w ↦ rest ]

  abbrev pub with_diff :
      Option (RecordDiff Value) → List (RecordDiff Value) → List (RecordDiff Value)
  with_diff none ds = ds
  with_diff (some d) ds = d ∷ ds

  unfoldable pub diff_ids :
      (Value → Bool) → Dict String Value → Dict String Value → List String → List (RecordDiff Value)
  diff_ids equal_nil base version [] = []
  diff_ids equal_nil base version (id ∷ ids) =
      with_diff (diff_records equal_nil id (lookup id base) (lookup id version))
        (diff_ids equal_nil base version ids)

  unfoldable pub diff_record_sets :
      (Value → Bool) → List (Option Value) → List (Option Value) → List (RecordDiff Value)
  diff_record_sets equal_nil base version =
      let b = by_id base [] in
      let v = by_id version [] in diff_ids equal_nil b v (sort (keys b ++ keys_beyond b v))
