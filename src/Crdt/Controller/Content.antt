-- ===== src/Crdt/Controller/Content.antt =====
-- internal/crdt/controller.go, ValidateChange and the admission of a change's ops at the head of
-- ApplyChangeWithResult.
use any_sync_sdk.Base.{
  ℕ, suc, String, Bool, not, ◌&&◌, List, [], ◌∷◌, ◌++◌, map, Option, none, some, ◌==◌,
  if◌then◌else◌,
}
use any_sync_sdk.Anyenc.{Anyenc}
use any_sync_sdk.Dict.{string_key, lookup}
use any_sync_sdk.Crdt.Op.{Op, RecordChange, Change}
use any_sync_sdk.Crdt.Admission.{
  Dataset, Scope, ContentError, route_of, op_content_valid, filter_op_fields,
}
use any_sync_sdk.Crdt.Resolve.{ApplyError}
use any_sync_sdk.Crdt.Controller.{Controller, schema_or_zero, flag_or_false, guard_change}

module _ ⦃E : Anyenc⦄ where
  open E use {Value}

  abbrev pub dataset_of : Controller Value → Change Value → Dataset
  dataset_of c ch = schema_or_zero (lookup ch.dataset c.schemas)

  abbrev pub by_key_of : Controller Value → Change Value → Bool
  by_key_of c ch = flag_or_false (lookup ch.dataset c.scope_by_key)

  -- The first op that is not valid.
  unfoldable pub check_ops : Dataset → Scope → Bool → List (Op Value) → Option ContentError
  check_ops ds route by_key [] = none
  check_ops ds route by_key (op ∷ ops) =
      let later = check_ops ds route by_key ops in
      elim (op_content_valid ds route by_key op) [ some e ↦ some e | none ↦ later ]

  pub data ValidateError : Type 0 where
    guarded : ApplyError → ValidateError
    empty_id : ℕ → ValidateError
    not_valid : ℕ → ContentError → ValidateError

  unfoldable pub check_records :
      Dataset → Scope → Bool → ℕ → List (RecordChange Value) → Option ValidateError
  unfolding check_ops
  check_records ds route by_key i [] = none
  check_records ds route by_key i (rc ∷ records) =
      let later = check_records ds route by_key (suc i) records in
      if (rc.id == "") && not rc.upsert
      then some (empty_id i)
      else elim (check_ops ds route by_key rc.ops) [ some e ↦ some (not_valid i e) | none ↦ later ]

  unfoldable pub validate_change : Controller Value → Change Value → Option ValidateError
  unfolding guard_change check_records
  validate_change c ch = elim (guard_change c ch) [
    | some e ↦ some (guarded e)
    | none ↦ check_records (dataset_of c ch) (route_of ch) (by_key_of c ch) 0 ch.records
  ]

  -- A rejection of an op by its content: the record's index, the op's, and the key with its error.
  abbrev pub ContentRejection : Type 0
  ContentRejection = ℕ × ℕ × String × ContentError

  -- The ops of record `i` from op `j` on, those that are left and the rejections.
  unfoldable pub admit_ops :
      Dataset → Scope → Bool → ℕ → ℕ → List (Op Value) → List (Op Value) × List ContentRejection
  admit_ops ds route by_key i j [] = ([], [])
  admit_ops ds route by_key i j (op ∷ ops) =
      let (kept, rejections) = admit_ops ds route by_key i (suc j) ops in
      let (out, errors) = filter_op_fields ds route by_key op in
      let mine : List ContentRejection = map (λ e. (i, j, e.0, e.1)) errors in
      (elim out [ none ↦ kept | some op' ↦ op' ∷ kept ], mine ++ rejections)

  unfoldable pub admit_records :
      Dataset
      → Scope
      → Bool
      → ℕ
      → List (RecordChange Value)
      → List (RecordChange Value) × List ContentRejection
  unfolding admit_ops
  admit_records ds route by_key i [] = ([], [])
  admit_records ds route by_key i (rc ∷ records) =
      let (kept, rejections) = admit_records ds route by_key (suc i) records in
      let (ops, mine) = admit_ops ds route by_key i 0 rc.ops in
      (record rc { ops = ops } ∷ kept, mine ++ rejections)

  -- The filter of ApplyChangeWithResult over all records.
  unfoldable pub admit_change :
      Controller Value → Change Value → Change Value × List ContentRejection
  unfolding admit_records
  admit_change c ch =
      let (records, rejections) =
        admit_records (dataset_of c ch) (route_of ch) (by_key_of c ch) 0 ch.records in
      (record ch { records = records }, rejections)
