-- ===== src/Crdt/Modifier.antt =====
-- internal/crdt/controller.go, recordModifier: the apply algorithm for one record of a change, from the
-- choice between its branches to the stamps at the end.
pub mod Frames
pub mod Sticky
pub mod Deleted
pub mod Burial
pub mod Upserts
use any_sync_sdk.Base.{
  ℕ, suc, String, Bool, true, false, ◌||◌, List, [], ◌∷◌, ◌++◌, Option, none, some, ◌==◌,
  if◌then◌else◌, eqb,
}
use any_sync_sdk.Anyenc.{Anyenc, View, Pairs, object, get_path}
use any_sync_sdk.Crdt.Op
use any_sync_sdk.Crdt.Op.{Op, OpType, RecordChange, Change, split_dots}
use any_sync_sdk.Crdt.Versions.{VersionId, versions_key, id_field, get_record_version}
use any_sync_sdk.Crdt.Apply.{apply_op}
use any_sync_sdk.Crdt.Lifecycle.{
  object_id_field, stamp_add_seq, stamp_apply_seq, new_tombstone, lower_creation_marker, has_delete,
  is_tombstone,
}
use any_sync_sdk.Crdt.Traces.{update_traces}
use any_sync_sdk.Crdt.Compact.{compact_versions}
use any_sync_sdk.Crdt.Hooks.{
  RejectReason, handler_error, record_deleted, OpRejection, Sibling, Sink, Handler, Run, start,
  reject, stamp_object, stamp_traces, is_multi_field, probe_keys, before_modify_apply, modify_ops,
  apply_ops, drain_derived,
}

module _ ⦃E : Anyenc⦄ where
  open E use {Value, view, get, put, entries, new_object, new_string}

  -- The derived ops that mirror the creation stamps.
  abbrev pub created_ops : VersionId → String → List (Op Value)
  created_ops version keyed =
      record {
        type = OpType.set;
        path = versions_key ∷ id_field ∷ [];
        payload = some (new_string version);
      }
      ∷ (if keyed == ""
          then []
          else record {
            type = OpType.set;
            path = object_id_field ∷ [];
            payload = some (new_string keyed);
          }
            ∷ [])

  -- The run and whether the document is stored.
  abbrev pub Outcome : Type 0
  Outcome = Run Value × Bool

  -- A change whose ops hold a delete.
  unfoldable pub modify_delete :
      Handler Value → Change Value → String → RecordChange Value → String → Value → Outcome
  unfolding stamp_object
  modify_delete h ch id rc keyed existing =
      let m = start existing in
      let (lowered, moved) = lower_creation_marker existing ch.version_id in
      let (sink, err) = h.before_delete ch existing rc m.sink in
      let m' = record m { sink = sink } in
      if is_tombstone (some existing)
      then (if rc.upsert
          then (if moved then (record m { doc = stamp_traces ch lowered }, true) else (m, false))
          else (m, false))
      else elim err [
        | some e ↦ (record (reject m' none (handler_error e)) { recorded_err = true }, false)
        | none ↦ (
          record m' {
            doc = update_traces (stamp_object keyed (new_tombstone id ch (some existing))) ch;
            wrote = true;
          },
          true,
        )
      ]

  abbrev pub finish : Change Value → Run Value → Outcome
  finish ch m = (record m { doc = compact_versions (stamp_traces ch m.doc) }, true)

  -- The ops of a change that creates its record, after the create hook.
  abbrev pub run_create : Change Value → RecordChange Value → Run Value → Outcome
  run_create ch rc m = finish ch (
      drain_derived ch.version_id
        (record m { doc = apply_ops ch.version_id rc.ops m.doc; wrote = true }))

  unfoldable pub modify_create :
      Handler Value → Change Value → RecordChange Value → String → Value → Outcome
  unfolding drain_derived stamp_object apply_ops
  modify_create h ch rc keyed existing =
      let ver = put new_object id_field (new_string ch.version_id) in
      let m = record (start (stamp_object keyed (put existing versions_key ver))) {
        applied_derived = created_ops ch.version_id keyed;
      } in
      let (sink, err) = h.before_create ch rc m.sink in
      let m' = record m { sink = sink } in
      if ch.local || ch.injected then run_create ch rc m else elim err [
        | some e ↦ (record (reject m' none (handler_error e)) { recorded_err = true }, false)
        | none ↦ run_create ch rc m'
      ]

  -- The tombstone absorbs the ops; an older upsert still lowers the creation marker.
  unfoldable pub modify_tombstone : Change Value → RecordChange Value → Value → Outcome
  modify_tombstone ch rc existing =
      let m = reject (start existing) none record_deleted in
      let (lowered, moved) = lower_creation_marker existing ch.version_id in
      if rc.upsert
      then (if moved
          then (record m { doc = update_traces (stamp_add_seq lowered ch.add_seq) ch }, true)
          else (m, false))
      else (m, false)

  unfoldable pub modify_live : Handler Value → Change Value → RecordChange Value → Value → Outcome
  unfolding modify_ops drain_derived
  modify_live h ch rc existing =
      let doc = if rc.upsert then (lower_creation_marker existing ch.version_id).0 else existing in
      finish ch (drain_derived ch.version_id (modify_ops h ch rc 0 rc.ops (start doc)))

  -- `Modify`, outside the sibling mode.
  unfoldable pub modify :
      Handler Value → Change Value → String → RecordChange Value → String → Value → Outcome
  unfolding modify_delete modify_create modify_tombstone modify_live
  modify h ch id rc keyed existing =
      if has_delete rc.ops
      then modify_delete h ch id rc keyed existing
      else elim (get existing versions_key) [
        | none ↦ modify_create h ch rc keyed existing
        | some _ ↦
            if is_tombstone (some existing)
            then modify_tombstone ch rc existing
            else modify_live h ch rc existing
      ]
