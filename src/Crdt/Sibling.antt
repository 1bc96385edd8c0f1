-- ===== src/Crdt/Sibling.antt =====
-- internal/crdt/controller.go, applySibling and opTook: a write that a handler projected on a record
-- of another dataset, applied under the version of the triggering change and without hooks.
pub mod Took
use any_sync_sdk.Base.{
  String, Bool, true, false, ◌||◌, List, [], ◌∷◌, ◌++◌, none, some, ◌==◌, if◌then◌else◌,
}
use any_sync_sdk.Anyenc.{Anyenc, Pairs}
use any_sync_sdk.Crdt.Op.{Op, RecordChange, Change, split_dots}
use any_sync_sdk.Crdt.Versions.{VersionId, versions_key, id_field, get_record_version}
use any_sync_sdk.Crdt.Apply.{apply_op, payload_entries}
use any_sync_sdk.Crdt.Lifecycle.{
  stamp_add_seq, new_tombstone, lower_creation_marker, has_delete, is_tombstone,
}
use any_sync_sdk.Crdt.Traces.{update_traces}
use any_sync_sdk.Crdt.Compact.{compact_versions}
use any_sync_sdk.Crdt.Hooks.{stamp_object, stamp_traces}

-- The record, and what the modifier reports: whether it wrote, and for each op whether it took.
pub record SiblingRun (V : Type 0) : Type 0 where
  pub doc : V
  pub wrote : Bool
  pub took : List Bool

module _ ⦃E : Anyenc⦄ where
  open E use {Value, view, get, put, new_object, new_string}

  -- A key of the payload whose version is the change's.
  unfoldable pub any_took : Value → VersionId → Pairs Value → Bool
  any_took rec version [] = false
  any_took rec version ((key, v) ∷ rest) =
      let later = any_took rec version rest in
      if get_record_version rec (split_dots key) == version then true else later

  unfoldable pub op_took : Value → VersionId → Op Value → Bool
  unfolding any_took
  op_took rec version op = elim op.path [
    | key ∷ rest ↦ get_record_version rec (key ∷ rest) == version
    | [] ↦ any_took rec version (payload_entries op.payload)
  ]

  unfoldable pub sibling_ops : VersionId → List (Op Value) → SiblingRun Value → SiblingRun Value
  unfolding op_took
  sibling_ops version [] m = m
  sibling_ops version (op ∷ ops) m =
      let doc = apply_op m.doc version op in
      let took = op_took doc version op in
      sibling_ops version ops
        (record { doc = doc; wrote = m.wrote || took; took = m.took ++ took ∷ [] })

  abbrev pub untouched : Value → SiblingRun Value
  untouched existing = record { doc = existing; wrote = false; took = [] }

  -- The run and whether the document is stored.
  unfoldable pub sibling_delete :
      Change Value → String → RecordChange Value → String → Value → SiblingRun Value × Bool
  sibling_delete ch id rc keyed existing =
      let (lowered, moved) = lower_creation_marker existing ch.version_id in
      if is_tombstone (some existing)
      then (if rc.upsert
          then (if moved
              then (untouched (stamp_traces ch lowered), true)
              else (untouched existing, false))
          else (untouched existing, false))
      else (
        record {
          doc = update_traces (stamp_object keyed (new_tombstone id ch (some existing))) ch;
          wrote = true;
          took = [];
        },
        true,
      )

  unfoldable pub sibling_tombstone :
      Change Value → RecordChange Value → Value → SiblingRun Value × Bool
  sibling_tombstone ch rc existing =
      let (lowered, moved) = lower_creation_marker existing ch.version_id in
      if rc.upsert
      then (if moved
          then (untouched (update_traces (stamp_add_seq lowered ch.add_seq) ch), true)
          else (untouched existing, false))
      else (untouched existing, false)

  -- The ops and the stamps on a record that is there or was just created.
  unfoldable pub sibling_write : Change Value → RecordChange Value → Value → SiblingRun Value × Bool
  unfolding sibling_ops
  sibling_write ch rc doc =
      let m = sibling_ops ch.version_id rc.ops (untouched doc) in
      (record m { doc = compact_versions (stamp_traces ch m.doc) }, true)

  unfoldable pub apply_sibling :
      Change Value → String → RecordChange Value → String → Value → SiblingRun Value × Bool
  unfolding sibling_delete sibling_tombstone sibling_write stamp_object
  apply_sibling ch id rc keyed existing =
      if has_delete rc.ops
      then sibling_delete ch id rc keyed existing
      else elim (get existing versions_key) [
        | none ↦ sibling_write ch rc (
            stamp_object keyed
              (put existing versions_key (put new_object id_field (new_string ch.version_id))))
        | some _ ↦
            if is_tombstone (some existing)
            then sibling_tombstone ch rc existing
            else sibling_write ch rc
                (if rc.upsert then (lower_creation_marker existing ch.version_id).0 else existing)
      ]

  -- What the store keeps after the run.
  abbrev pub stored_sibling : Value → SiblingRun Value × Bool → Value
  stored_sibling existing (m, modified) = if modified then m.doc else existing
