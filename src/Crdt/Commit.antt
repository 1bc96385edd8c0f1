-- ===== src/Crdt/Commit.antt =====
-- internal/crdt/controller.go, ApplyChangeWithResult: the writes of its transaction, from the record loop
-- to the hook, and the commit.
pub mod Isolated
pub mod Healthy
use any_sync_sdk.Base.{
  ℕ, zero, suc, ltb, String, Bool, true, false, not, ◌&&◌, ◌||◌, List, [], ◌∷◌, ◌++◌, map, Option,
  none, some, ◌==◌, if◌then◌else◌,
}
use any_sync_sdk.Anyenc.{Anyenc}
use any_sync_sdk.Dict.{Dict, string_key, lookup, insert}
use any_sync_sdk.Crdt.Op.{Op, RecordChange, Change}
use any_sync_sdk.Crdt.Lifecycle.{has_delete}
use any_sync_sdk.Crdt.Hooks.{OpRejection, RejectReason, Handler, Run, Sink, Sibling}
use any_sync_sdk.Crdt.Modifier.{modify}
use any_sync_sdk.Crdt.Sibling.{SiblingRun, apply_sibling, untouched}
use any_sync_sdk.Crdt.Admission.{ContentError}
use any_sync_sdk.Crdt.ApplySeq.{ApplySeqAllocator, Seed, next}
use any_sync_sdk.Crdt.Resolve.{
  ApplyError, Result, ok, failed, local_and_injected, unknown_dataset, store_failed,
  apply_seq_failed, hook_failed, resolve_record_ids, unless_store_error,
}
use any_sync_sdk.Crdt.Store.{
  Store, Database, Written, written, not_found, write_failed, row, modify_row, persist_meta,
}
use any_sync_sdk.Crdt.Controller.{
  Getter, Stamper, Controller, is_shared, store_id, store_ids, keyed_object, guard_change,
}
use any_sync_sdk.Crdt.Controller.Content.{admit_change}
use any_sync_sdk.Crdt.Transaction.{
  RejectCause, content, by_handler, strict_skip_absent, Rejection, ObjectStamp, ApplyResult,
  RecordOut, Mirrors, ApplyHook, is_absent, larger, clear_absent, getter, Landing,
  apply_record_changes, wants_upsert,
}
use any_sync_sdk.Crdt.Stamping.{apply_object_stamps}

module _ ⦃E : Anyenc⦄ where
  open E use {Value}

  abbrev pub after_hook :
      ApplyResult Value → Store Value × Option String → Result (Store Value × ApplyResult Value)
  after_hook res (t, none) = ok (t, res)
  after_hook res (t, some e) = failed (hook_failed e)

  abbrev pub run_hook :
      Option (ApplyHook Value)
      → Change Value
      → List String
      → Store Value × ApplyResult Value
      → Result (Store Value × ApplyResult Value)
  run_hook none ch ids (s, res) = ok (s, res)
  run_hook (some hook) ch ids (s, res) = after_hook res (hook s ch ids res)

  abbrev pub after_stamps :
      Option (ApplyHook Value)
      → Change Value
      → List String
      → List Rejection
      → List (List (Op Value))
      → Result (Store Value × List (ObjectStamp Value))
      → Result (Store Value × ApplyResult Value)
  after_stamps hook ch ids rejections derived (failed e) = failed e
  after_stamps hook ch ids rejections derived (ok (s, stamps)) = run_hook hook ch ids (
    s,
    record {
      rejections = rejections;
      derived_ops = derived;
      object_stamps = stamps;
      apply_seq = 0;
    },
  )

  unfoldable pub after_records :
      Controller Value
      → Database Value
      → Option (ApplyHook Value)
      → Change Value
      → List String
      → Dict String Bool
      → Result Landing
      → Dict String Bool × Result (Store Value × ApplyResult Value)
  unfolding apply_object_stamps
  after_records c db hook ch ids absent (failed e) = (absent, failed e)
  after_records c db hook ch ids absent (ok (s, rejections, derived, landed)) =
      let (absent', stamped) =
        if landed then apply_object_stamps c db ch absent s else (absent, ok (s, [])) in
      (absent', after_stamps hook ch ids rejections derived stamped)

  -- The writes of the transaction, from the record loop to the hook.
  unfoldable pub in_transaction :
      Controller Value
      → Database Value
      → Option (ApplyHook Value)
      → (Getter Value → Handler Value)
      → Change Value
      → List String
      → List Rejection
      → Dict String Bool
      → Store Value
      → Dict String Bool × Result (Store Value × ApplyResult Value)
  unfolding apply_record_changes apply_object_stamps
  in_transaction c db hook h ch ids rejections absent s =
      after_records c db hook ch ids absent
        (apply_record_changes c db h ch 0 ch.records ids (s, rejections, [], false))

  -- The fields of the Controller, the store, and what the call returns.
  abbrev pub Applied : Type 0
  Applied = Mirrors × Store Value × Result (ApplyResult Value)

  -- The watermarks, the commit, and after it the fields; a rollback leaves the store.
  unfoldable pub commit_transaction :
      Controller Value
      → Database Value
      → Change Value
      → Mirrors
      → Store Value
      → Result (Store Value × ApplyResult Value)
      → Applied
  unfolding persist_meta
  commit_transaction c db ch m s (failed e) = (m, s, failed e)
  commit_transaction c db ch m s (ok (t, res)) =
      let add_seq = larger m.max_add_seq ch.add_seq in
      let apply_seq = larger m.max_apply_seq ch.apply_seq in
      elim db.meta_error [
        | some e ↦ (m, s, failed (store_failed e))
        | none ↦ elim db.commit_error [
          | some e ↦ (m, s, failed (store_failed e))
          | none ↦ (
            record m { max_add_seq = add_seq; max_apply_seq = apply_seq },
            persist_meta t c.object_id add_seq apply_seq,
            ok (record res { apply_seq = ch.apply_seq }),
          )
        ]
      ]
