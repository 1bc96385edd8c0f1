-- ===== src/Crdt/ApplyChange.antt =====
-- internal/crdt/controller.go, ApplyChangeWithResult: a change from its guards to the commit.
pub mod Settles
pub mod Watermarks
pub mod Isolation
pub mod Spared
pub mod Apart
pub mod Commits
pub mod Succeeds
use any_sync_sdk.Base.{
  ℕ, zero, suc, ltb, String, Bool, true, false, not, ◌&&◌, ◌||◌, List, [], ◌∷◌, ◌++◌, map, Option,
  none, some, ◌==◌, if◌then◌else◌,
}
use any_sync_sdk.Anyenc.{Anyenc}
use any_sync_sdk.Dict.{Dict, string_key, lookup, insert}
use any_sync_sdk.Crdt.Op.{Op, RecordChange, Change}
use any_sync_sdk.Crdt.Lifecycle.{has_delete}
use any_sync_sdk.Crdt.Hooks.{OpRejection, RejectReason, Handler, Run, Sink, Sibling}
use any_sync_sdk.Crdt.Modifier.{modify}
use any_sync_sdk.Crdt.Sibling.{SiblingRun, apply_sibling, untouched}
use any_sync_sdk.Crdt.Admission.{ContentError}
use any_sync_sdk.Crdt.ApplySeq.{ApplySeqAllocator, Seed, next}
use any_sync_sdk.Crdt.Resolve.{
  ApplyError, Result, ok, failed, local_and_injected, unknown_dataset, store_failed,
  apply_seq_failed, hook_failed, resolve_record_ids, unless_store_error,
}
use any_sync_sdk.Crdt.Store.{
  Store, Database, Written, written, not_found, write_failed, row, modify_row, persist_meta,
}
use any_sync_sdk.Crdt.Controller.{
  Getter, Stamper, Controller, is_shared, store_id, store_ids, keyed_object, guard_change,
}
use any_sync_sdk.Crdt.Controller.Content.{admit_change}
use any_sync_sdk.Crdt.Transaction.{
  RejectCause, content, by_handler, strict_skip_absent, Rejection, ObjectStamp, ApplyResult,
  RecordOut, Mirrors, ApplyHook, is_absent, larger, clear_absent, getter, Landing,
  apply_record_changes, wants_upsert,
}
use any_sync_sdk.Crdt.Stamping.{apply_object_stamps}
use any_sync_sdk.Crdt.Commit.{
  after_hook, run_hook, after_stamps, after_records, in_transaction, Applied, commit_transaction,
}

abbrev nth : ℕ → List String → String
nth n [] = ""
nth zero (x ∷ xs) = x
nth (suc n) (x ∷ xs) = nth n xs

module _ ⦃E : Anyenc⦄ where
  open E use {Value}

  abbrev pub content_rejections :
      List String → List (ℕ × ℕ × String × ContentError) → List Rejection
  content_rejections ids rejections =
      map
        (λ r. record {
          record_index = r.0;
          op_index = some r.1;
          record_id = nth r.0 ids;
          cause = content r.2 r.3;
        })
        rejections

  abbrev pub minted :
      Change Value
      → Option (ℕ × ApplySeqAllocator)
      → Option (Change Value × Option ApplySeqAllocator)
  minted ch none = none
  minted ch (some (n, b)) = some (record ch { apply_seq = n }, some b)

  -- The sequence, minted under the transaction; none for an error. Without an allocator the change
  -- keeps its own.
  abbrev pub mint :
      Option Seed
      → Option ApplySeqAllocator
      → Change Value
      → Option (Change Value × Option ApplySeqAllocator)
  mint answer none ch = some (ch, none)
  mint answer (some a) ch = minted ch (next answer a)

  -- The rest of a call after a step that may end it.
  abbrev pub unless_failed : Mirrors → Store Value → Option ApplyError → Applied → Applied
  unless_failed m s none rest = rest
  unless_failed m s (some e) rest = (m, s, failed e)

  abbrev pub store_error : Option String → Option ApplyError
  store_error none = none
  store_error (some e) = some (store_failed e)

  unfoldable pub with_sequence :
      Controller Value
      → Database Value
      → Option (ApplyHook Value)
      → (Getter Value → Handler Value)
      → List String
      → List Rejection
      → Mirrors
      → Store Value
      → Option (Change Value × Option ApplySeqAllocator)
      → Applied
  unfolding in_transaction commit_transaction
  with_sequence c db hook h ids rejections m s none = (m, s, failed apply_seq_failed)
  with_sequence c db hook h ids rejections m s (some (ch, seqs)) =
      let (absent, result) = in_transaction c db hook h ch ids rejections m.absent s in
      commit_transaction c db ch (record m { apply_seqs = seqs; absent = absent }) s result

  -- The transaction: begun, the sequence, the writes, the commit.
  unfoldable pub transact :
      Controller Value
      → Database Value
      → Option (ApplyHook Value)
      → Option Seed
      → (Getter Value → Handler Value)
      → Change Value
      → List String
      → List Rejection
      → Mirrors
      → Store Value
      → Applied
  unfolding with_sequence next
  transact c db hook answer h ch ids rejections m s =
      unless_failed m s (store_error db.begin_error)
        (with_sequence c db hook h ids rejections m s (mint answer m.apply_seqs ch))

  -- A shared dataset has one row for the object.
  unfoldable pub row_ids : Controller Value → Change Value → List String → List String
  unfolding is_shared store_ids
  row_ids c ch ids = store_ids c ch.dataset (
      if is_shared c ch.dataset && not (ch.object_id == "")
      then map (λ _. ch.object_id) ids
      else ids)

  unfoldable pub place_ids :
      Controller Value → Change Value → Result (List String) → Result (List String)
  unfolding row_ids
  place_ids c ch (failed e) = failed e
  place_ids c ch (ok ids) =
      if ch.local && ch.injected then failed local_and_injected else ok (row_ids c ch ids)

  -- What comes before the transaction: the collection, the ids, and the clash of the two flags.
  unfoldable pub prepare :
      (String → String) → Controller Value → Database Value → Change Value → Result (List String)
  unfolding resolve_record_ids place_ids
  prepare derive c db ch =
      unless_store_error (db.open_error ch.dataset) (place_ids c ch (resolve_record_ids derive ch))

  unfoldable pub begin_change :
      Controller Value
      → Database Value
      → Option (ApplyHook Value)
      → Option Seed
      → (Getter Value → Handler Value)
      → Change Value
      → Mirrors
      → Store Value
      → Result (List String)
      → Applied
  unfolding admit_change transact
  begin_change c db hook answer h ch m s (failed e) = (m, s, failed e)
  begin_change c db hook answer h ch m s (ok ids) =
      let (admitted, rejections) = admit_change c ch in
      transact c db hook answer h admitted ids (content_rejections ids rejections) m s

  abbrev pub forget_absent : Change Value → Mirrors → Mirrors
  forget_absent ch m = record m { absent = clear_absent ch.dataset m.absent }

  unfoldable pub with_handler :
      (String → String)
      → Controller Value
      → Database Value
      → Option (ApplyHook Value)
      → Option Seed
      → Change Value
      → Mirrors
      → Store Value
      → Option (Getter Value → Handler Value)
      → Applied
  unfolding begin_change prepare
  with_handler derive c db hook answer ch m s none = (m, s, failed unknown_dataset)
  with_handler derive c db hook answer ch m s (some h) =
      begin_change c db hook answer h ch (forget_absent ch m) s (prepare derive c db ch)

  unfoldable pub apply_change_with_result :
      (String → String)
      → Controller Value
      → Database Value
      → Option (ApplyHook Value)
      → Option Seed
      → Change Value
      → Mirrors
      → Store Value
      → Applied
  unfolding guard_change with_handler
  apply_change_with_result derive c db hook answer ch m s =
      unless_failed m s (guard_change c ch)
        (with_handler derive c db hook answer ch m s (lookup ch.dataset c.handlers))
