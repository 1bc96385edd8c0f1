-- ===== src/Crdt/Transaction.antt =====
-- internal/crdt/controller.go, ApplyChangeWithResult to applyObjectStamps: one change in one write
-- transaction. A transaction works on a copy of the store, which the commit keeps and a rollback drops.
use any_sync_sdk.Base.{
  ℕ, suc, ltb, String, Bool, false, ◌||◌, List, [], ◌∷◌, ◌++◌, map, Option, none, some, ◌==◌,
  if◌then◌else◌,
}
use any_sync_sdk.Anyenc.{Anyenc}
use any_sync_sdk.Dict.{Dict, string_key, lookup, insert}
use any_sync_sdk.Crdt.Op.{Op, RecordChange, Change}
use any_sync_sdk.Crdt.Lifecycle.{has_delete}
use any_sync_sdk.Crdt.Hooks.{RejectReason, Handler, Run, Sibling}
use any_sync_sdk.Crdt.Modifier.{modify}
use any_sync_sdk.Crdt.Sibling.{SiblingRun, apply_sibling}
use any_sync_sdk.Crdt.Admission.{ContentError}
use any_sync_sdk.Crdt.ApplySeq.{ApplySeqAllocator}
use any_sync_sdk.Crdt.Resolve.{Result, ok, failed, store_failed, and_then, unless_store_error}
use any_sync_sdk.Crdt.Store.{
  Store, Database, Written, written, not_found, write_failed, row, modify_row,
}
use any_sync_sdk.Crdt.Controller.{Getter, Controller, store_id, keyed_object}

-- Why an op, or with no op index a whole record, was rejected.
pub data RejectCause : Type 0 where
  content : String → ContentError → RejectCause
  by_handler : RejectReason → RejectCause
  strict_skip_absent : RejectCause

pub record Rejection : Type 0 where
  pub record_index : ℕ
  pub op_index : Option ℕ
  pub record_id : String
  pub cause : RejectCause

pub record ObjectStamp (V : Type 0) : Type 0 where
  pub dataset : String
  pub row_id : String
  pub ops : List (Op V)

-- `derived_ops` has a list for each record, empty for Go's nil.
pub record ApplyResult (V : Type 0) : Type 0 where
  pub rejections : List Rejection
  pub derived_ops : List (List (Op V))
  pub object_stamps : List (ObjectStamp V)
  pub apply_seq : ℕ

-- What one record of a change reports.
pub record RecordOut (V : Type 0) : Type 0 where
  pub rejected : List (Option ℕ × RejectCause)
  pub derived : List (Op V)
  pub wrote : Bool

-- The fields that a Controller changes: the watermarks, the allocator (none: nil) and the stampers'
-- memos of absent rows, by dataset.
pub record Mirrors : Type 0 where
  pub max_add_seq : ℕ
  pub max_apply_seq : ℕ
  pub apply_seqs : Option ApplySeqAllocator
  pub absent : Dict String Bool

-- `applyHook`, which writes collections of its own (none of the result: no error).
abbrev pub ApplyHook : Type 0 → Type 0
ApplyHook V = Store V → Change V → List String → ApplyResult V → Store V × Option String

abbrev pub is_absent : Option Bool → Bool
is_absent none = false
is_absent (some b) = b

abbrev pub larger : ℕ → ℕ → ℕ
larger old new = if ltb old new then new else old

-- The memos of a dataset's own stamper, cleared by a change on it.
abbrev pub clear_absent : String → Dict String Bool → Dict String Bool
clear_absent dataset absent = insert dataset false absent

module _ ⦃E : Anyenc⦄ where
  open E use {Value}

  -- `RecordGetter` of the transaction.
  abbrev pub getter : Controller Value → Store Value → Getter Value
  getter c s dataset id = if id == "" then none else row s dataset (store_id c dataset id)

  abbrev pub wants_upsert : RecordChange Value → Bool
  wants_upsert rc = has_delete rc.ops || rc.upsert

  -- A strict write of an absent row is no error.
  abbrev pub after_sibling : Store Value → Written Value (SiblingRun Value) → Result (Store Value)
  after_sibling s (written t m) = ok t
  after_sibling s not_found = ok s
  after_sibling s (write_failed e) = failed (store_failed e)

  -- A dataset without a handler is skipped.
  abbrev pub if_registered :
      Option (Getter Value → Handler Value)
      → Store Value
      → Result (Store Value)
      → Result (Store Value)
  if_registered none s r = ok s
  if_registered (some h) s r = r

  unfoldable pub apply_sibling_row :
      Controller Value
      → Database Value
      → Change Value
      → Sibling Value
      → Store Value
      → Result (Store Value)
  apply_sibling_row c db ch sib s =
      let id = store_id c sib.dataset sib.change.id in
      if_registered (lookup sib.dataset c.handlers) s (
        unless_store_error (db.open_error sib.dataset) (
          after_sibling s (
            modify_row db (wants_upsert sib.change) s sib.dataset id
              (apply_sibling ch id sib.change (keyed_object c sib.dataset)) (λ m. m.doc))))

  unfoldable pub apply_siblings :
      Controller Value
      → Database Value
      → Change Value
      → List (Sibling Value)
      → Store Value
      → Result (Store Value)
  unfolding apply_sibling_row
  apply_siblings c db ch [] s = ok s
  apply_siblings c db ch (sib ∷ rest) s =
      and_then (apply_sibling_row c db ch sib s) (apply_siblings c db ch rest)

  abbrev pub record_out : Run Value → RecordOut Value
  record_out m = record {
    rejected = map (λ r. (r.op_index, by_handler r.err)) m.rejections;
    derived = m.applied_derived;
    wrote = m.wrote;
  }

  -- The siblings of a record that the handler refused are dropped.
  unfoldable pub after_record :
      Controller Value
      → Database Value
      → Change Value
      → Written Value (Run Value)
      → Store Value
      → Result (Store Value × RecordOut Value)
  unfolding apply_siblings
  after_record c db ch not_found s =
      ok (s, record { rejected = (none, strict_skip_absent) ∷ []; derived = []; wrote = false })
  after_record c db ch (write_failed e) s = failed (store_failed e)
  after_record c db ch (written t m) s =
      if m.recorded_err
      then ok (t, record_out m)
      else and_then (apply_siblings c db ch m.sink.sibling t) (λ u. ok (u, record_out m))

  unfoldable pub apply_record_change :
      Controller Value
      → Database Value
      → Handler Value
      → Change Value
      → String
      → RecordChange Value
      → Store Value
      → Result (Store Value × RecordOut Value)
  unfolding after_record
  apply_record_change c db h ch id rc s =
      after_record c db ch
        (modify_row db (wants_upsert rc) s ch.dataset id
          (modify h ch id rc (keyed_object c ch.dataset)) (λ m. m.doc))
        s

  -- What the records of a change leave: the store, the rejections, the derived ops, whether one landed.
  abbrev pub Landing : Type 0
  Landing = Store Value × List Rejection × List (List (Op Value)) × Bool

  abbrev tagged : ℕ → String → List (Option ℕ × RejectCause) → List Rejection
  tagged i id rejected =
      map (λ r. record { record_index = i; op_index = r.0; record_id = id; cause = r.1 }) rejected

  abbrev pub with_record : ℕ → String → Landing → Store Value × RecordOut Value → Landing
  with_record i id (_, rejections, derived, landed) (t, out) =
      (t, rejections ++ tagged i id out.rejected, derived ++ out.derived ∷ [], landed || out.wrote)

  -- The loop over the records and their ids from index `i` on.
  unfoldable pub apply_record_changes :
      Controller Value
      → Database Value
      → (Getter Value → Handler Value)
      → Change Value
      → ℕ
      → List (RecordChange Value)
      → List String
      → Landing
      → Result Landing
  unfolding apply_record_change
  apply_record_changes c db h ch i [] ids acc = ok acc
  apply_record_changes c db h ch i (rc ∷ records) [] acc = ok acc
  apply_record_changes c db h ch i (rc ∷ records) (id ∷ ids) acc =
      and_then (apply_record_change c db (h (getter c acc.0)) ch id rc acc.0)
        (λ out. apply_record_changes c db h ch (suc i) records ids (with_record i id acc out))
