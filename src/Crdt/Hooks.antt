-- ===== src/Crdt/Hooks.antt =====
-- internal/crdt/controller.go, recordModifier and its beforeModifyApply, and the hooks of
-- internal/crdt/handler.go: the state of a run over one record, and its ops under the handler. The
-- dataset's handler (an interface of the package) is a record of its three hooks; a hook reads the
-- record as it is at the call, appends to the sink, and may refuse.
use any_sync_sdk.Base.{
  ℕ, suc, String, Bool, true, false, ◌||◌, List, [], ◌∷◌, ◌++◌, Option, none, some, ◌==◌,
  if◌then◌else◌, eqb,
}
use any_sync_sdk.Anyenc.{Anyenc, Pairs, object}
use any_sync_sdk.Crdt.Op.{Op, OpType, RecordChange, Change, split_dots}
use any_sync_sdk.Crdt.Versions.{VersionId}
use any_sync_sdk.Crdt.Apply.{apply_op}
use any_sync_sdk.Crdt.Lifecycle.{object_id_field, stamp_add_seq, stamp_apply_seq}
use any_sync_sdk.Crdt.Traces.{update_traces}

-- What an op was refused for: a hook's error, or that the record is deleted.
pub data RejectReason : Type 0 where
  handler_error : String → RejectReason
  record_deleted : RejectReason

-- `op_index` is none for -1, the whole record; the caller adds the record's index and id.
pub record OpRejection : Type 0 where
  pub op_index : Option ℕ
  pub err : RejectReason

pub record Sibling (V : Type 0) : Type 0 where
  pub dataset : String
  pub change : RecordChange V

pub record Sink (V : Type 0) : Type 0 where
  pub derived : List (Op V)
  pub sibling : List (Sibling V)

-- A hook's sink and error (none: nil).
pub record Handler (V : Type 0) : Type 0 where
  pub before_create : Change V → RecordChange V → Sink V → Sink V × Option String
  pub before_modify : Change V → V → RecordChange V → Op V → Sink V → Sink V × Option String
  pub before_delete : Change V → V → RecordChange V → Sink V → Sink V × Option String

-- The modifier's fields while it runs, with the record that it changes in place.
pub record Run (V : Type 0) : Type 0 where
  pub doc : V
  pub sink : Sink V
  pub rejections : List OpRejection
  pub applied_derived : List (Op V)
  pub wrote : Bool
  pub recorded_err : Bool

module _ ⦃E : Anyenc⦄ where
  open E use {Value, view, get, put, entries, new_object, new_string}

  abbrev pub start : Value → Run Value
  start existing = record {
    doc = existing;
    sink = record { derived = []; sibling = [] };
    rejections = [];
    applied_derived = [];
    wrote = false;
    recorded_err = false;
  }

  abbrev pub reject : Run Value → Option ℕ → RejectReason → Run Value
  reject m index err = record m {
    rejections = m.rejections ++ record { op_index = index; err = err } ∷ [];
  }

  -- `stampObject`: nothing for a dataset that is not keyed.
  unfoldable pub stamp_object : String → Value → Value
  stamp_object keyed doc = if keyed == "" then doc else put doc object_id_field (new_string keyed)

  abbrev pub stamp_traces : Change Value → Value → Value
  stamp_traces ch doc =
      update_traces (stamp_apply_seq (stamp_add_seq doc ch.add_seq) ch.apply_seq) ch

  -- The multi-field form, which can be probed key by key.
  unfoldable pub is_multi_field : Op Value → Bool
  is_multi_field op = elim op.path [
    | _ ∷ _ ↦ false
    | [] ↦ elim op.payload [
      | none ↦ false
      | some payload ↦ elim (view payload) [
        | object ↦ elim op.type [ OpType.set ↦ true | OpType.unset ↦ true | _ ↦ false ]
        | _ ↦ false
      ]
    ]
  ]

  abbrev payload_pairs : Op Value → Pairs Value
  payload_pairs op = elim op.payload [ none ↦ [] | some payload ↦ entries payload ]

  -- The probe of each key of a refused multi-field op: the keys that pass are kept.
  unfoldable pub probe_keys :
      Handler Value
      → Change Value
      → RecordChange Value
      → Op Value
      → ℕ
      → Pairs Value
      → Run Value × Value × ℕ
      → Run Value × Value × ℕ
  probe_keys h ch rc op index [] st = st
  probe_keys h ch rc op index ((k, v) ∷ ps) (m, kept, survivors) =
      let probe : Op Value = record { type = op.type; path = split_dots k; payload = some v } in
      let (sink, err) = h.before_modify ch m.doc rc probe m.sink in
      let m' = record m { sink = sink } in
      probe_keys h ch rc op index ps (elim err [
        | some e ↦ (reject m' (some index) (handler_error e), kept, survivors)
        | none ↦ (m', put kept k v, suc survivors)
      ])

  abbrev apply_probed : Change Value → Op Value → Run Value × Value × ℕ → Run Value
  apply_probed ch op (m, kept, survivors) = if eqb survivors 0 then m else record m {
    doc = apply_op m.doc ch.version_id (record { type = op.type; path = []; payload = some kept });
    wrote = true;
  }

  unfoldable pub before_modify_apply :
      Handler Value → Change Value → RecordChange Value → ℕ → Op Value → Run Value → Run Value
  unfolding is_multi_field probe_keys
  before_modify_apply h ch rc index op m =
      let (sink, err) = h.before_modify ch m.doc rc op m.sink in
      let m' = record m { sink = sink } in
      elim err [
        | none ↦ record m' { doc = apply_op m'.doc ch.version_id op; wrote = true }
        | some e ↦
            if is_multi_field op
            then apply_probed ch op
                (probe_keys h ch rc op index (payload_pairs op) (m', new_object, 0))
            else reject m' (some index) (handler_error e)
      ]

  -- The ops of a change on a live record; `Local` and `Injected` ones pass by the handler.
  unfoldable pub modify_ops :
      Handler Value
      → Change Value
      → RecordChange Value
      → ℕ
      → List (Op Value)
      → Run Value
      → Run Value
  unfolding before_modify_apply
  modify_ops h ch rc index [] m = m
  modify_ops h ch rc index (op ∷ ops) m = modify_ops h ch rc (suc index) ops (
      if ch.local || ch.injected
      then record m { doc = apply_op m.doc ch.version_id op; wrote = true }
      else before_modify_apply h ch rc index op m)

  unfoldable pub apply_ops : VersionId → List (Op Value) → Value → Value
  apply_ops version [] doc = doc
  apply_ops version (op ∷ ops) doc = apply_ops version ops (apply_op doc version op)

  unfoldable pub drain_derived : VersionId → Run Value → Run Value
  unfolding apply_ops
  drain_derived version m = record m {
    doc = apply_ops version m.sink.derived m.doc;
    applied_derived = m.applied_derived ++ m.sink.derived;
    sink = record m.sink { derived = [] };
  }
