-- ===== src/Crdt/Stamping.antt =====
-- internal/crdt/controller.go, applyObjectStamps: the stamps that a change on another dataset leaves on
-- the object's row.
use any_sync_sdk.Base.{
  String, Bool, true, false, ◌||◌, List, [], ◌∷◌, ◌++◌, Option, none, some, ◌==◌, if◌then◌else◌,
}
use any_sync_sdk.Anyenc.{Anyenc}
use any_sync_sdk.Dict.{Dict, string_key, lookup, insert}
use any_sync_sdk.Crdt.Op.{Op, RecordChange, Change}
use any_sync_sdk.Crdt.Sibling.{SiblingRun, apply_sibling}
use any_sync_sdk.Crdt.Resolve.{Result, ok, failed, store_failed}
use any_sync_sdk.Crdt.Store.{Store, Database, Written, written, not_found, write_failed, modify_row}
use any_sync_sdk.Crdt.Controller.{Stamper, Controller}
use any_sync_sdk.Crdt.Transaction.{ObjectStamp, is_absent, getter}

module _ ⦃E : Anyenc⦄ where
  open E use {Value}

  -- The ops that took.
  abbrev pub taken : List (Op Value) → List Bool → List (Op Value)
  taken [] took = []
  taken (op ∷ ops) [] = []
  taken (op ∷ ops) (t ∷ took) = let rest = taken ops took in if t then op ∷ rest else rest

  abbrev pub Stamping : Type 0
  Stamping = Dict String Bool × Store Value × List (ObjectStamp Value)

  -- The stamps that took, those of one stamper added.
  abbrev report_stamp :
      String → String → List (Op Value) → List (ObjectStamp Value) → List (ObjectStamp Value)
  report_stamp dataset row_id [] stamps = stamps
  report_stamp dataset row_id (op ∷ ops) stamps =
      stamps ++ record { dataset = dataset; row_id = row_id; ops = op ∷ ops } ∷ []

  abbrev pub after_stamp :
      String
      → String
      → List (Op Value)
      → Stamping
      → Written Value (SiblingRun Value)
      → Dict String Bool × Result (Store Value × List (ObjectStamp Value))
  after_stamp dataset row_id ops (absent, s, stamps) not_found =
      (insert dataset true absent, ok (s, stamps))
  after_stamp dataset row_id ops (absent, s, stamps) (write_failed e) =
      (absent, failed (store_failed e))
  after_stamp dataset row_id ops (absent, s, stamps) (written t m) =
      (absent, ok (t, report_stamp dataset row_id (taken ops m.took) stamps))

  abbrev pub Stamped : Type 0
  Stamped = Dict String Bool × Result (Store Value × List (ObjectStamp Value))

  abbrev pub unless_open_error : Option String → Dict String Bool → Stamped → Stamped
  unless_open_error none absent r = r
  unless_open_error (some e) absent r = (absent, failed (store_failed e))

  -- The ops that a stamper queued; the stamp runs without the change's trace ids.
  unfoldable pub stamp_ops :
      Database Value → Change Value → String → List (Op Value) → Stamping → Stamped
  stamp_ops db ch dataset [] (absent, s, stamps) = (absent, ok (s, stamps))
  stamp_ops db ch dataset (op ∷ ops) (absent, s, stamps) =
      let rc : RecordChange Value = record { id = ch.object_id; ops = op ∷ ops; upsert = false } in
      unless_open_error (db.open_error dataset) absent (
        after_stamp dataset ch.object_id (op ∷ ops) (absent, s, stamps)
          (modify_row db false s dataset ch.object_id
            (apply_sibling (record ch { trace_ids = [] }) ch.object_id rc "") (λ m. m.doc)))

  -- One stamper, unless the change is on its own dataset or its row is known to be absent.
  unfoldable pub stamp_object_row :
      Controller Value → Database Value → Change Value → String × Stamper Value → Stamping → Stamped
  unfolding stamp_ops
  stamp_object_row c db ch (dataset, stamper) (absent, s, stamps) =
      if (dataset == ch.dataset) || is_absent (lookup dataset absent)
      then (absent, ok (s, stamps))
      else stamp_ops db ch dataset (stamper ch (getter c s)) (absent, s, stamps)

  abbrev pub next_stamper : Stamped → (Stamping → Stamped) → Stamped
  next_stamper (absent, failed e) f = (absent, failed e)
  next_stamper (absent, ok (s, stamps)) f = f (absent, s, stamps)

  unfoldable pub run_stampers :
      Controller Value
      → Database Value
      → Change Value
      → List (String × Stamper Value)
      → Stamping
      → Stamped
  unfolding stamp_object_row
  run_stampers c db ch [] (absent, s, stamps) = (absent, ok (s, stamps))
  run_stampers c db ch (st ∷ sts) acc =
      next_stamper (stamp_object_row c db ch st acc) (run_stampers c db ch sts)

  unfoldable pub apply_object_stamps :
      Controller Value
      → Database Value
      → Change Value
      → Dict String Bool
      → Store Value
      → Dict String Bool × Result (Store Value × List (ObjectStamp Value))
  unfolding run_stampers
  apply_object_stamps c db ch absent s =
      if ch.local || ch.injected || (ch.object_id == "")
      then (absent, ok (s, []))
      else run_stampers c db ch c.object_stampers (absent, s, [])
