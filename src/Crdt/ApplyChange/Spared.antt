-- ===== src/Crdt/ApplyChange/Spared.antt =====
-- internal/crdt/controller.go: the records, the projected writes and the object stamps of a change leave
-- the rows of other objects in the keyed datasets.
use any_sync_sdk.Base.{
  ℕ, suc, String, Bool, false, ◌≡◌, refl, List, [], ◌∷◌, Option, none, some, arith, All, if-Has,
}
use any_sync_sdk.Anyenc.{Anyenc}
use any_sync_sdk.Dict.{Dict, string_key, lookup}
use any_sync_sdk.Crdt.Op.{Op, RecordChange, Change}
use any_sync_sdk.Crdt.Hooks.{Handler, Run, Sibling}
use any_sync_sdk.Crdt.Sibling.{SiblingRun, apply_sibling}
use any_sync_sdk.Crdt.Modifier.{modify}
use any_sync_sdk.Crdt.Resolve.{
  Result, ok, failed, Holds, and_then-Holds, weaken, unless_store_error-Holds,
}
use any_sync_sdk.Crdt.Store.{Store, Database, Written, written, not_found, write_failed}
use any_sync_sdk.Crdt.Controller.{Getter, Stamper, Controller, is_keyed, store_id, keyed_object}
use any_sync_sdk.Crdt.Controller.Wired.{IsWired, IsPlaced}
use any_sync_sdk.Crdt.Transaction.{
  getter, wants_upsert, after_sibling, if_registered, apply_sibling_row, apply_siblings,
  after_record, record_out, apply_record_change, RecordOut, Landing, with_record,
  apply_record_changes,
}
use any_sync_sdk.Crdt.Stamping.{
  Stamping, Stamped, unless_open_error, after_stamp, stamp_ops, stamp_object_row, next_stamper,
  run_stampers, apply_object_stamps,
}
use any_sync_sdk.Crdt.ApplyChange.Isolation.{
  Spares, IsOwn, spare_both, WrittenSpares, modify_row-WrittenSpares, store_id-IsOwn,
}

module _ ⦃E : Anyenc⦄ (c : Controller (Anyenc.Value E)) where
  open E use {Value}

  after_sibling-Holds :
      (s : Store Value) (w : Written Value (SiblingRun Value))
      → WrittenSpares c s w
      → Holds (Spares c s) (after_sibling s w)
  after_sibling-Holds s (written t m) h = h
  after_sibling-Holds s not_found h = λ d i f. refl
  after_sibling-Holds s (write_failed e) h = tt

  if_registered-Holds :
      (h : Option (Getter Value → Handler Value)) (s : Store Value) (r : Result (Store Value))
      → Holds (Spares c s) r
      → Holds (Spares c s) (if_registered h s r)
  if_registered-Holds none s r p = λ d i f. refl
  if_registered-Holds (some h) s r p = p

  apply_siblings-Spares :
      (db : Database Value) (ch : Change Value) (sibs : List (Sibling Value)) (s : Store Value)
      → Holds (Spares c s) (apply_siblings c db ch sibs s)
  unfolding apply_siblings apply_sibling_row
  apply_siblings-Spares db ch [] s = λ d i f. refl
  apply_siblings-Spares db ch (sib ∷ rest) s =
      let id = store_id c sib.dataset sib.change.id in
      and_then-Holds (Spares c s) (Spares c s) (apply_sibling_row c db ch sib s)
        (apply_siblings c db ch rest)
        (if_registered-Holds (lookup sib.dataset c.handlers) s _ (
          unless_store_error-Holds (Spares c s) (db.open_error sib.dataset) _ (
            after_sibling-Holds s _ (
              modify_row-WrittenSpares c db (wants_upsert sib.change) s sib.dataset id
                (apply_sibling ch id sib.change (keyed_object c sib.dataset)) (λ m. m.doc)
                (store_id-IsOwn c sib.dataset sib.change.id)))))
        (λ t p.
          weaken (Spares c t) (Spares c s) (apply_siblings c db ch rest t)
            (λ u. spare_both c s t u p) (apply_siblings-Spares db ch rest t))

  -- What a record of the change leaves.
  abbrev OutSpares : Store Value → Store Value × RecordOut Value → Type 0
  OutSpares s out = Spares c s out.0

  after_record-Holds :
      (db : Database Value) (ch : Change Value) (w : Written Value (Run Value)) (s : Store Value)
      → WrittenSpares c s w
      → Holds (OutSpares s) (after_record c db ch w s)
  unfolding after_record
  after_record-Holds db ch not_found s h = λ d i f. refl
  after_record-Holds db ch (write_failed e) s h = tt
  after_record-Holds db ch (written t m) s h =
      if-Has (Holds (OutSpares s)) m.recorded_err (ok (t, record_out m)) _ h (
        and_then-Holds (Spares c t) (OutSpares s) (apply_siblings c db ch m.sink.sibling t)
          (λ u. ok (u, record_out m)) (apply_siblings-Spares db ch m.sink.sibling t)
          (λ u. spare_both c s t u h))

  abbrev pub LandingSpares : Store Value → Landing → Type 0
  LandingSpares s l = Spares c s l.0

  pub apply_record_changes-Holds :
      (db : Database Value) (h : Getter Value → Handler Value) (ch : Change Value) (i : ℕ)
      (records : List (RecordChange Value)) (ids : List String) (acc : Landing)
      → All (IsOwn c ch.dataset) ids
      → Holds (LandingSpares acc.0) (apply_record_changes c db h ch i records ids acc)
  unfolding apply_record_changes apply_record_change
  apply_record_changes-Holds db h ch i [] ids acc a = λ d j f. refl
  apply_record_changes-Holds db h ch i (rc ∷ records) [] acc a = λ d j f. refl
  apply_record_changes-Holds db h ch i (rc ∷ records) (id ∷ ids) acc (own, a) =
      let s = acc.0 in
      and_then-Holds (OutSpares s) (LandingSpares s)
        (apply_record_change c db (h (getter c s)) ch id rc s)
        (λ out. apply_record_changes c db h ch (suc i) records ids (with_record i id acc out))
        (after_record-Holds db ch _ s (
          modify_row-WrittenSpares c db (wants_upsert rc) s ch.dataset id
            (modify (h (getter c s)) ch id rc (keyed_object c ch.dataset)) (λ m. m.doc) own))
        (λ out p.
          weaken (LandingSpares out.0) (LandingSpares s)
            (apply_record_changes c db h ch (suc i) records ids (with_record i id acc out))
            (λ l. spare_both c s out.0 l.0 p)
            (apply_record_changes-Holds db h ch (suc i) records ids (with_record i id acc out) a))

  abbrev pub StampedSpares : Store Value → Stamped → Type 0
  StampedSpares s r = Holds (λ u. Spares c s u.0) r.1

  after_stamp-Spares :
      (dataset id : String) (ops : List (Op Value)) (acc : Stamping)
      (w : Written Value (SiblingRun Value))
      → WrittenSpares c acc.1 w
      → StampedSpares acc.1 (after_stamp dataset id ops acc w)
  after_stamp-Spares dataset id ops acc (written t m) h = h
  after_stamp-Spares dataset id ops acc not_found h = λ d i f. refl
  after_stamp-Spares dataset id ops acc (write_failed e) h = tt

  unless_open_error-Spares :
      (e : Option String) (absent : Dict String Bool) (s : Store Value) (r : Stamped)
      → StampedSpares s r
      → StampedSpares s (unless_open_error e absent r)
  unless_open_error-Spares none absent s r h = h
  unless_open_error-Spares (some e) absent s r h = tt

  stamp_ops-Spares :
      (db : Database Value) (ch : Change Value) (dataset : String) (ops : List (Op Value))
      (acc : Stamping)
      → is_keyed c dataset ≡ false
      → StampedSpares acc.1 (stamp_ops db ch dataset ops acc)
  unfolding stamp_ops
  stamp_ops-Spares db ch dataset [] acc k = λ d i f. refl
  stamp_ops-Spares db ch dataset (op ∷ ops) acc k =
      let rc : RecordChange Value = record { id = ch.object_id; ops = op ∷ ops; upsert = false } in
      unless_open_error-Spares (db.open_error dataset) acc.0 acc.1 _ (
        after_stamp-Spares dataset ch.object_id (op ∷ ops) acc _ (
          modify_row-WrittenSpares c db false acc.1 dataset ch.object_id
            (apply_sibling (record ch { trace_ids = [] }) ch.object_id rc "") (λ m. m.doc)
            (λ e. ground arith)))

  stamp_object_row-Spares :
      (db : Database Value) (ch : Change Value) (st : String × Stamper Value) (acc : Stamping)
      → is_keyed c st.0 ≡ false
      → StampedSpares acc.1 (stamp_object_row c db ch st acc)
  unfolding stamp_object_row
  stamp_object_row-Spares db ch st acc k =
      if-Has (StampedSpares acc.1) _ (acc.0, ok (acc.1, acc.2)) _ (λ d i f. refl)
        (stamp_ops-Spares db ch st.0 (st.1 ch (getter c acc.1)) acc k)

  next_stamper-Spares :
      (s : Store Value) (r : Stamped) (f : Stamping → Stamped)
      → StampedSpares s r
      → ((acc : Stamping) → StampedSpares acc.1 (f acc))
      → StampedSpares s (next_stamper r f)
  next_stamper-Spares s (absent, failed e) f h k = tt
  next_stamper-Spares s (absent, ok (t, stamps)) f h k =
      weaken (λ u. Spares c t u.0) (λ u. Spares c s u.0) (f (absent, t, stamps)).1
        (λ u. spare_both c s t u.0 h) (k (absent, t, stamps))

  run_stampers-Spares :
      (db : Database Value) (ch : Change Value) (sts : List (String × Stamper Value))
      (acc : Stamping)
      → All (λ st. is_keyed c st.0 ≡ false) sts
      → StampedSpares acc.1 (run_stampers c db ch sts acc)
  unfolding run_stampers
  run_stampers-Spares db ch [] acc a = λ d i f. refl
  run_stampers-Spares db ch (st ∷ sts) acc (k, a) =
      next_stamper-Spares acc.1 (stamp_object_row c db ch st acc) (run_stampers c db ch sts)
        (stamp_object_row-Spares db ch st acc k) (λ acc'. run_stampers-Spares db ch sts acc' a)

  -- The stampers of a controller that registrations built.
  unkeyed_stampers :
      (sts : List (String × Stamper Value))
      → All (IsPlaced c) sts
      → All (λ st. is_keyed c st.0 ≡ false) sts
  unfolding is_keyed
  unkeyed_stampers [] a = tt
  unkeyed_stampers (st ∷ sts) ((k, h), a) = (k, unkeyed_stampers sts a)

  pub apply_object_stamps-Spares :
      (db : Database Value) (ch : Change Value) (absent : Dict String Bool) (s : Store Value)
      → IsWired c
      → StampedSpares s (apply_object_stamps c db ch absent s)
  unfolding apply_object_stamps
  apply_object_stamps-Spares db ch absent s w =
      if-Has (StampedSpares s) _ (absent, ok (s, [])) _ (λ d i f. refl)
        (run_stampers-Spares db ch c.object_stampers (absent, s, [])
          (unkeyed_stampers c.object_stampers w))
