-- ===== src/Crdt/ApplyChange/Commits.antt =====
-- internal/crdt/controller.go: the records, the projected writes and the object stamps of a change fail
-- only where a call on the store does.
use any_sync_sdk.Base.{
  ℕ, suc, String, Bool, true, false, ◌≡◌, refl, List, [], ◌∷◌, Option, none, some, arith, if-Has,
}
use any_sync_sdk.Anyenc.{Anyenc}
use any_sync_sdk.Dict.{Dict, string_key, lookup}
use any_sync_sdk.Crdt.Op.{Op, RecordChange, Change}
use any_sync_sdk.Crdt.Hooks.{Handler, Run, Sibling}
use any_sync_sdk.Crdt.Sibling.{SiblingRun, apply_sibling}
use any_sync_sdk.Crdt.Modifier.{modify}
use any_sync_sdk.Crdt.Resolve.{Result, ok, failed, and_then, unless_store_error}
use any_sync_sdk.Crdt.Store.{
  Store, Database, Written, written, not_found, write_failed, modify_row, row,
}
use any_sync_sdk.Crdt.Controller.{Getter, Stamper, Controller, store_id, keyed_object}
use any_sync_sdk.Crdt.Transaction.{
  getter, wants_upsert, after_sibling, if_registered, apply_sibling_row, apply_siblings,
  after_record, record_out, apply_record_change, Landing, with_record, apply_record_changes,
}
use any_sync_sdk.Crdt.Stamping.{
  Stamping, Stamped, unless_open_error, after_stamp, stamp_ops, stamp_object_row, next_stamper,
  run_stampers, apply_object_stamps,
}
use any_sync_sdk.Crdt.Store.{modify_found, unless_error}

-- A call that did not fail.
abbrev pub IsOk : {A : Type 0} → Result A → Type 0
IsOk (ok a) = Unit
IsOk (failed e) = false ≡ true

pub IsOk-ok : {A : Type 0} (r : Result A) → IsOk r → (a : A) × (r ≡ ok a)
IsOk-ok (ok a) h = (a, refl)
IsOk-ok (failed e) h = ground arith

and_then-IsOk :
    {A B : Type 0} (r : Result A) (f : A → Result B)
    → IsOk r
    → ((a : A) → IsOk (f a))
    → IsOk (and_then r f)
and_then-IsOk (ok a) f h k = k a
and_then-IsOk (failed e) f h k = h

-- No call on the store fails.
abbrev pub IsHealthy : {V : Type 0} → Database V → Type 0
IsHealthy db =
    ((dataset : String) → db.open_error dataset ≡ none)
    × ((dataset id : String) → db.write_error dataset id ≡ none)
    × (db.begin_error ≡ none)
    × (db.meta_error ≡ none)
    × (db.commit_error ≡ none)

pub unless_store_error-IsOk :
    {A : Type 0} (e : Option String) (r : Result A)
    → e ≡ none
    → IsOk r
    → IsOk (unless_store_error e r)
unless_store_error-IsOk none r q h = h
unless_store_error-IsOk (some e) r q h = ground arith

module _ {V : Type 0} where
  -- The store answered, with the write or with the absence of the row.
  abbrev HasAnswer : {R : Type 0} → Written V R → Type 0
  HasAnswer (written t r) = Unit
  HasAnswer not_found = Unit
  HasAnswer (write_failed e) = false ≡ true

  unless_error-HasAnswer :
      {R : Type 0} (e : Option String) (w : Written V R)
      → e ≡ none
      → HasAnswer w
      → HasAnswer (unless_error e w)
  unless_error-HasAnswer none w q h = h
  unless_error-HasAnswer (some e) w q h = ground arith

  modify_found-HasAnswer :
      {R : Type 0} (db : Database V) (upsert : Bool) (s : Store V) (dataset id : String)
      (f : V → R × Bool) (doc : R → V) (found : Option V)
      → HasAnswer (modify_found db upsert s dataset id f doc found)
  unfolding modify_found
  modify_found-HasAnswer db upsert s dataset id f doc (some v) = tt
  modify_found-HasAnswer db true s dataset id f doc none = tt
  modify_found-HasAnswer db false s dataset id f doc none = tt

  modify_row-HasAnswer :
      {R : Type 0} (db : Database V) (upsert : Bool) (s : Store V) (dataset id : String)
      (f : V → R × Bool) (doc : R → V)
      → IsHealthy db
      → HasAnswer (modify_row db upsert s dataset id f doc)
  unfolding modify_row
  modify_row-HasAnswer db upsert s dataset id f doc h =
      unless_error-HasAnswer (db.write_error dataset id) _ (h.1 dataset id)
        (modify_found-HasAnswer db upsert s dataset id f doc (row s dataset id))

module _ ⦃E : Anyenc⦄ (c : Controller (Anyenc.Value E)) (db : Database (Anyenc.Value E))
    (healthy : IsHealthy db) where
  open E use {Value}

  after_sibling-IsOk :
      (s : Store Value) (w : Written Value (SiblingRun Value))
      → HasAnswer w
      → IsOk (after_sibling s w)
  after_sibling-IsOk s (written t m) h = tt
  after_sibling-IsOk s not_found h = tt
  after_sibling-IsOk s (write_failed e) h = h

  if_registered-IsOk :
      (h : Option (Getter Value → Handler Value)) (s : Store Value) (r : Result (Store Value))
      → IsOk r
      → IsOk (if_registered h s r)
  if_registered-IsOk none s r p = tt
  if_registered-IsOk (some h) s r p = p

  apply_siblings-IsOk :
      (ch : Change Value) (sibs : List (Sibling Value)) (s : Store Value)
      → IsOk (apply_siblings c db ch sibs s)
  unfolding apply_siblings apply_sibling_row
  apply_siblings-IsOk ch [] s = tt
  apply_siblings-IsOk ch (sib ∷ rest) s =
      let id = store_id c sib.dataset sib.change.id in
      and_then-IsOk (apply_sibling_row c db ch sib s) (apply_siblings c db ch rest)
        (if_registered-IsOk (lookup sib.dataset c.handlers) s _ (
          unless_store_error-IsOk (db.open_error sib.dataset) _ (healthy.0 sib.dataset) (
            after_sibling-IsOk s _ (
              modify_row-HasAnswer db (wants_upsert sib.change) s sib.dataset id
                (apply_sibling ch id sib.change (keyed_object c sib.dataset)) (λ m. m.doc)
                healthy))))
        (apply_siblings-IsOk ch rest)

  after_record-IsOk :
      (ch : Change Value) (w : Written Value (Run Value)) (s : Store Value)
      → HasAnswer w
      → IsOk (after_record c db ch w s)
  unfolding after_record
  after_record-IsOk ch not_found s h = tt
  after_record-IsOk ch (write_failed e) s h = h
  after_record-IsOk ch (written t m) s h = if-Has IsOk m.recorded_err (ok (t, record_out m)) _ tt (
      and_then-IsOk (apply_siblings c db ch m.sink.sibling t) (λ u. ok (u, record_out m))
        (apply_siblings-IsOk ch m.sink.sibling t) (λ u. tt))

  pub apply_record_changes-IsOk :
      (h : Getter Value → Handler Value) (ch : Change Value) (i : ℕ)
      (records : List (RecordChange Value)) (ids : List String) (acc : Landing)
      → IsOk (apply_record_changes c db h ch i records ids acc)
  unfolding apply_record_changes apply_record_change
  apply_record_changes-IsOk h ch i [] ids acc = tt
  apply_record_changes-IsOk h ch i (rc ∷ records) [] acc = tt
  apply_record_changes-IsOk h ch i (rc ∷ records) (id ∷ ids) acc =
      let s = acc.0 in
      and_then-IsOk (apply_record_change c db (h (getter c s)) ch id rc s)
        (λ out. apply_record_changes c db h ch (suc i) records ids (with_record i id acc out))
        (after_record-IsOk ch _ s (
          modify_row-HasAnswer db (wants_upsert rc) s ch.dataset id
            (modify (h (getter c s)) ch id rc (keyed_object c ch.dataset)) (λ m. m.doc) healthy))
        (λ out. apply_record_changes-IsOk h ch (suc i) records ids (with_record i id acc out))

  after_stamp-IsOk :
      (dataset id : String) (ops : List (Op Value)) (acc : Stamping)
      (w : Written Value (SiblingRun Value))
      → HasAnswer w
      → IsOk (after_stamp dataset id ops acc w).1
  after_stamp-IsOk dataset id ops acc (written t m) h = tt
  after_stamp-IsOk dataset id ops acc not_found h = tt
  after_stamp-IsOk dataset id ops acc (write_failed e) h = h

  unless_open_error-IsOk :
      (e : Option String) (absent : Dict String Bool) (r : Stamped)
      → e ≡ none
      → IsOk r.1
      → IsOk (unless_open_error e absent r).1
  unless_open_error-IsOk none absent r q h = h
  unless_open_error-IsOk (some e) absent r q h = ground arith

  next_stamper-IsOk :
      (r : Stamped) (f : Stamping → Stamped)
      → IsOk r.1
      → ((acc : Stamping) → IsOk (f acc).1)
      → IsOk (next_stamper r f).1
  next_stamper-IsOk (absent, failed e) f h k = h
  next_stamper-IsOk (absent, ok (t, stamps)) f h k = k (absent, t, stamps)

  stamp_ops-IsOk :
      (ch : Change Value) (dataset : String) (ops : List (Op Value)) (acc : Stamping)
      → IsOk (stamp_ops db ch dataset ops acc).1
  unfolding stamp_ops
  stamp_ops-IsOk ch dataset [] acc = tt
  stamp_ops-IsOk ch dataset (op ∷ ops) acc =
      let rc : RecordChange Value = record { id = ch.object_id; ops = op ∷ ops; upsert = false } in
      unless_open_error-IsOk (db.open_error dataset) acc.0 _ (healthy.0 dataset) (
        after_stamp-IsOk dataset ch.object_id (op ∷ ops) acc _ (
          modify_row-HasAnswer db false acc.1 dataset ch.object_id
            (apply_sibling (record ch { trace_ids = [] }) ch.object_id rc "") (λ m. m.doc) healthy))

  run_stampers-IsOk :
      (ch : Change Value) (sts : List (String × Stamper Value)) (acc : Stamping)
      → IsOk (run_stampers c db ch sts acc).1
  unfolding run_stampers stamp_object_row
  run_stampers-IsOk ch [] acc = tt
  run_stampers-IsOk ch (st ∷ sts) acc =
      next_stamper-IsOk (stamp_object_row c db ch st acc) (run_stampers c db ch sts)
        (if-Has (λ (r : Stamped). IsOk r.1) _ (acc.0, ok (acc.1, acc.2)) _ tt
          (stamp_ops-IsOk ch st.0 (st.1 ch (getter c acc.1)) acc))
        (run_stampers-IsOk ch sts)

  pub apply_object_stamps-IsOk :
      (ch : Change Value) (absent : Dict String Bool) (s : Store Value)
      → IsOk (apply_object_stamps c db ch absent s).1
  unfolding apply_object_stamps
  apply_object_stamps-IsOk ch absent s =
      if-Has (λ (r : Stamped). IsOk r.1) _ (absent, ok (s, [])) _ tt
        (run_stampers-IsOk ch c.object_stampers (absent, s, []))
