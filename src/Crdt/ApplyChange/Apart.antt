-- ===== src/Crdt/ApplyChange/Apart.antt =====
-- internal/crdt/controller.go: a whole change, on a controller that any registrations built, leaves the
-- rows of other objects in the keyed datasets.
use any_sync_sdk.Base.{
  ℕ, String, true, false, ◌&&◌, ◌≡◌, refl, sym, List, [], ◌∷◌, map, Option, none, some, arith,
  Bool-cases, inl, inr, All, if-Has,
}
use any_sync_sdk.Anyenc.{Anyenc}
use any_sync_sdk.Dict.{string_key, lookup}
use any_sync_sdk.Crdt.Op.{Change}
use any_sync_sdk.Crdt.ApplySeq.{ApplySeqAllocator, Seed}
use any_sync_sdk.Crdt.Hooks.{Handler}
use any_sync_sdk.Crdt.Keys.{keyed_rows, keyed_store_id, keyed_store_id-keyed_rows}
use any_sync_sdk.Crdt.Resolve.{
  ApplyError, Result, ok, failed, Holds, unless_store_error-Holds, resolve_record_ids,
}
use any_sync_sdk.Crdt.Store.{Store, Database, row}
use any_sync_sdk.Crdt.Controller.{
  Getter, Controller, HandlerReg, is_keyed, store_ids, register_all, new_controller, guard_change,
}
use any_sync_sdk.Crdt.Controller.Content.{admit_change}
use any_sync_sdk.Crdt.Controller.Wired.{IsWired, register_all-IsWired, new_controller-IsWired}
use any_sync_sdk.Crdt.Transaction.{ApplyHook, Rejection, Mirrors, apply_record_changes}
use any_sync_sdk.Crdt.ApplyChange.{
  unless_failed, store_error, with_sequence, transact, row_ids, place_ids, prepare, begin_change,
  forget_absent, with_handler, mint, content_rejections, apply_change_with_result,
}
use any_sync_sdk.Crdt.Commit.{Applied, after_records, in_transaction}
use any_sync_sdk.Crdt.ApplyChange.Isolation.{Spares, IsOwn}
use any_sync_sdk.Crdt.ApplyChange.Spared.{apply_record_changes-Holds}
use any_sync_sdk.Base.{subst}
use any_sync_sdk.Crdt.ApplySeq.{next}
use any_sync_sdk.Crdt.ApplyChange.{minted}
use any_sync_sdk.Crdt.Commit.Isolated.{HookSpares, after_records-Spares, commit-Spares}

module _ ⦃E : Anyenc⦄ (c : Controller (Anyenc.Value E)) where
  open E use {Value}

  unless_failed-Spares :
      (m : Mirrors) (s : Store Value) (e : Option ApplyError) (rest : Applied)
      → Spares c s rest.1
      → Spares c s (unless_failed m s e rest).1
  unless_failed-Spares m s none rest h = h
  unless_failed-Spares m s (some e) rest h = λ d i f. refl

  -- The minted sequence does not change the dataset.
  abbrev HasDataset : String → Option (Change Value × Option ApplySeqAllocator) → Type 0
  HasDataset dataset none = Unit
  HasDataset dataset (some (ch, seqs)) = ch.dataset ≡ dataset

  minted-HasDataset :
      (ch : Change Value) (n : Option (ℕ × ApplySeqAllocator)) → HasDataset ch.dataset (minted ch n)
  minted-HasDataset ch none = tt
  minted-HasDataset ch (some (n, b)) = refl

  mint-HasDataset :
      (answer : Option Seed) (a : Option ApplySeqAllocator) (ch : Change Value)
      → HasDataset ch.dataset (mint answer a ch)
  mint-HasDataset answer none ch = refl
  mint-HasDataset answer (some a) ch = minted-HasDataset ch (next answer a)

  with_sequence-Spares :
      (db : Database Value) (hook : Option (ApplyHook Value)) (h : Getter Value → Handler Value)
      (dataset : String) (ids : List String) (rejections : List Rejection) (m : Mirrors)
      (s : Store Value) (o : Option (Change Value × Option ApplySeqAllocator))
      → IsWired c
      → HookSpares c hook
      → All (IsOwn c dataset) ids
      → HasDataset dataset o
      → Spares c s (with_sequence c db hook h ids rejections m s o).1
  unfolding with_sequence in_transaction
  with_sequence-Spares db hook h dataset ids rejections m s none w k a same = λ d i f. refl
  with_sequence-Spares db hook h dataset ids rejections m s (some (ch, seqs)) w k a same =
      let landed = apply_record_changes c db h ch 0 ch.records ids (s, rejections, [], false) in
      let (absent, r) = after_records c db hook ch ids m.absent landed in
      commit-Spares c db ch (record m { apply_seqs = seqs; absent = absent }) s r
        (after_records-Spares c db hook ch ids m.absent s landed w k (
          apply_record_changes-Holds c db h ch 0 ch.records ids (s, rejections, [], false)
            (subst (λ d. All (IsOwn c d) ids) (sym same) a)))

  keyed_ids-IsOwn :
      (dataset : String) (ids : List String)
      → All (IsOwn c dataset) (map (keyed_store_id c.object_id) ids)
  keyed_ids-IsOwn dataset [] = tt
  keyed_ids-IsOwn dataset (id ∷ ids) =
      (λ k. keyed_store_id-keyed_rows c.object_id id, keyed_ids-IsOwn dataset ids)

  unkeyed-IsOwn :
      (dataset : String) (ids : List String)
      → is_keyed c dataset ≡ false
      → All (IsOwn c dataset) ids
  unkeyed-IsOwn dataset [] k = tt
  unkeyed-IsOwn dataset (id ∷ ids) k = (λ e. ground arith, unkeyed-IsOwn dataset ids k)

  store_ids-IsOwn :
      (dataset : String) (ids : List String) → All (IsOwn c dataset) (store_ids c dataset ids)
  unfolding store_ids
  store_ids-IsOwn dataset ids = elim (Bool-cases (is_keyed c dataset)) [
    | inl k ↦ rw k (keyed_ids-IsOwn dataset ids)
    | inr k ↦ rw k (unkeyed-IsOwn dataset ids k)
  ]

  place_ids-IsOwn :
      (ch : Change Value) (r : Result (List String))
      → Holds (All (IsOwn c ch.dataset)) (place_ids c ch r)
  unfolding place_ids row_ids
  place_ids-IsOwn ch (failed e) = tt
  place_ids-IsOwn ch (ok ids) =
      if-Has (Holds (All (IsOwn c ch.dataset))) (ch.local && ch.injected) _ _ tt
        (store_ids-IsOwn ch.dataset _)

  prepare-IsOwn :
      (derive : String → String) (db : Database Value) (ch : Change Value)
      → Holds (All (IsOwn c ch.dataset)) (prepare derive c db ch)
  unfolding prepare
  prepare-IsOwn derive db ch =
      unless_store_error-Holds (All (IsOwn c ch.dataset)) (db.open_error ch.dataset) _
        (place_ids-IsOwn ch (resolve_record_ids derive ch))

  begin_change-Spares :
      (db : Database Value) (hook : Option (ApplyHook Value)) (answer : Option Seed)
      (h : Getter Value → Handler Value) (ch : Change Value) (m : Mirrors) (s : Store Value)
      (r : Result (List String))
      → IsWired c
      → HookSpares c hook
      → Holds (All (IsOwn c ch.dataset)) r
      → Spares c s (begin_change c db hook answer h ch m s r).1
  unfolding begin_change transact admit_change
  begin_change-Spares db hook answer h ch m s (failed e) w k a = λ d i f. refl
  begin_change-Spares db hook answer h ch m s (ok ids) w k a =
      let (admitted, rejections) = admit_change c ch in
      unless_failed-Spares m s (store_error db.begin_error) _ (
        with_sequence-Spares db hook h ch.dataset ids (content_rejections ids rejections) m s
          (mint answer m.apply_seqs admitted) w k a (mint-HasDataset answer m.apply_seqs admitted))

  with_handler-Spares :
      (derive : String → String) (db : Database Value) (hook : Option (ApplyHook Value))
      (answer : Option Seed) (ch : Change Value) (m : Mirrors) (s : Store Value)
      (h : Option (Getter Value → Handler Value))
      → IsWired c
      → HookSpares c hook
      → Spares c s (with_handler derive c db hook answer ch m s h).1
  unfolding with_handler
  with_handler-Spares derive db hook answer ch m s none w k = λ d i f. refl
  with_handler-Spares derive db hook answer ch m s (some h) w k =
      begin_change-Spares db hook answer h ch (forget_absent ch m) s (prepare derive c db ch) w k
        (prepare-IsOwn derive db ch)

  -- On a controller without a stamper of a keyed dataset.
  change-Spares :
      (derive : String → String) (db : Database Value) (hook : Option (ApplyHook Value))
      (answer : Option Seed) (ch : Change Value) (m : Mirrors) (s : Store Value)
      → IsWired c
      → HookSpares c hook
      → Spares c s (apply_change_with_result derive c db hook answer ch m s).1
  unfolding apply_change_with_result
  change-Spares derive db hook answer ch m s w k =
      unless_failed-Spares m s (guard_change c ch) _
        (with_handler-Spares derive db hook answer ch m s (lookup ch.dataset c.handlers) w k)

module _ ⦃E : Anyenc⦄ where
  open E use {Value}

  -- The controller of an object after registrations.
  abbrev pub built : String → List String → List (HandlerReg Value) → Controller Value
  built object_id shared regs = (register_all (new_controller object_id shared) regs).0

  -- Whatever change a controller of an object gets, and however the call ends, a row of a keyed
  -- dataset outside the key range of the controller's object stays as it is: the controller is one
  -- that any registrations built, and the apply hook, when there is one, leaves such rows.
  pub row-apply_change_with_result :
      (object_id : String) (shared : List String) (regs : List (HandlerReg Value))
      (derive : String → String) (db : Database Value) (hook : Option (ApplyHook Value))
      (answer : Option Seed) (ch : Change Value) (m : Mirrors) (s : Store Value)
      (dataset id : String)
      → HookSpares (built object_id shared regs) hook
      → is_keyed (built object_id shared regs) dataset ≡ true
      → keyed_rows (built object_id shared regs).object_id id ≡ false
      → row
          (apply_change_with_result derive (built object_id shared regs) db hook answer ch m s).1
          dataset
          id
        ≡ row s dataset id
  row-apply_change_with_result object_id shared regs derive db hook answer ch m s dataset id k e f =
      change-Spares (built object_id shared regs) derive db hook answer ch m s
        (register_all-IsWired (new_controller object_id shared) regs
          (new_controller-IsWired Value object_id shared))
        k dataset id (e, f)
