-- ===== src/Crdt/Commit/Isolated.antt =====
-- internal/crdt/controller.go, ApplyChangeWithResult: the hook, the stamps and the commit leave the rows
-- of other objects.
use any_sync_sdk.Base.{
  String, Bool, refl, List, [], Option, none, some, Option-cases, inl, inr, if-Has,
}
use any_sync_sdk.Anyenc.{Anyenc}
use any_sync_sdk.Dict.{Dict, string_key}
use any_sync_sdk.Crdt.Op.{Op, Change}
use any_sync_sdk.Crdt.Resolve.{Result, ok, failed, Holds, weaken}
use any_sync_sdk.Crdt.Store.{Store, Database, persist_meta, row}
use any_sync_sdk.Crdt.Controller.{Controller}
use any_sync_sdk.Crdt.Controller.Wired.{IsWired}
use any_sync_sdk.Crdt.Transaction.{ApplyHook, ApplyResult, Rejection, ObjectStamp, Mirrors, Landing}
use any_sync_sdk.Crdt.Commit.{run_hook, after_stamps, after_records, commit_transaction}
use any_sync_sdk.Crdt.ApplyChange.Isolation.{Spares, spare_both}
use any_sync_sdk.Crdt.ApplyChange.Spared.{LandingSpares, StampedSpares, apply_object_stamps-Spares}
use any_sync_sdk.Crdt.Commit.{after_hook}

module _ ⦃E : Anyenc⦄ (c : Controller (Anyenc.Value E)) where
  open E use {Value}

  -- What the hook is asked to leave.
  abbrev pub HookSpares : Option (ApplyHook Value) → Type 0
  HookSpares none = Unit
  HookSpares (some hook) =
      (s : Store Value) (ch : Change Value) (ids : List String) (res : ApplyResult Value)
      → Spares c s (hook s ch ids res).0

  abbrev pub DoneSpares : Store Value → Result (Store Value × ApplyResult Value) → Type 0
  DoneSpares s r = Holds (λ u. Spares c s u.0) r

  pub after_hook-Spares :
      (s : Store Value) (res : ApplyResult Value) (r : Store Value × Option String)
      → Spares c s r.0
      → DoneSpares s (after_hook res r)
  after_hook-Spares s res (t, none) h = h
  after_hook-Spares s res (t, some e) h = tt

  pub run_hook-Spares :
      (hook : Option (ApplyHook Value)) (ch : Change Value) (ids : List String) (s : Store Value)
      (t : Store Value) (res : ApplyResult Value)
      → HookSpares hook
      → Spares c s t
      → DoneSpares s (run_hook hook ch ids (t, res))
  run_hook-Spares none ch ids s t res k h = h
  run_hook-Spares (some hook) ch ids s t res k h =
      after_hook-Spares s res (hook t ch ids res)
        (spare_both c s t (hook t ch ids res).0 h (k t ch ids res))

  pub after_stamps-Spares :
      (hook : Option (ApplyHook Value)) (ch : Change Value) (ids : List String)
      (rejections : List Rejection) (derived : List (List (Op Value))) (s : Store Value)
      (r : Result (Store Value × List (ObjectStamp Value)))
      → HookSpares hook
      → Holds (λ u. Spares c s u.0) r
      → DoneSpares s (after_stamps hook ch ids rejections derived r)
  after_stamps-Spares hook ch ids rejections derived s (failed e) k h = tt
  after_stamps-Spares hook ch ids rejections derived s (ok (t, stamps)) k h =
      run_hook-Spares hook ch ids s t _ k h

  pub after_records-Spares :
      (db : Database Value) (hook : Option (ApplyHook Value)) (ch : Change Value)
      (ids : List String) (absent : Dict String Bool) (s : Store Value) (r : Result Landing)
      → IsWired c
      → HookSpares hook
      → Holds (LandingSpares c s) r
      → DoneSpares s (after_records c db hook ch ids absent r).1
  unfolding after_records
  after_records-Spares db hook ch ids absent s (failed e) w k h = tt
  after_records-Spares db hook ch ids absent s (ok (t, rejections, derived, landed)) w k h =
      after_stamps-Spares hook ch ids rejections derived s _ k (
        weaken (λ u. Spares c t u.0) (λ u. Spares c s u.0) _ (λ u. spare_both c s t u.0 h)
          (if-Has (StampedSpares c t) landed _ (absent, ok (t, []))
            (apply_object_stamps-Spares c db ch absent t w) (λ d i f. refl)))

  pub commit-Spares :
      (db : Database Value) (ch : Change Value) (m : Mirrors) (s : Store Value)
      (r : Result (Store Value × ApplyResult Value))
      → DoneSpares s r
      → Spares c s (commit_transaction c db ch m s r).1
  unfolding commit_transaction persist_meta row
  commit-Spares db ch m s (failed e) h = λ d i f. refl
  commit-Spares db ch m s (ok (t, res)) h = elim (Option-cases db.meta_error) [
    | inr (e, q) ↦ rw q (λ d i f. refl)
    | inl q ↦ elim (Option-cases db.commit_error) [
      | inr (e, p) ↦ rw (q, p) (λ d i f. refl)
      | inl p ↦ rw (q, p) h
    ]
  ]
