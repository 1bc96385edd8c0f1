-- ===== src/Crdt/Commit/Healthy.antt =====
-- internal/crdt/controller.go, ApplyChangeWithResult: the hook, the stamps and the commit where no call
-- of the store fails.
use any_sync_sdk.Base.{String, Bool, ◌≡◌, List, [], Option, none, some, arith, if-Has}
use any_sync_sdk.Anyenc.{Anyenc}
use any_sync_sdk.Dict.{Dict, string_key}
use any_sync_sdk.Crdt.Op.{Op, Change}
use any_sync_sdk.Crdt.Resolve.{Result, ok, failed}
use any_sync_sdk.Crdt.Store.{Store, Database}
use any_sync_sdk.Crdt.Controller.{Controller}
use any_sync_sdk.Crdt.Transaction.{ApplyHook, ApplyResult, Rejection, ObjectStamp, Mirrors, Landing}
use any_sync_sdk.Crdt.Stamping.{Stamped}
use any_sync_sdk.Crdt.Commit.{run_hook, after_stamps, after_records, commit_transaction}
use any_sync_sdk.Crdt.Commit.{after_hook}
use any_sync_sdk.Crdt.ApplyChange.Commits.{IsOk, IsHealthy, apply_object_stamps-IsOk}
use any_sync_sdk.Crdt.Commit.{after_hook}

module _ ⦃E : Anyenc⦄ where
  open E use {Value}

  -- The hook has no error of its own.
  abbrev pub HookPasses : Option (ApplyHook Value) → Type 0
  HookPasses none = Unit
  HookPasses (some hook) =
      (s : Store Value) (ch : Change Value) (ids : List String) (res : ApplyResult Value)
      → (hook s ch ids res).1 ≡ none

  pub after_hook-IsOk :
      (res : ApplyResult Value) (r : Store Value × Option String)
      → r.1 ≡ none
      → IsOk (after_hook res r)
  after_hook-IsOk res (t, none) h = tt
  after_hook-IsOk res (t, some e) h = ground arith

  pub run_hook-IsOk :
      (hook : Option (ApplyHook Value)) (ch : Change Value) (ids : List String) (t : Store Value)
      (res : ApplyResult Value)
      → HookPasses hook
      → IsOk (run_hook hook ch ids (t, res))
  run_hook-IsOk none ch ids t res k = tt
  run_hook-IsOk (some hook) ch ids t res k =
      after_hook-IsOk res (hook t ch ids res) (k t ch ids res)

  pub after_stamps-IsOk :
      (hook : Option (ApplyHook Value)) (ch : Change Value) (ids : List String)
      (rejections : List Rejection) (derived : List (List (Op Value)))
      (r : Result (Store Value × List (ObjectStamp Value)))
      → HookPasses hook
      → IsOk r
      → IsOk (after_stamps hook ch ids rejections derived r)
  after_stamps-IsOk hook ch ids rejections derived (failed e) k h = h
  after_stamps-IsOk hook ch ids rejections derived (ok (t, stamps)) k h =
      run_hook-IsOk hook ch ids t _ k

module _ ⦃E : Anyenc⦄ (c : Controller (Anyenc.Value E)) (db : Database (Anyenc.Value E))
    (healthy : IsHealthy db) where
  open E use {Value}

  pub after_records-IsOk :
      (hook : Option (ApplyHook Value)) (ch : Change Value) (ids : List String)
      (absent : Dict String Bool) (r : Result Landing)
      → HookPasses hook
      → IsOk r
      → IsOk (after_records c db hook ch ids absent r).1
  unfolding after_records
  after_records-IsOk hook ch ids absent (failed e) k h = h
  after_records-IsOk hook ch ids absent (ok (t, rejections, derived, landed)) k h =
      after_stamps-IsOk hook ch ids rejections derived _ k (
        if-Has (λ (x : Stamped). IsOk x.1) landed _ (absent, ok (t, []))
          (apply_object_stamps-IsOk c db healthy ch absent t) tt)

  pub commit-IsOk :
      (ch : Change Value) (m : Mirrors) (s : Store Value)
      (r : Result (Store Value × ApplyResult Value))
      → IsOk r
      → IsOk (commit_transaction c db ch m s r).2
  unfolding commit_transaction
  commit-IsOk ch m s (failed e) h = h
  commit-IsOk ch m s (ok (t, res)) h =
      let (opens, writes, begins, meta, commits) = healthy in rw (meta, commits) tt
