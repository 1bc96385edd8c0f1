-- ===== src/Crdt/ApplyChange/Succeeds.antt =====
-- internal/crdt/controller.go: a change that its writer validated commits when no call on the store fails.
use any_sync_sdk.Base.{
  ℕ, suc, String, Bool, true, false, ◌&&◌, ◌≡◌, refl, sym, List, [], ◌∷◌, Option, none, some, arith,
  Bool-cases, Option-cases, inl, inr, ◌==◌,
}
use any_sync_sdk.Anyenc.{Anyenc}
use any_sync_sdk.Dict.{string_key, lookup}
use any_sync_sdk.Crdt.Op.{RecordChange, Change}
use any_sync_sdk.Crdt.ApplySeq.{ApplySeqAllocator, Seed}
use any_sync_sdk.Crdt.Hooks.{Handler}
use any_sync_sdk.Crdt.Resolve.{ApplyError, Result, ok, failed, resolve_record_ids}
use any_sync_sdk.Crdt.Store.{Store, Database}
use any_sync_sdk.Crdt.Controller.{Getter, Controller, guard_change}
use any_sync_sdk.Crdt.Transaction.{ApplyHook, ApplyResult, Rejection, Mirrors, apply_record_changes}
use any_sync_sdk.Crdt.ApplyChange.{
  unless_failed, store_error, with_sequence, transact, place_ids, prepare, begin_change,
  forget_absent, with_handler, mint, content_rejections, apply_change_with_result,
}
use any_sync_sdk.Crdt.Commit.{Applied, after_records, in_transaction}
use any_sync_sdk.Base.{subst}
use any_sync_sdk.Crdt.Controller.Content.{
  check_records, validate_change, ContentRejection, dataset_of, by_key_of,
}
use any_sync_sdk.Crdt.Resolve.{resolve_from, then_id}
use any_sync_sdk.Crdt.Controller.Admitted.{validate_change-admit_change}
use any_sync_sdk.Crdt.Admission.{Dataset, Scope, route_of}
use any_sync_sdk.Crdt.ApplyChange.Commits.{
  IsOk, IsOk-ok, IsHealthy, unless_store_error-IsOk, apply_record_changes-IsOk,
}
use any_sync_sdk.Base.{◌≢◌, subst, ap}
use any_sync_sdk.Crdt.Commit.Healthy.{HookPasses, after_records-IsOk, commit-IsOk}

then_id-IsOk : (id : String) (r : Result (List String)) → IsOk r → IsOk (then_id id r)
then_id-IsOk id (ok ids) h = tt
then_id-IsOk id (failed e) h = h

module _ ⦃E : Anyenc⦄ where
  open E use {Value}

  -- The ids of records that the validation accepted resolve.
  resolve_from-IsOk :
      (derive : String → String) (change_id : String) (ds : Dataset) (route : Scope) (by_key : Bool)
      (i j seen : ℕ) (records : List (RecordChange Value))
      → (change_id == "") ≡ false
      → check_records ds route by_key j records ≡ none
      → IsOk (resolve_from derive change_id i seen records)
  unfolding resolve_from check_records
  resolve_from-IsOk derive change_id ds route by_key i j seen [] n h = tt
  resolve_from-IsOk derive change_id ds route by_key i j seen (rc ∷ records) n h =
      let later : check_records ds route by_key (suc j) records ≡ none = ground arith in
      elim (Bool-cases (rc.id == "")) [
        | inr e ↦ rw e (
            then_id-IsOk rc.id _ (
              resolve_from-IsOk derive change_id ds route by_key (suc i) (suc j) seen records n
                later))
        | inl e ↦
            let up : rc.upsert ≡ true = ground arith in
            rw (e, up, n)
              (then_id-IsOk _ _ (
                resolve_from-IsOk derive change_id ds route by_key (suc i) (suc j) (suc seen)
                  records n later))
      ]

module _ ⦃E : Anyenc⦄ (c : Controller (Anyenc.Value E)) (db : Database (Anyenc.Value E))
    (healthy : IsHealthy db) where
  open E use {Value}

  unless_failed-IsOk :
      (m : Mirrors) (s : Store Value) (e : Option ApplyError) (rest : Applied)
      → e ≡ none
      → IsOk rest.2
      → IsOk (unless_failed m s e rest).2
  unless_failed-IsOk m s none rest q h = h
  unless_failed-IsOk m s (some e) rest q h = ground arith

  with_sequence-IsOk :
      (hook : Option (ApplyHook Value)) (h : Getter Value → Handler Value) (ids : List String)
      (rejections : List Rejection) (m : Mirrors) (s : Store Value)
      (o : Option (Change Value × Option ApplySeqAllocator))
      → HookPasses hook
      → o ≢ none
      → IsOk (with_sequence c db hook h ids rejections m s o).2
  unfolding with_sequence in_transaction
  with_sequence-IsOk hook h ids rejections m s none k n = absurd (n refl)
  with_sequence-IsOk hook h ids rejections m s (some (ch, seqs)) k n =
      let landed = apply_record_changes c db h ch 0 ch.records ids (s, rejections, [], false) in
      let (absent, r) = after_records c db hook ch ids m.absent landed in
      commit-IsOk c db healthy ch (record m { apply_seqs = seqs; absent = absent }) s r
        (after_records-IsOk c db healthy hook ch ids m.absent landed k
          (apply_record_changes-IsOk c db healthy h ch 0 ch.records ids (s, rejections, [], false)))

  begin_change-IsOk :
      (hook : Option (ApplyHook Value)) (answer : Option Seed) (h : Getter Value → Handler Value)
      (ch : Change Value) (m : Mirrors) (s : Store Value) (r : Result (List String))
      → validate_change c ch ≡ none
      → HookPasses hook
      → mint answer m.apply_seqs ch ≢ none
      → IsOk r
      → IsOk (begin_change c db hook answer h ch m s r).2
  unfolding begin_change transact
  begin_change-IsOk hook answer h ch m s (failed e) v k n o = o
  begin_change-IsOk hook answer h ch m s (ok ids) v k n o =
      let (opens, writes, begins, meta, commits) = healthy in
      let P : Change Value × List ContentRejection → Type 0 = λ p.
        IsOk
          (unless_failed m s (store_error db.begin_error) (
            with_sequence c db hook h ids (content_rejections ids p.1) m s
              (mint answer m.apply_seqs p.0))).2 in
      subst P (sym (validate_change-admit_change c ch v)) (
        unless_failed-IsOk m s (store_error db.begin_error) _ (ap store_error begins)
          (with_sequence-IsOk hook h ids [] m s (mint answer m.apply_seqs ch) k n))

  place_ids-IsOk :
      (ch : Change Value) (r : Result (List String))
      → (ch.local && ch.injected) ≡ false
      → IsOk r
      → IsOk (place_ids c ch r)
  unfolding place_ids
  place_ids-IsOk ch (failed e) n h = h
  place_ids-IsOk ch (ok ids) n h = rw n tt

  prepare-IsOk :
      (derive : String → String) (ch : Change Value)
      → validate_change c ch ≡ none
      → (ch.change_id == "") ≡ false
      → (ch.local && ch.injected) ≡ false
      → IsOk (prepare derive c db ch)
  unfolding prepare validate_change resolve_record_ids
  prepare-IsOk derive ch v n l =
      let checked : check_records (dataset_of c ch) (route_of ch) (by_key_of c ch) 0 ch.records
          ≡ none =
        ground arith in
      unless_store_error-IsOk (db.open_error ch.dataset) _ (healthy.0 ch.dataset) (
        place_ids-IsOk ch _ l (
          resolve_from-IsOk derive ch.change_id (dataset_of c ch) (route_of ch) (by_key_of c ch) 0 0
            0 ch.records n checked))

  with_handler-IsOk :
      (derive : String → String) (hook : Option (ApplyHook Value)) (answer : Option Seed)
      (ch : Change Value) (m : Mirrors) (s : Store Value)
      (h : Option (Getter Value → Handler Value))
      → h ≢ none
      → validate_change c ch ≡ none
      → (ch.change_id == "") ≡ false
      → (ch.local && ch.injected) ≡ false
      → HookPasses hook
      → mint answer m.apply_seqs ch ≢ none
      → IsOk (with_handler derive c db hook answer ch m s h).2
  unfolding with_handler
  with_handler-IsOk derive hook answer ch m s none x v n l k o = absurd (x refl)
  with_handler-IsOk derive hook answer ch m s (some h) x v n l k o =
      begin_change-IsOk hook answer h ch (forget_absent ch m) s (prepare derive c db ch) v k o
        (prepare-IsOk derive ch v n l)

  validated-guard_change :
      (ch : Change Value) → validate_change c ch ≡ none → guard_change c ch ≡ none
  unfolding validate_change
  validated-guard_change ch v = elim (Option-cases (guard_change c ch)) [
    | inl e ↦ e
    | inr (x, e) ↦ ground arith
  ]

  has_handler : (ch : Change Value) → guard_change c ch ≡ none → lookup ch.dataset c.handlers ≢ none
  unfolding guard_change
  has_handler ch g e = ground arith

  -- A change that passes ValidateChange commits: with a change id and not both of the flags, when no
  -- call on the store fails, the hook has no error, and the allocator mints (or there is none), the
  -- call returns a result.
  pub validated_commits :
      (derive : String → String) (hook : Option (ApplyHook Value)) (answer : Option Seed)
      (ch : Change Value) (m : Mirrors) (s : Store Value)
      → validate_change c ch ≡ none
      → (ch.change_id == "") ≡ false
      → (ch.local && ch.injected) ≡ false
      → HookPasses hook
      → mint answer m.apply_seqs ch ≢ none
      → (res : ApplyResult Value) × ((apply_change_with_result derive c db hook answer ch m s).2
          ≡ ok res)
  unfolding apply_change_with_result
  validated_commits derive hook answer ch m s v n l k o =
      let g = validated-guard_change ch v in
      IsOk-ok (apply_change_with_result derive c db hook answer ch m s).2 (
        unless_failed-IsOk m s (guard_change c ch) _ g (
          with_handler-IsOk derive hook answer ch m s (lookup ch.dataset c.handlers)
            (has_handler ch g) v n l k o))
