-- ===== src/Crdt/Modifier/Frames.antt =====
-- internal/crdt/apply.go and traces.go: which fields the stamps and the trace update may change.
use any_sync_sdk.Base.{ℕ, String, ◌≡◌, ◌≢◌, List, [], ◌∷◌, arith, eq_iff, inl, inr, Option-cases}
use any_sync_sdk.Anyenc.{Anyenc, object}
use any_sync_sdk.Crdt.Op.{Change}
use any_sync_sdk.Crdt.Versions.{VersionId, versions_key}
use any_sync_sdk.Crdt.Lifecycle.{traces_key, stamp}
use any_sync_sdk.Crdt.Traces.{
  update_traces, update_with, record_traces, collect_garbage, collect_version_ids,
}

module _ ⦃E : Anyenc⦄ where
  open E use {
    Value, view, get, put, del, of_int, new_number, view-put, get-put, view-del, get-del, entries,
  }

  -- The documents that a write under a key may leave.
  pub view-stamp :
      (field : String) (rec : Value) (seq : ℕ)
      → view rec ≡ object
      → view (stamp field rec seq) ≡ object
  view-stamp field rec seq h = ground (arith, view-put rec field (new_number (of_int seq)))

  pub get-stamp_ne :
      (field k : String) (rec : Value) (seq : ℕ)
      → view rec ≡ object
      → field ≢ k
      → get (stamp field rec seq) k ≡ get rec k
  get-stamp_ne field k rec seq h ne =
      ground (arith, get-put rec field k (new_number (of_int seq)), eq_iff field k)

  view-collect_garbage :
      (rec : Value) (in_use : List String)
      → view rec ≡ object
      → view (collect_garbage rec in_use) ≡ object
  unfolding collect_garbage
  view-collect_garbage rec in_use h = grind (arith, view-put, view-del)

  get-collect_garbage_ne :
      (rec : Value) (in_use : List String) (k : String)
      → view rec ≡ object
      → traces_key ≢ k
      → get (collect_garbage rec in_use) k ≡ get rec k
  unfolding collect_garbage
  get-collect_garbage_ne rec in_use k h ne = grind (arith, get-put, get-del, eq_iff)

  view-record_traces :
      (rec : Value) (v : VersionId) (ids : List String)
      → view rec ≡ object
      → view (record_traces rec v ids) ≡ object
  unfolding record_traces
  view-record_traces rec v [] h = grind (arith, view-put)
  view-record_traces rec v (id ∷ ids) h = view-put rec traces_key _ h

  get-record_traces_ne :
      (rec : Value) (v : VersionId) (ids : List String) (k : String)
      → view rec ≡ object
      → traces_key ≢ k
      → get (record_traces rec v ids) k ≡ get rec k
  unfolding record_traces
  get-record_traces_ne rec v [] k h ne = grind (arith, get-put, eq_iff)
  get-record_traces_ne rec v (id ∷ ids) k h ne = grind (arith, get-put, eq_iff)

  traces_frame :
      (rec : Value) (ch : Change Value) (in_use : List String) (k : String)
      → view rec ≡ object
      → traces_key ≢ k
      → (view (update_with rec ch in_use) ≡ object)
        × (get (update_with rec ch in_use) k ≡ get rec k)
  traces_frame rec ch [] k h ne =
      ground (arith, view-del rec traces_key, get-del rec traces_key k, eq_iff traces_key k)
  traces_frame rec ch (v ∷ vs) k h ne =
      let x = record_traces rec ch.version_id ch.trace_ids in
      ground (
        arith,
        view-record_traces rec ch.version_id ch.trace_ids h,
        get-record_traces_ne rec ch.version_id ch.trace_ids k h ne,
        view-collect_garbage x (v ∷ vs),
        get-collect_garbage_ne x (v ∷ vs) k,
        view-collect_garbage rec (v ∷ vs),
        get-collect_garbage_ne rec (v ∷ vs) k,
      )

  -- `updateTraces` touches `_traces` alone.
  pub get-update_traces_ne :
      (rec : Value) (ch : Change Value) (k : String)
      → view rec ≡ object
      → traces_key ≢ k
      → (view (update_traces rec ch) ≡ object) × (get (update_traces rec ch) k ≡ get rec k)
  unfolding update_traces
  get-update_traces_ne rec ch k h ne = elim (Option-cases (get rec versions_key)) [
    | inl e ↦ ground (arith, view-del rec traces_key, get-del rec traces_key k, eq_iff traces_key k)
    | inr (ver, e) ↦ ground (arith, traces_frame rec ch (collect_version_ids ver) k h ne)
  ]
