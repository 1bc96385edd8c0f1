-- ===== src/Crdt/Modifier/Sticky.antt =====
-- internal/crdt/controller.go, Modify on tombstones: a deleted record stays deleted, and only its
-- bookkeeping fields move.
use any_sync_sdk.Base.{
  String, true, ◌≡◌, ◌≢◌, ◌∙◌, some, arith, ap, eq_iff, inl, inr, if◌then◌else◌,
}
use any_sync_sdk.Anyenc.{Anyenc, object}
use any_sync_sdk.Crdt.Op.{RecordChange, Change}
use any_sync_sdk.Crdt.Versions.{VersionId, versions_key, id_field}
use any_sync_sdk.Crdt.Lifecycle.{
  deleted_at_field, add_seq_field, apply_seq_field, traces_key, stamp_add_seq, stamp_apply_seq,
  lower_creation_marker, marker_node, is_tombstone,
}
use any_sync_sdk.Crdt.Lifecycle.Marker.{view-lower, lower_cases}
use any_sync_sdk.Crdt.Traces.{update_traces}
use any_sync_sdk.Crdt.Hooks.{Handler, stamp_traces}
use any_sync_sdk.Crdt.Modifier.{Outcome, modify_delete, modify_tombstone}
use any_sync_sdk.Crdt.Modifier.Frames.{view-stamp, get-stamp_ne, get-update_traces_ne}

-- A field that no bookkeeping writes.
abbrev pub IsPayload : String → Type 0
IsPayload k = (versions_key ≢ k) × (add_seq_field ≢ k) × (apply_seq_field ≢ k) × (traces_key ≢ k)

pub deleted_at-IsPayload : IsPayload deleted_at_field
deleted_at-IsPayload = (
  ground (arith, eq_iff versions_key deleted_at_field),
  ground (arith, eq_iff add_seq_field deleted_at_field),
  ground (arith, eq_iff apply_seq_field deleted_at_field),
  ground (arith, eq_iff traces_key deleted_at_field),
)

module _ ⦃E : Anyenc⦄ where
  open E use {Value, view, get, put, new_string, view-put, get-put}

  -- What the store keeps after a run: the document when the run says that it was modified.
  abbrev pub stored : Value → Outcome → Value
  stored existing (m, modified) = if modified then m.doc else existing

  -- A step of a document that stays a record and keeps a field.
  abbrev pub Keeps : String → Value → Value → Type 0
  Keeps k a b = (view b ≡ object) × (get b k ≡ get a k)

  pub lower-Keeps :
      (rec : Value) (v : VersionId) (k : String)
      → view rec ≡ object
      → versions_key ≢ k
      → Keeps k rec (lower_creation_marker rec v).0
  lower-Keeps rec v k h ne = (
    view-lower rec v h,
    elim (lower_cases rec v) [
      | inl (e, f) ↦
          ap (λ x. get x k) e
          ∙ ground (
            arith,
            get-put rec versions_key k (put (marker_node rec) id_field (new_string v)),
            eq_iff versions_key k,
          )
      | inr (e, f) ↦ ap (λ x. get x k) e
    ],
  )

  pub stamp_traces-Keeps :
      (rec : Value) (ch : Change Value) (k : String)
      → view rec ≡ object
      → add_seq_field ≢ k
      → apply_seq_field ≢ k
      → traces_key ≢ k
      → Keeps k rec (stamp_traces ch rec)
  unfolding stamp_add_seq stamp_apply_seq
  stamp_traces-Keeps rec ch k h na np nt =
      let a = stamp_add_seq rec ch.add_seq in
      let b = stamp_apply_seq a ch.apply_seq in
      let ha = view-stamp add_seq_field rec ch.add_seq h in
      let hb = view-stamp apply_seq_field a ch.apply_seq ha in
      let (hc, e) = get-update_traces_ne b ch k hb nt in
      (
        hc,
        e
            ∙ get-stamp_ne apply_seq_field k a ch.apply_seq ha np
            ∙ get-stamp_ne add_seq_field k rec ch.add_seq h na,
      )

  -- The same without the apply sequence, as the tombstone branch stamps.
  pub add_traces-Keeps :
      (rec : Value) (ch : Change Value) (k : String)
      → view rec ≡ object
      → add_seq_field ≢ k
      → traces_key ≢ k
      → Keeps k rec (update_traces (stamp_add_seq rec ch.add_seq) ch)
  unfolding stamp_add_seq
  add_traces-Keeps rec ch k h na nt =
      let a = stamp_add_seq rec ch.add_seq in
      let (hc, e) = get-update_traces_ne a ch k (view-stamp add_seq_field rec ch.add_seq h) nt in
      (hc, e ∙ get-stamp_ne add_seq_field k rec ch.add_seq h na)

  pub modify_tombstone-Keeps :
      (ch : Change Value) (rc : RecordChange Value) (rec : Value) (k : String)
      → view rec ≡ object
      → IsPayload k
      → Keeps k rec (stored rec (modify_tombstone ch rc rec))
  unfolding modify_tombstone
  modify_tombstone-Keeps ch rc rec k h p =
      let (hl, el) = lower-Keeps rec ch.version_id k h p.0 in
      let (hc, ec) = add_traces-Keeps (lower_creation_marker rec ch.version_id).0 ch k hl p.1 p.3 in
      ground arith

  pub modify_delete-Keeps :
      (h : Handler Value) (ch : Change Value) (id : String) (rc : RecordChange Value)
      (keyed : String) (rec : Value) (k : String)
      → view rec ≡ object
      → is_tombstone (some rec) ≡ true
      → IsPayload k
      → Keeps k rec (stored rec (modify_delete h ch id rc keyed rec))
  unfolding modify_delete
  modify_delete-Keeps h ch id rc keyed rec k hr dead p =
      let (hl, el) = lower-Keeps rec ch.version_id k hr p.0 in
      let (hc, ec) =
        stamp_traces-Keeps (lower_creation_marker rec ch.version_id).0 ch k hl p.1 p.2 p.3 in
      ground arith
