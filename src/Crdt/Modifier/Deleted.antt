-- ===== src/Crdt/Modifier/Deleted.antt =====
-- internal/crdt/controller.go: changes that reach a deleted record.
use any_sync_sdk.Crdt.Sibling.{apply_sibling, sibling_delete, sibling_tombstone, stored_sibling}
use any_sync_sdk.Base.{
  subst, sym, none, String, true, ◌≡◌, ◌≢◌, ◌∙◌, List, [], ◌∷◌, some, arith, refl, ap, eq_iff,
  eq_refl, ◌⊎◌, inl, inr, Bool-cases,
}
use any_sync_sdk.Anyenc.{Anyenc, object}
use any_sync_sdk.Crdt.Op.{RecordChange, Change}
use any_sync_sdk.Crdt.Versions.{VersionId, versions_key, id_field}
use any_sync_sdk.Crdt.Lifecycle.{
  deleted_at_field, add_seq_field, apply_seq_field, traces_key, stamp_add_seq,
  lower_creation_marker, marker_node, is_tombstone, has_delete,
}
use any_sync_sdk.Crdt.Lifecycle.Marker.{view-lower, lower_cases}
use any_sync_sdk.Crdt.Traces.{update_traces}
use any_sync_sdk.Crdt.Hooks.{Handler, stamp_traces}
use any_sync_sdk.Crdt.Modifier.{modify, modify_delete, modify_tombstone}
use any_sync_sdk.Crdt.Modifier.Sticky.{
  IsPayload, deleted_at-IsPayload, stored, stamp_traces-Keeps, add_traces-Keeps,
  modify_tombstone-Keeps, modify_delete-Keeps,
}

module _ ⦃E : Anyenc⦄ where
  open E use {
    Value, view, get, put, copy, new_object, new_string, new_date_time, view-put, get-put,
    view-new_object,
  }

  abbrev pub HasVersions : Value → Type 0
  HasVersions rec = (ver : Value) × (get rec versions_key ≡ some ver)

  -- A deleted record: an object with `_deletedAt` and `_ver`.
  pub record IsDead (rec : Value) : Type 0 where
    pub is_object : view rec ≡ object
    pub deleted : is_tombstone (some rec) ≡ true
    pub versions : HasVersions rec

  lower_versions :
      (rec : Value) (v : VersionId)
      → view rec ≡ object
      → HasVersions rec
      → HasVersions (lower_creation_marker rec v).0
  lower_versions rec v h (ver, e) = elim (lower_cases rec v) [
    | inl (f, g) ↦ (
      put (marker_node rec) id_field (new_string v),
      ap (λ x. get x versions_key) f
          ∙ ground (
            arith,
            get-put rec versions_key versions_key (put (marker_node rec) id_field (new_string v)),
            eq_refl versions_key,
          ),
    )
    | inr (f, g) ↦ (ver, ap (λ x. get x versions_key) f ∙ e)
  ]

  pub add_seq_ne : add_seq_field ≢ versions_key
  add_seq_ne = ground (arith, eq_iff add_seq_field versions_key)

  pub apply_seq_ne : apply_seq_field ≢ versions_key
  apply_seq_ne = ground (arith, eq_iff apply_seq_field versions_key)

  pub traces_ne : traces_key ≢ versions_key
  traces_ne = ground (arith, eq_iff traces_key versions_key)

  -- One of two documents that both hold versions.
  chosen_versions :
      (a b c : Value) → (c ≡ a) ⊎ (c ≡ b) → HasVersions a → HasVersions b → HasVersions c
  chosen_versions a b c (inl e) (v, f) w = (v, ap (λ x. get x versions_key) e ∙ f)
  chosen_versions a b c (inr e) v (w, f) = (w, ap (λ x. get x versions_key) e ∙ f)

  modify_tombstone_versions :
      (ch : Change Value) (rc : RecordChange Value) (rec : Value)
      → view rec ≡ object
      → HasVersions rec
      → HasVersions (stored rec (modify_tombstone ch rc rec))
  unfolding modify_tombstone
  modify_tombstone_versions ch rc rec h v =
      let (ver, e) = lower_versions rec ch.version_id h v in
      let lowered = (lower_creation_marker rec ch.version_id).0 in
      let (hc, ec) =
        add_traces-Keeps lowered ch versions_key (view-lower rec ch.version_id h) add_seq_ne
          traces_ne in
      chosen_versions (update_traces (stamp_add_seq lowered ch.add_seq) ch) rec _ (ground arith)
        (ver, ec ∙ e) v

  modify_delete_versions :
      (h : Handler Value) (ch : Change Value) (id : String) (rc : RecordChange Value)
      (keyed : String) (rec : Value)
      → view rec ≡ object
      → is_tombstone (some rec) ≡ true
      → HasVersions rec
      → HasVersions (stored rec (modify_delete h ch id rc keyed rec))
  unfolding modify_delete
  modify_delete_versions h ch id rc keyed rec hr dead v =
      let (ver, e) = lower_versions rec ch.version_id hr v in
      let lowered = (lower_creation_marker rec ch.version_id).0 in
      let (hc, ec) =
        stamp_traces-Keeps lowered ch versions_key (view-lower rec ch.version_id hr) add_seq_ne
          apply_seq_ne traces_ne in
      chosen_versions (stamp_traces ch lowered) rec _ (ground arith) (ver, ec ∙ e) v

  -- On a deleted record the modifier takes the delete branch or the tombstone branch.
  pub modify_dead_cases :
      (h : Handler Value) (ch : Change Value) (id : String) (rc : RecordChange Value)
      (keyed : String) (rec : Value)
      → IsDead rec
      → (modify h ch id rc keyed rec ≡ modify_delete h ch id rc keyed rec)
        ⊎ (modify h ch id rc keyed rec ≡ modify_tombstone ch rc rec)
  unfolding modify
  modify_dead_cases h ch id rc keyed rec d = elim (Bool-cases (has_delete rc.ops)) [
    | inl e ↦ inl (rw e)
    | inr e ↦ inr (rw e (rw (d.versions.1, d.deleted)))
  ]

  deleted-congr :
      (a b : Value)
      → get b deleted_at_field ≡ get a deleted_at_field
      → is_tombstone (some b) ≡ is_tombstone (some a)
  unfolding is_tombstone
  deleted-congr a b e = ground arith

  -- Whatever change reaches a deleted record, from whatever handler, the stored document is a deleted
  -- record again, and every field outside the bookkeeping is what it was.
  pub modify-IsDead :
      (h : Handler Value) (ch : Change Value) (id : String) (rc : RecordChange Value)
      (keyed : String) (rec : Value)
      → IsDead rec
      → IsDead (stored rec (modify h ch id rc keyed rec))
        × ((k : String)
            → IsPayload k
            → get (stored rec (modify h ch id rc keyed rec)) k ≡ get rec k)
  modify-IsDead h ch id rc keyed rec d = elim (modify_dead_cases h ch id rc keyed rec d) [
    | inl e ↦
        let keeps = λ (k : String) (p : IsPayload k).
          modify_delete-Keeps h ch id rc keyed rec k d.is_object d.deleted p in
        rw e (
          record {
            is_object = (keeps deleted_at_field deleted_at-IsPayload).0;
            deleted =
                deleted-congr rec _ (keeps deleted_at_field deleted_at-IsPayload).1 ∙ d.deleted;
            versions = modify_delete_versions h ch id rc keyed rec d.is_object d.deleted d.versions;
          },
          λ k p. (keeps k p).1,
        )
    | inr e ↦
        let keeps =
          λ (k : String) (p : IsPayload k). modify_tombstone-Keeps ch rc rec k d.is_object p in
        rw e (
          record {
            is_object = (keeps deleted_at_field deleted_at-IsPayload).0;
            deleted =
                deleted-congr rec _ (keeps deleted_at_field deleted_at-IsPayload).1 ∙ d.deleted;
            versions = modify_tombstone_versions ch rc rec d.is_object d.versions;
          },
          λ k p. (keeps k p).1,
        )
  ]

  -- On a deleted record a projected write stores what a change with the same ops stores.
  sibling_dead :
      (h : Handler Value) (ch : Change Value) (id : String) (rc : RecordChange Value)
      (keyed : String) (rec : Value)
      → IsDead rec
      → stored_sibling rec (apply_sibling ch id rc keyed rec)
        ≡ stored rec (modify h ch id rc keyed rec)
  unfolding apply_sibling sibling_delete sibling_tombstone modify modify_delete modify_tombstone
  sibling_dead h ch id rc keyed rec d = elim (Bool-cases (has_delete rc.ops)) [
    | inl e ↦ rw (e, d.deleted) (ground arith)
    | inr e ↦ rw e (rw (d.versions.1, d.deleted) (ground arith))
  ]

  -- One write that reaches a record: a change with the handler that takes it, or a projected write.
  pub data Job : Type 0 where
    change : Handler Value → Change Value → String → RecordChange Value → String → Job
    sibling : Change Value → String → RecordChange Value → String → Job

  abbrev pub run_job : Job → Value → Value
  run_job (Job.change h ch id rc keyed) rec = stored rec (modify h ch id rc keyed rec)
  run_job (Job.sibling ch id rc keyed) rec = stored_sibling rec (apply_sibling ch id rc keyed rec)

  unfoldable pub run_jobs : List Job → Value → Value
  run_jobs [] rec = rec
  run_jobs (j ∷ js) rec = run_jobs js (run_job j rec)

  -- A handler for the comparison with projected writes, which run no hooks.
  lenient : Handler Value
  lenient = record {
    before_create = λ ch rc sink. (sink, none);
    before_modify = λ ch rec rc op sink. (sink, none);
    before_delete = λ ch rec rc sink. (sink, none);
  }

  -- A record that is dead, with the payload of another.
  abbrev StaysDead : Value → Value → Type 0
  StaysDead rec after = IsDead after × ((k : String) → IsPayload k → get after k ≡ get rec k)

  run_job-StaysDead : (j : Job) (rec : Value) → IsDead rec → StaysDead rec (run_job j rec)
  run_job-StaysDead (Job.change h ch id rc keyed) rec d = modify-IsDead h ch id rc keyed rec d
  run_job-StaysDead (Job.sibling ch id rc keyed) rec d =
      subst (StaysDead rec) (sym (sibling_dead lenient ch id rc keyed rec d))
        (modify-IsDead lenient ch id rc keyed rec d)

  -- No sequence of changes and of writes projected by handlers, upserts and deletes of whatever
  -- versions included, brings a deleted record back or moves a field of it outside the bookkeeping
  -- (`_ver`, `_addSeq`, `_applySeq`, `_traces`).
  pub run_jobs-IsDead :
      (js : List Job) (rec : Value)
      → IsDead rec
      → IsDead (run_jobs js rec)
        × ((k : String) → IsPayload k → get (run_jobs js rec) k ≡ get rec k)
  unfolding run_jobs
  run_jobs-IsDead [] rec d = (d, λ k p. refl)
  run_jobs-IsDead (j ∷ js) rec d =
      let (d', e) = run_job-StaysDead j rec d in
      let (d'', f) = run_jobs-IsDead js (run_job j rec) d' in (d'', λ k p. f k p ∙ e k p)
