-- ===== src/Crdt/Modifier/Upserts.antt =====
-- internal/crdt/controller.go: the creation marker of a deleted record, which upserts lower in any order.
use any_sync_sdk.Base.{
  String, true, false, ◌≡◌, ◌∙◌, sym, refl, ap, some, arith, inl, inr, Bool-cases, Option-cases,
  if◌then◌else◌,
}
use any_sync_sdk.Anyenc.{Anyenc, object}
use any_sync_sdk.Crdt.Op.{RecordChange, Change}
use any_sync_sdk.Crdt.Versions.{VersionId, versions_key, id_field}
use any_sync_sdk.Crdt.Lifecycle.{marker_node, lower_creation_marker, stamp_add_seq}
use any_sync_sdk.Crdt.Lifecycle.Marker.{
  lower_of, lower_of_comm, marker_of, marker_of-lower, view-lower,
}
use any_sync_sdk.Crdt.Traces.{update_traces}
use any_sync_sdk.Crdt.Hooks.{Handler, stamp_traces}
use any_sync_sdk.Crdt.Modifier.{modify, modify_delete, modify_tombstone}
use any_sync_sdk.Crdt.Modifier.Sticky.{stored, Keeps, stamp_traces-Keeps, add_traces-Keeps}
use any_sync_sdk.Crdt.Modifier.Deleted.{
  IsDead, modify-IsDead, modify_dead_cases, add_seq_ne, apply_seq_ne, traces_ne,
}

module _ ⦃E : Anyenc⦄ where
  open E use {Value, view, get}

  unmoved_lem :
      (rec : Value) (v : VersionId)
      → (lower_creation_marker rec v).1 ≡ false
      → (lower_creation_marker rec v).0 ≡ rec
  unfolding lower_creation_marker
  unmoved_lem rec v h = elim (Option-cases (get (marker_node rec) id_field)) [
    | inl e ↦ ground arith
    | inr (cur, e) ↦ ground arith
  ]

  marker_of-congr :
      (a b : Value) → get b versions_key ≡ get a versions_key → marker_of b ≡ marker_of a
  marker_of-congr a b e = rw (e, marker_node) refl

  -- A document with the lowered record's versions, or the record where nothing moved.
  lowered_marker :
      (rec after : Value) (v : VersionId)
      → view rec ≡ object
      → Keeps versions_key (lower_creation_marker rec v).0 after
      → marker_of (if (lower_creation_marker rec v).1 then after else rec)
        ≡ some (lower_of (marker_of rec) v)
  lowered_marker rec after v h (_, k) = elim (Bool-cases (lower_creation_marker rec v).1) [
    | inl e ↦
        rw e (marker_of-congr (lower_creation_marker rec v).0 after k ∙ marker_of-lower rec v h)
    | inr e ↦ rw e (ap marker_of (sym (unmoved_lem rec v e)) ∙ marker_of-lower rec v h)
  ]

  tombstone-marker_of :
      (ch : Change Value) (rc : RecordChange Value) (rec : Value)
      → view rec ≡ object
      → rc.upsert ≡ true
      → marker_of (stored rec (modify_tombstone ch rc rec))
        ≡ some (lower_of (marker_of rec) ch.version_id)
  unfolding modify_tombstone
  tombstone-marker_of ch rc rec h u =
      let (lowered, moved) = lower_creation_marker rec ch.version_id in
      let after = update_traces (stamp_add_seq lowered ch.add_seq) ch in
      let chosen : stored rec (modify_tombstone ch rc rec) ≡ (if moved then after else rec) =
        ground arith in
      ap marker_of chosen
      ∙ lowered_marker rec after ch.version_id h (
          add_traces-Keeps lowered ch versions_key (view-lower rec ch.version_id h) add_seq_ne
            traces_ne)

  delete-marker_of :
      (h : Handler Value) (ch : Change Value) (id : String) (rc : RecordChange Value)
      (keyed : String) (rec : Value)
      → IsDead rec
      → rc.upsert ≡ true
      → marker_of (stored rec (modify_delete h ch id rc keyed rec))
        ≡ some (lower_of (marker_of rec) ch.version_id)
  unfolding modify_delete
  delete-marker_of h ch id rc keyed rec d u =
      let (lowered, moved) = lower_creation_marker rec ch.version_id in
      let after = stamp_traces ch lowered in
      let dead = d.deleted in
      let chosen : stored rec (modify_delete h ch id rc keyed rec)
          ≡ (if moved then after else rec) =
        ground arith in
      ap marker_of chosen
      ∙ lowered_marker rec after ch.version_id d.is_object (
          stamp_traces-Keeps lowered ch versions_key (view-lower rec ch.version_id d.is_object)
            add_seq_ne apply_seq_ne traces_ne)

  -- An upsert that reaches a deleted record lowers its creation marker.
  pub marker_of-modify :
      (h : Handler Value) (ch : Change Value) (id : String) (rc : RecordChange Value)
      (keyed : String) (rec : Value)
      → IsDead rec
      → rc.upsert ≡ true
      → marker_of (stored rec (modify h ch id rc keyed rec))
        ≡ some (lower_of (marker_of rec) ch.version_id)
  marker_of-modify h ch id rc keyed rec d u = elim (modify_dead_cases h ch id rc keyed rec d) [
    | inl e ↦ ap (λ o. marker_of (stored rec o)) e ∙ delete-marker_of h ch id rc keyed rec d u
    | inr e ↦ ap (λ o. marker_of (stored rec o)) e ∙ tombstone-marker_of ch rc rec d.is_object u
  ]

  -- The smallest of the marker, where there is one, and the two versions.
  abbrev pub smallest : Value → VersionId → VersionId → VersionId
  smallest rec a b = lower_of (some (lower_of (marker_of rec) a)) b

  two_upserts :
      (h : Handler Value) (a b : Change Value) (id : String) (x y : RecordChange Value)
      (keyed : String) (rec : Value)
      → IsDead rec
      → x.upsert ≡ true
      → y.upsert ≡ true
      → let one = stored rec (modify h a id x keyed rec) in
        marker_of (stored one (modify h b id y keyed one))
        ≡ some (smallest rec a.version_id b.version_id)
  two_upserts h a b id x y keyed rec d u w =
      let one = stored rec (modify h a id x keyed rec) in
      marker_of-modify h b id y keyed one (modify-IsDead h a id x keyed rec d).0 w
      ∙ ap (λ m. some (lower_of m b.version_id)) (marker_of-modify h a id x keyed rec d u)

  -- Two changes whose record changes are upserts, whatever their ops, reach a deleted record in either
  -- order: the modifier stores, both ways, a record whose creation marker is the smallest of the one
  -- it had and the versions of the two changes.
  pub upserts_comm :
      (h : Handler Value) (a b : Change Value) (id : String) (x y : RecordChange Value)
      (keyed : String) (rec : Value)
      → IsDead rec
      → x.upsert ≡ true
      → y.upsert ≡ true
      → let one = stored rec (modify h a id x keyed rec) in
        let other = stored rec (modify h b id y keyed rec) in
        (marker_of (stored one (modify h b id y keyed one))
          ≡ some (smallest rec a.version_id b.version_id))
        × (marker_of (stored other (modify h a id x keyed other))
            ≡ some (smallest rec a.version_id b.version_id))
  upserts_comm h a b id x y keyed rec d u w = (
    two_upserts h a b id x y keyed rec d u w,
    two_upserts h b a id y x keyed rec d w u
        ∙ ap some (lower_of_comm (marker_of rec) b.version_id a.version_id),
  )
