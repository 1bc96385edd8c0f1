-- ===== src/Crdt/Modifier/Burial.antt =====
-- internal/crdt/controller.go: a delete that the handler admits.
use any_sync_sdk.Base.{
  ◌*◌, String, true, false, ◌≡◌, ◌≢◌, ◌∙◌, sym, subst, ap, ◌⊎◌, ◌==◌, Bool-cases, if◌then◌else◌,
  Option, none, some, arith, refl, eq_iff, eq_refl, inl, inr, Option-cases,
}
use any_sync_sdk.Anyenc.{
  Anyenc, View, null, boolean, number, string, array, object, date_time, opaque,
}
use any_sync_sdk.Crdt.Op.{RecordChange, Change}
use any_sync_sdk.Crdt.Versions.{VersionId, versions_key, id_field, default_key}
use any_sync_sdk.Crdt.Lifecycle.{
  deleted_at_field, add_seq_field, apply_seq_field, traces_key, object_id_field, stamp_add_seq,
  stamp_apply_seq, is_tombstone, has_delete, new_tombstone, carry_traces, tombstone_versions,
  creation_marker,
}
use any_sync_sdk.Crdt.Traces.{update_traces}
use any_sync_sdk.Crdt.Hooks.{Handler, stamp_object, start}
use any_sync_sdk.Crdt.Modifier.{modify, modify_delete}
use any_sync_sdk.Crdt.Modifier.Frames.{view-stamp, get-stamp_ne, get-update_traces_ne}
use any_sync_sdk.Crdt.Modifier.Sticky.{deleted_at-IsPayload, stored, Keeps}
use any_sync_sdk.Crdt.Modifier.Deleted.{IsDead, add_seq_ne, apply_seq_ne, traces_ne}

module _ {V N : Type 0} where
  abbrev string_in : View V N → String
  string_in w = elim w [ string s ↦ s | _ ↦ "" ]

  string_view :
      (w : View V N) → (string_in w ≡ "") ⊎ ((w ≡ string (string_in w)) × (string_in w ≢ ""))
  string_view null = inl refl
  string_view (boolean b) = inl refl
  string_view (number n) = inl refl
  string_view (string s) = elim (Bool-cases (s == "")) [
    | inl e ↦ inl ((eq_iff s "").0 e)
    | inr e ↦ inr (refl, λ q. let y = (eq_iff s "").1 q in ground arith)
  ]
  string_view (array vs) = inl refl
  string_view object = inl refl
  string_view (date_time n) = inl refl
  string_view (opaque) = inl refl

module _ ⦃E : Anyenc⦄ where
  open E use {
    Value, view, get, put, copy, new_object, new_string, new_date_time, view-put, get-put,
    view-new_object, get-new_object,
  }

  Keeps-trans : (k : String) (a b c : Value) → Keeps k a b → Keeps k b c → Keeps k a c
  Keeps-trans k a b c (h, e) (g, f) = (g, f ∙ e)

  carry_traces-Keeps :
      (existing : Option Value) (tomb : Value) (k : String)
      → view tomb ≡ object
      → traces_key ≢ k
      → Keeps k tomb (carry_traces existing tomb)
  carry_traces-Keeps none tomb k h ne = (h, refl)
  carry_traces-Keeps (some rec) tomb k h ne = elim (Option-cases (get rec traces_key)) [
    | inl e ↦ ground arith
    | inr (t, e) ↦ ground (
      arith,
      view-put tomb traces_key (copy t),
      get-put tomb traces_key k (copy t),
      eq_iff traces_key k,
    )
  ]

  stamp_object-Keeps :
      (keyed : String) (rec : Value) (k : String)
      → view rec ≡ object
      → object_id_field ≢ k
      → Keeps k rec (stamp_object keyed rec)
  unfolding stamp_object
  stamp_object-Keeps keyed rec k h ne = ground (
    arith,
    view-put rec object_id_field (new_string keyed),
    get-put rec object_id_field k (new_string keyed),
    eq_iff object_id_field k,
  )

  -- The tombstone before the stamps.
  bare : String → Change Value → Option Value → Value
  bare id ch existing =
      put
        (put (put new_object id_field (new_string id)) deleted_at_field
          (new_date_time (ch.timestamp * 1000)))
        versions_key (tombstone_versions (creation_marker existing) ch.version_id)

  -- A field that the stamps of a new tombstone leave alone.
  abbrev IsKept : String → Type 0
  IsKept k = (traces_key ≢ k) × (add_seq_field ≢ k) × (apply_seq_field ≢ k) × (object_id_field ≢ k)

  new_tombstone-Keeps :
      (id : String) (ch : Change Value) (existing : Option Value) (keyed k : String)
      → view (bare id ch existing) ≡ object
      → IsKept k
      → Keeps k
          (bare id ch existing)
          (update_traces (stamp_object keyed (new_tombstone id ch existing)) ch)
  unfolding new_tombstone bare stamp_add_seq stamp_apply_seq
  new_tombstone-Keeps id ch existing keyed k h n =
      let a = carry_traces existing (bare id ch existing) in
      let (ha, ea) = carry_traces-Keeps existing (bare id ch existing) k h n.0 in
      let b = stamp_add_seq a ch.add_seq in
      let hb = view-stamp add_seq_field a ch.add_seq ha in
      let c = stamp_apply_seq b ch.apply_seq in
      let hc = view-stamp apply_seq_field b ch.apply_seq hb in
      let (hd, ed) = stamp_object-Keeps keyed c k hc n.3 in
      let (he, ee) = get-update_traces_ne (stamp_object keyed c) ch k hd n.0 in
      (
        he,
        ee
            ∙ ed
            ∙ get-stamp_ne apply_seq_field k b ch.apply_seq hb n.2
            ∙ get-stamp_ne add_seq_field k a ch.add_seq ha n.1
            ∙ ea,
      )

  view-bare :
      (id : String) (ch : Change Value) (existing : Option Value)
      → view (bare id ch existing) ≡ object
  unfolding bare
  view-bare id ch existing =
      view-put _ versions_key _
        (view-put _ deleted_at_field _ (view-put _ id_field _ view-new_object))

  get-bare :
      (id : String) (ch : Change Value) (existing : Option Value)
      → (get (bare id ch existing) deleted_at_field ≡ some (new_date_time (ch.timestamp * 1000)))
        × (get (bare id ch existing) versions_key
            ≡ some (tombstone_versions (creation_marker existing) ch.version_id))
  unfolding bare
  get-bare id ch existing =
      let a = put new_object id_field (new_string id) in
      let b = put a deleted_at_field (new_date_time (ch.timestamp * 1000)) in
      let ha = view-put new_object id_field (new_string id) view-new_object in
      let hb = view-put a deleted_at_field (new_date_time (ch.timestamp * 1000)) ha in
      let tv = tombstone_versions (creation_marker existing) ch.version_id in
      ground (
        arith,
        get-put b versions_key versions_key tv,
        get-put b versions_key deleted_at_field tv,
        get-put a deleted_at_field deleted_at_field (new_date_time (ch.timestamp * 1000)),
        eq_refl versions_key,
        eq_refl deleted_at_field,
        eq_iff versions_key deleted_at_field,
      )

  deleted_at-IsKept : IsKept deleted_at_field
  deleted_at-IsKept = (
    deleted_at-IsPayload.3,
    deleted_at-IsPayload.1,
    deleted_at-IsPayload.2,
    ground (arith, eq_iff object_id_field deleted_at_field),
  )

  versions-IsKept : IsKept versions_key
  versions-IsKept =
      (traces_ne, add_seq_ne, apply_seq_ne, ground (arith, eq_iff object_id_field versions_key))

  dated : {rec v : Value} → get rec deleted_at_field ≡ some v → is_tombstone (some rec) ≡ true
  unfolding is_tombstone
  dated e = ground arith

  -- The record's `_ver` has a non-empty string under `id`.
  abbrev pub HasMarker : Value → VersionId → Type 0
  HasMarker rec s =
      (ver : Value) × (marker : Value) × (get rec versions_key ≡ some ver)
      × (get ver id_field ≡ some marker)
      × (view marker ≡ string s)
      × (s ≢ "")

  -- The version that a grave keeps as the creation: the record's own, or the delete's.
  abbrev pub Creation : Value → VersionId → VersionId → Type 0
  Creation rec version m =
      HasMarker rec m ⊎ (((s : VersionId) → HasMarker rec s → ⊥) × (m ≡ version))

  creation_marker-HasMarker :
      (rec : Value) → (creation_marker (some rec) ≡ "") ⊎ HasMarker rec (creation_marker (some rec))
  unfolding creation_marker
  creation_marker-HasMarker rec = elim (Option-cases (get rec versions_key)) [
    | inl e ↦ inl (rw (e, creation_marker) refl)
    | inr (ver, e) ↦ elim (Option-cases (get ver id_field)) [
      | inl q ↦ inl (rw (e, q, creation_marker) refl)
      | inr (marker, q) ↦
          let read : creation_marker (some rec) ≡ string_in (view marker) =
            rw (e, q, creation_marker) refl in
          elim (string_view (view marker)) [
            | inl h ↦ inl (read ∙ h)
            | inr (h, ne) ↦
                subst (λ s. (creation_marker (some rec) ≡ "") ⊎ HasMarker rec s) (sym read)
                  (inr (ver, marker, e, q, h, ne))
          ]
    ]
  ]

  marker_of_grave :
      (rec : Value) (version m : VersionId)
      → Creation rec version m
      → (if creation_marker (some rec) == "" then version else creation_marker (some rec)) ≡ m
  unfolding creation_marker
  marker_of_grave rec version m (inl (ver, marker, e, q, h, ne)) = ground (arith, eq_iff m "")
  marker_of_grave rec version m (inr (none_there, e)) = elim (creation_marker-HasMarker rec) [
    | inl q ↦ ground (arith, eq_iff (creation_marker (some rec)) "")
    | inr h ↦ absurd (none_there (creation_marker (some rec)) h)
  ]

  -- The `_ver` of a grave: the creation's version, the delete's as the default, and nothing else.
  pub record GraveVersions (ver : Value) (created deleted : VersionId) : Type 0 where
    pub is_object : view ver ≡ object
    pub creation : get ver id_field ≡ some (new_string created)
    pub default : get ver default_key ≡ some (new_string deleted)
    pub nothing_else : (k : String) → k ≢ id_field → k ≢ default_key → get ver k ≡ none

  tombstone_versions-GraveVersions :
      (rec : Value) (version m : VersionId)
      → Creation rec version m
      → GraveVersions (tombstone_versions (creation_marker (some rec)) version) m version
  unfolding tombstone_versions
  tombstone_versions-GraveVersions rec version m c =
      let w =
        new_string
          (if creation_marker (some rec) == "" then version else creation_marker (some rec)) in
      let named : w ≡ new_string m = ap new_string (marker_of_grave rec version m c) in
      let a = put new_object id_field w in
      let ha = view-put new_object id_field w view-new_object in
      record {
        is_object = view-put a default_key (new_string version) ha;
        creation = ground (
          arith,
          get-put a default_key id_field (new_string version),
          get-put new_object id_field id_field w,
          view-new_object,
          ha,
          named,
          eq_refl id_field,
          eq_iff default_key id_field,
        );
        default = ground (
          arith,
          get-put a default_key default_key (new_string version),
          ha,
          eq_refl default_key,
        );
        nothing_else = λ k ni nd. ground (
          arith,
          get-put a default_key k (new_string version),
          get-put new_object id_field k w,
          get-new_object k,
          view-new_object,
          ha,
          eq_iff default_key k,
          eq_iff id_field k,
        );
      }

  -- A delete of a record that is not deleted yet, which the handler does not refuse, stores a deleted
  -- record whose _ver holds, under id, the record's creation version (the non-empty string that the
  -- record's _ver holds there, or the delete's version where there is no such string), under * the
  -- delete's version, and nothing else.
  pub modify_deletes :
      (h : Handler Value) (ch : Change Value) (id : String) (rc : RecordChange Value)
      (keyed : String) (rec : Value) (created : VersionId)
      → has_delete rc.ops ≡ true
      → is_tombstone (some rec) ≡ false
      → (h.before_delete ch rec rc (start rec).sink).1 ≡ none
      → Creation rec ch.version_id created
      → IsDead (stored rec (modify h ch id rc keyed rec))
        × ((ver : Value) × (get (stored rec (modify h ch id rc keyed rec)) versions_key ≡ some ver)
            × GraveVersions ver created ch.version_id)
  unfolding modify modify_delete
  modify_deletes h ch id rc keyed rec created d live ok c =
      let view_b = view-bare id ch (some rec) in
      let got = get-bare id ch (some rec) in
      let at_deleted =
        new_tombstone-Keeps id ch (some rec) keyed deleted_at_field view_b deleted_at-IsKept in
      let at_versions =
        new_tombstone-Keeps id ch (some rec) keyed versions_key view_b versions-IsKept in
      rw d (
        rw live (
          rw ok (
            record {
              is_object = at_deleted.0;
              deleted = dated (at_deleted.1 ∙ got.0);
              versions = (_, at_versions.1 ∙ got.1);
            },
            (
              tombstone_versions (creation_marker (some rec)) ch.version_id,
              at_versions.1 ∙ got.1,
              tombstone_versions-GraveVersions rec ch.version_id created c,
            ),
          )))
