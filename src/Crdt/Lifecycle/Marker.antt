-- ===== src/Crdt/Lifecycle/Marker.antt =====
-- internal/crdt/apply.go, lowerCreationMarker: the creation marker `_ver.id` under the min rule.
use any_sync_sdk.Base.{
  ◌≡◌, ◌∙◌, Option, none, ◌⊎◌, some, arith, sym, ap, less, less_asymm, less_total, less_trans,
  eq_refl, inl, inr, Option-cases, if◌then◌else◌,
}
use any_sync_sdk.Anyenc.{Anyenc, object, string}
use any_sync_sdk.Crdt.Versions.{VersionId, versions_key, id_field}
use any_sync_sdk.Crdt.Lifecycle.{marker_node, lower_creation_marker}

-- The specification: the smaller version, where a marker is there.
abbrev pub lower_of : Option VersionId → VersionId → VersionId
lower_of none version = version
lower_of (some marker) version = if less version marker then version else marker

pub lower_of_comm :
    (m : Option VersionId) (a b : VersionId)
    → lower_of (some (lower_of m a)) b ≡ lower_of (some (lower_of m b)) a
lower_of_comm none a b = ground (arith, less_asymm a b, less_total a b)
lower_of_comm (some m) a b =
    ground (arith, less_asymm a b, less_total a b, less_trans a b m, less_trans b a m)

module _ ⦃E : Anyenc⦄ where
  open E use {
    Value, view, get, put, new_string, view-put, get-put, view-new_object, get-new_object,
    view-new_string,
  }

  -- The marker of a record, read as `lowerCreationMarker` reads it.
  abbrev pub marker_in : Value → Option VersionId
  marker_in ver = elim (get ver id_field) [
    | none ↦ none
    | some cur ↦ elim (view cur) [ string s ↦ some s | _ ↦ none ]
  ]

  abbrev pub marker_of : Value → Option VersionId
  marker_of rec = marker_in (marker_node rec)

  pub view-marker_node : (rec : Value) → view (marker_node rec) ≡ object
  view-marker_node rec = ground (arith, view-new_object)

  pub marker_node-put :
      (rec o : Value)
      → view rec ≡ object
      → view o ≡ object
      → marker_node (put rec versions_key o) ≡ o
  marker_node-put rec o h k =
      ground (arith, get-put rec versions_key versions_key o, eq_refl versions_key)

  marker_of-lowered :
      (rec : Value) (v : VersionId)
      → view rec ≡ object
      → marker_of (put rec versions_key (put (marker_node rec) id_field (new_string v))) ≡ some v
  marker_of-lowered rec v h =
      ap marker_in (
        marker_node-put rec (put (marker_node rec) id_field (new_string v)) h
          (view-put (marker_node rec) id_field (new_string v) (view-marker_node rec)))
      ∙ ground (
        arith,
        get-put (marker_node rec) id_field id_field (new_string v),
        view-marker_node rec,
        eq_refl id_field,
        view-new_string v,
      )

  -- The call writes the marker, or leaves a record whose marker is not above the version.
  pub lower_cases :
      (rec : Value) (v : VersionId)
      → ((lower_creation_marker rec v).0
            ≡ put rec versions_key (put (marker_node rec) id_field (new_string v)))
          × (lower_of (marker_of rec) v ≡ v)
        ⊎ ((lower_creation_marker rec v).0 ≡ rec)
          × (marker_of rec ≡ some (lower_of (marker_of rec) v))
  unfolding lower_creation_marker
  lower_cases rec v = elim (Option-cases (get (marker_node rec) id_field)) [
    | inl e ↦ inl (ground arith, ground arith)
    | inr (cur, e) ↦ ground arith
  ]

  -- After the call the marker is the smaller of the old one and the version, or the version where
  -- there was none.
  pub marker_of-lower :
      (rec : Value) (v : VersionId)
      → view rec ≡ object
      → marker_of (lower_creation_marker rec v).0 ≡ some (lower_of (marker_of rec) v)
  marker_of-lower rec v h = elim (lower_cases rec v) [
    | inl (e, f) ↦ ap marker_of e ∙ marker_of-lowered rec v h ∙ ap some (sym f)
    | inr (e, f) ↦ ap marker_of e ∙ f
  ]

  pub view-lower :
      (rec : Value) (v : VersionId)
      → view rec ≡ object
      → view (lower_creation_marker rec v).0 ≡ object
  view-lower rec v h = elim (lower_cases rec v) [
    | inl (e, f) ↦ ap view e ∙ view-put rec versions_key _ h
    | inr (e, f) ↦ ap view e ∙ h
  ]
