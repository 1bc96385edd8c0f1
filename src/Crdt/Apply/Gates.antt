-- ===== src/Crdt/Apply/Gates.antt =====
-- internal/crdt/apply.go, gatedSet and gatedUnset: a field as a last-writer-wins register.
use any_sync_sdk.Base.{
  String, ◌≡◌, ◌≢◌, ◌∙◌, [], ◌∷◌, Option, none, some, arith, sym, ap, eq_iff, eq_refl, inl, inr,
  Option-cases, if◌then◌else◌,
}
use any_sync_sdk.Anyenc.{Anyenc, object}
use any_sync_sdk.Crdt.Versions.{
  VersionId, FieldPath, versions_key, default_key, at_least, versions_of, set_version, set_node,
  gate_from, gate_version, set_record_version, set_version_node_at,
}
use any_sync_sdk.Crdt.Versions.Lookup.{
  set_version-set_node, view-set_node, gate_from-set_node, gate_from-set_node_ne,
}

-- The abstract register: the version that holds the field, and its value (none: removed).
abbrev pub lww {ℓ} :
    {V : Type ℓ} → VersionId × Option V → VersionId → Option V → VersionId × Option V
lww (gate, old) version new = if at_least gate version then (gate, old) else (version, new)

module _ ⦃E : Anyenc⦄ where
  open E use {
    Value, view, get, put, new_object, new_string, view-put, get-put, view-new_object,
    get-new_object, view-new_string, copy_lem,
  }

  gate_from-new_string : (v : VersionId) → gate_from (new_string v) [] ≡ (v, none)
  unfolding gate_from
  gate_from-new_string v = ground (arith, view-new_string v)

  gate_version-put :
      (rec o : Value) (path : FieldPath)
      → view rec ≡ object
      → gate_version (put rec versions_key o) path ≡ gate_from o path
  unfolding gate_version
  gate_version-put rec o path h =
      ground (arith, get-put rec versions_key versions_key o, eq_refl versions_key)

  pub view-versions_of : (rec : Value) → view (versions_of rec) ≡ object
  unfolding versions_of
  view-versions_of rec = grind (arith, view-new_object)

  pub view-set_record_version :
      (rec : Value) (v : VersionId) (path : FieldPath)
      → view rec ≡ object
      → view (set_record_version rec v path) ≡ object
  unfolding set_record_version
  view-set_record_version rec v path h = view-put rec versions_key _ h

  -- Writing versions changes no other field of the record.
  pub get-set_record_version_ne :
      (rec : Value) (v : VersionId) (path : FieldPath) (k : String)
      → view rec ≡ object
      → versions_key ≢ k
      → get (set_record_version rec v path) k ≡ get rec k
  unfolding set_record_version
  get-set_record_version_ne rec v path k h ne = ground (
    arith,
    get-put rec versions_key k (set_version (versions_of rec) v path),
    eq_iff versions_key k,
  )

  -- The gate of a path after its version is set.
  pub gate_version-set_record_version :
      (rec : Value) (v : VersionId) (key : String) (rest : FieldPath)
      → view rec ≡ object
      → gate_version (set_record_version rec v (key ∷ rest)) (key ∷ rest) ≡ (v, none)
  unfolding gate_version set_record_version
  gate_version-set_record_version rec v key rest h =
      gate_version-put rec (set_version (versions_of rec) v (key ∷ rest)) (key ∷ rest) h
      ∙ ap (λ o. gate_from o (key ∷ rest)) (set_version-set_node (versions_of rec) v (key ∷ rest))
      ∙ gate_from-set_node (versions_of rec) (new_string v) key rest (view-versions_of rec)
      ∙ gate_from-new_string v

  -- Gates read `_ver` alone.
  pub gate_version-congr :
      (a b : Value) (path : FieldPath)
      → get a versions_key ≡ get b versions_key
      → gate_version a path ≡ gate_version b path
  unfolding gate_version
  gate_version-congr a b path e = ground arith

  -- A document of a record collection: `_ver`, when it is there, is an object.
  abbrev pub IsRecord : Value → Type 0
  IsRecord rec =
      (view rec ≡ object) × ((o : Value) → get rec versions_key ≡ some o → view o ≡ object)

  gate_from-fresh : (k : String) (path : FieldPath) → gate_from new_object (k ∷ path) ≡ ("", none)
  unfolding gate_from
  gate_from-fresh k path =
      ground (arith, view-new_object, get-new_object k, get-new_object default_key)

  gate_version-versions_of :
      (rec : Value) (k : String) (path : FieldPath)
      → IsRecord rec
      → gate_version rec (k ∷ path) ≡ gate_from (versions_of rec) (k ∷ path)
  unfolding gate_version versions_of
  gate_version-versions_of rec k path r = elim (Option-cases (get rec versions_key)) [
    | inl e ↦ ground (arith, gate_from-fresh k path)
    | inr (o, e) ↦ ground (arith, r.1 o e)
  ]

  -- A version written at one top-level field leaves the gates of the others.
  pub gate_version-set_record_version_ne :
      (rec : Value) (v : VersionId) (key k : String) (rest path : FieldPath)
      → IsRecord rec
      → key ≢ k
      → key ≢ default_key
      → gate_version (set_record_version rec v (key ∷ rest)) (k ∷ path)
        ≡ gate_version rec (k ∷ path)
  unfolding set_record_version
  gate_version-set_record_version_ne rec v key k rest path r ne nd =
      gate_version-put rec (set_version (versions_of rec) v (key ∷ rest)) (k ∷ path) r.0
      ∙ ap (λ o. gate_from o (k ∷ path)) (set_version-set_node (versions_of rec) v (key ∷ rest))
      ∙ gate_from-set_node_ne (versions_of rec) (new_string v) key k rest path
          (view-versions_of rec) ne nd
      ∙ sym (gate_version-versions_of rec k path r)

  -- A record with a new `_ver` object is one.
  pub IsRecord-put :
      (rec o : Value) → view rec ≡ object → view o ≡ object → IsRecord (put rec versions_key o)
  IsRecord-put rec o h k = (
    view-put rec versions_key o h,
    λ x e. ground (arith, get-put rec versions_key versions_key o, eq_refl versions_key),
  )

  pub IsRecord-set_record_version :
      (rec : Value) (v : VersionId) (path : FieldPath)
      → view rec ≡ object
      → IsRecord (set_record_version rec v path)
  unfolding set_record_version
  IsRecord-set_record_version rec v path h =
      IsRecord-put rec _ h
        (rw set_version-set_node (view-set_node (versions_of rec) _ path (view-versions_of rec)))

  -- The same for a whole version node.
  pub IsRecord-set_version_node_at :
      (rec node : Value) (key : String) (rest : FieldPath)
      → view rec ≡ object
      → IsRecord (set_version_node_at rec node (key ∷ rest))
  unfolding set_version_node_at
  IsRecord-set_version_node_at rec node key rest h =
      IsRecord-put rec _ h
        (view-set_node (versions_of rec) node (key ∷ rest) (view-versions_of rec))

  pub gate_version-set_version_node_at_ne :
      (rec node : Value) (key k : String) (rest path : FieldPath)
      → IsRecord rec
      → key ≢ k
      → key ≢ default_key
      → gate_version (set_version_node_at rec node (key ∷ rest)) (k ∷ path)
        ≡ gate_version rec (k ∷ path)
  unfolding set_version_node_at
  gate_version-set_version_node_at_ne rec node key k rest path r ne nd =
      gate_version-put rec _ (k ∷ path) r.0
      ∙ gate_from-set_node_ne (versions_of rec) node key k rest path (view-versions_of rec) ne nd
      ∙ sym (gate_version-versions_of rec k path r)

  pub get-set_version_node_at_ne :
      (rec node : Value) (key : String) (rest : FieldPath) (k : String)
      → view rec ≡ object
      → versions_key ≢ k
      → get (set_version_node_at rec node (key ∷ rest)) k ≡ get rec k
  unfolding set_version_node_at
  get-set_version_node_at_ne rec node key rest k h ne = ground (
    arith,
    get-put rec versions_key k (set_node (versions_of rec) node (key ∷ rest)),
    eq_iff versions_key k,
  )
