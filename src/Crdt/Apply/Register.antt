-- ===== src/Crdt/Apply/Register.antt =====
-- internal/crdt/apply.go: `$set` and `$unset` on a field implement a last-writer-wins register, and
-- writes to one top-level field leave the others alone.
use any_sync_sdk.Base.{String, ◌≡◌, ◌≢◌, ◌∙◌, ◌∷◌, Option, none, some, arith, ap, if◌then◌else◌}
use any_sync_sdk.Anyenc.{Anyenc, object}
use any_sync_sdk.Crdt.Versions.{
  VersionId, FieldPath, versions_key, at_least, gate_version, set_record_version,
}
use any_sync_sdk.Crdt.Nested.{set_nested}
use any_sync_sdk.Crdt.Apply.{gated_set, gated_unset}
use any_sync_sdk.Crdt.Apply.Values.{
  cleared, field_at, field_at-set_nested, field_at-cleared, field_at-congr, get-set_nested_ne,
  get-cleared_ne, view-set_nested, view-cleared,
}
use any_sync_sdk.Crdt.Apply.Gates.{
  lww, IsRecord, gate_version-set_record_version, view-set_record_version,
  get-set_record_version_ne,
}

module _ ⦃E : Anyenc⦄ where
  open E use {Value, view, get, put, copy, view-put, get-put, copy_lem}

  -- `$set` of a value, or `$unset`.
  abbrev pub gated_write : Value → VersionId → FieldPath → Option Value → Value
  gated_write rec version path none = gated_unset rec version path
  gated_write rec version path (some v) = gated_set rec version path v

  abbrev pub written : Value → FieldPath → Option Value → Value
  written rec path none = cleared rec path
  written rec path (some v) = set_nested rec path (copy v)

  -- The register at a path: the version that gates it and the value that stands there.
  abbrev pub slot : Value → FieldPath → VersionId × Option Value
  slot rec path = ((gate_version rec path).0, field_at rec path)

  -- No finer-grained versions stand below the path.
  abbrev pub IsRegister : Value → FieldPath → Type 0
  IsRegister rec path = (gate_version rec path).1 ≡ none

  pub view-written :
      (rec : Value) (path : FieldPath) (w : Option Value)
      → view rec ≡ object
      → view (written rec path w) ≡ object
  view-written rec path none h = view-cleared rec path h
  view-written rec path (some v) h = view-set_nested rec _ path h

  pub get-written_ne :
      (rec : Value) (key k : String) (rest : FieldPath) (w : Option Value)
      → view rec ≡ object
      → key ≢ k
      → get (written rec (key ∷ rest) w) k ≡ get rec k
  get-written_ne rec key k rest none h ne = get-cleared_ne rec key k rest h ne
  get-written_ne rec key k rest (some v) h ne = get-set_nested_ne rec _ key k rest h ne

  field_at-written :
      (rec : Value) (key : String) (rest : FieldPath) (w : Option Value)
      → view rec ≡ object
      → field_at (written rec (key ∷ rest) w) (key ∷ rest) ≡ w
  field_at-written rec key rest none h = field_at-cleared rec key rest h
  field_at-written rec key rest (some v) h =
      field_at-set_nested rec _ key rest h ∙ ap some (copy_lem v)

  -- On a register a write is dropped at a gate not older than it, and lands otherwise.
  pub gated_write_lem :
      (rec : Value) (v : VersionId) (path : FieldPath) (w : Option Value)
      → IsRegister rec path
      → gated_write rec v path w ≡ (
          if at_least (gate_version rec path).0 v
          then rec
          else set_record_version (written rec path w) v path)
  unfolding gated_set gated_unset
  gated_write_lem rec v path none r = ground arith
  gated_write_lem rec v path (some x) r = ground arith

  -- What a landed write leaves at its path.
  slot-landed :
      (rec : Value) (v : VersionId) (key : String) (rest : FieldPath) (w : Option Value)
      → view rec ≡ object
      → versions_key ≢ key
      → field_at (set_record_version (written rec (key ∷ rest) w) v (key ∷ rest)) (key ∷ rest) ≡ w
  slot-landed rec v key rest w h ne =
      field_at-congr _ _ key rest
        (view-set_record_version _ v (key ∷ rest) (view-written rec (key ∷ rest) w h))
        (view-written rec (key ∷ rest) w h)
        (get-set_record_version_ne _ v (key ∷ rest) key (view-written rec (key ∷ rest) w h) ne)
      ∙ field_at-written rec key rest w h

  -- On a path of a record with no finer-grained versions below it, outside `_ver`, `$set` and `$unset`
  -- step the abstract register, and the path stays one.
  pub slot-gated_write :
      (rec : Value) (v : VersionId) (key : String) (rest : FieldPath) (w : Option Value)
      → IsRecord rec
      → versions_key ≢ key
      → IsRegister rec (key ∷ rest)
      → (slot (gated_write rec v (key ∷ rest) w) (key ∷ rest) ≡ lww (slot rec (key ∷ rest)) v w)
        × IsRegister (gated_write rec v (key ∷ rest) w) (key ∷ rest)
  slot-gated_write rec v key rest w r ne g = ground (
    arith,
    gated_write_lem rec v (key ∷ rest) w,
    slot-landed rec v key rest w r.0,
    gate_version-set_record_version (written rec (key ∷ rest) w) v key rest
        (view-written rec (key ∷ rest) w r.0),
  )
