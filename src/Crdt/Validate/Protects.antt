-- ===== src/Crdt/Validate/Protects.antt =====
-- internal/crdt/validate.go and apply.go: ops that pass the validation leave the protocol's fields.
use any_sync_sdk.Base.{
  String, true, false, ◌≡◌, ◌≢◌, ◌∙◌, List, [], ◌∷◌, Option, none, some, arith, refl, All,
}
use any_sync_sdk.Anyenc.{Anyenc, Pairs}
use any_sync_sdk.Crdt.Op.{Op, OpType, split_dots}
use any_sync_sdk.Crdt.Versions.{VersionId, FieldPath, versions_key, default_key}
use any_sync_sdk.Crdt.Apply.{
  apply_op, apply_set, apply_unset, apply_add_to_set, apply_pull, apply_inc, apply_inc_gated,
  set_fields, unset_fields, payload_entries,
}
use any_sync_sdk.Crdt.Apply.Gates.{IsRecord}
use any_sync_sdk.Crdt.Apply.Register.{gated_write}
use any_sync_sdk.Crdt.Apply.Frame.{Agrees, gated_write-Agrees}
use any_sync_sdk.Crdt.Apply.Ops.{apply_op-Agrees}
use any_sync_sdk.Crdt.Hooks.{apply_ops}
use any_sync_sdk.Crdt.Validate.{validate_path, validate_keys, validate_write, validate_op_paths}
use any_sync_sdk.Crdt.Validate.Legal.{
  is_reserved, validate_path_lem, reserved_ne, versions_key-reserved,
}

module _ ⦃E : Anyenc⦄ where
  open E use {Value, view, get, entries}

  -- `b` is a record, and the reserved fields outside `_ver` are those of `a`.
  abbrev pub Protects : Value → Value → Type 0
  Protects a b =
      IsRecord b × ((k : String) → is_reserved k ≡ true → versions_key ≢ k → get b k ≡ get a k)

  Protects-trans : (a b c : Value) → Protects a b → Protects b c → Protects a c
  Protects-trans a b c (r, f) (s, g) = (s, λ k h n. g k h n ∙ f k h n)

  Agrees-Protects :
      (a b : Value) (key : String) → is_reserved key ≡ false → Agrees key a b → Protects a b
  Agrees-Protects a b key h g = (g.is_record, λ k r n. g.fields k (reserved_ne key k h r) n)

  legal_top :
      (key : String) (rest : FieldPath)
      → validate_path (key ∷ rest) ≡ none
      → (key ≢ versions_key) × (key ≢ default_key) × (is_reserved key ≡ false)
  legal_top key rest h =
      let (plain, free) = validate_path_lem key rest h in
      (reserved_ne key versions_key free versions_key-reserved, plain.0, free)

  -- One key of a multi-field payload.
  write_key-Protects :
      (rec : Value) (v : VersionId) (path : FieldPath) (w : Option Value)
      → validate_path path ≡ none
      → IsRecord rec
      → Protects rec (gated_write rec v path w)
  unfolding validate_path
  write_key-Protects rec v [] w h r = ground arith
  write_key-Protects rec v (key ∷ rest) w h r =
      let (nv, nd, free) = legal_top key rest h in
      Agrees-Protects rec _ key free (gated_write-Agrees rec v key rest w r nv nd)

  valid_first :
      (key : String) (x : Value) (ps : Pairs Value)
      → validate_keys ((key, x) ∷ ps) ≡ none
      → (validate_path (split_dots key) ≡ none) × (validate_keys ps ≡ none)
  unfolding validate_keys
  valid_first key x ps h = (ground arith, ground arith)

  set_fields-Protects :
      (v : VersionId) (ps : Pairs Value) (rec : Value)
      → validate_keys ps ≡ none
      → IsRecord rec
      → Protects rec (set_fields v ps rec)
  unfolding set_fields
  set_fields-Protects v [] rec h r = (r, λ k _ _. refl)
  set_fields-Protects v ((key, x) ∷ ps) rec h r =
      let (hp, hs) = valid_first key x ps h in
      let first = write_key-Protects rec v (split_dots key) (some x) hp r in
      Protects-trans rec _ _ first (set_fields-Protects v ps _ hs first.0)

  unset_fields-Protects :
      (v : VersionId) (ps : Pairs Value) (rec : Value)
      → validate_keys ps ≡ none
      → IsRecord rec
      → Protects rec (unset_fields v ps rec)
  unfolding unset_fields
  unset_fields-Protects v [] rec h r = (r, λ k _ _. refl)
  unset_fields-Protects v ((key, x) ∷ ps) rec h r =
      let (hp, hs) = valid_first key x ps h in
      let first = write_key-Protects rec v (split_dots key) none hp r in
      Protects-trans rec _ _ first (unset_fields-Protects v ps _ hs first.0)

  valid_entries :
      (t : OpType) (p : Option Value)
      → validate_write (record { type = t; path = []; payload = p }) ≡ none
      → validate_keys (payload_entries p) ≡ none
  unfolding validate_write validate_keys
  valid_entries t none h = refl
  valid_entries t (some x) h = ground arith

  module _ (rec : Value) (v : VersionId) (r : IsRecord rec) where
    path-Protects :
        (t : OpType) (key : String) (rest : FieldPath) (p : Option Value)
        → validate_path (key ∷ rest) ≡ none
        → Protects rec (apply_op rec v (record { type = t; path = key ∷ rest; payload = p }))
    path-Protects t key rest p h =
        let (nv, nd, free) = legal_top key rest h in
        Agrees-Protects rec _ key free (apply_op-Agrees rec v _ key rest refl r nv nd)

    parts-Protects :
        (t : OpType) (path : FieldPath) (p : Option Value)
        → validate_op_paths (record { type = t; path = path; payload = p }) ≡ none
        → Protects rec (apply_op rec v (record { type = t; path = path; payload = p }))
    unfolding validate_op_paths validate_write validate_path apply_op apply_set apply_unset
        apply_add_to_set apply_pull apply_inc apply_inc_gated
    parts-Protects OpType.delete path p h = (r, λ k _ _. refl)
    parts-Protects OpType.set (key ∷ rest) p h = path-Protects OpType.set key rest p h
    parts-Protects OpType.set [] p h =
        set_fields-Protects v (payload_entries p) rec (valid_entries OpType.set p h) r
    parts-Protects OpType.unset (key ∷ rest) p h = path-Protects OpType.unset key rest p h
    parts-Protects OpType.unset [] p h =
        unset_fields-Protects v (payload_entries p) rec (valid_entries OpType.unset p h) r
    parts-Protects OpType.add_to_set (key ∷ rest) p h = path-Protects OpType.add_to_set key rest p h
    parts-Protects OpType.pull (key ∷ rest) p h = path-Protects OpType.pull key rest p h
    parts-Protects OpType.inc (key ∷ rest) p h = path-Protects OpType.inc key rest p h
    parts-Protects OpType.inc_gated (key ∷ rest) p h = path-Protects OpType.inc_gated key rest p h
    parts-Protects OpType.add_to_set [] p h = (r, λ k _ _. refl)
    parts-Protects OpType.pull [] p h = (r, λ k _ _. refl)
    parts-Protects OpType.inc [] p h = (r, λ k _ _. refl)
    parts-Protects OpType.inc_gated [] p h = (r, λ k _ _. refl)

  -- Operations that pass the path validation, applied one after the other, leave a record whose
  -- reserved fields, `id` and those that start with an underscore, are what they were, `_ver` excepted.
  pub apply_ops-Protects :
      (v : VersionId) (ops : List (Op Value)) (rec : Value)
      → All (λ op. validate_op_paths op ≡ none) ops
      → IsRecord rec
      → Protects rec (apply_ops v ops rec)
  unfolding apply_ops
  apply_ops-Protects v [] rec h r = (r, λ k _ _. refl)
  apply_ops-Protects v (op ∷ ops) rec h r =
      let first = parts-Protects rec v r op.type op.path op.payload h.0 in
      Protects-trans rec _ _ first (apply_ops-Protects v ops (apply_op rec v op) h.1 first.0)
