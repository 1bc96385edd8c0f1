-- ===== src/Crdt/Sibling/Took.antt =====
-- internal/crdt/controller.go, opTook: when a projected `$set` or `$unset` reports that it took.
use any_sync_sdk.Base.{
  String, not, ◌≡◌, ◌≢◌, ◌∙◌, ◌∷◌, Option, arith, ap, inl, inr, Option-cases, eq_iff, eq_refl, ◌==◌,
  less, less_irrefl, less_asymm, less_total,
}
use any_sync_sdk.Anyenc.{Anyenc}
use any_sync_sdk.Crdt.Op.{Op}
use any_sync_sdk.Crdt.Versions.{
  VersionId, FieldPath, versions_key, gate_version, get_record_version,
}
use any_sync_sdk.Crdt.Versions.Lookup.{resolve-gate_from}
use any_sync_sdk.Crdt.Apply.Gates.{IsRecord, lww}
use any_sync_sdk.Crdt.Apply.Register.{gated_write, IsRegister, slot-gated_write}
use any_sync_sdk.Crdt.Apply.Values.{field_at}
use any_sync_sdk.Crdt.Sibling.{op_took}

-- The version that a write leaves is its own exactly when it was not older than the gate.
took_lww {ℓ} :
    {V : Type ℓ} (g v : VersionId) (x w : Option V) → ((lww (g, x) v w).0 == v) ≡ not (less v g)
took_lww g v x w =
    ground (arith, eq_iff g v, eq_refl v, less_irrefl v, less_asymm g v, less_total g v)

module _ ⦃E : Anyenc⦄ where
  open E use {Value, get}

  -- The version of a path is its gate, when no finer-grained versions stand below it.
  get_record_version-gate :
      (rec : Value) (path : FieldPath)
      → IsRegister rec path
      → get_record_version rec path ≡ (gate_version rec path).0
  unfolding get_record_version gate_version
  get_record_version-gate rec path r = elim (Option-cases (get rec versions_key)) [
    | inl e ↦ ground arith
    | inr (o, e) ↦ ground (arith, resolve-gate_from o path)
  ]

  -- After a `$set` or `$unset` of a path with no finer-grained versions below it, outside `_ver`, the
  -- modifier reports that the op took exactly when the path's version before is not newer than the
  -- change's: a write that lost is not reported.
  pub op_took-gated_write :
      (rec : Value) (v : VersionId) (key : String) (rest : FieldPath) (w : Option Value)
      (op : Op Value)
      → op.path ≡ key ∷ rest
      → IsRecord rec
      → versions_key ≢ key
      → IsRegister rec (key ∷ rest)
      → op_took (gated_write rec v (key ∷ rest) w) v op
        ≡ not (less v (gate_version rec (key ∷ rest)).0)
  unfolding op_took
  op_took-gated_write rec v key rest w op e r ne g =
      let (s, g') = slot-gated_write rec v key rest w r ne g in
      rw e (
        ap (λ x. x == v)
          (get_record_version-gate (gated_write rec v (key ∷ rest) w) (key ∷ rest) g'
            ∙ ap (λ (t : VersionId × Option Value). t.0) s)
        ∙ took_lww (gate_version rec (key ∷ rest)).0 v (field_at rec (key ∷ rest)) w)
