-- ===== src/Crdt/Apply/Ops.antt =====
-- internal/crdt/apply.go, applyOp: an operation at a path stays below the path's top-level field.
use any_sync_sdk.Base.{
  String, Bool, true, false, if◌then◌else◌, ◌≡◌, ◌≢◌, ◌∙◌, ◌∷◌, Option, none, some, sym, subst,
}
use any_sync_sdk.Anyenc.{Anyenc}
use any_sync_sdk.Crdt.Op.{Op, OpType}
use any_sync_sdk.Crdt.Versions.{VersionId, FieldPath, versions_key, default_key, set_record_version}
use any_sync_sdk.Crdt.Apply.{
  apply_op, apply_set, apply_unset, apply_add_to_set, apply_pull, apply_inc, apply_inc_gated,
  add_delta, delta_of,
}
use any_sync_sdk.Crdt.Apply.Values.{view-set_nested, get-set_nested_ne}
use any_sync_sdk.Crdt.Apply.Gates.{
  IsRecord, gate_version-congr, gate_version-set_record_version_ne, get-set_record_version_ne,
  IsRecord-set_record_version,
}
use any_sync_sdk.Crdt.Apply.Frame.{Agrees, Agrees-refl, gated_write-Agrees}
use any_sync_sdk.Crdt.Apply.Walks.{SameAt, SameAt-add_to_set, SameAt-pull_from_set}

module _ ⦃E : Anyenc⦄ where
  open E use {Value, Number, view, get, put, copy, view-put, get-put}

  -- A step that moves values below `key` alone.
  SameAt-Agrees :
      (a b : Value) (key : String)
      → IsRecord a
      → key ≢ versions_key
      → ((k : String) → key ≢ k → SameAt k a b)
      → Agrees key a b
  SameAt-Agrees a b key r nv s = record {
    is_record = ((s versions_key nv).0, λ o e. r.1 o (sym (s versions_key nv).1 ∙ e));
    fields = λ k n m. (s k n).1;
    gates = λ k path n. gate_version-congr b a (k ∷ path) (s versions_key nv).1;
  }

  Agrees-trans : (key : String) (a b c : Value) → Agrees key a b → Agrees key b c → Agrees key a c
  Agrees-trans key a b c f g = record {
    is_record = g.is_record;
    fields = λ k n m. g.fields k n m ∙ f.fields k n m;
    gates = λ k path n. g.gates k path n ∙ f.gates k path n;
  }

  set_record_version-Agrees :
      (a : Value) (v : VersionId) (key : String) (rest : FieldPath)
      → IsRecord a
      → key ≢ default_key
      → Agrees key a (set_record_version a v (key ∷ rest))
  set_record_version-Agrees a v key rest r nd = record {
    is_record = IsRecord-set_record_version a v (key ∷ rest) r.0;
    fields = λ k n m. get-set_record_version_ne a v (key ∷ rest) k r.0 m;
    gates = λ k path n. gate_version-set_record_version_ne a v key k rest path r n nd;
  }

  add_delta-Agrees :
      (a : Value) (key : String) (rest : FieldPath) (delta : Number)
      → IsRecord a
      → key ≢ versions_key
      → Agrees key a (add_delta a (key ∷ rest) delta)
  add_delta-Agrees a key rest delta r nv =
      SameAt-Agrees a (add_delta a (key ∷ rest) delta) key r nv
        (λ k n. (view-set_nested a _ (key ∷ rest) r.0, get-set_nested_ne a _ key k rest r.0 n))

  module _ (a : Value) (v : VersionId) (key : String) (rest : FieldPath) (r : IsRecord a)
      (nv : key ≢ versions_key) (nd : key ≢ default_key) where
    -- The two guards of the set and number operations.
    guarded-Agrees :
        (gated blocked : Bool) (b : Value)
        → Agrees key a b
        → Agrees key a (if gated then a else if blocked then a else b)
    guarded-Agrees true blocked b g = Agrees-refl key a r
    guarded-Agrees false true b g = Agrees-refl key a r
    guarded-Agrees false false b g = g

    inc-Agrees :
        (b : Number → Value) (gated : Bool) (blocked : Bool) (d : Option Number)
        → ((n : Number) → Agrees key a (b n))
        → Agrees key a
            (elim d [ none ↦ a | some n ↦ if gated then a else if blocked then a else b n ])
    inc-Agrees b gated blocked none g = Agrees-refl key a r
    inc-Agrees b gated blocked (some n) g = guarded-Agrees gated blocked (b n) (g n)

    apply_at-Agrees :
        (t : OpType) (p : Option Value)
        → Agrees key a (apply_op a v (record { type = t; path = key ∷ rest; payload = p }))
    unfolding apply_op apply_set apply_unset apply_add_to_set apply_pull apply_inc apply_inc_gated
    apply_at-Agrees OpType.set none = Agrees-refl key a r
    apply_at-Agrees OpType.set (some x) = gated_write-Agrees a v key rest (some x) r nv nd
    apply_at-Agrees OpType.unset p = gated_write-Agrees a v key rest none r nv nd
    apply_at-Agrees OpType.add_to_set none = Agrees-refl key a r
    apply_at-Agrees OpType.add_to_set (some x) =
        guarded-Agrees _ _ _
          (SameAt-Agrees a _ key r nv (λ k n. SameAt-add_to_set a (copy x) key k rest r.0 n))
    apply_at-Agrees OpType.pull none = Agrees-refl key a r
    apply_at-Agrees OpType.pull (some x) =
        guarded-Agrees _ _ _
          (SameAt-Agrees a _ key r nv (λ k n. SameAt-pull_from_set a x key k rest r.0 n))
    apply_at-Agrees OpType.inc p =
        inc-Agrees (add_delta a (key ∷ rest)) _ _ (delta_of p)
          (λ n. add_delta-Agrees a key rest n r nv)
    apply_at-Agrees OpType.inc_gated p =
        inc-Agrees (λ n. set_record_version (add_delta a (key ∷ rest) n) v (key ∷ rest)) _ _
          (delta_of p)
          (λ n.
            let g = add_delta-Agrees a key rest n r nv in
            Agrees-trans key a _ _ g (set_record_version-Agrees _ v key rest g.is_record nd))
    apply_at-Agrees OpType.delete p = Agrees-refl key a r

  -- Whatever the operation, at a path whose first key is neither _ver nor *, it leaves a record (an
  -- object, of which _ver is an object when it is there) a record, in which every top-level field
  -- other than that key and _ver has its value, and every path below a field other than that key has
  -- its gate.
  pub apply_op-Agrees :
      (rec : Value) (v : VersionId) (op : Op Value) (key : String) (rest : FieldPath)
      → op.path ≡ key ∷ rest
      → IsRecord rec
      → key ≢ versions_key
      → key ≢ default_key
      → Agrees key rec (apply_op rec v op)
  apply_op-Agrees rec v op key rest e r nv nd =
      subst
        (λ p.
          Agrees key rec
            (apply_op rec v (record { type = op.type; path = p; payload = op.payload })))
        (sym e) (apply_at-Agrees rec v key rest r nv nd op.type op.payload)
