-- ===== src/Crdt/Apply/Frame.antt =====
-- internal/crdt/apply.go: a `$set` or `$unset` in one top-level field leaves the value and the gate
-- of every other one, whichever way it is gated, merged or dropped.
use any_sync_sdk.Base.{
  String, ◌≡◌, ◌≢◌, ◌∙◌, ◌∷◌, Option, none, some, arith, refl, sym, subst, inl, inr, Bool-cases,
  Option-cases, if◌then◌else◌,
}
use any_sync_sdk.Anyenc.{Anyenc, get_path}
use any_sync_sdk.Crdt.Versions.{
  VersionId, FieldPath, versions_key, default_key, at_least, gate_version, set_record_version,
  set_version_node_at,
}
use any_sync_sdk.Crdt.Merge.{Merged, merge_replace}
use any_sync_sdk.Crdt.Apply.{gated_set, gated_unset, land_merged}
use any_sync_sdk.Crdt.Apply.Gates.{
  IsRecord, gate_version-congr, gate_version-set_record_version_ne, get-set_record_version_ne,
  IsRecord-set_record_version, IsRecord-set_version_node_at, gate_version-set_version_node_at_ne,
  get-set_version_node_at_ne,
}
use any_sync_sdk.Crdt.Apply.Register.{
  gated_write, gated_write_lem, written, view-written, get-written_ne,
}

module _ ⦃E : Anyenc⦄ where
  open E use {Value, view, get, put, copy, copy_lem}

  -- `b` is a record like `a` but for the top-level field `key` and its versions.
  pub record Agrees (key : String) (a b : Value) : Type 0 where
    pub is_record : IsRecord b
    pub fields : (k : String) → key ≢ k → versions_key ≢ k → get b k ≡ get a k
    pub gates :
        (k : String) (path : FieldPath)
        → key ≢ k
        → gate_version b (k ∷ path) ≡ gate_version a (k ∷ path)

  merging :
      (a : Value) (v : VersionId) (path : FieldPath) (w : Option Value) (node : Value)
      → (gate_version a path).1 ≡ some node
      → gated_write a v path w ≡ land_merged a path (merge_replace v (get_path a path) node w)
  unfolding gated_set gated_unset
  merging a v path none node e = ground arith
  merging a v path (some x) node e = ground arith

  pub Agrees-refl : (key : String) (a : Value) → IsRecord a → Agrees key a a
  Agrees-refl key a r = record { is_record = r; fields = λ k _ _. refl; gates = λ k path _. refl }

  -- The values change first, below `key`; `_ver` is still that of `a`.
  IsRecord-written :
      (a : Value) (key : String) (rest : FieldPath) (w : Option Value)
      → IsRecord a
      → key ≢ versions_key
      → IsRecord (written a (key ∷ rest) w)
  IsRecord-written a key rest w r ne = (
    view-written a (key ∷ rest) w r.0,
    λ o e. r.1 o (sym (get-written_ne a key versions_key rest w r.0 ne) ∙ e),
  )

  module _ (a : Value) (key : String) (rest : FieldPath) (w : Option Value) (r : IsRecord a)
      (nv : key ≢ versions_key) (nd : key ≢ default_key) where
    Agrees-leaf :
        (v : VersionId)
        → Agrees key a (set_record_version (written a (key ∷ rest) w) v (key ∷ rest))
    Agrees-leaf v =
        let x = written a (key ∷ rest) w in
        let rx = IsRecord-written a key rest w r nv in
        record {
          is_record = IsRecord-set_record_version x v (key ∷ rest) rx.0;
          fields = λ k n m.
              get-set_record_version_ne x v (key ∷ rest) k rx.0 m
              ∙ get-written_ne a key k rest w r.0 n;
          gates = λ k path n.
              gate_version-set_record_version_ne x v key k rest path rx n nd
              ∙ gate_version-congr x a (k ∷ path) (get-written_ne a key versions_key rest w r.0 nv);
        }

    Agrees-node :
        (node : Value)
        → Agrees key a (set_version_node_at (written a (key ∷ rest) w) node (key ∷ rest))
    Agrees-node node =
        let x = written a (key ∷ rest) w in
        let rx = IsRecord-written a key rest w r nv in
        record {
          is_record = IsRecord-set_version_node_at x node key rest rx.0;
          fields = λ k n m.
              get-set_version_node_at_ne x node key rest k rx.0 m
              ∙ get-written_ne a key k rest w r.0 n;
          gates = λ k path n.
              gate_version-set_version_node_at_ne x node key k rest path rx n nd
              ∙ gate_version-congr x a (k ∷ path) (get-written_ne a key versions_key rest w r.0 nv);
        }

  -- A merge lands the merged value and node, or nothing.
  merged_value :
      (a : Value) (path : FieldPath) (m : Merged Value)
      → land_merged a path m ≡ (
          if m.changed then set_version_node_at (written a path m.value) m.version_node path else a)
  unfolding land_merged
  merged_value a path m = elim (Option-cases m.value) [
    | inl e ↦ ground arith
    | inr (v, e) ↦ ground (arith, copy_lem v)
  ]

  Agrees-merged :
      (a : Value) (key : String) (rest : FieldPath) (m : Merged Value)
      → IsRecord a
      → key ≢ versions_key
      → key ≢ default_key
      → Agrees key a (land_merged a (key ∷ rest) m)
  Agrees-merged a key rest m r nv nd =
      rw (merged_value a (key ∷ rest) m) (elim (Bool-cases m.changed) [
        | inl e ↦ rw e (Agrees-node a key rest m.value r nv nd m.version_node)
        | inr e ↦ rw e (Agrees-refl key a r)
      ])

  gated_write-Agrees_at :
      (a : Value) (v : VersionId) (key : String) (rest : FieldPath) (w : Option Value)
      (sub : Option Value)
      → (gate_version a (key ∷ rest)).1 ≡ sub
      → IsRecord a
      → key ≢ versions_key
      → key ≢ default_key
      → Agrees key a (gated_write a v (key ∷ rest) w)
  gated_write-Agrees_at a v key rest w none e r nv nd =
      rw (gated_write_lem a v (key ∷ rest) w e)
        (elim (Bool-cases (at_least (gate_version a (key ∷ rest)).0 v)) [
          | inl f ↦ rw f (Agrees-refl key a r)
          | inr f ↦ rw f (Agrees-leaf a key rest w r nv nd v)
        ])
  gated_write-Agrees_at a v key rest w (some node) e r nv nd =
      subst (Agrees key a) (sym (merging a v (key ∷ rest) w node e))
        (Agrees-merged a key rest (merge_replace v (get_path a (key ∷ rest)) node w) r nv nd)

  -- A `$set` or `$unset` at a path below a top-level field, whichever way it is gated, leaves a
  -- record in which every other top-level field has its value, and every path below another
  -- top-level field its gate.
  pub gated_write-Agrees :
      (a : Value) (v : VersionId) (key : String) (rest : FieldPath) (w : Option Value)
      → IsRecord a
      → key ≢ versions_key
      → key ≢ default_key
      → Agrees key a (gated_write a v (key ∷ rest) w)
  gated_write-Agrees a v key rest w r nv nd = gated_write-Agrees_at a v key rest w _ refl r nv nd
