-- ===== src/Crdt/SchemaHandler/Edited.antt =====
-- internal/crdt/schemahandler.go and the modifier of internal/crdt/controller.go: the ops that the local
-- gate lets a change have for a record, on a replica.
use any_sync_sdk.Base.{
  ℕ, suc, String, Bool, false, ◌||◌, ◌≡◌, ◌≢◌, refl, sym, ◌∙◌, List, [], ◌∷◌, Option, none, some,
  if◌then◌else◌, if-Has, eq_refl, arith, inl, inr, All, subst,
}
use any_sync_sdk.Anyenc.{Anyenc, object}
use any_sync_sdk.Dict.{In}
use any_sync_sdk.Crdt.Op.{Op, RecordChange, Change}
use any_sync_sdk.Crdt.Versions.{FieldPath, VersionId, versions_key, default_key, id_field}
use any_sync_sdk.Crdt.Lifecycle.{has_delete, is_tombstone, marker_node, lower_creation_marker}
use any_sync_sdk.Crdt.Lifecycle.Marker.{lower_cases, view-marker_node}
use any_sync_sdk.Crdt.Apply.{apply_op}
use any_sync_sdk.Crdt.Apply.Gates.{IsRecord}
use any_sync_sdk.Crdt.Apply.Ops.{apply_op-Agrees}
use any_sync_sdk.Crdt.Modifier.Sticky.{lower-Keeps}
use any_sync_sdk.Crdt.Hooks.{Handler, Run, before_modify_apply, modify_ops, drain_derived, start}
use any_sync_sdk.Crdt.Modifier.{modify_live, modify}
use any_sync_sdk.Crdt.Controller.{Controller}
use any_sync_sdk.Crdt.Controller.Content.{validate_change, admit_change}
use any_sync_sdk.Crdt.Controller.Admitted.{validate_change-admit_change}
use any_sync_sdk.Crdt.SchemaHandler.{SchemaHandler, is_creator}
use any_sync_sdk.Crdt.SchemaHandler.Create.{schema_handler}
use any_sync_sdk.Crdt.SchemaHandler.Modify.{before_modify}
use any_sync_sdk.Crdt.SchemaHandler.Decl.{DatasetDecl}
use any_sync_sdk.Crdt.SchemaHandler.Compile.{compiled, new_schema_handler}
use any_sync_sdk.Crdt.SchemaHandler.Tables.{Agree, new-Agree}
use any_sync_sdk.Crdt.SchemaHandler.Checks.{then_first, then_second}
use any_sync_sdk.Crdt.SchemaHandler.PreValidate.{
  before_of, pre_validate_multi, pre_validate_live, pre_validate_existing_op,
  pre_validate_existing_ops,
}
use any_sync_sdk.Crdt.SchemaHandler.Accepts.{live_record}
use any_sync_sdk.Crdt.SchemaHandler.Edits.{ByAuthor, op_passes}
use any_sync_sdk.Crdt.SchemaHandler.Lands.{Lands}

-- An op at a path that does not begin with the field, nor with the names of the version tree.
abbrev pub Beside : {V : Type 0} → String → Op V → Type 0
Beside field op =
    (key : String) × (rest : FieldPath) × (op.path ≡ key ∷ rest)
    × (key ≢ field)
    × (key ≢ versions_key)
    × (key ≢ default_key)

module _ ⦃E : Anyenc⦄ where
  open E use {Value, view, get, put, new_string, view-put, get-put}

  is_creator-congr :
      (h : SchemaHandler) (creator : String) (b c : Value)
      → get c h.creator_field ≡ get b h.creator_field
      → is_creator h creator c ≡ is_creator h creator b
  unfolding is_creator
  is_creator-congr h creator b c e = rw (e, is_creator) refl

  put-IsRecord :
      (rec o : Value) → view rec ≡ object → view o ≡ object → IsRecord (put rec versions_key o)
  put-IsRecord rec o r h = (
    view-put rec versions_key o r,
    λ o' q. ground (arith, get-put rec versions_key versions_key o, eq_refl versions_key),
  )

  lowered-IsRecord :
      (rec : Value) (v : VersionId) → IsRecord rec → IsRecord (lower_creation_marker rec v).0
  lowered-IsRecord rec v r = elim (lower_cases rec v) [
    | inr (e, _) ↦ subst IsRecord (sym e) r
    | inl (e, _) ↦ subst IsRecord (sym e) (
        put-IsRecord rec (put (marker_node rec) id_field (new_string v)) r.0
          (view-put (marker_node rec) id_field (new_string v) (view-marker_node rec)))
  ]

module _ ⦃E : Anyenc⦄ (a l : SchemaHandler) (w : Agree a l) (ch : Change (Anyenc.Value E))
    (rc : RecordChange (Anyenc.Value E)) (apart : versions_key ≢ a.creator_field) where
  open E use {Value, view, get}

  -- The run so far has rejected nothing, and its document is a record of the change's creator.
  abbrev Good : Run Value → Type 0
  Good m = IsRecord m.doc × ByAuthor a ch m.doc × (m.rejections ≡ [])

  applied-ByAuthor :
      (doc : Value) (op : Op Value)
      → Beside a.creator_field op
      → IsRecord doc
      → ByAuthor a ch doc
      → IsRecord (apply_op doc ch.version_id op) × ByAuthor a ch (apply_op doc ch.version_id op)
  applied-ByAuthor doc op (key, rest, e, nc, nv, nd) r (has, by) =
      let g = apply_op-Agrees doc ch.version_id op key rest e r nv nd in
      let same =
        is_creator-congr a ch.creator doc (apply_op doc ch.version_id op)
          (g.fields a.creator_field nc apart) in
      (g.is_record, (has, same ∙ by))

  op-Good :
      (op : Op Value) (index : ℕ) (m : Run Value)
      → pre_validate_existing_op l op ≡ none
      → Beside a.creator_field op
      → Good m
      → Good (before_modify_apply (schema_handler a) ch rc index op m)
  unfolding before_modify_apply schema_handler
  op-Good op index m q b (r, by, n) =
      let passed : (before_modify a ch m.doc op m.sink).1 ≡ none =
        op_passes a l w ch m.doc by op.type op.path op.payload m.sink q in
      let (r', by') = applied-ByAuthor m.doc op b r by in
      rw (passed, before_modify_apply) (r', by', n)

  ops-Good :
      (ops : List (Op Value)) (index : ℕ) (m : Run Value)
      → pre_validate_existing_ops l ops ≡ none
      → All (Beside a.creator_field) ops
      → Good m
      → Good (modify_ops (schema_handler a) ch rc index ops m)
  unfolding modify_ops pre_validate_existing_ops
  ops-Good [] index m q b g = g
  ops-Good (op ∷ ops) index m q (b, bs) g =
      let first = then_first (pre_validate_existing_op l op) (pre_validate_existing_ops l ops) q in
      let (r', by') = applied-ByAuthor m.doc op b g.0 g.1 in
      ops-Good ops (suc index) _
        (then_second (pre_validate_existing_op l op) (pre_validate_existing_ops l ops) q) bs
        (if-Has Good (ch.local || ch.injected) _ _ (r', by', g.2) (op-Good op index m first b g))

  lowered-ByAuthor :
      (doc : Value)
      → IsRecord doc
      → ByAuthor a ch doc
      → ByAuthor a ch (lower_creation_marker doc ch.version_id).0
  lowered-ByAuthor doc r (has, by) =
      let kept = lower-Keeps doc ch.version_id a.creator_field r.0 apart in
      (
        has,
        is_creator-congr a ch.creator doc (lower_creation_marker doc ch.version_id).0 kept.1 ∙ by,
      )

  live-Lands :
      (existing : Value)
      → pre_validate_existing_ops l rc.ops ≡ none
      → All (Beside a.creator_field) rc.ops
      → IsRecord existing
      → ByAuthor a ch existing
      → Lands (modify_live (schema_handler a) ch rc existing)
  unfolding modify_live drain_derived
  live-Lands existing q b r by =
      let doc = if rc.upsert then (lower_creation_marker existing ch.version_id).0 else existing in
      let Fine : Value → Type 0 = λ d. IsRecord d × ByAuthor a ch d in
      let (r', by') =
        if-Has Fine rc.upsert (lower_creation_marker existing ch.version_id).0 existing
          (lowered-IsRecord existing ch.version_id r, lowered-ByAuthor existing r by) (r, by) in
      ((ops-Good rc.ops 0 (start doc) q b (r', by', refl)).2, refl)

module _ ⦃E : Anyenc⦄ where
  open E use {Value, get}

  live_modify :
      (h : Handler Value) (ch : Change Value) (id : String) (rc : RecordChange Value)
      (keyed : String) (existing ver : Value)
      → has_delete rc.ops ≡ false
      → get existing versions_key ≡ some ver
      → is_tombstone (some existing) ≡ false
      → modify h ch id rc keyed existing ≡ modify_live h ch rc existing
  unfolding modify
  live_modify h ch id rc keyed existing ver d e t = rw (d, e, t) refl

  -- Where the local gate of a declared dataset accepts a change, and the content validation accepts it
  -- as delivered (its record changes are the same ones, its metadata may differ), every replica
  -- applies its edits of a record of the same author: a record change without a delete, for a record
  -- that the device holds, is in what the apply filter keeps of the delivered change, and the modifier
  -- with the replica's handler stores it without a rejection on a replica where the record is there
  -- with a _ver object and not deleted, and its creator stamp names the creator of the change as it is
  -- delivered. The field of the creator stamp is not _ver, and each op is at one path that begins with
  -- neither that field nor _ver nor *.
  pub pre_validate_multi-modify_live :
      (compile : String → Option (String → Bool)) (ds : DatasetDecl) (a l : SchemaHandler)
      (c : Controller Value) (get_before : String → Option Value) (ch delivered : Change Value)
      (rc : RecordChange Value) (id keyed : String) (held existing ver : Value)
      → new_schema_handler compile ds ≡ compiled a l
      → versions_key ≢ a.creator_field
      → pre_validate_multi l get_before ch ≡ none
      → validate_change c delivered ≡ none
      → delivered.records ≡ ch.records
      → In rc ch.records
      → has_delete rc.ops ≡ false
      → before_of l get_before rc ≡ some held
      → All (Beside a.creator_field) rc.ops
      → get existing versions_key ≡ some ver
      → is_tombstone (some existing) ≡ false
      → IsRecord existing
      → ByAuthor a delivered existing
      → In rc (admit_change c delivered).0.records
        × Lands (modify (schema_handler a) (admit_change c delivered).0 id rc keyed existing)
  unfolding pre_validate_live
  pre_validate_multi-modify_live compile ds a l c get_before ch delivered rc id keyed held existing
        ver declared apart q valid same i d e b live t r by =
      let whole = validate_change-admit_change c delivered valid in
      rw whole (
        subst (In rc) (sym same) i,
        rw (live_modify (schema_handler a) delivered id rc keyed existing ver d live t) (
            live-Lands a l (new-Agree compile ds a l declared) delivered rc apart existing
              (subst (λ o. pre_validate_live l rc o ≡ none) e
                (live_record l get_before ch rc q i d))
              b r by),
      )
