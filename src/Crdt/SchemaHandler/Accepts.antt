-- ===== src/Crdt/SchemaHandler/Accepts.antt =====
-- internal/crdt/schemahandler.go: what the local gate (PreValidateMulti) accepts, every replica accepts.
use any_sync_sdk.Base.{
  String, Bool, true, false, ◌≡◌, refl, ap, List, [], ◌∷◌, Option, none, some, Option-cases, arith,
  inl, inr, subst,
}
use any_sync_sdk.Anyenc.{Anyenc, Pairs, object}
use any_sync_sdk.Dict.{string_key, lookup, In}
use any_sync_sdk.Crdt.Op.{Op, OpType, RecordChange, Change, split_dots}
use any_sync_sdk.Crdt.Apply.{head_of}
use any_sync_sdk.Crdt.Hooks.{Sink}
use any_sync_sdk.Crdt.Lifecycle.{has_delete}
use any_sync_sdk.Crdt.SchemaHandler.{
  FieldRule, SchemaHandler, then_check, with_rule, holds, check_op_shape, check_record_id,
}
use any_sync_sdk.Crdt.SchemaHandler.Checks.{then_first, then_second, then_both}
use any_sync_sdk.Crdt.SchemaHandler.Create.{
  present_in, visit_keys, visit_multi_field, check_create_op, check_create_ops, check_required,
  check_create_payload, create_checks, before_create,
}
use any_sync_sdk.Crdt.SchemaHandler.Decl.{DatasetDecl}
use any_sync_sdk.Crdt.SchemaHandler.Compile.{compiled, new_schema_handler}
use any_sync_sdk.Crdt.SchemaHandler.Tables.{Agree, new-Agree}
use any_sync_sdk.Crdt.SchemaHandler.PreValidate.{
  pre_validate_create, before_of, pre_validate_live, pre_validate_record, pre_validate_records,
  pre_validate_multi,
}

module _ ⦃E : Anyenc⦄ (a l : SchemaHandler) (w : Agree a l) where
  open E use {Value, view, entries}

  -- A check of the rule of a field, weakened.
  pub weaker :
      (k : String) (f g : FieldRule → Option String)
      → ((r : FieldRule) → f r ≡ none → g r ≡ none)
      → with_rule (lookup k l.rules) f ≡ none
      → with_rule (lookup k a.rules) g ≡ none
  weaker k f g step q = elim (Option-cases (lookup k a.rules)) [
    | inl n ↦ rw n refl
    | inr (r, e) ↦ rw e (step r (rw (w.rules k r e) at q))
  ]

  pub op_shape_passes :
      (t : OpType) (path : List String) (payload : Option Value)
      → check_op_shape l (record { type = t; path = path; payload = payload }) ≡ none
      → check_op_shape a (record { type = t; path = path; payload = payload }) ≡ none
  unfolding check_op_shape
  op_shape_passes t [] payload q = q
  op_shape_passes t (head ∷ rest) payload q = weaker head _ _ (λ r p. p) q

  keys_pass : (ps : Pairs Value) → visit_keys l ps ≡ none → visit_keys a ps ≡ none
  unfolding visit_keys
  keys_pass [] q = q
  keys_pass ((key, v) ∷ ps) q =
      then_both _ (visit_keys a ps)
        (weaker (head_of (split_dots key)) _ _ (λ r p. p) (then_first _ (visit_keys l ps) q))
        (keys_pass ps (then_second _ (visit_keys l ps) q))

  multi_field_passes :
      (payload : Option Value)
      → visit_multi_field l payload ≡ none
      → visit_multi_field a payload ≡ none
  unfolding visit_multi_field
  multi_field_passes none q = q
  multi_field_passes (some v) q =
      let o : view v ≡ object = ground arith in
      rw (o, visit_multi_field) (keys_pass (entries v) (rw (o, visit_multi_field) at q))

  create_op_passes :
      (t : OpType) (path : List String) (payload : Option Value)
      → check_create_op l (record { type = t; path = path; payload = payload }) ≡ none
      → check_create_op a (record { type = t; path = path; payload = payload }) ≡ none
  unfolding check_create_op
  create_op_passes OpType.set [] payload q = multi_field_passes payload q
  create_op_passes OpType.set (head ∷ rest) payload q =
      op_shape_passes OpType.set (head ∷ rest) payload q
  create_op_passes OpType.add_to_set path payload q =
      op_shape_passes OpType.add_to_set path payload q
  create_op_passes OpType.inc path payload q = op_shape_passes OpType.inc path payload q
  create_op_passes OpType.inc_gated path payload q = op_shape_passes OpType.inc_gated path payload q
  create_op_passes OpType.unset path payload q = q
  create_op_passes OpType.pull path payload q = q
  create_op_passes OpType.delete path payload q = q

  create_ops_pass :
      (ops : List (Op Value)) → check_create_ops l ops ≡ none → check_create_ops a ops ≡ none
  unfolding check_create_ops
  create_ops_pass [] q = q
  create_ops_pass (op ∷ ops) q =
      then_both (check_create_op a op) (check_create_ops a ops)
        (create_op_passes op.type op.path op.payload
          (then_first (check_create_op l op) (check_create_ops l ops) q))
        (create_ops_pass ops (then_second (check_create_op l op) (check_create_ops l ops) q))

  required_held :
      (ids keys : List String) (id : String)
      → check_required ids keys ≡ none
      → In id ids
      → holds id keys ≡ true
  unfolding check_required
  required_held [] keys id q i = ground arith
  required_held (x ∷ ids) keys id q (inl e) = ground (arith, ap (λ y. holds y keys) e)
  required_held (x ∷ ids) keys id q (inr i) = required_held ids keys id (ground arith) i

  held_required :
      (ids keys : List String)
      → ((id : String) → In id ids → holds id keys ≡ true)
      → check_required ids keys ≡ none
  unfolding check_required
  held_required [] keys h = refl
  held_required (x ∷ ids) keys h =
      rw (h x (inl refl)) (held_required ids keys (λ id i. h id (inr i)))

  payload_passes :
      (ops : List (Op Value))
      → check_create_payload l ops ≡ none
      → check_create_payload a ops ≡ none
  unfolding check_create_payload
  payload_passes ops q =
      let keys = present_in ops in
      let required = then_second (check_create_ops l ops) (check_required l.required_ids keys) q in
      then_both (check_create_ops a ops) (check_required a.required_ids keys)
        (create_ops_pass ops (then_first (check_create_ops l ops) _ q))
        (held_required a.required_ids keys
          (λ id i. required_held l.required_ids keys id required (w.required id i)))

  id_passes : (id : String) → check_record_id l id ≡ none → check_record_id a id ≡ none
  unfolding check_record_id
  id_passes id q = rw w.ids q

  create_passes :
      (ch : Change Value) (rc : RecordChange Value) (sink : Sink Value)
      → rc.upsert ≡ true
      → pre_validate_create l rc ≡ none
      → (before_create a ch rc sink).1 ≡ none
  unfolding pre_validate_create create_checks before_create
  create_passes ch rc sink u q =
      let checks : then_check (check_record_id l rc.id) (check_create_payload l rc.ops) ≡ none =
        rw u at q in
      let passed : create_checks a rc ≡ none =
        then_both (check_record_id a rc.id) (check_create_payload a rc.ops)
          (id_passes rc.id (then_first _ _ checks))
          (payload_passes rc.ops (then_second (check_record_id l rc.id) _ checks)) in
      rw (passed, before_create) refl

module _ ⦃E : Anyenc⦄ (l : SchemaHandler) (get : String → Option (Anyenc.Value E)) where
  open E use {Value}

  each_record :
      (rcs : List (RecordChange Value)) (rc : RecordChange Value)
      → pre_validate_records l get rcs ≡ none
      → In rc rcs
      → pre_validate_record l get rc ≡ none
  unfolding pre_validate_records
  each_record [] rc q i = ground arith
  each_record (x ∷ rcs) rc q (inl e) =
      subst (λ y. pre_validate_record l get y ≡ none) e
        (then_first (pre_validate_record l get x) (pre_validate_records l get rcs) q)
  each_record (x ∷ rcs) rc q (inr i) =
      each_record rcs rc
        (then_second (pre_validate_record l get x) (pre_validate_records l get rcs) q) i

  -- A record of a change that the local gate accepts, without a delete, passes as what it is there.
  pub live_record :
      (ch : Change Value) (rc : RecordChange Value)
      → pre_validate_multi l get ch ≡ none
      → In rc ch.records
      → has_delete rc.ops ≡ false
      → pre_validate_live l rc (before_of l get rc) ≡ none
  unfolding pre_validate_multi pre_validate_record
  live_record ch rc q i d = rw (d, pre_validate_record) at (each_record ch.records rc q i)

module _ ⦃E : Anyenc⦄ (compile : String → Option (String → Bool)) (ds : DatasetDecl)
    (a l : SchemaHandler) (declared : new_schema_handler compile ds ≡ compiled a l) where
  open E use {Value}

  pub pre_validate_multi-before_create :
      (get : String → Option Value) (ch delivered : Change Value) (rc : RecordChange Value)
      (sink : Sink Value)
      → pre_validate_multi l get ch ≡ none
      → In rc ch.records
      → has_delete rc.ops ≡ false
      → before_of l get rc ≡ none
      → rc.upsert ≡ true
      → (before_create a delivered rc sink).1 ≡ none
  unfolding pre_validate_live
  pre_validate_multi-before_create get ch delivered rc sink q i d absent u =
      create_passes a l (new-Agree compile ds a l declared) delivered rc sink u
        (subst (λ b. pre_validate_live l rc b ≡ none) absent (live_record l get ch rc q i d))
