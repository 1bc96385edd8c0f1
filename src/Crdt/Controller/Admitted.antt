-- ===== src/Crdt/Controller/Admitted.antt =====
-- internal/crdt/controller.go: what ValidateChange accepts, the apply path admits whole.
use any_sync_sdk.Base.{
  ℕ, suc, Bool, true, ◌≡◌, refl, ◌∙◌, ap, List, [], ◌∷◌, Option, none, some, arith, Bool-cases,
  Option-cases, inl, inr,
}
use any_sync_sdk.Anyenc.{Anyenc, Pairs}
use any_sync_sdk.Crdt.Op.{Op, OpType, RecordChange, Change}
use any_sync_sdk.Crdt.Apply.{op_field_heads}
use any_sync_sdk.Crdt.Hooks.{is_multi_field}
use any_sync_sdk.Crdt.Versions.{FieldPath}
use any_sync_sdk.Crdt.Validate.{validate_keys, validate_write, validate_op_paths}
use any_sync_sdk.Crdt.Admission.{
  Dataset, Scope, classify_heads, op_content_valid, key_error, Filtering, filter_key, filter_keys,
  finish_filter, payload_keys, filter_op_fields, route_of,
}
use any_sync_sdk.Crdt.Admission.Filter.{KeysPass, heads_of}
use any_sync_sdk.Crdt.Controller.{Controller, guard_change}
use any_sync_sdk.Crdt.Controller.Content.{
  check_ops, check_records, validate_change, admit_ops, admit_records, admit_change,
  ContentRejection, dataset_of, by_key_of,
}

module _ ⦃E : Anyenc⦄ (ds : Dataset) (route : Scope) (by_key : Bool) where
  open E use {Value, view, entries, new_object}

  valid-keys :
      (ps : Pairs Value)
      → validate_keys ps ≡ none
      → classify_heads ds route by_key (heads_of ds route by_key ps) ≡ none
      → KeysPass ds route by_key ps
  unfolding validate_keys classify_heads key_error
  valid-keys [] h k = tt
  valid-keys ((key, v) ∷ ps) h k = (ground arith, valid-keys ps (ground arith) (ground arith))

  pass_all :
      (ps : Pairs Value) (st : Filtering)
      → KeysPass ds route by_key ps
      → (filter_keys ds route by_key ps st).errors ≡ st.errors
  unfolding filter_keys
  pass_all [] st a = refl
  pass_all ((key, v) ∷ ps) st (p, a) =
      let e : filter_key (key_error ds route by_key key) key v st ≡ filter_key none key v st =
        ap (λ o. filter_key o key v st) p in
      ap (λ st'. (filter_keys ds route by_key ps st').errors) e
      ∙ pass_all ps (filter_key none key v st) a

  start_filter : Filtering
  start_filter = record { kept = new_object; survivors = 0; errors = [] }

  payload_of :
      (op : Op Value) (payload : Value)
      → op.payload ≡ some payload
      → payload_keys op ≡ entries payload
  payload_of op payload e = rw e refl

  valid_multi :
      (t : OpType) (path : FieldPath) (p : Option Value)
      → is_multi_field (record { type = t; path = path; payload = p }) ≡ true
      → op_content_valid ds route by_key (record { type = t; path = path; payload = p }) ≡ none
      → KeysPass ds route by_key (payload_keys (record { type = t; path = path; payload = p }))
  unfolding op_content_valid is_multi_field validate_op_paths validate_write op_field_heads
  valid_multi t (key ∷ rest) p m h = ground arith
  valid_multi t [] none m h = ground arith
  valid_multi OpType.set [] (some x) m h = valid-keys (entries x) (ground arith) (ground arith)
  valid_multi OpType.unset [] (some x) m h = valid-keys (entries x) (ground arith) (ground arith)
  valid_multi t [] (some x) m h = ground arith

  no_refusal :
      (op : Op Value) (st : Filtering) → st.errors ≡ [] → finish_filter op st ≡ (some op, [])
  no_refusal op st e = rw e refl

  -- A valid op passes the filter as it is.
  pub valid-filter_op_fields :
      (op : Op Value)
      → op_content_valid ds route by_key op ≡ none
      → filter_op_fields ds route by_key op ≡ (some op, [])
  unfolding filter_op_fields
  valid-filter_op_fields op h = elim (Bool-cases (is_multi_field op)) [
    | inl m ↦ rw m (
        no_refusal op _ (
          pass_all (payload_keys op) (record { kept = new_object; survivors = 0; errors = [] })
            (valid_multi op.type op.path op.payload m h)))
    | inr m ↦ rw (m, h) refl
  ]

  valid-admit_ops :
      (i j : ℕ) (ops : List (Op Value))
      → check_ops ds route by_key ops ≡ none
      → admit_ops ds route by_key i j ops ≡ (ops, [])
  unfolding check_ops admit_ops
  valid-admit_ops i j [] h = refl
  valid-admit_ops i j (op ∷ ops) h = elim (Option-cases (op_content_valid ds route by_key op)) [
    | inr (e, q) ↦ ground arith
    | inl q ↦
        let later : check_ops ds route by_key ops ≡ none = ground arith in
        rw (valid-filter_op_fields op q, valid-admit_ops i (suc j) ops later) refl
  ]

  valid-admit_records :
      (i : ℕ) (records : List (RecordChange Value))
      → check_records ds route by_key i records ≡ none
      → admit_records ds route by_key i records ≡ (records, [])
  unfolding check_records admit_records
  valid-admit_records i [] h = refl
  valid-admit_records i (rc ∷ records) h = elim (Option-cases (check_ops ds route by_key rc.ops)) [
    | inr (e, q) ↦ ground arith
    | inl q ↦
        rw (valid-admit_ops i 0 rc.ops q, valid-admit_records (suc i) records (ground arith)) refl
  ]

module _ ⦃E : Anyenc⦄ where
  open E use {Value}

  -- The apply path admits whole what the writer validated: a change that passes ValidateChange keeps
  -- every op as it is, and no op of it is rejected by its content.
  pub validate_change-admit_change :
      (c : Controller Value) (ch : Change Value)
      → validate_change c ch ≡ none
      → admit_change c ch ≡ (ch, [])
  unfolding validate_change admit_change
  validate_change-admit_change c ch h = elim (Option-cases (guard_change c ch)) [
    | inr (e, q) ↦ ground arith
    | inl q ↦
        let checked : check_records (dataset_of c ch) (route_of ch) (by_key_of c ch) 0 ch.records
            ≡ none =
          ground arith in
        let put_back : List (RecordChange Value) × List ContentRejection
            → Change Value × List ContentRejection =
          λ r. (record ch { records = r.0 }, r.1) in
        ap put_back (
          valid-admit_records (dataset_of c ch) (route_of ch) (by_key_of c ch) 0 ch.records checked)
  ]
