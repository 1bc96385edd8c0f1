-- ===== src/Crdt/Admission/Filter.antt =====
-- internal/crdt/controller.go: what filterOpFields lets through is what opContentValid accepts.
use any_sync_sdk.Base.{
  String, Bool, true, ◌≡◌, ◌≢◌, ◌∙◌, List, [], ◌∷◌, ◌++◌, map, Option, none, some, arith, refl, sym,
  subst, ◌⊎◌, inl, inr, Option-cases, Bool-cases, All, eq_iff, eq_refl, ◌==◌,
}
use any_sync_sdk.Anyenc.{Anyenc, Pairs, object, find}
use any_sync_sdk.Crdt.Op.{Op, OpType, split_dots}
use any_sync_sdk.Crdt.Apply.{op_field_heads, head_of}
use any_sync_sdk.Crdt.Hooks.{is_multi_field}
use any_sync_sdk.Crdt.Versions.{FieldPath}
use any_sync_sdk.Crdt.Validate.{validate_keys, validate_write, validate_op_paths}
use any_sync_sdk.Crdt.Admission.{
  Dataset, Scope, ContentError, classify_heads, op_content_valid, key_error, Filtering, filter_key,
  filter_keys, finish_filter, payload_keys, filter_op_fields,
}

module _ ⦃E : Anyenc⦄ (ds : Dataset) (route : Scope) (by_key : Bool) where
  open E use {
    Value, view, get, put, entries, new_object, view-put, get-put, get-entries, view-new_object,
    get-new_object,
  }

  -- Every key of the list passes.
  abbrev pub KeysPass : Pairs Value → Type 0
  KeysPass ps = All (λ p. key_error ds route by_key p.0 ≡ none) ps

  abbrev pub heads_of : Pairs Value → List String
  heads_of ps = map (λ p. head_of (split_dots p.0)) ps

  keys-valid :
      (ps : Pairs Value)
      → KeysPass ps
      → (validate_keys ps ≡ none) × (classify_heads ds route by_key (heads_of ps) ≡ none)
  unfolding validate_keys classify_heads key_error
  keys-valid [] h = (refl, refl)
  keys-valid ((key, v) ∷ ps) h = ground (arith, keys-valid ps h.1)

  errors-append : {A : Type 0} (xs : List A) (x : A) → xs ++ x ∷ [] ≢ []
  errors-append [] x h = ground arith
  errors-append (y ∷ ys) x h = ground arith

  no_error :
      (err : Option ContentError) (key : String) (v : Value) (st : Filtering)
      → (filter_key err key v st).errors ≡ []
      → (err ≡ none) × (st.errors ≡ [])
  no_error none key v st h = (refl, h)
  no_error (some e) key v st h = absurd (errors-append st.errors (key, e) h)

  -- A visit without errors refused no key.
  no_errors :
      (ps : Pairs Value) (st : Filtering)
      → (filter_keys ds route by_key ps st).errors ≡ []
      → KeysPass ps × (st.errors ≡ [])
  unfolding filter_keys
  no_errors [] st h = (tt, h)
  no_errors ((key, v) ∷ ps) st h =
      let err = key_error ds route by_key key in
      let (rest, before) = no_errors ps (filter_key err key v st) h in
      let (passed, start) = no_error err key v st before in ((passed, rest), start)

  -- What the kept object holds.
  HoldsPassing : Value → Type 0
  HoldsPassing o =
      (view o ≡ object)
      × ((k : String) (v : Value) → get o k ≡ some v → key_error ds route by_key k ≡ none)

  filter_key-HoldsPassing :
      (err : Option ContentError) (key : String) (v : Value) (st : Filtering)
      → key_error ds route by_key key ≡ err
      → HoldsPassing st.kept
      → HoldsPassing (filter_key err key v st).kept
  unfolding HoldsPassing
  filter_key-HoldsPassing (some x) key v st e h = h
  filter_key-HoldsPassing none key v st e h = (
    view-put st.kept key v h.0,
    λ k w g. ground (arith, get-put st.kept key k v h.0, eq_iff key k, h.1 k w),
  )

  filter_keys-HoldsPassing :
      (ps : Pairs Value) (st : Filtering)
      → HoldsPassing st.kept
      → HoldsPassing (filter_keys ds route by_key ps st).kept
  unfolding filter_keys
  filter_keys-HoldsPassing [] st h = h
  filter_keys-HoldsPassing ((key, v) ∷ ps) st h =
      filter_keys-HoldsPassing ps _
        (filter_key-HoldsPassing (key_error ds route by_key key) key v st refl h)

  found-KeysPass :
      (ps : Pairs Value)
      → ((k : String) (v : Value) → find k ps ≡ some v → key_error ds route by_key k ≡ none)
      → KeysPass ps
  found-KeysPass [] h = tt
  found-KeysPass ((key, v) ∷ ps) h = (
    h key v (ground (arith, eq_refl key)),
    found-KeysPass ps (λ k w e. elim (Bool-cases (key == k)) [
      | inl q ↦ h k v (rw q refl)
      | inr q ↦ h k w (rw q e)
    ]),
  )

  entries-KeysPass : (o : Value) → HoldsPassing o → KeysPass (entries o)
  unfolding HoldsPassing
  entries-KeysPass o h = found-KeysPass (entries o) (λ k v e. h.1 k v (get-entries o k h.0 ∙ e))

  -- A multi-field op whose keys all pass is valid.
  multi-valid :
      (t : OpType) (path : FieldPath) (p : Option Value) (payload : Value)
      → is_multi_field (record { type = t; path = path; payload = p }) ≡ true
      → view payload ≡ object
      → KeysPass (entries payload)
      → op_content_valid ds route by_key (record { type = t; path = path; payload = some payload })
        ≡ none
  unfolding op_content_valid is_multi_field validate_op_paths validate_write op_field_heads
  multi-valid t (key ∷ rest) p payload m o h = ground arith
  multi-valid OpType.set [] p payload m o h =
      let (paths, heads) = keys-valid (entries payload) h in ground arith
  multi-valid OpType.unset [] p payload m o h =
      let (paths, heads) = keys-valid (entries payload) h in ground arith
  multi-valid t [] none payload m o h = ground arith
  multi-valid t [] (some x) payload m o h = ground arith

  multi_payload :
      (op : Op Value)
      → is_multi_field op ≡ true
      → (x : Value) × (op.payload ≡ some x) × (view x ≡ object)
  unfolding is_multi_field
  multi_payload op m = elim (Option-cases op.payload) [
    | inl e ↦ ground arith
    | inr (x, e) ↦ (x, e, ground arith)
  ]

  -- The op itself, when no key was refused, or the op with the kept object.
  finish_cases :
      (op out : Op Value) (st : Filtering) (errors : List (String × ContentError))
      → finish_filter op st ≡ (some out, errors)
      → (st.errors ≡ []) × (op ≡ out) ⊎ (record op { payload = some st.kept } ≡ out)
  finish_cases op out st errors h = ground arith

  start_filter : Filtering
  start_filter = record { kept = new_object; survivors = 0; errors = [] }

  start-HoldsPassing : HoldsPassing start_filter.kept
  unfolding HoldsPassing start_filter
  start-HoldsPassing = (view-new_object, λ k v e. ground (arith, get-new_object k))

  holds_object : (o : Value) → HoldsPassing o → view o ≡ object
  unfolding HoldsPassing
  holds_object o h = h.0

  abbrev IsAccepted : Op Value → Type 0
  IsAccepted op = op_content_valid ds route by_key op ≡ none

  filtered-valid :
      (op out : Op Value) (errors : List (String × ContentError))
      → is_multi_field op ≡ true
      → finish_filter op (filter_keys ds route by_key (payload_keys op) start_filter)
        ≡ (some out, errors)
      → op_content_valid ds route by_key out ≡ none
  filtered-valid op out errors m h =
      let st = filter_keys ds route by_key (payload_keys op) start_filter in
      let (x, e, o) = multi_payload op m in
      elim (finish_cases op out st errors h) [
        | inl (ok, q) ↦
            let passed =
              subst (λ p. KeysPass (elim p [ none ↦ [] | some y ↦ entries y ])) e
                (no_errors (payload_keys op) start_filter ok).0 in
            subst IsAccepted q (
              subst (λ p. IsAccepted (record op { payload = p })) (sym e)
                (multi-valid op.type op.path op.payload x m o passed))
        | inr q ↦
            let holds =
              filter_keys-HoldsPassing (payload_keys op) start_filter start-HoldsPassing in
            subst IsAccepted q (
              multi-valid op.type op.path op.payload st.kept m (holds_object st.kept holds)
                (entries-KeysPass st.kept holds))
      ]

  -- What the filter leaves of an op, the op itself or one with the payload that is left, is valid:
  -- its paths pass the validation and each field that it writes may be written on the route.
  pub filter_op_fields-valid :
      (op out : Op Value) (errors : List (String × ContentError))
      → filter_op_fields ds route by_key op ≡ (some out, errors)
      → op_content_valid ds route by_key out ≡ none
  unfolding filter_op_fields start_filter
  filter_op_fields-valid op out errors h = elim (Bool-cases (is_multi_field op)) [
    | inl m ↦ filtered-valid op out errors m (ground arith)
    | inr m ↦ ground arith
  ]
