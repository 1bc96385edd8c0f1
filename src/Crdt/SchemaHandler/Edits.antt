-- ===== src/Crdt/SchemaHandler/Edits.antt =====
-- internal/crdt/schemahandler.go: an op on an existing record that the local gate accepts, and BeforeModify.
use any_sync_sdk.Base.{
  String, Bool, true, ◌≡◌, ◌≢◌, refl, List, [], ◌∷◌, Option, none, some, ne→eq-false, arith,
}
use any_sync_sdk.Anyenc.{Anyenc, Pairs, object}
use any_sync_sdk.Dict.{string_key, lookup}
use any_sync_sdk.Crdt.Op.{Op, OpType, Change, split_dots}
use any_sync_sdk.Crdt.Apply.{head_of}
use any_sync_sdk.Crdt.Hooks.{Sink}
use any_sync_sdk.Crdt.SchemaHandler.{
  FieldRule, SchemaHandler, with_rule, check_op_shape, is_creator, check_mutable,
}
use any_sync_sdk.Crdt.SchemaHandler.Checks.{then_first, then_second, then_both}
use any_sync_sdk.Crdt.SchemaHandler.Modify.{
  check_key, check_keys, touches, bump_unless, before_modify_multi, on_rule, check_declared,
  on_path, before_modify,
}
use any_sync_sdk.Crdt.SchemaHandler.Decl.{is_never}
use any_sync_sdk.Crdt.SchemaHandler.Tables.{Agree}
use any_sync_sdk.Crdt.SchemaHandler.PreValidate.{
  unless_never, pre_check_key, pre_check_keys, pre_validate_multi_field, pre_validate_path,
  pre_validate_existing_op,
}
use any_sync_sdk.Crdt.SchemaHandler.Accepts.{weaker, op_shape_passes}

-- The change has a creator, the one that the record's stamp names.
abbrev pub ByAuthor :
    ⦃E : Anyenc⦄ → SchemaHandler → Change (Anyenc.Value E) → Anyenc.Value E → Type 0
ByAuthor h ch before = (ch.creator ≢ "") × (is_creator h ch.creator before ≡ true)

module _ ⦃E : Anyenc⦄ (a l : SchemaHandler) (w : Agree a l) (ch : Change (Anyenc.Value E))
    (before : Anyenc.Value E) (author : ByAuthor a ch before) where
  open E use {Value, view, entries}

  mutable_passes :
      (rule : FieldRule) (e : Option String)
      → unless_never rule e ≡ none
      → check_mutable a ch before rule ≡ none
  unfolding unless_never check_mutable is_never
  mutable_passes rule e q = ground (arith, ne→eq-false ch.creator "" author.0, author.1)

  rest_passes : (rule : FieldRule) (e : Option String) → unless_never rule e ≡ none → e ≡ none
  unfolding unless_never
  rest_passes rule e q = ground arith

  key_passes :
      (t : OpType) (p : String × Value)
      → pre_check_key l t p ≡ none
      → check_key a ch before t p ≡ none
  unfolding pre_check_key check_key
  key_passes t (key, v) q =
      weaker a l w (head_of (split_dots key)) _ _
        (λ r p.
          then_both (check_mutable a ch before r) _ (mutable_passes r _ p) (rest_passes r _ p))
        q

  keys_pass :
      (t : OpType) (ps : Pairs Value)
      → pre_check_keys l t ps ≡ none
      → check_keys a ch before t ps ≡ none
  unfolding pre_check_keys check_keys
  keys_pass t [] q = q
  keys_pass t (p ∷ ps) q =
      then_both (check_key a ch before t p) (check_keys a ch before t ps)
        (key_passes t p (then_first (pre_check_key l t p) (pre_check_keys l t ps) q))
        (keys_pass t ps (then_second (pre_check_key l t p) (pre_check_keys l t ps) q))

  bump_passes :
      (err : Option String) (touched : Bool) (sink : Sink Value)
      → err ≡ none
      → (bump_unless err touched a ch sink).1 ≡ none
  unfolding bump_unless
  bump_passes none touched sink q = refl
  bump_passes (some e) touched sink q = q

  multi_passes :
      (t : OpType) (payload : Option Value) (sink : Sink Value)
      → pre_validate_multi_field l t payload ≡ none
      → (before_modify_multi a ch before (record { type = t; path = []; payload = payload }) sink).1
        ≡ none
  unfolding pre_validate_multi_field before_modify_multi
  multi_passes t none sink q = ground arith
  multi_passes t (some v) sink q =
      let o : view v ≡ object = ground arith in
      rw (o, before_modify_multi)
        (bump_passes (check_keys a ch before t (entries v)) (touches a (entries v)) sink
          (keys_pass t (entries v) (rw (o, pre_validate_multi_field) at q)))

  unless_unset :
      (t : OpType) (e : Option String)
      → e ≡ none
      → elim t as (λ x. Option String) [ OpType.unset ↦ none | _ ↦ e ] ≡ none
  unless_unset OpType.unset e q = refl
  unless_unset OpType.set e q = q
  unless_unset OpType.add_to_set e q = q
  unless_unset OpType.pull e q = q
  unless_unset OpType.inc e q = q
  unless_unset OpType.inc_gated e q = q
  unless_unset OpType.delete e q = q

  rule_passes :
      (op : Op Value) (sink : Sink Value) (found : Option FieldRule)
      → with_rule found (check_declared a ch before op) ≡ none
      → (on_rule a ch before op sink found).1 ≡ none
  unfolding on_rule
  rule_passes op sink none q = refl
  rule_passes op sink (some r) q = bump_passes (check_declared a ch before op r) true sink q

  -- An $unset is checked against the shape at the local gate only.
  declared_passes :
      (t : OpType) (path : List String) (payload : Option Value) (r : FieldRule)
      → unless_never r (check_op_shape l (record { type = t; path = path; payload = payload }))
        ≡ none
      → check_declared a ch before (record { type = t; path = path; payload = payload }) r ≡ none
  unfolding check_declared
  declared_passes t path payload r q =
      then_both (check_mutable a ch before r) _ (mutable_passes r _ q)
        (unless_unset t _ (op_shape_passes a l w t path payload (rest_passes r _ q)))

  path_passes :
      (t : OpType) (path : List String) (payload : Option Value) (sink : Sink Value)
      → pre_validate_path l (record { type = t; path = path; payload = payload }) path ≡ none
      → (on_path a ch before (record { type = t; path = path; payload = payload }) sink path).1
        ≡ none
  unfolding pre_validate_path on_path
  path_passes t [] payload sink q = multi_passes t payload sink q
  path_passes t (head ∷ rest) payload sink q =
      let op : Op Value = record { type = t; path = head ∷ rest; payload = payload } in
      rule_passes op sink (lookup head a.rules) (
        weaker a l w head _ (check_declared a ch before op)
          (λ r p. declared_passes t (head ∷ rest) payload r p) q)

  pub op_passes :
      (t : OpType) (path : List String) (payload : Option Value) (sink : Sink Value)
      → pre_validate_existing_op l (record { type = t; path = path; payload = payload }) ≡ none
      → (before_modify a ch before (record { type = t; path = path; payload = payload }) sink).1
        ≡ none
  unfolding pre_validate_existing_op before_modify
  op_passes OpType.delete path payload sink q = refl
  op_passes OpType.set path payload sink q = path_passes OpType.set path payload sink q
  op_passes OpType.unset path payload sink q = path_passes OpType.unset path payload sink q
  op_passes OpType.add_to_set path payload sink q =
      path_passes OpType.add_to_set path payload sink q
  op_passes OpType.pull path payload sink q = path_passes OpType.pull path payload sink q
  op_passes OpType.inc path payload sink q = path_passes OpType.inc path payload sink q
  op_passes OpType.inc_gated path payload sink q = path_passes OpType.inc_gated path payload sink q
