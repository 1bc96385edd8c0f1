-- ===== src/Crdt/SchemaHandler/Guards.antt =====
-- internal/crdt/schemahandler.go: what BeforeModify lets through.
use any_sync_sdk.Base.{
  String, Bool, true, ◌≡◌, ◌≢◌, refl, sym, ◌∙◌, ap, List, [], ◌∷◌, map, Option, none, some, arith,
  inl, inr, ◌⊎◌, subst,
}
use any_sync_sdk.Anyenc.{Anyenc, Pairs, object}
use any_sync_sdk.Dict.{string_key, lookup, In, some_injective}
use any_sync_sdk.Crdt.Op.{Op, OpType, Change, split_dots}
use any_sync_sdk.Crdt.Apply.{op_field_heads, head_of}
use any_sync_sdk.Crdt.Hooks.{Sink}
use any_sync_sdk.Crdt.SchemaHandler.{
  Mutability, FieldRule, SchemaHandler, is_creator, check_mutable,
}
use any_sync_sdk.Crdt.SchemaHandler.Checks.{then_first, then_second}
use any_sync_sdk.Crdt.SchemaHandler.Modify.{
  check_key, check_keys, Verdict, touches, bump_unless, before_modify_multi, check_declared,
  on_rule, on_path, before_modify,
}

module _ ⦃E : Anyenc⦄ (h : SchemaHandler) (ch : Change (Anyenc.Value E))
    (before : Anyenc.Value E) where
  open E use {Value, view, entries}

  -- Anyone may write the field, or its author does.
  abbrev pub MayWrite : FieldRule → Type 0
  MayWrite rule =
      (rule.mutable_by ≡ Mutability.by_anyone)
      ⊎ ((rule.mutable_by ≡ Mutability.by_author) × (is_creator h ch.creator before ≡ true))

  check_mutable-MayWrite :
      (rule : FieldRule) → check_mutable h ch before rule ≡ none → MayWrite rule
  unfolding check_mutable
  check_mutable-MayWrite rule q = ground arith

  bump_passed :
      (err : Option String) (touched : Bool) (sink : Sink Value)
      → (bump_unless err touched h ch sink).1 ≡ none
      → err ≡ none
  unfolding bump_unless
  bump_passed none touched sink q = refl
  bump_passed (some e) touched sink q = q

  key_MayWrite :
      (t : OpType) (p : String × Value) (rule : FieldRule)
      → check_key h ch before t p ≡ none
      → lookup (head_of (split_dots p.0)) h.rules ≡ some rule
      → MayWrite rule
  unfolding check_key
  key_MayWrite t p rule q e =
      check_mutable-MayWrite rule (then_first (check_mutable h ch before rule) _ (rw e at q))

  keys_MayWrite :
      (t : OpType) (ps : Pairs Value) (f : String) (rule : FieldRule)
      → check_keys h ch before t ps ≡ none
      → In f (map (λ p. head_of (split_dots p.0)) ps)
      → lookup f h.rules ≡ some rule
      → MayWrite rule
  unfolding check_keys
  keys_MayWrite t [] f rule q i e = ground arith
  keys_MayWrite t (p ∷ ps) f rule q (inl x) e =
      key_MayWrite t p rule (then_first (check_key h ch before t p) _ q)
        (ap (λ k. lookup k h.rules) x ∙ e)
  keys_MayWrite t (p ∷ ps) f rule q (inr i) e =
      keys_MayWrite t ps f rule (then_second (check_key h ch before t p) _ q) i e

  on_object :
      (t : OpType) (v : Value) (sink : Sink Value)
      → view v ≡ object
      → before_modify_multi h ch before (record { type = t; path = []; payload = some v }) sink
        ≡ bump_unless (check_keys h ch before t (entries v)) (touches h (entries v)) h ch sink
  unfolding before_modify_multi
  on_object t v sink o = rw (o, before_modify_multi) refl

  heads_object :
      (t : OpType) (v : Value)
      → view v ≡ object
      → op_field_heads (record { type = t; path = []; payload = some v })
        ≡ map (λ p. head_of (split_dots p.0)) (entries v)
  unfolding op_field_heads
  heads_object t v o = rw (o, op_field_heads) refl

  multi_passed :
      (t : OpType) (v : Value) (sink : Sink Value)
      → (before_modify_multi h ch before (record { type = t; path = []; payload = some v }) sink).1
        ≡ none
      → (view v ≡ object) × (check_keys h ch before t (entries v) ≡ none)
  unfolding before_modify_multi
  multi_passed t v sink q =
      let o : view v ≡ object = ground arith in
      let err = check_keys h ch before t (entries v) in
      let touched = touches h (entries v) in
      (o, bump_passed err touched sink (ap (λ (r : Verdict). r.1) (sym (on_object t v sink o)) ∙ q))

  not_delete :
      (t : OpType) (path : List String) (payload : Option Value) (sink : Sink Value)
      → t ≢ OpType.delete
      → (before_modify h ch before (record { type = t; path = path; payload = payload }) sink).1
        ≡ none
      → (on_path h ch before (record { type = t; path = path; payload = payload }) sink path).1
        ≡ none
  unfolding before_modify
  not_delete OpType.delete path payload sink d q = absurd (d refl)
  not_delete OpType.set path payload sink d q = q
  not_delete OpType.unset path payload sink d q = q
  not_delete OpType.inc path payload sink d q = q
  not_delete OpType.inc_gated path payload sink d q = q
  not_delete OpType.add_to_set path payload sink d q = q
  not_delete OpType.pull path payload sink d q = q

  multi_MayWrite :
      (t : OpType) (payload : Option Value) (sink : Sink Value) (f : String) (rule : FieldRule)
      → (before_modify_multi h ch before (record { type = t; path = []; payload = payload }) sink).1
        ≡ none
      → In f (op_field_heads (record { type = t; path = []; payload = payload }))
      → lookup f h.rules ≡ some rule
      → MayWrite rule
  unfolding before_modify_multi op_field_heads
  multi_MayWrite t none sink f rule q i e = ground arith
  multi_MayWrite t (some v) sink f rule q i e =
      let (o, passed) = multi_passed t v sink q in
      keys_MayWrite t (entries v) f rule passed (subst (In f) (heads_object t v o) i) e

  rule_MayWrite :
      (op : Op Value) (sink : Sink Value) (found : Option FieldRule) (rule : FieldRule)
      → (on_rule h ch before op sink found).1 ≡ none
      → found ≡ some rule
      → MayWrite rule
  unfolding on_rule check_declared
  rule_MayWrite op sink none rule q e = ground arith
  rule_MayWrite op sink (some r) rule q e =
      let checks = bump_passed (check_declared h ch before op r) true sink q in
      subst MayWrite (some_injective r rule e)
        (check_mutable-MayWrite r (then_first (check_mutable h ch before r) _ checks))

  path_MayWrite :
      (t : OpType) (path : List String) (payload : Option Value) (sink : Sink Value) (f : String)
      (rule : FieldRule)
      → (on_path h ch before (record { type = t; path = path; payload = payload }) sink path).1
        ≡ none
      → In f (op_field_heads (record { type = t; path = path; payload = payload }))
      → lookup f h.rules ≡ some rule
      → MayWrite rule
  unfolding on_path op_field_heads
  path_MayWrite t [] payload sink f rule q i e = multi_MayWrite t payload sink f rule q i e
  path_MayWrite t (head ∷ rest) payload sink f rule q (inl x) e =
      rule_MayWrite (record { type = t; path = head ∷ rest; payload = payload }) sink
        (lookup head h.rules) rule q (ap (λ k. lookup k h.rules) x ∙ e)
  path_MayWrite t (head ∷ rest) payload sink f rule q (inr i) e = ground arith

  -- An op on an existing record that BeforeModify accepts, a delete excepted, writes a field with a rule
  -- only where anyone may write it, or where its author may and the change is by the creator that the
  -- record's stamp names: never a field that is written once.
  pub before_modify-MayWrite :
      (op : Op Value) (sink : Sink Value) (f : String) (rule : FieldRule)
      → op.type ≢ OpType.delete
      → (before_modify h ch before op sink).1 ≡ none
      → In f (op_field_heads op)
      → lookup f h.rules ≡ some rule
      → MayWrite rule
  before_modify-MayWrite op sink f rule d q i e =
      path_MayWrite op.type op.path op.payload sink f rule
        (not_delete op.type op.path op.payload sink d q) i e
