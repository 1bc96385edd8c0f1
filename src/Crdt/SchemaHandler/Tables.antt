-- ===== src/Crdt/SchemaHandler/Tables.antt =====
-- internal/crdt/schemahandler.go, NewSchemaHandler: the two rule tables of a declaration that is well-formed.
use any_sync_sdk.Base.{
  ℕ, String, Bool, true, false, not, ◌&&◌, ◌≡◌, refl, sym, ◌∙◌, ap, List, [], ◌∷◌, ◌++◌, map,
  Option, none, some, ◌==◌, if◌then◌else◌, if-Has, Bool-cases, Option-cases, eq_iff, arith, inl,
  inr, subst,
}
use any_sync_sdk.Dict.{string_key, lookup, lookup-insert_lem, lookup-insert_ne, same_sym, In}
use any_sync_sdk.Dict.Members.{In-append, In-append_left, In-append_right}
use any_sync_sdk.Crdt.SchemaHandler.{FieldRule, IdRule, SchemaHandler, holds}
use any_sync_sdk.Crdt.SchemaHandler.Decl.{
  Stamp, FieldDecl, DatasetDecl, check_field_id, check_fields, normalized_field, normalized_decl,
  validate_dataset_decl, compile_id_pattern,
}
use any_sync_sdk.Crdt.SchemaHandler.Compile.{
  RuleSet, no_rules, rule_of, add, local_rules, apply_rules, with_rules, Compiled, compiled,
  invalid_decl, build, build_with_ids, new_schema_handler,
}

-- A rule of the first table is one of the second, and so is a required field.
pub record Inside (a l : RuleSet) : Type 0 where
  pub rules : (k : String) (r : FieldRule) → lookup k a.rules ≡ some r → lookup k l.rules ≡ some r
  pub required : (id : String) → In id a.required_ids → In id l.required_ids

-- The fields with a rule are among the ids that were seen.
abbrev Known : RuleSet → List String → Type 0
Known a seen = (k : String) (r : FieldRule) → lookup k a.rules ≡ some r → holds k seen ≡ true

-- What `add` does with the required ids.
abbrev listed : Bool → String → List String → List String
listed b id ids = if b then ids ++ id ∷ [] else ids

listed_both :
    (b : Bool) (f id : String) (xs ys : List String)
    → (In id xs → In id ys)
    → In id (listed b f xs)
    → In id (listed b f ys)
listed_both true f id xs ys h i = elim (In-append id xs (f ∷ []) i) [
  | inl j ↦ In-append_left id ys (f ∷ []) (h j)
  | inr j ↦ In-append_right id ys (f ∷ []) j
]
listed_both false f id xs ys h i = h i

listed_more : (b : Bool) (f id : String) (ys : List String) → In id ys → In id (listed b f ys)
listed_more true f id ys i = In-append_left id ys (f ∷ []) i
listed_more false f id ys i = i

add-Inside : (f : FieldDecl) (a l : RuleSet) → Inside a l → Inside (add f a) (add f l)
add-Inside f a l h = record {
  rules = λ k r e. ground (
    arith,
    lookup-insert_lem f.id (rule_of f) k a.rules,
    lookup-insert_lem f.id (rule_of f) k l.rules,
    h.rules k r,
  );
  required = λ id i. listed_both f.required f.id id a.required_ids l.required_ids (h.required id) i;
}

fresh :
    (f : FieldDecl) (seen : List String) (k : String)
    → holds f.id seen ≡ false
    → holds k seen ≡ true
    → (k == f.id) ≡ false
fresh f seen k n y = elim (Bool-cases (k == f.id)) [
  | inl e ↦ ground (arith, ap (λ x. holds x seen) ((eq_iff k f.id).0 e))
  | inr e ↦ e
]

add-Inside_local :
    (f : FieldDecl) (seen : List String) (a l : RuleSet)
    → holds f.id seen ≡ false
    → Known a seen
    → Inside a l
    → Inside a (add f l)
add-Inside_local f seen a l n known h = record {
  rules = λ k r e.
      lookup-insert_ne f.id (rule_of f) k l.rules (fresh f seen k n (known k r e)) ∙ h.rules k r e;
  required = λ id i. listed_more f.required f.id id l.required_ids (h.required id i);
}

keep-Known :
    (id : String) (seen : List String) (k : String)
    → holds k seen ≡ true
    → holds k (id ∷ seen) ≡ true
keep-Known id seen k e = ground arith

add-Known :
    (f : FieldDecl) (seen : List String) (a : RuleSet)
    → Known a seen
    → Known (add f a) (f.id ∷ seen)
add-Known f seen a known k r e = elim (Bool-cases (k == f.id)) [
  | inl q ↦ rw (same_sym f.id k, q) refl
  | inr q ↦
      keep-Known f.id seen k (known k r (sym (lookup-insert_ne f.id (rule_of f) k a.rules q) ∙ e))
]

passed_first :
    (f : FieldDecl) (fs : List FieldDecl) (seen : List String) (stamps : List Stamp)
    → check_fields seen stamps (f ∷ fs) ≡ none
    → (holds f.id seen ≡ false) × (check_fields (f.id ∷ seen) (f.stamp ∷ stamps) fs ≡ none)
unfolding check_fields check_field_id
passed_first f fs seen stamps q = ground arith

grown :
    (b : Bool) (f : FieldDecl) (seen : List String) (a l : RuleSet)
    → holds f.id seen ≡ false
    → Known a seen
    → Inside a l
    → Inside (if b then a else add f a) (add f l) × Known (if b then a else add f a) (f.id ∷ seen)
grown true f seen a l n known h =
    (add-Inside_local f seen a l n known h, λ k r e. keep-Known f.id seen k (known k r e))
grown false f seen a l n known h = (add-Inside f a l h, add-Known f seen a known)

tables-Inside :
    (dynamic : Bool) (fs : List FieldDecl) (seen : List String) (stamps : List Stamp)
    (a l : RuleSet)
    → check_fields seen stamps fs ≡ none
    → Known a seen
    → Inside a l
    → Inside
        (apply_rules dynamic (map normalized_field fs) a)
        (local_rules (map normalized_field fs) l)
unfolding apply_rules local_rules normalized_field
tables-Inside dynamic [] seen stamps a l q known h = h
tables-Inside dynamic (f ∷ fs) seen stamps a l q known h =
    let (n, rest) = passed_first f fs seen stamps q in
    let g = normalized_field f in
    let (inside, known') = grown (dynamic && g.additive) g seen a l n known h in
    tables-Inside dynamic fs (f.id ∷ seen) (f.stamp ∷ stamps)
      (if dynamic && g.additive then a else add g a) (add g l) rest known' inside

-- The two handlers of a declaration.
pub record Agree (a l : SchemaHandler) : Type 0 where
  pub rules : (k : String) (r : FieldRule) → lookup k a.rules ≡ some r → lookup k l.rules ≡ some r
  pub required : (id : String) → In id a.required_ids → In id l.required_ids
  pub ids : a.id_rule ≡ l.id_rule

abbrev Agreed : Compiled → Type 0
Agreed (compiled a l) = Agree a l
Agreed (invalid_decl _) = Unit

build-Agreed :
    (ds : DatasetDecl) (ids : IdRule)
    → check_fields [] [] ds.fields ≡ none
    → Agreed (build (normalized_decl ds) ids)
unfolding build with_rules normalized_decl
build-Agreed ds ids q =
    let h =
      tables-Inside ds.dynamic ds.fields [] [] no_rules no_rules q (λ k r e. ground arith)
        (record { rules = λ k r e. e; required = λ id i. i }) in
    record { rules = h.rules; required = h.required; ids = refl }

ids-Agreed :
    (ds : DatasetDecl) (found : Option ((String → Bool) × ℕ))
    → check_fields [] [] ds.fields ≡ none
    → Agreed (build_with_ids (normalized_decl ds) found)
unfolding build_with_ids
ids-Agreed ds none q = tt
ids-Agreed ds (some (matches, longest)) q = build-Agreed ds (IdRule.id_user longest matches) q

module _ (compile : String → Option (String → Bool)) where
  valid_fields :
      (ds : DatasetDecl)
      → validate_dataset_decl compile ds ≡ none
      → check_fields [] [] ds.fields ≡ none
  unfolding validate_dataset_decl
  valid_fields ds q = ground arith

  new-Agreed : (ds : DatasetDecl) → Agreed (new_schema_handler compile ds)
  unfolding new_schema_handler
  new-Agreed ds = elim (Option-cases (validate_dataset_decl compile ds)) [
    | inr (e, q) ↦ rw (q, new_schema_handler) tt
    | inl q ↦
        let fields = valid_fields ds q in
        rw (q, new_schema_handler)
          (if-Has Agreed (not ds.user_ids) _ _ (build-Agreed ds IdRule.id_auto fields)
            (ids-Agreed ds (compile_id_pattern compile (normalized_decl ds)) fields))
  ]

  -- A handler that NewSchemaHandler returns has its apply rules among its local ones.
  pub new-Agree :
      (ds : DatasetDecl) (a l : SchemaHandler)
      → new_schema_handler compile ds ≡ compiled a l
      → Agree a l
  new-Agree ds a l q = subst Agreed q (new-Agreed ds)
