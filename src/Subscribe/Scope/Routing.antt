-- ===== src/Subscribe/Scope/Routing.antt =====
-- internal/subscribe/scope.go: whom an event reaches after any registrations and removals.
use any_sync_sdk.Base.{
  ℕ, String, ◌≡◌, refl, ap, ◌∙◌, subst, ◌⊎◌, inl, inr, Bool, true, false, not, ◌&&◌, Option, none,
  some, List, [], ◌∷◌, ◌++◌, ◌==◌, eqb, if◌then◌else◌, arith, eq_iff,
}
use any_sync_sdk.Dict.{
  Dict, lookup, insert, delete, string_key, number_key, lookup-insert_lem, lookup-delete_lem, In,
  lookup-In, values,
}
use any_sync_sdk.Subscribe.Scope.{
  Scope, Routed, Bucket, ScopeIndex, new_scope_index, or_empty, put_back, add, remove,
  remove_per_obj, matches,
}

-- The bucket that a scope belongs to.
abbrev pub bucket : Scope → ScopeIndex → Bucket
bucket sc idx =
    if sc.shared
    then idx.shared
    else if sc.all_objects
    then or_empty (lookup sc.dataset idx.per_dataset)
    else or_empty (lookup sc.dataset (or_empty (lookup sc.object_id idx.per_obj)))

abbrev pub same_bucket : Scope → Scope → Bool
same_bucket a b =
    if a.shared
    then b.shared
    else if a.all_objects
    then not b.shared && b.all_objects && a.dataset == b.dataset
    else not b.shared && not b.all_objects && a.object_id == b.object_id && a.dataset == b.dataset

put_back_lem :
    {K : Type 0} {V : Type 0} (k key : String) (m : Dict K V) (outer : Dict String (Dict K V))
    → or_empty (lookup k (put_back key m outer))
      ≡ (if k == key then m else or_empty (lookup k outer))
put_back_lem k key [] outer = ground (arith, lookup-delete_lem key k outer)
put_back_lem k key (x ∷ m) outer = ground (arith, lookup-insert_lem key (x ∷ m) k outer)

pub bucket-add :
    (sc : Scope) (s : Routed) (idx : ScopeIndex)
    → bucket sc (add s idx)
      ≡ (if same_bucket sc s.scope then insert s.id s (bucket sc idx) else bucket sc idx)
unfolding add
bucket-add sc s idx =
    let per_obj = or_empty (lookup s.scope.object_id idx.per_obj) in
    let b = or_empty (lookup s.scope.dataset per_obj) in
    let d = or_empty (lookup s.scope.dataset idx.per_dataset) in
    ground (
      arith,
      lookup-insert_lem s.scope.dataset (insert s.id s d) sc.dataset idx.per_dataset,
      lookup-insert_lem s.scope.object_id (insert s.scope.dataset (insert s.id s b) per_obj)
          sc.object_id idx.per_obj,
      lookup-insert_lem s.scope.dataset (insert s.id s b) sc.dataset per_obj,
      eq_iff sc.object_id s.scope.object_id,
      eq_iff sc.dataset s.scope.dataset,
    )

bucket-remove_per_obj :
    (sc : Scope) (s : Routed) (per_obj : Option (Dict String Bucket)) (idx : ScopeIndex)
    → lookup s.scope.object_id idx.per_obj ≡ per_obj
    → s.scope.shared ≡ false
    → s.scope.all_objects ≡ false
    → bucket sc (remove_per_obj s per_obj idx)
      ≡ (if same_bucket sc s.scope then delete s.id (bucket sc idx) else bucket sc idx)
bucket-remove_per_obj sc s none idx e h k =
    ground (arith, eq_iff sc.object_id s.scope.object_id, eq_iff sc.dataset s.scope.dataset)
bucket-remove_per_obj sc s (some per_obj) idx e h k =
    let b = or_empty (lookup s.scope.dataset per_obj) in
    ground (
      arith,
      put_back_lem sc.dataset s.scope.dataset (delete s.id b) per_obj,
      put_back_lem sc.object_id s.scope.object_id (put_back s.scope.dataset (delete s.id b) per_obj)
          idx.per_obj,
      eq_iff sc.object_id s.scope.object_id,
      eq_iff sc.dataset s.scope.dataset,
    )

pub bucket-remove :
    (sc : Scope) (s : Routed) (idx : ScopeIndex)
    → bucket sc (remove s idx)
      ≡ (if same_bucket sc s.scope then delete s.id (bucket sc idx) else bucket sc idx)
unfolding remove
bucket-remove sc s idx =
    let d = or_empty (lookup s.scope.dataset idx.per_dataset) in
    ground (
      arith,
      put_back_lem sc.dataset s.scope.dataset (delete s.id d) idx.per_dataset,
      bucket-remove_per_obj sc s (lookup s.scope.object_id idx.per_obj) idx refl,
      eq_iff sc.dataset s.scope.dataset,
    )

lookup-add :
    (sc : Scope) (id : ℕ) (s : Routed) (idx : ScopeIndex)
    → lookup id (bucket sc (add s idx))
      ≡ (if same_bucket sc s.scope && eqb id s.id then some s else lookup id (bucket sc idx))
lookup-add sc id s idx =
    ap (lookup id) (bucket-add sc s idx)
    ∙ ground (arith, lookup-insert_lem s.id s id (bucket sc idx))

lookup-remove :
    (sc : Scope) (id : ℕ) (s : Routed) (idx : ScopeIndex)
    → lookup id (bucket sc (remove s idx))
      ≡ (if same_bucket sc s.scope && eqb id s.id then none else lookup id (bucket sc idx))
lookup-remove sc id s idx =
    ap (lookup id) (bucket-remove sc s idx)
    ∙ ground (arith, lookup-delete_lem s.id id (bucket sc idx))

pub data Command : Type 0 where
  add_call : Routed → Command
  remove_call : Routed → Command

unfoldable pub run : List Command → ScopeIndex → ScopeIndex
run [] idx = idx
run (add_call s ∷ cs) idx = run cs (add s idx)
run (remove_call s ∷ cs) idx = run cs (remove s idx)

-- What the latest call about the number and the bucket says.
abbrev pub latest : List Command → Scope → ℕ → Option Routed → Option Routed
latest [] sc id o = o
latest (add_call s ∷ cs) sc id o =
    latest cs sc id (if same_bucket sc s.scope && eqb id s.id then some s else o)
latest (remove_call s ∷ cs) sc id o =
    latest cs sc id (if same_bucket sc s.scope && eqb id s.id then none else o)

-- After any sequence of registrations and removals, the bucket of a scope has under a number the
-- subscription of the latest call about that number in that bucket: what was registered, nothing after
-- a removal, and what was there before the sequence where no call is about it.
pub lookup-run :
    (cs : List Command) (sc : Scope) (id : ℕ) (idx : ScopeIndex)
    → lookup id (bucket sc (run cs idx)) ≡ latest cs sc id (lookup id (bucket sc idx))
unfolding run
lookup-run [] sc id idx = refl
lookup-run (add_call s ∷ cs) sc id idx =
    lookup-run cs sc id (add s idx) ∙ ap (latest cs sc id) (lookup-add sc id s idx)
lookup-run (remove_call s ∷ cs) sc id idx =
    lookup-run cs sc id (remove s idx) ∙ ap (latest cs sc id) (lookup-remove sc id s idx)

-- What a scope covers, by the description of Scope.
abbrev pub covers : String → String → String → Scope → Bool
covers objects object_id dataset sc =
    if sc.shared
    then dataset == objects
    else if sc.all_objects
    then dataset == sc.dataset
    else object_id == sc.object_id && dataset == sc.dataset

In-left : (r : Routed) (xs ys : List Routed) → In r xs → In r (xs ++ ys)
In-left r [] ys h = ground arith
In-left r (x ∷ xs) ys (inl e) = inl e
In-left r (x ∷ xs) ys (inr h) = inr (In-left r xs ys h)

In-right : (r : Routed) (xs ys : List Routed) → In r ys → In r (xs ++ ys)
In-right r [] ys h = h
In-right r (x ∷ xs) ys h = inr (In-right r xs ys h)

covered :
    (objects object_id dataset : String) (sc : Scope) (idx : ScopeIndex)
    → covers objects object_id dataset sc ≡ true
    → ((bucket sc idx ≡ idx.shared) × ((dataset == objects) ≡ true))
      ⊎ ((bucket sc idx ≡ or_empty (lookup dataset idx.per_dataset))
          ⊎ (bucket sc idx ≡ or_empty (lookup dataset (or_empty (lookup object_id idx.per_obj)))))
covered objects object_id dataset sc idx c =
    ground (arith, eq_iff dataset sc.dataset, eq_iff object_id sc.object_id)

bucket-matches :
    (objects object_id dataset : String) (r : Routed) (idx : ScopeIndex)
    → covers objects object_id dataset r.scope ≡ true
    → In r (values (bucket r.scope idx))
    → In r (matches objects object_id dataset idx)
unfolding matches
bucket-matches objects object_id dataset r idx c h =
    let shared = values idx.shared in
    let of_dataset = values (or_empty (lookup dataset idx.per_dataset)) in
    let of_object = values (or_empty (lookup dataset (or_empty (lookup object_id idx.per_obj)))) in
    let on = if dataset == objects then shared else [] in
    elim (covered objects object_id dataset r.scope idx c) [
      | inl (e, q) ↦ rw q (
          In-left r (shared ++ of_dataset) of_object
            (In-left r shared of_dataset (subst (λ b. In r (values b)) e h)))
      | inr (inl e) ↦
          In-left r (on ++ of_dataset) of_object
            (In-right r on of_dataset (subst (λ b. In r (values b)) e h))
      | inr (inr e) ↦ In-right r (on ++ of_dataset) of_object (subst (λ b. In r (values b)) e h)
    ]

pub bucket-new : (sc : Scope) → bucket sc new_scope_index ≡ []
bucket-new sc = ground arith

-- An event reaches every subscription whose scope covers it and which the latest call of a sequence of
-- registrations and removals about its number, in its bucket, registered, on an index that was empty.
pub matches-latest :
    (cs : List Command) (objects object_id dataset : String) (r : Routed)
    → latest cs r.scope r.id none ≡ some r
    → covers objects object_id dataset r.scope ≡ true
    → In r (matches objects object_id dataset (run cs new_scope_index))
matches-latest cs objects object_id dataset r l c =
    bucket-matches objects object_id dataset r (run cs new_scope_index) c (
      lookup-In r.id r (bucket r.scope (run cs new_scope_index)) (
        lookup-run cs r.scope r.id new_scope_index
        ∙ ap (λ b. latest cs r.scope r.id (lookup r.id b)) (bucket-new r.scope)
        ∙ l))
