-- ===== src/Subscribe/Scope/Covers.antt =====
-- internal/subscribe/scope.go: an event goes to no subscription whose scope does not cover it.
use any_sync_sdk.Base.{
  String, ◌≡◌, ◌≢◌, refl, sym, subst, inl, inr, Bool, true, false, List, [], ◌∷◌, ◌++◌, ◌==◌, All,
  if◌then◌else◌, if-Has, Bool-cases, arith,
}
use any_sync_sdk.Dict.Members.{In-append}
use any_sync_sdk.Dict.{
  insert, delete, values, In, number_key, string_key, lookup, insert-All, delete-All,
}
use any_sync_sdk.Subscribe.Scope.{
  Scope, Routed, Bucket, ScopeIndex, new_scope_index, or_empty, add, remove, matches,
}
use any_sync_sdk.Subscribe.Scope.Routing.{
  bucket, same_bucket, bucket-add, bucket-remove, bucket-new, Command, run, covers,
}

false≢true : false ≢ true
false≢true h = ground arith

-- A bucket holds subscriptions of its scope.
abbrev Placed : Scope → Bucket → Type 0
Placed sc b = All (λ e. same_bucket sc e.1.scope ≡ true) b

add-Placed :
    (sc : Scope) (s : Routed) (idx : ScopeIndex)
    → Placed sc (bucket sc idx)
    → Placed sc (bucket sc (add s idx))
add-Placed sc s idx p =
    subst (Placed sc) (sym (bucket-add sc s idx)) (elim (Bool-cases (same_bucket sc s.scope)) [
      | inl e ↦
          subst (λ t. Placed sc (if t then insert s.id s (bucket sc idx) else bucket sc idx))
            (sym e) (insert-All (λ k r. same_bucket sc r.scope ≡ true) s.id s (bucket sc idx) e p)
      | inr e ↦
          subst (λ t. Placed sc (if t then insert s.id s (bucket sc idx) else bucket sc idx))
            (sym e) p
    ])

remove-Placed :
    (sc : Scope) (s : Routed) (idx : ScopeIndex)
    → Placed sc (bucket sc idx)
    → Placed sc (bucket sc (remove s idx))
remove-Placed sc s idx p = subst (Placed sc) (sym (bucket-remove sc s idx)) (
    if-Has (Placed sc) (same_bucket sc s.scope) (delete s.id (bucket sc idx)) (bucket sc idx)
      (delete-All (λ k r. same_bucket sc r.scope ≡ true) s.id (bucket sc idx) p) p)

run-Placed :
    (cs : List Command) (sc : Scope) (idx : ScopeIndex)
    → Placed sc (bucket sc idx)
    → Placed sc (bucket sc (run cs idx))
unfolding run
run-Placed [] sc idx p = p
run-Placed (Command.add_call s ∷ cs) sc idx p = run-Placed cs sc (add s idx) (add-Placed sc s idx p)
run-Placed (Command.remove_call s ∷ cs) sc idx p =
    run-Placed cs sc (remove s idx) (remove-Placed sc s idx p)

In-Placed :
    (sc : Scope) (r : Routed) (b : Bucket)
    → Placed sc b
    → In r (values b)
    → same_bucket sc r.scope ≡ true
In-Placed sc r [] p h = absurd (false≢true h)
In-Placed sc r ((k, v) ∷ b) (q, p) (inl e) = subst (λ x. same_bucket sc x.scope ≡ true) e q
In-Placed sc r ((k, v) ∷ b) (q, p) (inr h) = In-Placed sc r b p h

abbrev shared_scope : Scope
shared_scope = record { shared = true; all_objects = false; object_id = ""; dataset = "" }

abbrev dataset_scope : String → Scope
dataset_scope d = record { shared = false; all_objects = true; object_id = ""; dataset = d }

abbrev object_scope : String → String → Scope
object_scope o d = record { shared = false; all_objects = false; object_id = o; dataset = d }

In-if :
    (b : Bool) (r : Routed) (xs : List Routed) → In r (if b then xs else []) → (b ≡ true) × In r xs
In-if true r xs h = (refl, h)
In-if false r xs h = absurd (false≢true h)

-- After any sequence of registrations and removals on an empty index, an event goes only to subscriptions
-- whose scope covers it.
pub matches-covers :
    (cs : List Command) (objects object_id dataset : String) (r : Routed)
    → In r (matches objects object_id dataset (run cs new_scope_index))
    → covers objects object_id dataset r.scope ≡ true
unfolding matches
matches-covers cs objects object_id dataset r h =
    let idx = run cs new_scope_index in
    let placed = λ (sc : Scope).
      run-Placed cs sc new_scope_index (subst (Placed sc) (sym (bucket-new sc)) tt) in
    let shared = if dataset == objects then values idx.shared else [] in
    let of_dataset = values (or_empty (lookup dataset idx.per_dataset)) in
    let of_object = values (or_empty (lookup dataset (or_empty (lookup object_id idx.per_obj)))) in
    elim (In-append r (shared ++ of_dataset) of_object h) [
      | inl q ↦ elim (In-append r shared of_dataset q) [
        | inl x ↦
            let (on, here) = In-if (dataset == objects) r (values idx.shared) x in
            let p = In-Placed shared_scope r idx.shared (placed shared_scope) here in ground arith
        | inr x ↦
            let p =
              In-Placed (dataset_scope dataset) r (or_empty (lookup dataset idx.per_dataset))
                (placed (dataset_scope dataset)) x in
            ground arith
      ]
      | inr x ↦
          let p =
            In-Placed (object_scope object_id dataset) r
              (or_empty (lookup dataset (or_empty (lookup object_id idx.per_obj))))
              (placed (object_scope object_id dataset)) x in
          ground arith
    ]
