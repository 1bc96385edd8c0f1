-- ===== src/Subscribe/Scope.antt =====
-- internal/subscribe/scope.go: the index that routes an event to the subscriptions whose scope covers
-- it. Of a querySub the index reads the number and the scope, which never change.
pub mod Routing
pub mod Covers
use any_sync_sdk.Base.{
  ℕ, String, Bool, true, false, ◌&&◌, Option, none, some, List, [], ◌∷◌, ◌++◌, ◌==◌, map,
  if◌then◌else◌,
}
use any_sync_sdk.Dict.{Dict, lookup, insert, delete, string_key, number_key, values}

pub record Scope : Type 0 where
  pub shared : Bool
  pub all_objects : Bool
  pub object_id : String
  pub dataset : String

pub record Routed : Type 0 where
  pub id : ℕ
  pub scope : Scope

abbrev pub Bucket : Type 0
Bucket = Dict ℕ Routed

pub record ScopeIndex : Type 0 where
  pub shared : Bucket
  pub per_dataset : Dict String Bucket
  pub per_obj : Dict String (Dict String Bucket)

abbrev pub new_scope_index : ScopeIndex
new_scope_index = record { shared = []; per_dataset = []; per_obj = [] }

-- A map that is not there reads as empty.
abbrev pub or_empty : {K : Type 0} {V : Type 0} → Option (Dict K V) → Dict K V
or_empty none = []
or_empty (some m) = m

-- `if len(m) == 0 { delete(outer, key) }`, after `m` has lost an element.
abbrev pub put_back : {V : Type 0} → String → List V → Dict String (List V) → Dict String (List V)
put_back key [] outer = delete key outer
put_back key (x ∷ m) outer = insert key (x ∷ m) outer

unfoldable pub add : Routed → ScopeIndex → ScopeIndex
add s idx =
    if s.scope.shared
    then record {
      shared = insert s.id s idx.shared;
      per_dataset = idx.per_dataset;
      per_obj = idx.per_obj;
    }
    else if s.scope.all_objects
    then (let per_ds = or_empty (lookup s.scope.dataset idx.per_dataset) in
        record {
          shared = idx.shared;
          per_dataset = insert s.scope.dataset (insert s.id s per_ds) idx.per_dataset;
          per_obj = idx.per_obj;
        })
    else (let per_obj = or_empty (lookup s.scope.object_id idx.per_obj) in
        let per_ds = or_empty (lookup s.scope.dataset per_obj) in
        record {
          shared = idx.shared;
          per_dataset = idx.per_dataset;
          per_obj =
              insert s.scope.object_id (insert s.scope.dataset (insert s.id s per_ds) per_obj)
                idx.per_obj;
        })

abbrev pub remove_per_obj : Routed → Option (Dict String Bucket) → ScopeIndex → ScopeIndex
remove_per_obj s none idx = idx
remove_per_obj s (some per_obj) idx =
    let per_ds = delete s.id (or_empty (lookup s.scope.dataset per_obj)) in
    record {
      shared = idx.shared;
      per_dataset = idx.per_dataset;
      per_obj = put_back s.scope.object_id (put_back s.scope.dataset per_ds per_obj) idx.per_obj;
    }

unfoldable pub remove : Routed → ScopeIndex → ScopeIndex
remove s idx =
    if s.scope.shared
    then record {
      shared = delete s.id idx.shared;
      per_dataset = idx.per_dataset;
      per_obj = idx.per_obj;
    }
    else if s.scope.all_objects
    then (let per_ds = delete s.id (or_empty (lookup s.scope.dataset idx.per_dataset)) in
        record {
          shared = idx.shared;
          per_dataset = put_back s.scope.dataset per_ds idx.per_dataset;
          per_obj = idx.per_obj;
        })
    else remove_per_obj s (lookup s.scope.object_id idx.per_obj) idx

-- The subscriptions that an event of the dataset on the object goes to; `objects` is the dataset of
-- property values, properties.Dataset.
unfoldable pub matches : String → String → String → ScopeIndex → List Routed
matches objects object_id dataset idx =
    (if dataset == objects then values idx.shared else [])
    ++ values (or_empty (lookup dataset idx.per_dataset))
    ++ values (or_empty (lookup dataset (or_empty (lookup object_id idx.per_obj))))
