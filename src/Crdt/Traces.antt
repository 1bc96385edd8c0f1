-- ===== src/Crdt/Traces.antt =====
-- internal/crdt/traces.go: the trace ids of a record, one list for each version in its `_ver`.
pub mod Held
pub mod Collected
use any_sync_sdk.Base.{
  ℕ, zero, suc, String, Bool, true, false, List, [], ◌∷◌, ◌++◌, map, Option, none, some, ◌==◌,
  if◌then◌else◌,
}
use any_sync_sdk.Anyenc.{Anyenc, View, Pairs, object, string}
use any_sync_sdk.Crdt.Op.{Change}
use any_sync_sdk.Crdt.Versions.{VersionId, versions_key}
use any_sync_sdk.Crdt.Lifecycle.{traces_key}

-- A set of strings, as the list of what was put into it.
unfoldable pub contains : List String → String → Bool
contains [] k = false
contains (j ∷ js) k = if j == k then true else contains js k

unfoldable pub stale_keys {ℓ} : {V : Type ℓ} → List String → List (String × V) → List String
stale_keys in_use [] = []
stale_keys in_use ((k, v) ∷ ps) =
    let rest = stale_keys in_use ps in if contains in_use k then rest else k ∷ rest

module _ ⦃E : Anyenc⦄ where
  open E use {Value, view, get, put, del, entries, height, new_object, new_string, new_array}

  abbrev pub collect_all : (Value → List String) → Pairs Value → List String
  collect_all f [] = []
  collect_all f ((k, v) ∷ ps) = f v ++ collect_all f ps

  -- `collectVersionIdsInto` with fuel for the depth.
  unfoldable pub collect_at : ℕ → Value → List String
  collect_at zero node = []
  collect_at (suc fuel) node = elim (view node) [
    | string s ↦ if s == "" then [] else s ∷ []
    | object ↦ collect_all (collect_at fuel) (entries node)
    | _ ↦ []
  ]

  unfoldable pub collect_version_ids : Value → List String
  unfolding collect_at
  collect_version_ids node = collect_at (suc (height node)) node

  -- The object under `_traces`, when there is one.
  abbrev pub traces_of : Value → Option Value
  traces_of rec = elim (get rec traces_key) [
    | none ↦ none
    | some t ↦ elim (view t) [ object ↦ some t | _ ↦ none ]
  ]

  abbrev pub trace_list : List String → Value
  trace_list ids = new_array (map new_string ids)

  abbrev pub set_trace : VersionId → List String → Option Value → Value
  set_trace version ids none = put new_object version (trace_list ids)
  set_trace version ids (some t) = put t version (trace_list ids)

  -- The entry of the change's own version: written, or removed when it carries no traces.
  unfoldable pub record_traces : Value → VersionId → List String → Value
  record_traces rec version [] = elim (traces_of rec) [
    | none ↦ rec
    | some t ↦ put rec traces_key (del t version)
  ]
  record_traces rec version (id ∷ ids) =
      put rec traces_key (set_trace version (id ∷ ids) (traces_of rec))

  unfoldable pub del_all : Value → List String → Value
  del_all t [] = t
  del_all t (k ∷ ks) = del_all (del t k) ks

  abbrev pub store_traces : Value → Value → Pairs Value → Value
  store_traces rec t [] = del rec traces_key
  store_traces rec t (p ∷ ps) = put rec traces_key t

  -- The entries of versions that `_ver` does not hold go, and so does an empty map.
  unfoldable pub collect_garbage : Value → List String → Value
  unfolding del_all stale_keys
  collect_garbage rec in_use = elim (traces_of rec) [
    | none ↦ rec
    | some t ↦
        let kept = del_all t (stale_keys in_use (entries t)) in store_traces rec kept (entries kept)
  ]

  abbrev pub update_with : Value → Change Value → List String → Value
  update_with rec ch [] = del rec traces_key
  update_with rec ch (v ∷ vs) =
      collect_garbage
        (if contains (v ∷ vs) ch.version_id
          then record_traces rec ch.version_id ch.trace_ids
          else rec)
        (v ∷ vs)

  unfoldable pub update_traces : Value → Change Value → Value
  unfolding collect_version_ids record_traces collect_garbage contains
  update_traces rec ch = elim (get rec versions_key) [
    | none ↦ del rec traces_key
    | some ver ↦ update_with rec ch (collect_version_ids ver)
  ]
