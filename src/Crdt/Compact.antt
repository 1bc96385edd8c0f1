-- ===== src/Crdt/Compact.antt =====
-- internal/crdt/versions.go: the compaction of a record's `_ver` map.
use any_sync_sdk.Base.{
  ℕ, zero, suc, String, Bool, true, false, ◌&&◌, ◌||◌, List, [], ◌∷◌, Option, none, some, ◌==◌,
  if◌then◌else◌,
}
use any_sync_sdk.Anyenc.{Anyenc, Pairs, object, string}
use any_sync_sdk.Crdt.Versions.{VersionId, versions_key, default_key, id_field}
use any_sync_sdk.Crdt.Lifecycle.{deleted_at_field}

module _ ⦃E : Anyenc⦄ where
  open E use {Value, view, get, put, del, entries, height}

  -- The visit of `IsCollapsible`: the version that all entries share so far, and whether `*` was met.
  unfoldable pub common_version : Option VersionId → Bool → Pairs Value → Option VersionId
  common_version none has_default [] = none
  common_version (some c) has_default [] = if has_default then some c else none
  common_version common has_default ((k, v) ∷ ps) =
      let go = λ (s : String). common_version (some s) (has_default || k == default_key) ps in
      elim (view v) [
        | string s ↦ elim common [ none ↦ go s | some c ↦ if s == c then go c else none ]
        | _ ↦ none
      ]

  unfoldable pub is_collapsible : Value → Option VersionId
  unfolding common_version
  is_collapsible node = elim (view node) [
    | object ↦ common_version none false (entries node)
    | _ ↦ none
  ]

  -- A child that became collapsible is replaced by its own default entry.
  unfoldable pub collapse_child : Value → Value
  unfolding is_collapsible
  collapse_child v = elim (is_collapsible v) [
    | none ↦ v
    | some _ ↦ elim (get v default_key) [ none ↦ v | some def ↦ def ]
  ]

  -- The first visit: object children are compacted, `child` being the recursive call.
  unfoldable pub compact_children : (Value → Value) → Pairs Value → Value → Value
  unfolding collapse_child
  compact_children child [] node = node
  compact_children child ((k, v) ∷ ps) node =
      compact_children child ps
        (elim (view v) [ object ↦ put node k (collapse_child (child v)) | _ ↦ node ])

  -- The second visit: the entries equal to the default, but for the marker at the root.
  unfoldable pub redundant_keys : Bool → VersionId → Pairs Value → List String
  redundant_keys is_root default_version [] = []
  redundant_keys is_root default_version ((k, v) ∷ ps) =
      let rest = redundant_keys is_root default_version ps in
      let kept = k == default_key || (is_root && k == id_field) in
      elim (view v) [
        | string s ↦ if kept then rest else if s == default_version then k ∷ rest else rest
        | _ ↦ rest
      ]

  unfoldable pub del_keys : Value → List String → Value
  del_keys node [] = node
  del_keys node (k ∷ ks) = del_keys (del node k) ks

  unfoldable pub drop_redundant : Bool → Value → Value
  unfolding redundant_keys del_keys
  drop_redundant is_root node = elim (get node default_key) [
    | none ↦ node
    | some def ↦ elim (view def) [
      | string s ↦ del_keys node (redundant_keys is_root s (entries node))
      | _ ↦ node
    ]
  ]

  -- `compactSubtree` with fuel for the depth.
  unfoldable pub compact_at : ℕ → Bool → Value → Value
  unfolding compact_children drop_redundant
  compact_at zero is_root node = node
  compact_at (suc fuel) is_root node =
      drop_redundant is_root (compact_children (compact_at fuel false) (entries node) node)

  unfoldable pub compact_versions : Value → Value
  unfolding compact_at
  compact_versions rec = elim (get rec deleted_at_field) [
    | some _ ↦ rec
    | none ↦ elim (get rec versions_key) [
      | none ↦ rec
      | some v ↦ elim (view v) [
        | object ↦ put rec versions_key (compact_at (suc (height v)) true v)
        | _ ↦ rec
      ]
    ]
  ]
