-- ===== src/Crdt/Versions.antt =====
-- internal/crdt/versions.go and version.go: the per-field version map `_ver` of a record, a tree of
-- strings and objects with `*` for the default of the keys that an object does not list.
pub mod Lookup
use any_sync_sdk.Base.{
  ℕ, zero, suc, String, Bool, not, List, [], ◌∷◌, map, Option, none, some, less, if◌then◌else◌,
}
use any_sync_sdk.Anyenc.{Anyenc, View, object, string}

abbrev pub VersionId : Type 0
VersionId = String

abbrev pub FieldPath : Type 0
FieldPath = List String

abbrev pub versions_key : String
versions_key = "_ver"

abbrev pub default_key : String
default_key = "*"

abbrev pub id_field : String
id_field = "id"

-- `gate >= version` on version ids.
abbrev pub at_least : VersionId → VersionId → Bool
at_least gate version = not (less gate version)

-- The running maximum of `maxVersion`'s visit: a strictly greater version replaces `best`.
abbrev pub max_of : VersionId → List VersionId → VersionId
max_of best [] = best
max_of best (c ∷ cs) = max_of (if less best c then c else best) cs

module _ ⦃E : Anyenc⦄ where
  open E use {Value, view, get, put, entries, height, new_object, new_string}

  -- `GetStringBytes` as a string: empty for a value of another type.
  abbrev pub text : Value → String
  text v = elim (view v) [ string s ↦ s | _ ↦ "" ]

  -- The version of a node's default entry, empty without one.
  abbrev pub default_version : Value → VersionId
  default_version node = elim (get node default_key) [ none ↦ "" | some def ↦ text def ]

  -- `maxVersion` with fuel for the depth.
  unfoldable pub max_at : ℕ → Value → VersionId
  max_at zero node = ""
  max_at (suc fuel) node = elim (view node) [
    | string s ↦ s
    | object ↦ max_of "" (map (λ p. max_at fuel p.1) (entries node))
    | _ ↦ ""
  ]

  unfoldable pub max_version : Value → VersionId
  unfolding max_at
  max_version node = max_at (suc (height node)) node

  unfoldable pub get_version : Value → FieldPath → VersionId
  get_version cur [] = max_version cur
  get_version cur (key ∷ rest) = elim (view cur) [
    | string s ↦ s
    | object ↦ elim (get cur key) [ some next ↦ get_version next rest | none ↦ default_version cur ]
    | _ ↦ ""
  ]

  unfoldable pub get_record_version : Value → FieldPath → VersionId
  unfolding get_version
  get_record_version rec path = elim (get rec versions_key) [
    | none ↦ ""
    | some o ↦ get_version o path
  ]

  -- The child that a write below `key` descends into: a covered entry is split into an object that
  -- keeps the inherited version as its default.
  unfoldable pub child_for : Value → String → Value
  child_for node key = elim (get node key) [
    | none ↦ elim (get node default_key) [
      | none ↦ new_object
      | some def ↦ elim (view def) [ string s ↦ put new_object default_key def | _ ↦ new_object ]
    ]
    | some child ↦ elim (view child) [
      | string s ↦ put new_object default_key (new_string s)
      | object ↦ child
      | _ ↦ new_object
    ]
  ]

  unfoldable pub set_version : Value → VersionId → FieldPath → Value
  set_version node version [] = node
  set_version node version (key ∷ []) = put node key (new_string version)
  set_version node version (key ∷ next ∷ rest) =
      put node key (set_version (child_for node key) version (next ∷ rest))

  -- The object under `_ver`, a fresh one when there is none.
  unfoldable pub versions_of : Value → Value
  versions_of rec = elim (get rec versions_key) [
    | none ↦ new_object
    | some o ↦ elim (view o) [ object ↦ o | _ ↦ new_object ]
  ]

  unfoldable pub set_record_version : Value → VersionId → FieldPath → Value
  unfolding set_version
  set_record_version rec version path =
      put rec versions_key (set_version (versions_of rec) version path)

  -- The loop of `setVersionNodeAt` below the `_ver` object.
  unfoldable pub set_node : Value → Value → FieldPath → Value
  set_node o node [] = o
  set_node o node (key ∷ []) = put o key node
  set_node o node (key ∷ next ∷ rest) = put o key (set_node (child_for o key) node (next ∷ rest))

  unfoldable pub set_version_node_at : Value → Value → FieldPath → Value
  unfolding set_node
  set_version_node_at rec node [] = rec
  set_version_node_at rec node (key ∷ rest) =
      put rec versions_key (set_node (versions_of rec) node (key ∷ rest))

  unfoldable pub gate_from : Value → FieldPath → VersionId × Option Value
  gate_from cur [] = elim (view cur) [
    | string s ↦ (s, none)
    | object ↦ ("", some cur)
    | _ ↦ ("", none)
  ]
  gate_from cur (key ∷ rest) = elim (view cur) [
    | string s ↦ (s, none)
    | object ↦ elim (get cur key) [
      | some next ↦ gate_from next rest
      | none ↦ (default_version cur, none)
    ]
    | _ ↦ ("", none)
  ]

  unfoldable pub gate_version : Value → FieldPath → VersionId × Option Value
  unfolding gate_from
  gate_version rec path = elim (get rec versions_key) [
    | none ↦ ("", none)
    | some o ↦ gate_from o path
  ]
