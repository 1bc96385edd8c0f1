-- ===== src/Crdt/Merge.antt =====
-- internal/crdt/apply.go, mergeReplace: a broad write over a position with finer-grained versions.
pub mod Authority
pub mod Claiming
use any_sync_sdk.Base.{
  ℕ, zero, suc, String, Bool, true, false, [], ◌∷◌, Option, none, some, ◌==◌, if◌then◌else◌, eqb,
  ◌+◌,
}
use mathlib.Core.Option
use any_sync_sdk.Anyenc.{Anyenc, Pairs, object, string}
use any_sync_sdk.Crdt.Versions.{VersionId, default_key, at_least}

-- What the visit of the old `_ver` entries builds up.
pub record Merging (V : Type 0) : Type 0 where
  pub out_val : V
  pub out_ver : V
  pub survivors : ℕ

-- The merged value (none: the position is removed), its `_ver` node, and `changed`.
pub record Merged (V : Type 0) : Type 0 where
  pub value : Option V
  pub version_node : V
  pub changed : Bool

module _ ⦃E : Anyenc⦄ where
  open E use {Value, view, get, put, entries, height, copy, new_object, new_string}

  -- `incoming`: the new value's entry, when the new value is an object.
  unfoldable pub incoming_at : Option Value → String → Option Value
  incoming_at none key = none
  incoming_at (some new) key = elim (view new) [ object ↦ get new key | _ ↦ none ]

  abbrev pub put_some : Value → String → Option Value → Value
  put_some o key none = o
  put_some o key (some v) = put o key v

  -- A string entry: it survives at or above the version, and is superseded below it.
  unfoldable pub merge_leaf :
      Option Value
      → Option Value
      → VersionId
      → String
      → Value
      → VersionId
      → Merging Value
      → Merging Value
  unfolding incoming_at
  merge_leaf old new version key entry leaf st =
      if at_least leaf version
      then record {
        out_val = put_some st.out_val key (Option.bind old (λ o. get o key));
        out_ver = put st.out_ver key entry;
        survivors = st.survivors + 1;
      }
      else record st { out_val = put_some st.out_val key (Option.map copy (incoming_at new key)) }

  -- An object entry, after the recursive call on it.
  unfoldable pub merge_child : VersionId → String → Merged Value → Merging Value → Merging Value
  merge_child version key child st =
      let val = put_some st.out_val key child.value in
      let kept : Merging Value = record {
        out_val = val;
        out_ver = put st.out_ver key child.version_node;
        survivors = st.survivors + 1;
      } in
      elim (view child.version_node) [
        | string s ↦ if s == version then record st { out_val = val } else kept
        | _ ↦ kept
      ]

  -- One entry of the old `_ver` node; `child` is the recursive call.
  abbrev pub merge_entry :
      (Option Value → Value → Option Value → Merged Value)
      → Option Value
      → Option Value
      → VersionId
      → String
      → Value
      → Merging Value
      → Merging Value
  merge_entry child old new version key entry st =
      if key == default_key then st else elim (view entry) [
        | string s ↦ merge_leaf old new version key entry s st
        | object ↦
            merge_child version key
              (child (Option.bind old (λ o. get o key)) entry (incoming_at new key)) st
        | _ ↦ st
      ]

  -- The visit of the entries of the old `_ver` node.
  unfoldable pub merge_entries :
      (Option Value → Value → Option Value → Merged Value)
      → Option Value
      → Option Value
      → VersionId
      → Pairs Value
      → Merging Value
      → Merging Value
  unfolding merge_leaf merge_child
  merge_entries child old new version [] st = st
  merge_entries child old new version ((key, entry) ∷ rest) st =
      merge_entries child old new version rest (merge_entry child old new version key entry st)

  -- The keys of an incoming object that the old node does not list.
  unfoldable pub merge_fresh : Value → Pairs Value → Value → Value
  merge_fresh ver [] out = out
  merge_fresh ver ((key, v) ∷ rest) out =
      merge_fresh ver rest (elim (get ver key) [ some _ ↦ out | none ↦ put out key (copy v) ])

  unfoldable pub fresh_entries : Option Value → Pairs Value
  fresh_entries none = []
  fresh_entries (some new) = elim (view new) [ object ↦ entries new | _ ↦ [] ]

  -- The value of a write that takes the whole subtree.
  unfoldable pub replaced : Option Value → Value → Option Value
  replaced none out = none
  replaced (some new) out = elim (view new) [ object ↦ some out | _ ↦ some (copy new) ]

  unfoldable pub finish_merge : Option Value → VersionId → Merging Value → Merged Value
  unfolding replaced
  finish_merge new version st =
      if eqb st.survivors 0
      then record {
        value = replaced new st.out_val;
        version_node = new_string version;
        changed = true;
      }
      else record { value = some st.out_val; version_node = st.out_ver; changed = true }

  -- The whole position is claimed at or above the version already.
  unfoldable pub is_claimed : Value → VersionId → Bool
  is_claimed ver version = elim (get ver default_key) [
    | none ↦ false
    | some def ↦ elim (view def) [ string s ↦ at_least s version | _ ↦ false ]
  ]

  abbrev pub start_merge : VersionId → Merging Value
  start_merge version = record {
    out_val = new_object;
    out_ver = put new_object default_key (new_string version);
    survivors = 0;
  }

  -- `mergeReplace` with fuel for the depth of the `_ver` node.
  unfoldable pub merge_at : ℕ → VersionId → Option Value → Value → Option Value → Merged Value
  unfolding merge_entries merge_fresh fresh_entries finish_merge is_claimed
  merge_at zero version old ver new = record { value = old; version_node = ver; changed = false }
  merge_at (suc fuel) version old ver new =
      let visited =
        merge_entries (merge_at fuel version) old new version (entries ver) (start_merge version) in
      let all = record visited { out_val = merge_fresh ver (fresh_entries new) visited.out_val } in
      if is_claimed ver version
      then record { value = old; version_node = ver; changed = false }
      else finish_merge new version all

  unfoldable pub merge_replace : VersionId → Option Value → Value → Option Value → Merged Value
  unfolding merge_at
  merge_replace version old ver new = merge_at (suc (height ver)) version old ver new
