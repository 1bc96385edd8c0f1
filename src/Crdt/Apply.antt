-- ===== src/Crdt/Apply.antt =====
-- internal/crdt/apply.go: what one operation does to a record.
pub mod Gates
pub mod Replay
pub mod Ops
pub mod Walks
pub mod Converge
pub mod Frame
pub mod Register
pub mod Values
use any_sync_sdk.Base.{
  ℕ, String, Bool, true, false, List, [], ◌∷◌, ◌++◌, map, Option, none, some, if◌then◌else◌,
}
use any_sync_sdk.Anyenc.{Anyenc, View, Pairs, object, array, number, get_path}
use any_sync_sdk.Crdt.Op
use any_sync_sdk.Crdt.Op.{Op, Change, OpType, split_dots}
use any_sync_sdk.Crdt.Versions.{
  VersionId, FieldPath, at_least, gate_version, get_record_version, set_record_version,
  set_version_node_at,
}
use any_sync_sdk.Crdt.Nested.{
  or_keep, set_nested, unset_nested, add_to_set, pull_from_set, get_number,
}
use any_sync_sdk.Crdt.Merge.{Merged, merge_replace}

module _ ⦃E : Anyenc⦄ where
  open E use {Value, Number, view, get, put, entries, add, copy, new_number}

  -- `opFieldHeads`: the top-level fields that an op writes.
  abbrev pub head_of : List String → String
  head_of [] = ""
  head_of (s ∷ _) = s

  unfoldable pub op_field_heads : Op Value → List String
  op_field_heads op = elim op.path [
    | key ∷ _ ↦ key ∷ []
    | [] ↦ elim op.payload [
      | none ↦ []
      | some payload ↦ elim (view payload) [
        | object ↦ map (λ p. head_of (split_dots p.0)) (entries payload)
        | _ ↦ []
      ]
    ]
  ]

  -- The writes after a merge: the merged value and the merged version node.
  unfoldable pub land_merged : Value → FieldPath → Merged Value → Value
  land_merged rec path merged =
      if merged.changed
      then set_version_node_at
          (elim merged.value [
            | none ↦ or_keep (unset_nested rec path) rec
            | some v ↦ set_nested rec path v
          ])
          merged.version_node path
      else rec

  unfoldable pub gated_set : Value → VersionId → FieldPath → Value → Value
  unfolding land_merged
  gated_set rec version path value =
      let (gate, subtree) = gate_version rec path in
      elim subtree [
        | none ↦
            if at_least gate version
            then rec
            else set_record_version (set_nested rec path (copy value)) version path
        | some node ↦
            land_merged rec path (merge_replace version (get_path rec path) node (some value))
      ]

  unfoldable pub gated_unset : Value → VersionId → FieldPath → Value
  unfolding land_merged
  gated_unset rec version path =
      let (gate, subtree) = gate_version rec path in
      elim subtree [
        | none ↦
            if at_least gate version
            then rec
            else set_record_version (or_keep (unset_nested rec path) rec) version path
        | some node ↦ land_merged rec path (merge_replace version (get_path rec path) node none)
      ]

  -- The visit of a multi-field payload, one gated write for each key.
  unfoldable pub set_fields : VersionId → Pairs Value → Value → Value
  set_fields version [] rec = rec
  set_fields version ((key, v) ∷ rest) rec =
      set_fields version rest (gated_set rec version (split_dots key) v)

  unfoldable pub unset_fields : VersionId → Pairs Value → Value → Value
  unset_fields version [] rec = rec
  unset_fields version ((key, v) ∷ rest) rec =
      unset_fields version rest (gated_unset rec version (split_dots key))

  abbrev pub payload_entries : Option Value → Pairs Value
  payload_entries none = []
  payload_entries (some payload) = elim (view payload) [ object ↦ entries payload | _ ↦ [] ]

  unfoldable pub apply_set : Value → VersionId → Op Value → Value
  unfolding set_fields
  apply_set rec version op = elim op.path [
    | [] ↦ set_fields version (payload_entries op.payload) rec
    | key ∷ rest ↦ elim op.payload [
      | none ↦ rec
      | some payload ↦ gated_set rec version (key ∷ rest) payload
    ]
  ]

  unfoldable pub apply_unset : Value → VersionId → Op Value → Value
  unfolding unset_fields
  apply_unset rec version op = elim op.path [
    | [] ↦ unset_fields version (payload_entries op.payload) rec
    | key ∷ rest ↦ gated_unset rec version (key ∷ rest)
  ]

  -- `existing != nil && existing.Type() != anyenc.TypeArray`, and the same for numbers.
  unfoldable pub blocks_set : Option Value → Bool
  blocks_set none = false
  blocks_set (some v) = elim (view v) [ array _ ↦ false | _ ↦ true ]

  unfoldable pub blocks_number : Option Value → Bool
  blocks_number none = false
  blocks_number (some v) = elim (view v) [ number _ ↦ false | _ ↦ true ]

  -- A set op runs on a path with a payload, a newer version and an array or nothing there.
  unfoldable pub apply_add_to_set : Value → VersionId → Op Value → Value
  unfolding blocks_set
  apply_add_to_set rec version op = elim op.path [
    | [] ↦ rec
    | key ∷ rest ↦ elim op.payload [
      | none ↦ rec
      | some payload ↦
          if at_least (get_record_version rec (key ∷ rest)) version
          then rec
          else if blocks_set (get_path rec (key ∷ rest))
          then rec
          else add_to_set rec (key ∷ rest) (copy payload)
    ]
  ]

  unfoldable pub apply_pull : Value → VersionId → Op Value → Value
  unfolding blocks_set
  apply_pull rec version op = elim op.path [
    | [] ↦ rec
    | key ∷ rest ↦ elim op.payload [
      | none ↦ rec
      | some payload ↦
          if at_least (get_record_version rec (key ∷ rest)) version
          then rec
          else if blocks_set (get_path rec (key ∷ rest))
          then rec
          else pull_from_set rec (key ∷ rest) payload
    ]
  ]

  -- The delta of an increment: the payload, when it is a number.
  unfoldable pub delta_of : Option Value → Option Number
  delta_of none = none
  delta_of (some v) = elim (view v) [ number n ↦ some n | _ ↦ none ]

  abbrev pub add_delta : Value → FieldPath → Number → Value
  add_delta rec path delta = set_nested rec path (new_number (add (get_number rec path) delta))

  unfoldable pub apply_inc : Value → VersionId → Op Value → Value
  unfolding delta_of blocks_number
  apply_inc rec version op = elim op.path [
    | [] ↦ rec
    | key ∷ rest ↦ elim (delta_of op.payload) [
      | none ↦ rec
      | some delta ↦
          if at_least (get_record_version rec (key ∷ rest)) version
          then rec
          else if blocks_number (get_path rec (key ∷ rest))
          then rec
          else add_delta rec (key ∷ rest) delta
    ]
  ]

  unfoldable pub apply_inc_gated : Value → VersionId → Op Value → Value
  unfolding delta_of blocks_number
  apply_inc_gated rec version op = elim op.path [
    | [] ↦ rec
    | key ∷ rest ↦ elim (delta_of op.payload) [
      | none ↦ rec
      | some delta ↦
          if at_least (get_record_version rec (key ∷ rest)) version
          then rec
          else if blocks_number (get_path rec (key ∷ rest))
          then rec
          else set_record_version (add_delta rec (key ∷ rest) delta) version (key ∷ rest)
    ]
  ]

  unfoldable pub apply_op : Value → VersionId → Op Value → Value
  unfolding apply_set apply_unset apply_add_to_set apply_pull apply_inc apply_inc_gated
  apply_op rec version op = elim op.type [
    | OpType.set ↦ apply_set rec version op
    | OpType.unset ↦ apply_unset rec version op
    | OpType.add_to_set ↦ apply_add_to_set rec version op
    | OpType.pull ↦ apply_pull rec version op
    | OpType.inc ↦ apply_inc rec version op
    | OpType.inc_gated ↦ apply_inc_gated rec version op
    | OpType.delete ↦ rec
  ]
