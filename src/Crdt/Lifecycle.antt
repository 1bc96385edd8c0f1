-- ===== src/Crdt/Lifecycle.antt =====
-- internal/crdt/apply.go: the life of a record, from its creation marker and sequence stamps to its
-- tombstone.
pub mod Marker
pub mod Stamps
use any_sync_sdk.Base.{
  ℕ, ◌*◌, String, Bool, true, false, List, [], ◌∷◌, Option, none, some, less, leb, eqb, ◌==◌,
  if◌then◌else◌,
}
use any_sync_sdk.Anyenc.{Anyenc, View, object, string, number}
use any_sync_sdk.Crdt.Op
use any_sync_sdk.Crdt.Op.{Op, Change, OpType}
use any_sync_sdk.Crdt.Versions.{VersionId, versions_key, default_key, id_field}

abbrev pub deleted_at_field : String
deleted_at_field = "_deletedAt"

abbrev pub add_seq_field : String
add_seq_field = "_addSeq"

abbrev pub apply_seq_field : String
apply_seq_field = "_applySeq"

abbrev pub object_id_field : String
object_id_field = "_objectId"

abbrev pub traces_key : String
traces_key = "_traces"

module _ ⦃E : Anyenc⦄ where
  open E use {
    Value, view, get, put, copy, to_int, of_int, new_object, new_string, new_number, new_date_time,
  }

  -- The stamp that a record holds under a field, when it is a number.
  abbrev pub stamp_of : Value → String → Option ℕ
  stamp_of rec field = elim (get rec field) [
    | none ↦ none
    | some cur ↦ elim (view cur) [ number n ↦ some (to_int n) | _ ↦ none ]
  ]

  abbrev pub stamp : String → Value → ℕ → Value
  stamp field rec seq = if eqb seq 0 then rec else elim (stamp_of rec field) [
    | none ↦ put rec field (new_number (of_int seq))
    | some cur ↦ if leb seq cur then rec else put rec field (new_number (of_int seq))
  ]

  unfoldable pub stamp_add_seq : Value → ℕ → Value
  stamp_add_seq rec add_seq = stamp add_seq_field rec add_seq

  unfoldable pub stamp_apply_seq : Value → ℕ → Value
  stamp_apply_seq rec apply_seq = stamp apply_seq_field rec apply_seq

  unfoldable pub new_record : String → VersionId → Value
  new_record id version =
      put (put new_object id_field (new_string id)) versions_key
        (put new_object id_field (new_string version))

  -- The creation marker `_ver.id` of a record, empty when there is none.
  unfoldable pub creation_marker : Option Value → VersionId
  creation_marker none = ""
  creation_marker (some rec) = elim (get rec versions_key) [
    | none ↦ ""
    | some v ↦ elim (get v id_field) [
      | none ↦ ""
      | some marker ↦ elim (view marker) [ string s ↦ s | _ ↦ "" ]
    ]
  ]

  abbrev pub carry_traces : Option Value → Value → Value
  carry_traces none tomb = tomb
  carry_traces (some rec) tomb = elim (get rec traces_key) [
    | none ↦ tomb
    | some t ↦ elim (view t) [ object ↦ put tomb traces_key (copy t) | _ ↦ tomb ]
  ]

  unfoldable pub tombstone_versions : VersionId → VersionId → Value
  tombstone_versions marker version =
      put (put new_object id_field (new_string (if marker == "" then version else marker)))
        default_key (new_string version)

  unfoldable pub new_tombstone : String → Change Value → Option Value → Value
  unfolding creation_marker tombstone_versions stamp_add_seq stamp_apply_seq
  new_tombstone id ch existing =
      let tomb =
        put
          (put (put new_object id_field (new_string id)) deleted_at_field
            (new_date_time (ch.timestamp * 1000)))
          versions_key (tombstone_versions (creation_marker existing) ch.version_id) in
      stamp_apply_seq (stamp_add_seq (carry_traces existing tomb) ch.add_seq) ch.apply_seq

  -- The `_ver` object that the marker is written to.
  abbrev pub marker_node : Value → Value
  marker_node rec = elim (get rec versions_key) [
    | none ↦ new_object
    | some ver ↦ elim (view ver) [ object ↦ ver | _ ↦ new_object ]
  ]

  -- The record and whether its marker changed.
  unfoldable pub lower_creation_marker : Value → VersionId → Value × Bool
  lower_creation_marker rec version =
      let ver = marker_node rec in
      let lowered = put rec versions_key (put ver id_field (new_string version)) in
      elim (get ver id_field) [
        | none ↦ (lowered, true)
        | some cur ↦ elim (view cur) [
          | string s ↦ if less version s then (lowered, true) else (rec, false)
          | _ ↦ (lowered, true)
        ]
      ]

  unfoldable pub has_delete : List (Op Value) → Bool
  has_delete [] = false
  has_delete (op ∷ ops) = elim op.type [ OpType.delete ↦ true | _ ↦ has_delete ops ]

  unfoldable pub is_tombstone : Option Value → Bool
  is_tombstone none = false
  is_tombstone (some rec) = elim (get rec deleted_at_field) [ none ↦ false | some _ ↦ true ]
