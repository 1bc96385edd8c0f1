-- ===== src/Tests/Records.antt =====
-- The theorems on records, applied at concrete documents.
use any_sync_sdk.Base.{
  String, ◌≡◌, refl, true, false, List, [], ◌∷◌, ◌++◌, Option, none, some, arith, eq_iff, All, less,
  if◌then◌else◌, ◌==◌, inl, ◌⊎◌,
}
use any_sync_sdk.Crdt.Op.{OpType, RecordChange, Change}
use any_sync_sdk.Crdt.Versions.{set_node, get_version, gate_version}
use any_sync_sdk.Crdt.Versions.Lookup.{get_version-set_node, get_version-set_node_ne}
use any_sync_sdk.Crdt.Apply.Register.{slot, IsRegister}
use any_sync_sdk.Crdt.Apply.Gates.{IsRecord}
use any_sync_sdk.Crdt.Apply.Replay.{Write, Fits, lww_all, replay, slot-replay, newest_write_wins}
use any_sync_sdk.Crdt.Lifecycle.{
  stamp_of, stamp_add_seq, stamp_apply_seq, has_delete, is_tombstone, add_seq_field,
  apply_seq_field,
}
use any_sync_sdk.Crdt.Lifecycle.Marker.{marker_of}
use any_sync_sdk.Crdt.Modifier.Upserts.{smallest, upserts_comm}
use any_sync_sdk.Crdt.Lifecycle.Stamps.{raised, stamps_raise}
use any_sync_sdk.Crdt.Traces.{update_traces}
use any_sync_sdk.Crdt.Traces.Held.{Holds}
use any_sync_sdk.Crdt.Traces.Collected.{trace_at, own_trace, trace_at-update_traces}
use any_sync_sdk.Crdt.Hooks.{Handler}
use any_sync_sdk.Crdt.Modifier.{modify}
use any_sync_sdk.Crdt.Modifier.Sticky.{stored, IsPayload}
use any_sync_sdk.Crdt.Modifier.Deleted.{IsDead, Job, run_jobs, run_jobs-IsDead}
use any_sync_sdk.Crdt.Modifier.Burial.{HasMarker, GraveVersions, modify_deletes}
use any_sync_sdk.Tests.Json.{get_json, Json, str, obj, date, date, end, field, json}

-- { id: r1, title: Old, _ver: { id: a1, title: b1 } }
abbrev pub versions : Json
versions = obj (field "id" (str "a1") (field "title" (str "b1") end))

abbrev pub note : Json
note = obj (field "id" (str "r1") (field "title" (str "Old") (field "_ver" versions end)))

abbrev pub write : String → String → Option Json → Write Json
write key version value = record { key = key; rest = []; version = version; value = value }

abbrev pub newest : Write Json
newest = write "title" "d1" (some (str "New"))

abbrev pub early : List (Write Json)
early = write "body" "e1" (some (str "text")) ∷ []

abbrev pub late : List (Write Json)
late = write "title" "c1" none ∷ []

pub note-IsRecord : IsRecord note
note-IsRecord = (refl, λ o e. ground arith)

pub note-Fits : All (Fits "title" []) (early ++ newest ∷ late)
note-Fits = (
  record {
    not_versions = ground (arith, eq_iff "body" "_ver");
    not_default = ground (arith, eq_iff "body" "*");
    same = λ e. refl;
  },
  (
    record {
      not_versions = ground (arith, eq_iff "title" "_ver");
      not_default = ground (arith, eq_iff "title" "*");
      same = λ e. refl;
    },
    (
      record {
        not_versions = ground (arith, eq_iff "title" "_ver");
        not_default = ground (arith, eq_iff "title" "*");
        same = λ e. refl;
      },
      tt,
    ),
  ),
)

pub note_title : IsRegister note ("title" ∷ [])
unfolding gate_version
note_title = refl

newest_write_wins_example :
    slot (replay note (early ++ newest ∷ late)) ("title" ∷ []) ≡ ("d1", some (str "New"))
newest_write_wins_example =
    newest_write_wins note early late newest note-IsRecord note_title note-Fits
      (ground (arith, eq_iff "title" "_ver")) (unfold gate_version less in refl)
      ((λ e. ground (arith, eq_iff "body" "title")), tt) ((λ e. unfold less in refl), tt)

slot-replay_example :
    (slot (replay note (early ++ newest ∷ late)) ("title" ∷ [])
      ≡ lww_all "title" (slot note ("title" ∷ [])) (early ++ newest ∷ late))
    × IsRegister (replay note (early ++ newest ∷ late)) ("title" ∷ [])
slot-replay_example =
    slot-replay note "title" [] (early ++ newest ∷ late) note-IsRecord
      (ground (arith, eq_iff "title" "_ver")) note_title note-Fits

-- { body: a, *: d }
abbrev tree : Json
tree = obj (field "body" (str "a") (field "*" (str "d") end))

get_version-set_node_example :
    get_version (set_node tree (str "e") ("body" ∷ "text" ∷ [])) ("body" ∷ "text" ∷ "x" ∷ [])
    ≡ get_version (str "e") ("x" ∷ [])
get_version-set_node_example =
    get_version-set_node tree (str "e") "body" ("text" ∷ []) ("x" ∷ []) refl

get_version-set_node_ne_example :
    get_version (set_node tree (str "e") ("body" ∷ "text" ∷ [])) ("body" ∷ "mark" ∷ [])
    ≡ get_version tree ("body" ∷ "mark" ∷ [])
get_version-set_node_ne_example =
    get_version-set_node_ne tree (str "e") ("body" ∷ []) "text" "mark" [] [] refl
      (ground (arith, eq_iff "body" "*"), tt) (ground (arith, eq_iff "text" "*"))
      (ground (arith, eq_iff "mark" "*")) (ground (arith, eq_iff "text" "mark"))

stamps_raise_example :
    (stamp_of (stamp_add_seq note 7) add_seq_field ≡ raised (stamp_of note add_seq_field) 7)
    × (stamp_of (stamp_apply_seq note 7) apply_seq_field ≡ raised (stamp_of note apply_seq_field) 7)
stamps_raise_example = stamps_raise note 7 refl (omega arith)

abbrev edit : Change Json
edit = record {
  space_id = "s";
  object_id = "o";
  dataset = "notes";
  change_id = "c";
  version_id = "b1";
  add_seq = 3;
  prev_ids = [];
  apply_seq = 4;
  records = [];
  data_version = "";
  timestamp = 100;
  creator = "ann";
  trace_ids = "t1" ∷ [];
  local = false;
  injected = false;
}

trace_at-update_traces_example :
    (Holds "b1" versions
      × (trace_at (update_traces note edit) "b1"
          ≡ (if edit.version_id == "b1" then own_trace edit.trace_ids else trace_at note "b1")))
    ⊎ ((¬ Holds "b1" versions) × (trace_at (update_traces note edit) "b1" ≡ none))
trace_at-update_traces_example = trace_at-update_traces note versions edit "b1" refl refl

-- A handler that lets everything pass.
abbrev pub lenient : Handler Json
lenient = record {
  before_create = λ ch rc sink. (sink, none);
  before_modify = λ ch rec rc op sink. (sink, none);
  before_delete = λ ch rec rc sink. (sink, none);
}

abbrev removal : RecordChange Json
removal = record {
  id = "r1";
  ops = record { type = OpType.delete; path = []; payload = none } ∷ [];
  upsert = false;
}

abbrev revival : RecordChange Json
revival = record {
  id = "r1";
  ops = record { type = OpType.set; path = "title" ∷ []; payload = some (str "Back") } ∷ [];
  upsert = true;
}

note_marker : HasMarker note "a1"
note_marker = (versions, str "a1", refl, refl, refl, ground (arith, eq_iff "a1" ""))

modify_deletes_example :
    IsDead (stored note (modify lenient edit "r1" removal "" note))
    × ((ver : Json) × (get_json (stored note (modify lenient edit "r1" removal "" note)) "_ver"
          ≡ some ver)
        × GraveVersions ver "a1" "b1")
modify_deletes_example =
    modify_deletes lenient edit "r1" removal "" note "a1" (unfold has_delete in refl)
      (unfold is_tombstone in refl) refl (inl note_marker)

abbrev grave : Json
grave = obj (field "id" (str "r1") (field "_deletedAt" (date 100) (field "_ver" versions end)))

grave-IsDead : IsDead grave
unfolding is_tombstone
grave-IsDead = record { is_object = refl; deleted = refl; versions = (versions, refl) }

abbrev jobs : List Job
jobs =
    Job.change lenient edit "r1" revival ""
    ∷ Job.sibling edit "r1" revival ""
    ∷ Job.change lenient edit "r1" removal ""
    ∷ []

run_jobs-IsDead_example :
    IsDead (run_jobs jobs grave)
    × ((k : String) → IsPayload k → get_json (run_jobs jobs grave) k ≡ get_json grave k)
run_jobs-IsDead_example = run_jobs-IsDead jobs grave grave-IsDead

abbrev earlier : Change Json
earlier = record edit { version_id = "Z1" }

upserts_comm_example :
    (marker_of (
        stored (stored grave (modify lenient edit "r1" revival "" grave)) (
          modify lenient earlier "r1" revival ""
            (stored grave (modify lenient edit "r1" revival "" grave))))
      ≡ some (smallest grave "b1" "Z1"))
    × (marker_of (
          stored (stored grave (modify lenient earlier "r1" revival "" grave)) (
            modify lenient edit "r1" revival ""
              (stored grave (modify lenient earlier "r1" revival "" grave))))
        ≡ some (smallest grave "b1" "Z1"))
upserts_comm_example =
    upserts_comm lenient edit earlier "r1" revival revival "" grave grave-IsDead refl refl
