-- ===== src/Subscribe/Event.antt =====
-- internal/subscribe/event.go, BuildEvent to lookupPath: what an applied change ships to the subscriptions.
-- An op of the wire (space.EventOp) has the fields of an op of a change.
pub mod Replays
use any_sync_sdk.Base.{
  ℕ, suc, String, Bool, true, false, ◌&&◌, ◌||◌, List, [], ◌∷◌, ◌++◌, Option, none, some, ◌==◌,
  if◌then◌else◌,
}
use any_sync_sdk.Anyenc.{Anyenc, get_path}
use any_sync_sdk.Crdt.Op.{Op, OpType, RecordChange, Change}
use any_sync_sdk.Crdt.Versions.{VersionId, versions_key, id_field}
use any_sync_sdk.Crdt.Lifecycle.{has_delete}
use any_sync_sdk.Subscribe.Sub.{EventRecord}

pub record Event (O : Type 0) : Type 0 where
  pub space_id : String
  pub object_id : String
  pub dataset : String
  pub version_id : VersionId
  pub records : List (EventRecord O)

module _ ⦃E : Anyenc⦄ where
  open E use {Value, copy}

  abbrev pub clone : Option Value → Option Value
  clone none = none
  clone (some v) = some (copy v)

  unfoldable pub lookup_path : Option Value → List String → Option Value
  lookup_path none path = none
  lookup_path (some v) path = get_path v path

  -- The value after the apply as a $set, or a $unset where there is none.
  abbrev pub post_op : List String → Option Value → Op Value
  post_op path none = record { type = OpType.unset; path = path; payload = none }
  post_op path (some v) = record { type = OpType.set; path = path; payload = some (copy v) }

  -- None for a delete, which the record's flag stands for.
  unfoldable pub project_op : Op Value → Option Value → Option (Op Value)
  unfolding lookup_path
  project_op op post = elim op.type [
    | OpType.delete ↦ none
    | OpType.set ↦ some (record { type = op.type; path = op.path; payload = clone op.payload })
    | OpType.unset ↦ some (record { type = op.type; path = op.path; payload = clone op.payload })
    | _ ↦ some (post_op op.path (lookup_path post op.path))
  ]

  unfoldable pub is_creation_marker : Op Value → Bool
  is_creation_marker op = elim op.type [
    | OpType.set ↦ elim op.path [
      | [] ↦ false
      | key ∷ rest ↦ elim rest [
        | [] ↦ false
        | next ∷ more ↦ elim more [
          | [] ↦ (key == versions_key) && (next == id_field)
          | _ ∷ _ ↦ false
        ]
      ]
    ]
    | _ ↦ false
  ]

  abbrev pub add_op : Option (Op Value) → List (Op Value) → List (Op Value)
  add_op none ops = ops
  add_op (some op) ops = op ∷ ops

  unfoldable pub project_ops : List (Op Value) → Option Value → List (Op Value)
  unfolding project_op
  project_ops [] post = []
  project_ops (op ∷ ops) post = add_op (project_op op post) (project_ops ops post)

  -- The derived ops: whether the creation marker is among them, and the others.
  unfoldable pub project_derived : List (Op Value) → Option Value → Bool × List (Op Value)
  unfolding is_creation_marker project_op
  project_derived [] post = (false, [])
  project_derived (op ∷ ops) post =
      let (created, rest) = project_derived ops post in
      if is_creation_marker op then (true, rest) else (created, add_op (project_op op post) rest)

  -- One record, with the id that it was stored under (empty: none given).
  unfoldable pub project_record :
      RecordChange Value → String → List (Op Value) → Option Value → EventRecord (Op Value)
  unfolding project_ops project_derived
  project_record rc stored derived post =
      let id = if stored == "" then rc.id else stored in
      let (created, extra) = project_derived derived post in
      if has_delete rc.ops
      then record { id = id; created = false; deleted = true; ops = [] }
      else record {
        id = id;
        created = created;
        deleted = false;
        ops = project_ops rc.ops post ++ extra;
      }

  abbrev pub first_id : List String → String
  first_id [] = ""
  first_id (id ∷ _) = id

  abbrev pub first_ops : List (List (Op Value)) → List (Op Value)
  first_ops [] = []
  first_ops (ops ∷ _) = ops

  abbrev pub tail_of : {A : Type 0} → List A → List A
  tail_of [] = []
  tail_of (_ ∷ xs) = xs

  -- The records from index `i` on, with what is left of their ids and of the derived ops; `post` gives
  -- the record after the apply by its index.
  unfoldable pub project_records :
      (ℕ → Option Value)
      → ℕ
      → List (RecordChange Value)
      → List String
      → List (List (Op Value))
      → List (EventRecord (Op Value))
  unfolding project_record
  project_records post i [] ids derived = []
  project_records post i (rc ∷ records) ids derived =
      project_record rc (first_id ids) (first_ops derived) (post i)
      ∷ project_records post (suc i) records (tail_of ids) (tail_of derived)

  unfoldable pub build_event :
      Change Value → List String → List (List (Op Value)) → (ℕ → Option Value) → Event (Op Value)
  unfolding project_records
  build_event ch ids derived post = record {
    space_id = ch.space_id;
    object_id = ch.object_id;
    dataset = ch.dataset;
    version_id = ch.version_id;
    records = project_records post 0 ch.records ids derived;
  }
