-- ===== src/SpaceSync.antt =====
-- internal/spacesync and the rows of a space in internal/crdt/meta.go: the catch-up pass at the start,
-- the watermark that it leaves, and the sweep of deletions. any-sync's head store and the store of
-- objects are arguments, `Calls`: what each call answers, none for an error. A missing row of the
-- metadata reads as zeros; a number that is written is read back, as below 2^53 it is.
pub mod Watermark
pub mod Complete
pub mod Checksum
use any_sync_sdk.Base.{
  sort, ℕ, ◌≤◌, String, Bool, true, false, not, ◌&&◌, ◌||◌, Option, none, some, List, [], ◌∷◌, ◌++◌,
  ◌==◌, less, leb, ltb, eqb, if◌then◌else◌,
}
use Prim.Native.String.{◌++◌ as append}

-- The metadata row of a space, as far as the passes write it.
pub record SpaceMeta : Type 0 where
  pub max_add_seq : ℕ
  pub deleted_head : String
  pub reconcile_ver : ℕ

pub data DeletedStatus : Type 0 where
  not_deleted : DeletedStatus
  queued : DeletedStatus
  deleted : DeletedStatus

pub record HeadsEntry : Type 0 where
  pub id : String
  pub last_add_seq : ℕ
  pub deleted_status : DeletedStatus

-- What the calls of a pass answer.
pub record Calls : Type 0 where
  pub collection : Bool
  pub load_meta : Bool
  pub get_space : Bool
  pub max_last_add_seq : Option ℕ
  -- the entries of the iteration, by the bound MinLastAddSeq
  pub iterate : ℕ → Option (List HeadsEntry)
  pub iterate_deleted : Option (List HeadsEntry)
  pub is_tree_skipped : String → Option Bool
  -- whether `store.Get` of a tree succeeds
  pub get : String → Bool
  pub persist : Bool
  -- the heads of the settings tree: an error, none where it is not in the store
  pub settings_heads : Option (Option (List String))
  pub purge : List String → Bool

pub data SyncError : Type 0 where
  open_meta : SyncError
  load_watermark : SyncError
  get_space : SyncError
  max_add_seq : SyncError
  iterate_entries : SyncError
  persist_watermark : SyncError
  load_gate : SyncError
  settings_head : SyncError
  iterate_deleted : SyncError
  purge_objects : SyncError
  persist_gate : SyncError

-- A pass: the row it leaves, the objects it loads or purges, and its error.
pub record Pass : Type 0 where
  pub row : SpaceMeta
  pub objects : List String
  pub err : Option SyncError

abbrev pub fail : SyncError → SpaceMeta → Pass
fail e row = record { row = row; objects = []; err = some e }

abbrev pub done : SpaceMeta → Pass
done row = record { row = row; objects = []; err = none }

abbrev pub is_not_deleted : DeletedStatus → Bool
is_not_deleted not_deleted = true
is_not_deleted queued = false
is_not_deleted deleted = false

abbrev pub is_deleted : DeletedStatus → Bool
is_deleted not_deleted = false
is_deleted queued = false
is_deleted deleted = true

unfoldable pub to_load : List HeadsEntry → List String
to_load [] = []
to_load (e ∷ es) =
    let rest = to_load es in if is_not_deleted e.deleted_status then e.id ∷ rest else rest

-- A load is tried unless the tree is known to be skipped.
abbrev pub known_skipped : Option Bool → Bool
known_skipped none = false
known_skipped (some b) = b

-- The trees whose load succeeds; a load that fails does not halt the pass.
unfoldable pub loaded : Calls → List String → List String
loaded c [] = []
loaded c (id ∷ ids) =
    let rest = loaded c ids in
    if known_skipped (c.is_tree_skipped id) then rest else if c.get id then id ∷ rest else rest

unfoldable pub persist_space_max_add_seq : ℕ → SpaceMeta → SpaceMeta
persist_space_max_add_seq seq row = record {
  max_add_seq = seq;
  deleted_head = row.deleted_head;
  reconcile_ver = row.reconcile_ver;
}

-- The two phases of a pass beyond the watermark, from the snapshot on.
unfoldable pub catch_up : Calls → ℕ → Option (List HeadsEntry) → SpaceMeta → Pass
catch_up c snapshot none row = fail iterate_entries row
catch_up c snapshot (some entries) row =
    let ids = loaded c (to_load entries) in
    if c.persist
    then record { row = persist_space_max_add_seq snapshot row; objects = ids; err = none }
    else record { row = row; objects = ids; err = some persist_watermark }

unfoldable pub from_snapshot : Calls → Option ℕ → SpaceMeta → Pass
from_snapshot c none row = fail max_add_seq row
from_snapshot c (some snapshot) row =
    if leb snapshot row.max_add_seq
    then done row
    else catch_up c snapshot (c.iterate row.max_add_seq) row

unfoldable pub run : Calls → SpaceMeta → Pass
run c row =
    if not c.collection
    then fail open_meta row
    else if not c.load_meta
    then fail load_watermark row
    else if not c.get_space
    then fail get_space row
    else from_snapshot c c.max_last_add_seq row

-- The flag is whether the watermark advanced.
unfoldable pub persist_watermark_if_ahead : Calls → ℕ → SpaceMeta → Pass × Bool
persist_watermark_if_ahead c snapshot row =
    if not c.load_meta
    then (fail load_watermark row, false)
    else if leb snapshot row.max_add_seq
    then (done row, false)
    else if c.persist
    then (done (persist_space_max_add_seq snapshot row), true)
    else (fail persist_watermark row, false)

unfoldable pub snapshot_watermark : Calls → SpaceMeta → Pass
snapshot_watermark c row =
    if not c.collection then fail open_meta row else elim c.max_last_add_seq [
      | none ↦ fail max_add_seq row
      | some snapshot ↦ (persist_watermark_if_ahead c snapshot row).0
    ]

-- strings.Join with a comma.
unfoldable pub join : List String → String
join [] = ""
join (x ∷ []) = x
join (x ∷ y ∷ xs) = append (append x ",") (join (y ∷ xs))

unfoldable pub settings_head_checksum : List String → String
settings_head_checksum heads = join (sort heads)

abbrev pub reconcile_version : ℕ
reconcile_version = 1

unfoldable pub deleted_ids : List HeadsEntry → List String
deleted_ids [] = []
deleted_ids (e ∷ es) =
    let rest = deleted_ids es in if is_deleted e.deleted_status then e.id ∷ rest else rest

unfoldable pub persist_space_deleted_gate : String → ℕ → SpaceMeta → SpaceMeta
persist_space_deleted_gate head ver row = record {
  max_add_seq = row.max_add_seq;
  deleted_head = head;
  reconcile_ver = ver;
}

unfoldable pub sweep : Calls → String → Option (List HeadsEntry) → SpaceMeta → Pass
sweep c cur none row = fail iterate_deleted row
sweep c cur (some entries) row =
    let ids = deleted_ids entries in
    if not (c.purge ids)
    then record { row = row; objects = ids; err = some purge_objects }
    else if c.persist
    then record {
      row = persist_space_deleted_gate cur reconcile_version row;
      objects = ids;
      err = none;
    }
    else record { row = row; objects = ids; err = some persist_gate }

unfoldable pub reconcile_heads : Calls → Option (Option (List String)) → SpaceMeta → Pass
reconcile_heads c none row = fail settings_head row
reconcile_heads c (some none) row = done row
reconcile_heads c (some (some heads)) row =
    let cur = settings_head_checksum heads in
    if leb reconcile_version row.reconcile_ver && row.deleted_head == cur
    then done row
    else sweep c cur c.iterate_deleted row

unfoldable pub reconcile_deletions : Calls → SpaceMeta → Pass
reconcile_deletions c row =
    if not c.collection
    then fail open_meta row
    else if not c.load_meta
    then fail load_gate row
    else if not c.get_space
    then fail get_space row
    else reconcile_heads c c.settings_heads row
