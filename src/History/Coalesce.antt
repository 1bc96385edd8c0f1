-- ===== src/History/Coalesce.antt =====
-- internal/history/coalesce.go: runs of changes of one author collapse into one entry of the list. The
-- author's clock is a number of seconds from 0 on; a window of 0 is any that is not positive. The loop
-- over the page runs on fuel, the length of the page, which is enough by the theorem on its groups.
pub mod Groups
pub mod Union
use Prim.Native.Nat.{◌%◌}
use any_sync_sdk.Base.{
  ℕ, zero, suc, ◌+◌, ◌-◌, ◌*◌, String, Bool, true, false, not, ◌&&◌, ◌||◌, Option, none, some, List,
  [], ◌∷◌, ◌++◌, ◌==◌, ltb, leb, eqb, length, map, if◌then◌else◌,
}
use any_sync_sdk.Dict.{Dict, lookup, insert, string_key}

pub record TouchedRecord : Type 0 where
  pub dataset : String
  pub record_id : String
  pub ops : List String

pub record ChangeMeta : Type 0 where
  pub version : String
  pub object_id : String
  pub author : String
  pub timestamp : ℕ
  pub dataset : String
  pub trace_ids : List String
  pub touched : List TouchedRecord
  pub prev_ids : List String
  pub order_id : String
  pub truncated : Bool
  pub group_size : ℕ

-- 5 minutes in nanoseconds
abbrev pub default_coalesce_window : ℕ
default_coalesce_window = 300000000000

abbrev pub contains : String → List String → Bool
contains x [] = false
contains x (y ∷ ys) = y == x || contains x ys

unfoldable pub union_strings : List String → List String → List String
union_strings dst [] = dst
union_strings dst (s ∷ add) = union_strings (if contains s dst then dst else dst ++ s ∷ []) add

unfoldable pub traces_from : List String → List ChangeMeta → List String
traces_from out [] = out
traces_from out (e ∷ group) = traces_from (union_strings out e.trace_ids) group

unfoldable pub union_traces : List ChangeMeta → List String
union_traces group = traces_from [] group

abbrev pub same_record : TouchedRecord → TouchedRecord → Bool
same_record a b = a.dataset == b.dataset && a.record_id == b.record_id

-- The record joins its entry, or becomes the last one.
unfoldable pub touch : TouchedRecord → List TouchedRecord → List TouchedRecord
touch tr [] = tr ∷ []
touch tr (t ∷ out) =
    if same_record t tr
    then record { dataset = t.dataset; record_id = t.record_id; ops = union_strings t.ops tr.ops }
      ∷ out
    else t ∷ touch tr out

unfoldable pub touch_all : List TouchedRecord → List TouchedRecord → List TouchedRecord
touch_all [] out = out
touch_all (tr ∷ trs) out = touch_all trs (touch tr out)

unfoldable pub touched_from : List TouchedRecord → List ChangeMeta → List TouchedRecord
touched_from out [] = out
touched_from out (e ∷ group) = touched_from (touch_all e.touched out) group

unfoldable pub union_touched : List ChangeMeta → List TouchedRecord
union_touched group = touched_from [] group

-- How many entries of the page refer to a change as a parent.
abbrev pub refs_of : String → Dict String ℕ → ℕ
refs_of p refs = elim (lookup p refs) [ some n ↦ n | none ↦ 0 ]

unfoldable pub count_refs : List String → Dict String ℕ → Dict String ℕ
count_refs [] refs = refs
count_refs (p ∷ ps) refs = count_refs ps (insert p (refs_of p refs + 1) refs)

unfoldable pub parent_refs : List ChangeMeta → Dict String ℕ → Dict String ℕ
parent_refs [] refs = refs
parent_refs (e ∷ entries) refs = parent_refs entries (count_refs e.prev_ids refs)

-- `time.Duration(delta)*time.Second <= window`, on an int64 that wraps around.
unfoldable pub within : ℕ → ℕ → ℕ → Bool
within a b window =
    let delta = if leb b a then a - b else b - a in
    let nanos = (delta * 1000000000) % 18446744073709551616 in
    leb 9223372036854775808 nanos || leb nanos window

unfoldable pub sole_parent : List String → String → Bool
sole_parent [] v = false
sole_parent (p ∷ []) v = p == v
sole_parent (p ∷ q ∷ ps) v = false

unfoldable pub chainable : ChangeMeta → ChangeMeta → ℕ → Bool
chainable newer older window =
    newer.author == older.author
    && sole_parent newer.prev_ids older.version
    && within newer.timestamp older.timestamp window

abbrev pub joins : Dict String ℕ → ℕ → ChangeMeta → ChangeMeta → Bool
joins refs window newer older =
    chainable newer older window && not (ltb 1 (refs_of older.version refs))

-- The older members that join the group of `newer`, and the rest of the page.
unfoldable pub extend :
    Dict String ℕ → ℕ → ChangeMeta → List ChangeMeta → List ChangeMeta × List ChangeMeta
extend refs window newer [] = ([], [])
extend refs window newer (older ∷ rest) =
    let (group, after) = extend refs window older rest in
    if joins refs window newer older then (older ∷ group, after) else ([], older ∷ rest)

-- A group is its head and the older members.
abbrev pub Group : Type 0
Group = ChangeMeta × List ChangeMeta

unfoldable pub groups : ℕ → Dict String ℕ → ℕ → List ChangeMeta → List Group
groups zero refs window entries = []
groups (suc fuel) refs window [] = []
groups (suc fuel) refs window (head ∷ entries) =
    let (group, after) = extend refs window head entries in
    (head, group) ∷ groups fuel refs window after

abbrev pub oldest : ChangeMeta → List ChangeMeta → ChangeMeta
oldest e [] = e
oldest e (x ∷ xs) = oldest x xs

-- The entry that stands for a group.
unfoldable pub represent : Group → ChangeMeta
represent (head, []) = head
represent (head, e ∷ es) = record {
  version = head.version;
  object_id = head.object_id;
  author = head.author;
  timestamp = head.timestamp;
  dataset = head.dataset;
  trace_ids = union_traces (head ∷ e ∷ es);
  touched = union_touched (head ∷ e ∷ es);
  prev_ids = (oldest e es).prev_ids;
  order_id = (oldest e es).order_id;
  truncated = head.truncated;
  group_size = length (head ∷ e ∷ es);
}

unfoldable pub window_of : ℕ → ℕ
window_of w = if ltb 0 w then w else default_coalesce_window

abbrev pub groups_of : List ChangeMeta → ℕ → List Group
groups_of entries w = groups (length entries) (parent_refs entries []) (window_of w) entries

unfoldable pub coalesce : List ChangeMeta → ℕ → List ChangeMeta
coalesce entries w = map represent (groups_of entries w)
