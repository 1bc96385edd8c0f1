-- ===== src/Subscribe/Sub.antt =====
-- internal/subscribe/sub.go: what an event does to one subscription. A document is a value of the type
-- `D` and its clone is the same value; the sort key and the filter of the query (any-store's package
-- query) are functions of the configuration; a limit of 0 is any that is not positive. The outcome of
-- the mailbox's TryAdd (the package mb) is an argument. A sentinel's id is none where the source
-- writes "", which is no id of a record: apply and appendInitial pass such records over.
pub mod Transition
use any_sync_sdk.Base.{
  ℕ, suc, ◌+◌, ◌*◌, String, Bool, true, false, not, ◌&&◌, ◌||◌, Option, none, some, List, [], ◌∷◌,
  ◌++◌, ◌==◌, ltb, leb, eqb, length, if◌then◌else◌,
}
use any_sync_sdk.Dict.{Dict, lookup, string_key}
use any_sync_sdk.Subscribe.Tuple.{Tuple, tuple_less}
use any_sync_sdk.Subscribe.Window.{
  Entry, Window, ensure_max_ref, insert_entry, update_entry, remove_entry,
}

pub record SubConfig (D : Type 0) : Type 0 where
  pub limit : ℕ
  pub drift_budget : ℕ
  pub filter : Option (D → Bool)
  pub sort_key : D → Tuple

pub data SubscriptionError : Type 0 where
  overflow : SubscriptionError
  drifted : SubscriptionError
  -- the reason that CloseObject gives
  object_closed : SubscriptionError

pub record QuerySub (D : Type 0) : Type 0 where
  pub cfg : SubConfig D
  pub window : Window D
  pub lost : ℕ
  pub closed : Bool
  pub err : Option SubscriptionError

pub data RemoveReason : Type 0 where
  deleted_reason : RemoveReason
  filtered_out : RemoveReason
  displaced : RemoveReason

pub record EventRecord (O : Type 0) : Type 0 where
  pub id : String
  pub created : Bool
  pub deleted : Bool
  pub ops : List O

-- A pending record, by the id of its entry, which is what the event ships of it.
pub record PendingRec (D O : Type 0) : Type 0 where
  pub id : String
  pub doc : Option D
  pub ops : List O

pub record Pending (D O : Type 0) : Type 0 where
  pub added : List (PendingRec D O)
  pub updated : List (PendingRec D O)
  pub removed : List (String × RemoveReason)
  pub seen : List String

-- What TryAdd of the mailbox answers.
pub data TryAdd : Type 0 where
  accepted : TryAdd
  overflowed : TryAdd
  failed : TryAdd

abbrev pub member : String → List String → Bool
member x [] = false
member x (y ∷ ys) = x == y || member x ys

abbrev pub same_id : Option String → Option String → Bool
same_id none none = true
same_id (some a) (some b) = a == b
same_id _ _ = false

module _ {D : Type 0} where
  abbrev pub with_window : Window D → QuerySub D → QuerySub D
  with_window w s = record {
    cfg = s.cfg;
    window = w;
    lost = s.lost;
    closed = s.closed;
    err = s.err;
  }

  unfoldable pub windowed : QuerySub D → Bool
  windowed s = ltb 0 s.cfg.limit

  unfoldable pub held : QuerySub D → D → Option D
  held s doc = if windowed s then some doc else none

  unfoldable pub tuple_for : QuerySub D → D → Tuple
  tuple_for s doc = if windowed s then s.cfg.sort_key doc else []

  unfoldable pub at_capacity : QuerySub D → Bool
  at_capacity s = ltb 0 s.cfg.limit && eqb (length s.window.entries) (s.cfg.limit + 1)

  unfoldable pub append_initial : String → Option D → QuerySub D → QuerySub D
  append_initial id none s = s
  append_initial id (some doc) s =
      if id == ""
      then s
      else with_window (insert_entry id (tuple_for s doc) (held s doc) s.window) s

  unfoldable pub release : QuerySub D → QuerySub D
  release s = with_window (record { entries = []; min_ref = none; max_ref = none }) s

  -- sentinel: the subscription once the boundary is known, and the entry.
  unfoldable pub settle : QuerySub D → QuerySub D
  settle s = if at_capacity s then with_window (ensure_max_ref s.window) s else s

  unfoldable pub settled_sentinel : QuerySub D → Option (Entry D)
  settled_sentinel s = if at_capacity s then s.window.max_ref else none

  unfoldable pub sentinel : QuerySub D → QuerySub D × Option (Entry D)
  sentinel s = let s1 = settle s in (s1, settled_sentinel s1)

  abbrev pub id_of : Option (Entry D) → Option String
  id_of none = none
  id_of (some e) = some e.id

  -- Held, and not the sentinel.
  abbrev pub is_visible : Option (Entry D) → Option String → Bool
  is_visible none s = false
  is_visible (some e) s = not (same_id (some e.id) s)

  unfoldable pub filter_ok : QuerySub D → D → Bool
  filter_ok s doc = elim s.cfg.filter [ none ↦ true | some f ↦ f doc ]

  -- At capacity, a record that is not held and does not sort before the sentinel cannot enter.
  unfoldable pub fast_reject : D → QuerySub D → Bool
  fast_reject doc s = elim (settled_sentinel s) [
    | none ↦ false
    | some m ↦ not (tuple_less (tuple_for s doc) m.tuple)
  ]

  -- Make room at capacity, by the sentinel.
  unfoldable pub make_room : Option (Entry D) → QuerySub D → QuerySub D
  make_room none s = s
  make_room (some m) s = with_window (remove_entry m s.window) s

  unfoldable pub evict : QuerySub D → QuerySub D
  evict s = make_room (settled_sentinel s) s

  unfoldable pub admit : String → D → QuerySub D → QuerySub D
  admit id doc s =
      let s1 = evict s in with_window (insert_entry id (tuple_for s doc) (held s doc) s1.window) s1

  unfoldable pub lose : Entry D → QuerySub D → QuerySub D
  lose e s = record {
    cfg = s.cfg;
    window = remove_entry e s.window;
    lost = s.lost + 1;
    closed = s.closed;
    err = s.err;
  }

  unfoldable pub refresh : Entry D → D → QuerySub D → QuerySub D
  refresh e doc s = with_window (update_entry e (tuple_for s doc) (held s doc) s.window) s

  -- The transition of the held set, on a subscription whose sentinel is settled: none where the record
  -- is passed over.
  unfoldable pub transition :
      Option (Entry D) → Option D → String → QuerySub D → Option (QuerySub D × Option D)
  transition (some e) none id s = some (lose e s, none)
  transition (some e) (some doc) id s =
      if filter_ok s doc then some (refresh e doc s, some doc) else some (lose e s, none)
  transition none none id s = none
  transition none (some doc) id s =
      if fast_reject doc s
      then none
      else if filter_ok s doc
      then some (admit id doc s, some doc)
      else none
