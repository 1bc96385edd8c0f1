-- ===== src/Subscribe/Engine.antt =====
-- internal/subscribe/engine.go: the table of live subscriptions. A querySub is a cell of `heap`, named by
-- its number; `subs` has the registered ones with their scopes. The mailbox capacity is left out; a
-- drift budget of 0 is any that is not positive. The closed flag and the counter are read under the
-- lock; the counter is an int64, which fewer than 2^63 calls do not exceed.
pub mod Counted
use Prim.Native.Nat.{◌%◌}
use any_sync_sdk.Base.{
  ℕ, suc, ◌+◌, ◌-◌, String, Bool, true, false, not, ◌&&◌, ◌||◌, Option, none, some, List, [], ◌∷◌,
  ◌==◌, ltb, eqb, if◌then◌else◌,
}
use any_sync_sdk.Dict.{Dict, lookup, insert, delete, values, string_key, number_key}
use any_sync_sdk.Subscribe.Window.{Window}
use any_sync_sdk.Subscribe.Scope.{
  Scope, Routed, Bucket, ScopeIndex, new_scope_index, or_empty, add, remove, matches,
}
use any_sync_sdk.Subscribe.Sub.{
  SubConfig, QuerySub, SubscriptionError, EventRecord, TryAdd, append_initial, release,
}
use any_sync_sdk.Subscribe.Apply.{apply, shut}

pub record Engine (D : Type 0) : Type 0 where
  pub heap : Dict ℕ (QuerySub D)
  pub subs : Dict ℕ Scope
  pub index : ScopeIndex
  pub next_id : ℕ
  pub counter : ℕ
  pub closed : Bool

pub data SubscribeError : Type 0 where
  limit_without_sort : SubscribeError
  engine_closed : SubscribeError
  snapshot_failed : SubscribeError

abbrev pub default_drift_budget : ℕ
default_drift_budget = 30

module _ {D : Type 0} where
  abbrev pub new_engine : Engine D
  new_engine = record {
    heap = [];
    subs = [];
    index = new_scope_index;
    next_id = 0;
    counter = 0;
    closed = false;
  }

  unfoldable pub has_subscribers : Engine D → Bool
  has_subscribers e = ltb 0 e.counter

  abbrev pub with_defaults : SubConfig D → SubConfig D
  with_defaults cfg = record {
    limit = cfg.limit;
    drift_budget = if eqb cfg.drift_budget 0 then default_drift_budget else cfg.drift_budget;
    filter = cfg.filter;
    sort_key = cfg.sort_key;
  }

  unfoldable pub populate : List (String × Option D) → QuerySub D → QuerySub D
  populate [] s = s
  populate ((id, doc) ∷ rows) s = populate rows (append_initial id doc s)

  abbrev pub new_sub : SubConfig D → QuerySub D
  new_sub cfg = record {
    cfg = cfg;
    window = record { entries = []; min_ref = none; max_ref = none };
    lost = 0;
    closed = false;
    err = none;
  }

  abbrev pub enter : Scope → QuerySub D → Engine D → Engine D
  enter scope s e =
      let id = (e.next_id + 1) % 18446744073709551616 in
      record {
        heap = insert id s e.heap;
        subs = insert id scope e.subs;
        index = add (record { id = id; scope = scope }) e.index;
        next_id = id;
        counter = e.counter + 1;
        closed = e.closed;
      }

  -- The snapshot is what its callback yields, none where it fails.
  unfoldable pub subscribe :
      Bool
      → SubConfig D
      → Scope
      → Option (List (String × Option D))
      → Engine D
      → Engine D × Option SubscribeError
  subscribe has_sort cfg scope none e =
      if ltb 0 cfg.limit && not has_sort
      then (e, some limit_without_sort)
      else if e.closed
      then (e, some engine_closed)
      else (e, some snapshot_failed)
  subscribe has_sort cfg scope (some rows) e =
      if ltb 0 cfg.limit && not has_sort
      then (e, some limit_without_sort)
      else if e.closed
      then (e, some engine_closed)
      else (enter scope (populate rows (new_sub (with_defaults cfg))) e, none)

  abbrev pub with_heap : Dict ℕ (QuerySub D) → Engine D → Engine D
  with_heap heap e = record {
    heap = heap;
    subs = e.subs;
    index = e.index;
    next_id = e.next_id;
    counter = e.counter;
    closed = e.closed;
  }

  -- A change of the cell that a pointer names.
  abbrev pub write_sub : ℕ → (QuerySub D → QuerySub D) → Dict ℕ (QuerySub D) → Dict ℕ (QuerySub D)
  write_sub id f heap = elim (lookup id heap) [ none ↦ heap | some s ↦ insert id (f s) heap ]

  abbrev pub close_cell : QuerySub D → QuerySub D
  close_cell s = release (if s.closed then s else shut s.err s)

  abbrev pub close_for : SubscriptionError → QuerySub D → QuerySub D
  close_for reason s = if s.closed then s else release (shut (some reason) s)

  unfoldable pub close_all_for :
      SubscriptionError → List Routed → Dict ℕ (QuerySub D) → Dict ℕ (QuerySub D)
  close_all_for reason [] heap = heap
  close_all_for reason (r ∷ rs) heap =
      close_all_for reason rs (write_sub r.id (close_for reason) heap)

  unfoldable pub close_buckets :
      SubscriptionError → List Bucket → Dict ℕ (QuerySub D) → Dict ℕ (QuerySub D)
  close_buckets reason [] heap = heap
  close_buckets reason (b ∷ bs) heap =
      close_buckets reason bs (close_all_for reason (values b) heap)

  unfoldable pub close_object : String → SubscriptionError → Engine D → Engine D
  close_object object_id reason e =
      if e.closed || eqb e.counter 0
      then e
      else with_heap
          (close_buckets reason (values (or_empty (lookup object_id e.index.per_obj))) e.heap) e

  unfoldable pub close_found : Option Scope → ℕ → Engine D → Engine D
  close_found none id e = e
  close_found (some scope) id e = record {
    heap = write_sub id close_cell e.heap;
    subs = delete id e.subs;
    index = remove (record { id = id; scope = scope }) e.index;
    next_id = e.next_id;
    counter = e.counter - 1;
    closed = e.closed;
  }

  unfoldable pub close_sub : ℕ → Engine D → Engine D
  close_sub id e = close_found (lookup id e.subs) id e

  unfoldable pub close_cells : Dict ℕ Scope → Dict ℕ (QuerySub D) → Dict ℕ (QuerySub D)
  close_cells [] heap = heap
  close_cells ((id, scope) ∷ subs) heap = close_cells subs (write_sub id close_cell heap)

  unfoldable pub close_engine : Engine D → Engine D
  close_engine e = if e.closed then e else record {
    heap = close_cells e.subs e.heap;
    subs = [];
    index = new_scope_index;
    next_id = e.next_id;
    counter = 0;
    closed = true;
  }

module _ {D : Type 0} {O : Type 0} where
  -- The fan-out of an event, with what each mailbox answers.
  unfoldable pub fan_out :
      (ℕ → TryAdd)
      → List (EventRecord O × Option D)
      → List Routed
      → Dict ℕ (QuerySub D)
      → Dict ℕ (QuerySub D)
  fan_out outcome records [] heap = heap
  fan_out outcome records (r ∷ rs) heap =
      fan_out outcome records rs
        (write_sub r.id (λ s. if s.closed then s else (apply (outcome r.id) records s).0) heap)

  -- The records are none where the post values cannot be had.
  unfoldable pub on_apply :
      (ℕ → TryAdd)
      → String
      → String
      → String
      → Option (List (EventRecord O × Option D))
      → Engine D
      → Engine D
  on_apply outcome objects object_id dataset none e = e
  on_apply outcome objects object_id dataset (some records) e =
      if e.closed || eqb e.counter 0
      then e
      else with_heap (fan_out outcome records (matches objects object_id dataset e.index) e.heap) e

  unfoldable pub deletions : List String → List (EventRecord O × Option D)
  deletions [] = []
  deletions (id ∷ ids) =
      (record { id = id; created = false; deleted = true; ops = [] }, none) ∷ deletions ids

-- A deletion carries no operations, of the type `O`.
module _ {D : Type 0} (O : Type 0) where
  unfoldable pub notify_deleted : (ℕ → TryAdd) → String → String → String → Engine D → Engine D
  notify_deleted outcome objects dataset object_id e =
      on_apply {O = O} outcome objects object_id dataset (some (deletions (object_id ∷ []))) e

  unfoldable pub notify_records_deleted :
      (ℕ → TryAdd) → String → String → String → List String → Engine D → Engine D
  notify_records_deleted outcome objects dataset object_id [] e = e
  notify_records_deleted outcome objects dataset object_id (id ∷ ids) e =
      on_apply {O = O} outcome objects object_id dataset (some (deletions (id ∷ ids))) e
