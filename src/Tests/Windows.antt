-- ===== src/Tests/Windows.antt =====
-- A live query with a limit of one record, ordered by number: the record `a` is visible, `b` waits behind
-- it as the sentinel.
use any_sync_sdk.Base.{
  ℕ, String, ◌≡◌, refl, Bool, true, false, Option, none, some, List, [], ◌∷◌, arith,
}
use any_sync_sdk.Dict.{lookup-All, string_key}
use any_sync_sdk.Subscribe.Tuple.{tuple_less}
use any_sync_sdk.Subscribe.Window.{
  Entry, Entries, insert_entry, update_entry, remove_entry, ensure_max_ref,
}
use any_sync_sdk.Subscribe.Sub.{
  SubConfig, QuerySub, EventRecord, accepted, overflowed, windowed, held, tuple_for, at_capacity,
  settle, settled_sentinel, filter_ok, fast_reject, make_room, evict, admit, lose, refresh,
  transition,
}
use any_sync_sdk.Subscribe.Apply.{
  empty_pending, apply, apply_records, apply_record, conclude, report, classify, promote, demote,
  implicit, removal_reason,
}
use any_sync_sdk.Subscribe.Sub.Transition.{Good}
use any_sync_sdk.Base.{not, eqb, length}
use any_sync_sdk.Subscribe.Engine.{has_subscribers, new_engine}
use any_sync_sdk.Subscribe.Engine.Counted.{Call, run, has_subscribers-run}
use any_sync_sdk.Subscribe.Apply.Sets.{client}
use any_sync_sdk.Subscribe.Apply.Client.{visible}
use any_sync_sdk.Subscribe.Apply.Sent.{shown_doc}
use any_sync_sdk.Subscribe.Apply.Replica.{apply_each, client_docs, apply_each-client_docs}
use any_sync_sdk.Subscribe.Apply.Capacity.{apply-Good}
use any_sync_sdk.Subscribe.Apply.Closing.{Left, apply-Left}

abbrev entry : String → ℕ → Entry ℕ
entry id n = record { id = id; tuple = n ∷ []; doc = some n }

abbrev rows : Entries ℕ
rows = ("a", entry "a" 1) ∷ ("b", entry "b" 2) ∷ []

abbrev config : SubConfig ℕ
config = record { limit = 1; drift_budget = 50; filter = none; sort_key = λ n. n ∷ [] }

abbrev query : QuerySub ℕ
query = record {
  cfg = config;
  window = record { entries = rows; min_ref = some (entry "a" 1); max_ref = some (entry "b" 2) };
  lost = 0;
  closed = false;
  err = none;
}

query-Good : Good query
query-Good = (
  (
    ((refl, (refl, tt)), (refl, (refl, tt))),
    (
      refl,
      λ k e h.
          lookup-All (λ j x. tuple_less x.tuple (1 ∷ []) ≡ false) k e rows (refl, (refl, tt)) h,
    ),
    (
      refl,
      λ k e h.
          lookup-All (λ j x. tuple_less (2 ∷ []) x.tuple ≡ false) k e rows (refl, (refl, tt)) h,
    ),
  ),
  λ l. omega arith,
)

abbrev written : String → EventRecord ℕ
written id = record { id = id; created = false; deleted = false; ops = [] }

abbrev erased : String → EventRecord ℕ
erased id = record { id = id; created = false; deleted = true; ops = [] }

-- `c` arrives before all, then `c` is deleted.
abbrev events : List (EventRecord ℕ × Option ℕ)
events = (written "c", some 0) ∷ (erased "c", none) ∷ []

apply_each-client_docs_example :
    shown_doc (apply_each events query) "a" ≡ client_docs events query (shown_doc query "a") "a"
apply_each-client_docs_example =
    apply_each-client_docs events query "a" query-Good (unfold windowed in refl)

apply-Good_example : Good (apply accepted events query).0
apply-Good_example = apply-Good accepted events query query-Good

apply-Left_example : Left overflowed (apply overflowed events query)
apply-Left_example = apply-Left overflowed events query refl refl

-- One event that updates `a` in place and then brings `c`, which displaces it.
abbrev displacing : List (EventRecord ℕ × Option ℕ)
displacing = (written "a", some 1) ∷ (written "c", some 0) ∷ []

abbrev after_displacing : QuerySub ℕ × Bool
after_displacing =
    let r = apply_records displacing query empty_pending in
    (r.0, client r.1 (visible query "a") "a")

-- The record is hidden, and the client still has it.
displaced_unreported : (visible after_displacing.0 "a" ≡ false) × (after_displacing.1 ≡ true)
unfolding apply_records apply_record conclude report classify promote demote implicit removal_reason
    visible windowed held tuple_for at_capacity settle settled_sentinel filter_ok fast_reject
    make_room evict admit lose refresh transition insert_entry update_entry remove_entry
    ensure_max_ref
displaced_unreported = (refl, refl)

abbrev engine_calls : List (Call ℕ ℕ)
engine_calls =
    Call.subscribe_call true config
      (record { shared = false; all_objects = true; object_id = ""; dataset = "d" })
      (some (("a", some 1) ∷ ("b", some 2) ∷ []))
    ∷ Call.apply_call (λ id. accepted) "o" "d" (some events)
    ∷ Call.close_sub_call 7
    ∷ []

has_subscribers-run_example :
    has_subscribers (run "objects" engine_calls new_engine)
    ≡ not (eqb (length (run "objects" engine_calls new_engine).subs) 0)
has_subscribers-run_example = has_subscribers-run "objects" engine_calls (omega arith)
