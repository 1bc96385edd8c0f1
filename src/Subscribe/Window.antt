-- ===== src/Subscribe/Window.antt =====
-- internal/subscribe/window.go: the records that a subscription holds, with pointers to the ones of the
-- smallest and of the largest sort key. A pointer to an entry is the entry: entries are told apart by
-- their ids, and what updates an entry in place updates the pointers to it. `beyond` is the comparison
-- of a boundary, above for the largest and below for the smallest, which the source writes twice.
pub mod Bounds
pub mod Invariant
use any_sync_sdk.Base.{
  ℕ, String, Bool, true, false, Option, none, some, List, [], ◌∷◌, ◌==◌, ltb, length, if◌then◌else◌,
}
use any_sync_sdk.Dict.{Dict, insert, delete, string_key}
use any_sync_sdk.Subscribe.Tuple.{Tuple, tuple_less, tuple_more}

pub record Entry (D : Type 0) : Type 0 where
  pub id : String
  pub tuple : Tuple
  pub doc : Option D

abbrev pub Entries : Type 0 → Type 0
Entries D = Dict String (Entry D)

-- The fields of a querySub that window.go works on.
pub record Window (D : Type 0) : Type 0 where
  pub entries : Entries D
  pub min_ref : Option (Entry D)
  pub max_ref : Option (Entry D)

module _ {D : Type 0} where
  module _ (beyond : Tuple → Tuple → Bool) where
    -- The scan for a boundary, which starts at the first entry.
    abbrev pub farthest_from : Entry D → Entries D → Entry D
    farthest_from best [] = best
    farthest_from best ((k, e) ∷ es) =
        farthest_from (if beyond e.tuple best.tuple then e else best) es

    abbrev pub farthest : Entries D → Option (Entry D)
    farthest [] = none
    farthest ((k, e) ∷ es) = some (farthest_from e es)

    abbrev pub ensure_ref : Entries D → Option (Entry D) → Option (Entry D)
    ensure_ref es (some r) = some r
    ensure_ref es none = farthest es

    abbrev pub inserted_ref : Entries D → Entry D → Option (Entry D) → Option (Entry D)
    inserted_ref es e none = if ltb 1 (length es) then farthest es else some e
    inserted_ref es e (some r) = if beyond e.tuple r.tuple then some e else some r

    -- The boundary once the entry `old` has become `e`.
    abbrev pub updated_ref : Entry D → Entry D → Option (Entry D) → Option (Entry D)
    updated_ref old e none = none
    updated_ref old e (some r) =
        if r.id == old.id
        then (if beyond old.tuple e.tuple then none else some e)
        else if beyond e.tuple r.tuple
        then some e
        else some r

  abbrev pub removed_ref : Entry D → Option (Entry D) → Option (Entry D)
  removed_ref e none = none
  removed_ref e (some r) = if r.id == e.id then none else some r

  unfoldable pub ensure_max_ref : Window D → Window D
  ensure_max_ref w = record {
    entries = w.entries;
    min_ref = w.min_ref;
    max_ref = ensure_ref tuple_more w.entries w.max_ref;
  }

  unfoldable pub ensure_min_ref : Window D → Window D
  ensure_min_ref w = record {
    entries = w.entries;
    min_ref = ensure_ref tuple_less w.entries w.min_ref;
    max_ref = w.max_ref;
  }

  abbrev pub insert_new : Entry D → Window D → Window D
  insert_new e w =
      let es = insert e.id e w.entries in
      record {
        entries = es;
        min_ref = inserted_ref tuple_less es e w.min_ref;
        max_ref = inserted_ref tuple_more es e w.max_ref;
      }

  unfoldable pub insert_entry : String → Tuple → Option D → Window D → Window D
  insert_entry id tuple doc w = insert_new (record { id = id; tuple = tuple; doc = doc }) w

  abbrev pub replace_entry : Entry D → Entry D → Window D → Window D
  replace_entry old e w = record {
    entries = insert old.id e w.entries;
    min_ref = updated_ref tuple_less old e w.min_ref;
    max_ref = updated_ref tuple_more old e w.max_ref;
  }

  unfoldable pub update_entry : Entry D → Tuple → Option D → Window D → Window D
  update_entry e tuple doc w = replace_entry e (record { id = e.id; tuple = tuple; doc = doc }) w

  unfoldable pub remove_entry : Entry D → Window D → Window D
  remove_entry e w = record {
    entries = delete e.id w.entries;
    min_ref = removed_ref e w.min_ref;
    max_ref = removed_ref e w.max_ref;
  }
