-- ===== src/Subscribe/Window/Invariant.antt =====
-- internal/subscribe/window.go: the invariant of a window, and that every operation keeps it.
use any_sync_sdk.Base.{String, ◌≡◌, refl, Option, none, some}
use any_sync_sdk.Dict.{
  lookup, insert, string_key, insert-Distinct, delete-Distinct, insert-All, delete-All,
}
use any_sync_sdk.Subscribe.Tuple.{Tuple, tuple_less, tuple_more, below, above}
use any_sync_sdk.Subscribe.Window.{
  Entry, Window, ensure_max_ref, ensure_min_ref, insert_entry, update_entry, remove_entry,
}
use any_sync_sdk.Subscribe.Window.Bounds.{
  Sound, Boundary, ensure-Boundary, inserted-Boundary, updated-Boundary, removed-Boundary,
}

module _ {D : Type 0} where
  -- The map is sound, and each boundary pointer that is set points to an extreme entry.
  abbrev pub WellFormed : Window D → Type 0
  WellFormed w =
      Sound w.entries
      × Boundary tuple_less w.entries w.min_ref
      × Boundary tuple_more w.entries w.max_ref

  pub ensure_max_ref-WellFormed : (w : Window D) → WellFormed w → WellFormed (ensure_max_ref w)
  unfolding ensure_max_ref
  ensure_max_ref-WellFormed w (s, l, h) =
      (s, l, ensure-Boundary tuple_more above w.entries w.max_ref s h)

  pub ensure_min_ref-WellFormed : (w : Window D) → WellFormed w → WellFormed (ensure_min_ref w)
  unfolding ensure_min_ref
  ensure_min_ref-WellFormed w (s, l, h) =
      (s, ensure-Boundary tuple_less below w.entries w.min_ref s l, h)

  pub insert_entry-WellFormed :
      (id : String) (tuple : Tuple) (doc : Option D) (w : Window D)
      → lookup id w.entries ≡ none
      → WellFormed w
      → WellFormed (insert_entry id tuple doc w)
  unfolding insert_entry
  insert_entry-WellFormed id tuple doc w n ((d, i), l, h) =
      let e : Entry D = record { id = id; tuple = tuple; doc = doc } in
      let s : Sound (insert id e w.entries) =
        (insert-Distinct id e w.entries d, insert-All (λ k x. x.id ≡ k) id e w.entries refl i) in
      (
        s,
        inserted-Boundary tuple_less below e w.entries w.min_ref s n l,
        inserted-Boundary tuple_more above e w.entries w.max_ref s n h,
      )

  pub update_entry-WellFormed :
      (old : Entry D) (tuple : Tuple) (doc : Option D) (w : Window D)
      → lookup old.id w.entries ≡ some old
      → WellFormed w
      → WellFormed (update_entry old tuple doc w)
  unfolding update_entry
  update_entry-WellFormed old tuple doc w o ((d, i), l, h) =
      let e : Entry D = record { id = old.id; tuple = tuple; doc = doc } in
      (
        (
          insert-Distinct old.id e w.entries d,
          insert-All (λ k x. x.id ≡ k) old.id e w.entries refl i,
        ),
        updated-Boundary tuple_less below old e w.entries w.min_ref refl o l,
        updated-Boundary tuple_more above old e w.entries w.max_ref refl o h,
      )

  pub remove_entry-WellFormed :
      (e : Entry D) (w : Window D) → WellFormed w → WellFormed (remove_entry e w)
  unfolding remove_entry
  remove_entry-WellFormed e w ((d, i), l, h) = (
    (delete-Distinct e.id w.entries d, delete-All (λ k x. x.id ≡ k) e.id w.entries i),
    removed-Boundary tuple_less below e w.entries w.min_ref l,
    removed-Boundary tuple_more above e w.entries w.max_ref h,
  )
