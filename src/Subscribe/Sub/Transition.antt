-- ===== src/Subscribe/Sub/Transition.antt =====
-- internal/subscribe/sub.go: the invariant of a subscription, a well-formed window that holds at most one
-- record beyond the limit, and the transitions of the held set.
use any_sync_sdk.Base.{
  ◌+◌, ◌≤◌, String, ◌≡◌, refl, sym, ap, ◌∙◌, subst, inl, inr, Bool, true, false, Option, none, some,
  [], ◌∷◌, ltb, eqb, length, Bool-cases, Option-cases, arith,
}
use any_sync_sdk.Dict.{
  lookup, delete, string_key, none≢some, some_injective, lookup-delete-some, lookup-All,
}
use any_sync_sdk.Dict.Lengths.{length-insert, length-insert_held, length-delete, length-delete_held}
use any_sync_sdk.Subscribe.Tuple.{Tuple, tuple_more}
use any_sync_sdk.Subscribe.Window.{
  Entry, Entries, ensure_max_ref, insert_entry, update_entry, remove_entry, ensure_ref,
}
use any_sync_sdk.Subscribe.Window.Bounds.{Boundary}
use any_sync_sdk.Subscribe.Window.Invariant.{
  WellFormed, ensure_max_ref-WellFormed, insert_entry-WellFormed, update_entry-WellFormed,
  remove_entry-WellFormed,
}
use any_sync_sdk.Subscribe.Sub.{
  QuerySub, fast_reject, filter_ok, settle, settled_sentinel, at_capacity, transition, lose,
  refresh, admit, make_room, evict, make_room, tuple_for, held, with_window,
}
use any_sync_sdk.Subscribe.Apply.Sets.{false≢true}

module _ {D : Type 0} where
  abbrev pub Good : QuerySub D → Type 0
  Good s =
      WellFormed s.window × (ltb 0 s.cfg.limit ≡ true → length s.window.entries ≤ s.cfg.limit + 1)

  -- At capacity the boundary is known.
  abbrev pub Settled : QuerySub D → Type 0
  Settled s = at_capacity s ≡ true → (m : Entry D) × (s.window.max_ref ≡ some m)

  ensure_ref-some :
      (beyond : Tuple → Tuple → Bool) (es : Entries D) (ref : Option (Entry D))
      → eqb (length es) 0 ≡ false
      → (m : Entry D) × (ensure_ref beyond es ref ≡ some m)
  ensure_ref-some beyond es (some r) h = (r, refl)
  ensure_ref-some beyond [] none h = ground arith
  ensure_ref-some beyond ((k, e) ∷ es) none h = (_, refl)

  pub settle-Good : (s : QuerySub D) → Good s → Good (settle s)
  unfolding settle ensure_max_ref
  settle-Good s (w, c) = elim (Bool-cases (at_capacity s)) [
    | inl e ↦ rw e ((ensure_max_ref-WellFormed s.window w, c))
    | inr e ↦ rw e ((w, c))
  ]

  at_capacity-settle : (s : QuerySub D) → at_capacity (settle s) ≡ at_capacity s
  unfolding settle at_capacity ensure_max_ref
  at_capacity-settle s = ground arith

  pub settle-Settled : (s : QuerySub D) → Settled (settle s)
  unfolding settle at_capacity ensure_max_ref
  settle-Settled s h = elim (Bool-cases (at_capacity s)) [
    | inl e ↦ rw e (ensure_ref-some tuple_more s.window.entries s.window.max_ref (ground arith))
    | inr e ↦ absurd (false≢true (sym e ∙ sym (at_capacity-settle s) ∙ h))
  ]

  lookup-delete-none :
      (k j : String) (es : Entries D) → lookup k es ≡ none → lookup k (delete j es) ≡ none
  lookup-delete-none k j es h = elim (Option-cases (lookup k (delete j es))) [
    | inl e ↦ e
    | inr e ↦ absurd (none≢some e.0 (sym h ∙ (lookup-delete-some k j e.0 es e.1).1))
  ]

  settled_sentinel-held :
      (s : QuerySub D) (m : Entry D)
      → WellFormed s.window
      → settled_sentinel s ≡ some m
      → (at_capacity s ≡ true) × (lookup m.id s.window.entries ≡ some m)
  unfolding settled_sentinel
  settled_sentinel-held s m (d, l, h) e = elim (Bool-cases (at_capacity s)) [
    | inl c ↦ (c, (subst (Boundary tuple_more s.window.entries) (rw c refl ∙ e) h).0)
    | inr c ↦ absurd (none≢some m (rw c refl ∙ e))
  ]

  settled_sentinel-none :
      (s : QuerySub D) → Settled s → settled_sentinel s ≡ none → at_capacity s ≡ false
  unfolding settled_sentinel
  settled_sentinel-none s q e = elim (Bool-cases (at_capacity s)) [
    | inl c ↦ absurd (none≢some (q c).0 (sym e ∙ rw c ((q c).1)))
    | inr c ↦ c
  ]

  make_room-Good :
      (ref : Option (Entry D)) (s : QuerySub D)
      → Settled s
      → settled_sentinel s ≡ ref
      → Good s
      → Good (make_room ref s)
        × (ltb 0 s.cfg.limit ≡ true → length (make_room ref s).window.entries ≤ s.cfg.limit)
  unfolding make_room at_capacity remove_entry
  make_room-Good none s q e (w, c) =
      let full = settled_sentinel-none s q e in ((w, c), λ l. let fits = c l in ground arith)
  make_room-Good (some m) s q e (w, c) =
      let (full, own) = settled_sentinel-held s m w e in
      let shorter = length-delete_held m.id m s.window.entries own in
      (
        (remove_entry-WellFormed m s.window w, λ l. let fits = c l in omega arith),
        λ l. let fits = c l in ground arith,
      )

  lose-Good : (e : Entry D) (s : QuerySub D) → Good s → Good (lose e s)
  unfolding lose remove_entry
  lose-Good e s (w, c) = (
    remove_entry-WellFormed e s.window w,
    λ l. omega (arith, c l, length-delete e.id s.window.entries),
  )

  refresh-Good :
      (e : Entry D) (doc : D) (s : QuerySub D)
      → lookup e.id s.window.entries ≡ some e
      → Good s
      → Good (refresh e doc s)
  unfolding refresh update_entry
  refresh-Good e doc s o (w, c) = (
    update_entry-WellFormed e (tuple_for s doc) (held s doc) s.window o w,
    λ l.
        subst (λ n. n ≤ s.cfg.limit + 1) (sym (length-insert_held e.id _ e s.window.entries o))
          (c l),
  )

  lookup-none_room :
      (id : String) (ref : Option (Entry D)) (s : QuerySub D)
      → lookup id s.window.entries ≡ none
      → lookup id (make_room ref s).window.entries ≡ none
  unfolding make_room remove_entry
  lookup-none_room id none s n = n
  lookup-none_room id (some m) s n = lookup-delete-none id m.id s.window.entries n

  insert-Good :
      (id : String) (tuple : Tuple) (doc : Option D) (s : QuerySub D)
      → lookup id s.window.entries ≡ none
      → WellFormed s.window
      → (ltb 0 s.cfg.limit ≡ true → length s.window.entries ≤ s.cfg.limit)
      → Good (with_window (insert_entry id tuple doc s.window) s)
  unfolding insert_entry
  insert-Good id tuple doc s n w c = (
    insert_entry-WellFormed id tuple doc s.window n w,
    λ l. omega (
      arith,
      c l,
      length-insert id (record { id = id; tuple = tuple; doc = doc }) s.window.entries,
    ),
  )

  cfg-make_room :
      (ref : Option (Entry D)) (s : QuerySub D)
      → (ltb 0 s.cfg.limit ≡ true → length (make_room ref s).window.entries ≤ s.cfg.limit)
      → ltb 0 (make_room ref s).cfg.limit ≡ true
      → length (make_room ref s).window.entries ≤ (make_room ref s).cfg.limit
  unfolding make_room
  cfg-make_room none s f = f
  cfg-make_room (some m) s f = f

  admit-Good :
      (id : String) (doc : D) (s : QuerySub D)
      → lookup id s.window.entries ≡ none
      → Settled s
      → Good s
      → Good (admit id doc s)
  unfolding admit evict
  admit-Good id doc s n q g =
      let (fits, room) = make_room-Good (settled_sentinel s) s q refl g in
      insert-Good id (tuple_for s doc) (held s doc) (make_room (settled_sentinel s) s)
        (lookup-none_room id (settled_sentinel s) s n) fits.0
        (cfg-make_room (settled_sentinel s) s room)

  -- A transition loses a held record, refreshes it, or admits a record that is not held.
  pub transition-Has :
      (P : QuerySub D → Type 0) (old : Option (Entry D)) (post : Option D) (id : String)
      (s : QuerySub D) (t : QuerySub D × Option D)
      → ((x : Entry D) → old ≡ some x → P (lose x s))
      → ((x : Entry D) (doc : D) → old ≡ some x → P (refresh x doc s))
      → ((doc : D) → old ≡ none → P (admit id doc s))
      → transition old post id s ≡ some t
      → P t.0
  unfolding transition
  transition-Has P none none id s t l r a e = absurd (none≢some t e)
  transition-Has P none (some doc) id s t l r a e = elim (Bool-cases (fast_reject doc s)) [
    | inl j ↦ absurd (none≢some t (rw j refl ∙ e))
    | inr j ↦ elim (Bool-cases (filter_ok s doc)) [
      | inl f ↦
          subst (λ u. P u.0) (some_injective (admit id doc s, some doc) t (rw (j, f) refl ∙ e))
            (a doc refl)
      | inr f ↦ absurd (none≢some t (rw (j, f) refl ∙ e))
    ]
  ]
  transition-Has P (some x) none id s t l r a e =
      subst (λ u. P u.0) (some_injective (lose x s, none) t e) (l x refl)
  transition-Has P (some x) (some doc) id s t l r a e = elim (Bool-cases (filter_ok s doc)) [
    | inl f ↦
        subst (λ u. P u.0) (some_injective (refresh x doc s, some doc) t (rw f refl ∙ e))
          (r x doc refl)
    | inr f ↦ subst (λ u. P u.0) (some_injective (lose x s, none) t (rw f refl ∙ e)) (l x refl)
  ]

  -- The entry that a lookup finds is found under its own id.
  pub own_id :
      (id : String) (x : Entry D) (s : QuerySub D)
      → WellFormed s.window
      → lookup id s.window.entries ≡ some x
      → x.id ≡ id
  own_id id x s w o = lookup-All (λ k e. e.id ≡ k) id x s.window.entries w.0.1 o

  pub transition-Good :
      (post : Option D) (id : String) (s : QuerySub D) (t : QuerySub D × Option D)
      → Settled s
      → Good s
      → transition (lookup id s.window.entries) post id s ≡ some t
      → Good t.0
  transition-Good post id s t q g e =
      transition-Has Good (lookup id s.window.entries) post id s t (λ x o. lose-Good x s g)
        (λ x doc o.
          refresh-Good x doc s (ap (λ i. lookup i s.window.entries) (own_id id x s g.0 o) ∙ o) g)
        (λ doc o. admit-Good id doc s o q g) e
