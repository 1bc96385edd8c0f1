-- ===== src/Subscribe/Apply/Client.antt =====
-- internal/subscribe/sub.go: the events keep a client's set of records equal to the visible window.
use any_sync_sdk.Base.{
  String, ◌≡◌, refl, sym, ap, ◌∙◌, subst, inl, inr, Bool, true, false, Option, none, some, [], ◌∷◌,
  ◌==◌, Bool-cases, arith, eq_iff, eq_refl,
}
use any_sync_sdk.Dict.{lookup, string_key, lookup-insert_ne, lookup-delete, lookup-delete_ne}
use any_sync_sdk.Subscribe.Tuple.{Tuple, tuple_more}
use any_sync_sdk.Subscribe.Window.{
  Entry, Entries, ensure_ref, ensure_max_ref, insert_entry, update_entry, remove_entry,
}
use any_sync_sdk.Subscribe.Sub.{
  QuerySub, at_capacity, RemoveReason, PendingRec, Pending, settle, settled_sentinel, id_of,
  same_id, is_visible, transition, lose, refresh, admit, evict, make_room,
}
use any_sync_sdk.Subscribe.Apply.{empty_pending, see, classify, promote, demote, implicit}
use any_sync_sdk.Subscribe.Sub.Transition.{Good, transition-Has, own_id}
use any_sync_sdk.Subscribe.Apply.Sets.{
  Stays, has_added, has_removed, client, promote-added_ne, promote-removed, demote-added,
  demote-removed_ne,
}

module _ {D : Type 0} where
  -- The records that a consumer sees: those held, without the sentinel.
  unfoldable pub visible : QuerySub D → String → Bool
  visible s j = is_visible (lookup j s.window.entries) (id_of (settled_sentinel (settle s)))

  pub entries-settle : (s : QuerySub D) → (settle s).window.entries ≡ s.window.entries
  unfolding settle ensure_max_ref
  entries-settle s = ground arith

  ensure_ref_idem :
      (beyond : Tuple → Tuple → Bool) (es : Entries D) (ref : Option (Entry D))
      → ensure_ref beyond es (ensure_ref beyond es ref) ≡ ensure_ref beyond es ref
  ensure_ref_idem beyond es (some r) = refl
  ensure_ref_idem beyond [] none = refl
  ensure_ref_idem beyond ((k, e) ∷ es) none = refl

  pub settle_idem : (s : QuerySub D) → settle (settle s) ≡ settle s
  unfolding settle at_capacity ensure_max_ref
  settle_idem s = ground (arith, ensure_ref_idem tuple_more s.window.entries s.window.max_ref)

  lookup-make_room :
      (j : String) (ref : Option (Entry D)) (s : QuerySub D)
      → Stays j (id_of ref) (lookup j s.window.entries) (lookup j (make_room ref s).window.entries)
  unfolding make_room remove_entry
  lookup-make_room j none s = inl refl
  lookup-make_room j (some m) s = elim (Bool-cases (j == m.id)) [
    | inl e ↦
        let q = (eq_iff j m.id).0 e in
        inr (
          ap (λ i. lookup i (make_room (some m) s).window.entries) q
              ∙ lookup-delete m.id s.window.entries,
          ap some (sym q),
        )
    | inr n ↦ inl (lookup-delete_ne m.id j s.window.entries n)
  ]

  -- A transition leaves the other records held, the sentinel it evicts excepted.
  pub transition-Stays :
      (post : Option D) (id j : String) (s : QuerySub D) (t : QuerySub D × Option D)
      → Good s
      → (j == id) ≡ false
      → transition (lookup id s.window.entries) post id s ≡ some t
      → Stays j
          (id_of (settled_sentinel s))
          (lookup j s.window.entries)
          (lookup j t.0.window.entries)
  unfolding lose refresh admit evict remove_entry update_entry insert_entry
  transition-Stays post id j s t g n e =
      transition-Has
        (λ u.
          Stays j (id_of (settled_sentinel s)) (lookup j s.window.entries)
            (lookup j u.window.entries))
        (lookup id s.window.entries) post id s t
        (λ x o.
          inl
            (lookup-delete_ne x.id j s.window.entries (ap (λ i. j == i) (own_id id x s g.0 o) ∙ n)))
        (λ x doc o.
          inl (
            lookup-insert_ne x.id _ j s.window.entries
              (ap (λ i. j == i) (own_id id x s g.0 o) ∙ n)))
        (λ doc o.
          subst (λ l. Stays j (id_of (settled_sentinel s)) (lookup j s.window.entries) l)
            (sym (lookup-insert_ne id _ j (make_room (settled_sentinel s) s).window.entries n))
            (lookup-make_room j (settled_sentinel s) s))
        e

module _ {D : Type 0} {O : Type 0} where
  promote_self :
      (prev next : Option String) (id : String) (s : QuerySub D) (p : Pending D O)
      → ((k : String) (e : Entry D) → lookup k s.window.entries ≡ some e → e.id ≡ k)
      → has_added id (promote prev next id s p).added ≡ has_added id p.added
  unfolding promote
  promote_self none next id s p own = refl
  promote_self (some m) next id s p own = elim (Bool-cases (m == id)) [
    | inl e ↦ rw e refl
    | inr n ↦ promote-added_ne id m next id s p (ground (arith, eq_iff m id, eq_iff id m)) (own m)
  ]

  demote_self :
      (next : Option String) (id : String) (p : Pending D O)
      → has_removed id (demote next id p).removed ≡ has_removed id p.removed
  unfolding demote
  demote_self none id p = refl
  demote_self (some n) id p = elim (Bool-cases (n == id)) [
    | inl e ↦ rw e refl
    | inr h ↦ demote-removed_ne id n id p (ground (arith, eq_iff n id, eq_iff id n))
  ]

  pub implicit_self :
      (prev next : Option String) (id : String) (s : QuerySub D) (p : Pending D O) (had : Bool)
      → ((k : String) (e : Entry D) → lookup k s.window.entries ≡ some e → e.id ≡ k)
      → client (implicit prev next id s p) had id ≡ client p had id
  unfolding implicit
  implicit_self prev next id s p had own = elim (Bool-cases (same_id prev next)) [
    | inl e ↦ rw e refl
    | inr n ↦
        rw
          (
            n,
            demote_self next id (promote prev next id s p),
            demote-added next id (promote prev next id s p),
            promote-removed prev next id s p,
            promote_self prev next id s p own,
          )
          refl
  ]

  pub classify_self :
      (was now : Bool) (r : PendingRec D O) (reason : RemoveReason)
      → client (classify was now r reason (see r.id empty_pending)) was r.id ≡ now
  unfolding classify
  classify_self false false r reason = refl
  classify_self false true r reason = ground (arith, eq_refl r.id)
  classify_self true false r reason = ground (arith, eq_refl r.id)
  classify_self true true r reason = refl

  pub classify_other :
      (was now : Bool) (r : PendingRec D O) (reason : RemoveReason) (j : String)
      → (j == r.id) ≡ false
      → (has_added j (classify was now r reason (see r.id empty_pending)).added ≡ false)
        × (has_removed j (classify was now r reason (see r.id empty_pending)).removed ≡ false)
        × ((classify was now r reason (see r.id empty_pending)).seen ≡ r.id ∷ [])
  unfolding classify
  classify_other false false r reason j n = (refl, refl, refl)
  classify_other false true r reason j n = (ground arith, refl, refl)
  classify_other true false r reason j n = (refl, ground arith, refl)
  classify_other true true r reason j n = (refl, refl, refl)
