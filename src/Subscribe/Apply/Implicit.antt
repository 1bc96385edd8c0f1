-- ===== src/Subscribe/Apply/Implicit.antt =====
-- internal/subscribe/sub.go: what the movement of the sentinel adds to and removes from the view of a
-- client that keeps a set of records by the events.
use any_sync_sdk.Base.{
  String, ◌≡◌, refl, ap, ◌∙◌, subst, inl, inr, Bool, true, false, ◌||◌, Option, none, some, [], ◌∷◌,
  ◌==◌, Bool-cases, arith, eq_iff,
}
use any_sync_sdk.Dict.{lookup, string_key}
use any_sync_sdk.Subscribe.Window.{Entry}
use any_sync_sdk.Subscribe.Sub.{QuerySub, Pending, member, same_id, is_visible}
use any_sync_sdk.Subscribe.Apply.{promote, demote, implicit}
use any_sync_sdk.Subscribe.Apply.Sets.{
  has_removed, apart, hidden, shown, Stays, stays_none, stays, unmoved, has_added, client,
  promote-removed, promote-added_ne, promote-added, promote-seen, demote-added, demote-removed_ne,
  demote-removed,
}

module _ {D : Type 0} {O : Type 0} where
  demoted-client :
      (j n id : String) (p : Pending D O) (after : Option (Entry D)) (had : Bool)
      → (j == id) ≡ false
      → ((e : Entry D) → after ≡ some e → e.id ≡ j)
      → ((j == n) ≡ true → member j p.seen ≡ false)
      → has_removed j p.removed ≡ false
      → ((j == n) ≡ false → is_visible after none ≡ (has_added j p.added || had))
      → is_visible after (some n) ≡ client (demote (some n) id p) had j
  demoted-client j n id p after had x own k r f = elim (Bool-cases (j == n)) [
    | inl e ↦
        subst (λ i. is_visible after (some i) ≡ client (demote (some i) id p) had j)
          ((eq_iff j n).0 e) (hidden j after own ∙ rw (demote-removed j id p x (k e)) refl)
    | inr h ↦
        shown j after (some n) own h
        ∙ f h
        ∙ rw (demote-removed_ne j n id p h, r, demote-added (some n) id p) refl
  ]

  promoted-client :
      (j m : String) (next : Option String) (id : String) (s : QuerySub D) (p : Pending D O)
      (before : Option (Entry D))
      → (j == id) ≡ false
      → p.seen ≡ id ∷ []
      → has_added j p.added ≡ false
      → ((k : String) (e : Entry D) → lookup k s.window.entries ≡ some e → e.id ≡ k)
      → ((e : Entry D) → before ≡ some e → e.id ≡ j)
      → Stays j (some m) before (lookup j s.window.entries)
      → same_id (some j) next ≡ false
      → is_visible (lookup j s.window.entries) none
        ≡ (has_added j (promote (some m) next id s p).added || is_visible before (some m))
  promoted-client j m next id s p before x q a own old f u = elim (Bool-cases (j == m)) [
    | inl e ↦
        subst
          (λ i.
            is_visible (lookup j s.window.entries) none
            ≡ (has_added j (promote (some i) next id s p).added || is_visible before (some i)))
          ((eq_iff j m).0 e)
          (rw
            (
              promote-added j next id s p x q (own j),
              a,
              hidden j before old,
              shown j (lookup j s.window.entries) next (own j) u,
            )
            (ground arith))
    | inr n ↦
        rw (promote-added_ne j m next id s p n (own m), a, shown j before (some m) old n)
          (ap (λ o. is_visible o none) (stays j m before (lookup j s.window.entries) n f))
  ]

  pub other-client :
      (prev next : Option String) (id j : String) (s : QuerySub D) (p : Pending D O)
      (before : Option (Entry D))
      → (j == id) ≡ false
      → p.seen ≡ id ∷ []
      → has_added j p.added ≡ false
      → has_removed j p.removed ≡ false
      → ((k : String) (e : Entry D) → lookup k s.window.entries ≡ some e → e.id ≡ k)
      → ((e : Entry D) → before ≡ some e → e.id ≡ j)
      → Stays j prev before (lookup j s.window.entries)
      → is_visible (lookup j s.window.entries) next
        ≡ client (implicit prev next id s p) (is_visible before prev) j
  unfolding implicit promote demote
  other-client none none id j s p before x q a r own old f =
      rw (r, a) (ap (λ o. is_visible o none) (stays_none j before (lookup j s.window.entries) f))
  other-client none (some n) id j s p before x q a r own old f =
      demoted-client j n id p (lookup j s.window.entries) (is_visible before none) x (own j)
        (λ _. rw q (ground (arith, x))) r
        (λ _.
          rw a (ap (λ o. is_visible o none) (stays_none j before (lookup j s.window.entries) f)))
  other-client (some m) none id j s p before x q a r own old f =
      rw (promote-removed (some m) none id s p, r)
        (promoted-client j m none id s p before x q a own old f refl)
  other-client (some m) (some n) id j s p before x q a r own old f = elim (Bool-cases (m == n)) [
    | inl e ↦
        rw (e, r, a)
          (subst (λ i. is_visible (lookup j s.window.entries) (some i) ≡ is_visible before (some m))
            ((eq_iff m n).0 e) (unmoved j m before (lookup j s.window.entries) old f))
    | inr h ↦ rw h (
        demoted-client j n id (promote (some m) (some n) id s p) (lookup j s.window.entries)
          (is_visible before (some m)) x (own j)
          (λ k. promote-seen j m (some n) id s p (apart j m n k h) ∙ rw q (ground (arith, x)))
          (rw (promote-removed (some m) (some n) id s p) r)
          (λ u. promoted-client j m (some n) id s p before x q a own old f u))
  ]
