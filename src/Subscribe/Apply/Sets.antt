-- ===== src/Subscribe/Apply/Sets.antt =====
-- internal/subscribe/sub.go: membership in what an event adds and removes.
use any_sync_sdk.Base.{
  String, ◌≡◌, ◌≢◌, refl, sym, ap, ◌∙◌, subst, ◌⊎◌, inl, inr, Bool, true, false, not, ◌||◌, Option,
  none, some, List, [], ◌∷◌, ◌++◌, ◌==◌, if◌then◌else◌, Option-cases, arith, eq_iff, eq_refl,
}
use any_sync_sdk.Dict.{lookup, string_key, none≢some, some_injective}
use any_sync_sdk.Subscribe.Window.{Entry}
use any_sync_sdk.Subscribe.Sub.{
  QuerySub, RemoveReason, displaced, PendingRec, Pending, member, same_id, is_visible,
}
use any_sync_sdk.Subscribe.Apply.{promote, demote}

abbrev pub has_removed : String → List (String × RemoveReason) → Bool
has_removed j [] = false
has_removed j (r ∷ rs) = j == r.0 || has_removed j rs

has_removed-append :
    (j : String) (xs : List (String × RemoveReason)) (r : String × RemoveReason)
    → has_removed j (xs ++ r ∷ []) ≡ (has_removed j xs || (j == r.0))
has_removed-append j [] r = ground arith
has_removed-append j (x ∷ xs) r = ground (arith, has_removed-append j xs r)

pub false≢true : false ≢ true
false≢true h = ground arith

pub apart : (j m n : String) → (j == n) ≡ true → (m == n) ≡ false → (j == m) ≡ false
apart j m n k h = ground (arith, eq_iff j n, eq_iff j m, eq_iff m n)

module _ {D : Type 0} where
  -- The sentinel is hidden, and only it.
  pub hidden :
      (j : String) (o : Option (Entry D))
      → ((e : Entry D) → o ≡ some e → e.id ≡ j)
      → is_visible o (some j) ≡ false
  hidden j none own = refl
  hidden j (some e) own = ground (arith, own e refl, eq_iff e.id j)

  pub shown :
      (j : String) (o : Option (Entry D)) (sen : Option String)
      → ((e : Entry D) → o ≡ some e → e.id ≡ j)
      → same_id (some j) sen ≡ false
      → is_visible o sen ≡ is_visible o none
  shown j none sen own n = refl
  shown j (some e) sen own n = ap not (ap (λ i. same_id (some i) sen) (own e refl) ∙ n)

  -- The records that stay held, but for an evicted sentinel.
  abbrev pub Stays : String → Option String → Option (Entry D) → Option (Entry D) → Type 0
  Stays j prev before after = (after ≡ before) ⊎ ((after ≡ none) × (prev ≡ some j))

  pub stays_none :
      (j : String) (before after : Option (Entry D))
      → (after ≡ before) ⊎ ((after ≡ none) × (none ≡ some j))
      → after ≡ before
  stays_none j before after (inl e) = e
  stays_none j before after (inr (e, q)) = absurd (none≢some j q)

  pub stays :
      (j m : String) (before after : Option (Entry D))
      → (j == m) ≡ false
      → (after ≡ before) ⊎ ((after ≡ none) × (some m ≡ some j))
      → after ≡ before
  stays j m before after n (inl e) = e
  stays j m before after n (inr (e, q)) =
      absurd (false≢true (sym n ∙ ap (λ i. j == i) (some_injective m j q) ∙ eq_refl j))

  pub unmoved :
      (j m : String) (before after : Option (Entry D))
      → ((e : Entry D) → before ≡ some e → e.id ≡ j)
      → Stays j (some m) before after
      → is_visible after (some m) ≡ is_visible before (some m)
  unmoved j m before after old (inl e) = ap (λ o. is_visible o (some m)) e
  unmoved j m before after old (inr (e, q)) =
      ap (λ o. is_visible o (some m)) e
      ∙ sym (
          subst (λ i. is_visible before (some i) ≡ false) (sym (some_injective m j q))
            (hidden j before old))

module _ {D : Type 0} {O : Type 0} where
  abbrev pub has_added : String → List (PendingRec D O) → Bool
  has_added j [] = false
  has_added j (r ∷ rs) = j == r.id || has_added j rs

  has_added-append :
      (j : String) (xs : List (PendingRec D O)) (r : PendingRec D O)
      → has_added j (xs ++ r ∷ []) ≡ (has_added j xs || (j == r.id))
  has_added-append j [] r = ground arith
  has_added-append j (x ∷ xs) r = ground (arith, has_added-append j xs r)

  -- Whether the client has the record after the event, when it had it before or not.
  abbrev pub client : Pending D O → Bool → String → Bool
  client p had j = if has_removed j p.removed then false else has_added j p.added || had

  pub promote-removed :
      (prev next : Option String) (id : String) (s : QuerySub D) (p : Pending D O)
      → (promote prev next id s p).removed ≡ p.removed
  unfolding promote
  promote-removed none next id s p = refl
  promote-removed (some m) next id s p = ground arith

  pub promote-added_ne :
      (j m : String) (next : Option String) (id : String) (s : QuerySub D) (p : Pending D O)
      → (j == m) ≡ false
      → ((e : Entry D) → lookup m s.window.entries ≡ some e → e.id ≡ m)
      → has_added j (promote (some m) next id s p).added ≡ has_added j p.added
  unfolding promote
  promote-added_ne j m next id s p n own = elim (Option-cases (lookup m s.window.entries)) [
    | inl e ↦ rw e (ground arith)
    | inr e ↦ rw (e.1) (
        ground (
          arith,
          own e.0 e.1,
          has_added-append j p.added (record { id = e.0.id; doc = e.0.doc; ops = [] }),
        ))
  ]

  pub promote-added :
      (m : String) (next : Option String) (id : String) (s : QuerySub D) (p : Pending D O)
      → (m == id) ≡ false
      → p.seen ≡ id ∷ []
      → ((e : Entry D) → lookup m s.window.entries ≡ some e → e.id ≡ m)
      → has_added m (promote (some m) next id s p).added
        ≡ (has_added m p.added || is_visible (lookup m s.window.entries) next)
  unfolding promote
  promote-added m next id s p n q own = elim (Option-cases (lookup m s.window.entries)) [
    | inl e ↦ rw e (ground arith)
    | inr e ↦ rw (e.1) (
        ground (
          arith,
          own e.0 e.1,
          eq_refl m,
          has_added-append m p.added (record { id = e.0.id; doc = e.0.doc; ops = [] }),
        ))
  ]

  pub promote-seen :
      (j m : String) (next : Option String) (id : String) (s : QuerySub D) (p : Pending D O)
      → (j == m) ≡ false
      → member j (promote (some m) next id s p).seen ≡ member j p.seen
  unfolding promote
  promote-seen j m next id s p n = ground arith

  pub demote-added :
      (next : Option String) (id : String) (p : Pending D O) → (demote next id p).added ≡ p.added
  unfolding demote
  demote-added none id p = refl
  demote-added (some n) id p = ground arith

  pub demote-removed_ne :
      (j n id : String) (p : Pending D O)
      → (j == n) ≡ false
      → has_removed j (demote (some n) id p).removed ≡ has_removed j p.removed
  unfolding demote
  demote-removed_ne j n id p h = ground (arith, has_removed-append j p.removed (n, displaced))

  pub demote-removed :
      (j id : String) (p : Pending D O)
      → (j == id) ≡ false
      → member j p.seen ≡ false
      → has_removed j (demote (some j) id p).removed ≡ true
  unfolding demote
  demote-removed j id p h k =
      ground (arith, eq_refl j, has_removed-append j p.removed (j, displaced))
