-- ===== src/Subscribe/Apply/Closing.antt =====
-- internal/subscribe/sub.go: when an event closes a subscription, and with which error.
use any_sync_sdk.Base.{
  ◌*◌, ◌≡◌, refl, sym, ap, ◌∙◌, ◌⊎◌, inl, inr, Bool, true, false, Option, none, some, List, [], ◌∷◌,
  ltb, leb, if◌then◌else◌, if-Has, Bool-cases, arith, ◌==◌, String, subst, ◌≢◌,
}
use any_sync_sdk.Dict.{lookup, string_key}
use any_sync_sdk.Subscribe.Window.{Entry, ensure_max_ref}
use any_sync_sdk.Subscribe.Sub.{
  QuerySub, at_capacity, with_window, settled_sentinel, id_of, is_visible, overflow, drifted,
  EventRecord, Pending, TryAdd, accepted, overflowed, failed, transition, lose, refresh, admit,
  evict, make_room, settle,
}
use any_sync_sdk.Subscribe.Apply.{
  empty_pending, check_drift, deliver, is_empty, apply, apply_record, apply_records, conclude,
  report, see, post_doc, shut,
}
use any_sync_sdk.Subscribe.Sub.Transition.{transition-Has}

failed≢accepted : failed ≢ accepted
failed≢accepted q = ground arith

accepted≢overflowed : accepted ≢ overflowed
accepted≢overflowed q = ground arith

failed≢overflowed : failed ≢ overflowed
failed≢overflowed q = ground arith

module _ {D : Type 0} where
  -- What an event leaves as it is: the configuration, whether the subscription is closed and why.
  abbrev pub SameState : QuerySub D → QuerySub D → Type 0
  SameState s u = (u.cfg ≡ s.cfg) × (u.closed ≡ s.closed) × (u.err ≡ s.err)

  -- The drift budget is spent: a positive limit, and the loss in percent of it reaches the budget.
  abbrev pub is_drifted : QuerySub D → Bool
  is_drifted s =
      if ltb 0 s.cfg.limit then leb (s.cfg.limit * s.cfg.drift_budget) (s.lost * 100) else false

  settle-Same : (s : QuerySub D) → SameState s (settle s)
  unfolding settle
  settle-Same s =
      if-Has (SameState s) (at_capacity s) (with_window (ensure_max_ref s.window) s) s
        (refl, refl, refl) (refl, refl, refl)

  make_room-Same : (ref : Option (Entry D)) (s : QuerySub D) → SameState s (make_room ref s)
  unfolding make_room
  make_room-Same none s = (refl, refl, refl)
  make_room-Same (some m) s = (refl, refl, refl)

  Same_trans : (s t u : QuerySub D) → SameState s t → SameState t u → SameState s u
  Same_trans s t u (a, b, c) (d, e, f) = (d ∙ a, e ∙ b, f ∙ c)

  transition-Same :
      (post : Option D) (id : String) (s : QuerySub D) (t : QuerySub D × Option D)
      → transition (lookup id s.window.entries) post id s ≡ some t
      → SameState s t.0
  unfolding lose refresh admit evict
  transition-Same post id s t e =
      transition-Has (SameState s) (lookup id s.window.entries) post id s t
        (λ x o. (refl, refl, refl)) (λ x doc o. (refl, refl, refl))
        (λ doc o. make_room-Same (settled_sentinel s) s) e

  check_drift_lem :
      (s : QuerySub D)
      → s.closed ≡ false
      → check_drift s ≡ (if is_drifted s then shut (some drifted) s else s)
  unfolding check_drift
  check_drift_lem s c = ground arith

module _ {D : Type 0} {O : Type 0} where
  -- How an event can leave an open subscription, by what the mailbox answered and what it was offered.
  abbrev pub Left : TryAdd → QuerySub D × Option (Pending D O) → Type 0
  Left outcome (u, offered) =
      ((u.closed ≡ false)
        × (u.err ≡ none)
        × (outcome ≡ accepted → is_drifted u ≡ false)
        × (outcome ≡ overflowed → offered ≡ none))
      ⊎ (((u.closed ≡ true) × (u.err ≡ some overflow) × (outcome ≡ overflowed) × (offered ≢ none))
          ⊎ ((u.closed ≡ true) × (u.err ≡ some drifted) × (is_drifted u ≡ true)))

  check_drift-Left :
      (outcome : TryAdd) (s : QuerySub D) (offered : Option (Pending D O))
      → s.closed ≡ false
      → s.err ≡ none
      → (outcome ≡ overflowed → offered ≡ none)
      → Left outcome (check_drift s, offered)
  check_drift-Left outcome s offered c e n = elim (Bool-cases (is_drifted s)) [
    | inl d ↦
        subst (λ u. Left outcome (u, offered))
          (sym (check_drift_lem s c ∙ ap (λ b. if b then shut (some drifted) s else s) d))
          (inr (inr (refl, refl, d)))
    | inr d ↦
        subst (λ u. Left outcome (u, offered))
          (sym (check_drift_lem s c ∙ ap (λ b. if b then shut (some drifted) s else s) d))
          (inl (c, e, λ q. d, n))
  ]

  deliver-Left :
      (outcome : TryAdd) (s : QuerySub D) (p : Pending D O)
      → s.closed ≡ false
      → s.err ≡ none
      → Left outcome (deliver outcome s, some p)
  unfolding deliver
  deliver-Left accepted s p c e =
      check_drift-Left accepted s (some p) c e (λ q. absurd (accepted≢overflowed q))
  deliver-Left overflowed s p c e = inr (inl (refl, refl, refl, λ q. ground arith))
  deliver-Left failed s p c e =
      inl (c, e, λ q. absurd (failed≢accepted q), λ q. absurd (failed≢overflowed q))

module _ {D : Type 0} {O : Type 0} where
  conclude-Same :
      (o : Option (QuerySub D × Option D)) (was : Bool) (prev : Option String) (rc : EventRecord O)
      (post : Option D) (s : QuerySub D) (p : Pending D O)
      → ((t : QuerySub D × Option D) → o ≡ some t → SameState s t.0)
      → SameState s (conclude o was prev rc post s p).0
  unfolding conclude report
  conclude-Same none was prev rc post s p f = (refl, refl, refl)
  conclude-Same (some t) was prev rc post s p f =
      Same_trans s t.0 (settle t.0) (f t refl) (settle-Same t.0)

  pub apply_record-Same :
      (rc : EventRecord O) (value : Option D) (s : QuerySub D) (p : Pending D O)
      → SameState s (apply_record rc value s p).0
  unfolding apply_record
  apply_record-Same rc value s p =
      Same_trans s (settle s) (apply_record rc value s p).0 (settle-Same s) (
        conclude-Same
          (transition (lookup rc.id (settle s).window.entries) (post_doc rc value) rc.id (settle s))
          (is_visible (lookup rc.id (settle s).window.entries)
            (id_of (settled_sentinel (settle s))))
          (id_of (settled_sentinel (settle s))) rc (post_doc rc value) (settle s) (see rc.id p)
          (λ t e. transition-Same (post_doc rc value) rc.id (settle s) t e))

  apply_records-Same :
      (rs : List (EventRecord O × Option D)) (s : QuerySub D) (p : Pending D O)
      → SameState s (apply_records rs s p).0
  unfolding apply_records
  apply_records-Same [] s p = (refl, refl, refl)
  apply_records-Same ((rc, value) ∷ rs) s p =
      let next = apply_record rc value s p in
      if-Has (λ (r : QuerySub D × Pending D O). SameState s r.0) (rc.id == "")
        (apply_records rs s p) (apply_records rs next.0 next.1) (apply_records-Same rs s p)
        (Same_trans s next.0 (apply_records rs next.0 next.1).0 (apply_record-Same rc value s p)
          (apply_records-Same rs next.0 next.1))

  -- An event leaves an open subscription without an error in one of three ways: open without an error,
  -- within its drift budget when the mailbox accepts, and with nothing offered to the mailbox when the
  -- mailbox overflows; closed with the overflow error, when it offered a pending event and the mailbox
  -- answered that it overflowed; or closed with the drift error, with the budget spent.
  pub apply-Left :
      (outcome : TryAdd) (rs : List (EventRecord O × Option D)) (s : QuerySub D)
      → s.closed ≡ false
      → s.err ≡ none
      → Left outcome (apply outcome rs s)
  unfolding apply
  apply-Left outcome rs s c e =
      let next = apply_records rs s empty_pending in
      let (_, c1, e1) = apply_records-Same rs s empty_pending in
      subst
        (λ b.
          let r : QuerySub D × Option (Pending D O) =
            if b
            then (s, none)
            else if is_empty next.1
            then (check_drift next.0, none)
            else (deliver outcome next.0, some next.1) in
          Left outcome r)
        (sym c)
        (if-Has (Left outcome) (is_empty next.1) (check_drift next.0, none)
          (deliver outcome next.0, some next.1)
          (check_drift-Left outcome next.0 none (c1 ∙ c) (e1 ∙ e) (λ q. refl))
          (deliver-Left outcome next.0 next.1 (c1 ∙ c) (e1 ∙ e)))
