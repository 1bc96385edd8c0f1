-- ===== src/Subscribe/Apply/Follows.antt =====
-- internal/subscribe/sub.go, applyRecord: a client that applies each event to its set of records has the
-- visible window.
use any_sync_sdk.Base.{
  String, ◌≡◌, refl, sym, ap, ◌∙◌, subst, inl, inr, false, Option, none, some, ◌==◌, Bool-cases,
  eq_iff,
}
use any_sync_sdk.Dict.{lookup, string_key}
use any_sync_sdk.Subscribe.Window.{Entry}
use any_sync_sdk.Subscribe.Sub.{
  QuerySub, EventRecord, PendingRec, Pending, settle, settled_sentinel, id_of, is_visible,
  transition,
}
use any_sync_sdk.Subscribe.Apply.{
  empty_pending, see, classify, implicit, report, conclude, apply_record, post_doc, removal_reason,
}
use any_sync_sdk.Subscribe.Sub.Transition.{
  Good, settle-Good, settle-Settled, transition-Good, own_id,
}
use any_sync_sdk.Subscribe.Apply.Sets.{Stays, client}
use any_sync_sdk.Subscribe.Apply.Implicit.{other-client}
use any_sync_sdk.Subscribe.Apply.Client.{
  visible, entries-settle, settle_idem, transition-Stays, implicit_self, classify_self,
  classify_other,
}

module _ {D : Type 0} where
  visible-settled :
      (s : QuerySub D) (j : String)
      → visible (settle s) j
        ≡ is_visible (lookup j (settle s).window.entries) (id_of (settled_sentinel (settle s)))
  unfolding visible
  visible-settled s j =
      ap (λ u. is_visible (lookup j (settle s).window.entries) (id_of (settled_sentinel u)))
        (settle_idem s)

  pub visible_lem :
      (s : QuerySub D) (j : String)
      → visible s j
        ≡ is_visible (lookup j (settle s).window.entries) (id_of (settled_sentinel (settle s)))
  unfolding visible
  visible_lem s j =
      ap (λ es. is_visible (lookup j es) (id_of (settled_sentinel (settle s))))
        (sym (entries-settle s))

module _ {D : Type 0} {O : Type 0} where
  report-client :
      (rc : EventRecord O) (post event_doc : Option D) (s u : QuerySub D) (j : String)
      → Good s
      → Good u
      → ((j == rc.id) ≡ false
          → Stays j
              (id_of (settled_sentinel s))
              (lookup j s.window.entries)
              (lookup j u.window.entries))
      → let was = is_visible (lookup rc.id s.window.entries) (id_of (settled_sentinel s)) in
        let r =
          report was (id_of (settled_sentinel s)) rc post event_doc u (see rc.id empty_pending) in
        visible r.0 j
        ≡ client r.1 (is_visible (lookup j s.window.entries) (id_of (settled_sentinel s))) j
  unfolding report
  report-client rc post event_doc s u j g h f =
      let prev = id_of (settled_sentinel s) in
      let next = id_of (settled_sentinel (settle u)) in
      let was = is_visible (lookup rc.id s.window.entries) prev in
      let now = is_visible (lookup rc.id (settle u).window.entries) next in
      let r : PendingRec D O = record { id = rc.id; doc = event_doc; ops = rc.ops } in
      let reason = removal_reason (lookup rc.id (settle u).window.entries) rc.deleted post in
      let p : Pending D O = classify was now r reason (see rc.id empty_pending) in
      let own = λ (k : String) (e : Entry D) (o : lookup k (settle u).window.entries ≡ some e).
        own_id k e (settle u) (settle-Good u h).0 o in
      elim (Bool-cases (j == rc.id)) [
        | inl e ↦
            subst
              (λ i.
                visible (settle u) i
                ≡ client (implicit prev next rc.id (settle u) p)
                    (is_visible (lookup i s.window.entries) prev) i)
              (sym ((eq_iff j rc.id).0 e))
              (visible-settled u rc.id
                ∙ sym (classify_self was now r reason)
                ∙ sym (implicit_self prev next rc.id (settle u) p was own))
        | inr n ↦
            visible-settled u j
            ∙ other-client prev next rc.id j (settle u) p (lookup j s.window.entries) n
                (classify_other was now r reason j n).2 (classify_other was now r reason j n).0
                (classify_other was now r reason j n).1 own (λ e o. own_id j e s g.0 o)
                (subst (λ es. Stays j prev (lookup j s.window.entries) (lookup j es))
                  (sym (entries-settle u)) (f n))
      ]

  conclude-client :
      (o : Option (QuerySub D × Option D)) (rc : EventRecord O) (post : Option D) (s : QuerySub D)
      (j : String)
      → Good s
      → settle s ≡ s
      → ((t : QuerySub D × Option D) → o ≡ some t → Good t.0)
      → ((t : QuerySub D × Option D)
          → o ≡ some t
          → (j == rc.id) ≡ false
          → Stays j
              (id_of (settled_sentinel s))
              (lookup j s.window.entries)
              (lookup j t.0.window.entries))
      → let prev = id_of (settled_sentinel s) in
        let r =
          conclude o
            (is_visible (lookup rc.id s.window.entries) prev)
            prev
            rc
            post
            s
            (see rc.id empty_pending) in
        visible r.0 j ≡ client r.1 (is_visible (lookup j s.window.entries) prev) j
  unfolding conclude visible
  conclude-client none rc post s j g i h f =
      ap (λ u. is_visible (lookup j s.window.entries) (id_of (settled_sentinel u))) i
  conclude-client (some t) rc post s j g i h f =
      report-client rc post t.1 s t.0 j g (h t refl) (f t refl)

  -- One event record, applied to a subscription with a well-formed window within its capacity: whatever
  -- the record and its post value, the visible records after it are those of a client that had the
  -- visible ones before, drops what the event removes and takes up what it adds.
  pub apply_record-client :
      (rc : EventRecord O) (value : Option D) (s : QuerySub D) (j : String)
      → Good s
      → let r = apply_record rc value s empty_pending in visible r.0 j ≡ client r.1 (visible s j) j
  unfolding apply_record
  apply_record-client rc value s j g =
      subst
        (λ b.
          visible (apply_record rc value s empty_pending).0 j
          ≡ client (apply_record rc value s empty_pending).1 b j)
        (sym (visible_lem s j))
        (conclude-client
          (transition (lookup rc.id (settle s).window.entries) (post_doc rc value) rc.id (settle s))
          rc (post_doc rc value) (settle s) j (settle-Good s g) (settle_idem s)
          (λ t e.
            transition-Good (post_doc rc value) rc.id (settle s) t (settle-Settled s)
              (settle-Good s g) e)
          (λ t e n.
            transition-Stays (post_doc rc value) rc.id j (settle s) t (settle-Good s g) n e))
