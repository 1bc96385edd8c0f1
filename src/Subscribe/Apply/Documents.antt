-- ===== src/Subscribe/Apply/Documents.antt =====
-- internal/subscribe/sub.go, applyRecord: a client that keeps the documents of the events has those of the
-- visible window.
use any_sync_sdk.Base.{
  String, ◌≡◌, refl, sym, ap, ◌∙◌, subst, inl, inr, Bool, true, false, Option, none, some, [], ◌∷◌,
  ◌==◌, Bool-cases, eq_iff, eq_refl, arith,
}
use any_sync_sdk.Dict.{lookup, string_key}
use any_sync_sdk.Subscribe.Window.{Entry}
use any_sync_sdk.Subscribe.Sub.{
  QuerySub, EventRecord, PendingRec, Pending, RemoveReason, settle, settled_sentinel, id_of,
  is_visible, transition, windowed,
}
use any_sync_sdk.Subscribe.Apply.{
  empty_pending, see, classify, implicit, report, conclude, apply_record, post_doc, removal_reason,
}
use any_sync_sdk.Subscribe.Sub.Transition.{
  Good, settle-Good, settle-Settled, transition-Good, own_id,
}
use any_sync_sdk.Subscribe.Apply.Sets.{Stays}
use any_sync_sdk.Subscribe.Apply.Client.{visible, entries-settle, settle_idem, transition-Stays}
use any_sync_sdk.Subscribe.Apply.Follows.{apply_record-client, visible_lem}
use any_sync_sdk.Subscribe.Apply.Sent.{
  held_doc, shown_doc, Told, transition-Told, sent, client_doc, AllSent, classify-AllSent,
  implicit-AllSent, visible-Carries, implicit-updated, doc_in, sent-Seen, combined,
}

module _ {D : Type 0} where
  Stays-doc :
      (j : String) (prev next : Option String) (before after : Option (Entry D))
      → Stays j prev before after
      → is_visible after next ≡ true
      → held_doc after ≡ held_doc before
  Stays-doc j prev next before after (inl e) v = ap held_doc e
  Stays-doc j prev next before after (inr (e, q)) v =
      let hidden : false ≡ true = ap (λ o. is_visible o next) (sym e) ∙ v in ground arith

  visible_of_settled :
      (s : QuerySub D) (j : String)
      → settle s ≡ s
      → visible s j ≡ is_visible (lookup j s.window.entries) (id_of (settled_sentinel s))
  unfolding visible
  visible_of_settled s j h =
      ap (λ u. is_visible (lookup j s.window.entries) (id_of (settled_sentinel u))) h

  settle-windowed : (s : QuerySub D) → windowed (settle s) ≡ windowed s
  unfolding windowed settle
  settle-windowed s = ground arith

module _ {D : Type 0} {O : Type 0} where
  report-AllSent :
      (was : Bool) (prev : Option String) (rc : EventRecord O) (post event_doc : Option D)
      (u : QuerySub D)
      → Good u
      → Told rc.id (u, event_doc)
      → let r = report was prev rc post event_doc u (see rc.id empty_pending) in AllSent r.0 r.1
  unfolding report
  report-AllSent was prev rc post event_doc u g t =
      let v = settle u in
      let next = id_of (settled_sentinel v) in
      let entry = lookup rc.id v.window.entries in
      let r : PendingRec D O = record { id = rc.id; doc = event_doc; ops = rc.ops } in
      let reason = removal_reason entry rc.deleted post in
      let first : Pending D O = see rc.id empty_pending in
      let own = λ (k : String) (e : Entry D) (o : lookup k v.window.entries ≡ some e).
        own_id k e v (settle-Good u g).0 o in
      implicit-AllSent prev rc.id v (classify was (is_visible entry next) r reason first) own (
        classify-AllSent v was (is_visible entry next) r reason first
          (λ q.
            visible-Carries v r entry refl
              (λ e o. t e (ap (lookup rc.id) (sym (entries-settle u)) ∙ o)) q)
          (tt, tt))

  conclude-AllSent :
      (o : Option (QuerySub D × Option D)) (was : Bool) (prev : Option String) (rc : EventRecord O)
      (post : Option D) (s : QuerySub D)
      → ((t : QuerySub D × Option D) → o ≡ some t → Good t.0 × Told rc.id t)
      → let r = conclude o was prev rc post s (see rc.id empty_pending) in AllSent r.0 r.1
  unfolding conclude
  conclude-AllSent none was prev rc post s h = (tt, tt)
  conclude-AllSent (some t) was prev rc post s h =
      let (g, told) = h t refl in report-AllSent was prev rc post t.1 t.0 g told

  conclude-settled :
      (o : Option (QuerySub D × Option D)) (was : Bool) (prev : Option String) (rc : EventRecord O)
      (post : Option D) (s : QuerySub D) (p : Pending D O)
      → settle s ≡ s
      → settle (conclude o was prev rc post s p).0 ≡ (conclude o was prev rc post s p).0
  unfolding conclude report
  conclude-settled none was prev rc post s p h = h
  conclude-settled (some t) was prev rc post s p h = settle_idem t.0

  classify_both :
      (was now : Bool) (r : PendingRec D O) (reason : RemoveReason)
      → was ≡ true
      → now ≡ true
      → (classify was now r reason (see r.id empty_pending)).updated ≡ r ∷ []
  unfolding classify
  classify_both true true r reason a b = refl
  classify_both true false r reason a b = ground arith
  classify_both false now r reason a b = ground arith

  updated-sent :
      (p : Pending D O) (r : PendingRec D O)
      → p.updated ≡ r ∷ []
      → sent p r.id ≡ none
      → false ≡ true
  updated-sent p r e h =
      let found : doc_in r.id p.updated ≡ some r.doc =
        ap (doc_in r.id) e ∙ ground (arith, eq_refl r.id) in
      ground arith

  -- A record that the event does not carry, visible before and after, keeps its document.
  abbrev Unsent : QuerySub D → QuerySub D × Pending D O → String → Type 0
  Unsent s r j =
      sent r.1 j ≡ none
      → is_visible (lookup j s.window.entries) (id_of (settled_sentinel s)) ≡ true
      → is_visible (lookup j r.0.window.entries) (id_of (settled_sentinel r.0)) ≡ true
      → held_doc (lookup j r.0.window.entries) ≡ held_doc (lookup j s.window.entries)

  report-Unsent_self :
      (rc : EventRecord O) (post event_doc : Option D) (s u : QuerySub D)
      → let prev = id_of (settled_sentinel s) in
        let was = is_visible (lookup rc.id s.window.entries) prev in
        Unsent s (report was prev rc post event_doc u (see rc.id empty_pending)) rc.id
  unfolding report
  report-Unsent_self rc post event_doc s u n a b =
      let prev = id_of (settled_sentinel s) in
      let v = settle u in
      let next = id_of (settled_sentinel v) in
      let entry = lookup rc.id v.window.entries in
      let r : PendingRec D O = record { id = rc.id; doc = event_doc; ops = rc.ops } in
      let reason = removal_reason entry rc.deleted post in
      let was = is_visible (lookup rc.id s.window.entries) prev in
      let p : Pending D O =
        classify was (is_visible entry next) r reason (see rc.id empty_pending) in
      let never =
        updated-sent (implicit prev next rc.id v p) r
          (implicit-updated prev next rc.id v p
            ∙ classify_both was (is_visible entry next) r reason a b)
          n in
      ground arith

  conclude-Unsent :
      (o : Option (QuerySub D × Option D)) (rc : EventRecord O) (post : Option D) (s : QuerySub D)
      (j : String)
      → ((t : QuerySub D × Option D)
          → o ≡ some t
          → (j == rc.id) ≡ false
          → Stays j
              (id_of (settled_sentinel s))
              (lookup j s.window.entries)
              (lookup j t.0.window.entries))
      → let prev = id_of (settled_sentinel s) in
        let was = is_visible (lookup rc.id s.window.entries) prev in
        Unsent s (conclude o was prev rc post s (see rc.id empty_pending)) j
  unfolding conclude report
  conclude-Unsent none rc post s j f n a b = refl
  conclude-Unsent (some t) rc post s j f n a b = elim (Bool-cases (j == rc.id)) [
    | inl e ↦
        let prev = id_of (settled_sentinel s) in
        let was = is_visible (lookup rc.id s.window.entries) prev in
        subst (Unsent s (report was prev rc post t.1 t.0 (see rc.id empty_pending)))
          (sym ((eq_iff j rc.id).0 e)) (report-Unsent_self rc post t.1 s t.0) n a b
    | inr e ↦
        let same = ap (lookup j) (entries-settle t.0) in
        Stays-doc j (id_of (settled_sentinel s)) (id_of (settled_sentinel (settle t.0)))
          (lookup j s.window.entries) (lookup j (settle t.0).window.entries)
          (subst (Stays j (id_of (settled_sentinel s)) (lookup j s.window.entries)) (sym same)
            (f t refl e))
          b
  ]

  -- After one event record the client has the documents of the visible records.
  pub apply_record-client_doc :
      (rc : EventRecord O) (value : Option D) (s : QuerySub D) (j : String)
      → Good s
      → windowed s ≡ true
      → let r = apply_record rc value s empty_pending in
        shown_doc r.0 j ≡ client_doc r.1 (shown_doc s j) j
  unfolding apply_record
  apply_record-client_doc rc value s j g w =
      let s1 = settle s in
      let old = lookup rc.id s1.window.entries in
      let prev = id_of (settled_sentinel s1) in
      let step = transition old (post_doc rc value) rc.id s1 in
      let r = apply_record rc value s empty_pending in
      let good = settle-Good s g in
      let quiet =
        conclude-settled step (is_visible old prev) prev rc (post_doc rc value) s1
          (see rc.id empty_pending) (settle_idem s) in
      let now = visible_of_settled r.0 j quiet in
      let all = conclude-AllSent step (is_visible old prev) prev rc (post_doc rc value) s1 (λ t e. (
        transition-Good (post_doc rc value) rc.id s1 t (settle-Settled s) good e,
        transition-Told (post_doc rc value) rc.id s1 t good (settle-windowed s ∙ w) e,
      )) in
      let kept =
        conclude-Unsent step rc (post_doc rc value) s1 j
          (λ t e n. transition-Stays (post_doc rc value) rc.id j s1 t good n e) in
      let same = ap (λ es. held_doc (lookup j es)) (entries-settle s) in
      combined (visible s j) (visible r.0 j) (held_doc (lookup j s.window.entries))
        (held_doc (lookup j r.0.window.entries)) r.1 j (apply_record-client rc value s j g)
        (λ d h. let (v, q) = sent-Seen r.0 j d r.1 all h in (now ∙ v, q))
        (λ n a b. kept n (sym (visible_lem s j) ∙ a) (sym now ∙ b) ∙ same)
