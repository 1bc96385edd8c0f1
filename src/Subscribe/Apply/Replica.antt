-- ===== src/Subscribe/Apply/Replica.antt =====
-- internal/subscribe/sub.go, apply: a client that keeps the documents of the events that are offered to it,
-- over any number of events of one record.
use any_sync_sdk.Base.{
  String, ◌≡◌, ◌*◌, refl, ap, ◌∙◌, inl, inr, true, ◌||◌, not, Option, none, some, List, [], ◌∷◌,
  ◌==◌, Bool-cases, arith, if-Has, if◌then◌else◌, ltb, leb,
}
use any_sync_sdk.Subscribe.Sub.{
  QuerySub, SubConfig, SubscriptionError, EventRecord, PendingRec, Pending, RemoveReason, accepted,
  settle, settled_sentinel, at_capacity, windowed, drifted,
}
use any_sync_sdk.Subscribe.Window.{ensure_max_ref}
use any_sync_sdk.Subscribe.Apply.{
  empty_pending, shut, check_drift, deliver, is_empty, apply, apply_record, apply_records,
}
use any_sync_sdk.Subscribe.Sub.Transition.{Good}
use any_sync_sdk.Subscribe.Apply.Client.{visible}
use any_sync_sdk.Subscribe.Apply.Capacity.{apply-Good}
use any_sync_sdk.Subscribe.Apply.Closing.{apply_record-Same}
use any_sync_sdk.Subscribe.Apply.Sent.{shown_doc, client_doc}
use any_sync_sdk.Subscribe.Apply.Documents.{apply_record-client_doc}

module _ {D : Type 0} where
  shut-shown_doc :
      (err : Option SubscriptionError) (s : QuerySub D) (j : String)
      → shown_doc (shut err s) j ≡ shown_doc s j
  unfolding visible settle at_capacity settled_sentinel ensure_max_ref
  shut-shown_doc err s j = ground arith

  -- A close for drift hides nothing and keeps the configuration.
  check_drift-shown_doc :
      (s : QuerySub D) (j : String)
      → (shown_doc (check_drift s) j ≡ shown_doc s j) × ((check_drift s).cfg ≡ s.cfg)
  unfolding check_drift
  check_drift-shown_doc s j =
      let P : QuerySub D → Type 0 = λ u. (shown_doc u j ≡ shown_doc s j) × (u.cfg ≡ s.cfg) in
      if-Has P (not (ltb 0 s.cfg.limit) || s.closed) s _ (refl, refl)
        (if-Has P (leb (s.cfg.limit * s.cfg.drift_budget) (s.lost * 100)) (shut (some drifted) s) s
          (shut-shown_doc (some drifted) s j, refl) (refl, refl))

module _ {D : Type 0} {O : Type 0} where
  -- What the client has after what it was offered, if anything.
  abbrev pub offered_doc : Option (Pending D O) → Option (Option D) → String → Option (Option D)
  offered_doc none had j = had
  offered_doc (some p) had j = client_doc p had j

  empty_lists :
      (a u : List (PendingRec D O)) (r : List (String × RemoveReason)) (seen : List String)
      (had : Option (Option D)) (j : String)
      → let p : Pending D O = record { added = a; updated = u; removed = r; seen = seen } in
        is_empty p ≡ true → client_doc p had j ≡ had
  unfolding is_empty
  empty_lists [] [] [] seen had j h = refl
  empty_lists [] [] (x ∷ r) seen had j h = ground arith
  empty_lists [] (x ∷ u) r seen had j h = ground arith
  empty_lists (x ∷ a) u r seen had j h = ground arith

  -- The end of an event that the mailbox accepts.
  abbrev finish : QuerySub D × Pending D O → QuerySub D × Option (Pending D O)
  finish n = if is_empty n.1 then (check_drift n.0, none) else (deliver accepted n.0, some n.1)

  Follows : QuerySub D → String → QuerySub D × Option (Pending D O) → Type 0
  Follows s j r = (shown_doc r.0 j ≡ offered_doc r.1 (shown_doc s j) j) × (r.0.cfg ≡ s.cfg)

  finish-Follows :
      (s : QuerySub D) (n : QuerySub D × Pending D O) (j : String)
      → shown_doc n.0 j ≡ client_doc n.1 (shown_doc s j) j
      → n.0.cfg ≡ s.cfg
      → Follows s j (finish n)
  unfolding Follows deliver
  finish-Follows s n j h c =
      let (kept, cfg) = check_drift-shown_doc n.0 j in
      elim (Bool-cases (is_empty n.1)) [
        | inl e ↦ rw e (
          kept ∙ h ∙ empty_lists n.1.added n.1.updated n.1.removed n.1.seen (shown_doc s j) j e,
          cfg ∙ c,
        )
        | inr e ↦ rw e (kept ∙ h, cfg ∙ c)
      ]

  apply-Follows :
      (rc : EventRecord O) (value : Option D) (s : QuerySub D) (j : String)
      → Good s
      → windowed s ≡ true
      → Follows s j (apply accepted ((rc, value) ∷ []) s)
  unfolding apply apply_records Follows
  apply-Follows rc value s j g w =
      let next = apply_record rc value s empty_pending in
      let (cfg, _, _) = apply_record-Same rc value s empty_pending in
      if-Has (Follows s j) s.closed (s, none) _ (refl, refl)
        (if-Has (λ n. Follows s j (finish n)) (rc.id == "") (s, empty_pending) next
          (finish-Follows s (s, empty_pending) j refl refl)
          (finish-Follows s next j (apply_record-client_doc rc value s j g w) cfg))

  -- Events of one record each, which the mailbox accepts.
  unfoldable pub apply_each : List (EventRecord O × Option D) → QuerySub D → QuerySub D
  unfolding apply
  apply_each [] s = s
  apply_each (e ∷ es) s = apply_each es (apply accepted (e ∷ []) s).0

  -- The documents that a client has after these events, by what each offers it.
  unfoldable pub client_docs :
      List (EventRecord O × Option D) → QuerySub D → Option (Option D) → String → Option (Option D)
  client_docs [] s had j = had
  client_docs (e ∷ es) s had j =
      let r = apply accepted (e ∷ []) s in client_docs es r.0 (offered_doc r.1 had j) j

  -- A client of a subscription with a limit and a well-formed window within its capacity that starts
  -- with the documents of the visible records, and that for any number of events of one record each,
  -- whose records the mailbox accepts, drops what the event removes and keeps what it adds and
  -- updates, has in the end at every id the document that the window holds of the visible record, and
  -- nothing where no record is visible, also past a close for drift.
  pub apply_each-client_docs :
      (es : List (EventRecord O × Option D)) (s : QuerySub D) (j : String)
      → Good s
      → windowed s ≡ true
      → shown_doc (apply_each es s) j ≡ client_docs es s (shown_doc s j) j
  unfolding apply_each client_docs windowed Follows
  apply_each-client_docs [] s j g w = refl
  apply_each-client_docs ((rc, value) ∷ es) s j g w =
      let r = apply accepted ((rc, value) ∷ []) s in
      let (same, cfg) = apply-Follows rc value s j g w in
      apply_each-client_docs es r.0 j (apply-Good accepted ((rc, value) ∷ []) s g)
        (ap (λ (c : SubConfig D). ltb 0 c.limit) cfg ∙ w)
      ∙ ap (λ d. client_docs es r.0 d j) same
