-- ===== src/Subscribe/Apply/Capacity.antt =====
-- internal/subscribe/sub.go: the invariant of a subscription: its window is well-formed and never holds
-- more than one record beyond its limit, the sentinel.
use any_sync_sdk.Base.{
  String, ◌≡◌, refl, inl, inr, Bool, not, ◌||◌, leb, ◌*◌, Option, none, some, List, [], ◌∷◌, ◌==◌,
  ltb, if◌then◌else◌, if-Has, Bool-cases,
}
use any_sync_sdk.Dict.{lookup, string_key}
use any_sync_sdk.Subscribe.Sub.{
  QuerySub, TryAdd, accepted, overflowed, failed, id_of, is_visible, Pending, EventRecord, settle,
  settled_sentinel, transition,
}
use any_sync_sdk.Subscribe.Sub.{drifted}
use any_sync_sdk.Subscribe.Apply.{
  shut, apply_record, apply_records, report, see, post_doc, conclude, check_drift, deliver, apply,
  is_empty, empty_pending,
}
use any_sync_sdk.Subscribe.Sub.Transition.{Good, settle-Good, settle-Settled, transition-Good}

module _ {D : Type 0} where
  check_drift-Good : (s : QuerySub D) → Good s → Good (check_drift s)
  unfolding check_drift
  check_drift-Good s g =
      if-Has Good (not (ltb 0 s.cfg.limit) || s.closed) s
        (if leb (s.cfg.limit * s.cfg.drift_budget) (s.lost * 100) then shut (some drifted) s else s)
        g
        (if-Has Good (leb (s.cfg.limit * s.cfg.drift_budget) (s.lost * 100)) (shut (some drifted) s)
          s g g)

  deliver-Good : (outcome : TryAdd) (s : QuerySub D) → Good s → Good (deliver outcome s)
  unfolding deliver
  deliver-Good accepted s g = check_drift-Good s g
  deliver-Good overflowed s g = g
  deliver-Good failed s g = g

module _ {D : Type 0} {O : Type 0} where
  conclude-Good :
      (o : Option (QuerySub D × Option D)) (was : Bool) (prev : Option String) (rc : EventRecord O)
      (post : Option D) (s : QuerySub D) (p : Pending D O)
      → Good s
      → ((t : QuerySub D × Option D) → o ≡ some t → Good t.0)
      → Good (conclude o was prev rc post s p).0
  unfolding conclude report
  conclude-Good none was prev rc post s p g f = g
  conclude-Good (some t) was prev rc post s p g f = settle-Good t.0 (f t refl)

  pub apply_record-Good :
      (rc : EventRecord O) (value : Option D) (s : QuerySub D) (p : Pending D O)
      → Good s
      → Good (apply_record rc value s p).0
  unfolding apply_record
  apply_record-Good rc value s p g =
      conclude-Good
        (transition (lookup rc.id (settle s).window.entries) (post_doc rc value) rc.id (settle s))
        (is_visible (lookup rc.id (settle s).window.entries) (id_of (settled_sentinel (settle s))))
        (id_of (settled_sentinel (settle s))) rc (post_doc rc value) (settle s) (see rc.id p)
        (settle-Good s g)
        (λ t e.
          transition-Good (post_doc rc value) rc.id (settle s) t (settle-Settled s)
            (settle-Good s g) e)

  apply_records-Good :
      (rs : List (EventRecord O × Option D)) (s : QuerySub D) (p : Pending D O)
      → Good s
      → Good (apply_records rs s p).0
  unfolding apply_records
  apply_records-Good [] s p g = g
  apply_records-Good ((rc, value) ∷ rs) s p g = elim (Bool-cases (rc.id == "")) [
    | inl e ↦ rw e (apply_records-Good rs s p g)
    | inr e ↦ rw e (
        apply_records-Good rs (apply_record rc value s p).0 (apply_record rc value s p).1
          (apply_record-Good rc value s p g))
  ]

  -- No event makes a subscription hold more than one record beyond its limit or leaves a boundary
  -- pointer that is not extreme: the well-formedness of the window and the capacity of a subscription
  -- that has them are kept, whatever records the event has and whatever the mailbox answers.
  pub apply-Good :
      (outcome : TryAdd) (rs : List (EventRecord O × Option D)) (s : QuerySub D)
      → Good s
      → Good (apply outcome rs s).0
  unfolding apply
  apply-Good outcome rs s g =
      let good = apply_records-Good rs s empty_pending g in
      let next = apply_records rs s empty_pending in
      if-Has (λ (r : QuerySub D × Option (Pending D O)). Good r.0) s.closed (s, none)
        (if is_empty next.1
          then (check_drift next.0, none)
          else (deliver outcome next.0, some next.1))
        g
        (if-Has (λ (r : QuerySub D × Option (Pending D O)). Good r.0) (is_empty next.1)
          (check_drift next.0, none) (deliver outcome next.0, some next.1)
          (check_drift-Good next.0 good) (deliver-Good outcome next.0 good))
