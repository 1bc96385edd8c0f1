-- ===== src/Subscribe/Apply.antt =====
-- internal/subscribe/sub.go, apply, applyRecord and checkDrift: an event classified into the records that
-- entered, changed in and left the visible window.
pub mod Sets
pub mod Implicit
pub mod Client
pub mod Follows
pub mod Capacity
pub mod Closing
pub mod Sent
pub mod Documents
pub mod Replica
use any_sync_sdk.Base.{
  ℕ, suc, ◌+◌, ◌*◌, String, Bool, true, false, not, ◌&&◌, ◌||◌, Option, none, some, List, [], ◌∷◌,
  ◌++◌, ◌==◌, ltb, leb, eqb, length, if◌then◌else◌,
}
use any_sync_sdk.Dict.{Dict, lookup, string_key}
use any_sync_sdk.Subscribe.Window.{Entry, Window}
use any_sync_sdk.Subscribe.Sub.{
  QuerySub, SubscriptionError, overflow, drifted, RemoveReason, deleted_reason, filtered_out,
  displaced, EventRecord, PendingRec, Pending, TryAdd, accepted, overflowed, failed, member, settle,
  settled_sentinel, id_of, same_id, is_visible, transition,
}

module _ {D : Type 0} where
  -- Why a record that was visible is not any more.
  unfoldable pub removal_reason : Option (Entry D) → Bool → Option D → RemoveReason
  removal_reason (some e) deleted post = displaced
  removal_reason none deleted none = deleted_reason
  removal_reason none deleted (some doc) = if deleted then deleted_reason else filtered_out

  abbrev pub shut : Option SubscriptionError → QuerySub D → QuerySub D
  shut err s = record { cfg = s.cfg; window = s.window; lost = s.lost; closed = true; err = err }

  unfoldable pub check_drift : QuerySub D → QuerySub D
  check_drift s =
      if not (ltb 0 s.cfg.limit) || s.closed
      then s
      else if leb (s.cfg.limit * s.cfg.drift_budget) (s.lost * 100)
      then shut (some drifted) s
      else s

  unfoldable pub deliver : TryAdd → QuerySub D → QuerySub D
  deliver accepted s = check_drift s
  deliver overflowed s = shut (some overflow) s
  deliver failed s = s

module _ {D : Type 0} {O : Type 0} where
  abbrev pub empty_pending : Pending D O
  empty_pending = record { added = []; updated = []; removed = []; seen = [] }

  abbrev pub see : String → Pending D O → Pending D O
  see id p = record {
    added = p.added;
    updated = p.updated;
    removed = p.removed;
    seen = id ∷ p.seen;
  }

  abbrev pub pend_added : PendingRec D O → Pending D O → Pending D O
  pend_added r p = record {
    added = p.added ++ r ∷ [];
    updated = p.updated;
    removed = p.removed;
    seen = p.seen;
  }

  abbrev pub pend_updated : PendingRec D O → Pending D O → Pending D O
  pend_updated r p = record {
    added = p.added;
    updated = p.updated ++ r ∷ [];
    removed = p.removed;
    seen = p.seen;
  }

  abbrev pub pend_removed : String → RemoveReason → Pending D O → Pending D O
  pend_removed id reason p = record {
    added = p.added;
    updated = p.updated;
    removed = p.removed ++ (id, reason) ∷ [];
    seen = p.seen;
  }

  -- Post-mutation visibility of the record itself.
  unfoldable pub classify : Bool → Bool → PendingRec D O → RemoveReason → Pending D O → Pending D O
  classify false true r reason p = pend_added r p
  classify true true r reason p = pend_updated r p
  classify true false r reason p = pend_removed r.id reason p
  classify false false r reason p = p

  -- A previous sentinel that is visible now was promoted.
  unfoldable pub promote :
      Option String → Option String → String → QuerySub D → Pending D O → Pending D O
  promote none next id s p = p
  promote (some prev) next id s p =
      if prev == id || member prev p.seen then p else elim (lookup prev s.window.entries) [
        | none ↦ p
        | some e ↦
            if is_visible (some e) next
            then see prev (pend_added (record { id = e.id; doc = e.doc; ops = [] }) p)
            else p
      ]

  -- A new sentinel was demoted.
  unfoldable pub demote : Option String → String → Pending D O → Pending D O
  demote none id p = p
  demote (some next) id p =
      if next == id || member next p.seen then p else see next (pend_removed next displaced p)

  unfoldable pub implicit :
      Option String → Option String → String → QuerySub D → Pending D O → Pending D O
  implicit prev next id s p =
      if same_id prev next then p else demote next id (promote prev next id s p)

  -- What follows the transition: `old` is the visibility before, `prev` the sentinel before.
  unfoldable pub report :
      Bool
      → Option String
      → EventRecord O
      → Option D
      → Option D
      → QuerySub D
      → Pending D O
      → QuerySub D × Pending D O
  report was_visible prev rc post event_doc s2 p =
      let s3 = settle s2 in
      let next = id_of (settled_sentinel s3) in
      let entry = lookup rc.id s3.window.entries in
      let p1 =
        classify was_visible (is_visible entry next)
          (record { id = rc.id; doc = event_doc; ops = rc.ops })
          (removal_reason entry rc.deleted post) p in
      (s3, implicit prev next rc.id s3 p1)

  unfoldable pub conclude :
      Option (QuerySub D × Option D)
      → Bool
      → Option String
      → EventRecord O
      → Option D
      → QuerySub D
      → Pending D O
      → QuerySub D × Pending D O
  conclude none was_visible prev rc post s1 p = (s1, p)
  conclude (some t) was_visible prev rc post s1 p = report was_visible prev rc post t.1 t.0 p

  -- The lookup of the post value is skipped for a deleted record.
  abbrev pub post_doc : EventRecord O → Option D → Option D
  post_doc rc post = if rc.deleted then none else post

  unfoldable pub apply_record :
      EventRecord O → Option D → QuerySub D → Pending D O → QuerySub D × Pending D O
  apply_record rc value s p =
      let s1 = settle s in
      let prev = id_of (settled_sentinel s1) in
      let old = lookup rc.id s1.window.entries in
      let post = post_doc rc value in
      conclude (transition old post rc.id s1) (is_visible old prev) prev rc post s1 (see rc.id p)

  -- Each record with its post value, which `postValue(i)` gives.
  unfoldable pub apply_records :
      List (EventRecord O × Option D) → QuerySub D → Pending D O → QuerySub D × Pending D O
  apply_records [] s p = (s, p)
  apply_records ((rc, value) ∷ rs) s p =
      if rc.id == ""
      then apply_records rs s p
      else (let next = apply_record rc value s p in apply_records rs next.0 next.1)

  unfoldable pub is_empty : Pending D O → Bool
  is_empty p = elim p.added [
    | r ∷ rs ↦ false
    | [] ↦ elim p.updated [ r ∷ rs ↦ false | [] ↦ elim p.removed [ r ∷ rs ↦ false | [] ↦ true ] ]
  ]

  -- The subscription after the event, and what was offered to its mailbox.
  unfoldable pub apply :
      TryAdd → List (EventRecord O × Option D) → QuerySub D → QuerySub D × Option (Pending D O)
  apply outcome records s =
      if s.closed
      then (s, none)
      else (let next = apply_records records s empty_pending in
          if is_empty next.1
          then (check_drift next.0, none)
          else (deliver outcome next.0, some next.1))
