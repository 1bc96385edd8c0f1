-- ===== src/Crdt/Traces/Collected.antt =====
-- internal/crdt/traces.go: which entries of `_traces` are left.
use any_sync_sdk.Base.{
  String, true, false, ◌≡◌, ◌∙◌, List, [], ◌∷◌, Option, none, some, arith, refl, ap, eq_iff,
  eq_refl, inl, inr, Bool-cases, Option-cases, if◌then◌else◌, ◌==◌, ◌⊎◌,
}
use any_sync_sdk.Anyenc.{Anyenc, Pairs, object, find}
use any_sync_sdk.Crdt.Versions.{versions_key}
use any_sync_sdk.Crdt.Lifecycle.{traces_key}
use any_sync_sdk.Crdt.Traces.{
  contains, stale_keys, traces_of, trace_list, set_trace, del_all, store_traces, record_traces,
  collect_garbage, update_with, update_traces, collect_version_ids,
}
use any_sync_sdk.Crdt.Traces.Held.{Holds, collect_version_ids-Holds}
use any_sync_sdk.Crdt.Op.{Change}

contains_nil : (k : String) → contains [] k ≡ false
unfolding contains
contains_nil k = refl

-- A listed key is stale exactly when it is not in use.
contains-stale_keys {ℓ} :
    {V : Type ℓ} (in_use : List String) (ps : List (String × V)) (k : String)
    → contains in_use k ≡ true
    → contains (stale_keys in_use ps) k ≡ false
unfolding contains stale_keys
contains-stale_keys in_use [] k h = refl
contains-stale_keys in_use ((j, v) ∷ ps) k h =
    ground (arith, eq_iff j k, contains-stale_keys in_use ps k)

module _ {V : Type 0} where
  find-stale_keys :
      (in_use : List String) (ps : Pairs V) (k : String)
      → contains in_use k ≡ false
      → contains (stale_keys in_use ps) k ≡ false
      → find k ps ≡ none
  unfolding contains stale_keys
  find-stale_keys in_use [] k h s = refl
  find-stale_keys in_use ((j, v) ∷ ps) k h s =
      ground (arith, eq_iff j k, find-stale_keys in_use ps k)

module _ ⦃E : Anyenc⦄ where
  open E use {
    Value, view, get, put, del, entries, view-put, get-put, view-del, get-del, get-entries,
    new_object, view-new_object, get-new_object,
  }

  view-del_all : (t : Value) (ks : List String) → view t ≡ object → view (del_all t ks) ≡ object
  unfolding del_all
  view-del_all t [] h = h
  view-del_all t (k ∷ ks) h = view-del_all (del t k) ks (view-del t k h)

  get-del_all :
      (t : Value) (ks : List String) (k : String)
      → view t ≡ object
      → get (del_all t ks) k ≡ (if contains ks k then none else get t k)
  unfolding del_all contains
  get-del_all t [] k h = refl
  get-del_all t (j ∷ ks) k h =
      ground (arith, get-del t j k, view-del t j, get-del_all (del t j) ks k (view-del t j h))

  -- What `_traces` holds under a key; nothing when it is missing or no object.
  abbrev pub trace_at : Value → String → Option Value
  trace_at rec k = elim (traces_of rec) [ none ↦ none | some t ↦ get t k ]

  -- The traces that the collection keeps: those of versions in use, unchanged.
  get-kept :
      (in_use : List String) (t : Value) (k : String)
      → view t ≡ object
      → get (del_all t (stale_keys in_use (entries t))) k
        ≡ (if contains in_use k then get t k else none)
  get-kept in_use t k h = elim (Bool-cases (contains in_use k)) [
    | inl e ↦ ground (
      arith,
      get-del_all t (stale_keys in_use (entries t)) k h,
      contains-stale_keys in_use (entries t) k,
    )
    | inr e ↦ ground (
      arith,
      get-del_all t (stale_keys in_use (entries t)) k h,
      find-stale_keys in_use (entries t) k,
      get-entries t k,
    )
  ]

  view-traces_of : (rec t : Value) → traces_of rec ≡ some t → view t ≡ object
  view-traces_of rec t e = ground arith

  trace_at-store :
      (rec t : Value) (ps : Pairs Value) (k : String)
      → view rec ≡ object
      → view t ≡ object
      → entries t ≡ ps
      → trace_at (store_traces rec t ps) k ≡ get t k
  trace_at-store rec t [] k h o e =
      ground (arith, get-del rec traces_key traces_key, eq_refl traces_key, get-entries t k)
  trace_at-store rec t (p ∷ ps) k h o e =
      ground (arith, get-put rec traces_key traces_key t, eq_refl traces_key)

  -- After the collection a record holds the traces of the versions in use, each as it was, and no
  -- others.
  pub trace_at-collect_garbage :
      (rec : Value) (in_use : List String) (k : String)
      → view rec ≡ object
      → trace_at (collect_garbage rec in_use) k
        ≡ (if contains in_use k then trace_at rec k else none)
  unfolding collect_garbage
  trace_at-collect_garbage rec in_use k h = elim (Option-cases (traces_of rec)) [
    | inl e ↦ ground arith
    | inr (t, e) ↦
        let kept = del_all t (stale_keys in_use (entries t)) in
        ground (
          arith,
          view-traces_of rec t e,
          get-kept in_use t k (view-traces_of rec t e),
          trace_at-store rec kept (entries kept) k h
              (view-del_all t (stale_keys in_use (entries t)) (view-traces_of rec t e)) refl,
        )
  ]

  trace_at-put :
      (rec t : Value) (k : String)
      → view rec ≡ object
      → view t ≡ object
      → trace_at (put rec traces_key t) k ≡ get t k
  trace_at-put rec t k h o = ground (arith, get-put rec traces_key traces_key t, eq_refl traces_key)

  view-set_trace :
      (v : String) (ids : List String) (t : Option Value)
      → ((x : Value) → t ≡ some x → view x ≡ object)
      → view (set_trace v ids t) ≡ object
  view-set_trace v ids none h = view-put new_object v (trace_list ids) view-new_object
  view-set_trace v ids (some x) h = view-put x v (trace_list ids) (h x refl)

  get-set_trace :
      (v : String) (ids : List String) (t : Option Value) (k : String)
      → ((x : Value) → t ≡ some x → view x ≡ object)
      → get (set_trace v ids t) k
        ≡ (if v == k then some (trace_list ids) else elim t [ none ↦ none | some x ↦ get x k ])
  get-set_trace v ids none k h =
      ground (arith, get-put new_object v k (trace_list ids), view-new_object, get-new_object k)
  get-set_trace v ids (some x) k h = get-put x v k (trace_list ids) (h x refl)

  -- The entry of a change: its trace ids, nothing when it has none.
  abbrev pub own_trace : List String → Option Value
  own_trace [] = none
  own_trace (id ∷ ids) = some (trace_list (id ∷ ids))

  -- What `record_traces` leaves under a key: the ids under the version, and nothing there without ids.
  trace_at-record_traces :
      (rec : Value) (v : String) (ids : List String) (k : String)
      → view rec ≡ object
      → trace_at (record_traces rec v ids) k ≡ (if v == k then own_trace ids else trace_at rec k)
  unfolding record_traces
  trace_at-record_traces rec v [] k h = elim (Option-cases (traces_of rec)) [
    | inl e ↦ ground arith
    | inr (t, e) ↦ ground (
      arith,
      view-traces_of rec t e,
      view-del t v,
      get-del t v k,
      trace_at-put rec (del t v) k h (view-del t v (view-traces_of rec t e)),
    )
  ]
  trace_at-record_traces rec v (id ∷ ids) k h =
      trace_at-put rec _ k h
        (view-set_trace v (id ∷ ids) (traces_of rec) (λ x e. view-traces_of rec x e))
      ∙ get-set_trace v (id ∷ ids) (traces_of rec) k (λ x e. view-traces_of rec x e)

  view-record_traces :
      (rec : Value) (v : String) (ids : List String)
      → view rec ≡ object
      → view (record_traces rec v ids) ≡ object
  unfolding record_traces
  view-record_traces rec v [] h = grind (arith, view-put)
  view-record_traces rec v (id ∷ ids) h = view-put rec traces_key _ h

  trace_at-del :
      (rec : Value) (k : String) → view rec ≡ object → trace_at (del rec traces_key) k ≡ none
  trace_at-del rec k h = ground (arith, get-del rec traces_key traces_key, eq_refl traces_key)

  trace_at-update_with :
      (rec : Value) (ch : Change Value) (in_use : List String) (k : String)
      → view rec ≡ object
      → trace_at (update_with rec ch in_use) k ≡ (
          if contains in_use k
          then (if ch.version_id == k then own_trace ch.trace_ids else trace_at rec k)
          else none)
  trace_at-update_with rec ch [] k h = rw (contains_nil k) (trace_at-del rec k h)
  trace_at-update_with rec ch (v ∷ vs) k h = elim (Bool-cases (contains (v ∷ vs) ch.version_id)) [
    | inl e ↦ rw e (
        trace_at-collect_garbage (record_traces rec ch.version_id ch.trace_ids) (v ∷ vs) k
          (view-record_traces rec ch.version_id ch.trace_ids h)
        ∙ ap (λ x. if contains (v ∷ vs) k then x else none)
            (trace_at-record_traces rec ch.version_id ch.trace_ids k h))
    | inr e ↦
        rw e (trace_at-collect_garbage rec (v ∷ vs) k h ∙ ground (arith, eq_iff ch.version_id k))
  ]

  trace_at-listed :
      (rec ver : Value) (ch : Change Value) (k : String)
      → view rec ≡ object
      → get rec versions_key ≡ some ver
      → trace_at (update_traces rec ch) k ≡ (
          if contains (collect_version_ids ver) k
          then (if ch.version_id == k then own_trace ch.trace_ids else trace_at rec k)
          else none)
  unfolding update_traces
  trace_at-listed rec ver ch k h e =
      rw (e, update_traces) (trace_at-update_with rec ch (collect_version_ids ver) k h)

  -- After an apply step a record that has a _ver holds, for a version that stands in it (a non-empty
  -- string of the tree of objects), the change's own trace ids when it is the change's version
  -- (nothing when the change has none) and otherwise what stood there before; for a version that does
  -- not stand in it, it holds no traces.
  pub trace_at-update_traces :
      (rec ver : Value) (ch : Change Value) (k : String)
      → view rec ≡ object
      → get rec versions_key ≡ some ver
      → (Holds k ver
          × (trace_at (update_traces rec ch) k
              ≡ (if ch.version_id == k then own_trace ch.trace_ids else trace_at rec k)))
        ⊎ ((¬ Holds k ver) × (trace_at (update_traces rec ch) k ≡ none))
  trace_at-update_traces rec ver ch k h e =
      let kept = trace_at-listed rec ver ch k h e in
      let own = if ch.version_id == k then own_trace ch.trace_ids else trace_at rec k in
      elim (collect_version_ids-Holds ver k) [
        | inl (c, held) ↦ inl (held, kept ∙ ap (λ b. if b then own else none) c)
        | inr (c, held) ↦ inr (held, kept ∙ ap (λ b. if b then own else none) c)
      ]
