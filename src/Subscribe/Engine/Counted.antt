-- ===== src/Subscribe/Engine/Counted.antt =====
-- internal/subscribe/engine.go: the counter that gates the apply path counts the registered subscriptions.
use Prim.Native.Nat.{◌%◌}
use any_sync_sdk.Base.{
  ℕ, ◌+◌, ◌≤◌, ◌<◌, String, ◌≡◌, refl, ◌∙◌, Bool, not, ◌&&◌, ◌||◌, Option, none, some, List, [],
  ◌∷◌, ltb, eqb, length, if-Has, arith,
}
use any_sync_sdk.Dict.{
  lookup, insert, number_key, Distinct, insert-Distinct, delete-Distinct, lookup-insert_ne,
  lookup-delete_lem,
}
use any_sync_sdk.Dict.Lengths.{length-insert_fresh, length-delete_held_once}
use any_sync_sdk.Subscribe.Scope.{Scope}
use any_sync_sdk.Subscribe.Sub.{SubConfig, QuerySub, SubscriptionError, EventRecord, TryAdd}
use any_sync_sdk.Subscribe.Engine.{
  Engine, SubscribeError, new_engine, new_sub, with_defaults, populate, close_found,
  has_subscribers, enter, subscribe, close_object, close_sub, close_engine, on_apply,
}

pub data Call (D : Type 0) (O : Type 0) : Type 0 where
  subscribe_call : Bool → SubConfig D → Scope → Option (List (String × Option D)) → Call D O
  apply_call : (ℕ → TryAdd) → String → String → Option (List (EventRecord O × Option D)) → Call D O
  close_object_call : String → SubscriptionError → Call D O
  close_sub_call : ℕ → Call D O
  close_call : Call D O

module _ {D : Type 0} {O : Type 0} where
  unfoldable pub step : String → Call D O → Engine D → Engine D
  step objects (subscribe_call sort cfg scope rows) e = (subscribe sort cfg scope rows e).0
  step objects (apply_call outcome object_id dataset records) e =
      on_apply outcome objects object_id dataset records e
  step objects (close_object_call object_id reason) e = close_object object_id reason e
  step objects (close_sub_call id) e = close_sub id e
  step objects close_call e = close_engine e

  unfoldable pub run : String → List (Call D O) → Engine D → Engine D
  run objects [] e = e
  run objects (c ∷ cs) e = run objects cs (step objects c e)

module _ {D : Type 0} where
  -- The counter counts the table, whose numbers differ and are not above the last one given.
  abbrev pub Counted : ℕ → Engine D → Type 0
  Counted n e =
      (e.counter ≡ length e.subs)
      × Distinct e.subs
      × ((id : ℕ) → e.next_id < id → lookup id e.subs ≡ none)
      × (e.next_id ≤ n)

  later : (n : ℕ) (e : Engine D) → Counted n e → Counted (n + 1) e
  later n e (c, d, f, b) = (c, d, f, omega arith)

  entered :
      (n i : ℕ) (scope : Scope) (e : Engine D)
      → i ≡ e.next_id + 1
      → Counted n e
      → (e.counter + 1 ≡ length (insert i scope e.subs))
        × Distinct (insert i scope e.subs)
        × ((id : ℕ) → i < id → lookup id (insert i scope e.subs) ≡ none)
        × (i ≤ n + 1)
  entered n i scope e w (c, d, f, b) =
      let fresh = f i (omega arith) in
      (
        (let longer = length-insert_fresh i scope e.subs fresh in omega arith),
        insert-Distinct i scope e.subs d,
        λ id l. lookup-insert_ne i scope id e.subs (ground arith) ∙ f id (omega arith),
        omega arith,
      )

  enter-Counted :
      (n : ℕ) (scope : Scope) (s : QuerySub D) (e : Engine D)
      → n + 1 < 18446744073709551616
      → Counted n e
      → Counted (n + 1) (enter scope s e)
  enter-Counted n scope s e h g =
      let (c, d, f, b) = g in
      entered n ((e.next_id + 1) % 18446744073709551616) scope e (omega arith) g

  close_found-Counted :
      (o : Option Scope) (n id : ℕ) (e : Engine D)
      → lookup id e.subs ≡ o
      → Counted n e
      → Counted n (close_found o id e)
  unfolding close_found
  close_found-Counted none n id e q g = g
  close_found-Counted (some scope) n id e q (c, d, f, b) = (
    (let shorter = length-delete_held_once id scope e.subs d q in omega arith),
    delete-Distinct id e.subs d,
    λ j l.
        lookup-delete_lem id j e.subs
        ∙ if-Has (λ o. o ≡ none) (eqb j id) none (lookup j e.subs) refl (f j l),
    b,
  )

  subscribe-Counted :
      (n : ℕ) (sort : Bool) (cfg : SubConfig D) (scope : Scope)
      (rows : Option (List (String × Option D))) (e : Engine D)
      → n + 1 < 18446744073709551616
      → Counted n e
      → Counted (n + 1) (subscribe sort cfg scope rows e).0
  unfolding subscribe
  subscribe-Counted n sort cfg scope none e h g =
      let P = λ (r : Engine D × Option SubscribeError). Counted (n + 1) r.0 in
      if-Has P (ltb 0 cfg.limit && not sort) (e, some SubscribeError.limit_without_sort) _
        (later n e g)
        (if-Has P e.closed (e, some SubscribeError.engine_closed)
          (e, some SubscribeError.snapshot_failed) (later n e g) (later n e g))
  subscribe-Counted n sort cfg scope (some rows) e h g =
      let P = λ (r : Engine D × Option SubscribeError). Counted (n + 1) r.0 in
      let s = populate rows (new_sub (with_defaults cfg)) in
      if-Has P (ltb 0 cfg.limit && not sort) (e, some SubscribeError.limit_without_sort) _
        (later n e g)
        (if-Has P e.closed (e, some SubscribeError.engine_closed) (enter scope s e, none)
          (later n e g) (enter-Counted n scope s e h g))

  close_object-Counted :
      (n : ℕ) (object_id : String) (reason : SubscriptionError) (e : Engine D)
      → Counted n e
      → Counted n (close_object object_id reason e)
  unfolding close_object
  close_object-Counted n object_id reason e g =
      if-Has (Counted n) (e.closed || eqb e.counter 0) e _ g g

  close_engine-Counted : (n : ℕ) (e : Engine D) → Counted n e → Counted n (close_engine e)
  unfolding close_engine
  close_engine-Counted n e g =
      let (c, d, f, b) = g in if-Has (Counted n) e.closed e _ g (refl, tt, λ id l. refl, b)

module _ {D : Type 0} {O : Type 0} where
  on_apply-Counted :
      (n : ℕ) (outcome : ℕ → TryAdd) (objects object_id dataset : String)
      (records : Option (List (EventRecord O × Option D))) (e : Engine D)
      → Counted n e
      → Counted n (on_apply outcome objects object_id dataset records e)
  unfolding on_apply
  on_apply-Counted n outcome objects object_id dataset none e g = g
  on_apply-Counted n outcome objects object_id dataset (some records) e g =
      if-Has (Counted n) (e.closed || eqb e.counter 0) e _ g g

  step-Counted :
      (n : ℕ) (objects : String) (c : Call D O) (e : Engine D)
      → n + 1 < 18446744073709551616
      → Counted n e
      → Counted (n + 1) (step objects c e)
  unfolding step close_sub
  step-Counted n objects (subscribe_call sort cfg scope rows) e h g =
      subscribe-Counted n sort cfg scope rows e h g
  step-Counted n objects (apply_call outcome object_id dataset records) e h g =
      later n (on_apply outcome objects object_id dataset records e)
        (on_apply-Counted n outcome objects object_id dataset records e g)
  step-Counted n objects (close_object_call object_id reason) e h g =
      later n (close_object object_id reason e) (close_object-Counted n object_id reason e g)
  step-Counted n objects (close_sub_call id) e h g =
      later n (close_sub id e) (close_found-Counted (lookup id e.subs) n id e refl g)
  step-Counted n objects close_call e h g = later n (close_engine e) (close_engine-Counted n e g)

  run-Counted :
      (cs : List (Call D O)) (n : ℕ) (objects : String) (e : Engine D)
      → n + length cs < 18446744073709551616
      → Counted n e
      → Counted (n + length cs) (run objects cs e)
  unfolding run
  run-Counted [] n objects e h g = let (c, d, f, b) = g in (c, d, f, omega arith)
  run-Counted (c ∷ cs) n objects e h g =
      let (c1, d1, f1, b1) =
        run-Counted cs (n + 1) objects (step objects c e) (omega arith)
          (step-Counted n objects c e (omega arith) g) in
      (c1, d1, f1, omega arith)

  -- After fewer than 2^63 calls on a new engine, of subscriptions that succeed or fail, events, closed
  -- objects, closed subscriptions and a closed engine, the engine reports that it has subscribers exactly
  -- when its table is not empty.
  pub has_subscribers-run :
      (objects : String) (cs : List (Call D O))
      → length cs < 9223372036854775808
      → has_subscribers (run objects cs new_engine)
        ≡ not (eqb (length (run objects cs new_engine).subs) 0)
  unfolding has_subscribers
  has_subscribers-run objects cs h =
      let (c, d, f, b) =
        run-Counted cs 0 objects new_engine (omega arith) (refl, tt, λ id l. refl, omega arith) in
      ground arith
