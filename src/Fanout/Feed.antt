-- ===== src/Fanout/Feed.antt =====
-- internal/fanout/fanout.go: who an event reaches after any sequence of calls.
use any_sync_sdk.Base.{
  ℕ, ◌+◌, ◌≤◌, ◌<◌, ◌≡◌, ◌⊎◌, Bool, true, false, not, Option, none, some, List, [], ◌∷◌, length,
  map, eqb, All, arith,
}
use any_sync_sdk.Dict.{
  Dict, lookup, number_key, lookup-insert, lookup-insert_ne, lookup-delete, lookup-delete_ne,
}
use any_sync_sdk.Fanout.{Registry, add, cancel, close, dispatch}

pub data Command (C : Type 0) : Type 0 where
  add_call : Option C → Command C
  cancel_call : Option ℕ → Command C
  dispatch_call : Command C
  close_call : Command C

module _ {C : Type 0} where
  unfoldable pub step : Command C → Registry C → Registry C
  step (add_call cb) r = (add cb r).0
  step (cancel_call id) r = cancel id r
  step dispatch_call r = r
  step close_call r = close r

  unfoldable pub run : List (Command C) → Registry C → Registry C
  run [] r = r
  run (c ∷ cs) r = run cs (step c r)

  -- The call neither closes the registry nor cancels the number.
  abbrev pub spares : ℕ → Command C → Bool
  spares id (cancel_call (some j)) = not (eqb id j)
  spares id close_call = false
  spares id _ = true

  abbrev pub In : C → List C → Type 0
  In c [] = false ≡ true
  In c (x ∷ xs) = (x ≡ c) ⊎ In c xs

  step-Live :
      (id : ℕ) (cb : C) (c : Command C) (r : Registry C)
      → id ≤ r.next
      → r.next + 1 < 18446744073709551616
      → spares id c ≡ true
      → lookup id r.subs ≡ some cb
      → (lookup id (step c r).subs ≡ some cb)
        × (id ≤ (step c r).next)
        × ((step c r).next ≤ r.next + 1)
  unfolding step add cancel
  step-Live id cb (add_call none) r h b s e = (e, h, omega arith)
  step-Live id cb (add_call (some x)) r h b s e =
      ground (arith, lookup-insert_ne (r.next + 1) x id r.subs)
  step-Live id cb (cancel_call none) r h b s e = (e, h, omega arith)
  step-Live id cb (cancel_call (some j)) r h b s e = ground (arith, lookup-delete_ne j id r.subs)
  step-Live id cb dispatch_call r h b s e = (e, h, omega arith)
  step-Live id cb close_call r h b s e = ground arith

  run-Live :
      (id : ℕ) (cb : C) (cs : List (Command C)) (r : Registry C)
      → id ≤ r.next
      → r.next + length cs < 18446744073709551616
      → All (λ c. spares id c ≡ true) cs
      → lookup id r.subs ≡ some cb
      → lookup id (run cs r).subs ≡ some cb
  unfolding run
  run-Live id cb [] r h b s e = e
  run-Live id cb (c ∷ cs) r h b (s, ss) e =
      let (e', h', b') = step-Live id cb c r h (omega arith) s e in
      run-Live id cb cs (step c r) h' (omega arith) ss e'

  lookup-In : (id : ℕ) (cb : C) (m : Dict ℕ C) → lookup id m ≡ some cb → In cb (map (λ e. e.1) m)
  lookup-In id cb [] e = ground arith
  lookup-In id cb ((j, v) ∷ m) e = ground (arith, lookup-In id cb m)

  next-add :
      (r : Registry C) (cb : C)
      → r.closed ≡ false
      → r.next + 1 < 18446744073709551616
      → ((add (some cb) r).0.next ≡ r.next + 1)
        × (lookup (r.next + 1) (add (some cb) r).0.subs ≡ some cb)
  unfolding add
  next-add r cb o b = ground (arith, lookup-insert (r.next + 1) cb r.subs)

  -- A callback that is registered on an open registry gets every event dispatched after any sequence
  -- of calls that neither cancel it nor close the registry, when the numbers given out fit a uint64.
  pub delivered_until_cancelled :
      (r : Registry C) (cb : C) (cs : List (Command C))
      → r.closed ≡ false
      → r.next + 1 + length cs < 18446744073709551616
      → All (λ c. spares (r.next + 1) c ≡ true) cs
      → In cb (dispatch (run cs (add (some cb) r).0))
  unfolding dispatch
  delivered_until_cancelled r cb cs o b s =
      lookup-In (r.next + 1) cb (run cs (add (some cb) r).0).subs (
        let (n, e) = next-add r cb o (omega arith) in
        run-Live (r.next + 1) cb cs (add (some cb) r).0 (omega arith) (omega arith) s e)

  step-Silent :
      (id : ℕ) (c : Command C) (r : Registry C)
      → id ≤ r.next
      → r.next + 1 < 18446744073709551616
      → lookup id r.subs ≡ none
      → (lookup id (step c r).subs ≡ none) × (id ≤ (step c r).next) × ((step c r).next ≤ r.next + 1)
  unfolding step add cancel close
  step-Silent id (add_call none) r h b e = (e, h, omega arith)
  step-Silent id (add_call (some x)) r h b e =
      ground (arith, lookup-insert_ne (r.next + 1) x id r.subs)
  step-Silent id (cancel_call none) r h b e = (e, h, omega arith)
  step-Silent id (cancel_call (some j)) r h b e =
      ground (arith, lookup-delete j r.subs, lookup-delete_ne j id r.subs)
  step-Silent id dispatch_call r h b e = (e, h, omega arith)
  step-Silent id close_call r h b e = ground arith

  run-Silent :
      (id : ℕ) (cs : List (Command C)) (r : Registry C)
      → id ≤ r.next
      → r.next + length cs < 18446744073709551616
      → lookup id r.subs ≡ none
      → lookup id (run cs r).subs ≡ none
  unfolding run
  run-Silent id [] r h b e = e
  run-Silent id (c ∷ cs) r h b e =
      let (e', h', b') = step-Silent id c r h (omega arith) e in
      run-Silent id cs (step c r) h' (omega arith) e'

  -- After a cancel the registry holds no callback under the number that it was given, whatever calls
  -- follow, when the numbers given out fit a uint64.
  pub silent_after_cancel :
      (r : Registry C) (id : ℕ) (cs : List (Command C))
      → id ≤ r.next
      → r.next + length cs < 18446744073709551616
      → lookup id (run cs (cancel (some id) r)).subs ≡ none
  unfolding cancel
  silent_after_cancel r id cs h b =
      run-Silent id cs (cancel (some id) r) h b (lookup-delete id r.subs)
