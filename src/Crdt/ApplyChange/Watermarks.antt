-- ===== src/Crdt/ApplyChange/Watermarks.antt =====
-- internal/crdt/controller.go: the watermarks over a sequence of changes, some of which fail.
use any_sync_sdk.Base.{
  ℕ, ◌≤◌, ◌<◌, String, ◌≡◌, sym, ◌∙◌, subst, List, [], ◌∷◌, Option, none, some, ◌⊎◌, inl, inr,
  arith,
}
use any_sync_sdk.Anyenc.{Anyenc}
use any_sync_sdk.Dict.{string_key, lookup}
use any_sync_sdk.Crdt.Op.{Change}
use any_sync_sdk.Crdt.ApplySeq.{Seed}
use any_sync_sdk.Crdt.Store.{Store, Database}
use any_sync_sdk.Crdt.Controller.{Controller}
use any_sync_sdk.Crdt.Transaction.{Mirrors, ApplyHook}
use any_sync_sdk.Crdt.ApplyChange.{apply_change_with_result}
use any_sync_sdk.Crdt.Commit.{Applied}
use any_sync_sdk.Crdt.ApplyChange.Settles.{
  Settles, Writes, apply_change_with_result-Writes, apply_change_with_result-Settles,
}

module _ ⦃E : Anyenc⦄ where
  open E use {Value}

  -- A call with what the store, the hook and the seed function answer in it.
  pub record Call : Type 0 where
    pub db : Database Value
    pub hook : Option (ApplyHook Value)
    pub answer : Option Seed
    pub ch : Change Value

  unfoldable pub apply_all :
      (String → String)
      → Controller Value
      → List Call
      → Mirrors × Store Value
      → Mirrors × Store Value
  unfolding apply_change_with_result
  apply_all derive c [] st = st
  apply_all derive c (call ∷ calls) (m, s) =
      let (m', s', result) =
        apply_change_with_result derive c call.db call.hook call.answer call.ch m s in
      apply_all derive c calls (m', s')

  -- The store holds the first watermark of the object, and of the second no less; before the first
  -- change it holds none and both are 0.
  abbrev pub Persisted : Controller Value → Mirrors × Store Value → Type 0
  Persisted c (m, s) =
      ((lookup c.object_id s.meta ≡ none) × (m.max_add_seq ≡ 0) × (m.max_apply_seq ≡ 0))
      ⊎ ((seq : ℕ) × (lookup c.object_id s.meta ≡ some (m.max_add_seq, seq))
          × (m.max_apply_seq ≤ seq))

  abbrev pub NotBelow : Mirrors → Mirrors → Type 0
  NotBelow m m' = (m.max_add_seq ≤ m'.max_add_seq) × (m.max_apply_seq ≤ m'.max_apply_seq)

  settled :
      (c : Controller Value) (add_seq : ℕ) (m : Mirrors) (s : Store Value) (r : Applied)
      → Settles c add_seq m s r
      → Persisted c (m, s)
      → Persisted c (r.0, r.1) × NotBelow m r.0
  settled c add_seq m s r (inl (e, failed, same, add, apply)) (inl (n, a, b)) = (
    inl (subst (λ t. lookup c.object_id t.meta ≡ none) (sym same) n, add ∙ a, apply ∙ b),
    (ground arith, ground arith),
  )
  settled c add_seq m s r (inl (e, failed, same, add, apply)) (inr (seq, found, le)) = (
    inr (
      seq,
      subst (λ t. lookup c.object_id t.meta ≡ some (r.0.max_add_seq, seq)) (sym same)
          (subst (λ n. lookup c.object_id s.meta ≡ some (n, seq)) (sym add) found),
      ground arith,
    ),
    (ground arith, ground arith),
  )
  settled c add_seq m s r (inr (res, seq, ok, add, apply, found, le)) p =
      (inr (seq, found, le), (ground arith, ground arith))

  Writes-NotBelow :
      (c : Controller Value) (add_seq : ℕ) (m : Mirrors) (s : Store Value) (r : Applied)
      → Writes c add_seq m s r
      → NotBelow m r.0
  Writes-NotBelow c add_seq m s r (inl (e, failed, same, add, apply)) = (ground arith, ground arith)
  Writes-NotBelow c add_seq m s r (inr (res, seq, won, add, apply, found, reach)) =
      (ground arith, ground arith)

  pub apply_all-NotBelow :
      (derive : String → String) (c : Controller Value) (calls : List Call)
      (st : Mirrors × Store Value)
      → NotBelow st.0 (apply_all derive c calls st).0
  unfolding apply_all
  apply_all-NotBelow derive c [] st = (ground arith, ground arith)
  apply_all-NotBelow derive c (call ∷ calls) (m, s) =
      let r = apply_change_with_result derive c call.db call.hook call.answer call.ch m s in
      let (a, b) =
        Writes-NotBelow c call.ch.add_seq m s r
          (apply_change_with_result-Writes derive c call.db call.hook call.answer call.ch m s) in
      let (d, e) = apply_all-NotBelow derive c calls (r.0, r.1) in
      (omega (arith, a, d), omega (arith, b, e))

  -- Over any sequence of changes, of which any may fail at any step and after which the watermarks are
  -- below 2^53 (so that a float64 holds them exactly), the watermarks in memory never go back, and the
  -- store keeps holding the first one for the object and an apply sequence not below the second.
  pub apply_all-Persisted :
      (derive : String → String) (c : Controller Value) (calls : List Call)
      (st : Mirrors × Store Value)
      → (apply_all derive c calls st).0.max_add_seq < 9007199254740992
      → (apply_all derive c calls st).0.max_apply_seq < 9007199254740992
      → Persisted c st
      → Persisted c (apply_all derive c calls st) × NotBelow st.0 (apply_all derive c calls st).0
  unfolding apply_all
  apply_all-Persisted derive c [] st a b p = (p, (ground arith, ground arith))
  apply_all-Persisted derive c (call ∷ calls) (m, s) a b p =
      let r = apply_change_with_result derive c call.db call.hook call.answer call.ch m s in
      let (up, up') = apply_all-NotBelow derive c calls (r.0, r.1) in
      let (q, below) =
        settled c call.ch.add_seq m s r
          (apply_change_with_result-Settles derive c call.db call.hook call.answer call.ch m s
            (omega (arith, a, up)) (omega (arith, b, up')))
          p in
      let (last, rest) = apply_all-Persisted derive c calls (r.0, r.1) a b q in
      (last, (ground arith, ground arith))
