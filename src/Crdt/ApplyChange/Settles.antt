-- ===== src/Crdt/ApplyChange/Settles.antt =====
-- internal/crdt/controller.go: a change leaves all as it was or moves the watermarks in
-- memory and in the store together.
use any_sync_sdk.Base.{
  ℕ, String, ◌≡◌, refl, List, Option, none, some, arith, Option-cases, inl, inr, ◌⊎◌, ◌≤◌, ◌<◌, ltb,
  if◌then◌else◌, subst,
}
use any_sync_sdk.Anyenc.{Anyenc}
use any_sync_sdk.Dict.{string_key, lookup, lookup-insert}
use any_sync_sdk.Crdt.Op.{Change}
use any_sync_sdk.Crdt.Hooks.{Handler}
use any_sync_sdk.Crdt.ApplySeq.{ApplySeqAllocator, Seed, next}
use any_sync_sdk.Crdt.Resolve.{
  ApplyError, Result, ok, failed, store_failed, apply_seq_failed, unknown_dataset,
}
use any_sync_sdk.Crdt.Store.{Store, Database, persist_meta, stored_apply_seq, read_back}
use any_sync_sdk.Crdt.Controller.{Getter, Controller, guard_change}
use any_sync_sdk.Crdt.Controller.Content.{admit_change}
use any_sync_sdk.Crdt.Transaction.{Rejection, ApplyResult, Mirrors, ApplyHook, larger}
use any_sync_sdk.Crdt.ApplyChange.{
  transact, begin_change, prepare, forget_absent, apply_change_with_result, content_rejections,
  mint, minted, unless_failed, store_error, with_sequence, with_handler,
}
use any_sync_sdk.Crdt.Commit.{Applied, commit_transaction, in_transaction}

module _ ⦃E : Anyenc⦄ where
  open E use {Value, to_int-of_int}

  -- A call that fails leaves the store and the two watermarks; one that does not raises them in
  -- memory, and the store holds for the object the first, and of the second no less.
  abbrev pub Settles : Controller Value → ℕ → Mirrors → Store Value → Applied → Type 0
  Settles c add_seq m s (m', s', r) =
      ((e : ApplyError) × (r ≡ failed e)
        × (s' ≡ s)
        × (m'.max_add_seq ≡ m.max_add_seq)
        × (m'.max_apply_seq ≡ m.max_apply_seq))
      ⊎ ((res : ApplyResult Value) × (seq : ℕ) × (r ≡ ok res)
          × (m'.max_add_seq ≡ larger m.max_add_seq add_seq)
          × (m'.max_apply_seq ≡ larger m.max_apply_seq res.apply_seq)
          × (lookup c.object_id s'.meta ≡ some (m'.max_add_seq, seq))
          × (m'.max_apply_seq ≤ seq))

  -- The same, with the watermarks of the store as they are read back of their float64.
  abbrev pub Writes : Controller Value → ℕ → Mirrors → Store Value → Applied → Type 0
  Writes c add_seq m s (m', s', r) =
      ((e : ApplyError) × (r ≡ failed e)
        × (s' ≡ s)
        × (m'.max_add_seq ≡ m.max_add_seq)
        × (m'.max_apply_seq ≡ m.max_apply_seq))
      ⊎ ((res : ApplyResult Value) × (seq : ℕ) × (r ≡ ok res)
          × (m'.max_add_seq ≡ larger m.max_add_seq add_seq)
          × (m'.max_apply_seq ≡ larger m.max_apply_seq res.apply_seq)
          × (lookup c.object_id s'.meta ≡ some (read_back m'.max_add_seq, seq))
          × ((seq ≡ read_back m'.max_apply_seq) ⊎ (m'.max_apply_seq ≤ seq)))

  -- Below 2^53 a float64 holds the watermarks exactly.
  pub Writes-Settles :
      (c : Controller Value) (add_seq : ℕ) (m : Mirrors) (s : Store Value) (r : Applied)
      → r.0.max_add_seq < 9007199254740992
      → r.0.max_apply_seq < 9007199254740992
      → Writes c add_seq m s r
      → Settles c add_seq m s r
  Writes-Settles c add_seq m s r a b (inl w) = inl w
  Writes-Settles c add_seq m s r a b (inr (res, seq, won, add, apply, found, reach)) =
      let le : r.0.max_apply_seq ≤ seq = elim reach [
        | inl q ↦ ground (arith, q, to_int-of_int r.0.max_apply_seq b)
        | inr le ↦ le
      ] in
      inr (
        res,
        seq,
        won,
        add,
        apply,
        subst (λ n. lookup c.object_id r.1.meta ≡ some (n, seq)) (to_int-of_int r.0.max_add_seq a)
            found,
        le,
      )

  failure :
      (c : Controller Value) (add_seq : ℕ) (m : Mirrors) (s : Store Value) (e : ApplyError)
      → Writes c add_seq m s (m, s, failed e)
  failure c add_seq m s e = inl (e, refl, refl, refl, refl)

  persist_meta_lem :
      (t : Store Value) (object_id : String) (add_seq apply_seq : ℕ)
      → (seq : ℕ) × (lookup object_id (persist_meta t object_id add_seq apply_seq).meta
          ≡ some (read_back add_seq, seq))
        × ((seq ≡ read_back apply_seq) ⊎ (apply_seq ≤ seq))
  unfolding persist_meta
  persist_meta_lem t object_id add_seq apply_seq =
      let stored = stored_apply_seq (lookup object_id t.meta) in
      (
        if ltb stored apply_seq then read_back apply_seq else stored,
        lookup-insert object_id _ t.meta,
        ground arith,
      )

  commit_transaction-Writes :
      (c : Controller Value) (db : Database Value) (ch : Change Value) (m : Mirrors)
      (s : Store Value) (r : Result (Store Value × ApplyResult Value))
      → Writes c ch.add_seq m s (commit_transaction c db ch m s r)
  unfolding commit_transaction
  commit_transaction-Writes c db ch m s (failed e) = failure c ch.add_seq m s e
  commit_transaction-Writes c db ch m s (ok (t, res)) =
      let add_seq = larger m.max_add_seq ch.add_seq in
      let apply_seq = larger m.max_apply_seq ch.apply_seq in
      elim (Option-cases db.meta_error) [
        | inr (e, q) ↦ rw q (failure c ch.add_seq m s (store_failed e))
        | inl q ↦ elim (Option-cases db.commit_error) [
          | inr (e, p) ↦ rw (q, p) (failure c ch.add_seq m s (store_failed e))
          | inl p ↦
              let (seq, found, le) = persist_meta_lem t c.object_id add_seq apply_seq in
              rw (q, p)
                (inr (record res { apply_seq = ch.apply_seq }, seq, refl, refl, refl, found, le))
        ]
      ]

  unless_failed-Writes :
      (c : Controller Value) (add_seq : ℕ) (m : Mirrors) (s : Store Value) (e : Option ApplyError)
      (rest : Applied)
      → Writes c add_seq m s rest
      → Writes c add_seq m s (unless_failed m s e rest)
  unless_failed-Writes c add_seq m s none rest u = u
  unless_failed-Writes c add_seq m s (some e) rest u = failure c add_seq m s e

  -- The minted sequence does not change the other one.
  abbrev HasAddSeq : ℕ → Option (Change Value × Option ApplySeqAllocator) → Type 0
  HasAddSeq add_seq none = Unit
  HasAddSeq add_seq (some (ch, seqs)) = ch.add_seq ≡ add_seq

  minted-HasAddSeq :
      (ch : Change Value) (n : Option (ℕ × ApplySeqAllocator)) → HasAddSeq ch.add_seq (minted ch n)
  minted-HasAddSeq ch none = tt
  minted-HasAddSeq ch (some (n, b)) = refl

  mint-HasAddSeq :
      (answer : Option Seed) (a : Option ApplySeqAllocator) (ch : Change Value)
      → HasAddSeq ch.add_seq (mint answer a ch)
  mint-HasAddSeq answer none ch = refl
  mint-HasAddSeq answer (some a) ch = minted-HasAddSeq ch (next answer a)

  with_sequence-Writes :
      (c : Controller Value) (db : Database Value) (hook : Option (ApplyHook Value))
      (h : Getter Value → Handler Value) (ids : List String) (rejections : List Rejection)
      (add_seq : ℕ) (m : Mirrors) (s : Store Value)
      (minted : Option (Change Value × Option ApplySeqAllocator))
      → HasAddSeq add_seq minted
      → Writes c add_seq m s (with_sequence c db hook h ids rejections m s minted)
  unfolding with_sequence
  with_sequence-Writes c db hook h ids rejections add_seq m s none same =
      failure c add_seq m s apply_seq_failed
  with_sequence-Writes c db hook h ids rejections add_seq m s (some (ch, seqs)) same =
      let (absent, r) = in_transaction c db hook h ch ids rejections m.absent s in
      let m' = record m { apply_seqs = seqs; absent = absent } in
      subst (λ n. Writes c n m s (commit_transaction c db ch m' s r)) same
        (commit_transaction-Writes c db ch m' s r)

  begin_change-Writes :
      (c : Controller Value) (db : Database Value) (hook : Option (ApplyHook Value))
      (answer : Option Seed) (h : Getter Value → Handler Value) (ch : Change Value) (m : Mirrors)
      (s : Store Value) (r : Result (List String))
      → Writes c ch.add_seq m s (begin_change c db hook answer h ch m s r)
  unfolding begin_change transact admit_change
  begin_change-Writes c db hook answer h ch m s (failed e) = failure c ch.add_seq m s e
  begin_change-Writes c db hook answer h ch m s (ok ids) =
      let (admitted, rejections) = admit_change c ch in
      unless_failed-Writes c ch.add_seq m s (store_error db.begin_error) _ (
        with_sequence-Writes c db hook h ids (content_rejections ids rejections) ch.add_seq m s
          (mint answer m.apply_seqs admitted) (mint-HasAddSeq answer m.apply_seqs admitted))

  with_handler-Writes :
      (derive : String → String) (c : Controller Value) (db : Database Value)
      (hook : Option (ApplyHook Value)) (answer : Option Seed) (ch : Change Value) (m : Mirrors)
      (s : Store Value) (h : Option (Getter Value → Handler Value))
      → Writes c ch.add_seq m s (with_handler derive c db hook answer ch m s h)
  unfolding with_handler
  with_handler-Writes derive c db hook answer ch m s none = failure c ch.add_seq m s unknown_dataset
  with_handler-Writes derive c db hook answer ch m s (some h) =
      begin_change-Writes c db hook answer h ch (forget_absent ch m) s (prepare derive c db ch)

  pub apply_change_with_result-Writes :
      (derive : String → String) (c : Controller Value) (db : Database Value)
      (hook : Option (ApplyHook Value)) (answer : Option Seed) (ch : Change Value) (m : Mirrors)
      (s : Store Value)
      → Writes c ch.add_seq m s (apply_change_with_result derive c db hook answer ch m s)
  unfolding apply_change_with_result
  apply_change_with_result-Writes derive c db hook answer ch m s =
      unless_failed-Writes c ch.add_seq m s (guard_change c ch) _
        (with_handler-Writes derive c db hook answer ch m s (lookup ch.dataset c.handlers))

  -- A call of ApplyChangeWithResult that returns an error, whichever of its steps failed, leaves the
  -- store and the two watermarks as they were. One that returns a result has raised the watermarks to
  -- the change's add sequence and to the apply sequence that it returns, where these are larger, and
  -- the store then holds for the object the first watermark and an apply sequence not below the
  -- second. The watermarks that the call leaves are below 2^53, so that a float64 holds them exactly.
  pub apply_change_with_result-Settles :
      (derive : String → String) (c : Controller Value) (db : Database Value)
      (hook : Option (ApplyHook Value)) (answer : Option Seed) (ch : Change Value) (m : Mirrors)
      (s : Store Value)
      → (apply_change_with_result derive c db hook answer ch m s).0.max_add_seq < 9007199254740992
      → (apply_change_with_result derive c db hook answer ch m s).0.max_apply_seq < 9007199254740992
      → Settles c ch.add_seq m s (apply_change_with_result derive c db hook answer ch m s)
  apply_change_with_result-Settles derive c db hook answer ch m s a b =
      Writes-Settles c ch.add_seq m s (apply_change_with_result derive c db hook answer ch m s) a b
        (apply_change_with_result-Writes derive c db hook answer ch m s)
