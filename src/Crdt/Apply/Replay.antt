-- ===== src/Crdt/Apply/Replay.antt =====
-- internal/crdt/apply.go: sequences of `$set` and `$unset`, in the order in which a replica applies
-- them. The newest write to a field decides it, wherever it stands in the order.
use mathlib.Core.Bool.{false≢true}
use any_sync_sdk.Base.{
  String, true, ◌≡◌, ◌≢◌, ◌∙◌, List, [], ◌∷◌, ◌++◌, Option, arith, refl, sym, ap, subst, inl, inr,
  Bool-cases, if◌then◌else◌, ◌==◌, eq_iff, eq_refl, All, less, less_asymm,
}
use any_sync_sdk.Anyenc.{Anyenc}
use any_sync_sdk.Crdt.Versions.{VersionId, FieldPath, versions_key, default_key, gate_version}
use any_sync_sdk.Crdt.Apply.Values.{field_at, field_at-congr}
use any_sync_sdk.Crdt.Apply.Gates.{IsRecord, lww}
use any_sync_sdk.Crdt.Apply.Register.{gated_write, slot, IsRegister, slot-gated_write}
use any_sync_sdk.Crdt.Apply.Frame.{gated_write-Agrees}

-- One `$set` (a value) or `$unset` (none) of a path below the top-level field `key`.
pub record Write {ℓ} (V : Type ℓ) : Type ℓ where
  pub key : String
  pub rest : FieldPath
  pub version : VersionId
  pub value : Option V

-- A write for a register at `k ∷ p`: of that path, or of another top-level field.
pub record Fits {ℓ} {V : Type ℓ} (k : String) (p : FieldPath) (w : Write V) : Type ℓ where
  pub not_versions : w.key ≢ versions_key
  pub not_default : w.key ≢ default_key
  pub same : (w.key ≡ k) → w.rest ≡ p

module _ {ℓ} {V : Type ℓ} where
  -- The register `k` through a sequence of writes.
  abbrev pub lww_all : String → VersionId × Option V → List (Write V) → VersionId × Option V
  lww_all k s [] = s
  lww_all k s (w ∷ ws) = lww_all k (if w.key == k then lww s w.version w.value else s) ws

  -- Every write of the field `k` is older than `v`.
  abbrev pub OlderAt : String → VersionId → List (Write V) → Type 0
  OlderAt k v [] = Unit
  OlderAt k v (w ∷ ws) = (w.key ≡ k → less w.version v ≡ true) × OlderAt k v ws

  lww_all-older :
      (k : String) (v : VersionId) (x : Option V) (ws : List (Write V))
      → OlderAt k v ws
      → lww_all k (v, x) ws ≡ (v, x)
  lww_all-older k v x [] h = refl
  lww_all-older k v x (w ∷ ws) h =
      ground (arith, eq_iff w.key k, less_asymm w.version v, lww_all-older k v x ws h.1)

  lww_all-gate :
      (k : String) (v g : VersionId) (x : Option V) (ws : List (Write V))
      → less g v ≡ true
      → OlderAt k v ws
      → less (lww_all k (g, x) ws).0 v ≡ true
  lww_all-gate k v g x [] h o = h
  lww_all-gate k v g x (w ∷ ws) h o =
      ground (
        arith,
        eq_iff w.key k,
        lww_all-gate k v g x ws h o.1,
        lww_all-gate k v w.version w.value ws,
      )

  lww_all-append :
      (k : String) (s : VersionId × Option V) (ws us : List (Write V))
      → lww_all k s (ws ++ us) ≡ lww_all k (lww_all k s ws) us
  lww_all-append k s [] us = refl
  lww_all-append k s (w ∷ ws) us =
      lww_all-append k (if w.key == k then lww s w.version w.value else s) ws us

  -- The newest write wins, wherever it stands.
  lww_all-newest :
      (g : VersionId) (x : Option V) (before after : List (Write V)) (w : Write V)
      → less g w.version ≡ true
      → OlderAt w.key w.version before
      → OlderAt w.key w.version after
      → lww_all w.key (g, x) (before ++ w ∷ after) ≡ (w.version, w.value)
  lww_all-newest g x before after w h ob oa =
      lww_all-append w.key (g, x) before (w ∷ after)
      ∙ ground (
        arith,
        eq_refl w.key,
        lww_all-gate w.key w.version g x before h ob,
        lww_all-older w.key w.version w.value after oa,
      )

module _ ⦃E : Anyenc⦄ where
  open E use {Value, view}

  -- Applying a sequence of writes to a record.
  unfoldable pub replay : Value → List (Write Value) → Value
  replay rec [] = rec
  replay rec (w ∷ ws) = replay (gated_write rec w.version (w.key ∷ w.rest) w.value) ws

  -- One write of the sequence, at the register `k ∷ p`.
  replay_step :
      (rec : Value) (k : String) (p : FieldPath) (w : Write Value)
      → IsRecord rec
      → k ≢ versions_key
      → IsRegister rec (k ∷ p)
      → Fits k p w
      → let after = gated_write rec w.version (w.key ∷ w.rest) w.value in
        (slot after (k ∷ p)
          ≡ (if w.key == k then lww (slot rec (k ∷ p)) w.version w.value else slot rec (k ∷ p)))
        × IsRegister after (k ∷ p)
  replay_step rec k p w r nk g f = elim (Bool-cases (w.key == k)) [
    | inl e ↦
        let q : w.key ∷ w.rest ≡ k ∷ p = cc ((eq_iff w.key k).0 e, f.same ((eq_iff w.key k).0 e)) in
        let after = gated_write rec w.version (w.key ∷ w.rest) w.value in
        rw e (
          subst
            (λ path.
              (slot after path ≡ lww (slot rec path) w.version w.value) × IsRegister after path)
            q
            (slot-gated_write rec w.version w.key w.rest w.value r (λ h. f.not_versions (sym h))
              (subst (IsRegister rec) (sym q) g)))
    | inr e ↦
        let a =
          gated_write-Agrees rec w.version w.key w.rest w.value r f.not_versions f.not_default in
        let ne : w.key ≢ k = λ h. false≢true (sym e ∙ (eq_iff w.key k).1 h) in
        let gates = a.gates k p ne in
        rw e (
          cc (
            ap (λ (t : VersionId × Option Value). t.0) gates,
            field_at-congr _ rec k p a.is_record.0 r.0 (a.fields k ne (λ h. nk (sym h))),
          ),
          ap (λ (t : VersionId × Option Value). t.1) gates ∙ g,
        )
  ]

  -- On a record (an object, of which _ver is an object when it is there) whose _ver holds no finer
  -- entry below the path and whose path does not begin with _ver, a sequence of $set and $unset
  -- writes, each of the path or of another top-level field and none of a field named _ver or *, leaves
  -- the path as the abstract last-writer-wins register run over the writes to it, still without a
  -- finer entry below the path.
  pub slot-replay :
      (rec : Value) (k : String) (p : FieldPath) (ws : List (Write Value))
      → IsRecord rec
      → k ≢ versions_key
      → IsRegister rec (k ∷ p)
      → All (Fits k p) ws
      → (slot (replay rec ws) (k ∷ p) ≡ lww_all k (slot rec (k ∷ p)) ws)
        × IsRegister (replay rec ws) (k ∷ p)
  unfolding replay
  slot-replay rec k p [] r nk g f = (refl, g)
  slot-replay rec k p (w ∷ ws) r nk g f =
      let a =
        gated_write-Agrees rec w.version w.key w.rest w.value r f.0.not_versions f.0.not_default in
      let (s, g') = replay_step rec k p w r nk g f.0 in
      let (t, g'') =
        slot-replay (gated_write rec w.version (w.key ∷ w.rest) w.value) k p ws a.is_record nk g'
          f.1 in
      (t ∙ ap (λ u. lww_all k u ws) s, g'')

  -- On a record (an object, of which _ver is an object when it is there) whose _ver holds no finer
  -- entry below the path and whose path does not begin with _ver, after any sequence of $set and
  -- $unset writes, each of the path or of another top-level field and none of a field named _ver or *,
  -- a write of the path that is newer than the version that the path has before and than every other
  -- write to its first key decides the value at the path and its version, wherever it stands in the
  -- sequence.
  pub newest_write_wins :
      (rec : Value) (before after : List (Write Value)) (w : Write Value)
      → IsRecord rec
      → IsRegister rec (w.key ∷ w.rest)
      → All (Fits w.key w.rest) (before ++ w ∷ after)
      → w.key ≢ versions_key
      → less (gate_version rec (w.key ∷ w.rest)).0 w.version ≡ true
      → OlderAt w.key w.version before
      → OlderAt w.key w.version after
      → slot (replay rec (before ++ w ∷ after)) (w.key ∷ w.rest) ≡ (w.version, w.value)
  newest_write_wins rec before after w r g f nk h ob oa =
      (slot-replay rec w.key w.rest (before ++ w ∷ after) r nk g f).0
      ∙ lww_all-newest (gate_version rec (w.key ∷ w.rest)).0 (field_at rec (w.key ∷ w.rest)) before
          after w h ob oa
