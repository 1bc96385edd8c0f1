-- ===== src/Crdt/Apply/Converge.antt =====
-- internal/crdt/apply.go: replicas that apply the same `$set` and `$unset` writes in different orders
-- end with the same field under the same version.
use mathlib.Core.List.{Permᴰ}
use any_sync_sdk.Base.{
  String, subst, ◌≡◌, ◌≢◌, ◌∙◌, List, ◌∷◌, Option, arith, refl, sym, ap, Bool-cases, inl, inr,
  if◌then◌else◌, ◌==◌, eq_iff, All, less_asymm, less_total, less_trans,
}
use any_sync_sdk.Anyenc.{Anyenc}
use any_sync_sdk.Crdt.Versions.{VersionId, versions_key}
use any_sync_sdk.Crdt.Apply.Gates.{IsRecord, lww}
use any_sync_sdk.Crdt.Apply.Register.{slot, IsRegister}
use any_sync_sdk.Crdt.Apply.Replay.{Write, Fits, lww_all, replay, slot-replay}

All-reorder {ℓ κ} :
    {A : Type ℓ} (P : A → Type κ) {xs ys : List A} → Permᴰ xs ys → All P xs → All P ys
All-reorder P Permᴰ.nil h = h
All-reorder P (Permᴰ.cons e d) h = (subst P e h.0, All-reorder P d h.1)
All-reorder P (Permᴰ.swap e f) h = (subst P f h.1.0, (subst P e h.0, h.1.1))
All-reorder P (Permᴰ.trans d e) h = All-reorder P e (All-reorder P d h)

module _ {ℓ} {V : Type ℓ} where
  -- Two writes to one register commute, when a version tells what it wrote.
  lww_comm :
      (s : VersionId × Option V) (v w : VersionId) (x y : Option V)
      → (v ≡ w → x ≡ y)
      → lww (lww s v x) w y ≡ lww (lww s w y) v x
  lww_comm (g, o) v w x y c =
      ground (
        arith,
        less_asymm v w,
        less_asymm w v,
        less_total v w,
        less_trans g v w,
        less_trans g w v,
        c,
      )

  -- At the field `k`, a version tells what it wrote.
  abbrev pub IsOf : String → (VersionId → Option V) → Write V → Type ℓ
  IsOf k content w = w.key ≡ k → w.value ≡ content w.version

  step : String → VersionId × Option V → Write V → VersionId × Option V
  step k s w = if w.key == k then lww s w.version w.value else s

  step_comm :
      (k : String) (content : VersionId → Option V) (s : VersionId × Option V) (a b : Write V)
      → IsOf k content a
      → IsOf k content b
      → step k (step k s a) b ≡ step k (step k s b) a
  unfolding step
  step_comm k content s a b p q = elim (Bool-cases (a.key == k)) [
    | inr e ↦ rw e refl
    | inl e ↦ elim (Bool-cases (b.key == k)) [
      | inr f ↦ rw (e, f) refl
      | inl f ↦
          rw (e, f)
            (lww_comm s a.version b.version a.value b.value
              (λ v. p ((eq_iff a.key k).0 e) ∙ ap content v ∙ sym (q ((eq_iff b.key k).0 f))))
    ]
  ]

  lww_all-reorder :
      (k : String) (content : VersionId → Option V) (s : VersionId × Option V)
      (ws us : List (Write V))
      → Permᴰ ws us
      → All (IsOf k content) ws
      → lww_all k s ws ≡ lww_all k s us
  unfolding step
  lww_all-reorder k content s _ _ Permᴰ.nil h = refl
  lww_all-reorder k content s _ _ (Permᴰ.cons {a} {b} {l₁} {l₂} e d) h =
      lww_all-reorder k content (step k s a) l₁ l₂ d h.1 ∙ ap (λ w. lww_all k (step k s w) l₂) e
  lww_all-reorder k content s _ _ (Permᴰ.swap {a} {b} {a'} {b'} {l} e f) h =
      ap (λ t. lww_all k t l) (step_comm k content s a b h.0 h.1.0)
      ∙ ap (λ w. lww_all k (step k (step k s w) a) l) f
      ∙ ap (λ w. lww_all k (step k (step k s a') w) l) e
  lww_all-reorder k content s ws us (Permᴰ.trans {l₂ = vs} d e) h =
      lww_all-reorder k content s ws vs d h
      ∙ lww_all-reorder k content s vs us e (All-reorder (IsOf k content) d h)

module _ ⦃E : Anyenc⦄ where
  open E use {Value}

  -- Two replicas that start from one record (an object, of which _ver is an object when it is there),
  -- whose _ver holds no finer entry below the path and whose path does not begin with _ver, and that
  -- apply the same $set and $unset writes, each of the path or of another top-level field and none of
  -- a field named _ver or *, in orders of their own, hold the same value at the path under the same
  -- version, when a version tells what it wrote to the path's first key.
  pub order_irrelevant :
      (rec : Value) (k : String) (p : List String) (content : VersionId → Option Value)
      (ws us : List (Write Value))
      → IsRecord rec
      → k ≢ versions_key
      → IsRegister rec (k ∷ p)
      → All (Fits k p) ws
      → All (IsOf k content) ws
      → Permᴰ ws us
      → slot (replay rec ws) (k ∷ p) ≡ slot (replay rec us) (k ∷ p)
  order_irrelevant rec k p content ws us r nk g f c d =
      (slot-replay rec k p ws r nk g f).0
      ∙ lww_all-reorder k content (slot rec (k ∷ p)) ws us d c
      ∙ sym ((slot-replay rec k p us r nk g (All-reorder (Fits k p) d f)).0)
