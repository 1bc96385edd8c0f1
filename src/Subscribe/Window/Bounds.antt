-- ===== src/Subscribe/Window/Bounds.antt =====
-- internal/subscribe/window.go: the scan finds an extreme entry, and the pointer to one stays right. Of
-- the comparison only what a strict order has is used, so it stands for both boundaries.
use any_sync_sdk.Base.{
  String, ◌≡◌, refl, sym, ap, subst, Bool, false, inl, inr, Option, none, some, [], ◌∷◌, ◌==◌, ltb,
  length, All, if◌then◌else◌, Bool-cases, ◌∙◌, arith, eq_iff,
}
use any_sync_sdk.Dict.{
  insert, delete, lookup, string_key, Distinct, lookup-All, All-lookup, lookup-insert,
  lookup-insert_ne, lookup-delete_ne, lookup-insert_cases, lookup-delete-some, none≢some,
  some_injective,
}
use any_sync_sdk.Subscribe.Tuple.{Tuple, Beyond, step_trans}
use any_sync_sdk.Subscribe.Window.{
  Entry, Entries, farthest_from, ensure_ref, inserted_ref, updated_ref, removed_ref,
}

module _ {D : Type 0} where
  -- The map holds each entry under its id, and no id twice.
  abbrev pub Sound : Entries D → Type 0
  Sound es = Distinct es × All (λ e. e.1.id ≡ e.0) es

  apart :
      (j id : String) (r : Entry D) (es : Entries D)
      → lookup j es ≡ some r
      → lookup id es ≡ none
      → (j == id) ≡ false
  apart j id r es l n = ground (arith, eq_iff j id)

  module _ (beyond : Tuple → Tuple → Bool) where
    -- No held entry lies beyond the entry, which is held.
    abbrev pub Extreme : Entries D → Entry D → Type 0
    Extreme es r =
        (lookup r.id es ≡ some r)
        × ((k : String) (e : Entry D) → lookup k es ≡ some e → beyond e.tuple r.tuple ≡ false)

    abbrev pub Boundary : Entries D → Option (Entry D) → Type 0
    Boundary es none = Unit
    Boundary es (some r) = Extreme es r

    module _ (O : Beyond beyond) where
      open O use {irrefl, trans, negative}

      farthest_from-Has :
          (P : Entry D → Type 0) (best : Entry D) (es : Entries D)
          → P best
          → All (λ e. P e.1) es
          → P (farthest_from beyond best es)
      farthest_from-Has P best [] p a = p
      farthest_from-Has P best ((k, e) ∷ es) p (q, a) =
          elim (Bool-cases (beyond e.tuple best.tuple)) [
            | inl h ↦ rw h (farthest_from-Has P e es q a)
            | inr h ↦ rw h (farthest_from-Has P best es p a)
          ]

      farthest_from-Above :
          (x : Tuple) (best : Entry D) (es : Entries D)
          → beyond x best.tuple ≡ false
          → beyond x (farthest_from beyond best es).tuple ≡ false
      farthest_from-Above x best [] h = h
      farthest_from-Above x best ((k, e) ∷ es) h = elim (Bool-cases (beyond e.tuple best.tuple)) [
        | inl b ↦
            rw (b, farthest_from)
              (farthest_from-Above x e es (step_trans beyond O x best.tuple e.tuple h b))
        | inr b ↦ rw (b, farthest_from) (farthest_from-Above x best es h)
      ]

      farthest_from-All :
          (best : Entry D) (es : Entries D)
          → All (λ e. beyond e.1.tuple (farthest_from beyond best es).tuple ≡ false) es
      farthest_from-All best [] = tt
      farthest_from-All best ((k, e) ∷ es) = elim (Bool-cases (beyond e.tuple best.tuple)) [
        | inl b ↦
            subst (λ z. All (λ x. beyond x.1.tuple z.tuple ≡ false) ((k, e) ∷ es))
              (sym (ap (λ c. farthest_from beyond (if c then e else best) es) b))
              (farthest_from-Above e.tuple e es (irrefl e.tuple), farthest_from-All e es)
        | inr b ↦
            subst (λ z. All (λ x. beyond x.1.tuple z.tuple ≡ false) ((k, e) ∷ es))
              (sym (ap (λ c. farthest_from beyond (if c then e else best) es) b))
              (farthest_from-Above e.tuple best es b, farthest_from-All best es)
      ]

      pub ensure-Boundary :
          (es : Entries D) (ref : Option (Entry D))
          → Sound es
          → Boundary es ref
          → Boundary es (ensure_ref beyond es ref)
      ensure-Boundary es (some r) s b = b
      ensure-Boundary [] none s b = tt
      ensure-Boundary ((k, e) ∷ es) none (d, ids) b =
          let held =
            All-lookup (λ j x. lookup x.id ((k, e) ∷ es) ≡ some x) ((k, e) ∷ es) d
              (λ j x h.
                subst (λ i. lookup i ((k, e) ∷ es) ≡ some x)
                  (sym (lookup-All (λ j x. x.id ≡ j) j x ((k, e) ∷ es) ids h)) h) in
          (
            farthest_from-Has (λ x. lookup x.id ((k, e) ∷ es) ≡ some x) e es held.0 held.1,
            λ j x h.
                lookup-All (λ i y. beyond y.tuple (farthest_from beyond e es).tuple ≡ false) j x
                  ((k, e) ∷ es)
                  (farthest_from-Above e.tuple e es (irrefl e.tuple), farthest_from-All e es) h,
          )

      -- An entry written over a boundary that it is not behind is the boundary.
      raised-Extreme :
          (id : String) (e r : Entry D) (es : Entries D)
          → e.id ≡ id
          → ((k : String) (x : Entry D)
              → (k == id) ≡ false
              → lookup k es ≡ some x
              → beyond x.tuple e.tuple ≡ false)
          → Extreme (insert id e es) e
      raised-Extreme id e r es i f = (
        subst (λ j. lookup j (insert id e es) ≡ some e) (sym i) (lookup-insert id e es),
        λ k x h. elim (lookup-insert_cases k id e x es h) [
          | inl q ↦ subst (λ y. beyond y.tuple e.tuple ≡ false) (sym q.1) (irrefl e.tuple)
          | inr q ↦ f k x q.0 q.1
        ],
      )

      kept-Extreme :
          (id : String) (e r : Entry D) (es : Entries D)
          → (r.id == id) ≡ false
          → beyond e.tuple r.tuple ≡ false
          → Extreme es r
          → Extreme (insert id e es) r
      kept-Extreme id e r es n b (l, f) = (
        lookup-insert_ne id e r.id es n ∙ l,
        λ k x h. elim (lookup-insert_cases k id e x es h) [
          | inl q ↦ subst (λ y. beyond y.tuple r.tuple ≡ false) (sym q.1) b
          | inr q ↦ f k x q.1
        ],
      )

      lone :
          (e : Entry D) (es : Entries D)
          → ltb 1 (length (insert e.id e es)) ≡ false
          → insert e.id e es ≡ (e.id, e) ∷ []
      lone e [] h = refl
      lone e (p ∷ []) h = ground arith
      lone e (p ∷ q ∷ es) h = ground arith

      lone-Extreme : (e : Entry D) → Extreme ((e.id, e) ∷ []) e
      lone-Extreme e = raised-Extreme e.id e e [] refl (λ k x n h. absurd (none≢some x h))

      pub inserted-Boundary :
          (e : Entry D) (es : Entries D) (ref : Option (Entry D))
          → Sound (insert e.id e es)
          → lookup e.id es ≡ none
          → Boundary es ref
          → Boundary (insert e.id e es) (inserted_ref beyond (insert e.id e es) e ref)
      inserted-Boundary e es none s n b = elim (Bool-cases (ltb 1 (length (insert e.id e es)))) [
        | inl h ↦ rw h (ensure-Boundary (insert e.id e es) none s tt)
        | inr h ↦ rw h (subst (λ m. Extreme m e) (sym (lone e es h)) (lone-Extreme e))
      ]
      inserted-Boundary e es (some r) s n (l, f) = elim (Bool-cases (beyond e.tuple r.tuple)) [
        | inl h ↦ rw h (
            raised-Extreme e.id e r es refl
              (λ k x m q. step_trans beyond O x.tuple r.tuple e.tuple (f k x q) h))
        | inr h ↦ rw h (kept-Extreme e.id e r es (apart r.id e.id r es l n) h (l, f))
      ]

      -- The boundary itself moved: it stays one unless it moved back.
      moved-Boundary :
          (old e : Entry D) (es : Entries D)
          → e.id ≡ old.id
          → ((k : String) (x : Entry D) → lookup k es ≡ some x → beyond x.tuple old.tuple ≡ false)
          → Boundary (insert old.id e es) (if beyond old.tuple e.tuple then none else some e)
      moved-Boundary old e es i f = elim (Bool-cases (beyond old.tuple e.tuple)) [
        | inl h ↦ rw h tt
        | inr h ↦ rw h (
            raised-Extreme old.id e old es i
              (λ k x n q. negative x.tuple old.tuple e.tuple (f k x q) h))
      ]

      pub updated-Boundary :
          (old e : Entry D) (es : Entries D) (ref : Option (Entry D))
          → e.id ≡ old.id
          → lookup old.id es ≡ some old
          → Boundary es ref
          → Boundary (insert old.id e es) (updated_ref beyond old e ref)
      updated-Boundary old e es none i l b = tt
      updated-Boundary old e es (some r) i l (m, f) = elim (Bool-cases (r.id == old.id)) [
        | inl q ↦ rw q (
            moved-Boundary old e es i (
              subst
                (λ (y : Entry D).
                  (k : String) (x : Entry D)
                  → lookup k es ≡ some x
                  → beyond x.tuple y.tuple ≡ false)
                (some_injective r old
                  (sym m ∙ ap (λ j. lookup j es) ((eq_iff r.id old.id).0 q) ∙ l))
                f))
        | inr n ↦ rw n (elim (Bool-cases (beyond e.tuple r.tuple)) [
          | inl h ↦ rw h (
              raised-Extreme old.id e r es i
                (λ k x _ q. step_trans beyond O x.tuple r.tuple e.tuple (f k x q) h))
          | inr h ↦ rw h (kept-Extreme old.id e r es n h (m, f))
        ])
      ]

      pub removed-Boundary :
          (e : Entry D) (es : Entries D) (ref : Option (Entry D))
          → Boundary es ref
          → Boundary (delete e.id es) (removed_ref e ref)
      removed-Boundary e es none b = tt
      removed-Boundary e es (some r) (l, f) = elim (Bool-cases (r.id == e.id)) [
        | inl q ↦ rw q tt
        | inr n ↦ rw n (
          lookup-delete_ne e.id r.id es n ∙ l,
          λ k x h. f k x (lookup-delete-some k e.id x es h).1,
        )
      ]
