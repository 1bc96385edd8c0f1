-- ===== src/Crdt/Traces/Held.antt =====
-- internal/crdt/traces.go, collectVersionIds: the versions that a version tree holds.
use any_sync_sdk.Base.{
  ℕ, zero, suc, ◌<◌, String, true, ◌≡◌, ◌≢◌, ◌⊎◌, refl, false, sym, subst, List, [], ◌∷◌, ◌++◌,
  ◌||◌, All, arith, eq_iff, inl, inr, Bool-cases, if◌then◌else◌, ◌==◌,
}
use any_sync_sdk.Anyenc.{
  Anyenc, Pairs, View, null, boolean, number, string, array, object, date_time, opaque,
}
use any_sync_sdk.Dict.{In}
use any_sync_sdk.Crdt.Versions.{VersionId}
use any_sync_sdk.Crdt.Traces.{contains, collect_all, collect_at, collect_version_ids}

contains-append :
    (xs ys : List String) (v : String) → contains (xs ++ ys) v ≡ contains xs v || contains ys v
unfolding contains
contains-append [] ys v = ground arith
contains-append (x ∷ xs) ys v = ground (arith, contains-append xs ys v)

module _ ⦃E : Anyenc⦄ where
  open E use {Value, Number, view, entries, height, height-entries}

  -- The version is a non-empty string at the node or, below objects, at an entry of it.
  pub data Holds (v : VersionId) : Value → Type 0 where
    at_node : (node : Value) → view node ≡ string v → v ≢ "" → Holds v node
    below :
        (node : Value) (k : String) (w : Value)
        → view node ≡ object
        → In (k, w) (entries node)
        → Holds v w
        → Holds v node

  from_entries :
      (f : Value → List String) (ps : Pairs Value) (v : VersionId)
      → contains (collect_all f ps) v ≡ true
      → (k : String) × (w : Value) × In (k, w) ps × (contains (f w) v ≡ true)
  unfolding contains
  from_entries f [] v h = ground arith
  from_entries f ((k, w) ∷ ps) v h = elim (Bool-cases (contains (f w) v)) [
    | inl e ↦ (k, w, inl refl, e)
    | inr e ↦
        let split = contains-append (f w) (collect_all f ps) v in
        let (k', w', i, c) = from_entries f ps v (ground arith) in (k', w', inr i, c)
  ]

  to_entries :
      (f : Value → List String) (ps : Pairs Value) (v : VersionId) (k : String) (w : Value)
      → In (k, w) ps
      → contains (f w) v ≡ true
      → contains (collect_all f ps) v ≡ true
  unfolding contains
  to_entries f [] v k w i h = ground arith
  to_entries f ((k', w') ∷ ps) v k w (inl e) h =
      let same : contains (f w') v ≡ true =
        subst (λ (p : String × Value). contains (f p.1) v ≡ true) (sym e) h in
      ground (arith, contains-append (f w') (collect_all f ps) v)
  to_entries f ((k', w') ∷ ps) v k w (inr i) h =
      ground (arith, contains-append (f w') (collect_all f ps) v, to_entries f ps v k w i h)

  lower_entry :
      (n : ℕ) (ps : Pairs Value) (k : String) (w : Value)
      → All (λ (p : String × Value). height p.1 < n) ps
      → In (k, w) ps
      → height w < n
  lower_entry n [] k w a i = ground arith
  lower_entry n (p ∷ ps) k w (h, a) (inl e) = subst (λ (q : String × Value). height q.1 < n) e h
  lower_entry n (p ∷ ps) k w (h, a) (inr i) = lower_entry n ps k w a i

  listed : (s v : String) → contains (if s == "" then [] else s ∷ []) v ≡ true → (s ≡ v) × (s ≢ "")
  unfolding contains
  listed s v h = ground (arith, eq_iff s v, eq_iff s "")

  listed_self : (v : String) → v ≢ "" → contains (if v == "" then [] else v ∷ []) v ≡ true
  unfolding contains
  listed_self v ne = ground (arith, eq_iff v v, eq_iff v "")

  abbrev collected_by : ℕ → Value → View Value Number → List String
  collected_by fuel node w = elim w [
    | string s ↦ if s == "" then [] else s ∷ []
    | object ↦ collect_all (collect_at fuel) (entries node)
    | _ ↦ []
  ]

  viewed-Holds :
      (fuel : ℕ) (node : Value) (v : VersionId) (w : View Value Number)
      → ((n : Value) → contains (collect_at fuel n) v ≡ true → Holds v n)
      → view node ≡ w
      → contains (collected_by fuel node w) v ≡ true
      → Holds v node
  unfolding contains
  viewed-Holds fuel node v (string s) inner e h =
      let (same, ne) = listed s v h in subst (λ x. Holds x node) same (at_node node e ne)
  viewed-Holds fuel node v object inner e h =
      let (k, w, i, c) = from_entries (collect_at fuel) (entries node) v h in
      below node k w e i (inner w c)
  viewed-Holds fuel node v null inner e h = ground arith
  viewed-Holds fuel node v (boolean b) inner e h = ground arith
  viewed-Holds fuel node v (number n) inner e h = ground arith
  viewed-Holds fuel node v (array vs) inner e h = ground arith
  viewed-Holds fuel node v (date_time n) inner e h = ground arith
  viewed-Holds fuel node v (opaque) inner e h = ground arith

  collect_at-Holds :
      (fuel : ℕ) (node : Value) (v : VersionId)
      → contains (collect_at fuel node) v ≡ true
      → Holds v node
  unfolding contains collect_at
  collect_at-Holds zero node v h = ground arith
  collect_at-Holds (suc fuel) node v h =
      viewed-Holds fuel node v (view node) (λ n. collect_at-Holds fuel n v) refl h

  Holds-collect_at :
      (fuel : ℕ) (node : Value) (v : VersionId)
      → Holds v node
      → height node < fuel
      → contains (collect_at fuel node) v ≡ true
  unfolding collect_at
  Holds-collect_at zero node v h lt = ground arith
  Holds-collect_at (suc fuel) node v (at_node _ e ne) lt = rw (e, collect_at) (listed_self v ne)
  Holds-collect_at (suc fuel) node v (below _ k w e i h) lt =
      let lower = lower_entry (height node) (entries node) k w (height-entries node e) i in
      rw (e, collect_at)
        (to_entries (collect_at fuel) (entries node) v k w i
          (Holds-collect_at fuel w v h (omega (arith, lower))))

  -- The list of the versions is sound and complete: its fuel does not run out.
  pub collect_version_ids-Holds :
      (node : Value) (v : VersionId)
      → ((contains (collect_version_ids node) v ≡ true) × Holds v node)
        ⊎ ((contains (collect_version_ids node) v ≡ false) × (¬ Holds v node))
  unfolding collect_version_ids
  collect_version_ids-Holds node v = elim (Bool-cases (contains (collect_version_ids node) v)) [
    | inl e ↦ inl (e, collect_at-Holds (suc (height node)) node v e)
    | inr e ↦ inr (
      e,
      λ h. let y = Holds-collect_at (suc (height node)) node v h (omega arith) in ground arith,
    )
  ]
