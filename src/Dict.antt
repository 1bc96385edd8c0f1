-- ===== src/Dict.antt =====
-- Go's maps: a list of pairs, with the lookups that follow a write or a delete. Go visits a map in an
-- arbitrary order, the list has one.
pub mod Members
pub mod Lengths
use any_sync_sdk.Base.{
  ℕ, suc, ◌≤◌, ◌≡◌, ◌≢◌, refl, sym, ◌∙◌, Bool, true, false, ◌↔◌, Option, none, some, List, [], ◌∷◌,
  ◌⊎◌, inl, inr, String, ◌==◌, eq_iff, eqb, if◌then◌else◌, Bool-cases, arith, length, subst, All,
}

pub record Key (K : Type 0) : Type 0 where
  pub same : K → K → Bool
  pub same_iff : (a b : K) → (same a b ≡ true) ↔ (a ≡ b)

pub eqb_iff : (a b : ℕ) → (eqb a b ≡ true) ↔ (a ≡ b)
eqb_iff a b = (λ h. ground arith, λ h. ground arith)

instance abbrev pub string_key : Key String
string_key = record { same = ◌==◌; same_iff = eq_iff }

instance abbrev pub number_key : Key ℕ
number_key = record { same = eqb; same_iff = eqb_iff }

abbrev pub Dict : Type 0 → Type 0 → Type 0
Dict K V = List (K × V)

module _ {K : Type 0} ⦃Q : Key K⦄ where
  open Q use {same, same_iff}

  pub same_refl : (a : K) → same a a ≡ true
  same_refl a = (same_iff a a).1 refl

  pub same_sym : (a b : K) → same a b ≡ same b a
  same_sym a b = ground (arith, same_iff a b, same_iff b a)

pub none≢some : {V : Type 0} (v : V) → none ≢ some v
none≢some v h = ground arith

pub some_injective : {V : Type 0} (v w : V) → some v ≡ some w → v ≡ w
some_injective v w h = cc

module _ {K : Type 0} {V : Type 0} ⦃Q : Key K⦄ where
  open Q use {same, same_iff}

  -- `v, ok := m[k]`
  abbrev pub lookup : K → Dict K V → Option V
  lookup k [] = none
  lookup k ((j, v) ∷ m) = if same k j then some v else lookup k m

  -- `m[k] = v`
  abbrev pub insert : K → V → Dict K V → Dict K V
  insert k v [] = (k, v) ∷ []
  insert k v ((j, w) ∷ m) = if same k j then (k, v) ∷ m else (j, w) ∷ insert k v m

  -- `delete(m, k)`
  abbrev pub delete : K → Dict K V → Dict K V
  delete k [] = []
  delete k ((j, w) ∷ m) = let rest = delete k m in if same k j then rest else (j, w) ∷ rest

  pub lookup-insert : (k : K) (v : V) (m : Dict K V) → lookup k (insert k v m) ≡ some v
  lookup-insert k v [] = ground (arith, same_refl k)
  lookup-insert k v ((j, w) ∷ m) = ground (arith, same_refl k, lookup-insert k v m)

  pub lookup-insert_ne :
      (k : K) (v : V) (j : K) (m : Dict K V)
      → same j k ≡ false
      → lookup j (insert k v m) ≡ lookup j m
  lookup-insert_ne k v j [] h = ground arith
  lookup-insert_ne k v j ((i, w) ∷ m) h = ground (arith, same_iff k i, lookup-insert_ne k v j m h)

  pub lookup-delete : (k : K) (m : Dict K V) → lookup k (delete k m) ≡ none
  lookup-delete k [] = refl
  lookup-delete k ((j, w) ∷ m) = ground (arith, lookup-delete k m)

  pub lookup-delete_ne :
      (k j : K) (m : Dict K V) → same j k ≡ false → lookup j (delete k m) ≡ lookup j m
  lookup-delete_ne k j [] h = refl
  lookup-delete_ne k j ((i, w) ∷ m) h = ground (arith, same_iff k i, lookup-delete_ne k j m h)

  -- A dictionary in which no key has a value is empty.
  pub is_empty : (m : Dict K V) → ((k : K) → lookup k m ≡ none) → m ≡ []
  is_empty [] h = refl
  is_empty ((k, v) ∷ m) h = ground (arith, same_refl k, h k)

  -- The keys differ, as those of a map do.
  abbrev pub Distinct : Dict K V → Type 0
  Distinct [] = Unit
  Distinct ((k, v) ∷ m) = (lookup k m ≡ none) × Distinct m

  pub insert-Distinct : (k : K) (v : V) (m : Dict K V) → Distinct m → Distinct (insert k v m)
  insert-Distinct k v [] d = (refl, tt)
  insert-Distinct k v ((j, w) ∷ m) (n, d) = elim (Bool-cases (same k j)) [
    | inl e ↦ rw e ((subst (λ i. lookup i m ≡ none) (sym ((same_iff k j).0 e)) n, d))
    | inr e ↦ rw e ((lookup-insert_ne k v j m (same_sym j k ∙ e) ∙ n, insert-Distinct k v m d))
  ]

  pub delete-Distinct : (k : K) (m : Dict K V) → Distinct m → Distinct (delete k m)
  delete-Distinct k [] d = tt
  delete-Distinct k ((j, w) ∷ m) (n, d) = elim (Bool-cases (same k j)) [
    | inl e ↦ rw e (delete-Distinct k m d)
    | inr e ↦ rw e ((lookup-delete_ne k j m (same_sym j k ∙ e) ∙ n, delete-Distinct k m d))
  ]

  lookup-tail :
      (k : K) (v : V) (j : K) (w : V) (m : Dict K V)
      → lookup j m ≡ none
      → lookup k m ≡ some v
      → lookup k ((j, w) ∷ m) ≡ some v
  lookup-tail k v j w m n h = ground (arith, same_iff k j)

  module _ (P : K → V → Type 0) where
    pub lookup-All :
        (k : K) (v : V) (m : Dict K V) → All (λ e. P e.0 e.1) m → lookup k m ≡ some v → P k v
    lookup-All k v [] a h = ground arith
    lookup-All k v ((j, w) ∷ m) (p, a) h = elim (Bool-cases (same k j)) [
      | inl e ↦
          subst (λ u. P k u) (some_injective w v (rw e at h))
            (subst (λ i. P i w) (sym ((same_iff k j).0 e)) p)
      | inr e ↦ lookup-All k v m a (rw e at h)
    ]

    pub insert-All :
        (k : K) (v : V) (m : Dict K V)
        → P k v
        → All (λ e. P e.0 e.1) m
        → All (λ e. P e.0 e.1) (insert k v m)
    insert-All k v [] p a = (p, tt)
    insert-All k v ((j, w) ∷ m) p (q, a) = elim (Bool-cases (same k j)) [
      | inl e ↦ rw e ((p, a))
      | inr e ↦ rw e ((q, insert-All k v m p a))
    ]

    pub delete-All :
        (k : K) (m : Dict K V) → All (λ e. P e.0 e.1) m → All (λ e. P e.0 e.1) (delete k m)
    delete-All k [] a = tt
    delete-All k ((j, w) ∷ m) (q, a) = elim (Bool-cases (same k j)) [
      | inl e ↦ rw e (delete-All k m a)
      | inr e ↦ rw e ((q, delete-All k m a))
    ]

    -- What holds of every lookup holds of every pair of a map.
    pub All-lookup :
        (m : Dict K V)
        → Distinct m
        → ((k : K) (v : V) → lookup k m ≡ some v → P k v)
        → All (λ e. P e.0 e.1) m
    All-lookup [] d f = tt
    All-lookup ((j, w) ∷ m) (n, d) f =
        (f j w (rw (same_refl j) refl), All-lookup m d (λ k v h. f k v (lookup-tail k v j w m n h)))

  pub lookup-insert_cases :
      (k j : K) (v w : V) (m : Dict K V)
      → lookup k (insert j v m) ≡ some w
      → ((k ≡ j) × (w ≡ v)) ⊎ ((same k j ≡ false) × (lookup k m ≡ some w))
  lookup-insert_cases k j v w m h = elim (Bool-cases (same k j)) [
    | inl e ↦ inl (
      (same_iff k j).0 e,
      some_injective w v (
          sym h
          ∙ subst (λ i. lookup i (insert j v m) ≡ some v) (sym ((same_iff k j).0 e))
              (lookup-insert j v m)),
    )
    | inr n ↦ inr (n, sym (lookup-insert_ne j v k m n) ∙ h)
  ]

  pub lookup-delete-some :
      (k j : K) (w : V) (m : Dict K V)
      → lookup k (delete j m) ≡ some w
      → (same k j ≡ false) × (lookup k m ≡ some w)
  lookup-delete-some k j w m h = elim (Bool-cases (same k j)) [
    | inl e ↦ absurd (
        none≢some w (
          sym (
            subst (λ i. lookup i (delete j m) ≡ none) (sym ((same_iff k j).0 e))
              (lookup-delete j m))
          ∙ h))
    | inr n ↦ (n, sym (lookup-delete_ne j k m n) ∙ h)
  ]

  pub lookup-insert_lem :
      (k : K) (v : V) (j : K) (m : Dict K V)
      → lookup j (insert k v m) ≡ (if same j k then some v else lookup j m)
  lookup-insert_lem k v j m = elim (Bool-cases (same j k)) [
    | inl e ↦ rw e (
        subst (λ i. lookup i (insert k v m) ≡ some v) (sym ((same_iff j k).0 e))
          (lookup-insert k v m))
    | inr n ↦ rw n (lookup-insert_ne k v j m n)
  ]

  pub lookup-delete_lem :
      (k j : K) (m : Dict K V) → lookup j (delete k m) ≡ (if same j k then none else lookup j m)
  lookup-delete_lem k j m = elim (Bool-cases (same j k)) [
    | inl e ↦
        rw e
          (subst (λ i. lookup i (delete k m) ≡ none) (sym ((same_iff j k).0 e)) (lookup-delete k m))
    | inr n ↦ rw n (lookup-delete_ne k j m n)
  ]

-- The values, in the order in which a loop visits them.
abbrev pub values : {K : Type 0} {V : Type 0} → Dict K V → List V
values [] = []
values ((k, v) ∷ m) = v ∷ values m

abbrev pub In : {V : Type 0} → V → List V → Type 0
In v [] = false ≡ true
In v (x ∷ xs) = (x ≡ v) ⊎ In v xs

module _ {K : Type 0} {V : Type 0} ⦃Q : Key K⦄ where
  open Q use {same}

  pub lookup-In : (k : K) (v : V) (m : Dict K V) → lookup k m ≡ some v → In v (values m)
  lookup-In k v [] e = ground arith
  lookup-In k v ((j, w) ∷ m) e = elim (Bool-cases (same k j)) [
    | inl q ↦ inl (some_injective w v (rw q at e))
    | inr q ↦ inr (lookup-In k v m (rw q at e))
  ]
