-- ===== src/Crdt/Merge/Authority.antt =====
-- internal/crdt/apply.go, mergeReplace: a broad write claims everything below its path, and what it
-- finds newer keeps its own version.
use any_sync_sdk.Base.{
  ℕ, zero, suc, ◌<◌, String, true, ◌≡◌, ◌∙◌, List, [], ◌∷◌, map, none, some, arith, refl, sym,
  subst, inl, inr, Option-cases, Bool-cases, All, ◌==◌, if◌then◌else◌, less, less_irrefl,
  less_trans, less_total, less_asymm,
}
use any_sync_sdk.Anyenc.{Anyenc, Pairs, object, string, find}
use any_sync_sdk.Crdt.Versions.{
  VersionId, FieldPath, default_key, at_least, max_of, max_at, max_version, get_version,
}

pub at_least_refl : (v : VersionId) → at_least v v ≡ true
at_least_refl v = rw (less_irrefl v) refl

pub at_least_trans :
    (a b c : VersionId) → at_least a b ≡ true → at_least b c ≡ true → at_least a c ≡ true
at_least_trans a b c h k = ground (
  arith,
  less_trans a c b,
  less_total b c,
  less_total a b,
  less_asymm a c,
  less_trans c a b,
  less_trans a b c,
  less_asymm c b,
)

max_of-start : (b : VersionId) (cs : List VersionId) → at_least (max_of b cs) b ≡ true
max_of-start b [] = at_least_refl b
max_of-start b (c ∷ cs) = elim (Bool-cases (less b c)) [
  | inl e ↦ rw e (at_least_trans _ c b (max_of-start c cs) (ground (arith, less_asymm b c)))
  | inr e ↦ rw e (max_of-start b cs)
]

max_of-step : (b c : VersionId) (cs : List VersionId) → at_least (max_of b (c ∷ cs)) c ≡ true
max_of-step b c cs = elim (Bool-cases (less b c)) [
  | inl e ↦ rw e (max_of-start c cs)
  | inr e ↦ rw e (at_least_trans _ b c (max_of-start b cs) (ground arith))
]

found_head :
    {V : Type 0} (k j : String) (x v : V) (ps : Pairs V)
    → (j == k) ≡ true
    → find k ((j, v) ∷ ps) ≡ some x
    → v ≡ x
found_head k j x v ps e h = ground arith

max_of-found :
    {V : Type 0} (f : V → VersionId) (k : String) (x : V) (b : VersionId) (ps : Pairs V)
    → find k ps ≡ some x
    → at_least (max_of b (map (λ p. f p.1) ps)) (f x) ≡ true
max_of-found f k x b [] h = ground arith
max_of-found f k x b ((j, v) ∷ ps) h = elim (Bool-cases (j == k)) [
  | inl e ↦
      subst (λ y. at_least (max_of b (f v ∷ map (λ p. f p.1) ps)) (f y) ≡ true)
        (found_head k j x v ps e h) (max_of-step b (f v) (map (λ p. f p.1) ps))
  | inr e ↦ max_of-found f k x (if less b (f v) then f v else b) ps (ground arith)
]

module _ ⦃E : Anyenc⦄ where
  open E use {
    Value, view, get, put, entries, height, new_string, view-new_string, get-entries,
    height-entries,
  }

  -- Every version at and below a node is at least `v`.
  abbrev pub ClaimedBy : VersionId → Value → Type 0
  ClaimedBy v node = (path : FieldPath) → at_least (get_version node path) v ≡ true

  -- An object whose default is `v` and whose entries are all claimed.
  pub record Claims (v : VersionId) (o : Value) : Type 0 where
    pub is_object : view o ≡ object
    pub default : get o default_key ≡ some (new_string v)
    pub entry : (k : String) (e : Value) → get o k ≡ some e → ClaimedBy v e

  pub string-ClaimedBy :
      (v s : VersionId) (e : Value) → view e ≡ string s → at_least s v ≡ true → ClaimedBy v e
  unfolding get_version max_version max_at
  string-ClaimedBy v s e h k [] = ground arith
  string-ClaimedBy v s e h k (key ∷ rest) = ground arith

  find-height :
      (n : ℕ) (k : String) (x : Value) (ps : Pairs Value)
      → find k ps ≡ some x
      → All (λ p. height p.1 < n) ps
      → height x < n
  find-height n k x [] h a = ground arith
  find-height n k x ((j, v) ∷ ps) h a = elim (Bool-cases (j == k)) [
    | inl e ↦ subst (λ y. height y < n) (found_head k j x v ps e h) a.0
    | inr e ↦ find-height n k x ps (ground arith) a.1
  ]

  max_at-new_string : (n : ℕ) (v : VersionId) → max_at (suc n) (new_string v) ≡ v
  unfolding max_at
  max_at-new_string n v = ground (arith, view-new_string v)

  max_at-object :
      (n : ℕ) (o : Value)
      → view o ≡ object
      → max_at (suc n) o ≡ max_of "" (map (λ p. max_at n p.1) (entries o))
  unfolding max_at
  max_at-object n o h = ground arith

  default-entry :
      (v : VersionId) (o : Value) → Claims v o → find default_key (entries o) ≡ some (new_string v)
  default-entry v o c = sym (get-entries o default_key c.is_object) ∙ c.default

  Claims-max :
      (v : VersionId) (o : Value) (n : ℕ)
      → 0 < n
      → Claims v o
      → at_least (max_at (suc n) o) v ≡ true
  Claims-max v o zero h c = ground arith
  Claims-max v o (suc n) h c =
      subst (λ m. at_least m v ≡ true) (sym (max_at-object (suc n) o c.is_object))
        (subst (λ x. at_least (max_of "" (map (λ p. max_at (suc n) p.1) (entries o))) x ≡ true)
          (max_at-new_string n v)
          (max_of-found (max_at (suc n)) default_key (new_string v) "" (entries o)
            (default-entry v o c)))

  get_version-entry :
      (o x : Value) (key : String) (rest : FieldPath)
      → view o ≡ object
      → get o key ≡ some x
      → get_version o (key ∷ rest) ≡ get_version x rest
  unfolding get_version
  get_version-entry o x key rest h e = ground arith

  get_version-default :
      (o : Value) (v : VersionId) (key : String) (rest : FieldPath)
      → view o ≡ object
      → get o key ≡ none
      → get o default_key ≡ some (new_string v)
      → get_version o (key ∷ rest) ≡ v
  unfolding get_version
  get_version-default o v key rest h e d = ground (arith, view-new_string v)

  pub Claims-ClaimedBy : (v : VersionId) (o : Value) → Claims v o → ClaimedBy v o
  unfolding get_version max_version
  Claims-ClaimedBy v o c [] =
      Claims-max v o (height o)
        (let lower =
            find-height (height o) default_key (new_string v) (entries o) (default-entry v o c)
              (height-entries o c.is_object) in
          omega arith)
        c
  Claims-ClaimedBy v o c (key ∷ rest) = elim (Option-cases (get o key)) [
    | inl e ↦
        subst (λ x. at_least x v ≡ true)
          (sym (get_version-default o v key rest c.is_object e c.default)) (at_least_refl v)
    | inr (x, e) ↦
        subst (λ y. at_least y v ≡ true) (sym (get_version-entry o x key rest c.is_object e))
          (c.entry key x e rest)
  ]
