-- ===== src/Crdt/Resolve/Distinct.antt =====
-- internal/crdt/controller.go: what resolveRecordIds answers.
use any_sync_sdk.Base.{
  ℕ, suc, ◌≤◌, String, true, false, ◌≡◌, ◌≢◌, refl, sym, ◌∙◌, List, [], ◌∷◌, ◌==◌, if◌then◌else◌,
  arith, length, All, Bool-cases, inl, inr, subst, ap,
}
use any_sync_sdk.Crdt.Op.{RecordChange, Change}
use any_sync_sdk.Crdt.Resolve.{
  Result, ok, failed, derived_id, derived_id_injective, resolve_from, resolve_record_ids, then_id,
}

-- The ids of the records that came without one.
abbrev pub fresh : {V : Type 0} → List (RecordChange V) → List String → List String
fresh [] ids = []
fresh (rc ∷ records) [] = []
fresh (rc ∷ records) (id ∷ ids) =
    let rest = fresh records ids in if rc.id == "" then id ∷ rest else rest

-- The records that came with an id keep it.
abbrev pub Kept : {V : Type 0} → List (RecordChange V) → List String → Type 0
Kept [] ids = Unit
Kept (rc ∷ records) [] = Unit
Kept (rc ∷ records) (id ∷ ids) = (((rc.id == "") ≡ false) → id ≡ rc.id) × Kept records ids

abbrev pub AllDiffer : List String → Type 0
AllDiffer [] = Unit
AllDiffer (x ∷ xs) = All (λ y. x ≢ y) xs × AllDiffer xs

then_id_ok :
    (id : String) (r : Result (List String)) (ids : List String)
    → then_id id r ≡ ok ids
    → (rest : List String) × (r ≡ ok rest) × (ids ≡ id ∷ rest)
then_id_ok id (ok rest) ids h = (rest, refl, ground arith)
then_id_ok id (failed e) ids h = ground arith

module _ (derive : String → String) (change_id : String) where
  -- The ids of empty ids numbered from `seen` on.
  abbrev From : ℕ → String → Type 0
  From seen id = (n : ℕ) × (seen ≤ n) × (id ≡ derived_id (derive change_id) n)

  All-later : (seen : ℕ) (xs : List String) → All (From (suc seen)) xs → All (From seen) xs
  All-later seen [] a = tt
  All-later seen (x ∷ xs) ((n, le, e), a) = ((n, omega arith, e), All-later seen xs a)

  differ_first :
      (seen : ℕ) (xs : List String)
      → All (From (suc seen)) xs
      → All (λ y. derived_id (derive change_id) seen ≢ y) xs
  differ_first seen [] a = tt
  differ_first seen (x ∷ xs) ((n, le, e), a) = (
    λ q. let same = derived_id_injective (derive change_id) seen n (q ∙ e) in ground arith,
    differ_first seen xs a,
  )

module _ (derive : String → String) (change_id : String) {V : Type 0} where
  abbrev IsResolved : ℕ → List (RecordChange V) → List String → Type 0
  IsResolved seen records ids =
      (length ids ≡ length records)
      × Kept records ids
      × All (From derive change_id seen) (fresh records ids)
      × AllDiffer (fresh records ids)

  kept-IsResolved :
      (seen : ℕ) (rc : RecordChange V) (records : List (RecordChange V)) (ids : List String)
      → (rc.id == "") ≡ false
      → IsResolved seen records ids
      → IsResolved seen (rc ∷ records) (rc.id ∷ ids)
  kept-IsResolved seen rc records ids e (len, kept, from, differ) =
      (ap suc len, (λ _. refl, kept), rw e from, rw e differ)

  derived-IsResolved :
      (seen : ℕ) (rc : RecordChange V) (records : List (RecordChange V)) (ids : List String)
      → (rc.id == "") ≡ true
      → IsResolved (suc seen) records ids
      → IsResolved seen (rc ∷ records) (derived_id (derive change_id) seen ∷ ids)
  derived-IsResolved seen rc records ids e (len, kept, from, differ) = (
    ap suc len,
    (λ f. ground arith, kept),
    rw e (((seen, omega arith, refl), All-later derive change_id seen (fresh records ids) from)),
    rw e ((differ_first derive change_id seen (fresh records ids) from, differ)),
  )

  resolve_from-IsResolved :
      (i seen : ℕ) (records : List (RecordChange V)) (ids : List String)
      → resolve_from derive change_id i seen records ≡ ok ids
      → IsResolved seen records ids
  unfolding resolve_from
  resolve_from-IsResolved i seen [] ids h =
      let e : [] ≡ ids = ground arith in subst (IsResolved seen []) e (refl, tt, tt, tt)
  resolve_from-IsResolved i seen (rc ∷ records) ids h =
      let kept = resolve_from derive change_id (suc i) seen records in
      let next = resolve_from derive change_id (suc i) (suc seen) records in
      elim (Bool-cases (rc.id == "")) [
        | inl e ↦
            let g : then_id (derived_id (derive change_id) seen) next ≡ ok ids = ground arith in
            let (rest, q, p) = then_id_ok (derived_id (derive change_id) seen) next ids g in
            subst (IsResolved seen (rc ∷ records)) (sym p) (
              derived-IsResolved seen rc records rest e
                (resolve_from-IsResolved (suc i) (suc seen) records rest q))
        | inr e ↦
            let (rest, q, p) = then_id_ok rc.id kept ids (rw e at h) in
            subst (IsResolved seen (rc ∷ records)) (sym p) (
              kept-IsResolved seen rc records rest e
                (resolve_from-IsResolved (suc i) seen records rest q))
      ]

-- When the ids of a change resolve, there is one for each of its records, a record that came with an
-- id keeps it, and the records that came without one have ids that all differ.
pub resolve_record_ids_lem :
    {V : Type 0} (derive : String → String) (ch : Change V) (ids : List String)
    → resolve_record_ids derive ch ≡ ok ids
    → (length ids ≡ length ch.records) × Kept ch.records ids × AllDiffer (fresh ch.records ids)
unfolding resolve_record_ids
resolve_record_ids_lem derive ch ids h =
    let (len, kept, from, differ) =
      resolve_from-IsResolved derive ch.change_id 0 0 ch.records ids h in
    (len, kept, differ)
