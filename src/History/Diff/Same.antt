-- ===== src/History/Diff/Same.antt =====
-- internal/history/diff.go: a version compared with itself shows no difference.
use any_sync_sdk.Base.{
  ℕ, zero, suc, ◌+◌, String, ◌≡◌, refl, ap, ◌∙◌, Bool, true, Option, none, some, List, [], ◌∷◌,
  ◌++◌, Bool-cases, inl, inr, sort,
}
use any_sync_sdk.Anyenc.{Anyenc}
use any_sync_sdk.Dict.{Dict, lookup, string_key}
use any_sync_sdk.History.Diff.{
  FieldDiff, is_skipped, get_field, is_leaf, equal_values, diff_keys, diff_values, union_keys,
  size_of, changed, diff_live, diff_records, is_dead, by_id, keys, keys_beyond, diff_ids, with_diff,
  diff_record_sets,
}

module _ ⦃E : Anyenc⦄ where
  open E use {Value, view, get, entries, equal, height, equal_refl}

  diff_keys-empty :
      (path : List String) (child : String → List (FieldDiff Value)) (ks : List String)
      → ((k : String) → child k ≡ [])
      → diff_keys path child ks ≡ []
  diff_keys-empty path child [] h = refl
  diff_keys-empty path child (k ∷ ks) h = elim (Bool-cases (is_skipped path k)) [
    | inl e ↦ rw e (diff_keys-empty path child ks h)
    | inr e ↦ rw (e, h k) (diff_keys-empty path child ks h)
  ]

  equal_values_refl :
      (equal_nil : Value → Bool) (o : Option Value) → equal_values equal_nil o o ≡ true
  equal_values_refl equal_nil none = refl
  equal_values_refl equal_nil (some v) = equal_refl v

  diff_values_same :
      (fuel : ℕ) (equal_nil : Value → Bool) (path : List String) (o : Option Value)
      → diff_values fuel equal_nil path o o ≡ []
  unfolding diff_values
  diff_values_same zero equal_nil path o = refl
  diff_values_same (suc fuel) equal_nil path o = elim (Bool-cases (is_leaf o o)) [
    | inl e ↦ rw (e, equal_values_refl equal_nil o) refl
    | inr e ↦ rw e (
        diff_keys-empty path
          (λ k. diff_values fuel equal_nil (path ++ k ∷ []) (get_field o k) (get_field o k))
          (union_keys o o) (λ k. diff_values_same fuel equal_nil (path ++ k ∷ []) (get_field o k)))
  ]

  diff_records_same :
      (equal_nil : Value → Bool) (id : String) (o : Option Value)
      → diff_records equal_nil id o o ≡ none
  unfolding diff_records diff_live
  diff_records_same equal_nil id none = refl
  diff_records_same equal_nil id (some v) = elim (Bool-cases (is_dead (some v))) [
    | inl e ↦ rw e refl
    | inr e ↦ rw e (
        ap (changed id)
          (diff_values_same (size_of (some v) + size_of (some v)) equal_nil [] (some v)))
  ]

  diff_ids_same :
      (equal_nil : Value → Bool) (m : Dict String Value) (ids : List String)
      → diff_ids equal_nil m m ids ≡ []
  unfolding diff_ids
  diff_ids_same equal_nil m [] = refl
  diff_ids_same equal_nil m (id ∷ ids) =
      ap (λ d. with_diff d (diff_ids equal_nil m m ids))
        (diff_records_same equal_nil id (lookup id m))
      ∙ diff_ids_same equal_nil m ids

  -- A set of records compared with itself has no differences, whatever records it holds, deleted ones and
  -- ones without an id included.
  pub diff_record_sets_same :
      (equal_nil : Value → Bool) (records : List (Option Value))
      → diff_record_sets equal_nil records records ≡ []
  unfolding diff_record_sets
  diff_record_sets_same equal_nil records =
      let m = by_id records [] in diff_ids_same equal_nil m (sort (keys m ++ keys_beyond m m))
