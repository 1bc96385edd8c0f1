-- ===== src/History/Diff/Enough.antt =====
-- internal/history/diff.go: the recursion over nested objects ends within the fuel that it is given.
use any_sync_sdk.Base.{
  ℕ, zero, suc, ◌+◌, ◌≤◌, ◌<◌, String, ◌≡◌, refl, sym, ap, ◌∙◌, subst, Bool, true, false, not, ◌&&◌,
  Option, none, some, List, [], ◌∷◌, ◌++◌, All, if◌then◌else◌, Bool-cases, Option-cases, inl, inr,
  arith,
}
use any_sync_sdk.Anyenc.{Anyenc, Pairs, View, object, find}
use any_sync_sdk.History.Diff.{
  FieldDiff, is_skipped, get_field, is_object, is_leaf, diff_keys, diff_values, union_keys, size_of,
  field_diffs,
}

object_of : (b : Bool) → not b ≡ false → b ≡ true
object_of b h = ground arith

both_objects : (a b : Bool) → not (a && b) ≡ false → (a ≡ true) × (b ≡ true)
both_objects a b h = ground arith

module _ ⦃E : Anyenc⦄ where
  open E use {Value, Number, view, get, entries, height, get-entries, height-entries}

  find-height :
      (k : String) (w : Value) (n : ℕ) (ps : Pairs Value)
      → find k ps ≡ some w
      → All (λ p. height p.1 < n) ps
      → height w < n
  find-height k w n [] h a = ground arith
  find-height k w n ((j, v) ∷ ps) h (l, a) = ground (arith, find-height k w n ps)

  view-object : (v : View Value Number) → (elim v [ object ↦ true | _ ↦ false ]) ≡ true → v ≡ object
  view-object View.null h = ground arith
  view-object (View.boolean b) h = ground arith
  view-object (View.number n) h = ground arith
  view-object (View.string s) h = ground arith
  view-object (View.array vs) h = ground arith
  view-object View.object h = refl
  view-object (View.date_time n) h = ground arith
  view-object View.opaque h = ground arith

  -- A field of an object is smaller than the object.
  field-smaller :
      (o : Option Value) (k : String) (n : ℕ)
      → ((v : Value) → o ≡ some v → is_object (some v) ≡ true)
      → size_of o ≤ suc n
      → size_of (get_field o k) ≤ n
  field-smaller none k n f h = omega arith
  field-smaller (some v) k n f h =
      let ob = view-object (view v) (f v refl) in
      elim (Option-cases (get v k)) [
        | inl e ↦ rw e (omega arith)
        | inr e ↦ rw (e.1) (
            let smaller =
              find-height k e.0 (height v) (entries v) (sym (get-entries v k ob) ∙ e.1)
                (height-entries v ob) in
            omega arith)
      ]

  left_object :
      (v : Value) (b : Option Value) → is_leaf (some v) b ≡ false → is_object (some v) ≡ true
  left_object v none h = object_of (is_object (some v)) h
  left_object v (some w) h = (both_objects (is_object (some v)) (is_object (some w)) h).0

  right_object :
      (a : Option Value) (v : Value) → is_leaf a (some v) ≡ false → is_object (some v) ≡ true
  right_object none v h = object_of (is_object (some v)) h
  right_object (some w) v h = (both_objects (is_object (some w)) (is_object (some v)) h).1

  object-left :
      (a b : Option Value) (v : Value)
      → is_leaf a b ≡ false
      → a ≡ some v
      → is_object (some v) ≡ true
  object-left a b v h e = left_object v b (subst (λ o. is_leaf o b ≡ false) e h)

  object-right :
      (a b : Option Value) (v : Value)
      → is_leaf a b ≡ false
      → b ≡ some v
      → is_object (some v) ≡ true
  object-right a b v h e = right_object a v (subst (λ o. is_leaf a o ≡ false) e h)

  diff_keys-cong :
      (path : List String) (f g : String → List (FieldDiff Value)) (ks : List String)
      → ((k : String) → f k ≡ g k)
      → diff_keys path f ks ≡ diff_keys path g ks
  diff_keys-cong path f g [] h = refl
  diff_keys-cong path f g (k ∷ ks) h =
      ap (λ ds. (if is_skipped path k then [] else ds) ++ diff_keys path f ks) (h k)
      ∙ ap (λ ds. (if is_skipped path k then [] else g k) ++ ds) (diff_keys-cong path f g ks h)

  diff_values-fuel :
      (m n : ℕ) (equal_nil : Value → Bool) (path : List String) (a b : Option Value)
      → size_of a ≤ m
      → size_of b ≤ m
      → size_of a ≤ n
      → size_of b ≤ n
      → diff_values m equal_nil path a b ≡ diff_values n equal_nil path a b
  unfolding diff_values
  diff_values-fuel zero zero equal_nil path a b h i j k = refl
  diff_values-fuel zero (suc n) equal_nil path none none h i j k = refl
  diff_values-fuel zero (suc n) equal_nil path (some v) b h i j k = ground arith
  diff_values-fuel zero (suc n) equal_nil path none (some w) h i j k = ground arith
  diff_values-fuel (suc m) zero equal_nil path none none h i j k = refl
  diff_values-fuel (suc m) zero equal_nil path (some v) b h i j k = ground arith
  diff_values-fuel (suc m) zero equal_nil path none (some w) h i j k = ground arith
  diff_values-fuel (suc m) (suc n) equal_nil path a b h i j k = elim (Bool-cases (is_leaf a b)) [
    | inl e ↦ rw e refl
    | inr e ↦ rw e (
        diff_keys-cong path
          (λ x. diff_values m equal_nil (path ++ x ∷ []) (get_field a x) (get_field b x))
          (λ x. diff_values n equal_nil (path ++ x ∷ []) (get_field a x) (get_field b x))
          (union_keys a b)
          (λ x.
            diff_values-fuel m n equal_nil (path ++ x ∷ []) (get_field a x) (get_field b x)
              (field-smaller a x m (λ v q. object-left a b v e q) h)
              (field-smaller b x m (λ v q. object-right a b v e q) i)
              (field-smaller a x n (λ v q. object-left a b v e q) j)
              (field-smaller b x n (λ v q. object-right a b v e q) k)))
  ]

  -- The comparison of two values ends within its fuel: with any more fuel it gives the same differences.
  pub diff_values-enough :
      (more : ℕ) (equal_nil : Value → Bool) (a b : Option Value)
      → diff_values (size_of a + size_of b + more) equal_nil [] a b ≡ field_diffs equal_nil a b
  diff_values-enough more equal_nil a b =
      diff_values-fuel (size_of a + size_of b + more) (size_of a + size_of b) equal_nil [] a b
        (omega arith) (omega arith) (omega arith) (omega arith)
