-- ===== src/History/Diff/Hidden.antt =====
-- internal/history/diff.go: the fields that the protocol keeps of a record are in no difference.
use any_sync_sdk.Base.{
  ℕ, zero, suc, String, ◌≡◌, ap, Bool, true, false, not, Option, List, [], ◌∷◌, ◌++◌, All,
  if◌then◌else◌, if-Has, Bool-cases, inl, inr,
}
use any_sync_sdk.Anyenc.{Anyenc}
use any_sync_sdk.History.Diff.{
  FieldDiff, is_excluded, is_skipped, get_field, is_leaf, equal_values, diff_keys, diff_values,
  union_keys,
}

-- The path does not begin with a field that is excluded.
abbrev pub shows : List String → Bool
shows [] = true
shows (k ∷ ks) = not (is_excluded k)

module _ ⦃E : Anyenc⦄ where
  open E use {Value}

  abbrev pub Shown : List (FieldDiff Value) → Type 0
  Shown ds = All (λ d. shows d.path ≡ true) ds

  append-Shown : (xs ys : List (FieldDiff Value)) → Shown xs → Shown ys → Shown (xs ++ ys)
  append-Shown [] ys a b = b
  append-Shown (x ∷ xs) ys (p, a) b = (p, append-Shown xs ys a b)

  shows-append :
      (path : List String) (k : String)
      → shows path ≡ true
      → is_skipped path k ≡ false
      → shows (path ++ k ∷ []) ≡ true
  shows-append [] k h n = ap not n
  shows-append (p ∷ ps) k h n = h

  diff_keys-Shown :
      (path : List String) (child : String → List (FieldDiff Value)) (ks : List String)
      → ((k : String) → is_skipped path k ≡ false → Shown (child k))
      → Shown (diff_keys path child ks)
  diff_keys-Shown path child [] h = tt
  diff_keys-Shown path child (k ∷ ks) h = elim (Bool-cases (is_skipped path k)) [
    | inl e ↦ rw e (diff_keys-Shown path child ks h)
    | inr e ↦
        rw e (
          append-Shown (child k) (diff_keys path child ks) (h k e)
            (diff_keys-Shown path child ks h))
  ]

  -- No difference between two values, compared from a path on that does not begin with a field of the
  -- bookkeeping, is at such a field or below it.
  pub diff_values-Shown :
      (fuel : ℕ) (equal_nil : Value → Bool) (path : List String) (before after : Option Value)
      → shows path ≡ true
      → Shown (diff_values fuel equal_nil path before after)
  unfolding diff_values
  diff_values-Shown zero equal_nil path before after h = tt
  diff_values-Shown (suc fuel) equal_nil path before after h =
      let child = λ (k : String).
        diff_values fuel equal_nil (path ++ k ∷ []) (get_field before k) (get_field after k) in
      if-Has Shown (is_leaf before after)
        (if equal_values equal_nil before after
          then []
          else record { path = path; before = before; after = after } ∷ [])
        (diff_keys path child (union_keys before after))
        (if-Has Shown (equal_values equal_nil before after) []
          (record { path = path; before = before; after = after } ∷ []) tt (h, tt))
        (diff_keys-Shown path child (union_keys before after) (λ k n.
          diff_values-Shown fuel equal_nil (path ++ k ∷ []) (get_field before k) (get_field after k)
            (shows-append path k h n)))
