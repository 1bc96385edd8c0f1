-- ===== src/Dict/Members.antt =====
-- The members of two lists, one after the other.
use any_sync_sdk.Base.{List, [], ◌∷◌, ◌++◌, inl, inr, ◌⊎◌, arith}
use any_sync_sdk.Dict.{In}

module _ {V : Type 0} (v : V) where
  pub In-append_left : (xs ys : List V) → In v xs → In v (xs ++ ys)
  In-append_left [] ys i = ground arith
  In-append_left (x ∷ xs) ys (inl e) = inl e
  In-append_left (x ∷ xs) ys (inr i) = inr (In-append_left xs ys i)

  pub In-append_right : (xs ys : List V) → In v ys → In v (xs ++ ys)
  In-append_right [] ys i = i
  In-append_right (x ∷ xs) ys i = inr (In-append_right xs ys i)

  pub In-append : (xs ys : List V) → In v (xs ++ ys) → In v xs ⊎ In v ys
  In-append [] ys i = inr i
  In-append (x ∷ xs) ys (inl e) = inl (inl e)
  In-append (x ∷ xs) ys (inr i) = elim (In-append xs ys i) [ inl j ↦ inl (inr j) | inr j ↦ inr j ]
