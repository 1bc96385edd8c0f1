-- ===== src/Subscribe/Tuple.antt =====
-- `anyenc.Tuple`, a slice of bytes, under `bytes.Compare`: what internal/subscribe sorts by.
use any_sync_sdk.Base.{ℕ, ◌≡◌, refl, Bool, true, false, List, [], ◌∷◌, ltb, if◌then◌else◌, arith}

abbrev pub Tuple : Type 0
Tuple = List ℕ

-- `bytes.Compare(a, b) < 0`
abbrev pub tuple_less : Tuple → Tuple → Bool
tuple_less [] [] = false
tuple_less [] (b ∷ bs) = true
tuple_less (a ∷ xs) [] = false
tuple_less (a ∷ xs) (b ∷ bs) =
    let rest = tuple_less xs bs in if ltb a b then true else if ltb b a then false else rest

pub less_irrefl : (a : Tuple) → tuple_less a a ≡ false
less_irrefl [] = refl
less_irrefl (x ∷ xs) = ground (arith, less_irrefl xs)

pub less_trans :
    (a b c : Tuple) → tuple_less a b ≡ true → tuple_less b c ≡ true → tuple_less a c ≡ true
less_trans [] [] c h k = ground arith
less_trans [] (y ∷ ys) [] h k = ground arith
less_trans [] (y ∷ ys) (z ∷ zs) h k = refl
less_trans (x ∷ xs) [] c h k = ground arith
less_trans (x ∷ xs) (y ∷ ys) [] h k = ground arith
less_trans (x ∷ xs) (y ∷ ys) (z ∷ zs) h k = ground (arith, less_trans xs ys zs)

-- `>=` is transitive.
pub not_less_trans :
    (a b c : Tuple) → tuple_less a b ≡ false → tuple_less b c ≡ false → tuple_less a c ≡ false
not_less_trans [] [] [] h k = refl
not_less_trans [] [] (z ∷ zs) h k = ground arith
not_less_trans [] (y ∷ ys) c h k = ground arith
not_less_trans (x ∷ xs) b [] h k = refl
not_less_trans (x ∷ xs) [] (z ∷ zs) h k = ground arith
not_less_trans (x ∷ xs) (y ∷ ys) (z ∷ zs) h k = ground (arith, not_less_trans xs ys zs)

-- `bytes.Compare(a, b) > 0`
abbrev pub tuple_more : Tuple → Tuple → Bool
tuple_more a b = tuple_less b a

-- What the window uses of the comparison of a boundary.
pub record Beyond (beyond : Tuple → Tuple → Bool) : Type 0 where
  pub irrefl : (a : Tuple) → beyond a a ≡ false
  pub trans : (a b c : Tuple) → beyond a b ≡ true → beyond b c ≡ true → beyond a c ≡ true
  pub negative : (a b c : Tuple) → beyond a b ≡ false → beyond b c ≡ false → beyond a c ≡ false

pub below : Beyond tuple_less
below = record { irrefl = less_irrefl; trans = less_trans; negative = not_less_trans }

pub above : Beyond tuple_more
above = record {
  irrefl = less_irrefl;
  trans = λ a b c h k. less_trans c b a k h;
  negative = λ a b c h k. not_less_trans c b a k h;
}

pub step_trans :
    (beyond : Tuple → Tuple → Bool) (O : Beyond beyond) (a b c : Tuple)
    → beyond a b ≡ false
    → beyond c b ≡ true
    → beyond a c ≡ false
step_trans beyond O a b c h k = ground (arith, O.trans a c b)
