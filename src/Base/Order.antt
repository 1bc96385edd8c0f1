-- ===== src/Base/Order.antt =====
-- Tests on numbers and texts, and the order of texts: Go compares strings by their bytes, which for
-- UTF-8 is the order of the characters' numbers.
use Prim.Native.Nat.{ℕ, compare as compare_ℕ, Ordering}
use Prim.Native.String.{String, compare}
use Prim.Native.String.compare
use mathlib.Core.Path.{◌≡◌, refl}
use mathlib.Core.Logic.{◌⊎◌, inl, inr, ◌≢◌}
use mathlib.Core.Bool.{Bool, true, false}
use mathlib.Core.Option.{Option, none, some}
use native.Mathlib.Omega.{arith}
use text.Mathlib.Text.{◌==◌, is_lt}
use text.Mathlib.TextEquality.{eq_iff, Char-path}
use text.Mathlib.TextPositions.{compare_refl}

infix 1 if◌then◌else◌
abbrev pub if◌then◌else◌ {ℓ} : {A : Type ℓ} → Bool → A → A → A
if true then x else y = x
if false then x else y = y

abbrev pub ltb : ℕ → ℕ → Bool
ltb a b = elim (compare_ℕ a b) [ Ordering.lt ↦ true | _ ↦ false ]

abbrev pub leb : ℕ → ℕ → Bool
leb a b = elim (compare_ℕ a b) [ Ordering.gt ↦ false | _ ↦ true ]

pub Bool-cases : (b : Bool) → (b ≡ true) ⊎ (b ≡ false)
Bool-cases true = inl refl
Bool-cases false = inr refl

pub Option-cases {ℓ} : {A : Type ℓ} (o : Option A) → (o ≡ none) ⊎ ((a : A) × (o ≡ some a))
Option-cases none = inl refl
Option-cases (some a) = inr (a, refl)

-- `a == b` is false of different texts.
pub ne→eq-false : (a b : String) → a ≢ b → (a == b) ≡ false
ne→eq-false a b h = elim (Bool-cases (a == b)) [ inl e ↦ absurd (h ((eq_iff a b).0 e)) | inr e ↦ e ]

-- Go's `a < b` on strings.
unfoldable pub less : String → String → Bool
less a b = is_lt (compare a b)

pub less_irrefl : (a : String) → less a a ≡ false
unfolding less
less_irrefl a = rw compare_refl

pub less_nil : (a : String) → less a "" ≡ false
unfolding less
less_nil String.[] = ground (arith, compare.nil-nil)
less_nil (String.◌∷◌ c s) = ground (arith, compare.cons-nil c s)

pub less_asymm : (a b : String) → less a b ≡ true → less b a ≡ false
unfolding less
less_asymm String.[] String.[] h = refl
less_asymm String.[] (String.◌∷◌ d t) h = ground (arith, compare.cons-nil d t)
less_asymm (String.◌∷◌ c s) String.[] h = ground (arith, compare.cons-nil c s)
less_asymm (String.◌∷◌ c s) (String.◌∷◌ d t) h =
    ground (arith, compare.cons-cons c d s t, compare.cons-cons d c t s, less_asymm s t)

pub less_total : (a b : String) → less a b ≡ false → less b a ≡ false → a ≡ b
unfolding less
less_total String.[] String.[] h k = refl
less_total String.[] (String.◌∷◌ d t) h k = ground (arith, compare.nil-cons d t)
less_total (String.◌∷◌ c s) String.[] h k = ground (arith, compare.nil-cons c s)
less_total (String.◌∷◌ c s) (String.◌∷◌ d t) h k =
    ground
      (arith, compare.cons-cons c d s t, compare.cons-cons d c t s, less_total s t, Char-path c d)

pub less_trans : (a b c : String) → less a b ≡ true → less b c ≡ true → less a c ≡ true
unfolding less
less_trans String.[] String.[] e h k = k
less_trans String.[] (String.◌∷◌ d t) String.[] h k = ground (arith, compare.cons-nil d t)
less_trans String.[] (String.◌∷◌ d t) (String.◌∷◌ e u) h k = ground (arith, compare.nil-cons e u)
less_trans (String.◌∷◌ c s) String.[] e h k = ground (arith, compare.cons-nil c s)
less_trans (String.◌∷◌ c s) (String.◌∷◌ d t) String.[] h k = ground (arith, compare.cons-nil d t)
less_trans (String.◌∷◌ c s) (String.◌∷◌ d t) (String.◌∷◌ e u) h k = ground (
  arith,
  compare.cons-cons c d s t,
  compare.cons-cons d e t u,
  compare.cons-cons c e s u,
  less_trans s t u,
)

abbrev pub eqb : ℕ → ℕ → Bool
eqb a b = elim (compare_ℕ a b) [ Ordering.eq ↦ true | _ ↦ false ]

-- What both branches have, the test has.
pub if-Has {ℓ κ} :
    {A : Type ℓ} (P : A → Type κ) (b : Bool) (x y : A) → P x → P y → P (if b then x else y)
if-Has P true x y p q = p
if-Has P false x y p q = q
