-- ===== src/Anyenc.antt =====
-- The documents that the store keeps: the interface of any-store's package anyenc (and of
-- anyencutil), which lies outside this repository. A value has a type tag with the matching
-- accessor's result (`view`); the calls on objects and the arena's constructors are operations whose
-- documented behaviour is stated by laws. A change in place is a function to the changed value.
use any_sync_sdk.Base.{
  ℕ, ◌<◌, All, String, ◌≡◌, Bool, true, Option, none, some, List, [], ◌∷◌, ◌==◌, if◌then◌else◌,
}

-- `Type()` together with what the accessor of that type returns.
pub data View (V N : Type 0) : Type 0 where
  null : View V N
  boolean : Bool → View V N
  number : N → View V N
  string : String → View V N
  array : List V → View V N
  object : View V N
  date_time : ℕ → View V N
  opaque : View V N

-- `obj.Visit` calls back once for each pair of this list, in its order.
abbrev pub Pairs : Type 0 → Type 0
Pairs V = List (String × V)

module _ {V : Type 0} where
  abbrev pub find : String → Pairs V → Option V
  find k [] = none
  find k ((j, v) ∷ ps) = if j == k then some v else find k ps

pub record Anyenc : Type 1 where
  pub Value : Type 0
  -- a float64, with the conversions `GetInt` and `NewNumberInt`
  pub Number : Type 0
  pub zero_number : Number
  pub add : Number → Number → Number
  pub to_int : Number → ℕ
  pub of_int : ℕ → Number
  pub view : Value → View Value Number
  -- `v.Get(key)`, `v.Set(key, w)`, `v.Del(key)`, `obj.Visit`
  pub get : Value → String → Option Value
  pub put : Value → String → Value → Value
  pub del : Value → String → Value
  pub entries : Value → Pairs Value
  -- a value is a finite tree
  pub height : Value → ℕ
  pub new_object : Value
  pub new_string : String → Value
  pub new_array : List Value → Value
  pub new_number : Number → Value
  pub new_date_time : ℕ → Value
  -- `anyencutil.Copy` and `anyencutil.Equal`
  pub copy : Value → Value
  pub equal : Value → Value → Bool
  pub view-new_object : view new_object ≡ object
  pub get-new_object : (k : String) → get new_object k ≡ none
  pub view-put : (o : Value) (k : String) (v : Value) → view o ≡ object → view (put o k v) ≡ object
  pub get-put :
      (o : Value) (k j : String) (v : Value)
      → view o ≡ object
      → get (put o k v) j ≡ (if k == j then some v else get o j)
  pub view-del : (o : Value) (k : String) → view o ≡ object → view (del o k) ≡ object
  pub get-del :
      (o : Value) (k j : String)
      → view o ≡ object
      → get (del o k) j ≡ (if k == j then none else get o j)
  pub get-entries : (o : Value) (k : String) → view o ≡ object → get o k ≡ find k (entries o)
  pub height-entries : (o : Value) → view o ≡ object → All (λ p. height p.1 < height o) (entries o)
  pub to_int-of_int : (n : ℕ) → n < 9007199254740992 → to_int (of_int n) ≡ n
  pub view-new_string : (s : String) → view (new_string s) ≡ string s
  pub view-new_array : (vs : List Value) → view (new_array vs) ≡ array vs
  pub view-new_number : (n : Number) → view (new_number n) ≡ number n
  pub copy_lem : (v : Value) → copy v ≡ v
  pub equal_refl : (v : Value) → equal v v ≡ true

module _ ⦃E : Anyenc⦄ where
  open E use {Value, get}

  -- `v.Get(path...)`: each key in turn, nil once a step is missing.
  unfoldable pub get_path : Value → List String → Option Value
  get_path v [] = some v
  get_path v (k ∷ ks) = elim (get v k) [ none ↦ none | some w ↦ get_path w ks ]
