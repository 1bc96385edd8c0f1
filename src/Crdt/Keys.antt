-- ===== src/Crdt/Keys.antt =====
-- internal/crdt/controller.go, KeyedId to KeyedBounds, KeyedRows and KeyedRecordId: the document ids
-- of a keyed dataset, whose collection holds the rows of all objects of a space.
use any_sync_sdk.Base.{
  String, Bool, true, false, not, ◌&&◌, ◌≡◌, refl, sym, ◌∙◌, Option, none, some, ◌↔◌, if◌then◌else◌,
  eqb, less, less_nil, arith, Option-cases, inl, inr,
}
use any_sync_sdk.Dict.{some_injective}
use Prim.Native.String.{◌++◌ as append}
use Prim.Native.String.compare
use Prim.Native.String.append as append_clauses
use Prim.Native.Char.{code}
use text.Mathlib.TextEquality.{Char-path}

-- `strings.HasPrefix` and `strings.TrimPrefix`: what follows the prefix, none where it is missing.
unfoldable pub after_prefix : String → String → Option String
after_prefix String.[] s = some s
after_prefix (String.◌∷◌ c p) String.[] = none
after_prefix (String.◌∷◌ c p) (String.◌∷◌ d s) =
    let rest = after_prefix p s in if eqb (code c) (code d) then rest else none

abbrev is_some : {A : Type 0} → Option A → Bool
is_some none = false
is_some (some _) = true

abbrev key_separator : String
key_separator = "/"

abbrev prefix_of : String → String
prefix_of object_id = append object_id key_separator

unfoldable pub keyed_id : String → String → String
unfolding after_prefix
keyed_id object_id record_id =
    if is_some (after_prefix (prefix_of object_id) record_id)
    then record_id
    else append (prefix_of object_id) record_id

unfoldable pub keyed_store_id : String → String → String
keyed_store_id object_id record_id = append (append object_id key_separator) record_id

unfoldable pub keyed_bounds : String → String × String
keyed_bounds object_id = (append object_id key_separator, append object_id "0")

-- The filter `_id >= lo && _id < hi` on a document id.
unfoldable pub keyed_rows : String → String → Bool
unfolding keyed_bounds
keyed_rows object_id id = let (lo, hi) = keyed_bounds object_id in not (less id lo) && less id hi

unfoldable pub keyed_record_id : String → String → String
unfolding after_prefix
keyed_record_id object_id id = elim (after_prefix (prefix_of object_id) id) [
  | none ↦ id
  | some r ↦ r
]

pub after_prefix-append : (p s : String) → after_prefix p (append p s) ≡ some s
unfolding after_prefix
after_prefix-append String.[] s = ground (arith, append_clauses.nil s)
after_prefix-append (String.◌∷◌ c p) s =
    ground (arith, append_clauses.cons c p s, after_prefix-append p s)

append-after_prefix : (p s t : String) → after_prefix p s ≡ some t → append p t ≡ s
unfolding after_prefix
append-after_prefix String.[] s t h = append_clauses.nil t ∙ sym (some_injective s t h)
append-after_prefix (String.◌∷◌ c p) String.[] t h = ground arith
append-after_prefix (String.◌∷◌ c p) (String.◌∷◌ d s) t h =
    ground (arith, append_clauses.cons c p t, Char-path c d, append-after_prefix p s t)

in_range : String → String → String → Bool
in_range lo hi id = not (less id lo) && less id hi

in_range-after_prefix :
    (o id : String)
    → in_range (append o "/") (append o "0") id ≡ is_some (after_prefix (append o "/") id)
unfolding in_range after_prefix less
in_range-after_prefix String.[] String.[] =
    ground (arith, append_clauses.nil "/", compare.nil-cons "/" String.[])
in_range-after_prefix String.[] (String.◌∷◌ d s) =
    rw (append_clauses.nil "/", append_clauses.nil "0")
      (ground (
        arith,
        less_nil s,
        compare.cons-cons d "/" s String.[],
        compare.cons-cons d "0" s String.[],
      ))
in_range-after_prefix (String.◌∷◌ c o) String.[] =
    ground (arith, append_clauses.cons c o "/", compare.nil-cons c (append o "/"))
in_range-after_prefix (String.◌∷◌ c o) (String.◌∷◌ d s) = ground (
  arith,
  append_clauses.cons c o "/",
  append_clauses.cons c o "0",
  compare.cons-cons d c s (append o "/"),
  compare.cons-cons d c s (append o "0"),
  in_range-after_prefix o s,
)

-- The object id holds no separator.
unfoldable pub no_separator : String → Bool
no_separator String.[] = true
no_separator (String.◌∷◌ c s) = not (eqb (code c) b'/') && no_separator s

before_separator : String → String
before_separator String.[] = String.[]
before_separator (String.◌∷◌ c s) =
    let rest = before_separator s in if eqb (code c) b'/' then String.[] else String.◌∷◌ c rest

before-prefix :
    (o r : String) → no_separator o ≡ true → before_separator (append (append o "/") r) ≡ o
unfolding before_separator no_separator
before-prefix String.[] r h = rw (append_clauses.nil "/", append_clauses.cons "/" "" r) refl
before-prefix (String.◌∷◌ c o) r h =
    rw (append_clauses.cons c o "/", append_clauses.cons c (append o "/") r)
      (ground (arith, before-prefix o r))

keyed_rows_lem : (o id : String) → keyed_rows o id ≡ is_some (after_prefix (append o "/") id)
unfolding keyed_rows keyed_bounds in_range
keyed_rows_lem o id = in_range-after_prefix o id

-- The bounds hold a document id exactly when it is the store id of a record of the object, and that
-- record is the one that the id is read back as.
pub keyed_rows_iff :
    (object_id id : String)
    → (keyed_rows object_id id ≡ true)
      ↔ (id ≡ keyed_store_id object_id (keyed_record_id object_id id))
unfolding keyed_rows keyed_bounds keyed_store_id keyed_record_id
keyed_rows_iff o id = elim (Option-cases (after_prefix (append o "/") id)) [
  | inl e ↦ (
    λ h. ground (arith, keyed_rows_lem o id),
    λ h. ground (arith, after_prefix-append (append o "/") id),
  )
  | inr (t, e) ↦ (
    λ h. ground (arith, append-after_prefix (append o "/") id t),
    λ h. ground (arith, keyed_rows_lem o id),
  )
]

-- Two objects whose ids hold no separator never share a document: a store id names its object and its record.
pub keyed_store_id-injective :
    (o p r s : String)
    → no_separator o ≡ true
    → no_separator p ≡ true
    → keyed_store_id o r ≡ keyed_store_id p s
    → (o ≡ p) × (r ≡ s)
unfolding keyed_store_id
keyed_store_id-injective o p r s h k e = ground (
  arith,
  before-prefix o r,
  before-prefix p s,
  after_prefix-append (append o "/") r,
  after_prefix-append (append p "/") s,
)

-- The form that a caller names a record by, the record id or the document id, is stored among the
-- object's rows, and naming it again changes nothing.
pub keyed_id-keyed_rows :
    (o r : String)
    → (keyed_rows o (keyed_id o r) ≡ true) × (keyed_id o (keyed_id o r) ≡ keyed_id o r)
unfolding keyed_id
keyed_id-keyed_rows o r = elim (Option-cases (after_prefix (append o "/") r)) [
  | inl e ↦
      ground
        (arith, keyed_rows_lem o (append (append o "/") r), after_prefix-append (append o "/") r)
  | inr (t, e) ↦ ground (arith, keyed_rows_lem o r)
]

-- The store id of a record is among the rows of its object.
pub keyed_store_id-keyed_rows : (o r : String) → keyed_rows o (keyed_store_id o r) ≡ true
unfolding keyed_store_id
keyed_store_id-keyed_rows o r =
    ground (arith, keyed_rows_lem o (append (append o "/") r), after_prefix-append (append o "/") r)
