-- ===== src/Tests/Json.antt =====
-- JSON-like documents that meet the laws of the document interface, for the concrete inputs.
use any_sync_sdk.Base.{
  ℕ, suc, ◌+◌, ◌<◌, ◌≤◌, String, ◌≡◌, refl, ap, Bool, true, false, ◌&&◌, Option, none, some, List,
  [], ◌∷◌, ◌==◌, eq_iff, eq_refl, eqb, if◌then◌else◌, arith, All,
}
use Prim.Native.Nat.{max}
use any_sync_sdk.Anyenc.{
  Anyenc, View, null, boolean, number, string, array, object, date_time, Pairs, find,
}

mutual
  pub data Json : Type 0 where
    nothing : Json
    flag : Bool → Json
    num : ℕ → Json
    str : String → Json
    arr : Items → Json
    obj : Fields → Json
    date : ℕ → Json

  pub data Items : Type 0 where
    nil : Items
    cons : Json → Items → Items

  pub data Fields : Type 0 where
    end : Fields
    field : String → Json → Fields → Fields

unfoldable mutual
  pub size : Json → ℕ
  size (arr xs) = suc (size_items xs)
  size (obj fs) = suc (size_fields fs)
  size _ = 0

  pub size_items : Items → ℕ
  size_items nil = 0
  size_items (cons x xs) = max (size x) (size_items xs)

  pub size_fields : Fields → ℕ
  size_fields end = 0
  size_fields (field k v fs) = max (size v) (size_fields fs)

unfoldable mutual
  pub same : Json → Json → Bool
  same nothing nothing = true
  same (flag true) (flag true) = true
  same (flag false) (flag false) = true
  same (num m) (num n) = eqb m n
  same (str s) (str t) = s == t
  same (arr xs) (arr ys) = same_items xs ys
  same (obj fs) (obj gs) = same_fields fs gs
  same (date m) (date n) = eqb m n
  same _ _ = false

  pub same_items : Items → Items → Bool
  same_items nil nil = true
  same_items (cons x xs) (cons y ys) = same x y && same_items xs ys
  same_items _ _ = false

  pub same_fields : Fields → Fields → Bool
  same_fields end end = true
  same_fields (field k v fs) (field j w gs) = k == j && same v w && same_fields fs gs
  same_fields _ _ = false

abbrev pub list_of : Items → List Json
list_of nil = []
list_of (cons x xs) = x ∷ list_of xs

abbrev pub items_of : List Json → Items
items_of [] = nil
items_of (x ∷ xs) = cons x (items_of xs)

abbrev pub pairs : Fields → Pairs Json
pairs end = []
pairs (field k v fs) = (k, v) ∷ pairs fs

abbrev pub set_field : Fields → String → Json → Fields
set_field end k v = field k v end
set_field (field j w fs) k v = if j == k then field k v fs else field j w (set_field fs k v)

abbrev pub del_field : Fields → String → Fields
del_field end k = end
del_field (field j w fs) k = let rest = del_field fs k in if j == k then rest else field j w rest

abbrev pub view_json : Json → View Json ℕ
view_json nothing = null
view_json (flag b) = boolean b
view_json (num n) = number n
view_json (str s) = string s
view_json (arr xs) = array (list_of xs)
view_json (obj fs) = object
view_json (date n) = date_time n

abbrev pub entries_json : Json → Pairs Json
entries_json (obj fs) = pairs fs
entries_json _ = []

abbrev pub get_json : Json → String → Option Json
get_json v k = find k (entries_json v)

abbrev pub put_json : Json → String → Json → Json
put_json (obj fs) k v = obj (set_field fs k v)
put_json o k v = o

abbrev pub del_json : Json → String → Json
del_json (obj fs) k = obj (del_field fs k)
del_json o k = o

pub view-put_json :
    (o : Json) (k : String) (v : Json) → view_json o ≡ object → view_json (put_json o k v) ≡ object
view-put_json (obj fs) k v h = refl
view-put_json _ k v h = h

find-set_field :
    (fs : Fields) (k j : String) (v : Json)
    → find j (pairs (set_field fs k v)) ≡ (if k == j then some v else find j (pairs fs))
find-set_field end k j v = ground arith
find-set_field (field i w fs) k j v =
    ground (arith, eq_iff i k, eq_iff i j, eq_iff k j, find-set_field fs k j v)

pub get-put_json :
    (o : Json) (k j : String) (v : Json)
    → view_json o ≡ object
    → get_json (put_json o k v) j ≡ (if k == j then some v else get_json o j)
get-put_json (obj fs) k j v h = find-set_field fs k j v
get-put_json _ k j v h = cc

pub view-del_json :
    (o : Json) (k : String) → view_json o ≡ object → view_json (del_json o k) ≡ object
view-del_json (obj fs) k h = refl
view-del_json _ k h = h

find-del_field :
    (fs : Fields) (k j : String)
    → find j (pairs (del_field fs k)) ≡ (if k == j then none else find j (pairs fs))
find-del_field end k j = ground arith
find-del_field (field i w fs) k j =
    ground (arith, eq_iff i k, eq_iff i j, eq_iff k j, find-del_field fs k j)

pub get-del_json :
    (o : Json) (k j : String)
    → view_json o ≡ object
    → get_json (del_json o k) j ≡ (if k == j then none else get_json o j)
get-del_json (obj fs) k j h = find-del_field fs k j
get-del_json _ k j h = cc

All-mono :
    {m n : ℕ} (ps : Pairs Json) → m ≤ n → All (λ p. size p.1 < m) ps → All (λ p. size p.1 < n) ps
All-mono [] h a = tt
All-mono (p ∷ ps) h a = (omega arith, All-mono ps h a.1)

size-pairs : (fs : Fields) → All (λ p. size p.1 < suc (size_fields fs)) (pairs fs)
unfolding size
size-pairs end = tt
size-pairs (field k v fs) =
    (omega arith, All-mono {m = suc (size_fields fs)} (pairs fs) (omega arith) (size-pairs fs))

pub size-entries : (o : Json) → view_json o ≡ object → All (λ p. size p.1 < size o) (entries_json o)
unfolding size
size-entries (obj fs) h = size-pairs fs
size-entries _ h = tt

pub array-items : (vs : List Json) → list_of (items_of vs) ≡ vs
array-items [] = refl
array-items (v ∷ vs) = ap (◌∷◌ v) (array-items vs)

mutual
  unfolding same

  pub same_refl : (v : Json) → same v v ≡ true
  same_refl nothing = refl
  same_refl (flag true) = refl
  same_refl (flag false) = refl
  same_refl (num n) = ground arith
  same_refl (str s) = eq_refl s
  same_refl (arr xs) = same_items_refl xs
  same_refl (obj fs) = same_fields_refl fs
  same_refl (date n) = ground arith

  pub same_items_refl : (xs : Items) → same_items xs xs ≡ true
  same_items_refl nil = refl
  same_items_refl (cons x xs) = ground (arith, same_refl x, same_items_refl xs)

  pub same_fields_refl : (fs : Fields) → same_fields fs fs ≡ true
  same_fields_refl end = refl
  same_fields_refl (field k v fs) = ground (arith, eq_refl k, same_refl v, same_fields_refl fs)

instance abbrev pub json : Anyenc
json = record {
  Value = Json;
  Number = ℕ;
  zero_number = 0;
  add = ◌+◌;
  to_int = λ n. n;
  of_int = λ n. n;
  view = view_json;
  get = get_json;
  put = put_json;
  del = del_json;
  entries = entries_json;
  height = size;
  new_object = obj end;
  new_string = str;
  new_array = λ vs. arr (items_of vs);
  new_number = num;
  new_date_time = date;
  copy = λ v. v;
  equal = same;
  view-new_object = refl;
  get-new_object = λ k. refl;
  view-put = view-put_json;
  get-put = get-put_json;
  view-del = view-del_json;
  get-del = get-del_json;
  get-entries = λ o k h. refl;
  height-entries = size-entries;
  to_int-of_int = λ n h. refl;
  view-new_string = λ s. refl;
  view-new_array = λ vs. ap array (array-items vs);
  view-new_number = λ n. refl;
  copy_lem = λ v. refl;
  equal_refl = same_refl;
}
