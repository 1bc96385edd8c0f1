-- ===== src/Crdt/Resolve.antt =====
-- internal/crdt/controller.go, resolveRecordIds: the ids of the records that a change leaves without one.
-- DeriveRecordId (internal/crdt/idderive.go: a hash of another library) is a parameter.
pub mod Distinct
use any_sync_sdk.Base.{
  ℕ, zero, suc, ◌-◌, ◌≤◌, ◌<◌, ◌+◌, ◌*◌, ltb, String, Bool, true, false, not, ◌≡◌, ◌≢◌, refl, sym,
  ap, ◌∙◌, List, [], ◌∷◌, Option, none, some, ◌==◌, if◌then◌else◌, eqb, arith, length, All, subst,
  Bool-cases, inl, inr, eq_iff, ne→eq-false,
}
use Prim.Native.Nat.{◌/◌, ◌%◌}
use Prim.Native.String.{◌++◌ as append}
use Prim.Native.String.append as append_clauses
use Prim.Native.Char.{Char, code}
use text.Mathlib.TextLemmas.{append_cancel_left, append-nil, cons≢nil}
use any_sync_sdk.Crdt.Op.{Op, RecordChange, Change}

pub data ApplyError : Type 0 where
  missing_data_version wrong_object unknown_dataset missing_record_id local_and_injected :
      ApplyError
  empty_id_requires_upsert : ℕ → ApplyError
  store_failed : String → ApplyError
  apply_seq_failed : ApplyError
  hook_failed : String → ApplyError

pub data Result (A : Type 0) : Type 0 where
  ok : A → Result A
  failed : ApplyError → Result A

-- What follows a call that may fail.
abbrev pub and_then : {A B : Type 0} → Result A → (A → Result B) → Result B
and_then (ok a) f = f a
and_then (failed e) f = failed e

-- A result has the property, if there is one.
abbrev pub Holds : {A : Type 0} → (A → Type 0) → Result A → Type 0
Holds P (ok a) = P a
Holds P (failed e) = Unit

pub and_then-Holds :
    {A B : Type 0} (P : A → Type 0) (Q : B → Type 0) (r : Result A) (f : A → Result B)
    → Holds P r
    → ((a : A) → P a → Holds Q (f a))
    → Holds Q (and_then r f)
and_then-Holds P Q (ok a) f h k = k a h
and_then-Holds P Q (failed e) f h k = tt

pub weaken :
    {A : Type 0} (P Q : A → Type 0) (r : Result A) → ((a : A) → P a → Q a) → Holds P r → Holds Q r
weaken P Q (ok a) f h = f a h
weaken P Q (failed e) f h = tt

-- An error of a call of the store ends the call.
abbrev pub unless_store_error : {A : Type 0} → Option String → Result A → Result A
unless_store_error none r = r
unless_store_error (some e) r = failed (store_failed e)

pub unless_store_error-Holds :
    {A : Type 0} (P : A → Type 0) (e : Option String) (r : Result A)
    → Holds P r
    → Holds P (unless_store_error e r)
unless_store_error-Holds P none r h = h
unless_store_error-Holds P (some e) r h = tt

-- `strconv.Itoa` of a number that is not negative; the fuel is the number itself.
abbrev digit : ℕ → String
digit n =
    if eqb n 0
    then "0"
    else if eqb n 1
    then "1"
    else if eqb n 2
    then "2"
    else if eqb n 3
    then "3"
    else if eqb n 4
    then "4"
    else if eqb n 5
    then "5"
    else if eqb n 6
    then "6"
    else if eqb n 7
    then "7"
    else if eqb n 8
    then "8"
    else "9"

abbrev digits : ℕ → ℕ → String
digits zero n = digit n
digits (suc fuel) n =
    let high = digits fuel (n / 10) in if ltb n 10 then digit n else append high (digit (n % 10))

unfoldable pub itoa : ℕ → String
itoa n = digits n n

-- The id of the empty id number `seen`.
unfoldable pub derived_id : String → ℕ → String
unfolding itoa
derived_id seed seen = if eqb seen 0 then seed else append seed (append ":" (itoa seen))

abbrev pub then_id : String → Result (List String) → Result (List String)
then_id id (ok ids) = ok (id ∷ ids)
then_id id (failed e) = failed e

module _ (derive : String → String) {V : Type 0} where
  -- From a record index on, after a number of empty ids.
  unfoldable pub resolve_from : String → ℕ → ℕ → List (RecordChange V) → Result (List String)
  unfolding derived_id
  resolve_from change_id i seen [] = ok []
  resolve_from change_id i seen (rc ∷ records) =
      let kept = resolve_from change_id (suc i) seen records in
      let derived = resolve_from change_id (suc i) (suc seen) records in
      if not (rc.id == "")
      then then_id rc.id kept
      else if not rc.upsert
      then failed (empty_id_requires_upsert i)
      else if change_id == ""
      then failed missing_record_id
      else then_id (derived_id (derive change_id) seen) derived

  unfoldable pub resolve_record_ids : Change V → Result (List String)
  unfolding resolve_from
  resolve_record_ids ch = resolve_from ch.change_id 0 0 ch.records

read : String → ℕ → ℕ
read String.[] acc = acc
read (String.◌∷◌ c s) acc = read s (acc * 10 + (code c - 48))

read-append : (s t : String) (acc : ℕ) → read (append s t) acc ≡ read t (read s acc)
unfolding read
read-append String.[] t acc = rw (append_clauses.nil t) refl
read-append (String.◌∷◌ c s) t acc =
    rw (append_clauses.cons c s t) (read-append s t (acc * 10 + (code c - 48)))

read_literal :
    (acc : ℕ)
    → (read "0" acc ≡ acc * 10 + 0)
      × (read "1" acc ≡ acc * 10 + 1)
      × (read "2" acc ≡ acc * 10 + 2)
      × (read "3" acc ≡ acc * 10 + 3)
      × (read "4" acc ≡ acc * 10 + 4)
      × (read "5" acc ≡ acc * 10 + 5)
      × (read "6" acc ≡ acc * 10 + 6)
      × (read "7" acc ≡ acc * 10 + 7)
      × (read "8" acc ≡ acc * 10 + 8)
      × (read "9" acc ≡ acc * 10 + 9)
unfolding read
read_literal acc = (refl, refl, refl, refl, refl, refl, refl, refl, refl, refl)

read-digit : (n acc : ℕ) → n < 10 → read (digit n) acc ≡ acc * 10 + n
read-digit n acc h = ground (arith, read_literal acc)

read-digits : (fuel n : ℕ) → n ≤ fuel → read (digits fuel n) 0 ≡ n
read-digits zero n h = ground (arith, read-digit n 0)
read-digits (suc fuel) n h = elim (Bool-cases (ltb n 10)) [
  | inl e ↦ rw e (ground (arith, read-digit n 0))
  | inr e ↦
      rw
        (
          e,
          read-append (digits fuel (n / 10)) (digit (n % 10)) 0,
          read-digits fuel (n / 10) (ground arith),
        )
        (ground (arith, read-digit (n % 10) (n / 10)))
]

itoa_injective : (m n : ℕ) → itoa m ≡ itoa n → m ≡ n
unfolding itoa
itoa_injective m n h =
    sym (read-digits m m (omega arith)) ∙ ap (λ s. read s 0) h ∙ read-digits n n (omega arith)

append-ne_self : (s t : String) → append s (append ":" t) ≢ s
append-ne_self s t h = cons≢nil (
    sym (append_clauses.cons ":" "" t)
    ∙ append_cancel_left s (append ":" t) "" (h ∙ sym (append-nil s)))

-- Two empty ids of one change never get one id.
pub derived_id_injective : (seed : String) (m n : ℕ) → derived_id seed m ≡ derived_id seed n → m ≡ n
unfolding derived_id
derived_id_injective seed m n h = elim (Bool-cases (eqb m 0)) [
  | inl e ↦ elim (Bool-cases (eqb n 0)) [
    | inl f ↦ ground arith
    | inr f ↦ absurd (append-ne_self seed (itoa n) (sym (rw (e, f) at h)))
  ]
  | inr e ↦ elim (Bool-cases (eqb n 0)) [
    | inl f ↦ absurd (append-ne_self seed (itoa m) (rw (e, f) at h))
    | inr f ↦ itoa_injective m n (
        append_cancel_left ":" (itoa m) (itoa n)
          (append_cancel_left seed (append ":" (itoa m)) (append ":" (itoa n)) (rw (e, f) at h)))
  ]
]
