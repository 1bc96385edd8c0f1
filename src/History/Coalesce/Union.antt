-- ===== src/History/Coalesce/Union.antt =====
-- internal/history/coalesce.go: the traces of a group are those of its members, each once.
use any_sync_sdk.Base.{
  String, ◌≡◌, refl, subst, Bool, true, false, ◌||◌, List, [], ◌∷◌, ◌++◌, ◌==◌, if◌then◌else◌,
  Bool-cases, inl, inr, ◌⊎◌, arith, eq_iff,
}
use any_sync_sdk.History.Coalesce.{ChangeMeta, contains, union_strings, traces_from, union_traces}

contains-append :
    (x : String) (ys : List String) (z : String)
    → contains x (ys ++ z ∷ []) ≡ (contains x ys || z == x)
contains-append x [] z = ground arith
contains-append x (y ∷ ys) z = ground (arith, contains-append x ys z)

known :
    (x s : String) (dst : List String)
    → contains s dst ≡ true
    → ((s == x) ≡ true) ⊎ ((s == x) ≡ false)
    → contains x dst ≡ (contains x dst || s == x)
known x s dst e (inl q) =
    let here = subst (λ i. contains i dst ≡ true) ((eq_iff s x).0 q) e in ground arith
known x s dst e (inr n) = ground arith

contains-or_keep :
    (x s : String) (dst : List String)
    → contains x (if contains s dst then dst else dst ++ s ∷ []) ≡ (contains x dst || s == x)
contains-or_keep x s dst = elim (Bool-cases (contains s dst)) [
  | inl e ↦ rw e (known x s dst e (Bool-cases (s == x)))
  | inr e ↦ rw e (contains-append x dst s)
]

contains-union_strings :
    (x : String) (add dst : List String)
    → contains x (union_strings dst add) ≡ (contains x dst || contains x add)
unfolding union_strings
contains-union_strings x [] dst = ground arith
contains-union_strings x (s ∷ add) dst = ground (
  arith,
  contains-union_strings x add (if contains s dst then dst else dst ++ s ∷ []),
  contains-or_keep x s dst,
)

-- Some change of the list has the trace.
abbrev pub some_has : String → List ChangeMeta → Bool
some_has x [] = false
some_has x (e ∷ group) = contains x e.trace_ids || some_has x group

contains-traces_from :
    (x : String) (out : List String) (group : List ChangeMeta)
    → contains x (traces_from out group) ≡ (contains x out || some_has x group)
unfolding traces_from
contains-traces_from x out [] = ground arith
contains-traces_from x out (e ∷ group) = ground (
  arith,
  contains-traces_from x (union_strings out e.trace_ids) group,
  contains-union_strings x e.trace_ids out,
)

-- No string stands twice.
abbrev pub Once : List String → Type 0
Once [] = Unit
Once (x ∷ xs) = (contains x xs ≡ false) × Once xs

append-Once :
    (xs : List String) (z : String) → contains z xs ≡ false → Once xs → Once (xs ++ z ∷ [])
append-Once [] z n o = (refl, tt)
append-Once (x ∷ xs) z n (a, o) = (
  ground (arith, contains-append x xs z, eq_iff x z, eq_iff z x),
  append-Once xs z (ground arith) o,
)

union_strings-Once : (add dst : List String) → Once dst → Once (union_strings dst add)
unfolding union_strings
union_strings-Once [] dst o = o
union_strings-Once (s ∷ add) dst o =
    union_strings-Once add (if contains s dst then dst else dst ++ s ∷ [])
      (elim (Bool-cases (contains s dst)) [ inl e ↦ rw e o | inr e ↦ rw e (append-Once dst s e o) ])

traces_from-Once :
    (out : List String) (group : List ChangeMeta) → Once out → Once (traces_from out group)
unfolding traces_from
traces_from-Once out [] o = o
traces_from-Once out (e ∷ group) o =
    traces_from-Once (union_strings out e.trace_ids) group (union_strings-Once e.trace_ids out o)

-- The traces of a group hold a trace exactly when some member of the group has it, and none twice.
pub union_traces_lem :
    (group : List ChangeMeta) (x : String)
    → (contains x (union_traces group) ≡ some_has x group) × Once (union_traces group)
unfolding union_traces
union_traces_lem group x = (contains-traces_from x [] group, traces_from-Once [] group tt)
