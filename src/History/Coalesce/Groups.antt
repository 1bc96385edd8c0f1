-- ===== src/History/Coalesce/Groups.antt =====
-- internal/history/coalesce.go: the groups part the page, and each is a chain.
use any_sync_sdk.Base.{
  ℕ, zero, suc, ◌+◌, ◌-◌, ◌*◌, ◌≤◌, ◌⊎◌, ◌==◌, eq_iff, eq_refl, leb, if◌then◌else◌, String, ◌≡◌,
  refl, sym, ap, ◌∙◌, subst, true, List, [], ◌∷◌, ◌++◌, length, length-append, All, map, Bool-cases,
  inl, inr, arith,
}
use Prim.Native.Nat.{◌%◌}
use any_sync_sdk.Dict.{Dict, insert, lookup-insert_lem, string_key}
use any_sync_sdk.History.Coalesce.{
  ChangeMeta, Group, extend, groups, groups_of, joins, oldest, coalesce, represent, parent_refs,
  window_of, refs_of, count_refs, sole_parent, within, chainable,
}

abbrev pub entries_of : List Group → List ChangeMeta
entries_of [] = []
entries_of ((head, group) ∷ gs) = head ∷ group ++ entries_of gs

-- How often a version stands in a list, and among the parents of a page.
abbrev pub occurs : String → List String → ℕ
occurs v [] = 0
occurs v (p ∷ ps) = (if p == v then 1 else 0) + occurs v ps

abbrev pub occurrences : String → List ChangeMeta → ℕ
occurrences v [] = 0
occurrences v (e ∷ entries) = occurs v e.prev_ids + occurrences v entries

refs_of-count_refs :
    (v : String) (ps : List String) (refs : Dict String ℕ)
    → refs_of v (count_refs ps refs) ≡ refs_of v refs + occurs v ps
unfolding count_refs
refs_of-count_refs v [] refs = omega arith
refs_of-count_refs v (p ∷ ps) refs =
    let rest = refs_of-count_refs v ps (insert p (refs_of p refs + 1) refs) in
    let here = lookup-insert_lem p (refs_of p refs + 1) v refs in
    elim (Bool-cases (p == v)) [
      | inl e ↦ ground (arith, rest, here, eq_iff p v, eq_iff v p)
      | inr e ↦ ground (arith, rest, here, eq_iff p v, eq_iff v p)
    ]

refs_of-parent_refs :
    (v : String) (entries : List ChangeMeta) (refs : Dict String ℕ)
    → refs_of v (parent_refs entries refs) ≡ refs_of v refs + occurrences v entries
unfolding parent_refs
refs_of-parent_refs v [] refs = omega arith
refs_of-parent_refs v (e ∷ entries) refs = omega (
  arith,
  refs_of-parent_refs v entries (count_refs e.prev_ids refs),
  refs_of-count_refs v e.prev_ids refs,
)

-- The nanoseconds between two times in seconds, as an int64 of 64 bits holds them, are at most the
-- window: a product from 2^63 on is read as a negative number.
abbrev pub Near : ℕ → ℕ → ℕ → Type 0
Near window a b =
    let nanos = ((a - b + (b - a)) * 1000000000) % 18446744073709551616 in
    (9223372036854775808 ≤ nanos) ⊎ (nanos ≤ window)

-- The older change may join the newer one in a group of the page.
pub record Joinable (page : List ChangeMeta) (window : ℕ) (newer older : ChangeMeta) : Type 0 where
  pub same_author : newer.author ≡ older.author
  pub sole : newer.prev_ids ≡ older.version ∷ []
  pub near : Near window newer.timestamp older.timestamp
  pub no_fork : occurrences older.version page ≤ 1

sole_parent-cons : (ps : List String) (v : String) → sole_parent ps v ≡ true → ps ≡ v ∷ []
unfolding sole_parent
sole_parent-cons [] v h = ground arith
sole_parent-cons (p ∷ []) v h = ap (λ x. x ∷ []) ((eq_iff p v).0 h)
sole_parent-cons (p ∷ q ∷ ps) v h = ground arith

cons-sole_parent : (ps : List String) (v : String) → ps ≡ v ∷ [] → sole_parent ps v ≡ true
unfolding sole_parent
cons-sole_parent ps v e = rw (e, sole_parent) (eq_refl v)

distance : (a b : ℕ) → (if leb b a then a - b else b - a) ≡ a - b + (b - a)
distance a b = ground arith

within-Near : (a b window : ℕ) → within a b window ≡ true → Near window a b
unfolding within
within-Near a b window h = ground (arith, distance a b)

Near-within : (a b window : ℕ) → Near window a b → within a b window ≡ true
unfolding within
Near-within a b window n = ground (arith, distance a b)

module _ (page : List ChangeMeta) (window : ℕ) where
  abbrev refs : Dict String ℕ
  refs = parent_refs page []

  joins-Joinable :
      (newer older : ChangeMeta)
      → joins refs window newer older ≡ true
      → Joinable page window newer older
  unfolding chainable
  joins-Joinable newer older h =
      let count = refs_of-parent_refs older.version page [] in
      record {
        same_author = ground (arith, eq_iff newer.author older.author);
        sole = sole_parent-cons newer.prev_ids older.version (ground arith);
        near = within-Near newer.timestamp older.timestamp window (ground arith);
        no_fork = ground (arith, count);
      }

  Joinable-joins :
      (newer older : ChangeMeta)
      → Joinable page window newer older
      → joins refs window newer older ≡ true
  unfolding chainable
  Joinable-joins newer older j =
      let count = refs_of-parent_refs older.version page [] in
      let sole = cons-sole_parent newer.prev_ids older.version j.sole in
      let near = Near-within newer.timestamp older.timestamp window j.near in
      let few = j.no_fork in
      let same = (eq_iff newer.author older.author).1 j.same_author in ground (arith, count)

  -- Each member may join the next newer one.
  abbrev pub Chain : ChangeMeta → List ChangeMeta → Type 0
  Chain newer [] = Unit
  Chain newer (older ∷ group) = Joinable page window newer older × Chain older group

  -- The change after a group may not join it.
  abbrev pub Ends : ChangeMeta → List ChangeMeta → Type 0
  Ends newer [] = Unit
  Ends newer (older ∷ rest) = ¬ Joinable page window newer older

  extend-append :
      (newer : ChangeMeta) (rest : List ChangeMeta)
      → (extend refs window newer rest).0 ++ (extend refs window newer rest).1 ≡ rest
  unfolding extend
  extend-append newer [] = refl
  extend-append newer (older ∷ rest) = ground (arith, extend-append older rest)

  extend-Chain :
      (newer : ChangeMeta) (rest : List ChangeMeta) → Chain newer (extend refs window newer rest).0
  unfolding extend
  extend-Chain newer [] = tt
  extend-Chain newer (older ∷ rest) = elim (Bool-cases (joins refs window newer older)) [
    | inl e ↦ rw e ((joins-Joinable newer older e, extend-Chain older rest))
    | inr e ↦ rw e tt
  ]

  extend-Ends :
      (newer : ChangeMeta) (rest : List ChangeMeta)
      → Ends (oldest newer (extend refs window newer rest).0) (extend refs window newer rest).1
  unfolding extend
  extend-Ends newer [] = tt
  extend-Ends newer (older ∷ rest) = elim (Bool-cases (joins refs window newer older)) [
    | inl e ↦ rw e (extend-Ends older rest)
    | inr e ↦ rw e (λ j. let y = Joinable-joins newer older j in ground arith)
  ]

  length-extend :
      (newer : ChangeMeta) (rest : List ChangeMeta)
      → length (extend refs window newer rest).1 ≤ length rest
  length-extend newer rest =
      let whole = ap length (extend-append newer rest) in
      let parts =
        length-append (extend refs window newer rest).0 (extend refs window newer rest).1 in
      omega arith

  entries-groups :
      (fuel : ℕ) (entries : List ChangeMeta)
      → length entries ≤ fuel
      → entries_of (groups fuel refs window entries) ≡ entries
  unfolding groups
  entries-groups zero [] h = refl
  entries-groups zero (e ∷ es) h = ground arith
  entries-groups (suc fuel) [] h = refl
  entries-groups (suc fuel) (head ∷ entries) h =
      let (group, after) = extend refs window head entries in
      ap (λ es. head ∷ group ++ es)
        (entries-groups fuel after (let shorter = length-extend head entries in omega arith))
      ∙ ap (λ es. head ∷ es) (extend-append head entries)

  -- Every group is a chain, and the next one does not join it.
  abbrev pub Grouped : List Group → Type 0
  Grouped [] = Unit
  Grouped ((head, group) ∷ gs) =
      Chain head group × Ends (oldest head group) (entries_of gs) × Grouped gs

  groups-Grouped :
      (fuel : ℕ) (entries : List ChangeMeta)
      → length entries ≤ fuel
      → Grouped (groups fuel refs window entries)
  unfolding groups
  groups-Grouped zero entries h = tt
  groups-Grouped (suc fuel) [] h = tt
  groups-Grouped (suc fuel) (head ∷ entries) h =
      let shorter = length-extend head entries in
      let (group, after) = extend refs window head entries in
      (
        extend-Chain head entries,
        subst (Ends (oldest head group)) (sym (entries-groups fuel after (omega arith)))
            (extend-Ends head entries),
        groups-Grouped fuel after (omega arith),
      )

-- The page of the list is coalesced into one entry for each of some groups. The groups, one after the
-- other, are the whole page in its order; each member of a group may join the next newer one, and the
-- change after a group may not join the group's oldest. A change may join a newer one when the two
-- have one author, it is the newer one's only parent, at most one parent reference of the page is to
-- it, and the nanoseconds between the two times are at most the window, as an int64 that wraps around
-- holds them.
pub coalesce-Grouped :
    (entries : List ChangeMeta) (w : ℕ)
    → (coalesce entries w ≡ map represent (groups_of entries w))
      × (entries_of (groups_of entries w) ≡ entries)
      × Grouped entries (window_of w) (groups_of entries w)
unfolding coalesce
coalesce-Grouped entries w = (
  refl,
  entries-groups entries (window_of w) (length entries) entries (omega arith),
  groups-Grouped entries (window_of w) (length entries) entries (omega arith),
)

-- The sizes of the entries of a coalesced page add up to the page, when each change counts for one.
abbrev pub sizes : List ChangeMeta → ℕ
sizes [] = 0
sizes (e ∷ es) = e.group_size + sizes es

later-All : (P : ChangeMeta → Type 0) (xs ys : List ChangeMeta) → All P (xs ++ ys) → All P ys
later-All P [] ys a = a
later-All P (x ∷ xs) ys (p, a) = later-All P xs ys a

sizes-represent :
    (gs : List Group)
    → All (λ (e : ChangeMeta). e.group_size ≡ 1) (entries_of gs)
    → sizes (map represent gs) ≡ length (entries_of gs)
unfolding represent
sizes-represent [] a = refl
sizes-represent ((head, []) ∷ gs) (one, a) = omega (arith, sizes-represent gs a)
sizes-represent ((head, e ∷ es) ∷ gs) (one, a) =
    let rest = later-All (λ (x : ChangeMeta). x.group_size ≡ 1) (e ∷ es) (entries_of gs) a in
    omega (arith, sizes-represent gs rest, length-append es (entries_of gs))

-- When each change of a page counts for one, the sizes of the entries that the page is coalesced into add
-- up to the length of the page.
pub sizes-coalesce :
    (entries : List ChangeMeta) (w : ℕ)
    → All (λ (e : ChangeMeta). e.group_size ≡ 1) entries
    → sizes (coalesce entries w) ≡ length entries
unfolding coalesce
sizes-coalesce entries w a =
    let whole = entries-groups entries (window_of w) (length entries) entries (omega arith) in
    sizes-represent (groups_of entries w)
      (subst (All (λ (e : ChangeMeta). e.group_size ≡ 1)) (sym whole) a)
    ∙ ap length whole
