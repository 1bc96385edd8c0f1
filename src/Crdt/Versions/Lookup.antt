-- ===== src/Crdt/Versions/Lookup.antt =====
-- Lookups in a `_ver` tree after a write: getVersion against setVersion and setVersionNodeAt.
use any_sync_sdk.Base.{
  String, ◌≡◌, ◌≢◌, ◌∙◌, Option, [], ◌∷◌, ◌++◌, none, some, arith, All, refl, ap, eq_iff, eq_refl,
  inl, inr, Option-cases,
}
use any_sync_sdk.Anyenc.{Anyenc, object}
use any_sync_sdk.Crdt.Versions.{
  FieldPath, VersionId, gate_from, default_key, max_version, get_version, text, child_for,
  set_version, set_node,
}

-- No key of the path is `*`, which `validatePath` refuses.
abbrev pub IsPlain : FieldPath → Type 0
IsPlain path = All (λ key. key ≢ default_key) path

module _ ⦃E : Anyenc⦄ where
  open E use {
    Value, view, get, put, height, new_object, new_string, view-put, get-put, view-new_string,
    view-new_object, get-new_object,
  }

  pub max_version-new_string : (s : String) → max_version (new_string s) ≡ s
  unfolding max_version
  max_version-new_string s = ground (arith, view-new_string s)

  pub set_version-set_node :
      (node : Value) (v : VersionId) (path : FieldPath)
      → set_version node v path ≡ set_node node (new_string v) path
  unfolding set_version set_node
  set_version-set_node node v [] = refl
  set_version-set_node node v (key ∷ []) = refl
  set_version-set_node node v (key ∷ next ∷ rest) =
      ap (put node key) (set_version-set_node (child_for node key) v (next ∷ rest))

  pub view-child_for : (node : Value) (key : String) → view (child_for node key) ≡ object
  unfolding child_for
  view-child_for node key = grind (arith, view-put, view-new_object)

  pub view-set_node :
      (node w : Value) (path : FieldPath)
      → view node ≡ object
      → view (set_node node w path) ≡ object
  unfolding set_node
  view-set_node node w [] h = h
  view-set_node node w (key ∷ []) h = view-put node key w h
  view-set_node node w (key ∷ next ∷ rest) h = view-put node key _ h

  get_version-cover :
      (d : Value) (r : String) (rs : FieldPath)
      → r ≢ default_key
      → get_version (put new_object default_key d) (r ∷ rs) ≡ text d
  unfolding get_version
  get_version-cover d r rs ne = ground (
    arith,
    view-new_object,
    get-new_object r,
    view-put new_object default_key d,
    get-put new_object default_key r d,
    get-put new_object default_key default_key d,
    eq_iff default_key r,
    eq_refl default_key,
  )

  get_version-new_object : (r : String) (rs : FieldPath) → get_version new_object (r ∷ rs) ≡ ""
  unfolding get_version
  get_version-new_object r rs =
      ground (arith, view-new_object, get-new_object r, get-new_object default_key)

  -- Splitting a covered entry changes no lookup below it.
  pub get_version-child_for :
      (node : Value) (key r : String) (rs : FieldPath)
      → view node ≡ object
      → r ≢ default_key
      → get_version (child_for node key) (r ∷ rs) ≡ get_version node (key ∷ r ∷ rs)
  unfolding get_version child_for
  get_version-child_for node key r rs h ne = elim (Option-cases (get node key)) [
    | inl e ↦ elim (Option-cases (get node default_key)) [
      | inl f ↦ ground (arith, get_version-new_object r rs)
      | inr (d, f) ↦ ground (arith, get_version-new_object r rs, get_version-cover d r rs)
    ]
    | inr (c, e) ↦ grind (arith, get_version-new_object, get_version-cover, view-new_string)
  ]

  -- The lookup one key down after a write at that key.
  get_version-put :
      (node w : Value) (key : String) (path : FieldPath)
      → view node ≡ object
      → get_version (put node key w) (key ∷ path) ≡ get_version w path
  unfolding get_version
  get_version-put node w key path h =
      ground (arith, get-put node key key w, view-put node key w, eq_refl key)

  -- The lookup of another key.
  get_version-put_ne :
      (node w : Value) (key k : String) (path : FieldPath)
      → view node ≡ object
      → key ≢ k
      → key ≢ default_key
      → get_version (put node key w) (k ∷ path) ≡ get_version node (k ∷ path)
  unfolding get_version
  get_version-put_ne node w key k path h ne nd = ground (
    arith,
    get-put node key k w,
    get-put node key default_key w,
    view-put node key w,
    eq_iff key k,
    eq_iff key default_key,
  )

  -- After a node is written at a path of a `_ver` object, the versions at and below the path are
  -- those of the node.
  pub get_version-set_node :
      (node w : Value) (key : String) (rest q : FieldPath)
      → view node ≡ object
      → get_version (set_node node w (key ∷ rest)) (key ∷ rest ++ q) ≡ get_version w q
  unfolding set_node
  get_version-set_node node w key [] q h = get_version-put node w key q h
  get_version-set_node node w key (next ∷ rest) q h =
      get_version-put node _ key (next ∷ rest ++ q) h
      ∙ get_version-set_node (child_for node key) w next rest q (view-child_for node key)

  -- A node written at one path of a `_ver` object changes no version at a path that leaves it at some
  -- key, though covered entries on the way are split. The keys up to there are not `*`.
  pub get_version-set_node_ne :
      (node w : Value) (common : FieldPath) (k j : String) (ks js : FieldPath)
      → view node ≡ object
      → IsPlain common
      → k ≢ default_key
      → j ≢ default_key
      → k ≢ j
      → get_version (set_node node w (common ++ k ∷ ks)) (common ++ j ∷ js)
        ≡ get_version node (common ++ j ∷ js)
  unfolding set_node
  get_version-set_node_ne node w [] k j [] js h pc pk pj ne =
      get_version-put_ne node w k j js h ne pk
  get_version-set_node_ne node w [] k j (n ∷ ks) js h pc pk pj ne =
      get_version-put_ne node _ k j js h ne pk
  get_version-set_node_ne node w (a ∷ []) k j ks js h pc pk pj ne =
      get_version-put node _ a (j ∷ js) h
      ∙ get_version-set_node_ne (child_for node a) w [] k j ks js (view-child_for node a) tt pk pj
          ne
      ∙ get_version-child_for node a j js h pj
  get_version-set_node_ne node w (a ∷ b ∷ c) k j ks js h pc pk pj ne =
      get_version-put node _ a (b ∷ c ++ j ∷ js) h
      ∙ get_version-set_node_ne (child_for node a) w (b ∷ c) k j ks js (view-child_for node a) pc.1
          pk pj ne
      ∙ get_version-child_for node a b (c ++ j ∷ js) h pc.1.0

  -- What a gate stands for: its version, or the newest version below a subtree.
  abbrev pub resolve : VersionId × Option Value → VersionId
  resolve (gate, none) = gate
  resolve (gate, some node) = max_version node

  -- The gate of a path, resolved, is the version that a lookup of the path finds.
  pub resolve-gate_from :
      (cur : Value) (path : FieldPath) → resolve (gate_from cur path) ≡ get_version cur path
  unfolding gate_from get_version max_version
  resolve-gate_from cur [] = ground arith
  resolve-gate_from cur (key ∷ rest) = elim (Option-cases (get cur key)) [
    | inl e ↦ ground arith
    | inr (next, e) ↦ ground (arith, resolve-gate_from next rest)
  ]

  -- A subtree that a gate returns is an object.
  pub gate_from-object :
      (cur n : Value) (path : FieldPath) → (gate_from cur path).1 ≡ some n → view n ≡ object
  unfolding gate_from
  gate_from-object cur n [] h = ground arith
  gate_from-object cur n (key ∷ rest) h = elim (Option-cases (get cur key)) [
    | inl e ↦ ground arith
    | inr (next, e) ↦ ground (arith, gate_from-object next n rest)
  ]

  -- A write's node is what gates its path afterwards.
  pub gate_from-set_node :
      (node w : Value) (key : String) (rest : FieldPath)
      → view node ≡ object
      → gate_from (set_node node w (key ∷ rest)) (key ∷ rest) ≡ gate_from w []
  unfolding set_node gate_from
  gate_from-set_node node w key [] h =
      ground (arith, get-put node key key w, view-put node key w, eq_refl key)
  gate_from-set_node node w key (next ∷ rest) h =
      let inner = set_node (child_for node key) w (next ∷ rest) in
      ground (
        arith,
        get-put node key key inner,
        view-put node key inner,
        eq_refl key,
        gate_from-set_node (child_for node key) w next rest (view-child_for node key),
      )

  gate_from-put_ne :
      (node w : Value) (key k : String) (path : FieldPath)
      → view node ≡ object
      → key ≢ k
      → key ≢ default_key
      → gate_from (put node key w) (k ∷ path) ≡ gate_from node (k ∷ path)
  unfolding gate_from
  gate_from-put_ne node w key k path h ne nd = ground (
    arith,
    get-put node key k w,
    get-put node key default_key w,
    view-put node key w,
    eq_iff key k,
    eq_iff key default_key,
  )

  -- Other top-level fields keep their gates.
  pub gate_from-set_node_ne :
      (node w : Value) (key k : String) (rest path : FieldPath)
      → view node ≡ object
      → key ≢ k
      → key ≢ default_key
      → gate_from (set_node node w (key ∷ rest)) (k ∷ path) ≡ gate_from node (k ∷ path)
  unfolding set_node
  gate_from-set_node_ne node w key k [] path h ne nd = gate_from-put_ne node w key k path h ne nd
  gate_from-set_node_ne node w key k (n ∷ rest) path h ne nd =
      gate_from-put_ne node _ key k path h ne nd
