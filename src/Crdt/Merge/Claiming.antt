-- ===== src/Crdt/Merge/Claiming.antt =====
-- internal/crdt/apply.go, mergeReplace: the version node that a broad write leaves.
use mathlib.Core.List.{Memᴰ}
use mathlib.Core.Option
use any_sync_sdk.Base.{
  ℕ, zero, suc, ◌<◌, String, true, false, ◌≡◌, ◌≢◌, List, [], ◌∷◌, Option, some, arith, refl, sym,
  subst, inl, inr, Option-cases, Bool-cases, All, eq_refl, ◌==◌, if◌then◌else◌, eqb,
}
use any_sync_sdk.Anyenc.{Anyenc, Pairs, View, object, string}
use any_sync_sdk.Crdt.Versions.{VersionId, default_key, at_least, text}
use any_sync_sdk.Crdt.Merge.{
  Merging, Merged, incoming_at, merge_leaf, merge_child, merge_entry, merge_entries, finish_merge,
  is_claimed, start_merge, merge_at, merge_replace,
}
use any_sync_sdk.Crdt.Merge.Authority.{
  at_least_trans, at_least_refl, ClaimedBy, Claims, string-ClaimedBy, Claims-ClaimedBy,
}

All-mem {ℓ κ} : {A : Type ℓ} (P : A → Type κ) (xs : List A) → ((x : A) → Memᴰ x xs → P x) → All P xs
All-mem P [] h = tt
All-mem P (x ∷ xs) h = (h x (Memᴰ.head refl), All-mem P xs (λ y m. h y (Memᴰ.tail m)))

All-get {ℓ κ} : {A : Type ℓ} (P : A → Type κ) (xs : List A) (x : A) → All P xs → Memᴰ x xs → P x
All-get P [] x h m = elim m [ ]
All-get P (y ∷ ys) x h (Memᴰ.head e) = subst P (sym e) h.0
All-get P (y ∷ ys) x h (Memᴰ.tail m) = All-get P ys x h.1 m

module _ ⦃E : Anyenc⦄ where
  open E use {
    Value, Number, view, get, put, entries, height, new_object, new_string, view-new_string,
    view-new_object, get-new_object, view-put, get-put, height-entries,
  }

  -- In every object of a version tree, the default is not newer than any version of the object.
  pub data IsOrdered : Value → Type 0 where
    ordered :
        {node : Value}
        → ((d : Value) (s : VersionId)
            → get node default_key ≡ some d
            → view d ≡ string s
            → ClaimedBy s node)
        → ((p : String × Value) → Memᴰ p (entries node) → view p.1 ≡ object → IsOrdered p.1)
        → IsOrdered node

  Claims-put :
      (v : VersionId) (o e : Value) (key : String)
      → (key == default_key) ≡ false
      → ClaimedBy v e
      → Claims v o
      → Claims v (put o key e)
  Claims-put v o e key n c k = record {
    is_object = view-put o key e k.is_object;
    default = ground (arith, get-put o key default_key e k.is_object, k.default);
    entry = λ j x g. elim (Bool-cases (key == j)) [
      | inl q ↦ subst (ClaimedBy v) (ground (arith, get-put o key j e k.is_object)) c
      | inr q ↦ k.entry j x (ground (arith, get-put o key j e k.is_object))
    ];
  }

  start-other :
      (v : VersionId) (j : String) (x : Value)
      → (default_key == j) ≡ false
      → get (start_merge v).out_ver j ≢ some x
  start-other v j x q =
      ground
        (arith, get-put new_object default_key j (new_string v) view-new_object, get-new_object j)

  Claims-start : (v : VersionId) → Claims v (start_merge v).out_ver
  Claims-start v = record {
    is_object = view-put new_object default_key (new_string v) view-new_object;
    default = ground (
      arith,
      get-put new_object default_key default_key (new_string v) view-new_object,
      eq_refl default_key,
    );
    entry = λ j x g. elim (Bool-cases (default_key == j)) [
      | inl q ↦
          string-ClaimedBy v v x
            (ground (
              arith,
              get-put new_object default_key j (new_string v) view-new_object,
              view-new_string v,
            ))
            (at_least_refl v)
      | inr q ↦ absurd (start-other v j x q g)
    ];
  }

  -- What the recursive call promises of an object entry.
  abbrev Promise :
      (Option Value → Value → Option Value → Merged Value) → VersionId → String × Value → Type 0
  Promise child v p =
      (old new : Option Value) → view p.1 ≡ object → ClaimedBy v (child old p.1 new).version_node

  Claims-leaf :
      (old new : Option Value) (v : VersionId) (key : String) (e : Value) (s : VersionId)
      (st : Merging Value)
      → (key == default_key) ≡ false
      → view e ≡ string s
      → Claims v st.out_ver
      → Claims v (merge_leaf old new v key e s st).out_ver
  unfolding merge_leaf
  Claims-leaf old new v key e s st n h c = elim (Bool-cases (at_least s v)) [
    | inl q ↦ rw q (Claims-put v st.out_ver e key n (string-ClaimedBy v s e h q) c)
    | inr q ↦ rw q c
  ]

  Claims-child :
      (v : VersionId) (key : String) (child : Merged Value) (st : Merging Value)
      → (key == default_key) ≡ false
      → ClaimedBy v child.version_node
      → Claims v st.out_ver
      → Claims v (merge_child v key child st).out_ver
  unfolding merge_child
  Claims-child v key child st n h c =
      let kept = Claims-put v st.out_ver child.version_node key n h c in ground arith

  entry_view :
      (child : Option Value → Value → Option Value → Merged Value) (old new : Option Value)
      (v : VersionId) (key : String) (e : Value) (st : Merging Value) (w : View Value Number)
      → view e ≡ w
      → Promise child v (key, e)
      → Claims v st.out_ver
      → Claims v
          (if key == default_key then st else elim w [
            | string s ↦ merge_leaf old new v key e s st
            | object ↦
                merge_child v key
                  (child (Option.bind old (λ o. get o key)) e (incoming_at new key))
                  st
            | _ ↦ st
          ]).out_ver
  entry_view child old new v key e st (string s) q h c = elim (Bool-cases (key == default_key)) [
    | inl n ↦ rw n c
    | inr n ↦ rw n (Claims-leaf old new v key e s st n q c)
  ]
  entry_view child old new v key e st object q h c = elim (Bool-cases (key == default_key)) [
    | inl n ↦ rw n c
    | inr n ↦ rw n (Claims-child v key _ st n (h _ (incoming_at new key) q) c)
  ]
  entry_view child old new v key e st w q h c = ground arith

  Claims-entry :
      (child : Option Value → Value → Option Value → Merged Value) (old new : Option Value)
      (v : VersionId) (key : String) (e : Value) (st : Merging Value)
      → Promise child v (key, e)
      → Claims v st.out_ver
      → Claims v (merge_entry child old new v key e st).out_ver
  Claims-entry child old new v key e st h c = entry_view child old new v key e st (view e) refl h c

  Claims-entries :
      (child : Option Value → Value → Option Value → Merged Value) (old new : Option Value)
      (v : VersionId) (ps : Pairs Value) (st : Merging Value)
      → All (Promise child v) ps
      → Claims v st.out_ver
      → Claims v (merge_entries child old new v ps st).out_ver
  unfolding merge_entries
  Claims-entries child old new v [] st h c = c
  Claims-entries child old new v ((key, e) ∷ ps) st h c =
      Claims-entries child old new v ps _ h.1 (Claims-entry child old new v key e st h.0 c)

  -- The node of a merge whose position was not claimed yet.
  finish-ClaimedBy :
      (new : Option Value) (v : VersionId) (st : Merging Value)
      → Claims v st.out_ver
      → ClaimedBy v (finish_merge new v st).version_node
  unfolding finish_merge
  finish-ClaimedBy new v st c = elim (Bool-cases (eqb st.survivors 0)) [
    | inl q ↦ rw q (string-ClaimedBy v v (new_string v) (view-new_string v) (at_least_refl v))
    | inr q ↦ rw q (Claims-ClaimedBy v st.out_ver c)
  ]

  claimed_default :
      (ver : Value) (v : VersionId)
      → is_claimed ver v ≡ true
      → (d : Value) × (s : VersionId) × (get ver default_key ≡ some d)
        × (view d ≡ string s)
        × (at_least s v ≡ true)
  unfolding is_claimed
  claimed_default ver v h = elim (Option-cases (get ver default_key)) [
    | inl e ↦ ground arith
    | inr (d, e) ↦ (d, text d, e, ground arith, ground arith)
  ]

  merge_at-ClaimedBy :
      (fuel : ℕ) (v : VersionId) (old : Option Value) (ver : Value) (new : Option Value)
      → height ver < fuel
      → view ver ≡ object
      → IsOrdered ver
      → ClaimedBy v (merge_at fuel v old ver new).version_node
  unfolding merge_at
  merge_at-ClaimedBy zero v old ver new f h o = ground arith
  merge_at-ClaimedBy (suc fuel) v old ver new f h (ordered defaults below) =
      elim (Bool-cases (is_claimed ver v)) [
        | inl q ↦ rw q (λ path.
            let (d, s, e, t, g) = claimed_default ver v q in
            at_least_trans _ s v (defaults d s e t path) g)
        | inr q ↦ rw q (
            finish-ClaimedBy new v _ (
              Claims-entries (merge_at fuel v) old new v (entries ver) (start_merge v)
                (All-mem (Promise (merge_at fuel v) v) (entries ver) (λ p m old' new' h'.
                  let lower =
                    All-get (λ p. height p.1 < height ver) (entries ver) p (height-entries ver h)
                      m in
                  merge_at-ClaimedBy fuel v old' p.1 new' (omega arith) h' (below p m h')))
                (Claims-start v)))
      ]

  -- A broad write at version `v` over a version tree in which no default is newer than a version of
  -- its object leaves a node in which every lookup, at the path of the write and anywhere below it,
  -- finds a version not older than `v`.
  pub merge_replace-ClaimedBy :
      (v : VersionId) (old : Option Value) (ver : Value) (new : Option Value)
      → view ver ≡ object
      → IsOrdered ver
      → ClaimedBy v (merge_replace v old ver new).version_node
  unfolding merge_replace
  merge_replace-ClaimedBy v old ver new h o =
      merge_at-ClaimedBy (suc (height ver)) v old ver new (omega arith) h o
