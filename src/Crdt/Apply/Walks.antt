-- ===== src/Crdt/Apply/Walks.antt =====
-- The value helpers of internal/crdt/apply.go that walk to the parent of a path, and the other
-- top-level fields.
use any_sync_sdk.Base.{String, ◌≡◌, ◌≢◌, [], ◌∷◌, arith, eq_iff}
use any_sync_sdk.Anyenc.{Anyenc, object}
use any_sync_sdk.Crdt.Versions.{FieldPath}
use any_sync_sdk.Crdt.Nested.{
  or_keep, walk_parent, walk_parent_read_only, add_item, add_to_set, pull_item, pull_from_set,
}

module _ ⦃E : Anyenc⦄ where
  open E use {Value, view, get, put, view-put, get-put}

  -- A record, and one field of it, after a step.
  abbrev pub SameAt : String → Value → Value → Type 0
  SameAt k a b = (view b ≡ object) × (get b k ≡ get a k)

  SameAt-put : (a v : Value) (key k : String) → view a ≡ object → key ≢ k → SameAt k a (put a key v)
  SameAt-put a v key k h ne = (view-put a key v h, ground (arith, get-put a key k v, eq_iff key k))

  SameAt-add_item :
      (v a : Value) (key k : String) → view a ≡ object → key ≢ k → SameAt k a (add_item v a key)
  unfolding add_item
  SameAt-add_item v a key k h ne = grind (arith, SameAt-put)

  pub SameAt-add_to_set :
      (rec v : Value) (key k : String) (rest : FieldPath)
      → view rec ≡ object
      → key ≢ k
      → SameAt k rec (add_to_set rec (key ∷ rest) v)
  unfolding add_to_set walk_parent
  SameAt-add_to_set rec v key k [] h ne = SameAt-add_item v rec key k h ne
  SameAt-add_to_set rec v key k (next ∷ rest) h ne = SameAt-put rec _ key k h ne

  SameAt-pull_item :
      (v a : Value) (key k : String)
      → view a ≡ object
      → key ≢ k
      → SameAt k a (or_keep (pull_item v a key) a)
  unfolding pull_item
  SameAt-pull_item v a key k h ne = grind (arith, SameAt-put)

  pub SameAt-pull_from_set :
      (rec v : Value) (key k : String) (rest : FieldPath)
      → view rec ≡ object
      → key ≢ k
      → SameAt k rec (pull_from_set rec (key ∷ rest) v)
  unfolding pull_from_set walk_parent_read_only
  SameAt-pull_from_set rec v key k [] h ne = SameAt-pull_item v rec key k h ne
  SameAt-pull_from_set rec v key k (next ∷ rest) h ne = grind (arith, SameAt-put)
