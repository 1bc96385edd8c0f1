-- ===== src/Dict/Lengths.antt =====
-- How many pairs a write or a delete leaves.
use any_sync_sdk.Base.{suc, ◌≤◌, ◌≡◌, refl, none, some, [], ◌∷◌, arith, length}
use any_sync_sdk.Dict.{Key, Dict, lookup, insert, delete, Distinct}

module _ {K : Type 0} {V : Type 0} ⦃Q : Key K⦄ where
  pub length-insert : (k : K) (v : V) (m : Dict K V) → length (insert k v m) ≤ suc (length m)
  length-insert k v [] = omega arith
  length-insert k v ((j, w) ∷ m) = ground (arith, length-insert k v m)

  pub length-insert_held :
      (k : K) (v w : V) (m : Dict K V) → lookup k m ≡ some w → length (insert k v m) ≡ length m
  length-insert_held k v w [] h = ground arith
  length-insert_held k v w ((j, u) ∷ m) h = ground (arith, length-insert_held k v w m)

  pub length-delete : (k : K) (m : Dict K V) → length (delete k m) ≤ length m
  length-delete k [] = omega arith
  length-delete k ((j, w) ∷ m) = ground (arith, length-delete k m)

  pub length-delete_held :
      (k : K) (w : V) (m : Dict K V) → lookup k m ≡ some w → suc (length (delete k m)) ≤ length m
  length-delete_held k w [] h = ground arith
  length-delete_held k w ((j, u) ∷ m) h =
      ground (arith, length-delete k m, length-delete_held k w m)

  pub length-insert_fresh :
      (k : K) (v : V) (m : Dict K V) → lookup k m ≡ none → length (insert k v m) ≡ suc (length m)
  length-insert_fresh k v [] h = refl
  length-insert_fresh k v ((j, w) ∷ m) h = ground (arith, length-insert_fresh k v m)

  length-delete_fresh : (k : K) (m : Dict K V) → lookup k m ≡ none → length (delete k m) ≡ length m
  length-delete_fresh k [] h = refl
  length-delete_fresh k ((j, w) ∷ m) h = ground (arith, length-delete_fresh k m)

  pub length-delete_held_once :
      (k : K) (v : V) (m : Dict K V)
      → Distinct m
      → lookup k m ≡ some v
      → suc (length (delete k m)) ≡ length m
  length-delete_held_once k v [] d h = ground arith
  length-delete_held_once k v ((j, w) ∷ m) (n, d) h =
      ground (arith, Q.same_iff k j, length-delete_fresh k m, length-delete_held_once k v m d)
