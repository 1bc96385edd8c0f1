-- ===== src/Base/Sort.antt =====
-- slices.Sort on strings.
use mathlib.Core.List.{List, [], ◌∷◌}
use Prim.Native.String.{String}
use any_sync_sdk.Base.Order.{less, if◌then◌else◌}

unfoldable pub insert_sorted : String → List String → List String
insert_sorted x [] = x ∷ []
insert_sorted x (y ∷ ys) =
    let rest = insert_sorted x ys in if less y x then y ∷ rest else x ∷ y ∷ ys

unfoldable pub sort : List String → List String
sort [] = []
sort (x ∷ xs) = insert_sorted x (sort xs)
