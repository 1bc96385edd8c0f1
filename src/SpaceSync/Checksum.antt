-- ===== src/SpaceSync/Checksum.antt =====
-- internal/spacesync/reconcile.go: the checksum of the settings tree's heads does not depend on the order
-- in which a peer holds them.
use mathlib.Core.List.{Permᴰ}
use mathlib.Core.List.Permᴰ.{nil, cons, swap, trans}
use any_sync_sdk.Base.{
  insert_sorted, sort, String, ◌≡◌, refl, ap, ◌∙◌, List, [], ◌∷◌, less_total, less_asymm,
  less_trans, arith,
}
use any_sync_sdk.SpaceSync.{join, settings_head_checksum}

insert_sorted_comm :
    (x y : String) (zs : List String)
    → insert_sorted x (insert_sorted y zs) ≡ insert_sorted y (insert_sorted x zs)
unfolding insert_sorted
insert_sorted_comm x y [] = ground (arith, less_total x y, less_asymm x y, less_asymm y x)
insert_sorted_comm x y (z ∷ zs) = ground (
  arith,
  insert_sorted_comm x y zs,
  less_total x y,
  less_asymm x y,
  less_asymm y x,
  less_trans x y z,
  less_trans y x z,
  less_trans z x y,
  less_trans z y x,
  less_trans x z y,
  less_trans y z x,
  less_total x z,
  less_total y z,
)

sort_perm : {xs ys : List String} → Permᴰ xs ys → sort xs ≡ sort ys
unfolding sort
sort_perm nil = refl
sort_perm (cons {b = b} {l₁ = xs} e p) =
    ap (λ i. insert_sorted i (sort xs)) e ∙ ap (insert_sorted b) (sort_perm p)
sort_perm (swap {a = a} {b = b} {a' = c} {b' = d} {l = xs} e f) =
    insert_sorted_comm a b (sort xs)
    ∙ ap (λ i. insert_sorted b (insert_sorted i (sort xs))) e
    ∙ ap (λ i. insert_sorted i (insert_sorted d (sort xs))) f
sort_perm (trans p q) = sort_perm p ∙ sort_perm q

-- Two peers that hold the same heads of the settings tree, in whatever orders, compute one checksum.
pub settings_head_checksum_perm :
    {xs ys : List String} → Permᴰ xs ys → settings_head_checksum xs ≡ settings_head_checksum ys
unfolding settings_head_checksum
settings_head_checksum_perm p = ap join (sort_perm p)
