-- ===== src/Crdt/ApplySeq/Ascends.antt =====
-- internal/crdt/applyseq.go: the sequences that one allocator mints.
use any_sync_sdk.Base.{
  ℕ, zero, suc, ◌+◌, ◌<◌, ◌≡◌, true, List, [], ◌∷◌, ◌++◌, Option, some, arith, refl, ap, length,
}
use Prim.Native.Nat.{◌%◌}
use any_sync_sdk.Crdt.ApplySeq.{Seed, new_allocator, seed, advance, next, nexts}

-- `n`, `n + 1`, and so on.
unfoldable pub count_from : ℕ → ℕ → List ℕ
count_from n zero = []
count_from n (suc k) = n ∷ count_from (suc n) k

-- Calls whose seed function fails.
abbrev pub failures : ℕ → List (Option Seed)
failures zero = []
failures (suc k) = some Seed.failed ∷ failures k

fits : (n : ℕ) → n + 1 < 18446744073709551616 → (n + 1) % 18446744073709551616 ≡ suc n
fits n h = omega arith

nexts-seeded :
    (answers : List (Option Seed)) (n : ℕ)
    → n + length answers < 18446744073709551616
    → nexts answers (record { last = n; seeded = true }) ≡ count_from (suc n) (length answers)
unfolding nexts next seed advance count_from
nexts-seeded [] n h = refl
nexts-seeded (answer ∷ answers) n h =
    rw (fits n (omega arith)) (ap (◌∷◌ (suc n)) (nexts-seeded answers (suc n) (omega arith)))

-- Whatever number of calls fails first, the calls from the first successful seed on mint the numbers
-- that follow the seed, one after the other, as long as they fit a uint64; what the seed function would
-- answer later does not matter.
pub nexts_lem :
    (k n : ℕ) (answers : List (Option Seed))
    → n + suc (length answers) < 18446744073709551616
    → nexts (failures k ++ some (Seed.highest n) ∷ answers) new_allocator
      ≡ count_from (suc n) (suc (length answers))
unfolding nexts next seed advance count_from
nexts_lem zero n answers h =
    rw (fits n (omega arith)) (ap (◌∷◌ (suc n)) (nexts-seeded answers (suc n) (omega arith)))
nexts_lem (suc k) n answers h = nexts_lem k n answers h
