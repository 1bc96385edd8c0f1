-- ===== src/Crdt/ApplySeq.antt =====
-- internal/crdt/applyseq.go: the counter that mints the apply sequence of a space. The seed function
-- reads the store: its answer at a call is an argument of the call (none: no function is set).
pub mod Ascends
use any_sync_sdk.Base.{
  ℕ, suc, ◌+◌, Bool, true, false, List, [], ◌∷◌, Option, none, some, if◌then◌else◌,
}
use Prim.Native.Nat.{◌%◌}

-- What a call of the seed function gives: the highest persisted sequence, or an error.
pub data Seed : Type 0 where
  failed : Seed
  highest : ℕ → Seed

pub record ApplySeqAllocator : Type 0 where
  pub last : ℕ
  pub seeded : Bool

abbrev pub new_allocator : ApplySeqAllocator
new_allocator = record { last = 0; seeded = false }

-- The lazy seed; none for an error, which leaves the allocator unseeded.
unfoldable pub seed : Option Seed → ApplySeqAllocator → Option ApplySeqAllocator
seed answer a = if a.seeded then some a else elim answer [
  | none ↦ some (record a { seeded = true })
  | some Seed.failed ↦ none
  | some (Seed.highest n) ↦ some (record { last = n; seeded = true })
]

-- `a.last++` on a uint64.
unfoldable pub advance : ApplySeqAllocator → ℕ × ApplySeqAllocator
advance a = let next = (a.last + 1) % 18446744073709551616 in (next, record a { last = next })

unfoldable pub next : Option Seed → ApplySeqAllocator → Option (ℕ × ApplySeqAllocator)
unfolding seed advance
next answer a = elim (seed answer a) [ none ↦ none | some b ↦ some (advance b) ]

-- A sequence of calls, with the sequences that they minted; a call that fails mints none.
unfoldable pub nexts : List (Option Seed) → ApplySeqAllocator → List ℕ
unfolding next
nexts [] a = []
nexts (answer ∷ answers) a = elim (next answer a) [
  | none ↦ nexts answers a
  | some (n, b) ↦ n ∷ nexts answers b
]
