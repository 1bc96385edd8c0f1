-- ===== src/SpaceSync/Complete.antt =====
-- internal/spacesync: a pass that succeeds has loaded every tree that it had to, and is not repeated.
use any_sync_sdk.Base.{ℕ, ◌≡◌, refl, sym, ap, ◌∙◌, true, Option, none, some, List, leb, arith}
use any_sync_sdk.SpaceSync.{
  SpaceMeta, HeadsEntry, Calls, Pass, done, loaded, persist_space_max_add_seq, catch_up,
  from_snapshot, run,
}

run-open :
    (c : Calls) (row : SpaceMeta)
    → (run c row).err ≡ none
    → run c row ≡ from_snapshot c c.max_last_add_seq row
unfolding run
run-open c row h = ground arith

catch_up-row :
    (c : Calls) (n : ℕ) (es : Option (List HeadsEntry)) (row : SpaceMeta)
    → (catch_up c n es row).err ≡ none
    → (catch_up c n es row).row.max_add_seq ≡ n
unfolding catch_up persist_space_max_add_seq
catch_up-row c n none row h = ground arith
catch_up-row c n (some es) row h = ground arith

from_snapshot-behind :
    (c : Calls) (n : ℕ) (row : SpaceMeta)
    → leb n row.max_add_seq ≡ true
    → from_snapshot c (some n) row ≡ done row
unfolding from_snapshot
from_snapshot-behind c n row h = rw h refl

from_snapshot-row :
    (c : Calls) (n : ℕ) (row : SpaceMeta)
    → (from_snapshot c (some n) row).err ≡ none
    → leb n (from_snapshot c (some n) row).row.max_add_seq ≡ true
unfolding from_snapshot
from_snapshot-row c n row h = ground (arith, catch_up-row c n (c.iterate row.max_add_seq) row)

from_snapshot_again :
    (c : Calls) (o : Option ℕ) (row : SpaceMeta)
    → (from_snapshot c o row).err ≡ none
    → from_snapshot c o (from_snapshot c o row).row ≡ done (from_snapshot c o row).row
unfolding from_snapshot
from_snapshot_again c none row h = ground arith
from_snapshot_again c (some n) row h =
    from_snapshot-behind c n (from_snapshot c (some n) row).row (from_snapshot-row c n row h)

run-guards :
    (c : Calls) (row : SpaceMeta)
    → (run c row).err ≡ none
    → (c.collection ≡ true) × (c.load_meta ≡ true) × (c.get_space ≡ true)
unfolding run
run-guards c row h = ground arith

-- A catch-up that ends without an error, repeated on the row it left with the same answers, loads nothing
-- and leaves the row.
pub run_again :
    (c : Calls) (row : SpaceMeta)
    → (run c row).err ≡ none
    → run c (run c row).row ≡ done (run c row).row
unfolding run from_snapshot catch_up loaded
run_again c row h =
    let (a, b, d) = run-guards c row h in
    rw (a, b, d)
      (from_snapshot_again c c.max_last_add_seq row
        (ap (λ (p : Pass). p.err) (sym (run-open c row h)) ∙ h))
