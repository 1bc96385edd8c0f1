-- ===== src/SpaceSync/Watermark.antt =====
-- internal/spacesync: the watermark never goes back, a failed pass is repeated, and no tree is passed over.
use any_sync_sdk.Base.{
  ℕ, ◌≤◌, String, ◌≡◌, refl, ◌⊎◌, inl, inr, Bool, true, false, not, ◌&&◌, Option, none, some, List,
  ◌==◌, leb, if-Has, Bool-cases, Option-cases, arith,
}
use any_sync_sdk.SpaceSync.{
  SpaceMeta, HeadsEntry, Calls, SyncError, Pass, fail, done, persist_space_max_add_seq, catch_up,
  from_snapshot, run, persist_watermark_if_ahead, snapshot_watermark, settings_head_checksum, sweep,
  reconcile_heads, reconcile_deletions, reconcile_version, persist_space_deleted_gate, deleted_ids,
}

-- A pass that ends with an error leaves the row as it was, and no pass lowers the watermark.
abbrev pub Safe : SpaceMeta → Pass → Type 0
Safe row p = ((p.err ≡ none) ⊎ (p.row ≡ row)) × (row.max_add_seq ≤ p.row.max_add_seq)

le_refl : (n : ℕ) → n ≤ n
le_refl n = omega arith

catch_up-Safe :
    (c : Calls) (n : ℕ) (es : Option (List HeadsEntry)) (row : SpaceMeta)
    → row.max_add_seq ≤ n
    → Safe row (catch_up c n es row)
unfolding catch_up persist_space_max_add_seq
catch_up-Safe c n none row h = (inr refl, le_refl row.max_add_seq)
catch_up-Safe c n (some es) row h =
    if-Has (Safe row) c.persist _ _ (inl refl, h) (inr refl, le_refl row.max_add_seq)

from_snapshot-Safe : (c : Calls) (n : Option ℕ) (row : SpaceMeta) → Safe row (from_snapshot c n row)
unfolding from_snapshot
from_snapshot-Safe c none row = (inr refl, le_refl row.max_add_seq)
from_snapshot-Safe c (some n) row = elim (Bool-cases (leb n row.max_add_seq)) [
  | inl e ↦ rw e ((inr refl, le_refl row.max_add_seq))
  | inr e ↦ rw e (catch_up-Safe c n (c.iterate row.max_add_seq) row (ground arith))
]

run-Safe : (c : Calls) (row : SpaceMeta) → Safe row (run c row)
unfolding run
run-Safe c row =
    if-Has (Safe row) (not c.collection) (fail SyncError.open_meta row) _
      (inr refl, le_refl row.max_add_seq)
      (if-Has (Safe row) (not c.load_meta) (fail SyncError.load_watermark row) _
        (inr refl, le_refl row.max_add_seq)
        (if-Has (Safe row) (not c.get_space) (fail SyncError.get_space row) _
          (inr refl, le_refl row.max_add_seq) (from_snapshot-Safe c c.max_last_add_seq row)))

if_ahead-Safe :
    (c : Calls) (n : ℕ) (row : SpaceMeta) → Safe row (persist_watermark_if_ahead c n row).0
unfolding persist_watermark_if_ahead persist_space_max_add_seq
if_ahead-Safe c n row =
    if-Has (λ (r : Pass × Bool). Safe row r.0) (not c.load_meta)
      (fail SyncError.load_watermark row, false) _ (inr refl, le_refl row.max_add_seq)
      (elim (Bool-cases (leb n row.max_add_seq)) [
        | inl e ↦ rw e ((inr refl, le_refl row.max_add_seq))
        | inr e ↦ rw e (
            if-Has (λ (r : Pass × Bool). Safe row r.0) c.persist
              (done (persist_space_max_add_seq n row), true)
              (fail SyncError.persist_watermark row, false) (inl refl, ground arith)
              (inr refl, le_refl row.max_add_seq))
      ])

snapshot_watermark-Safe : (c : Calls) (row : SpaceMeta) → Safe row (snapshot_watermark c row)
unfolding snapshot_watermark
snapshot_watermark-Safe c row =
    if-Has (Safe row) (not c.collection) (fail SyncError.open_meta row) _
      (inr refl, le_refl row.max_add_seq)
      (elim (Option-cases c.max_last_add_seq) [
        | inl e ↦ rw e ((inr refl, le_refl row.max_add_seq))
        | inr e ↦ rw (e.1) (if_ahead-Safe c e.0 row)
      ])

sweep-Safe :
    (c : Calls) (cur : String) (es : Option (List HeadsEntry)) (row : SpaceMeta)
    → Safe row (sweep c cur es row)
unfolding sweep persist_space_deleted_gate
sweep-Safe c cur none row = (inr refl, le_refl row.max_add_seq)
sweep-Safe c cur (some es) row =
    if-Has (Safe row) (not (c.purge (deleted_ids es))) _ _ (inr refl, le_refl row.max_add_seq)
      (if-Has (Safe row) c.persist _ _ (inl refl, omega arith) (inr refl, le_refl row.max_add_seq))

reconcile_heads-Safe :
    (c : Calls) (hs : Option (Option (List String))) (row : SpaceMeta)
    → Safe row (reconcile_heads c hs row)
unfolding reconcile_heads
reconcile_heads-Safe c none row = (inr refl, le_refl row.max_add_seq)
reconcile_heads-Safe c (some none) row = (inr refl, le_refl row.max_add_seq)
reconcile_heads-Safe c (some (some heads)) row =
    if-Has (Safe row)
      (leb reconcile_version row.reconcile_ver && row.deleted_head == settings_head_checksum heads)
      (done row) _ (inr refl, le_refl row.max_add_seq)
      (sweep-Safe c (settings_head_checksum heads) c.iterate_deleted row)

reconcile_deletions-Safe : (c : Calls) (row : SpaceMeta) → Safe row (reconcile_deletions c row)
unfolding reconcile_deletions
reconcile_deletions-Safe c row =
    if-Has (Safe row) (not c.collection) (fail SyncError.open_meta row) _
      (inr refl, le_refl row.max_add_seq)
      (if-Has (Safe row) (not c.load_meta) (fail SyncError.load_gate row) _
        (inr refl, le_refl row.max_add_seq)
        (if-Has (Safe row) (not c.get_space) (fail SyncError.get_space row) _
          (inr refl, le_refl row.max_add_seq) (reconcile_heads-Safe c c.settings_heads row)))

pub data PassKind : Type 0 where
  catch_up_pass : PassKind
  snapshot_pass : PassKind
  reconcile_pass : PassKind

unfoldable pub pass : PassKind → Calls → SpaceMeta → Pass
pass catch_up_pass c row = run c row
pass snapshot_pass c row = snapshot_watermark c row
pass reconcile_pass c row = reconcile_deletions c row

-- A pass of any kind that ends with an error, whichever call failed, leaves the row of the space as it
-- was, and no pass lowers the watermark.
pub pass-Safe : (k : PassKind) (c : Calls) (row : SpaceMeta) → Safe row (pass k c row)
unfolding pass
pass-Safe catch_up_pass c row = run-Safe c row
pass-Safe snapshot_pass c row = snapshot_watermark-Safe c row
pass-Safe reconcile_pass c row = reconcile_deletions-Safe c row
