-- ===== src/Tests/Passes.antt =====
-- Passes over a space and a page of changes, at concrete answers.
use any_sync_sdk.Base.{ℕ, String, ◌==◌, ◌≡◌, true, false, none, some, List, [], ◌∷◌, map}
use any_sync_sdk.SpaceSync.{SpaceMeta, DeletedStatus, HeadsEntry, Calls}
use any_sync_sdk.SpaceSync.Watermark.{Safe, PassKind, pass, pass-Safe}
use any_sync_sdk.History.Coalesce.{ChangeMeta, coalesce, groups_of, represent, window_of}
use any_sync_sdk.History.Coalesce.Groups.{entries_of, Grouped, coalesce-Grouped}

abbrev head : HeadsEntry
head = record { id = "t"; last_add_seq = 5; deleted_status = DeletedStatus.not_deleted }

abbrev heads : List HeadsEntry
heads = head ∷ record { id = "u"; last_add_seq = 6; deleted_status = DeletedStatus.queued } ∷ []

abbrev calls : Calls
calls = record {
  collection = true;
  load_meta = true;
  get_space = true;
  max_last_add_seq = some 6;
  iterate = λ n. some heads;
  iterate_deleted = some [];
  is_tree_skipped = λ id. none;
  get = λ id. id == "t";
  persist = true;
  settings_heads = some (some ("h2" ∷ "h1" ∷ []));
  purge = λ ids. true;
}

abbrev row : SpaceMeta
row = record { max_add_seq = 4; deleted_head = ""; reconcile_ver = 0 }

pass-Safe_example : Safe row (pass PassKind.reconcile_pass calls row)
pass-Safe_example = pass-Safe PassKind.reconcile_pass calls row

abbrev change : String → List String → ℕ → ChangeMeta
change version parents time = record {
  version = version;
  object_id = "o";
  author = "x";
  timestamp = time;
  dataset = "d";
  trace_ids = version ∷ "s" ∷ [];
  touched = [];
  prev_ids = parents;
  order_id = version;
  truncated = false;
  group_size = 1;
}

-- Two changes of one session, and an older one of another.
abbrev page : List ChangeMeta
page = change "c" ("b" ∷ []) 1030 ∷ change "b" ("a" ∷ []) 1000 ∷ change "a" [] 10 ∷ []

coalesce-Grouped_example :
    (coalesce page 0 ≡ map represent (groups_of page 0))
    × (entries_of (groups_of page 0) ≡ page)
    × Grouped page (window_of 0) (groups_of page 0)
coalesce-Grouped_example = coalesce-Grouped page 0
