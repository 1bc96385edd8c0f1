-- ===== src/Tests/Writes.antt =====
-- The theorems on the order and the admission of writes, applied at concrete ones.
use mathlib.Core.List.{Permᴰ, Memᴰ}
use any_sync_sdk.Anyenc.{object}
use any_sync_sdk.Crdt.Merge.{merge_replace}
use any_sync_sdk.Crdt.Merge.Authority.{ClaimedBy}
use any_sync_sdk.Crdt.Merge.Claiming.{IsOrdered, merge_replace-ClaimedBy}
use any_sync_sdk.Base.{◌≢◌, String}
use any_sync_sdk.Base.{
  ◌≡◌, refl, false, List, [], ◌∷◌, ◌++◌, Option, none, some, arith, eq_iff, ◌==◌, if◌then◌else◌,
  suc, length,
}
use any_sync_sdk.Crdt.Op.{Op, OpType, split_dots}
use any_sync_sdk.Crdt.Versions.{VersionId}
use any_sync_sdk.Crdt.Apply.{apply_op}
use any_sync_sdk.Crdt.Hooks.{apply_ops, is_multi_field}
use any_sync_sdk.Crdt.Apply.Register.{slot}
use any_sync_sdk.Crdt.Apply.Frame.{Agrees}
use any_sync_sdk.Crdt.Apply.Ops.{apply_op-Agrees}
use any_sync_sdk.Crdt.Apply.Replay.{Write, replay}
use any_sync_sdk.Crdt.Apply.Converge.{order_irrelevant}
use any_sync_sdk.Crdt.Validate.{validate_path, validate_op_paths}
use any_sync_sdk.Crdt.Validate.Protects.{Protects, apply_ops-Protects}
use any_sync_sdk.Crdt.Admission.{
  Dataset, Scope, ContentError, op_content_valid, key_error, filter_op_fields,
}
use any_sync_sdk.Crdt.Admission.Filter.{filter_op_fields-valid}
use any_sync_sdk.Crdt.ApplySeq.{Seed, nexts, new_allocator}
use any_sync_sdk.Crdt.ApplySeq.Ascends.{count_from, failures, nexts_lem}
use any_sync_sdk.Tests.Json.{view_json, pairs, Json, str, num, obj, end, field, json}
use any_sync_sdk.Tests.Records.{
  note, note-IsRecord, note_title, note-Fits, newest, early, late, write,
}

-- What each version wrote to the title.
abbrev titles : VersionId → Option Json
titles v = if v == "d1" then some (str "New") else none

abbrev reversed : List (Write Json)
reversed = newest ∷ write "body" "e1" (some (str "text")) ∷ late

order_irrelevant_example :
    slot (replay note (early ++ newest ∷ late)) ("title" ∷ [])
    ≡ slot (replay note reversed) ("title" ∷ [])
order_irrelevant_example =
    order_irrelevant note "title" [] titles (early ++ newest ∷ late) reversed note-IsRecord
      (ground (arith, eq_iff "title" "_ver")) note_title note-Fits
      ((λ e. ground (arith, eq_iff "body" "title")), ((λ e. refl), ((λ e. refl), tt)))
      (Permᴰ.swap refl refl)

abbrev counted : Op Json
counted = record { type = OpType.inc_gated; path = "views" ∷ []; payload = some (num 1) }

apply_op-Agrees_example : Agrees "views" note (apply_op note "d1" counted)
apply_op-Agrees_example =
    apply_op-Agrees note "d1" counted "views" [] refl note-IsRecord
      (ground (arith, eq_iff "views" "_ver")) (ground (arith, eq_iff "views" "*"))

-- $set { body.text: hi, title: T }
abbrev packed : Op Json
packed = record {
  type = OpType.set;
  path = [];
  payload = some (obj (field "body.text" (str "hi") (field "title" (str "T") end)));
}

apply_ops-Protects_example : Protects note (apply_ops "d1" (packed ∷ counted ∷ []) note)
apply_ops-Protects_example =
    apply_ops-Protects "d1" (packed ∷ counted ∷ []) note
      (unfold validate_op_paths split_dots in refl, (unfold validate_op_paths in refl, tt))
      note-IsRecord

abbrev articles : Dataset
articles = record { fields = ("title", Scope.synced) ∷ ("body", Scope.local) ∷ []; dynamic = false }

abbrev trimmed : Op Json
trimmed = record {
  type = OpType.set;
  path = [];
  payload = some (obj (field "title" (str "T") end));
}

filter_op_fields-valid_example : op_content_valid articles Scope.synced false trimmed ≡ none
unfolding key_error validate_path
filter_op_fields-valid_example =
    filter_op_fields-valid articles Scope.synced false packed trimmed
      (("body.text", ContentError.wrong_route Scope.local Scope.synced) ∷ [])
      (unfold filter_op_fields is_multi_field split_dots in refl)

nexts_lem_example :
    nexts (failures 2 ++ some (Seed.highest 40) ∷ some Seed.failed ∷ none ∷ []) new_allocator
    ≡ count_from (suc 40) (suc (length (some Seed.failed ∷ none ∷ [])))
nexts_lem_example = nexts_lem 2 40 (some Seed.failed ∷ none ∷ []) (omega arith)

-- { title: b1, done: d1 }
abbrev pair : Json
pair = obj (field "title" (str "b1") (field "done" (str "d1") end))

leaf_view : (p : String × Json) (k s : String) → p ≡ (k, str s) → view_json p.1 ≢ object
leaf_view p k s e h = ground arith

pair_below :
    (p : String × Json)
    → Memᴰ p (pairs (field "title" (str "b1") (field "done" (str "d1") end)))
    → view_json p.1 ≡ object
    → IsOrdered p.1
pair_below p (Memᴰ.head e) h = absurd (leaf_view p "title" "b1" e h)
pair_below p (Memᴰ.tail (Memᴰ.head e)) h = absurd (leaf_view p "done" "d1" e h)
pair_below p (Memᴰ.tail (Memᴰ.tail m)) h = elim m [ ]

pair-IsOrdered : IsOrdered pair
pair-IsOrdered = IsOrdered.ordered (λ d s e. ground arith) pair_below

merge_replace-ClaimedBy_example :
    ClaimedBy "c1"
      (merge_replace "c1" (some note) pair (some (obj (field "title" (str "T") end)))).version_node
merge_replace-ClaimedBy_example =
    merge_replace-ClaimedBy "c1" (some note) pair (some (obj (field "title" (str "T") end))) refl
      pair-IsOrdered

abbrev retitle : Op Json
retitle = record { type = OpType.set; path = "title" ∷ []; payload = some (str "New") }
