-- ===== src/Tests/Diffs.antt =====
-- The differences of records, at concrete documents.
use any_sync_sdk.Base.{refl, false, some, []}
use any_sync_sdk.History.Diff.{diff_values}
use any_sync_sdk.History.Diff.Hidden.{Shown, diff_values-Shown}
use any_sync_sdk.Tests.Json.{json, Json, num, str, obj, field, end}

abbrev before : Json
before =
    obj
      (field "id" (str "r") (field "_addSeq" (num 3) (field "n" (obj (field "x" (num 1) end)) end)))

abbrev after : Json
after =
    obj
      (field "id" (str "r") (field "_addSeq" (num 4) (field "n" (obj (field "x" (num 2) end)) end)))

diff_values-Shown_example : Shown (diff_values 5 (λ v. false) [] (some before) (some after))
diff_values-Shown_example = diff_values-Shown 5 (λ v. false) [] (some before) (some after) refl
