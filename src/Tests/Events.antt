-- ===== src/Tests/Events.antt =====
-- The theorem on events, applied at a concrete record, and a $set that lost the gate.
use any_sync_sdk.Base.{◌≡◌, refl, List, [], ◌∷◌, some, arith, eq_iff, true, inl, inr}
use any_sync_sdk.Crdt.Lifecycle.{has_delete}
use any_sync_sdk.Crdt.Op.{Op, OpType, RecordChange}
use any_sync_sdk.Subscribe.Event.{project_op, project_record}
use any_sync_sdk.Subscribe.Event.Replays.{Landed, client_run, client_run-project_record}
use any_sync_sdk.Tests.Json.{get_json, Json, str, num, obj, end, field, json}

-- The record before and after: the title was set, the views were incremented.
abbrev before : Json
before = obj (field "title" (str "Old") (field "views" (num 1) end))

abbrev after : Json
after = obj (field "title" (str "New") (field "views" (num 2) end))

abbrev retitle : Op Json
retitle = record { type = OpType.set; path = "title" ∷ []; payload = some (str "New") }

abbrev view_once : Op Json
view_once = record { type = OpType.inc; path = "views" ∷ []; payload = some (num 1) }

retitle-Landed : Landed after retitle
retitle-Landed = record {
  key = "title";
  one_key = refl;
  no_delete = λ e. ground arith;
  set_landed = λ e. (refl, (str "New", refl));
  unset_landed = λ e. ground arith;
}

view_once-Landed : Landed after view_once
view_once-Landed = record {
  key = "views";
  one_key = refl;
  no_delete = λ e. ground arith;
  set_landed = λ e. ground arith;
  unset_landed = λ e. ground arith;
}

abbrev edit_once : RecordChange Json
edit_once = record { id = "r1"; ops = retitle ∷ []; upsert = true }

-- What the apply derived: the creation marker and the count of views.
abbrev marked : Op Json
marked = record { type = OpType.set; path = "_ver" ∷ "id" ∷ []; payload = some (str "b1") }

abbrev derived_ops : List (Op Json)
derived_ops = marked ∷ view_once ∷ []

client_run-project_record_example :
    get_json
      (client_run (project_record edit_once "r1" derived_ops (some after)).ops before)
      "views"
    ≡ get_json after "views"
client_run-project_record_example =
    client_run-project_record edit_once "r1" derived_ops after before "views" refl
      (ground (arith, eq_iff "views" "_ver")) (unfold has_delete in refl) (retitle-Landed, tt)
      (inl (refl, refl), (inr view_once-Landed, tt)) (λ a b. ground arith)

abbrev stale : Op Json
stale = record { type = OpType.set; path = "title" ∷ []; payload = some (str "Older") }

-- A $set that did not land is shipped with its own value.
stale_set_shipped : project_op stale (some after) ≡ some stale
unfolding project_op
stale_set_shipped = refl
