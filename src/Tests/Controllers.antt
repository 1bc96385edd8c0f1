-- ===== src/Tests/Controllers.antt =====
-- The theorems on a controller's changes, applied at a concrete controller and store.
use any_sync_sdk.Base.{
  ◌<◌, arith, ◌↔◌, String, ◌≡◌, refl, true, false, List, [], ◌∷◌, none, some, less, length, inl,
  sym,
}
use any_sync_sdk.Dict.{string_key, none≢some}
use any_sync_sdk.Crdt.Op.{Op, OpType, RecordChange, Change}
use any_sync_sdk.Crdt.Admission.{Scope, op_content_valid, route_of}
use any_sync_sdk.Crdt.Validate.{validate_op_paths}
use any_sync_sdk.Crdt.Apply.{op_field_heads}
use any_sync_sdk.Crdt.Keys.{
  keyed_rows, keyed_store_id, keyed_record_id, keyed_rows_iff, keyed_bounds,
}
use any_sync_sdk.Crdt.Resolve.{ok, resolve_record_ids}
use any_sync_sdk.Crdt.Resolve.Distinct.{fresh, Kept, AllDiffer, resolve_record_ids_lem}
use any_sync_sdk.Crdt.Store.{Store, Database, row}
use any_sync_sdk.Crdt.Controller.{HandlerReg, Controller, is_keyed, register_all, new_controller}
use any_sync_sdk.Crdt.Controller.Content.{validate_change, admit_change}
use any_sync_sdk.Crdt.Controller.Admitted.{validate_change-admit_change}
use any_sync_sdk.Crdt.Transaction.{Mirrors, ApplyResult}
use any_sync_sdk.Crdt.ApplyChange.{apply_change_with_result}
use any_sync_sdk.Crdt.ApplyChange.Settles.{Settles, apply_change_with_result-Settles}
use any_sync_sdk.Crdt.ApplyChange.Watermarks.{
  Call, apply_all, Persisted, NotBelow, apply_all-Persisted,
}
use any_sync_sdk.Crdt.ApplyChange.Apart.{built, row-apply_change_with_result}
use any_sync_sdk.Crdt.ApplyChange.Succeeds.{validated_commits}
use any_sync_sdk.Tests.Json.{Json, str, obj, end, field, json}
use any_sync_sdk.Tests.Records.{lenient}

-- A keyed dataset `notes` with one synced field.
abbrev pub notes_reg : HandlerReg Json
notes_reg = record {
  name = "notes";
  handler = λ getter. lenient;
  stamper = none;
  init_error = none;
  index_error = none;
  fields = record { id = "title"; scope = Scope.unscoped; stamped = false } ∷ [];
  dynamic = false;
  dynamic_scope_by_key = false;
  keyed = true;
}

abbrev notes_controller : Controller Json
notes_controller = built "o1" ("notes" ∷ []) (notes_reg ∷ [])

abbrev healthy_db : Database Json
healthy_db = record {
  blank = λ id. obj (field "id" (str id) end);
  open_error = λ dataset. none;
  write_error = λ dataset id. none;
  begin_error = none;
  meta_error = none;
  commit_error = none;
}

abbrev full_db : Database Json
full_db = record healthy_db { commit_error = some "disk full" }

abbrev set_title : Op Json
set_title = record { type = OpType.set; path = "title" ∷ []; payload = some (str "Hello") }

abbrev created : RecordChange Json
created = record { id = ""; ops = set_title ∷ []; upsert = true }

abbrev pub change : Change Json
change = record {
  space_id = "s1";
  object_id = "o1";
  dataset = "notes";
  change_id = "c1";
  version_id = "b1";
  add_seq = 4;
  prev_ids = [];
  apply_seq = 0;
  records = created ∷ [];
  data_version = "1";
  timestamp = 0;
  creator = "ann";
  trace_ids = [];
  local = false;
  injected = false;
}

abbrev no_mirrors : Mirrors
no_mirrors = record { max_add_seq = 0; max_apply_seq = 0; apply_seqs = none; absent = [] }

-- The collection holds a row of another object.
abbrev shared_store : Store Json
shared_store = record { rows = ("notes", ("o2/r9", str "theirs") ∷ []) ∷ []; meta = [] }

abbrev hash : String → String
hash change_id = "k7"

abbrev object : String
object = "o1"

-- A document id that the store made.
abbrev document_id : String
document_id = "o1/r1"

keyed_rows_iff_example :
    (keyed_rows object document_id ≡ true)
    ↔ (document_id ≡ keyed_store_id object (keyed_record_id object document_id))
keyed_rows_iff_example = keyed_rows_iff object document_id

keyed_rows_test : (keyed_rows "o1" "o1/r1" ≡ true) × (keyed_rows "o1" "o2/r9" ≡ false)
unfolding keyed_rows less keyed_bounds
keyed_rows_test = (refl, refl)

abbrev new_ids : List String
new_ids = "k7" ∷ []

resolved : resolve_record_ids hash change ≡ ok new_ids
unfolding resolve_record_ids
resolved = refl

resolve_record_ids_lem_example :
    (length new_ids ≡ 1) × Kept change.records new_ids × AllDiffer (fresh change.records new_ids)
resolve_record_ids_lem_example = resolve_record_ids_lem hash change new_ids resolved

change_is_valid : validate_change notes_controller change ≡ none
unfolding validate_change register_all new_controller op_content_valid validate_op_paths
    op_field_heads route_of
change_is_valid = refl

validate_change-admit_change_example : admit_change notes_controller change ≡ (change, [])
validate_change-admit_change_example =
    validate_change-admit_change notes_controller change change_is_valid

settles_bounds :
    ((apply_change_with_result hash notes_controller full_db none none change no_mirrors
        shared_store).0.max_add_seq
      < 9007199254740992)
    × ((apply_change_with_result hash notes_controller full_db none none change no_mirrors
          shared_store).0.max_apply_seq
        < 9007199254740992)
unfolding apply_change_with_result register_all
settles_bounds = (grind arith, grind arith)

apply_change_with_result-Settles_example : Settles notes_controller 4 no_mirrors shared_store (
    apply_change_with_result hash notes_controller full_db none none change no_mirrors shared_store)
apply_change_with_result-Settles_example =
    apply_change_with_result-Settles hash notes_controller full_db none none change no_mirrors
      shared_store settles_bounds.0 settles_bounds.1

-- The second call cannot commit.
abbrev calls : List Call
calls =
    record { db = healthy_db; hook = none; answer = none; ch = change }
    ∷ record { db = full_db; hook = none; answer = none; ch = record change { add_seq = 9 } }
    ∷ []

all_bounds :
    ((apply_all hash notes_controller calls (no_mirrors, shared_store)).0.max_add_seq
      < 9007199254740992)
    × ((apply_all hash notes_controller calls (no_mirrors, shared_store)).0.max_apply_seq
        < 9007199254740992)
unfolding apply_change_with_result apply_all
all_bounds = (grind arith, grind arith)

apply_all-Persisted_example :
    Persisted notes_controller (apply_all hash notes_controller calls (no_mirrors, shared_store))
    × NotBelow no_mirrors (apply_all hash notes_controller calls (no_mirrors, shared_store)).0
apply_all-Persisted_example =
    apply_all-Persisted hash notes_controller calls (no_mirrors, shared_store) all_bounds.0
      all_bounds.1 (inl (refl, refl, refl))

notes_are_keyed : is_keyed notes_controller "notes" ≡ true
unfolding is_keyed register_all new_controller
notes_are_keyed = refl

foreign_row : keyed_rows notes_controller.object_id "o2/r9" ≡ false
unfolding keyed_rows less keyed_bounds register_all new_controller
foreign_row = refl

row-apply_change_with_result_example :
    row
      (apply_change_with_result hash notes_controller healthy_db none none change no_mirrors
        shared_store).1
      "notes"
      "o2/r9"
    ≡ row shared_store "notes" "o2/r9"
row-apply_change_with_result_example =
    row-apply_change_with_result "o1" ("notes" ∷ []) (notes_reg ∷ []) hash healthy_db none none
      change no_mirrors shared_store "notes" "o2/r9" tt notes_are_keyed foreign_row

validated_commits_example :
    (res : ApplyResult Json) × ((apply_change_with_result hash notes_controller healthy_db none none
        change no_mirrors shared_store).2
      ≡ ok res)
validated_commits_example =
    validated_commits notes_controller healthy_db
      ((λ dataset. refl), (λ dataset id. refl), refl, refl, refl) hash none none change no_mirrors
      shared_store change_is_valid refl refl tt (λ e. none≢some (change, none) (sym e))
