-- ===== src/Crdt/Controller.antt =====
-- internal/crdt/controller.go: the registrations of a Controller, registerHandler, and the guards of a
-- change.
pub mod Admitted
pub mod Wired
pub mod Content
use any_sync_sdk.Base.{
  ℕ, suc, String, Bool, true, false, not, ◌&&◌, ◌||◌, List, [], ◌∷◌, ◌++◌, map, Option, none, some,
  ◌==◌, if◌then◌else◌, eqb,
}
use any_sync_sdk.Anyenc.{Anyenc}
use any_sync_sdk.Dict.{Dict, string_key, lookup, insert}
use any_sync_sdk.Crdt.Op.{Op, RecordChange, Change}
use any_sync_sdk.Crdt.Hooks.{RejectReason, Handler}
use any_sync_sdk.Crdt.Admission.{
  Dataset, Scope, ContentError, same_scope, route_of, op_content_valid, filter_op_fields, Filtered,
}
use any_sync_sdk.Crdt.Keys.{keyed_store_id}
use any_sync_sdk.Crdt.Resolve.{
  ApplyError, Result, missing_data_version, wrong_object, unknown_dataset, empty_id_requires_upsert,
}

-- `ChangeCtx.Get`: the record of a dataset under an id, none where there is none.
abbrev pub Getter : Type 0 → Type 0
Getter V = String → String → Option V

-- What a stamper queues on its sink for a change (`StampObject`).
abbrev pub Stamper : Type 0 → Type 0
Stamper V = Change V → Getter V → List (Op V)

-- A field of a dataset's declaration: its declared class, and whether a stamp derives it.
pub record Field : Type 0 where
  pub id : String
  pub scope : Scope
  pub stamped : Bool

-- `Dataset.Normalized`, the classes of the fields: a stamped field is derived, an undeclared class synced.
unfoldable pub normalized : List Field → List (String × Scope)
unfolding same_scope
normalized [] = []
normalized (f ∷ fs) =
    (
      f.id,
      if f.stamped
          then Scope.derived
          else if same_scope f.scope Scope.unscoped
          then Scope.synced
          else f.scope,
    )
    ∷ normalized fs

-- A dataset's registration, with a handler (Go refuses a nil one); its hooks read other records through the
-- getter. The results of
-- `Init` and of the index calls (none: nil) are `init_error` and `index_error`.
pub record HandlerReg (V : Type 0) : Type 0 where
  pub name : String
  pub handler : Getter V → Handler V
  pub stamper : Option (Stamper V)
  pub init_error : Option String
  pub index_error : Option String
  pub fields : List Field
  pub dynamic : Bool
  pub dynamic_scope_by_key : Bool
  pub keyed : Bool

-- The registrations; `shared` names the collections supplied at the construction.
pub record Controller (V : Type 0) : Type 0 where
  pub object_id : String
  pub handlers : Dict String (Getter V → Handler V)
  pub schemas : Dict String Dataset
  pub scope_by_key : Dict String Bool
  pub shared : List String
  pub keyed : List String
  pub object_stampers : List (String × Stamper V)

-- Go's `_, ok := set[name]`.
abbrev pub is_member : String → List String → Bool
is_member name [] = false
is_member name (x ∷ xs) = let rest = is_member name xs in if x == name then true else rest

pub data RegisterError : Type 0 where
  empty_name duplicate_handler no_schema keyed_without_collection : RegisterError
  init_failed index_failed : String → RegisterError

abbrev pub has_no_field : List Field → Bool
has_no_field [] = true
has_no_field (_ ∷ _) = false

abbrev no_dataset : Dataset
no_dataset = record { fields = []; dynamic = false }

abbrev pub schema_or_zero : Option Dataset → Dataset
schema_or_zero none = no_dataset
schema_or_zero (some ds) = ds

abbrev pub flag_or_false : Option Bool → Bool
flag_or_false none = false
flag_or_false (some b) = b

module _ {V : Type 0} where
  unfoldable pub is_keyed : Controller V → String → Bool
  is_keyed c dataset = is_member dataset c.keyed

  unfoldable pub is_shared : Controller V → String → Bool
  unfolding is_keyed
  is_shared c dataset = is_member dataset c.shared && not (is_keyed c dataset)

  -- The id of a row: keyed datasets store a record under the object's prefix.
  unfoldable pub store_id : Controller V → String → String → String
  unfolding is_keyed
  store_id c dataset id = if is_keyed c dataset then keyed_store_id c.object_id id else id

  unfoldable pub store_ids : Controller V → String → List String → List String
  unfolding is_keyed
  store_ids c dataset ids = if is_keyed c dataset then map (keyed_store_id c.object_id) ids else ids

  unfoldable pub keyed_object : Controller V → String → String
  unfolding is_keyed
  keyed_object c dataset = if is_keyed c dataset then c.object_id else ""

  unfoldable pub register_tables : Controller V → HandlerReg V → Controller V
  unfolding normalized
  register_tables c reg = record c {
    handlers = insert reg.name reg.handler c.handlers;
    schemas =
        insert reg.name (record { fields = normalized reg.fields; dynamic = reg.dynamic })
          c.schemas;
    scope_by_key =
        if reg.dynamic_scope_by_key then insert reg.name true c.scope_by_key else c.scope_by_key;
  }

  abbrev pub register_keyed : Controller V → HandlerReg V → Controller V
  register_keyed c reg = record c { keyed = if reg.keyed then reg.name ∷ c.keyed else c.keyed }

  -- A stamper counts where the dataset is shared, which a keyed one is not.
  unfoldable pub register_stamper : Controller V → HandlerReg V → Controller V
  unfolding is_shared
  register_stamper c reg = elim reg.stamper [
    | none ↦ c
    | some st ↦
        if is_shared c reg.name
        then record c { object_stampers = c.object_stampers ++ (reg.name, st) ∷ [] }
        else c
  ]

  -- The controller, and the error (none: nil). What was written before an error stays written; the
  -- collection of a shared dataset is there already, so its indexes are ensured.
  abbrev pub register_dataset : Controller V → HandlerReg V → Controller V × Option RegisterError
  register_dataset c reg = elim reg.init_error [
    | some e ↦ (c, some (init_failed e))
    | none ↦
        if reg.keyed && not (is_member reg.name c.shared)
        then (register_tables c reg, some keyed_without_collection)
        else (
          register_stamper (register_keyed (register_tables c reg) reg) reg,
          if is_member reg.name c.shared
              then elim reg.index_error [ none ↦ none | some e ↦ some (index_failed e) ]
              else none,
        )
  ]

  unfoldable pub register_handler :
      Controller V → HandlerReg V → Controller V × Option RegisterError
  unfolding register_tables register_stamper
  register_handler c reg =
      if reg.name == "" then (c, some empty_name) else elim (lookup reg.name c.handlers) [
        | some _ ↦ (c, some duplicate_handler)
        | none ↦
            if has_no_field reg.fields && not reg.dynamic
            then (c, some no_schema)
            else register_dataset c reg
      ]

  -- NewControllerWithShared, the registrations one after the other; it stops at the first error.
  unfoldable pub register_all :
      Controller V → List (HandlerReg V) → Controller V × Option RegisterError
  unfolding register_handler
  register_all c [] = (c, none)
  register_all c (reg ∷ regs) =
      let (c', err) = register_handler c reg in
      elim err [ some e ↦ (c', some e) | none ↦ register_all c' regs ]

  unfoldable pub new_controller : String → List String → Controller V
  new_controller object_id shared = record {
    object_id = object_id;
    handlers = [];
    schemas = [];
    scope_by_key = [];
    shared = shared;
    keyed = [];
    object_stampers = [];
  }

  -- The guards of ValidateChange and of ApplyChangeWithResult.
  unfoldable pub guard_change : Controller V → Change V → Option ApplyError
  guard_change c ch =
      if ch.data_version == ""
      then some missing_data_version
      else if not (ch.object_id == "")
          && not (c.object_id == "")
          && not (ch.object_id == c.object_id)
      then some wrong_object
      else elim (lookup ch.dataset c.handlers) [ none ↦ some unknown_dataset | some _ ↦ none ]
