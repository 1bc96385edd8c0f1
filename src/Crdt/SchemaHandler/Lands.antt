-- ===== src/Crdt/SchemaHandler/Lands.antt =====
-- internal/crdt/schemahandler.go and the modifier of internal/crdt/controller.go: a record that the local
-- gate lets a change create, on a replica.
use any_sync_sdk.Base.{
  String, Bool, true, false, ◌||◌, ◌≡◌, refl, [], Option, none, if-Has, subst, sym,
}
use any_sync_sdk.Anyenc.{Anyenc}
use any_sync_sdk.Dict.{In}
use any_sync_sdk.Crdt.Op.{RecordChange, Change}
use any_sync_sdk.Crdt.Versions.{versions_key}
use any_sync_sdk.Crdt.Lifecycle.{has_delete}
use any_sync_sdk.Crdt.Hooks.{Handler, Sink, drain_derived}
use any_sync_sdk.Crdt.Modifier.{Outcome, modify_create, modify}
use any_sync_sdk.Crdt.Controller.{Controller}
use any_sync_sdk.Crdt.Controller.Content.{validate_change, admit_change}
use any_sync_sdk.Crdt.Controller.Admitted.{validate_change-admit_change}
use any_sync_sdk.Crdt.SchemaHandler.{SchemaHandler}
use any_sync_sdk.Crdt.SchemaHandler.Create.{schema_handler}
use any_sync_sdk.Crdt.SchemaHandler.Decl.{DatasetDecl}
use any_sync_sdk.Crdt.SchemaHandler.Compile.{compiled, new_schema_handler}
use any_sync_sdk.Crdt.SchemaHandler.PreValidate.{before_of, pre_validate_multi}
use any_sync_sdk.Crdt.SchemaHandler.Accepts.{pre_validate_multi-before_create}

module _ ⦃E : Anyenc⦄ where
  open E use {Value, get}

  -- The run stores the record and rejects nothing.
  abbrev pub Lands : Outcome → Type 0
  Lands o = (o.0.rejections ≡ []) × (o.1 ≡ true)

  abbrev empty_sink : Sink Value
  empty_sink = record { derived = []; sibling = [] }

  create-Lands :
      (h : Handler Value) (ch : Change Value) (rc : RecordChange Value) (keyed : String)
      (existing : Value)
      → (h.before_create ch rc empty_sink).1 ≡ none
      → Lands (modify_create h ch rc keyed existing)
  unfolding modify_create drain_derived
  create-Lands h ch rc keyed existing q =
      if-Has Lands (ch.local || ch.injected) _ _ (refl, refl) (rw q (refl, refl))

  fresh_modify :
      (h : Handler Value) (ch : Change Value) (id : String) (rc : RecordChange Value)
      (keyed : String) (existing : Value)
      → has_delete rc.ops ≡ false
      → get existing versions_key ≡ none
      → modify h ch id rc keyed existing ≡ modify_create h ch rc keyed existing
  unfolding modify
  fresh_modify h ch id rc keyed existing d n = rw (d, n) refl

  -- Where the local gate of a declared dataset accepts a change, and the content validation accepts it
  -- as delivered (its record changes are the same ones, its metadata may differ), every replica
  -- creates the records that it creates: a record change with upsert and without a delete, for a
  -- record that the device does not have, is in what the apply filter keeps of the delivered change,
  -- and the modifier with the replica's handler stores it without a rejection where the replica does
  -- not have the record either.
  pub pre_validate_multi-modify :
      (compile : String → Option (String → Bool)) (ds : DatasetDecl) (a l : SchemaHandler)
      (c : Controller Value) (get_before : String → Option Value) (ch delivered : Change Value)
      (rc : RecordChange Value) (id keyed : String) (existing : Value)
      → new_schema_handler compile ds ≡ compiled a l
      → pre_validate_multi l get_before ch ≡ none
      → validate_change c delivered ≡ none
      → delivered.records ≡ ch.records
      → In rc ch.records
      → has_delete rc.ops ≡ false
      → before_of l get_before rc ≡ none
      → rc.upsert ≡ true
      → get existing versions_key ≡ none
      → In rc (admit_change c delivered).0.records
        × Lands (modify (schema_handler a) (admit_change c delivered).0 id rc keyed existing)
  unfolding schema_handler
  pre_validate_multi-modify compile ds a l c get_before ch delivered rc id keyed existing declared q
        valid same i d absent u n =
      let whole = validate_change-admit_change c delivered valid in
      rw whole (
        subst (In rc) (sym same) i,
        rw (fresh_modify (schema_handler a) delivered id rc keyed existing d n) (
            create-Lands (schema_handler a) delivered rc keyed existing (
              pre_validate_multi-before_create compile ds a l declared get_before ch delivered rc
                empty_sink q i d absent u)),
      )
