-- ===== src/Crdt/ApplyChange/Isolation.antt =====
-- internal/crdt/controller.go: a change on one object leaves the rows that other objects keep in the
-- collections of the keyed datasets.
use any_sync_sdk.Base.{String, Bool, true, false, ◌≡◌, refl, ◌∙◌, Option, none, some, arith, eq_iff}
use any_sync_sdk.Dict.{string_key}
use any_sync_sdk.Crdt.Keys.{keyed_rows, keyed_store_id-keyed_rows}
use any_sync_sdk.Crdt.Store.{
  Store, Database, Written, written, not_found, write_failed, row, set_row, keep_row, modify_row,
  row-set_row, unless_error, modify_found,
}
use any_sync_sdk.Crdt.Controller.{Controller, is_keyed, store_id}

-- An object's row of a keyed dataset.
abbrev pub IsForeign : {V : Type 0} → Controller V → String → String → Type 0
IsForeign c dataset id = (is_keyed c dataset ≡ true) × (keyed_rows c.object_id id ≡ false)

-- The rows of other objects in keyed datasets are the same in both stores.
abbrev pub Spares : {V : Type 0} → Controller V → Store V → Store V → Type 0
Spares c s t = (dataset id : String) → IsForeign c dataset id → row t dataset id ≡ row s dataset id

module _ {V : Type 0} (c : Controller V) where
  -- Not a row of another object.
  abbrev pub IsOwn : String → String → Type 0
  IsOwn dataset id = is_keyed c dataset ≡ true → keyed_rows c.object_id id ≡ true

  pub spare_both : (s t u : Store V) → Spares c s t → Spares c t u → Spares c s u
  spare_both s t u f g dataset id h = g dataset id h ∙ f dataset id h

  set_row-Spares :
      (s : Store V) (dataset id : String) (v : V)
      → IsOwn dataset id
      → Spares c s (set_row s dataset id v)
  set_row-Spares s dataset id v own d i h =
      ground (arith, row-set_row s dataset id v d i, eq_iff d dataset, eq_iff i id)

  keep_row-Spares :
      {R : Type 0} (s : Store V) (dataset id : String) (doc : R → V) (r : R × Bool)
      → IsOwn dataset id
      → Spares c s (keep_row s dataset id doc r).0
  unfolding keep_row
  keep_row-Spares s dataset id doc (r, true) own = set_row-Spares s dataset id (doc r) own
  keep_row-Spares s dataset id doc (r, false) own = λ d i h. refl

  -- What a call of the store wrote.
  abbrev pub WrittenSpares : {R : Type 0} → Store V → Written V R → Type 0
  WrittenSpares s (written t r) = Spares c s t
  WrittenSpares s not_found = Unit
  WrittenSpares s (write_failed e) = Unit

  unless_error-WrittenSpares :
      {R : Type 0} (s : Store V) (e : Option String) (w : Written V R)
      → WrittenSpares s w
      → WrittenSpares s (unless_error e w)
  unless_error-WrittenSpares s none w h = h
  unless_error-WrittenSpares s (some e) w h = tt

  modify_found-WrittenSpares :
      {R : Type 0} (db : Database V) (upsert : Bool) (s : Store V) (dataset id : String)
      (f : V → R × Bool) (doc : R → V) (found : Option V)
      → IsOwn dataset id
      → WrittenSpares s (modify_found db upsert s dataset id f doc found)
  unfolding modify_found
  modify_found-WrittenSpares db upsert s dataset id f doc (some v) own =
      keep_row-Spares s dataset id doc (f v) own
  modify_found-WrittenSpares db true s dataset id f doc none own =
      keep_row-Spares s dataset id doc (f (db.blank id)) own
  modify_found-WrittenSpares db false s dataset id f doc none own = tt

  pub modify_row-WrittenSpares :
      {R : Type 0} (db : Database V) (upsert : Bool) (s : Store V) (dataset id : String)
      (f : V → R × Bool) (doc : R → V)
      → IsOwn dataset id
      → WrittenSpares s (modify_row db upsert s dataset id f doc)
  unfolding modify_row
  modify_row-WrittenSpares db upsert s dataset id f doc own =
      unless_error-WrittenSpares s (db.write_error dataset id) _
        (modify_found-WrittenSpares db upsert s dataset id f doc (row s dataset id) own)

  pub store_id-IsOwn : (dataset id : String) → IsOwn dataset (store_id c dataset id)
  unfolding store_id
  store_id-IsOwn dataset id k = rw k (keyed_store_id-keyed_rows c.object_id id)
