-- ===== src/Crdt/Store.antt =====
-- The store below internal/crdt/controller.go: any-store's collections, one for each dataset, with the
-- rows under their document ids, and the watermarks of internal/crdt/meta.go. What a call of the
-- store answers other than its result (an error) is a field of Database.
use any_sync_sdk.Base.{
  ℕ, String, Bool, [], Option, none, some, ◌≡◌, if◌then◌else◌, arith, ltb, ap, Bool-cases, inl, inr,
  ◌==◌, eq_iff,
}
use any_sync_sdk.Anyenc.{Anyenc}
use any_sync_sdk.Dict.{Dict, string_key, lookup, insert, lookup-insert_lem}

-- The rows of the collections by dataset, and maxAddSeq with maxApplySeq by object.
pub record Store (V : Type 0) : Type 0 where
  pub rows : Dict String (Dict String V)
  pub meta : Dict String (ℕ × ℕ)

-- How the calls of one change on any-store end (none: nil), and the document that `UpsertId` hands a
-- modifier for an id that is not there.
pub record Database (V : Type 0) : Type 0 where
  pub blank : String → V
  pub open_error : String → Option String
  pub write_error : String → String → Option String
  pub begin_error : Option String
  pub meta_error : Option String
  pub commit_error : Option String

-- What `UpsertId` and `UpdateId` answer; `not_found` is ErrDocNotFound.
pub data Written (V R : Type 0) : Type 0 where
  written : Store V → R → Written V R
  not_found : Written V R
  write_failed : String → Written V R

-- `v.GetInt(metaApplySeqKey)`.
abbrev pub stored_apply_seq : Option (ℕ × ℕ) → ℕ
stored_apply_seq none = 0
stored_apply_seq (some (_, seq)) = seq

module _ {V : Type 0} where
  abbrev rows_of : Option (Dict String V) → Dict String V
  rows_of none = []
  rows_of (some rows) = rows

  abbrev pub collection : Store V → String → Dict String V
  collection s dataset = rows_of (lookup dataset s.rows)

  unfoldable pub row : Store V → String → String → Option V
  row s dataset id = lookup id (collection s dataset)

  unfoldable pub set_row : Store V → String → String → V → Store V
  set_row s dataset id v = record s {
    rows = insert dataset (insert id v (collection s dataset)) s.rows;
  }

  -- A modifier's document is stored when it says that it modified it.
  unfoldable pub keep_row :
      {R : Type 0} → Store V → String → String → (R → V) → R × Bool → Store V × R
  unfolding set_row
  keep_row s dataset id doc (r, modified) =
      (if modified then set_row s dataset id (doc r) else s, r)

  abbrev pub as_written : {R : Type 0} → Store V × R → Written V R
  as_written (s, r) = written s r

  abbrev pub unless_error : {R : Type 0} → Option String → Written V R → Written V R
  unless_error (some e) w = write_failed e
  unless_error none w = w

  -- The row that was found, or none.
  unfoldable pub modify_found :
      {R : Type 0}
      → Database V
      → Bool
      → Store V
      → String
      → String
      → (V → R × Bool)
      → (R → V)
      → Option V
      → Written V R
  unfolding keep_row
  modify_found db upsert s dataset id modify doc (some v) =
      as_written (keep_row s dataset id doc (modify v))
  modify_found db upsert s dataset id modify doc none =
      if upsert then as_written (keep_row s dataset id doc (modify (db.blank id))) else not_found

  -- `UpsertId` (the flag is set) or `UpdateId` with a modifier.
  unfoldable pub modify_row :
      {R : Type 0}
      → Database V
      → Bool
      → Store V
      → String
      → String
      → (V → R × Bool)
      → (R → V)
      → Written V R
  unfolding row modify_found
  modify_row db upsert s dataset id modify doc =
      unless_error (db.write_error dataset id)
        (modify_found db upsert s dataset id modify doc (row s dataset id))

  pub row-set_row :
      (s : Store V) (dataset id : String) (v : V) (d i : String)
      → row (set_row s dataset id v) d i
        ≡ (if d == dataset then (if i == id then some v else row s d i) else row s d i)
  unfolding row set_row
  row-set_row s dataset id v d i =
      let c = collection s dataset in
      let found : collection (set_row s dataset id v) d
          ≡ rows_of (if d == dataset then some (insert id v c) else lookup d s.rows) =
        ap rows_of (lookup-insert_lem dataset (insert id v c) d s.rows) in
      let inner = lookup-insert_lem id v i c in
      elim (Bool-cases (d == dataset)) [
        | inl e ↦ ground (arith, eq_iff d dataset, found, inner)
        | inr e ↦ ground (arith, found)
      ]

module _ ⦃E : Anyenc⦄ where
  open E use {Value, to_int, of_int}

  -- What `GetInt` reads back of a watermark that `NewNumberInt` wrote, which goes through a float64.
  abbrev pub read_back : ℕ → ℕ
  read_back seq = to_int (of_int seq)

  -- `persistMeta`, with the watermarks as they are read back: maxApplySeq only moves up.
  unfoldable pub persist_meta : Store Value → String → ℕ → ℕ → Store Value
  persist_meta s object_id add_seq apply_seq =
      let stored = stored_apply_seq (lookup object_id s.meta) in
      record s {
        meta =
            insert object_id
              (read_back add_seq, if ltb stored apply_seq then read_back apply_seq else stored)
              s.meta;
      }
