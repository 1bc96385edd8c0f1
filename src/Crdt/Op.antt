-- ===== src/Crdt/Op.antt =====
-- internal/crdt/op.go: the operations, the record changes and the change that carries them.
use any_sync_sdk.Base.{ℕ, String, Bool, List, [], ◌∷◌, Option, if◌then◌else◌}
use Prim.Native.Char.{Char, code}
use any_sync_sdk.Crdt.Versions.{VersionId, FieldPath}
use any_sync_sdk.Base.{eqb}

pub data OpType : Type 0 where
  set unset add_to_set pull inc inc_gated delete : OpType

-- `payload` is none for a nil pointer.
pub record Op (V : Type 0) : Type 0 where
  pub type : OpType
  pub path : FieldPath
  pub payload : Option V

pub record RecordChange (V : Type 0) : Type 0 where
  pub id : String
  pub ops : List (Op V)
  pub upsert : Bool

-- The fields of `Change` that the apply path reads or writes.
pub record Change (V : Type 0) : Type 0 where
  pub space_id : String
  pub object_id : String
  pub dataset : String
  pub change_id : String
  pub version_id : VersionId
  pub add_seq : ℕ
  pub prev_ids : List String
  pub apply_seq : ℕ
  pub records : List (RecordChange V)
  pub data_version : String
  pub timestamp : ℕ
  pub creator : String
  pub trace_ids : List String
  pub local : Bool
  pub injected : Bool

-- `strings.Split(s, ".")`.
abbrev push_front : Char → List String → List String
push_front c [] = String.◌∷◌ c String.[] ∷ []
push_front c (s ∷ rest) = String.◌∷◌ c s ∷ rest

unfoldable pub split_dots : String → List String
split_dots String.[] = String.[] ∷ []
split_dots (String.◌∷◌ c s) =
    let rest = split_dots s in if eqb (code c) b'.' then String.[] ∷ rest else push_front c rest
