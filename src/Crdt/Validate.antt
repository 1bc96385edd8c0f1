-- ===== src/Crdt/Validate.antt =====
-- internal/crdt/validate.go: the field paths that an op may target.
pub mod Legal
pub mod Protects
use any_sync_sdk.Base.{
  ℕ, suc, String, Bool, true, false, ◌||◌, [], ◌∷◌, Option, none, some, ◌==◌, if◌then◌else◌, eqb,
}
use Prim.Native.Char.{code}
use any_sync_sdk.Anyenc.{Anyenc, Pairs, object}
use any_sync_sdk.Crdt.Op
use any_sync_sdk.Crdt.Op.{Op, OpType, split_dots}
use any_sync_sdk.Crdt.Versions.{FieldPath, id_field, default_key}

-- The errors by their messages, with the position of the element or the key that they name.
pub data PathError : Type 0 where
  path_empty not_object immutable reserved : PathError
  element_empty element_dotted element_star : ℕ → PathError
  at_key : String → PathError → PathError

-- `strings.ContainsRune(s, '.')`.
unfoldable pub has_dot : String → Bool
has_dot String.[] = false
has_dot (String.◌∷◌ c s) = let rest = has_dot s in if eqb (code c) b'.' then true else rest

-- `strings.HasPrefix(s, "_")`.
unfoldable pub has_underscore : String → Bool
has_underscore String.[] = false
has_underscore (String.◌∷◌ c s) = eqb (code c) b'_'

unfoldable pub validate_elements : ℕ → FieldPath → Option PathError
unfolding has_dot
validate_elements i [] = none
validate_elements i (elem ∷ rest) =
    let later = validate_elements (suc i) rest in
    if elem == ""
    then some (element_empty i)
    else if has_dot elem
    then some (element_dotted i)
    else if elem == default_key
    then some (element_star i)
    else later

unfoldable pub validate_path : FieldPath → Option PathError
unfolding validate_elements has_underscore
validate_path [] = some path_empty
validate_path (top ∷ rest) = elim (validate_elements 0 (top ∷ rest)) [
  | some e ↦ some e
  | none ↦
      if top == id_field then some immutable else if has_underscore top then some reserved else none
]

module _ ⦃E : Anyenc⦄ where
  open E use {Value, view, entries}

  -- The keys of a multi-field payload, up to the first error.
  unfoldable pub validate_keys : Pairs Value → Option PathError
  unfolding validate_path
  validate_keys [] = none
  validate_keys ((key, v) ∷ rest) =
      let later = validate_keys rest in
      elim (validate_path (split_dots key)) [ some e ↦ some (at_key key e) | none ↦ later ]

  -- `$set` and `$unset`.
  unfoldable pub validate_write : Op Value → Option PathError
  unfolding validate_keys validate_path
  validate_write op = elim op.path [
    | key ∷ rest ↦ validate_path (key ∷ rest)
    | [] ↦ elim op.payload [
      | none ↦ none
      | some payload ↦ elim (view payload) [
        | object ↦ validate_keys (entries payload)
        | _ ↦ some not_object
      ]
    ]
  ]

  unfoldable pub validate_op_paths : Op Value → Option PathError
  unfolding validate_write validate_path
  validate_op_paths op = elim op.type [
    | OpType.delete ↦ none
    | OpType.set ↦ validate_write op
    | OpType.unset ↦ validate_write op
    | OpType.add_to_set ↦ validate_path op.path
    | OpType.pull ↦ validate_path op.path
    | OpType.inc ↦ validate_path op.path
    | OpType.inc_gated ↦ validate_path op.path
  ]
