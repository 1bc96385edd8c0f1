-- ===== src/Crdt/Validate/Legal.antt =====
-- internal/crdt/validate.go: what a path that passes the validation is like.
use any_sync_sdk.Base.{
  ℕ, suc, String, Bool, true, false, ◌≡◌, ◌≢◌, [], ◌∷◌, none, ◌==◌, eq_iff, arith, refl,
  if◌then◌else◌, sym, ◌∙◌, ap,
}
use mathlib.Core.Bool.{true≢false}
use any_sync_sdk.Crdt.Versions.{FieldPath, id_field, default_key, versions_key}
use any_sync_sdk.Crdt.Versions.Lookup.{IsPlain}
use any_sync_sdk.Crdt.Validate.{validate_path, validate_elements, has_underscore}

-- A name that the protocol owns: `id`, and whatever starts with an underscore.
unfoldable pub is_reserved : String → Bool
unfolding has_underscore
is_reserved k = if k == id_field then true else has_underscore k

elements-IsPlain : (i : ℕ) (path : FieldPath) → validate_elements i path ≡ none → IsPlain path
unfolding validate_elements
elements-IsPlain i [] h = tt
elements-IsPlain i (e ∷ es) h =
    (ground (arith, eq_iff e default_key), elements-IsPlain (suc i) es (ground arith))

-- A path that passes the validation has no key `*`, and starts with a name that the protocol does not
-- own.
pub validate_path_lem :
    (key : String) (rest : FieldPath)
    → validate_path (key ∷ rest) ≡ none
    → IsPlain (key ∷ rest) × (is_reserved key ≡ false)
unfolding validate_path is_reserved
validate_path_lem key rest h = (elements-IsPlain 0 (key ∷ rest) ground arith, ground arith)

-- So it differs from every reserved one.
pub reserved_ne : (key k : String) → is_reserved key ≡ false → is_reserved k ≡ true → key ≢ k
reserved_ne key k h r e = true≢false (sym r ∙ ap is_reserved (sym e) ∙ h)

pub versions_key-reserved : is_reserved versions_key ≡ true
unfolding is_reserved has_underscore
versions_key-reserved = refl
