-- ===== src/Crdt/SchemaHandler/Checks.antt =====
-- internal/crdt/schemahandler.go: checks one after the other.
use any_sync_sdk.Base.{String, ◌≡◌, refl, Option, none, some, arith}
use any_sync_sdk.Crdt.SchemaHandler.{then_check}

pub then_first : (a b : Option String) → then_check a b ≡ none → a ≡ none
then_first none b q = refl
then_first (some e) b q = q

pub then_second : (a b : Option String) → then_check a b ≡ none → b ≡ none
then_second none b q = q
then_second (some e) b q = ground arith

pub then_both : (a b : Option String) → a ≡ none → b ≡ none → then_check a b ≡ none
then_both none b p q = q
then_both (some e) b p q = p
