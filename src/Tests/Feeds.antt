-- ===== src/Tests/Feeds.antt =====
-- Registries of callbacks, addresses and subscriptions, at concrete calls.
use any_sync_sdk.Base.{ℕ, String, ◌≡◌, refl, false, none, some, List, [], ◌∷◌, arith}
use any_sync_sdk.Dict.{In, string_key, number_key}
use any_sync_sdk.Fanout.{Registry, new, add, dispatch}
use any_sync_sdk.Fanout.Feed.{run, Command, delivered_until_cancelled}
use any_sync_sdk.AddrBook.{init, new_addr_book}
use any_sync_sdk.AddrBook.Latest as Latest
use any_sync_sdk.AddrBook.Latest.{registered, addresses, heard, registered-run}
use any_sync_sdk.Subscribe.Scope.{Routed, matches, new_scope_index}
use any_sync_sdk.Subscribe.Scope.Routing as Routing
use any_sync_sdk.Base.{true}
use any_sync_sdk.Subscribe.Scope.Covers.{matches-covers}
use any_sync_sdk.Subscribe.Scope.Routing.{covers}
use any_sync_sdk.Subscribe.Scope.Routing.{bucket, latest, lookup-run, matches-latest}

-- Another callback comes and goes, and the cancel of none is called.
abbrev calls : List (Command ℕ)
calls =
    Command.add_call (some 8)
    ∷ Command.cancel_call none
    ∷ Command.cancel_call (some 2)
    ∷ Command.dispatch_call
    ∷ []

delivered_until_cancelled_example : In 7 (dispatch (run calls (add (some 7) new).0))
delivered_until_cancelled_example =
    delivered_until_cancelled new 7 calls refl (omega arith) (refl, (refl, (refl, (refl, tt))))

abbrev one_callback : Registry ℕ
one_callback = record { next = 1; closed = false; subs = (1, 7) ∷ [] }

abbrev said : List Latest.Command
said =
    Latest.Command.ticket_call "p" "t"
    ∷ Latest.Command.lan_call "p" ("yamux://10.0.0.2:1" ∷ [])
    ∷ Latest.Command.lan_clear "p"
    ∷ []

registered-run_example :
    registered "p" (Latest.run "iroh" said (init new_addr_book)).calls
    ≡ addresses "iroh" (heard "p" said (record { lan = []; ticket = "" }))
registered-run_example = registered-run "iroh" "p" said

abbrev sub : ℕ → String → Routed
sub id object = record {
  id = id;
  scope = record { shared = false; all_objects = false; object_id = object; dataset = "d" };
}

abbrev registrations : List Routing.Command
registrations =
    Routing.Command.add_call (sub 1 "o")
    ∷ Routing.Command.add_call (sub 2 "o")
    ∷ Routing.Command.remove_call (sub 1 "o")
    ∷ []

matches-latest_example :
    In (sub 2 "o") (matches "objects" "o" "d" (Routing.run registrations new_scope_index))
matches-latest_example = matches-latest registrations "objects" "o" "d" (sub 2 "o") refl refl

matches-covers_example : covers "objects" "o" "d" (sub 2 "o").scope ≡ true
matches-covers_example =
    matches-covers registrations "objects" "o" "d" (sub 2 "o")
      (matches-latest registrations "objects" "o" "d" (sub 2 "o") refl refl)
