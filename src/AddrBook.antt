-- ===== src/AddrBook.antt =====
-- internal/p2p/addrbook.go: the only writer of peer addresses into any-sync's peer service. The
-- calls of SetPeerAddrs are recorded, the newest first; the scheme of a ticket is a constant of
-- any-sync, `transport.Iroh`. An empty list stands for nil too, which the service takes alike.
pub mod Latest
use Prim.Native.String.{◌++◌}
use any_sync_sdk.Base.{
  String, Bool, true, false, Option, none, some, List, [], ◌∷◌, ◌==◌, if◌then◌else◌,
}
use any_sync_sdk.Dict.{Dict, insert, delete, lookup, string_key}

pub record AddrBook : Type 0 where
  -- whether Init has set the peer service
  pub attached : Bool
  pub lan : Dict String (List String)
  pub tickets : Dict String String
  pub calls : List (String × List String)

abbrev pub new_addr_book : AddrBook
new_addr_book = record { attached = false; lan = []; tickets = []; calls = [] }

unfoldable pub init : AddrBook → AddrBook
init b = record { attached = true; lan = b.lan; tickets = b.tickets; calls = b.calls }

abbrev pub set_peer_addrs : String → List String → AddrBook → AddrBook
set_peer_addrs peer addrs b = record {
  attached = b.attached;
  lan = b.lan;
  tickets = b.tickets;
  calls = (peer, addrs) ∷ b.calls;
}

abbrev pub iroh_address : String → String → String
iroh_address iroh ticket = (iroh ++ "://") ++ ticket

unfoldable pub apply_locked : String → String → AddrBook → AddrBook
apply_locked iroh peer b =
    if b.attached
    then elim (lookup peer b.lan) [
      | some addrs ↦ set_peer_addrs peer addrs b
      | none ↦ elim (lookup peer b.tickets) [
        | some ticket ↦ set_peer_addrs peer (iroh_address iroh ticket ∷ []) b
        | none ↦ set_peer_addrs peer [] b
      ]
    ]
    else b

abbrev pub with_lan : String → List String → AddrBook → AddrBook
with_lan peer addrs b = record {
  attached = b.attached;
  lan = elim addrs [ [] ↦ delete peer b.lan | a ∷ rest ↦ insert peer (a ∷ rest) b.lan ];
  tickets = b.tickets;
  calls = b.calls;
}

unfoldable pub set_lan : String → String → List String → AddrBook → AddrBook
set_lan iroh peer addrs b = apply_locked iroh peer (with_lan peer addrs b)

unfoldable pub clear_lan : String → String → AddrBook → AddrBook
clear_lan iroh peer b = set_lan iroh peer [] b

abbrev pub with_ticket : String → String → AddrBook → AddrBook
with_ticket peer ticket b = record {
  attached = b.attached;
  lan = b.lan;
  tickets = if ticket == "" then delete peer b.tickets else insert peer ticket b.tickets;
  calls = b.calls;
}

unfoldable pub set_ticket : String → String → String → AddrBook → AddrBook
set_ticket iroh peer ticket b = apply_locked iroh peer (with_ticket peer ticket b)

unfoldable pub clear_ticket : String → String → AddrBook → AddrBook
clear_ticket iroh peer b = set_ticket iroh peer "" b

unfoldable pub ticket_of : String → AddrBook → String
ticket_of peer b = elim (lookup peer b.tickets) [ some ticket ↦ ticket | none ↦ "" ]

unfoldable pub has_lan : String → AddrBook → Bool
has_lan peer b = elim (lookup peer b.lan) [ some _ ↦ true | none ↦ false ]
