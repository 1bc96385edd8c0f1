-- ===== src/AddrBook/Latest.antt =====
-- internal/p2p/addrbook.go: what the peer service holds for a peer, after any sequence of calls.
use any_sync_sdk.Base.{
  String, ◌≡◌, refl, true, false, Option, none, some, List, [], ◌∷◌, ◌==◌, if◌then◌else◌, arith,
  eq_iff, inl, inr, Bool-cases, subst, ◌∙◌,
}
use any_sync_sdk.Dict.{
  lookup, string_key, lookup-insert, lookup-insert_ne, lookup-delete, lookup-delete_ne, same_refl,
}
use any_sync_sdk.AddrBook.{
  AddrBook, apply_locked, set_lan, clear_lan, set_ticket, clear_ticket, iroh_address, with_lan,
  with_ticket, init, new_addr_book,
}

pub data Command : Type 0 where
  lan_call : String → List String → Command
  lan_clear : String → Command
  ticket_call : String → String → Command
  ticket_clear : String → Command

unfoldable pub step : String → Command → AddrBook → AddrBook
step iroh (lan_call peer addrs) b = set_lan iroh peer addrs b
step iroh (lan_clear peer) b = clear_lan iroh peer b
step iroh (ticket_call peer ticket) b = set_ticket iroh peer ticket b
step iroh (ticket_clear peer) b = clear_ticket iroh peer b

unfoldable pub run : String → List Command → AddrBook → AddrBook
run iroh [] b = b
run iroh (c ∷ cs) b = run iroh cs (step iroh c b)

-- What the peer service holds: the addresses of the latest call, none before the first.
abbrev pub registered : String → List (String × List String) → List String
registered peer [] = []
registered peer ((p, addrs) ∷ calls) = if peer == p then addrs else registered peer calls

-- The specification: of each peer, what the latest call of each kind said.
pub record Said : Type 0 where
  pub lan : List String
  pub ticket : String

abbrev pub hear : String → Command → Said → Said
hear peer (lan_call p addrs) s = if peer == p then record { lan = addrs; ticket = s.ticket } else s
hear peer (lan_clear p) s = if peer == p then record { lan = []; ticket = s.ticket } else s
hear peer (ticket_call p t) s = if peer == p then record { lan = s.lan; ticket = t } else s
hear peer (ticket_clear p) s = if peer == p then record { lan = s.lan; ticket = "" } else s

abbrev pub heard : String → List Command → Said → Said
heard peer [] s = s
heard peer (c ∷ cs) s = heard peer cs (hear peer c s)

abbrev pub addresses : String → Said → List String
addresses iroh s = elim s.lan [
  | a ∷ rest ↦ a ∷ rest
  | [] ↦ if s.ticket == "" then [] else iroh_address iroh s.ticket ∷ []
]

-- The book and the service know what was said of the peer.
abbrev pub lan_entry : List String → Option (List String)
lan_entry [] = none
lan_entry (a ∷ rest) = some (a ∷ rest)

abbrev pub ticket_entry : String → Option String
ticket_entry t = if t == "" then none else some t

abbrev pub Tells : String → String → Said → AddrBook → Type 0
Tells iroh peer s b =
    (b.attached ≡ true)
    × (lookup peer b.lan ≡ lan_entry s.lan)
    × (lookup peer b.tickets ≡ ticket_entry s.ticket)
    × (registered peer b.calls ≡ addresses iroh s)

apply_locked-Tells :
    (iroh peer : String) (xs : List String) (t : String) (b : AddrBook)
    → b.attached ≡ true
    → lookup peer b.lan ≡ lan_entry xs
    → lookup peer b.tickets ≡ ticket_entry t
    → Tells iroh peer (record { lan = xs; ticket = t }) (apply_locked iroh peer b)
unfolding apply_locked
apply_locked-Tells iroh peer [] t b a l h = ground (arith, same_refl peer)
apply_locked-Tells iroh peer (x ∷ xs) t b a l h = ground (arith, same_refl peer)

apply_locked-Tells_ne :
    (iroh peer p : String) (s : Said) (b : AddrBook)
    → (peer == p) ≡ false
    → Tells iroh peer s b
    → Tells iroh peer s (apply_locked iroh p b)
unfolding apply_locked
apply_locked-Tells_ne iroh peer p s b n (a, l, h, r) = ground arith

lookup-with_lan :
    (peer : String) (addrs : List String) (b : AddrBook)
    → lookup peer (with_lan peer addrs b).lan ≡ lan_entry addrs
lookup-with_lan peer [] b = lookup-delete peer b.lan
lookup-with_lan peer (x ∷ xs) b = lookup-insert peer (x ∷ xs) b.lan

lookup-with_lan_ne :
    (peer p : String) (addrs : List String) (b : AddrBook)
    → (peer == p) ≡ false
    → lookup peer (with_lan p addrs b).lan ≡ lookup peer b.lan
lookup-with_lan_ne peer p [] b n = lookup-delete_ne p peer b.lan n
lookup-with_lan_ne peer p (x ∷ xs) b n = lookup-insert_ne p (x ∷ xs) peer b.lan n

lookup-with_ticket :
    (peer t : String) (b : AddrBook) → lookup peer (with_ticket peer t b).tickets ≡ ticket_entry t
lookup-with_ticket peer t b =
    ground (arith, lookup-delete peer b.tickets, lookup-insert peer t b.tickets)

lookup-with_ticket_ne :
    (peer p t : String) (b : AddrBook)
    → (peer == p) ≡ false
    → lookup peer (with_ticket p t b).tickets ≡ lookup peer b.tickets
lookup-with_ticket_ne peer p t b n =
    ground (arith, lookup-delete_ne p peer b.tickets n, lookup-insert_ne p t peer b.tickets n)

set_lan-Tells :
    (iroh peer p : String) (addrs : List String) (s : Said) (b : AddrBook)
    → Tells iroh peer s b
    → Tells iroh peer (hear peer (lan_call p addrs) s) (set_lan iroh p addrs b)
unfolding set_lan
set_lan-Tells iroh peer p addrs s b (a, l, h, r) = elim (Bool-cases (peer == p)) [
  | inl e ↦
      subst (λ q. Tells iroh peer (hear peer (lan_call q addrs) s) (set_lan iroh q addrs b))
        ((eq_iff peer p).0 e)
        (rw (same_refl peer) (
          apply_locked-Tells iroh peer addrs s.ticket (with_lan peer addrs b) a
            (lookup-with_lan peer addrs b) h))
  | inr n ↦ rw n (
      apply_locked-Tells_ne iroh peer p s (with_lan p addrs b) n
        (a, lookup-with_lan_ne peer p addrs b n ∙ l, h, r))
]

set_ticket-Tells :
    (iroh peer p t : String) (s : Said) (b : AddrBook)
    → Tells iroh peer s b
    → Tells iroh peer (hear peer (ticket_call p t) s) (set_ticket iroh p t b)
unfolding set_ticket
set_ticket-Tells iroh peer p t s b (a, l, h, r) = elim (Bool-cases (peer == p)) [
  | inl e ↦
      subst (λ q. Tells iroh peer (hear peer (ticket_call q t) s) (set_ticket iroh q t b))
        ((eq_iff peer p).0 e)
        (rw (same_refl peer) (
          apply_locked-Tells iroh peer s.lan t (with_ticket peer t b) a l
            (lookup-with_ticket peer t b)))
  | inr n ↦ rw n (
      apply_locked-Tells_ne iroh peer p s (with_ticket p t b) n
        (a, l, lookup-with_ticket_ne peer p t b n ∙ h, r))
]

step-Tells :
    (iroh peer : String) (c : Command) (s : Said) (b : AddrBook)
    → Tells iroh peer s b
    → Tells iroh peer (hear peer c s) (step iroh c b)
unfolding step clear_lan clear_ticket
step-Tells iroh peer (lan_call p addrs) s b t = set_lan-Tells iroh peer p addrs s b t
step-Tells iroh peer (lan_clear p) s b t = set_lan-Tells iroh peer p [] s b t
step-Tells iroh peer (ticket_call p x) s b t = set_ticket-Tells iroh peer p x s b t
step-Tells iroh peer (ticket_clear p) s b t = set_ticket-Tells iroh peer p "" s b t

run-Tells :
    (iroh peer : String) (cs : List Command) (s : Said) (b : AddrBook)
    → Tells iroh peer s b
    → Tells iroh peer (heard peer cs s) (run iroh cs b)
unfolding run
run-Tells iroh peer [] s b t = t
run-Tells iroh peer (c ∷ cs) s b t =
    run-Tells iroh peer cs (hear peer c s) (step iroh c b) (step-Tells iroh peer c s b t)

-- After any sequence of calls on a new address book that Init has connected to the peer service, the
-- service holds for a peer what the latest calls about that peer say: the LAN addresses where the
-- latest ones are not empty, else the address of the latest ticket where it is not empty, else none.
pub registered-run :
    (iroh peer : String) (cs : List Command)
    → registered peer (run iroh cs (init new_addr_book)).calls
      ≡ addresses iroh (heard peer cs (record { lan = []; ticket = "" }))
unfolding init
registered-run iroh peer cs =
    (run-Tells iroh peer cs (record { lan = []; ticket = "" }) (init new_addr_book)
      (refl, refl, refl, refl)).3
