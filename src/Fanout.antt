-- ===== src/Fanout.antt =====
-- internal/fanout/fanout.go: the registry behind the callback feeds. A registered callback is a value
-- of the type `C`, nil is none; the cancel that Add returns is the number that it deletes, none for
-- the one that does nothing. The mutex makes an operation one step, and Dispatch calls what it finds
-- under the lock.
pub mod Feed
use Prim.Native.Nat.{◌%◌}
use any_sync_sdk.Base.{
  ℕ, suc, ◌+◌, ◌<◌, Bool, true, false, not, Option, none, some, List, [], ◌∷◌, length, map, eqb,
  leb,
}
use any_sync_sdk.Dict.{Dict, insert, delete, number_key}

pub record Registry (C : Type 0) : Type 0 where
  pub next : ℕ
  pub closed : Bool
  pub subs : Dict ℕ C

module _ {C : Type 0} where
  abbrev pub new : Registry C
  new = record { next = 0; closed = false; subs = [] }

  abbrev pub register : C → Registry C → Registry C × Option ℕ
  register cb r =
      let id = (r.next + 1) % 18446744073709551616 in
      (record { next = id; closed = r.closed; subs = insert id cb r.subs }, some id)

  unfoldable pub add : Option C → Registry C → Registry C × Option ℕ
  add none r = (r, none)
  add (some cb) r = elim r.closed [ true ↦ (r, none) | false ↦ register cb r ]

  unfoldable pub cancel : Option ℕ → Registry C → Registry C
  cancel none r = r
  cancel (some id) r = record { next = r.next; closed = r.closed; subs = delete id r.subs }

  -- The callbacks that an event goes to.
  unfoldable pub dispatch : Registry C → List C
  dispatch r = map (λ e. e.1) r.subs

  unfoldable pub has_subscribers : Registry C → Bool
  has_subscribers r = not (eqb (length r.subs) 0)

  unfoldable pub close : Registry C → Registry C
  close r = record { next = r.next; closed = true; subs = [] }
