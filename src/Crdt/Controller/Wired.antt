-- ===== src/Crdt/Controller/Wired.antt =====
-- internal/crdt/controller.go, registerHandler: no stamper's dataset is keyed, whatever is registered.
use any_sync_sdk.Base.{
  String, true, false, not, ◌&&◌, ◌≡◌, ◌≢◌, List, [], ◌∷◌, ◌++◌, Option, none, some, arith,
  Bool-cases, Option-cases, inl, inr, All, ◌==◌, eq_iff,
}
use any_sync_sdk.Dict.{string_key, lookup, lookup-insert_lem, lookup-insert}
use any_sync_sdk.Crdt.Controller.{
  Controller, HandlerReg, RegisterError, Stamper, is_keyed, is_shared, is_member, has_no_field,
  register_tables, register_keyed, register_stamper, register_dataset, register_handler,
  register_all, new_controller,
}

module _ {V : Type 0} where
  -- A stamper's dataset has a handler and is not keyed.
  abbrev pub IsPlaced : Controller V → String × Stamper V → Type 0
  IsPlaced c st = (is_member st.0 c.keyed ≡ false) × (lookup st.0 c.handlers ≢ none)

  abbrev pub IsWired : Controller V → Type 0
  IsWired c = All (IsPlaced c) c.object_stampers

  carry :
      (c d : Controller V) (sts : List (String × Stamper V))
      → ((st : String × Stamper V) → IsPlaced c st → IsPlaced d st)
      → All (IsPlaced c) sts
      → All (IsPlaced d) sts
  carry c d [] f a = tt
  carry c d (st ∷ sts) f (p, a) = (f st p, carry c d sts f a)

  All-append_one :
      (c : Controller V) (sts : List (String × Stamper V)) (st : String × Stamper V)
      → All (IsPlaced c) sts
      → IsPlaced c st
      → All (IsPlaced c) (sts ++ st ∷ [])
  All-append_one c [] st a p = (p, tt)
  All-append_one c (x ∷ xs) st (q, a) p = (q, All-append_one c xs st a p)

  -- A dataset without a handler so far is none that a stamper stands for.
  tables-IsPlaced :
      (c : Controller V) (reg : HandlerReg V) (st : String × Stamper V)
      → IsPlaced c st
      → IsPlaced (register_tables c reg) st
  unfolding register_tables
  tables-IsPlaced c reg st (k, h) =
      (k, λ e. ground (arith, lookup-insert_lem reg.name reg.handler st.0 c.handlers))

  keyed-IsPlaced :
      (c : Controller V) (reg : HandlerReg V) (st : String × Stamper V)
      → lookup reg.name c.handlers ≡ none
      → IsPlaced c st
      → IsPlaced (register_keyed (register_tables c reg) reg) st
  unfolding register_tables
  keyed-IsPlaced c reg st fresh (k, h) = (
    ground (arith, eq_iff reg.name st.0),
    λ e. ground (arith, lookup-insert_lem reg.name reg.handler st.0 c.handlers),
  )

  unkeyed :
      (c : Controller V) (name : String) → is_shared c name ≡ true → is_member name c.keyed ≡ false
  unfolding is_shared is_keyed
  unkeyed c name h = ground arith

  add_stamper-IsWired :
      (c : Controller V) (st : String × Stamper V)
      → IsPlaced c st
      → IsWired c
      → IsWired (record c { object_stampers = c.object_stampers ++ st ∷ [] })
  add_stamper-IsWired c st p w =
      let d = record c { object_stampers = c.object_stampers ++ st ∷ [] } in
      carry c d (c.object_stampers ++ st ∷ []) (λ st' q. q)
        (All-append_one c c.object_stampers st w p)

  stamper-IsWired :
      (c : Controller V) (reg : HandlerReg V)
      → lookup reg.name c.handlers ≢ none
      → IsWired c
      → IsWired (register_stamper c reg)
  unfolding register_stamper
  stamper-IsWired c reg held w = elim (Option-cases reg.stamper) [
    | inl e ↦ rw e w
    | inr (st, e) ↦ elim (Bool-cases (is_shared c reg.name)) [
      | inl f ↦ rw (e, f) (add_stamper-IsWired c (reg.name, st) (unkeyed c reg.name f, held) w)
      | inr f ↦ rw (e, f) w
    ]
  ]

  registered :
      (c : Controller V) (reg : HandlerReg V)
      → lookup reg.name (register_tables c reg).handlers ≢ none
  unfolding register_tables
  registered c reg h = ground (arith, lookup-insert reg.name reg.handler c.handlers)

  dataset-IsWired :
      (c : Controller V) (reg : HandlerReg V)
      → lookup reg.name c.handlers ≡ none
      → IsWired c
      → IsWired (register_dataset c reg).0
  unfolding register_tables register_stamper
  dataset-IsWired c reg fresh w =
      let tables = register_tables c reg in
      let keyed = register_keyed tables reg in
      let after_tables : IsWired tables =
        carry c tables c.object_stampers (tables-IsPlaced c reg) w in
      let after_keyed : IsWired keyed =
        carry c keyed c.object_stampers (λ st. keyed-IsPlaced c reg st fresh) w in
      elim (Option-cases reg.init_error) [
        | inr (e, q) ↦ rw q w
        | inl q ↦ elim (Bool-cases (reg.keyed && not (is_member reg.name c.shared))) [
          | inl b ↦ rw (q, b) after_tables
          | inr b ↦ rw (q, b) (stamper-IsWired keyed reg (registered c reg) after_keyed)
        ]
      ]

  register_handler-IsWired :
      (c : Controller V) (reg : HandlerReg V) → IsWired c → IsWired (register_handler c reg).0
  unfolding register_handler
  register_handler-IsWired c reg w = elim (Bool-cases (reg.name == "")) [
    | inl e ↦ rw e w
    | inr e ↦ elim (Option-cases (lookup reg.name c.handlers)) [
      | inr (h, q) ↦ rw (e, q) w
      | inl q ↦ elim (Bool-cases (has_no_field reg.fields && not reg.dynamic)) [
        | inl b ↦ rw (e, q, b) w
        | inr b ↦ rw (e, q, b) (dataset-IsWired c reg q w)
      ]
    ]
  ]

  stop_or_go :
      (c : Controller V) (err : Option RegisterError) (rest : Controller V × Option RegisterError)
      → IsWired c
      → IsWired rest.0
      → IsWired
          (elim err as (λ e. Controller V × Option RegisterError) [
            | some e ↦ (c, some e)
            | none ↦ rest
          ]).0
  stop_or_go c none rest w v = v
  stop_or_go c (some e) rest w v = w

  -- No stamper of a controller that any registrations built stands for a keyed dataset.
  pub register_all-IsWired :
      (c : Controller V) (regs : List (HandlerReg V)) → IsWired c → IsWired (register_all c regs).0
  unfolding register_all
  register_all-IsWired c [] w = w
  register_all-IsWired c (reg ∷ regs) w =
      let (c', err) = register_handler c reg in
      let w' = register_handler-IsWired c reg w in
      stop_or_go c' err (register_all c' regs) w' (register_all-IsWired c' regs w')

pub new_controller-IsWired :
    (V : Type 0) (object_id : String) (shared : List String)
    → IsWired {V = V} (new_controller object_id shared)
unfolding new_controller
new_controller-IsWired V object_id shared = tt
