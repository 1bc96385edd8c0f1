-- ===== src/Crdt/Lifecycle/Stamps.antt =====
-- internal/crdt/apply.go, stampAddSeq and stampApplySeq: the sequence stamps of a record only rise.
use Prim.Native.Nat.{max}
use any_sync_sdk.Base.{
  ℕ, ◌<◌, String, ◌≡◌, Option, none, some, arith, eq_refl, eqb, inl, inr, Option-cases,
  if◌then◌else◌,
}
use any_sync_sdk.Anyenc.{Anyenc}
use any_sync_sdk.Anyenc.{object}
use any_sync_sdk.Crdt.Lifecycle.{
  stamp, stamp_of, add_seq_field, apply_seq_field, stamp_add_seq, stamp_apply_seq,
}

-- The specification: the larger of the old stamp and the sequence; 0 stamps nothing.
abbrev pub raised : Option ℕ → ℕ → Option ℕ
raised none seq = if eqb seq 0 then none else some seq
raised (some cur) seq = some (max cur seq)

module _ ⦃E : Anyenc⦄ where
  open E use {
    Value, view, get, put, to_int, of_int, new_number, get-put, view-new_number, to_int-of_int,
  }

  stamp_of-put :
      (rec : Value) (field : String) (seq : ℕ)
      → view rec ≡ object
      → seq < 9007199254740992
      → stamp_of (put rec field (new_number (of_int seq))) field ≡ some seq
  stamp_of-put rec field seq h b = ground (
    arith,
    get-put rec field field (new_number (of_int seq)),
    eq_refl field,
    view-new_number (of_int seq),
    to_int-of_int seq,
  )

  stamp_of-stamp :
      (rec : Value) (field : String) (seq : ℕ)
      → view rec ≡ object
      → seq < 9007199254740992
      → stamp_of (stamp field rec seq) field ≡ raised (stamp_of rec field) seq
  stamp_of-stamp rec field seq h b = elim (Option-cases (stamp_of rec field)) [
    | inl e ↦ ground (arith, stamp_of-put rec field seq h b)
    | inr (cur, e) ↦ ground (arith, stamp_of-put rec field seq h b)
  ]

  -- A sequence that a float64 holds exactly raises its own stamp to the larger of the two values,
  -- whatever order the sequences come in; 0 leaves the stamp as it was.
  pub stamps_raise :
      (rec : Value) (seq : ℕ)
      → view rec ≡ object
      → seq < 9007199254740992
      → (stamp_of (stamp_add_seq rec seq) add_seq_field ≡ raised (stamp_of rec add_seq_field) seq)
        × (stamp_of (stamp_apply_seq rec seq) apply_seq_field
            ≡ raised (stamp_of rec apply_seq_field) seq)
  unfolding stamp_add_seq stamp_apply_seq
  stamps_raise rec seq h b =
      (stamp_of-stamp rec add_seq_field seq h b, stamp_of-stamp rec apply_seq_field seq h b)
