-- ===== src/Plugin/Property/Sound.antt =====
-- When a Get handler keeps to its contract: it stores no more than the buffer holds, and reports
-- what it stored.
use lat_sofaudio.Prelude.{
  ℕ, ◌≤◌, ◌≡◌, refl, Bool, true, false, not, Option, none, some, inl, inr, ◌⊎◌, List, length,
}
use lat_sofaudio.Plugin.Types.{
  ObjectId, Address, Selector, Status, is_driver, unknown_property, bad_object, illegal_operation,
}
use lat_sofaudio.Plugin.Floats.{Floats}
use lat_sofaudio.Plugin.State.{PlugIn}
use lat_sofaudio.Plugin.Monad.{M, Exit, returned, failed, blocked, crashed, ◌>>=◌}
use lat_sofaudio.Plugin.Property.{
  Abi, Request, Reply, Item, bytes, checks, check_get, check_set, SetRequest,
}

-- The selector of a request, if it has an address.
abbrev pub asked : Option Address → Option Selector
asked none = none
asked (some a) = some a.selector

module _ {fl : Floats} where
  -- A call with room for `n` bytes ends: it fails, or stores at most `n` bytes and reports their
  -- number.
  abbrev pub IsSound : Abi → ℕ → Exit (PlugIn fl) (Reply fl) → Type 0
  IsSound abi n (returned r s) = (bytes abi r.items ≤ n) × (r.size ≡ some (bytes abi r.items))
  IsSound abi n (failed e s) = Unit {0}
  IsSound abi n blocked = ⊥
  IsSound abi n crashed = ⊥

  -- It stores at most `n` bytes.
  abbrev pub Fits : Abi → ℕ → Exit (PlugIn fl) (Reply fl) → Type 0
  Fits abi n (returned r s) = bytes abi r.items ≤ n
  Fits abi n (failed e s) = Unit {0}
  Fits abi n blocked = Unit {0}
  Fits abi n crashed = Unit {0}

  -- What *outDataSize holds after a call, if the call stored it.
  abbrev pub reported : Exit (PlugIn fl) (Reply fl) → Option ℕ
  reported (returned r s) = r.size
  reported (failed e s) = none
  reported blocked = none
  reported crashed = none

  -- What a call stored at `outData`, if it returns.
  abbrev pub stored : Exit (PlugIn fl) (Reply fl) → Option (List (Item fl))
  stored (returned r s) = some r.items
  stored (failed e s) = none
  stored blocked = none
  stored crashed = none

  -- How many changed properties a Set handler reports, if it returns.
  abbrev pub reports : Exit (PlugIn fl) (List Address) → Option ℕ
  reports (returned l s) = some (length l)
  reports (failed e s) = none
  reports blocked = none
  reports crashed = none

  -- The checks fail, or pass the address on; they change nothing.
  abbrev pub Checked : Option Address → Exit (PlugIn fl) Address → PlugIn fl → Type 0
  Checked o e s =
      ((err : Status) × (e ≡ failed err s)) ⊎ ((a : Address) × (e ≡ returned a s) × (o ≡ some a))

  checks-Checked :
      (foreign : Bool) (o : Option Address) (b c other : Bool) (s : PlugIn fl)
      → Checked o (checks foreign o b c other s) s
  unfolding checks
  checks-Checked true o b c other s = inl (bad_object, refl)
  checks-Checked false none b c other s = inl (illegal_operation, refl)
  checks-Checked false (some a) true c other s = inl (illegal_operation, refl)
  checks-Checked false (some a) false true other s = inl (illegal_operation, refl)
  checks-Checked false (some a) false false true s = inl (bad_object, refl)
  checks-Checked false (some a) false false false s = inr (a, refl, refl)

  pub check_get-Checked :
      (mine : ObjectId → Bool) (r : Request fl) (s : PlugIn fl)
      → Checked r.address (check_get mine r s) s
  unfolding check_get
  check_get-Checked mine r s =
      checks-Checked (not (is_driver r.driver)) r.address (not r.size_place) (not r.data_place)
        (not (mine r.object)) s

  -- What holds of every error and of the handler behind the checks holds of both together.
  pub check_get-cases {ℓ} :
      (P : Exit (PlugIn fl) (Reply fl) → Type ℓ) (mine : ObjectId → Bool) (r : Request fl)
      (f : Address → M fl (Reply fl)) (s : PlugIn fl)
      → ((e : Status) → P (failed e s))
      → ((a : Address) → r.address ≡ some a → P (f a s))
      → P ((check_get mine r >>= f) s)
  check_get-cases P mine r f s err ok = elim (check_get-Checked mine r s) [
    | inl (e, h) ↦ rw (h, ◌>>=◌) (err e)
    | inr (a, h, o) ↦ rw (h, ◌>>=◌) (ok a o)
  ]

  -- Likewise of a Set handler.
  pub check_set-cases {ℓ} :
      (P : Exit (PlugIn fl) (List Address) → Type ℓ) (mine : ObjectId → Bool) (r : SetRequest fl)
      (f : Address → M fl (List Address)) (s : PlugIn fl)
      → ((e : Status) → P (failed e s))
      → ((a : Address) → P (f a s))
      → P ((check_set mine r >>= f) s)
  unfolding check_set
  check_set-cases P mine r f s err ok =
      elim (checks-Checked (not (is_driver r.driver)) r.address (not r.count_place)
        (not r.addresses_place) (not (mine r.object)) s) [
          | inl (e, h) ↦ rw (h, ◌>>=◌) (err e)
          | inr (a, h, o) ↦ rw (h, ◌>>=◌) (ok a)
        ]

  -- What a call ends with.
  abbrev pub returns : {A : Type 0} → Exit (PlugIn fl) A → Bool
  returns (returned a s) = true
  returns (failed e s) = false
  returns blocked = false
  returns crashed = false

  -- The call ends with kAudioHardwareUnknownPropertyError.
  abbrev pub is_unknown : {A : Type 0} → Exit (PlugIn fl) A → Bool
  is_unknown (failed unknown_property s) = true
  is_unknown _ = false

  abbrev pub answers_yes : Exit (PlugIn fl) Bool → Bool
  answers_yes (returned b s) = b
  answers_yes (failed e s) = false
  answers_yes blocked = false
  answers_yes crashed = false

  -- The call ends, with the state mutex as `held` says.
  abbrev pub Leaves : {A : Type 0} → Bool → Exit (PlugIn fl) A → Type 0
  Leaves held (returned a s) = s.state_mutex ≡ held
  Leaves held (failed e s) = s.state_mutex ≡ held
  Leaves held blocked = ⊥
  Leaves held crashed = ⊥
