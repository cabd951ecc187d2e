-- ===== src/Setrate/Devices/Settled.antt =====
-- When pin_all() of contrib/latsof-setrate.c writes a rate, and what is right after it.
use lat_sofaudio.Prelude.{
  ◌≡◌, refl, Bool, true, false, not, ◌&&◌, ◌||◌, Option, none, some, List, [], ◌∷◌, arith,
}
use lat_sofaudio.Setrate.Devices.{
  Rates, Device, target_rate, list_devices, differs, any_wrong, rate_is_wrong, Action, skip, report,
  already, write, action, after, pin_devices, pin_all,
}

-- A write among the actions.
unfoldable pub any_write : {rt : Rates} → List (Action rt) → Bool
any_write [] = false
any_write (skip ∷ acts) = any_write acts
any_write (report ∷ acts) = any_write acts
any_write (already ∷ acts) = any_write acts
any_write (write ∷ acts) = true

module _ (rt : Rates) where
  open rt use {Rate, eq, zero_rate}

  -- Whether a target's rate was wrong and its write has not taken effect.
  unfoldable pub any_refused : (Device rt → Bool) → Rate → List (Device rt) → Bool
  any_refused takes want [] = false
  any_refused takes want (d ∷ ds) =
      differs rt want (target_rate rt d) && not (takes d) || any_refused takes want ds

  any_write-cons :
      (verbose : Bool) (want : Rate) (o : Option Rate) (acts : List (Action rt))
      → any_write (action rt verbose want o ∷ acts)
        ≡ (not (eq want zero_rate) && differs rt want o || any_write acts)
  unfolding any_write action differs
  any_write-cons verbose want none acts = ground arith
  any_write-cons true want (some r) acts = ground arith
  any_write-cons false want (some r) acts = ground arith

  any_write-pin_devices :
      (takes : Device rt → Bool) (verbose : Bool) (want : Rate) (ds : List (Device rt))
      → any_write (pin_devices rt takes verbose want ds).0
        ≡ (not (eq want zero_rate) && any_wrong rt want ds)
  unfolding pin_devices any_wrong
  any_write-pin_devices takes verbose want [] = unfold any_write in ground arith
  any_write-pin_devices takes verbose want (d ∷ ds) =
      let rest = any_write-pin_devices takes verbose want ds in
      let first =
        any_write-cons verbose want (target_rate rt d) (pin_devices rt takes verbose want ds).0 in
      ground arith

  after-differs :
      (takes : Device rt → Bool) (verbose : Bool) (want : Rate) (d : Device rt)
      → eq want want ≡ true
      → eq want zero_rate ≡ false
      → differs rt want
          (target_rate rt (after rt takes want d (action rt verbose want (target_rate rt d))))
        ≡ (differs rt want (target_rate rt d) && not (takes d))
  unfolding differs target_rate after action
  after-differs takes verbose want d s z = ground arith

  any_wrong-pin_devices :
      (takes : Device rt → Bool) (verbose : Bool) (want : Rate) (ds : List (Device rt))
      → eq want want ≡ true
      → eq want zero_rate ≡ false
      → any_wrong rt want (pin_devices rt takes verbose want ds).1 ≡ any_refused takes want ds
  unfolding pin_devices any_wrong any_refused
  any_wrong-pin_devices takes verbose want [] s z = refl
  any_wrong-pin_devices takes verbose want (d ∷ ds) s z =
      let rest = any_wrong-pin_devices takes verbose want ds s z in
      let first = after-differs takes verbose want d s z in ground arith

  -- pin_all() writes a rate exactly where a rate is asked for and a target's rate is wrong, so that
  -- the notifications of its own writes make no further ones.
  pub pin_all-any_write :
      (takes : Device rt → Bool) (verbose : Bool) (want : Rate) (all : Option (List (Device rt)))
      → any_write (pin_all rt takes verbose want all).0
        ≡ (not (eq want zero_rate) && rate_is_wrong rt want all)
  unfolding pin_all rate_is_wrong
  pin_all-any_write takes verbose want all =
      any_write-pin_devices takes verbose want (list_devices rt all)

  -- For a rate that is asked for, equal to itself and not 0, whichever writes fail or take effect
  -- later: after pin_all() a rate that can be read of a target among the first 64 devices is wrong
  -- exactly if one was wrong before whose write has not taken effect.
  pub pin_all-settles :
      (takes : Device rt → Bool) (verbose : Bool) (want : Rate) (all : Option (List (Device rt)))
      → eq want want ≡ true
      → eq want zero_rate ≡ false
      → any_wrong rt want (pin_all rt takes verbose want all).1
        ≡ any_refused takes want (list_devices rt all)
  unfolding pin_all
  pin_all-settles takes verbose want all s z =
      any_wrong-pin_devices takes verbose want (list_devices rt all) s z
