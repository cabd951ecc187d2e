-- ===== src/Setrate/Tests.antt =====
-- Examples for the resident mode of contrib/latsof-setrate.c.
use lat_sofaudio.Prelude.{ℕ, ◌≡◌, refl, true, false, Option, none, some, List, [], ◌∷◌, ◌==◌, ltb}
use lat_sofaudio.Setrate.{Event, changes, ticks, started}
use lat_sofaudio.Setrate.Devices.{
  Rates, target_uid, Device, list_devices, any_wrong, pin_all, Resident, on_notice,
}
use lat_sofaudio.Setrate.Devices.Settled.{any_refused, pin_all-settles}
use lat_sofaudio.Setrate.Devices.Watching.{has, names, IsSynced, notices, notices-IsExact}

-- A jack is plugged; the rate is wrong at once, and still is nine seconds later.
abbrev plugging : List Event
plugging = changes 20000 ∷ ticks true 21000 21001 ∷ ticks true 29000 29050 ∷ []

-- Whole hertz.
abbrev hertz : Rates
hertz = record {
  Rate = ℕ;
  eq = λ a b. a == b;
  zero_rate = 0;
  is_positive = λ a. ltb 0 a;
  atof = λ t. 48000;
}

-- The analog output at 44.1 kHz, a microphone, and a device whose UID cannot be read.
abbrev desk : Option (List (Device hertz))
desk = some (
    record { id = 40; uid = some target_uid; rate = some 44100 }
    ∷ record { id = 41; uid = some (b'm' ∷ b'i' ∷ b'c' ∷ []); rate = some 16000 }
    ∷ record { id = 42; uid = none; rate = some 44100 }
    ∷ [])

pin_all-settles_example :
    any_wrong hertz 48000 (pin_all hertz (λ d. false) false 48000 desk).1
    ≡ any_refused hertz (λ d. false) 48000 (list_devices hertz desk)
pin_all-settles_example = pin_all-settles hertz (λ d. false) false 48000 desk refl refl

abbrev unheard : Resident hertz
unheard = record {
  watcher = started;
  listeners = record { rate_of = λ j. false; source_of = λ j. false; watched = [] };
}

unheard-IsSynced : IsSynced hertz unheard.listeners
unfolding has
unheard-IsSynced = record { rate_of = λ j. refl; source_of = λ j. refl }

notices-IsExact_example :
    let l =
      (on_notice hertz 9000 desk
        (notices hertz ((8000, none) ∷ (8500, desk) ∷ []) unheard)).listeners in
    let there = names hertz 40 (list_devices hertz desk) in
    (l.rate_of 40 ≡ there) × (l.source_of 40 ≡ there) × (has 40 l.watched ≡ there)
notices-IsExact_example =
    notices-IsExact hertz ((8000, none) ∷ (8500, desk) ∷ []) 9000 desk unheard unheard-IsSynced 40
