-- ===== src/Afgwake/Tests.antt =====
-- A witness for the rule of contrib/latsof-afgwake.c, on a codec that is found in D3.
use lat_sofaudio.Prelude.{◌≡◌, true, false, ◌||◌, if◌then◌else◌, none, some, List, [], ◌∷◌}
use lat_sofaudio.Afgwake.{Codec, Notice, jack_is_connected, other_property, changes, timer}
use lat_sofaudio.Afgwake.Modes.{mode, main}
use lat_sofaudio.Afgwake.Modes.Exits.{is_allowed, is_unused, main-is_allowed}

-- It answers 0x33 to whatever it is sent: D3 is asked for, and D3 is the state.
abbrev sleeper : Codec
sleeper = record { opens = λ s. true; answers = λ s. some 51 }

-- A jack event, a change while a device runs, and a timer tick with nothing running.
abbrev an_evening : List Notice
an_evening =
    changes (other_property ∷ jack_is_connected ∷ []) none
    ∷ changes (other_property ∷ []) (some (some 0 ∷ none ∷ some 1 ∷ []))
    ∷ timer (some (some 0 ∷ []))
    ∷ []

main-is_allowed_example :
    let e = main sleeper ("--status" ∷ []) none none an_evening in
    (is_allowed (mode ("--status" ∷ [])) e.tool.log ≡ true)
    × (e.tool.port ≡ false)
    × (e.code ≡ (if sleeper.opens [] then 0 else 1))
    × (sleeper.opens [] || is_unused e.tool.log ≡ true)
main-is_allowed_example = main-is_allowed sleeper ("--status" ∷ []) none none an_evening
