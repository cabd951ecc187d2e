-- ===== src/Kext/Afg.antt =====
-- The AFG keep-alive in jackPoll of kext/LatSOFAudio/LatSOFAudioDevice.cpp, which puts the codec's
-- audio function group back in D0, over the Immediate Command Interface.
pub mod Discipline
use lat_sofaudio.Prelude.{
  ℕ, zero, suc, ◌+◌, ◌*◌, ◌/◌, ◌%◌, ◌^◌, Bool, true, false, not, ◌&&◌, ◌||◌, Option, none, some,
  List, [], ◌∷◌, if◌then◌else◌, ◌==◌, leb, ltb,
}
use lat_sofaudio.Kext.Types.{Mmio}
use lat_sofaudio.Kext.Registers.{
  Sd, not_decoding, quiet, running, programmed, out_sd, output_sd_busy_state, Ici, IciResult,
  ici_verb,
}

-- kHdaVerb()
unfoldable pub hda_verb : ℕ → ℕ → ℕ → ℕ
hda_verb nid verb payload = nid * 2 ^ 20 + verb * 2 ^ 8 + payload

-- `a ^ b` of n bits
unfoldable pub xor : ℕ → ℕ → ℕ → ℕ
xor zero a b = 0
xor (suc n) a b = (a + b) % 2 + 2 * xor n (a / 2) (b / 2)

-- The verbs that the keep-alive puts on the link.
pub data Verb : Type 0 where
  get_pin_sense get_power set_power_d0 : Verb

-- The words iciVerb writes for them.
unfoldable pub word : Verb → ℕ
word get_pin_sense = hda_verb 33 3849 0
word get_power = hda_verb 1 3845 0
word set_power_d0 = hda_verb 1 1797 0

-- The latches gAfg…, with the verbs put on the link so far, newest first. `last_sd` is none where
-- gAfgLastSd is -2.
pub record Afg : Type 0 where
  pub kext_wake : Bool
  pub last_sd : Option Sd
  pub last_sig : ℕ
  pub sense_tick : ℕ
  pub jack_was_in : Bool
  pub belt_tick : ℕ
  pub ici_fails : ℕ
  pub wakes : ℕ
  pub probed : Bool
  pub verbs : List Verb

-- What a tick meets: BAR0, and the interface at the read of the jack, the read of the power state and
-- its correction.
pub record AfgTick : Type 0 where
  pub bar0 : Mmio
  pub sense : Ici
  pub power : Ici
  pub correction : Ici

unfoldable pub is_run : Sd → Bool
is_run running = true
is_run quiet = false
is_run programmed = false
is_run not_decoding = false

-- `sd > 0`
unfoldable pub is_armed : Sd → Bool
is_armed running = true
is_armed programmed = true
is_armed quiet = false
is_armed not_decoding = false

unfoldable pub is_decoding : Sd → Bool
is_decoding running = true
is_decoding programmed = true
is_decoding quiet = true
is_decoding not_decoding = false

-- `sd != gAfgLastSd`, for a controller that decodes
unfoldable pub is_new : Sd → Option Sd → Bool
is_new running (some running) = false
is_new programmed (some programmed) = false
is_new quiet (some quiet) = false
is_new _ _ = true

-- bdl ^ cbl ^ (fmt << 1)
unfoldable pub signature : Mmio → ℕ
signature m =
    let o = out_sd (m.rd16 0) in
    xor 32 (xor 32 (m.rd32 (o + 24)) (m.rd32 (o + 8))) (m.rd16 (o + 18) * 2)

unfoldable pub issue : Verb → Ici → Afg → Afg
issue v i a = if (ici_verb i).issued then record a { verbs = v ∷ a.verbs } else a

-- The descriptor's part: whether the engine was rebuilt, and what is remembered of it.
unfoldable pub is_rebuild : Sd → ℕ → Afg → Bool
is_rebuild sd sig a = is_armed sd && (is_new sd a.last_sd || not (sig == a.last_sig))

unfoldable pub remember : Sd → ℕ → Afg → Afg
remember sd sig a = if is_decoding sd then record a { last_sd = some sd; last_sig = sig } else a

-- The slow check while the output runs.
unfoldable pub is_belt : Sd → Afg → Bool
is_belt sd a = is_run sd && leb 20 (a.belt_tick + 1)

unfoldable pub count_belt : Sd → Bool → Afg → Afg
count_belt sd reset a =
    if reset
    then record a { belt_tick = 0 }
    else if is_run sd
    then record a { belt_tick = a.belt_tick + 1 }
    else a

-- The jack: whether this tick reads it, what the read shows, and whether it is an insertion.
unfoldable pub reads_jack : Sd → Afg → Bool
reads_jack sd a = not (is_run sd) && leb 2 (a.sense_tick + 1)

unfoldable pub present : ℕ → Bool
present sense = sense / 2 ^ 31 % 2 == 1

unfoldable pub is_insertion : Option ℕ → Afg → Bool
is_insertion (some sense) a = present sense && not a.jack_was_in
is_insertion none a = false

unfoldable pub see_jack : Option ℕ → Afg → Afg
see_jack (some sense) a = record a { jack_was_in = present sense }
see_jack none a = a

unfoldable pub sense_jack : Sd → Ici → Afg → Afg
sense_jack sd i a =
    if reads_jack sd a
    then see_jack (ici_verb i).response (issue get_pin_sense i (record a { sense_tick = 0 }))
    else if is_run sd
    then a
    else record a { sense_tick = a.sense_tick + 1 }

-- The power state's read, and its correction where bits 7:4, the actual state, are not D0.
unfoldable pub is_down : ℕ → Bool
is_down ps = not (ps / 16 % 16 == 0)

unfoldable pub correct : Ici → Ici → Option ℕ → Afg → Afg
correct power fix (some ps) a =
    let seen = record a { ici_fails = 0; probed = true } in
    if is_down ps
    then (let issued = issue set_power_d0 fix seen in
        record issued { wakes = (issued.wakes + 1) % 2 ^ 32 })
    else seen
correct power fix none a = record a { ici_fails = a.ici_fails + 1 }

unfoldable pub check_power : Ici → Ici → Afg → Afg
check_power power fix a = correct power fix (ici_verb power).response (issue get_power power a)

-- Why a tick looks at the power state.
unfoldable pub is_triggered : AfgTick → Afg → Bool
is_triggered t a =
    let sd = output_sd_busy_state t.bar0 in
    is_rebuild sd (signature t.bar0) a
    || is_belt sd a
    || reads_jack sd a && is_insertion (ici_verb t.sense).response a

-- A tick without the check of the power state.
unfoldable pub sensed : AfgTick → Afg → Afg
sensed t a =
    let sd = output_sd_busy_state t.bar0 in
    let sig = signature t.bar0 in
    sense_jack sd t.sense (count_belt sd (is_rebuild sd sig a || is_belt sd a) (remember sd sig a))

-- The keep-alive's part of one tick.
unfoldable pub keep_alive : Bool → AfgTick → Afg → Afg
keep_alive hda_base t a =
    if a.kext_wake && hda_base && ltb a.ici_fails 8
    then (if is_triggered t a then check_power t.power t.correction (sensed t a) else sensed t a)
    else a
