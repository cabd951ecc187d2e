-- ===== src/Kext/Afg/Discipline.antt =====
-- The discipline of the AFG keep-alive of kext/LatSOFAudio/LatSOFAudioDevice.cpp: when it talks to the
-- codec, when it corrects, and when it retires.
use lat_sofaudio.Prelude.{
  ℕ, ◌+◌, ◌-◌, ◌≤◌, ◌≡◌, Bool, true, false, ◌&&◌, ◌||◌, Option, none, some, is_none, List, [], ◌∷◌,
  if◌then◌else◌, branch, ltb, arith,
}
use lat_sofaudio.Kext.Registers.{Sd, output_sd_busy_state, Ici, ici_verb}
use lat_sofaudio.Kext.Afg.{
  Verb, get_pin_sense, get_power, set_power_d0, Afg, AfgTick, signature, is_rebuild, is_belt,
  reads_jack, remember, count_belt, issue, see_jack, sense_jack, is_down, correct, check_power,
  is_triggered, sensed, keep_alive,
}

-- The power states read and set.
unfoldable pub count_gets : List Verb → ℕ
count_gets [] = 0
count_gets (get_power ∷ vs) = count_gets vs + 1
count_gets (set_power_d0 ∷ vs) = count_gets vs
count_gets (get_pin_sense ∷ vs) = count_gets vs

unfoldable pub count_sets : List Verb → ℕ
count_sets [] = 0
count_sets (set_power_d0 ∷ vs) = count_sets vs + 1
count_sets (get_power ∷ vs) = count_sets vs
count_sets (get_pin_sense ∷ vs) = count_sets vs

-- The descriptor's and the jack's part neither read nor set a power state.
record IsPassive (b a : Afg) : Type 0 where
  gets : count_gets b.verbs ≡ count_gets a.verbs
  sets : count_sets b.verbs ≡ count_sets a.verbs
  fails : b.ici_fails ≡ a.ici_fails
  wake : b.kext_wake ≡ a.kext_wake

see_jack-IsPassive : (r : Option ℕ) (a b : Afg) → IsPassive b a → IsPassive (see_jack r b) a
unfolding see_jack
see_jack-IsPassive none a b h = h
see_jack-IsPassive (some s) a b h = ground arith

sense_jack-IsPassive :
    (sd : Sd) (i : Ici) (a b : Afg) → IsPassive b a → IsPassive (sense_jack sd i b) a
unfolding sense_jack issue count_gets count_sets
sense_jack-IsPassive sd i a b h =
    branch (λ (c : Afg). IsPassive c a) (reads_jack sd b)
      (λ _.
        see_jack-IsPassive (ici_verb i).response a
          (issue get_pin_sense i (record b { sense_tick = 0 })) (ground arith))
      (λ _. ground arith)

seen-IsPassive :
    (sd : Sd) (sig : ℕ) (r : Bool) (a : Afg) → IsPassive (count_belt sd r (remember sd sig a)) a
unfolding count_belt remember
seen-IsPassive sd sig r a = ground arith

-- The interface answers with a state that is not D0.
unfoldable pub answers_down : Option ℕ → Bool
unfolding is_down
answers_down none = false
answers_down (some ps) = is_down ps

-- Whether the keep-alive works at this tick.
unfoldable pub is_active : Bool → Afg → Bool
is_active hda_base a = a.kext_wake && hda_base && ltb a.ici_fails 8

unfoldable pub one_if : Bool → ℕ
one_if true = 1
one_if false = 0

-- A correction, on what the read answered.
correct-counts :
    (power fix : Ici) (r : Option ℕ) (b : Afg)
    → let c = correct power fix r b in
      (count_gets c.verbs ≡ count_gets b.verbs)
      × (count_sets c.verbs ≡ count_sets b.verbs + one_if (answers_down r && (ici_verb fix).issued))
      × (c.ici_fails ≡ (if is_none r then b.ici_fails + 1 else 0))
      × (c.kext_wake ≡ b.kext_wake)
unfolding correct issue count_gets count_sets answers_down one_if
correct-counts power fix none b = ground arith
correct-counts power fix (some ps) b = ground arith

-- What a check of the power state adds to a device that differs passively.
check_power-counts :
    (power fix : Ici) (a b : Afg)
    → IsPassive b a
    → let c = check_power power fix b in
      (count_gets c.verbs ≡ count_gets a.verbs + one_if (ici_verb power).issued)
      × (count_sets c.verbs
          ≡ count_sets a.verbs
            + one_if (answers_down (ici_verb power).response && (ici_verb fix).issued))
      × (c.ici_fails ≡ (if is_none (ici_verb power).response then a.ici_fails + 1 else 0))
      × (c.kext_wake ≡ a.kext_wake)
unfolding check_power issue count_gets count_sets one_if
check_power-counts power fix a b h =
    let c = correct-counts power fix (ici_verb power).response (issue get_power power b) in
    ground arith

sensed-IsPassive : (t : AfgTick) (a : Afg) → IsPassive (sensed t a) a
unfolding sensed
sensed-IsPassive t a =
    let sd = output_sd_busy_state t.bar0 in
    sense_jack-IsPassive sd t.sense a _
      (seen-IsPassive sd (signature t.bar0) (is_rebuild sd (signature t.bar0) a || is_belt sd a) a)

-- What one tick adds to the reads and the writes of a power state.
pub keep_alive-counts :
    (hda_base : Bool) (t : AfgTick) (a : Afg)
    → let b = keep_alive hda_base t a in
      let looks = is_active hda_base a && is_triggered t a in
      (count_gets b.verbs ≡ count_gets a.verbs + one_if (looks && (ici_verb t.power).issued))
      × (count_sets b.verbs
          ≡ count_sets a.verbs
            + one_if (
                looks
                && answers_down (ici_verb t.power).response
                && (ici_verb t.correction).issued))
unfolding keep_alive is_active one_if
keep_alive-counts hda_base t a =
    let p = sensed-IsPassive t a in
    let c = check_power-counts t.power t.correction a (sensed t a) p in ground arith

-- A tick at which the read of the power state is not answered, whatever else it meets.
unfoldable pub is_silent : AfgTick → Bool
is_silent t = is_none (ici_verb t.power).response

unfoldable pub keep_alives : List AfgTick → Afg → Afg
keep_alives [] a = a
keep_alives (t ∷ ts) a = keep_alives ts (keep_alive true t a)

unfoldable pub all_silent : List AfgTick → Bool
all_silent [] = true
all_silent (t ∷ ts) = is_silent t && all_silent ts

keep_alive-spends :
    (t : AfgTick) (a : Afg)
    → is_silent t ≡ true
    → let b = keep_alive true t a in
      (count_gets b.verbs + (8 - b.ici_fails) ≤ count_gets a.verbs + (8 - a.ici_fails))
      × (count_sets b.verbs ≡ count_sets a.verbs)
unfolding keep_alive is_silent one_if answers_down
keep_alive-spends t a s =
    let p = sensed-IsPassive t a in
    let c = check_power-counts t.power t.correction a (sensed t a) p in ground arith

-- On a controller whose interface never answers the read of the power state: however many ticks come,
-- the keep-alive sends that read at most eight times, less its failures so far, and never sets a
-- power state.
pub keep_alives-retires :
    (ts : List AfgTick) (a : Afg)
    → all_silent ts ≡ true
    → let b = keep_alives ts a in
      (count_gets b.verbs ≤ count_gets a.verbs + (8 - a.ici_fails))
      × (count_sets b.verbs ≡ count_sets a.verbs)
unfolding keep_alives all_silent
keep_alives-retires [] a s = ground arith
keep_alives-retires (t ∷ ts) a s =
    let h = keep_alive-spends t a (ground arith) in
    let r = keep_alives-retires ts (keep_alive true t a) (ground arith) in ground arith
