-- ===== src/Kext/Ticks/GiveUp.antt =====
-- The retry engine ends: twelve failed attempts, each after a bounded wait.
use lat_sofaudio.Prelude.{
  ◌+◌, ◌≤◌, ◌<◌, ◌≡◌, ◌⊎◌, inl, inr, sym, subst, Bool, true, false, not, ◌&&◌, List, [], ◌∷◌,
  length, branch, leb, arith,
}
use lat_sofaudio.Kext.Types.{Dsp}
use lat_sofaudio.Kext.State.{Kext}
use lat_sofaudio.Kext.Registers.{Sd, not_decoding, quiet, running, programmed, output_sd_busy_state}
use lat_sofaudio.Kext.Capture.{send}
use lat_sofaudio.Kext.Init.{Attempt, Tried, init_dsp, load, settle}
use lat_sofaudio.Kext.Retry.{retry, round, conclude, give_up, count_wait, attempts}
use lat_sofaudio.Kext.Driver.{Tick, jack_poll}
use lat_sofaudio.Kext.Resume.{execute_resume}
use lat_sofaudio.Kext.Ticks.{polls, execute_resume-unready, leaves_room, can_succeed, ticks_left}

-- A tick at which the output leaves room, but an attempt cannot succeed.
unfoldable pub fails : Tick → Bool
fails t = leaves_room (output_sd_busy_state t.bar0) && not (can_succeed t.attempt)

unfoldable pub all_fail : List Tick → Bool
all_fail [] = true
all_fail (t ∷ ts) = fails t && all_fail ts

-- What a failed attempt leaves as it was.
record IsFailed (t : Tried) (k : Kext) : Type 0 where
  refused : t.ok ≡ false
  unready : t.device.hw_ready ≡ false
  present :
      t.device.pci_device && t.device.hda_base && t.device.dsp_base
      ≡ k.pci_device && k.hda_base && k.dsp_base
  tries : t.device.tries ≡ k.tries
  waits : t.device.programmed_waits ≡ k.programmed_waits
  divider : t.device.tick_divider ≡ k.tick_divider
  latched : t.device.reinit_pending ≡ true

init_dsp-IsFailed :
    (a : Attempt) (k : Kext)
    → can_succeed a ≡ false
    → k.hw_ready ≡ false
    → k.reinit_pending ≡ true
    → IsFailed (init_dsp a k) k
unfolding init_dsp load settle send can_succeed
init_dsp-IsFailed a k c r p = ground arith

-- The retry engine with an attempt left.
pub record IsTrying (k : Kext) : Type 0 where
  pub pending : k.reinit_pending ≡ true
  pub unready : k.hw_ready ≡ false
  pub present : k.pci_device && k.hda_base && k.dsp_base ≡ true
  pub tries : k.tries ≤ 11
  pub divider : k.tick_divider ≤ 2

-- The retries are over.
record IsOver (k : Kext) : Type 0 where
  ended : k.reinit_pending ≡ false
  unready : k.hw_ready ≡ false

-- One tick ends the retries, or leaves at least one tick fewer.
record IsCloser (k' k : Kext) : Type 0 where
  trying : IsTrying k'
  closer : ticks_left k' < ticks_left k

conclude-IsCloser :
    (dsp : Dsp) (t : Tried) (w k : Kext)
    → IsFailed t w
    → IsTrying k
    → w.pci_device && w.hda_base && w.dsp_base ≡ true
    → w.tries ≡ k.tries + 1
    → w.tick_divider ≡ 0
    → IsOver (conclude dsp t) ⊎ IsCloser (conclude dsp t) k
unfolding conclude give_up ticks_left
conclude-IsCloser dsp t w k f h p n d = ground arith

-- The round's count of the wait, and what it means that the round makes no attempt.
record IsCounted (w k : Kext) : Type 0 where
  unready : w.hw_ready ≡ false
  pending : w.reinit_pending ≡ true
  present : w.pci_device && w.hda_base && w.dsp_base ≡ true
  tries : w.tries ≡ k.tries
  divider : w.tick_divider ≡ 0

count_wait-IsCounted :
    (sd : Sd) (k : Kext) → IsTrying k → IsCounted (count_wait sd (record k { tick_divider = 0 })) k
unfolding count_wait
count_wait-IsCounted quiet k h = ground arith
count_wait-IsCounted programmed k h = ground arith
count_wait-IsCounted running k h = ground arith
count_wait-IsCounted not_decoding k h = ground arith

wait-IsCloser :
    (sd : Sd) (k : Kext)
    → leaves_room sd ≡ true
    → IsTrying k
    → leb 3 (k.tick_divider + 1) ≡ true
    → attempts sd (count_wait sd (record k { tick_divider = 0 })) ≡ false
    → IsCloser (give_up (count_wait sd (record k { tick_divider = 0 }))) k
unfolding count_wait attempts give_up ticks_left leaves_room
wait-IsCloser quiet k r h d a = ground arith
wait-IsCloser programmed k r h d a = ground arith
wait-IsCloser running k r h d a = ground arith
wait-IsCloser not_decoding k r h d a = ground arith

round-IsCloser :
    (sd : Sd) (a : Attempt) (dsp : Dsp) (k : Kext)
    → leaves_room sd ≡ true
    → can_succeed a ≡ false
    → IsTrying k
    → leb 3 (k.tick_divider + 1) ≡ true
    → let k' = round sd a dsp (record k { tick_divider = 0 }) in IsOver k' ⊎ IsCloser k' k
unfolding round
round-IsCloser sd a dsp k r c h d =
    let w = count_wait sd (record k { tick_divider = 0 }) in
    let n = count_wait-IsCounted sd k h in
    branch (λ (k' : Kext). IsOver k' ⊎ IsCloser k' k) (attempts sd w)
      (λ _.
        conclude-IsCloser dsp _ (record w { tries = w.tries + 1 }) k
          (init_dsp-IsFailed a (record w { tries = w.tries + 1 }) c n.unready n.pending) h n.present
          (ground arith) n.divider)
      (λ o. inr (wait-IsCloser sd k r h d o))

later-IsCloser :
    (k : Kext)
    → IsTrying k
    → leb 3 (k.tick_divider + 1) ≡ false
    → IsCloser (record k { tick_divider = k.tick_divider + 1 }) k
unfolding ticks_left
later-IsCloser k h d = ground arith

retry-IsCloser :
    (t : Tick) (dsp : Dsp) (k : Kext)
    → fails t ≡ true
    → IsTrying k
    → let k' = retry t.bar0 t.attempt dsp k in IsOver k' ⊎ IsCloser k' k
unfolding retry fails
retry-IsCloser t dsp k f h =
    branch (λ (k' : Kext). IsOver k' ⊎ IsCloser k' k)
      (k.reinit_pending && not k.hw_ready && k.pci_device && k.hda_base && k.dsp_base)
      (λ _.
        branch (λ (k' : Kext). IsOver k' ⊎ IsCloser k' k) (leb 3 (k.tick_divider + 1))
          (λ d.
            round-IsCloser (output_sd_busy_state t.bar0) t.attempt dsp k (ground arith)
              (ground arith) h d)
          (λ d. inr (later-IsCloser k h d)))
      (λ n. inl (ground arith))

tick-IsCloser :
    (t : Tick) (dsp : Dsp) (k : Kext)
    → fails t ≡ true
    → IsTrying k
    → let k' = jack_poll t dsp k in IsOver k' ⊎ IsCloser k' k
unfolding jack_poll
tick-IsCloser t dsp k f h =
    let same = λ (u : (retry t.bar0 t.attempt dsp k).hw_ready ≡ false).
      sym (execute_resume-unready t.power t.family dsp (retry t.bar0 t.attempt dsp k) u) in
    elim (retry-IsCloser t dsp k f h) [
      | inl o ↦ inl (subst IsOver (same o.unready) o)
      | inr c ↦ inr (subst (λ k'. IsCloser k' k) (same c.trying.unready) c)
    ]

idle : (t : Tick) (dsp : Dsp) (k : Kext) → IsOver k → IsOver (jack_poll t dsp k)
unfolding jack_poll retry
idle t dsp k o =
    branch (λ (k' : Kext). IsOver (execute_resume t.power t.family dsp k'))
      (k.reinit_pending && not k.hw_ready && k.pci_device && k.hda_base && k.dsp_base)
      (λ c. ground arith)
      (λ _. subst IsOver (sym (execute_resume-unready t.power t.family dsp k o.unready)) o)

-- Once the retries are over, further ticks start none.
polls-idle : (dsp : Dsp) (ts : List Tick) (k : Kext) → IsOver k → IsOver (polls dsp ts k)
unfolding polls
polls-idle dsp [] k o = o
polls-idle dsp (t ∷ ts) k o = polls-idle dsp ts _ (idle t dsp k o)

-- From a device whose rebuild is pending with an attempt left: as many ticks as are left, at each of
-- which the output is read without RUN and the attempt cannot succeed, end the retries.
pub polls-gives_up :
    (dsp : Dsp) (ts : List Tick) (k : Kext)
    → IsTrying k
    → all_fail ts ≡ true
    → ticks_left k ≤ length ts
    → (polls dsp ts k).reinit_pending ≡ false
unfolding polls all_fail ticks_left
polls-gives_up dsp [] k h f n = ground arith
polls-gives_up dsp (t ∷ ts) k h f n = elim (tick-IsCloser t dsp k (ground arith) h) [
  | inl o ↦ (polls-idle dsp ts _ o).ended
  | inr c ↦ polls-gives_up dsp ts _ c.trying (ground arith) (ground arith)
]
