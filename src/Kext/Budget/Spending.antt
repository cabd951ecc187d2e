-- ===== src/Kext/Budget/Spending.antt =====
-- What the ticks of kext/LatSOFAudio/LatSOFAudioDevice.cpp spend of the attempts.
use lat_sofaudio.Prelude.{ℕ, ◌+◌, ◌≤◌, ◌≡◌, Bool, true, false, not, ◌&&◌, branch, leb, arith}
use lat_sofaudio.Kext.Types.{Mmio, is_success, Dsp}
use lat_sofaudio.Kext.State.{Kext}
use lat_sofaudio.Kext.Registers.{Sd, quiet, running, programmed, not_decoding, output_sd_busy_state}
use lat_sofaudio.Kext.Capture.{send, start_capture_gated}
use lat_sofaudio.Kext.Init.{Attempt, Tried, init_dsp, load, settle, make_ready}
use lat_sofaudio.Kext.Retry.{retry, round, conclude, rearm, give_up, count_wait, attempts}
use lat_sofaudio.Kext.Budget.{
  count_loads, attempts_left, IsBudgeted, IsSpent, start_capture_gated-IsSpent,
}

pub IsSpent-trans : {a b c : Kext} → IsSpent a b → IsSpent b c → IsSpent a c
IsSpent-trans p q = let b = p.budget in record { budget = b; spent = omega_trans p.spent q.spent }
  where
    omega_trans : {x y z : ℕ} → x ≤ y → y ≤ z → x ≤ z
    omega_trans u v = omega arith

-- The device after a start that failed or not, of which only latches change.
pub unlatch-IsSpent :
    (k' k : Kext) (w r : Bool) (n : ℕ)
    → IsSpent k' k
    → IsSpent (record k' { was_capturing = w; resume_pending = r; resume_tries = n }) k
unfolding attempts_left
unlatch-IsSpent k' k w r n h = let b = h.budget in let s = h.spent in ground arith

init_dsp-IsSpent :
    (a : Attempt) (k : Kext)
    → k.hw_ready ≡ false
    → k.is_capturing ≡ false
    → k.reinit_pending ≡ true
    → k.cap_dma_buf && k.cap_bdl_buf ≡ true
    → let t = init_dsp a k in
      (count_loads t.device.sent ≤ count_loads k.sent + 1)
      × (t.device.hw_ready ≡ t.ok)
      × (t.device.is_capturing ≡ false)
      × (t.device.reinit_pending ≡ true)
      × (t.device.cap_dma_buf && t.device.cap_bdl_buf ≡ true)
      × (t.device.recovery_episodes ≡ k.recovery_episodes)
      × (t.device.tries ≡ k.tries)
unfolding init_dsp load settle make_ready send count_loads
init_dsp-IsSpent a k r c p b = ground arith

-- An attempt's outcome, against the device before it.
record IsTried (t : Tried) (k : Kext) : Type 0 where
  loads : count_loads t.device.sent ≤ count_loads k.sent + 1
  ready : t.device.hw_ready ≡ t.ok
  idle : t.device.is_capturing ≡ false
  pending : t.device.reinit_pending ≡ true
  buffers : t.device.cap_dma_buf && t.device.cap_bdl_buf ≡ true
  episodes : t.device.recovery_episodes ≡ k.recovery_episodes
  tries : t.device.tries ≡ k.tries + 1

-- A device that waits for its rebuild, with an attempt left.
record IsWaiting (k : Kext) : Type 0 where
  unready : k.hw_ready ≡ false
  idle : k.is_capturing ≡ false
  pending : k.reinit_pending ≡ true
  buffers : k.cap_dma_buf && k.cap_bdl_buf ≡ true
  tries : k.tries ≤ 11

rearm-IsSpent : (dsp : Dsp) (k : Kext) → IsBudgeted k → k.hw_ready ≡ true → IsSpent (rearm dsp k) k
unfolding rearm
rearm-IsSpent dsp k b r =
    let s = start_capture_gated-IsSpent dsp k b r in
    branch (λ (k' : Kext). IsSpent k' k) k.was_capturing
      (λ _.
        branch (λ (k' : Kext). IsSpent k' k) (is_success (start_capture_gated dsp k).status)
          (λ _. unlatch-IsSpent _ k false _ _ s) (λ _. s))
      (λ _. record { budget = b; spent = omega arith })

conclude-IsSpent :
    (dsp : Dsp) (t : Tried) (k : Kext) → IsTried t k → IsWaiting k → IsSpent (conclude dsp t) k
unfolding conclude give_up attempts_left
conclude-IsSpent dsp t k h w =
    branch (λ (k' : Kext). IsSpent k' k) t.ok
      (λ o.
        IsSpent-trans
          (rearm-IsSpent dsp (record t.device { reinit_pending = false }) (ground arith)
            (ground arith))
          (ground arith))
      (λ n. ground arith)

count_wait-IsWaiting :
    (sd : Sd) (k : Kext)
    → IsWaiting k
    → let w = count_wait sd k in
      IsWaiting w
      × (w.sent ≡ k.sent)
      × (w.recovery_episodes ≡ k.recovery_episodes)
      × (w.tries ≡ k.tries)
unfolding count_wait
count_wait-IsWaiting quiet k h = ground arith
count_wait-IsWaiting programmed k h = ground arith
count_wait-IsWaiting running k h = ground arith
count_wait-IsWaiting not_decoding k h = ground arith

round-IsSpent :
    (sd : Sd) (a : Attempt) (dsp : Dsp) (k : Kext) → IsWaiting k → IsSpent (round sd a dsp k) k
unfolding round give_up attempts_left
round-IsSpent sd a dsp k h =
    let w = count_wait sd k in
    let (u, s, e, n) = count_wait-IsWaiting sd k h in
    let same : IsSpent w k = ground arith in
    IsSpent-trans
      (branch (λ (k' : Kext). IsSpent k' w) (attempts sd w)
        (λ _.
          let w' = record w { tries = w.tries + 1 } in
          let i = init_dsp-IsSpent a w' u.unready u.idle u.pending u.buffers in
          conclude-IsSpent dsp (init_dsp a w') w (ground arith) u)
        (λ _. ground arith))
      same

divided : (k : Kext) (n : ℕ) → IsBudgeted k → IsSpent (record k { tick_divider = n }) k
unfolding attempts_left
divided k n h = ground arith

pub retry-IsSpent :
    (m : Mmio) (a : Attempt) (dsp : Dsp) (k : Kext) → IsBudgeted k → IsSpent (retry m a dsp k) k
unfolding retry
retry-IsSpent m a dsp k h =
    branch (λ (k' : Kext). IsSpent k' k)
      (k.reinit_pending && not k.hw_ready && k.pci_device && k.hda_base && k.dsp_base)
      (λ c.
        branch (λ (k' : Kext). IsSpent k' k) (leb 3 (k.tick_divider + 1))
          (λ _.
            IsSpent-trans
              (round-IsSpent (output_sd_busy_state m) a dsp (record k { tick_divider = 0 })
                (ground arith))
              (divided k 0 h))
          (λ _. divided k (k.tick_divider + 1) h))
      (λ _. record { budget = h; spent = omega arith })
