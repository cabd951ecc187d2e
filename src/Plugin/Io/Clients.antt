-- ===== src/Plugin/Io/Clients.antt =====
-- StartIO and StopIO as a count of clients: what any sequence of their calls returns.
use lat_sofaudio.Prelude.{
  ℕ, ◌+◌, ◌-◌, ◌≡◌, refl, false, true, List, [], ◌∷◌, ◌==◌, if◌then◌else◌, arith,
}
use lat_sofaudio.Plugin.Types.{driver_ref, device, Status, illegal_operation}
use lat_sofaudio.Plugin.Floats.{Floats}
use lat_sofaudio.Plugin.State.{PlugIn}
use lat_sofaudio.Plugin.Monad.{M, Exit, returned, failed, blocked, crashed}
use lat_sofaudio.Plugin.Io.{KextAnswers, u64_max, start_io, stop_io}

-- A call of the HAL on the device, with what IOKit answers meanwhile.
pub data IoCall : Type 0 where
  starts : KextAnswers → IoCall
  stops : IoCall

-- What the HAL sees of a call.
pub data Reply : Type 0 where
  ok hangs crashes : Reply
  error : Status → Reply

-- The contract: an overflow and an underflow of the count are errors that leave it.
pub count : ℕ → IoCall → Reply × ℕ
count n (starts k) = if n == u64_max then (error illegal_operation, n) else (ok, n + 1)
count n stops = if n == 0 then (error illegal_operation, n) else (ok, n - 1)

pub count_run : ℕ → List IoCall → List Reply × ℕ
count_run n [] = ([], n)
count_run n (c ∷ cs) = let (r, n') = count n c in let (rs, m) = count_run n' cs in (r ∷ rs, m)

module _ {fl : Floats} where
  unfoldable pub call : IoCall → M fl (Unit {0})
  call (starts k) = start_io driver_ref device k
  call stops = stop_io driver_ref device

  -- A call that hangs leaves the globals to the others.
  abbrev pub observe : PlugIn fl → Exit (PlugIn fl) (Unit {0}) → Reply × PlugIn fl
  observe s (returned _ s') = (ok, s')
  observe s (failed e s') = (error e, s')
  observe s blocked = (hangs, s)
  observe s crashed = (crashes, s)

  unfoldable pub run : PlugIn fl → List IoCall → List Reply × PlugIn fl
  run s [] = ([], s)
  run s (c ∷ cs) = let (r, s') = observe s (call c s) in let (rs, t) = run s' cs in (r ∷ rs, t)

  call-count :
      (s : PlugIn fl) (c : IoCall)
      → s.state_mutex ≡ false
      → let (r, s') = observe s (call c s) in
        ((r, s'.io_is_running) ≡ count s.io_is_running c) × (s'.state_mutex ≡ false)
  unfolding call start_io stop_io count
  call-count s (starts k) h = ground arith
  call-count s stops h = ground arith

  -- A sequence of StartIO and StopIO calls on the device, with any answers of IOKit, from a state
  -- whose mutex is free, replies as the count of clients does, ends with that count in
  -- gDevice_IOIsRunning, and leaves the mutex free.
  pub run-count_run :
      (s : PlugIn fl) (cs : List IoCall)
      → s.state_mutex ≡ false
      → let (rs, t) = run s cs in
        ((rs, t.io_is_running) ≡ count_run s.io_is_running cs) × (t.state_mutex ≡ false)
  unfolding run count_run
  run-count_run s [] h = (refl, h)
  run-count_run s (c ∷ cs) h =
      ground (arith, call-count s c h, run-count_run (observe s (call c s)).1 cs)

  -- StartIO waits while the mutex is held.
  pub start_io-blocked :
      (k : KextAnswers) (s : PlugIn fl)
      → s.state_mutex ≡ true
      → start_io driver_ref device k s ≡ blocked
  unfolding start_io
  start_io-blocked k s h = ground arith
