-- ===== src/Plugin/Io/Sessions.antt =====
-- What StartIO and StopIO of plugin/LatSOFAudioPlugin.c ask of the kernel extension: a session while
-- a client does IO.
use lat_sofaudio.Prelude.{◌≡◌, Bool, true, false, not, List, [], ◌∷◌, ◌==◌, arith}
use lat_sofaudio.Plugin.Floats.{Floats}
use lat_sofaudio.Plugin.State.{
  PlugIn, KextCall, start_capture, stop_capture, map_capture, unmap_capture, update_spib,
}
use lat_sofaudio.Plugin.Io.{start_io, stop_io}
use lat_sofaudio.Plugin.Io.Clients.{IoCall, starts, stops, call, observe, run}

-- Whether the last request of the capture, newest first, is its start.
unfoldable pub wants_capture : List KextCall → Bool
wants_capture [] = false
wants_capture (start_capture ∷ cs) = true
wants_capture (stop_capture ∷ cs) = false
wants_capture (map_capture a ∷ cs) = wants_capture cs
wants_capture (unmap_capture a ∷ cs) = wants_capture cs
wants_capture (update_spib n ∷ cs) = wants_capture cs

module _ {fl : Floats} where
  -- A connected plug-in that wants the capture exactly while a client does IO.
  pub record IsConnected (s : PlugIn fl) : Type 0 where
    pub free : s.state_mutex ≡ false
    pub connected : (s.connection == 0) ≡ false
    pub wants : wants_capture s.kext_calls ≡ not (s.io_is_running == 0)

  call-IsConnected :
      (s : PlugIn fl) (c : IoCall) → IsConnected s → IsConnected (observe s (call c s)).1
  unfolding call start_io stop_io wants_capture
  call-IsConnected s (starts k) h = ground arith
  call-IsConnected s stops h = ground arith

  pub run-IsConnected :
      (s : PlugIn fl) (cs : List IoCall) → IsConnected s → IsConnected (run s cs).1
  unfolding run
  run-IsConnected s [] h = h
  run-IsConnected s (c ∷ cs) h =
      run-IsConnected (observe s (call c s)).1 cs (call-IsConnected s c h)
