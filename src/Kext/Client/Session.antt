-- ===== src/Kext/Client/Session.antt =====
-- The plug-in of plugin/LatSOFAudioPlugin.c and the kernel extension together: what StartIO and StopIO
-- ask of the user client, and the session that the driver holds for them.
use lat_sofaudio.Prelude.{◌≡◌, ◌∙◌, true, false, not, List, [], ◌∷◌, ◌==◌, arith}
use lat_sofaudio.Plugin.Floats.{Floats}
use lat_sofaudio.Plugin.State.{PlugIn, KextCall, map_capture, unmap_capture, update_spib}
use lat_sofaudio.Plugin.State as plugin
use lat_sofaudio.Plugin.Io.Clients.{IoCall, run}
use lat_sofaudio.Plugin.Io.Sessions.{wants_capture, run-IsConnected}
use lat_sofaudio.Kext.Types.{Dsp}
use lat_sofaudio.Kext.State.{Kext}
use lat_sofaudio.Kext.Capture.{
  stop_capture_gated, close_pcm, halt_stream, couple, schedule_dsp_recovery, send,
}
use lat_sofaudio.Kext.Driver.{start_capture, stop_capture}
use lat_sofaudio.Kext.Demand.{is_held, start_capture_gated-held, start_capture_gated-gate}
use lat_sofaudio.Kext.Client.{
  Positions, of_done, dispatch, external_method, scalars_in, scalars_out,
}

-- IOConnectCallScalarMethod and the memory calls, as the user client gets them.
unfoldable pub serve : Positions → Dsp → KextCall → Kext → Kext
serve p dsp plugin.start_capture k = (external_method p dsp 4 0 0 k).device
serve p dsp plugin.stop_capture k = (external_method p dsp 5 0 0 k).device
serve p dsp (map_capture a) k = k
serve p dsp (unmap_capture a) k = k
serve p dsp (update_spib n) k = (external_method p dsp 3 1 0 k).device

-- All calls so far, newest first.
unfoldable pub serve_all : Positions → Dsp → List KextCall → Kext → Kext
serve_all p dsp [] k = k
serve_all p dsp (c ∷ cs) k = serve p dsp c (serve_all p dsp cs k)

-- The driver behind an open gate holds a session exactly where one was asked for.
record IsServing (p : Positions) (dsp : Dsp) (cs : List KextCall) (k : Kext) : Type 0 where
  gate : (serve_all p dsp cs k).command_gate ≡ true
  holds : is_held (serve_all p dsp cs k) ≡ wants_capture cs

pub stop_capture_gated-releases :
    (dsp : Dsp) (k : Kext)
    → let k' = (stop_capture_gated dsp k).device in
      (k'.command_gate ≡ k.command_gate) × (is_held k' ≡ false)
unfolding stop_capture_gated close_pcm halt_stream couple schedule_dsp_recovery send is_held
stop_capture_gated-releases dsp k = ground arith

serve_all-IsServing :
    (p : Positions) (dsp : Dsp) (cs : List KextCall) (k : Kext)
    → k.command_gate ≡ true
    → is_held k ≡ false
    → IsServing p dsp cs k
unfolding serve_all serve external_method dispatch of_done scalars_in scalars_out start_capture
    stop_capture wants_capture
serve_all-IsServing p dsp [] k g h = record { gate = g; holds = h }
serve_all-IsServing p dsp (plugin.start_capture ∷ cs) k g h =
    let i = serve_all-IsServing p dsp cs k g h in
    let s = start_capture_gated-held dsp (serve_all p dsp cs k) in
    let t = start_capture_gated-gate dsp (serve_all p dsp cs k) in ground arith
serve_all-IsServing p dsp (plugin.stop_capture ∷ cs) k g h =
    let i = serve_all-IsServing p dsp cs k g h in
    let s = stop_capture_gated-releases dsp (serve_all p dsp cs k) in ground arith
serve_all-IsServing p dsp (map_capture a ∷ cs) k g h =
    let i = serve_all-IsServing p dsp cs k g h in record { gate = i.gate; holds = i.holds }
serve_all-IsServing p dsp (unmap_capture a ∷ cs) k g h =
    let i = serve_all-IsServing p dsp cs k g h in record { gate = i.gate; holds = i.holds }
serve_all-IsServing p dsp (update_spib n ∷ cs) k g h =
    let i = serve_all-IsServing p dsp cs k g h in record { gate = i.gate; holds = i.holds }

-- A plug-in that is connected, its mutex free, without a client and without a request so far, and a
-- driver behind an open gate that holds no session: after any sequence of StartIO and StopIO calls,
-- with any answers of IOKit and of the DSP, the driver runs the capture or has it latched exactly
-- where a client does IO.
pub run-serves :
    {fl : Floats} (p : Positions) (dsp : Dsp) (s : PlugIn fl) (cs : List IoCall) (k : Kext)
    → s.state_mutex ≡ false
    → (s.connection == 0) ≡ false
    → s.io_is_running ≡ 0
    → s.kext_calls ≡ []
    → k.command_gate ≡ true
    → is_held k ≡ false
    → let t = (run s cs).1 in is_held (serve_all p dsp t.kext_calls k) ≡ not (t.io_is_running == 0)
unfolding wants_capture
run-serves p dsp s cs k f c n e g h =
    let r = run-IsConnected s cs (record { free = f; connected = c; wants = ground arith }) in
    (serve_all-IsServing p dsp (run s cs).1.kext_calls k g h).holds ∙ r.wants
