-- ===== src/Plugin/Tests/Audio.antt =====
-- Examples for the IO half of plugin/LatSOFAudioPlugin.c: StartIO and StopIO, the clock, and the IO
-- operations.
use lat_sofaudio.Prelude.{
  ℕ, ◌+◌, ◌-◌, ◌*◌, ◌%◌, ◌≡◌, refl, true, false, not, ◌==◌, some, List, [], ◌∷◌, ltb, ◌&&◌,
  if◌then◌else◌, map, arith,
}
use lat_sofaudio.Plugin.State.{PlugIn}
use lat_sofaudio.Plugin.Io.{KextAnswers}
use lat_sofaudio.Plugin.Io.Clients.{IoCall, starts, stops, run, count_run, run-count_run}
use lat_sofaudio.Plugin.Io.Hardware.{in_order, streaming, outstanding, IsInOrder, run-IsInOrder}
use lat_sofaudio.Plugin.Clock.Tracking.{
  Gap, poll_at, polls_from, ideal_frames, sample_times, sample_times_exact,
}
use lat_sofaudio.Plugin.Capture.{Filters, buffer_frames, read_frames}
use lat_sofaudio.Plugin.Capture.Channels.{
  interleave, channel_in, channel_out, channel_state, read_frames-channels,
}
use lat_sofaudio.Plugin.Mix.{mix_into, sample_out}
use lat_sofaudio.Plugin.Mix.Wrap.{ring_samples, mix_into-round}
use lat_sofaudio.Plugin.Operation.{Memory, do_read}
use lat_sofaudio.Plugin.Operation.Effects.{do_read_chunks}
use lat_sofaudio.Plugin.Tests.{toy, quiet, idle}
use lat_sofaudio.Kext.Types.{no_bits}
use lat_sofaudio.Kext.State.{Kext, initial}
use lat_sofaudio.Kext.Demand.{is_held}
use lat_sofaudio.Kext.Client.{Positions}
use lat_sofaudio.Kext.Client.Session.{serve_all, run-serves}

abbrev answers : KextAnswers
answers = record {
  service = true;
  opened = 7;
  map_succeeds = true;
  map_address = 4096;
  map_size = 131072;
  now = 1000;
}

abbrev calls : List IoCall
calls = starts answers ∷ starts answers ∷ stops ∷ stops ∷ stops ∷ []

run-count_run_example :
    let (rs, t) = run idle calls in
    ((rs, t.io_is_running) ≡ count_run 0 calls) × (t.state_mutex ≡ false)
run-count_run_example = run-count_run idle calls refl

idle-IsInOrder : IsInOrder idle
unfolding in_order streaming outstanding
idle-IsInOrder = record { order = refl; runs = refl; maps = refl; idle = refl }

run-IsInOrder_example : IsInOrder (run idle calls).1
run-IsInOrder_example = run-IsInOrder calls idle idle-IsInOrder

-- A plug-in that is connected to a driver behind its gate.
abbrev connected : PlugIn toy
connected = record idle { connection = 7; kext_calls = [] }

abbrev driver : Kext
driver =
    record (initial no_bits no_bits no_bits no_bits
      (record { ctl = no_bits; cbl = 0; lvi = 0; fmt = 0; bdpl = 0; bdpu = 0; spib_val = 0 })) {
        command_gate = true;
      }

abbrev positions : Positions
positions = record { playback = 0; capture = 0 }

run-serves_example :
    let t = (run connected calls).1 in
    is_held (serve_all positions (λ s. true) t.kext_calls driver) ≡ not (t.io_is_running == 0)
unfolding initial is_held
run-serves_example =
    run-serves positions (λ s. true) connected calls driver refl refl refl refl refl refl

abbrev gaps : List Gap
gaps =
    record { frames = 10000; now = 200000 }
    ∷ record { frames = 10000; now = 400000 }
    ∷ record { frames = 16383; now = 800000 }
    ∷ []

sample_times_exact_example :
    sample_times idle (poll_at 5000 1000 ∷ polls_from 5000 gaps)
    ≡ map (λ n. some n) (0 ∷ ideal_frames 5000 5000 gaps)
sample_times_exact_example =
    sample_times_exact gaps 5000 1000 idle refl (λ h. ground (h, arith)) refl
      (omega arith, omega arith, (omega arith, omega arith, (omega arith, omega arith, tt)))

-- A ring that holds its own indices.
abbrev ramp : ℕ → ℕ
ramp i = i

abbrev filters : Filters toy
filters = record { l = quiet; r = quiet }

read_frames-channels_example :
    let xs = channel_in toy ramp 0 (16383 + 0) 2 in
    let ys = channel_in toy ramp 1 (16383 + 0) 2 in
    read_frames toy ramp 3 (16383 % buffer_frames) 2 0 filters ≡ (
      interleave (channel_out toy 3 quiet xs) (channel_out toy 3 quiet ys),
      record { l = channel_state toy quiet xs; r = channel_state toy quiet ys },
    )
read_frames-channels_example = read_frames-channels toy ramp 3 16383 2 0 filters

-- Two frames at the end of the ring: index 0 gets the third sample of the mix.
mix_into-round_example :
    let i = (0 + ring_samples - 16383 * 2) % ring_samples in
    mix_into toy 2 ramp ramp 16383 2 0
    ≡ (if ltb 0 ring_samples && ltb i (2 * 2) then sample_out toy 2 ramp i else 0)
mix_into-round_example = mix_into-round toy 2 ramp ramp 16383 2 0 (omega arith) (omega arith)

abbrev memory : Memory toy
memory = record { capture = ramp; playback = ramp; clamshell_muted = 0; main = ramp }

-- A plug-in with the ring mapped.
abbrev mapped : PlugIn toy
mapped = record idle { capture_buffer = some 4096; io_is_running = 1 }

do_read_chunks_example :
    let (first, s₁) = do_read 1 16383 memory mapped in
    let (second, s₂) = do_read 2 (16383 + 1) first s₁ in
    let (whole, s₃) = do_read (1 + 2) 16383 memory mapped in
    (s₃ ≡ s₂) × (whole.main 4 ≡ (if ltb 4 (2 * 1) then first.main 4 else second.main (4 - 2 * 1)))
do_read_chunks_example = do_read_chunks 1 2 16383 4 memory mapped (omega arith) (omega arith)
