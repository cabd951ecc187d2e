-- ===== src/Kext/Engine/Tests.antt =====
-- Witnesses for the clock of the kernel audio engine of kext/LatSOFAudio/LatSOFKernelAudio.cpp.
use lat_sofaudio.Prelude.{
  ℕ, ◌+◌, ◌-◌, ◌*◌, ◌≤◌, ◌<◌, ◌≡◌, refl, true, false, none, some, List, [], ◌∷◌, ◌++◌, arith,
}
use lat_sofaudio.Kext.Tests.{attached}
use lat_sofaudio.Kext.Engine.{Engine, Sample, ring_period, read_position_at_edge}
use lat_sofaudio.Kext.Engine.Session.{Session}
use lat_sofaudio.Kext.Engine.Edge.{is_finished, read_position_at_edge-is_finished}
use lat_sofaudio.Kext.Engine.Loops.{
  Reading, seen_edge, fires, frames_of, furthest, last_of, is_polled, is_later, count_loops, outage,
  is_frequent, final, fires-exact, outage-keeps_time,
}
use lat_sofaudio.Plugin.Tests.{toy, quiet}
use lat_sofaudio.Kext.Engine.Convert.{DcState, convert_input_samples}
use lat_sofaudio.Kext.Engine.Convert.Clients.{
  Request, serve, keep, convert_input_samples_chunks, serve-keep,
}
use lat_sofaudio.Kext.Engine.Hardware.{Answers, Hardware, init_hardware, stop}
use lat_sofaudio.Kext.Engine.Hardware.References.{init_hardware-IsBalanced}

-- A position that stands still, read each 10 µs.
abbrev frozen : ℕ → Sample
frozen i = record { before = i * 10000; position = some 4; after = i * 10000 + 100 }

read_position_at_edge-is_finished_example :
    is_finished (read_position_at_edge frozen (some 4) 0) ≡ true
read_position_at_edge-is_finished_example =
    read_position_at_edge-is_finished frozen (some 4) 0 (omega arith) (λ j. omega arith)
      (omega arith)

-- An engine whose first stamp was taken at frame 100 of the ring.
abbrev started : Engine
started = record {
  running = true;
  edge_lock = true;
  wrap_timer = true;
  timer_armed = true;
  last_wrap_frame = 100;
  last_stamp_time = 5000000000;
  stamps = record { increments = false; time = 4997916667 } ∷ [];
}

-- Firings after 12000, 20000 and 33000 frames: two rings end, one with the edge caught.
abbrev first_reading : Reading
first_reading = record { frames = 12000; at_edge = none; now = 0; edge_time = 0 }

abbrev more_readings : List Reading
more_readings =
    record { frames = 20000; at_edge = some 20048; now = 0; edge_time = 0 }
    ∷ record { frames = 33000; at_edge = none; now = 0; edge_time = 0 }
    ∷ []

fires-exact_example :
    let e = fires (first_reading ∷ more_readings) started in
    let s = last_of first_reading more_readings in
    (s.frames ≤ frames_of e) × (frames_of e ≤ furthest s)
unfolding is_polled is_later furthest seen_edge frames_of count_loops
fires-exact_example =
    fires-exact started first_reading more_readings 100 100 refl (omega arith) (omega arith)
      (omega arith) refl

-- An outage of four firings, 300 ms apart.
abbrev ticks_lost : List ℕ
ticks_lost = 5300000000 ∷ 5600000000 ∷ 5900000000 ∷ 6200000000 ∷ []

outage-keeps_time_example :
    let e = outage ticks_lost started in
    let n = count_loops e.stamps - count_loops started.stamps in
    (started.last_stamp_time + n * ring_period ≤ final 5000000000 ticks_lost)
    × (final 5000000000 ticks_lost < started.last_stamp_time + (n + 1) * ring_period)
unfolding is_frequent
outage-keeps_time_example =
    outage-keeps_time ticks_lost started 5000000000 refl (omega arith) (omega arith) (omega arith)
      refl

-- A ring in which sample `i` is `i`, and filters at rest at frame 100.
abbrev slope : ℕ → ℕ
slope i = i

abbrev same_number : ℕ → ℕ
same_number x = x

abbrev listening : DcState toy
listening = record { filters = record { l = quiet; r = quiet }; next_frame = 100 }

convert_input_samples_chunks_example :
    let (xs, t) = convert_input_samples toy same_number 30000 slope 100 2 listening in
    let (ys, u) = convert_input_samples toy same_number 30000 slope (100 + 2) 3 t in
    convert_input_samples toy same_number 30000 slope 100 (2 + 3) listening ≡ (xs ++ ys, u)
convert_input_samples_chunks_example =
    convert_input_samples_chunks toy same_number 30000 slope 2 3 listening (omega arith)

-- Two clients: one from frame 100 on, and another at 40.
abbrev requests : List Request
requests =
    record { first = 100; count = 2 }
    ∷ record { first = 40; count = 2 }
    ∷ record { first = 102; count = 1 }
    ∷ []

serve-keep_example :
    serve toy same_number 30000 slope requests listening
    ≡ serve toy same_number 30000 slope (keep toy same_number 30000 slope requests 100) listening
serve-keep_example = serve-keep toy same_number 30000 slope requests listening (omega arith)

-- All that is asked for is there, but the work loop does not take the timer.
abbrev no_timer : Answers
no_timer = record {
  base = true;
  owner = true;
  ring = true;
  stream_alloc = true;
  stream_init = true;
  stream_added = true;
  gain_alloc = true;
  gain_added = true;
  source_alloc = true;
  source_added = true;
  work_loop = true;
  timer_alloc = true;
  timer_added = false;
}

abbrev bare : Hardware
bare = record {
  own = 0;
  kept = 0;
  wrap_timer = false;
  on_loop = false;
  gain_milli_decibels = 30000;
}

init_hardware-IsBalanced_example :
    let r = init_hardware no_timer bare in
    (r.hw.own ≡ 0)
    × (r.hw.wrap_timer ≡ r.ok)
    × (r.hw.on_loop ≡ r.ok)
    × ((stop true r.hw).wrap_timer ≡ false)
    × ((stop true r.hw).on_loop ≡ false)
init_hardware-IsBalanced_example = init_hardware-IsBalanced no_timer bare refl refl refl

-- A driver on ready hardware, and an engine that stands.
abbrev idle : Session toy
idle = record {
  device = record attached { hw_ready = true; cap_idx = 6 };
  engine = record started { running = false; timer_armed = false };
  dc = listening;
}
