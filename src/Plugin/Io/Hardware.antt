-- ===== src/Plugin/Io/Hardware.antt =====
-- What StartIO and StopIO ask of the kext: the capture runs and the DMA buffer is mapped only while
-- there are clients, and every start, stop, map and unmap is in order.
use lat_sofaudio.Prelude.{
  ℕ, ◌≡◌, Bool, true, false, not, ◌&&◌, ◌||◌, Option, none, some, List, [], ◌∷◌, ◌==◌, ltb, is_none,
  arith,
}
use lat_sofaudio.Plugin.Floats.{Floats}
use lat_sofaudio.Plugin.State.{
  PlugIn, KextCall, start_capture, stop_capture, map_capture, unmap_capture, update_spib,
}
use lat_sofaudio.Plugin.Io.{KextAnswers, start_io, stop_io}
use lat_sofaudio.Plugin.Io.Clients.{IoCall, starts, stops, call, observe, run}

-- The capture runs after these calls (newest first).
unfoldable pub streaming : List KextCall → Bool
streaming [] = false
streaming (start_capture ∷ cs) = true
streaming (stop_capture ∷ cs) = false
streaming (map_capture a ∷ cs) = streaming cs
streaming (unmap_capture a ∷ cs) = streaming cs
streaming (update_spib n ∷ cs) = streaming cs

-- The mapping that these calls leave.
unfoldable pub outstanding : List KextCall → Option ℕ
outstanding [] = none
outstanding (map_capture a ∷ cs) = a
outstanding (unmap_capture a ∷ cs) = none
outstanding (start_capture ∷ cs) = outstanding cs
outstanding (stop_capture ∷ cs) = outstanding cs
outstanding (update_spib n ∷ cs) = outstanding cs

pub same_address : ℕ → Option ℕ → Bool
same_address a none = false
same_address a (some b) = a == b

-- Every start finds the capture stopped and every stop finds it running; a buffer is mapped only
-- where none is, and what is unmapped is the mapping that stands.
unfoldable pub in_order : List KextCall → Bool
in_order [] = true
in_order (start_capture ∷ cs) = not (streaming cs) && in_order cs
in_order (stop_capture ∷ cs) = streaming cs && in_order cs
in_order (map_capture a ∷ cs) = is_none (outstanding cs) && in_order cs
in_order (unmap_capture a ∷ cs) = same_address a (outstanding cs) && in_order cs
in_order (update_spib n ∷ cs) = in_order cs

module _ {fl : Floats} where
  pub record IsInOrder (s : PlugIn fl) : Type 0 where
    pub order : in_order s.kext_calls ≡ true
    -- the capture runs exactly while there are clients and a connection
    pub runs : streaming s.kext_calls ≡ ltb 0 s.io_is_running && not (s.connection == 0)
    -- the mapping that stands is gCaptureBuffer
    pub maps : outstanding s.kext_calls ≡ s.capture_buffer
    -- and there is none without clients, or without a connection
    pub idle : (s.io_is_running == 0 || s.connection == 0) && not (is_none s.capture_buffer) ≡ false

  start_io-IsInOrder :
      (s : PlugIn fl) (k : KextAnswers) → IsInOrder s → IsInOrder (observe s (call (starts k) s)).1
  unfolding call start_io in_order streaming outstanding
  start_io-IsInOrder s k v = ground arith

  stop_io-IsInOrder : (s : PlugIn fl) → IsInOrder s → IsInOrder (observe s (call stops s)).1
  unfolding call stop_io in_order streaming outstanding same_address
  stop_io-IsInOrder s v = ground arith

  call-IsInOrder : (s : PlugIn fl) (c : IoCall) → IsInOrder s → IsInOrder (observe s (call c s)).1
  call-IsInOrder s (starts k) v = start_io-IsInOrder s k v
  call-IsInOrder s stops v = stop_io-IsInOrder s v

  -- From a state in which the kext's calls so far are in order, the capture runs exactly while there
  -- are clients and a connection, and gCaptureBuffer is the one mapping, any sequence of StartIO and
  -- StopIO calls leads to a state of which the same holds.
  pub run-IsInOrder : (cs : List IoCall) (s : PlugIn fl) → IsInOrder s → IsInOrder (run s cs).1
  unfolding run
  run-IsInOrder [] s v = v
  run-IsInOrder (c ∷ cs) s v = run-IsInOrder cs (observe s (call c s)).1 (call-IsInOrder s c v)
