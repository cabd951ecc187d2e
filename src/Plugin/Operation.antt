-- ===== src/Plugin/Operation.antt =====
-- LatSOF_WillDoIOOperation, LatSOF_BeginIOOperation, LatSOF_DoIOOperation and LatSOF_EndIOOperation
-- of plugin/LatSOFAudioPlugin.c.
pub mod Effects
use lat_sofaudio.Prelude.{
  ℕ, ◌+◌, ◌*◌, ◌%◌, Bool, true, false, not, ◌&&◌, ◌||◌, Option, none, some, List, ◌∷◌, String, ltb,
  ◌==◌, if◌then◌else◌, is_none, get_elem?,
}
use lat_sofaudio.Plugin.Types.{
  DriverRef, is_driver, ObjectId, stream_input, stream_output, Status, bad_object,
}
use lat_sofaudio.Plugin.Floats.{Floats}
use lat_sofaudio.Plugin.State.{PlugIn, update_spib}
use lat_sofaudio.Plugin.Monad.{M, returned, ◌>>=◌, ◌>>◌, pure, fail_if}
use lat_sofaudio.Plugin.Io.{is_device}
use lat_sofaudio.Plugin.Capture.{buffer_frames, wrap32, read_frames}
use lat_sofaudio.Plugin.Mix.{mix_into, write_end}

-- inOperationID
pub data IoOperation : Type 0 where
  read_input write_mix : IoOperation
  other_operation : ℕ → IoOperation

-- *outWillDo and *outWillDoInPlace
abbrev will_do : IoOperation → Bool × Bool
will_do read_input = (true, true)
will_do write_mix = (false, true)
will_do (other_operation n) = (false, true)

-- The memory that the call shares with the kext and the HAL: the capture ring and the playback ring
-- (patterns of 32 and 16 bits), the clamshell byte of the flags page, and ioMainBuffer, which the HAL
-- never leaves NULL.
pub record Memory (fl : Floats) : Type 0 where
  pub capture : ℕ → ℕ
  pub playback : ℕ → ℕ
  pub clamshell_muted : ℕ
  pub main : ℕ → fl.F32

abbrev pub is_stream : ObjectId → Bool
is_stream stream_input = true
is_stream stream_output = true
is_stream _ = false

-- `out` at main[0] and onward.
pub fill {ℓ} : {A : Type ℓ} → (ℕ → A) → List A → ℕ → A
fill main out i = elim (get_elem? out i) [ none ↦ main i | some v ↦ v ]

-- memset(ioMainBuffer, 0, …) of `n` samples.
pub silence : (fl : Floats) → (ℕ → fl.F32) → ℕ → ℕ → fl.F32
silence fl main n i = if ltb i n then fl.literal32 "0.0f" else main i

module _ {fl : Floats} where
  -- kAudioServerPlugInIOOperationReadInput. `time` is (UInt64)mInputTime.mSampleTime.
  pub do_read : ℕ → ℕ → Memory fl → PlugIn fl → Memory fl × PlugIn fl
  do_read n time m s =
      if not (is_none s.capture_buffer) && not (s.connection == 0)
      then (let gain = fl.mul32 (fl.literal32 "32.0f") s.volume_input in
          let (out, d) =
            read_frames fl m.capture gain (time % buffer_frames) n 0
              (record { l = s.left; r = s.right }) in
          (record m { main = fill m.main out }, record s { left = d.l; right = d.r }))
      else (record m { main = silence fl m.main (wrap32 (n * 2)) }, s)

  -- kAudioServerPlugInIOOperationWriteMix. `time` is (UInt64)mOutputTime.mSampleTime.
  pub do_mix : ℕ → ℕ → Memory fl → PlugIn fl → Memory fl × PlugIn fl
  do_mix n time m s =
      let main =
        if not (is_none s.flags_buffer) && not (m.clamshell_muted == 0)
        then silence fl m.main (n * 2)
        else m.main in
      let offset = time % buffer_frames in
      let gain =
        if s.mute_output
        then fl.literal32 "0.0f"
        else fl.mul32 s.volume_output (fl.literal32 "0.25f") in
      if not (is_none s.shared_buffer) && not (s.connection == 0)
      then (
        record m { main = main; playback = mix_into fl gain main m.playback offset n },
        record s { kext_calls = update_spib (write_end offset n) ∷ s.kext_calls },
      )
      else (record m { main = main }, s)

  pub do_operation : IoOperation → ℕ → ℕ → Memory fl → PlugIn fl → Memory fl × PlugIn fl
  unfolding do_read do_mix
  do_operation read_input n time m s = do_read n time m s
  do_operation write_mix n time m s = do_mix n time m s
  do_operation (other_operation k) n time m s = (m, s)

  pub do_io_operation :
      DriverRef → ObjectId → ObjectId → IoOperation → ℕ → ℕ → Memory fl → M fl (Memory fl)
  unfolding do_operation
  do_io_operation d o stream op n time m = do
    fail_if (not (is_driver d)) bad_object
    fail_if (not (is_device o)) bad_object
    fail_if (not (is_stream stream)) bad_object
    m' ← (λ s. let (m', s') = do_operation op n time m s in returned m' s')
    pure m'

  pub will_do_io_operation : DriverRef → ObjectId → IoOperation → M fl (Bool × Bool)
  will_do_io_operation d o op = do
    fail_if (not (is_driver d)) bad_object
    fail_if (not (is_device o)) bad_object
    pure (will_do op)

  -- LatSOF_BeginIOOperation and LatSOF_EndIOOperation: the arguments are checked, no more.
  pub begin_io_operation : DriverRef → ObjectId → M fl (Unit {0})
  begin_io_operation d o = do
    fail_if (not (is_driver d)) bad_object
    fail_if (not (is_device o)) bad_object
    pure tt

  pub end_io_operation : DriverRef → ObjectId → M fl (Unit {0})
  end_io_operation d o = do
    fail_if (not (is_driver d)) bad_object
    fail_if (not (is_device o)) bad_object
    pure tt
