-- ===== src/Kext/Client.antt =====
-- The user client of kext/LatSOFAudio/LatSOFAudioDevice.cpp: its external methods by selector, its
-- memory types, and its close.
pub mod Session
use lat_sofaudio.Prelude.{
  ℕ, ◌/◌, Bool, true, false, ◌&&◌, ◌||◌, Option, none, some, List, [], ◌∷◌, if◌then◌else◌, ◌==◌,
  leb,
}
use lat_sofaudio.Kext.Types.{IoReturn, success, not_ready, bad_argument, Dsp}
use lat_sofaudio.Kext.State.{Kext, Done}
use lat_sofaudio.Kext.Driver.{
  start_playback, stop_playback, start_capture, stop_capture, get_capture_position, update_spib,
}

-- A method's result: its status, the scalar it puts out, and the device after it.
pub record Outcome : Type 0 where
  pub status : IoReturn
  pub output : Option ℕ
  pub device : Kext

unfoldable pub of_done : Done → Outcome
of_done d = record { status = d.status; output = none; device = d.device }

-- What the position registers of the playback and the capture stream read.
pub record Positions : Type 0 where
  pub playback : ℕ
  pub capture : ℕ

-- getSamplePosition()
unfoldable pub get_sample_position : ℕ → Kext → ℕ
get_sample_position dpib k = if k.hw_ready then dpib / 4 else 0

-- sStart, sStop, sGetPos, sUpdateSPIB, sStartCap, sStopCap and sGetCapPos, by selector, for a client
-- that has its device.
unfoldable pub dispatch : Positions → Dsp → ℕ → Kext → Outcome
dispatch p dsp n k =
    if n == 0
    then of_done (start_playback k)
    else if n == 1
    then of_done (stop_playback k)
    else if n == 2
    then record { status = success; output = some (get_sample_position p.playback k); device = k }
    else if n == 3
    then record { status = update_spib 0 k; output = none; device = k }
    else if n == 4
    then of_done (start_capture dsp k)
    else if n == 5
    then of_done (stop_capture dsp k)
    else record { status = success; output = some (get_capture_position p.capture k); device = k }

-- sMethods: the scalars that a method takes and gives.
unfoldable pub scalars_in : ℕ → ℕ
scalars_in n = if n == 3 then 1 else 0

unfoldable pub scalars_out : ℕ → ℕ
scalars_out n = if n == 2 || n == 6 then 1 else 0

-- externalMethod(), with IOUserClient's check of the scalars against the method's.
unfoldable pub external_method : Positions → Dsp → ℕ → ℕ → ℕ → Kext → Outcome
external_method p dsp selector ins outs k =
    if leb 7 selector
    then record { status = bad_argument; output = none; device = k }
    else if scalars_in selector == ins && scalars_out selector == outs
    then dispatch p dsp selector k
    else record { status = bad_argument; output = none; device = k }

-- clientClose()
unfoldable pub client_close : Dsp → Kext → Kext
client_close dsp k = (stop_capture dsp (stop_playback k).device).device

-- clientMemoryForType(): the capture ring is lent only where it exists. Type 0 is the playback ring
-- and type 2 the page of flags, by whether they are there.
unfoldable pub client_memory_for_type : Bool → Bool → ℕ → Kext → IoReturn
client_memory_for_type shared flags n k =
    let there = if n == 0 then shared else if n == 1 then k.cap_dma_buf else n == 2 && flags in
    if there then success else bad_argument
