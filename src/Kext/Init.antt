-- ===== src/Kext/Init.antt =====
-- initDSP() of kext/LatSOFAudio/LatSOFAudioDevice.cpp, by what its environment answers at each stage:
-- the ways out, the loan of AppleHDA's descriptor, and what it leaves in the device.
pub mod Return
use lat_sofaudio.Prelude.{
  ℕ, ◌+◌, Bool, true, false, List, ◌∷◌, ◌&&◌, ◌||◌, if◌then◌else◌, ◌==◌, leb,
}
use lat_sofaudio.Kext.Types.{
  Mmio, load_firmware, OtherWrite, em2_set, cgctl_cleared, wakests_cleared, sd1_cleared, cgctl_set,
}
use lat_sofaudio.Kext.State.{Kext, Descriptor}
use lat_sofaudio.Kext.Registers.{Sd, not_decoding, quiet, running, programmed, output_sd_busy_state}
use lat_sofaudio.Kext.Capture.{send}
use lat_sofaudio.Kext.Borrow.{
  Loan, Snapshot, Firmware, no_snapshot, take_snapshot, sd_restore, program_loader, run_loader,
}

-- One attempt: what the controller, the ROM, the firmware and the allocators answer.
pub record Attempt : Type 0 where
  -- GCAP reads as neither 0 nor all ones within the wait
  pub decoding : Bool
  pub num_iss : ℕ
  -- GCTL.CRST
  pub crst : Bool
  pub payload_ok : Bool
  pub core_power : Bool
  pub fw_alloc : Bool
  pub bdl_alloc : Bool
  pub firmware : Firmware
  pub has_pp : Bool
  pub has_spib : Bool
  -- BAR0 at the last look before the loan
  pub before_borrow : Mmio
  -- what a stream reset leaves
  pub resets : Descriptor → Descriptor
  pub rom_done : Bool
  pub init_done : Bool
  pub fw_entered : Bool
  -- a mailbox that is long enough, with a FW_READY header of 60 to 200 bytes
  pub fw_ready : Bool
  -- the topology IPCs that are answered with 0
  pub ipc_ok : ℕ
  pub cap_dma_alloc : Bool
  pub cap_bdl_alloc : Bool

-- What initDSP returns, and the device after it.
pub record Tried : Type 0 where
  pub ok : Bool
  pub device : Kext

-- The last look: RUN is never taken, a programmed descriptor only once patience is used up.
unfoldable pub defers_borrow : Sd → Kext → Bool
defers_borrow running k = true
defers_borrow programmed k = (k.strict_borrow || k.hot_recovery) && leb k.programmed_waits 20
defers_borrow quiet k = false
defers_borrow not_decoding k = false

-- The local variables at the loan.
unfoldable pub loan : Attempt → Kext → Loan
loan a k = record {
  pp_cap = a.has_pp;
  spib_cap = a.has_spib;
  s_idx = a.num_iss;
  ppctl = k.ppctl;
  spib_en = k.spib_en;
  output = k.output;
  snap = no_snapshot;
}

-- The loan from the snapshot to its return after the load, where the ROM gets that far.
unfoldable pub borrow : Attempt → Loan → Loan
borrow a l =
    let p = program_loader a.resets a.firmware (take_snapshot l) in
    if a.rom_done && a.init_done then sd_restore a.resets (run_loader p) else p

-- The registers that the loan is about, written back to the device.
unfoldable pub settle : Loan → Kext → Kext
settle l k = record k { ppctl = l.ppctl; spib_en = l.spib_en; output = l.output }

-- The device once the topology is up.
unfoldable pub make_ready : Attempt → Kext → Kext
make_ready a k =
    let dma = k.cap_dma_buf || a.cap_dma_alloc in
    record k {
      pp_cap = a.has_pp;
      spib_cap = a.has_spib;
      s_idx = a.num_iss;
      cap_idx = 6;
      hw_ready = true;
      is_playing = false;
      is_capturing = false;
      cap_dma_buf = dma;
      cap_bdl_buf = k.cap_bdl_buf || dma && a.cap_bdl_alloc;
    }

-- From the loan on, the clean-up included.
unfoldable pub load : Attempt → Kext → Kext
load a k =
    let l = sd_restore a.resets (borrow a (loan a k)) in
    let sent = settle l (send load_firmware k) in
    if a.rom_done && a.init_done && a.fw_entered && a.fw_ready && leb 1 a.ipc_ok
    then make_ready a sent
    else sent

-- The writes of the controller's part, before the firmware is loaded.
abbrev pub controller_init : Bool → List OtherWrite → List OtherWrite
controller_init crst ws =
    let before = cgctl_cleared ∷ em2_set ∷ ws in
    cgctl_set ∷ sd1_cleared ∷ (if crst then wakests_cleared ∷ before else before)

-- initDSP()
unfoldable pub init_dsp : Attempt → Kext → Tried
init_dsp a k =
    let c = record k { other_writes = controller_init a.crst k.other_writes } in
    if k.hda_base && k.dsp_base && a.decoding
    then (if a.payload_ok && a.core_power && a.fw_alloc && a.bdl_alloc
        then (if defers_borrow (output_sd_busy_state a.before_borrow) k
            then record { ok = c.hw_ready; device = record c { reinit_pending = true } }
            else record { ok = (load a c).hw_ready; device = load a c })
        else record { ok = c.hw_ready; device = c })
    else record { ok = false; device = k }
