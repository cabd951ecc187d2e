-- ===== src/Kext/Borrow.antt =====
-- The borrowed-stream contract of kext/LatSOFAudio/LatSOFAudioDevice.cpp: AppleHDA's output
-- descriptor, as the firmware loader takes and returns it.
use lat_sofaudio.Prelude.{ℕ, ◌+◌, ◌-◌, Bool, true, false, not, ◌||◌, ◌&&◌, if◌then◌else◌, leb, ltb}
use lat_sofaudio.Kext.Types.{Bits, no_bits, set_bit, clear_bit}
use lat_sofaudio.Kext.State.{Descriptor}

-- SdSnapshot
pub record Snapshot : Type 0 where
  pub ppctl : Bits
  pub spib_en : Bits
  pub spib_val : ℕ
  pub ctl : Bits
  pub cbl : ℕ
  pub bdpl : ℕ
  pub bdpu : ℕ
  pub lvi : ℕ
  pub fmt : ℕ
  pub valid : Bool
  pub restored : Bool

-- initDSP's local variables ppCap, spibCap and sIdx, and the registers it changes.
pub record Loan : Type 0 where
  pub pp_cap : Bool
  pub spib_cap : Bool
  pub s_idx : ℕ
  pub ppctl : Bits
  pub spib_en : Bits
  pub output : Descriptor
  pub snap : Snapshot

-- Writes of 8, 16 and 24 bits: of the first byte, the first two, and the third.
unfoldable pub write8 : Bits → Bits → Bits
write8 v r j = if ltb j 8 then v j else r j

unfoldable pub write16 : Bits → Bits → Bits
write16 v r j = if ltb j 16 then v j else r j

unfoldable pub write_tag : Bits → Bits → Bits
write_tag v r j = if leb 16 j && ltb j 24 then v j else r j

-- streamReset(), by what the controller leaves in the descriptor's registers once SRST is set. Last
-- it clears SDSTS: BCIS, FIFOE and DESE, by a write of 1 to each.
unfoldable pub stream_reset : (Descriptor → Descriptor) → Descriptor → Descriptor
stream_reset resets d =
    let cleared = resets (record d { ctl = write_tag no_bits (write8 no_bits d.ctl) }) in
    record cleared { ctl = clear_bit 26 (clear_bit 27 (clear_bit 28 (write8 no_bits cleared.ctl))) }

-- `SdSnapshot snap = {}`
unfoldable pub no_snapshot : Snapshot
no_snapshot = record {
  ppctl = no_bits;
  spib_en = no_bits;
  spib_val = 0;
  ctl = no_bits;
  cbl = 0;
  bdpl = 0;
  bdpu = 0;
  lvi = 0;
  fmt = 0;
  valid = false;
  restored = false;
}

-- The snapshot that initDSP takes.
unfoldable pub take_snapshot : Loan → Loan
take_snapshot l = record l {
  snap = record {
    ppctl = if l.pp_cap then l.ppctl else no_bits;
    spib_en = if l.spib_cap then l.spib_en else no_bits;
    spib_val = if l.spib_cap then l.output.spib_val else 0;
    ctl = λ j. if ltb j 24 then l.output.ctl j else false;
    cbl = l.output.cbl;
    bdpl = l.output.bdpl;
    bdpu = l.output.bdpu;
    lvi = l.output.lvi;
    fmt = l.output.fmt;
    valid = true;
    restored = false;
  };
}

-- sdRestore()
unfoldable pub sd_restore : (Descriptor → Descriptor) → Loan → Loan
sd_restore resets l =
    let s = l.snap in
    let d = stream_reset resets l.output in
    if not s.valid || s.restored then l else record l {
      snap = record s { restored = true };
      output = record d {
        bdpl = s.bdpl;
        bdpu = s.bdpu;
        cbl = s.cbl;
        lvi = s.lvi;
        fmt = s.fmt;
        ctl = write_tag s.ctl (write16 s.ctl d.ctl);
        spib_val = if l.spib_cap then s.spib_val else d.spib_val;
      };
      spib_en = if l.spib_cap then s.spib_en else l.spib_en;
      ppctl = if l.pp_cap then s.ppctl else l.ppctl;
    }

-- The loader's programming of the descriptor, with the firmware's buffers.
pub record Firmware : Type 0 where
  pub bdl_low : ℕ
  pub bdl_high : ℕ
  pub payload_size : ℕ
  pub num_bdl : ℕ

-- PPCTL, the reset, and the registers up to the SPIB value. sTag is 1: bit 20 of CTL.
unfoldable pub program_loader : (Descriptor → Descriptor) → Firmware → Loan → Loan
program_loader resets f l =
    let d = stream_reset resets l.output in
    record l {
      ppctl =
          if l.pp_cap
          then set_bit (l.s_idx + 1) (set_bit l.s_idx (set_bit 30 (set_bit 31 l.snap.ppctl)))
          else l.ppctl;
      output = record d {
        bdpl = f.bdl_low;
        bdpu = f.bdl_high;
        cbl = f.payload_size;
        lvi = f.num_bdl - 1;
        fmt = 64;
        ctl = write_tag (set_bit 20 no_bits) d.ctl;
        spib_val = if l.spib_cap then f.payload_size else d.spib_val;
      };
      spib_en = if l.spib_cap then set_bit l.s_idx l.spib_en else l.spib_en;
    }

-- RUN set and, once the firmware is entered or the wait is over, cleared.
unfoldable pub run_loader : Loan → Loan
run_loader l = record l {
  output = record l.output {
    ctl = clear_bit 1 (clear_bit 2 (set_bit 1 (clear_bit 2 l.output.ctl)));
  };
}
