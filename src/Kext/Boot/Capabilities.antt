-- ===== src/Kext/Boot/Capabilities.antt =====
-- The search for the HDA capabilities in initDSP() of kext/LatSOFAudio/LatSOFAudioDevice.cpp.
pub mod First
use lat_sofaudio.Prelude.{ℕ, zero, suc, ◌+◌, ◌*◌, ◌/◌, ◌%◌, ◌^◌, ◌&&◌, ltb, ◌==◌, if◌then◌else◌}

-- HDA_CAP_ML_ID, HDA_CAP_PP_ID and HDA_CAP_SPIB_ID
abbrev pub hda_cap_ml_id : ℕ
hda_cap_ml_id = 2

abbrev pub hda_cap_pp_id : ℕ
hda_cap_pp_id = 3

abbrev pub hda_cap_spib_id : ℕ
hda_cap_spib_id = 4

-- mlCap, ppCap and spibCap, 0 where none is found
pub record Caps : Type 0 where
  pub ml_cap : ℕ
  pub pp_cap : ℕ
  pub spib_cap : ℕ

-- (rd32(hda, o) >> 16) & 0xFFF
unfoldable pub cap_id : (ℕ → ℕ) → ℕ → ℕ
cap_id mem o = mem o / 2 ^ 16 % 2 ^ 12

-- `if (capId == id && !cap) cap = o;`
unfoldable pub note : (ℕ → ℕ) → ℕ → ℕ → ℕ → ℕ
note mem id o cap = if cap_id mem o == id && cap == 0 then o else cap

unfoldable pub note_all : (ℕ → ℕ) → ℕ → Caps → Caps
note_all mem o c = record {
  ml_cap = note mem hda_cap_ml_id o c.ml_cap;
  pp_cap = note mem hda_cap_pp_id o c.pp_cap;
  spib_cap = note mem hda_cap_spib_id o c.spib_cap;
}

-- The loop from offset `o` on in a BAR of `len` bytes, with `n` turns left below 0x2000.
unfoldable pub scan : (ℕ → ℕ) → ℕ → ℕ → ℕ → Caps → Caps
scan mem len zero o c = c
scan mem len (suc n) o c =
    let rest = scan mem len n (o + 0x10) (note_all mem o c) in if ltb o len then rest else c

unfoldable pub find_caps : (ℕ → ℕ) → ℕ → Caps
find_caps mem len = scan mem len 432 0x500 (record { ml_cap = 0; pp_cap = 0; spib_cap = 0 })
