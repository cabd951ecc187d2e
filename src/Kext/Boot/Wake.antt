-- ===== src/Kext/Boot/Wake.antt =====
-- How initDSP() of kext/LatSOFAudio/LatSOFAudioDevice.cpp begins: the PCI function back to D0, and the
-- waits for the controller (GCAP) and for the link (GCTL.CRST), by what each read gives.
pub mod Bounds
use lat_sofaudio.Prelude.{
  ℕ, zero, suc, ◌+◌, ◌*◌, ◌/◌, ◌%◌, Bool, true, false, not, is_none, ◌&&◌, ◌||◌, Option, none, some,
  if◌then◌else◌, ◌==◌, ltb,
}

-- configRead16(), by configRead8()
unfoldable pub config_read16 : (ℕ → ℕ) → ℕ → ℕ
config_read16 cfg o = cfg o + 256 * cfg (o + 1)

-- A byte of the list, `& 0xFC`
unfoldable pub link : ℕ → ℕ
link x = x / 4 % 64 * 4

-- The walk from offset `off` on, with `n` turns left; 0 where there is no such capability.
unfoldable pub walk : (ℕ → ℕ) → ℕ → ℕ → ℕ
walk cfg zero off = 0
walk cfg (suc n) off =
    let rest = walk cfg n (link (cfg (off + 1))) in
    if ltb off 0x40 then 0 else if cfg off == 1 then off else rest

unfoldable pub pm_cap : (ℕ → ℕ) → ℕ
pm_cap cfg = if config_read16 cfg 0x06 / 16 % 2 == 1 then walk cfg 48 (link (cfg 0x34)) else 0

-- A configWrite16().
pub record ConfigWrite : Type 0 where
  pub offset : ℕ
  pub value : ℕ

unfoldable pub power_write : (ℕ → ℕ) → Option ConfigWrite
power_write cfg =
    let pm = pm_cap cfg in
    let pmcs = config_read16 cfg (pm + 4) in
    if not (pm == 0) && not (pmcs % 4 == 0)
    then some (record { offset = pm + 4; value = pmcs / 4 * 4 })
    else none

-- A read of GCAP that cannot be trusted.
unfoldable pub is_void : ℕ → Bool
is_void g = g == 0xffff || g == 0

-- What a wait ends with: its last read, and the turns that it took.
pub record Waited : Type 0 where
  pub value : ℕ
  pub tries : ℕ

-- The wait for GCAP from the t-th read on, with `n` turns left.
unfoldable pub await_gcap : (ℕ → ℕ) → ℕ → ℕ → Waited
await_gcap gcap t zero = record { value = gcap t; tries = t }
await_gcap gcap t (suc n) =
    let rest = await_gcap gcap (t + 1) n in
    if is_void (gcap t) then rest else record { value = gcap t; tries = t }

-- The turns that the wait for the link takes, by whether the t-th read has CRST.
unfoldable pub await_link : (ℕ → Bool) → ℕ → ℕ → ℕ
await_link crst t zero = t
await_link crst t (suc n) = let rest = await_link crst (t + 1) n in if crst t then t else rest

-- How the beginning ends: whether the controller decodes, and the milliseconds that it slept.
pub record Begun : Type 0 where
  pub decoding : Bool
  pub slept : ℕ

unfoldable pub begin_init : (ℕ → ℕ) → (ℕ → ℕ) → (ℕ → Bool) → Begun
begin_init cfg gcap crst =
    let woken = if is_none (power_write cfg) then 0 else 10 in
    let w = await_gcap gcap 0 50 in
    let t = await_link crst 0 100 in
    let settle = if crst (t + 1) then 750 else 0 in
    if is_void w.value
    then record { decoding = false; slept = woken + w.tries * 10 }
    else record { decoding = true; slept = woken + w.tries * 10 + t * 10 + settle }
