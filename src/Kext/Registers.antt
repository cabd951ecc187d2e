-- ===== src/Kext/Registers.antt =====
-- Register accesses of kext/LatSOFAudio/LatSOFAudioDevice.cpp: the state of AppleHDA's output
-- descriptor, and the two bounded waits.
pub mod Waits
use lat_sofaudio.Prelude.{
  ℕ, zero, suc, ◌+◌, ◌*◌, ◌/◌, ◌%◌, ◌^◌, Bool, true, false, ◌||◌, not, Option, none, some,
  if◌then◌else◌, ◌==◌,
}
use lat_sofaudio.Kext.Types.{Mmio}

-- What outputSdBusyState answers: -1, 0, 1 or 2.
pub data Sd : Type 0 where
  not_decoding quiet running programmed : Sd

-- The offset of SD(numISS), by GCAP.
unfoldable pub out_sd : ℕ → ℕ
out_sd g = 128 + g / 256 % 16 * 32

-- outputSdBusyState()
unfoldable pub output_sd_busy_state : Mmio → Sd
output_sd_busy_state m =
    let g = m.rd16 0 in
    let o = out_sd g in
    if g == 65535 || g == 0
    then not_decoding
    else if m.rd8 o / 2 % 2 == 1
    then running
    else if not (m.rd32 (o + 8) == 0) || not (m.rd32 (o + 24) == 0) || not (m.rd32 (o + 28) == 0)
    then programmed
    else quiet

-- poll32() with a bound of `n` rounds of 500 µs, by what each read from the `t`-th on compares to.
unfoldable pub poll : (ℕ → Bool) → ℕ → ℕ → Bool
poll ready t zero = false
poll ready t (suc n) = let rest = poll ready (t + 1) n in if ready t then true else rest

unfoldable pub poll32 : (ℕ → Bool) → ℕ → Bool
poll32 ready usec = poll ready 0 ((usec + 499) / 500)

-- The Immediate Command Interface, by what its n-th read of ICIS and its read of IRII give.
pub record Ici : Type 0 where
  pub icb : ℕ → Bool
  pub irv : ℕ → Bool
  pub irii : ℕ

-- What iciVerb does: the response, whether it put the verb on the link, and its reads of ICIS.
pub record IciResult : Type 0 where
  pub response : Option ℕ
  pub issued : Bool
  pub reads : ℕ

-- The wait for the response, from the t-th read on, with n rounds left.
unfoldable pub await_response : Ici → ℕ → ℕ → IciResult
await_response i t zero = record { response = none; issued = true; reads = t }
await_response i t (suc n) =
    let rest = await_response i (t + 1) n in
    if i.irv t then record { response = some i.irii; issued = true; reads = t + 1 } else rest

-- The wait for a quiet interface.
unfoldable pub claim_ici : Ici → ℕ → ℕ → IciResult
claim_ici i t zero =
    if i.icb t
    then record { response = none; issued = false; reads = t + 1 }
    else await_response i (t + 1) 100
claim_ici i t (suc n) =
    let rest = claim_ici i (t + 1) n in if i.icb t then rest else await_response i (t + 1) 100

-- iciVerb()
unfoldable pub ici_verb : Ici → IciResult
ici_verb i = claim_ici i 0 100
