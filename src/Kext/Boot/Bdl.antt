-- ===== src/Kext/Boot/Bdl.antt =====
-- Buffer descriptor lists of kext/LatSOFAudio/LatSOFAudioDevice.cpp: of the firmware image in
-- initDSP(), and of the capture ring in start() and initDSP().
pub mod Cover
use lat_sofaudio.Prelude.{
  ℕ, zero, suc, ◌+◌, ◌-◌, ◌*◌, ◌/◌, ◌%◌, ◌^◌, Bool, true, List, [], ◌∷◌, ltb, leb, ◌==◌,
  if◌then◌else◌,
}

-- HdaBdlEntry
pub record BdlEntry : Type 0 where
  pub addr_low : ℕ
  pub addr_high : ℕ
  pub size : ℕ
  pub ioc : Bool

-- PAGE_SIZE
abbrev pub page_size : ℕ
page_size = 4096

-- What getPhysicalSegment gives at an offset: an address, and how far it goes on.
pub record Segment : Type 0 where
  pub addr : ℕ
  pub len : ℕ

-- numBdl of the firmware: its pages, 256 at most
unfoldable pub image_entries : ℕ → ℕ
image_entries payload =
    let n = (payload + page_size - 1) / page_size in if ltb 256 n then 256 else n

-- At most a page, and what is left.
unfoldable pub page_chunk : ℕ → ℕ
page_chunk rem = if ltb page_size rem then page_size else rem

unfoldable pub segment_chunk : ℕ → ℕ → ℕ
segment_chunk rem len = if ltb len (page_chunk rem) then len else page_chunk rem

-- (UInt32)(p & 0xFFFFFFFF), (UInt32)(p >> 32)
unfoldable pub entry : ℕ → ℕ → Bool → BdlEntry
entry p n ioc = record {
  addr_low = p % 2 ^ 32;
  addr_high = p / 2 ^ 32 % 2 ^ 32;
  size = n;
  ioc = ioc;
}

-- The entries of the firmware image, with `n` turns left; the others stay 0. rem counts down by no
-- more than itself, and boff is 64 bits wide.
unfoldable pub image_bdl : (ℕ → Segment) → ℕ → ℕ → ℕ → List BdlEntry
image_bdl segments zero rem boff = []
image_bdl segments (suc n) rem boff =
    let s = segments boff in
    let c = segment_chunk rem s.len in
    let rest = image_bdl segments n (rem - c) (boff + c) in
    if rem == 0 then [] else entry s.addr c (leb rem c) ∷ rest

-- The entries of the capture ring, which is contiguous.
unfoldable pub ring_bdl : ℕ → ℕ → ℕ → List BdlEntry
ring_bdl zero rem phys = []
ring_bdl (suc n) rem phys =
    let c = page_chunk rem in
    let rest = ring_bdl n (rem - c) ((phys + c) % 2 ^ 64) in
    if rem == 0 then [] else entry phys c true ∷ rest

-- kLatSOF_CapBufferSize, and its numBdl
abbrev pub ring_size : ℕ
ring_size = 16384 * 8

unfoldable pub ring_entries : ℕ
ring_entries = (ring_size + page_size - 1) / page_size

unfoldable pub capture_bdl : ℕ → List BdlEntry
capture_bdl phys = ring_bdl ring_entries ring_size phys
