-- ===== src/Kext/Boot/Windows.antt =====
-- The mailbox windows in initDSP() of kext/LatSOFAudio/LatSOFAudioDevice.cpp: where the messages to
-- the DSP and back lie, by the extended data after the FW_READY header. The offsets stay far below
-- 2 ^ 32: a header of at most 200 bytes, and twenty records of at most 4096.
pub mod Bounds
pub mod Choice
use lat_sofaudio.Prelude.{
  ℕ, zero, suc, ◌+◌, ◌*◌, ◌%◌, ◌^◌, Bool, ◌&&◌, ◌||◌, not, List, [], ◌∷◌, ltb, leb, ◌==◌,
  if◌then◌else◌,
}

-- MBOX_UPLINK, SRAM_WIN(n), SOF_IPC_FW_READY and SOF_IPC_EXT_WINDOW
abbrev pub mbox_uplink : ℕ
mbox_uplink = 0x81000

unfoldable pub sram_win : ℕ → ℕ
sram_win n = (0x80000 + n * 0x20000) % 2 ^ 32

abbrev pub sof_ipc_fw_ready : ℕ
sof_ipc_fw_ready = 0x7000_0000

abbrev pub sof_ipc_ext_window : ℕ
sof_ipc_ext_window = 1

-- A read of 32 bits at an offset: of the head of a record, of the count of its windows, or of a
-- window.
pub data Read : Type 0 where
  head count window : ℕ → Read

-- inboxOff and outboxOff, with the reads made so far, newest first.
pub record Boxes : Type 0 where
  pub inbox : ℕ
  pub outbox : ℕ
  pub reads : List Read

-- One window, of type 1 (SOF_IPC_REGION_UPBOX) or 0 (SOF_IPC_REGION_DOWNBOX). `mem` is what a read of
-- 32 bits at an offset in the DSP's BAR gives.
unfoldable pub window_base : (ℕ → ℕ) → ℕ → ℕ
window_base mem wb = (sram_win (mem (wb + 8)) + mem (wb + 20)) % 2 ^ 32

unfoldable pub take_window : (ℕ → ℕ) → ℕ → Boxes → Boxes
take_window mem wb b =
    let kind = mem (wb + 4) in
    record {
      inbox = if kind == 1 then window_base mem wb else b.inbox;
      outbox = if kind == 0 then window_base mem wb else b.outbox;
      reads = window (wb + 20) ∷ window (wb + 8) ∷ window (wb + 4) ∷ b.reads;
    }

-- The windows of a record, from the one at `wb` on, with `n` left.
unfoldable pub take_windows : (ℕ → ℕ) → ℕ → ℕ → ℕ → Boxes → Boxes
take_windows mem len wb zero b = b
take_windows mem len wb (suc n) b =
    let rest = take_windows mem len (wb + 24) n (take_window mem wb b) in
    if ltb len (wb + 24) then b else rest

-- The windows that a record has, eight at most.
unfoldable pub window_count : ℕ → ℕ
window_count nw = if ltb nw 8 then nw else 8

unfoldable pub take_record : (ℕ → ℕ) → ℕ → ℕ → Boxes → Boxes
take_record mem len ext b =
    if mem (ext + 8) == sof_ipc_ext_window
    then take_windows mem len (ext + 16) (window_count (mem (ext + 12)))
        (record b { reads = count (ext + 12) ∷ b.reads })
    else b

unfoldable pub see_head : ℕ → Boxes → Boxes
see_head ext b = record b { reads = head (ext + 8) ∷ head (ext + 4) ∷ head ext ∷ b.reads }

-- What ends the loop: no head, or one that is out of range.
unfoldable pub is_record : (ℕ → ℕ) → ℕ → Bool
is_record mem ext =
    mem (ext + 4) == sof_ipc_fw_ready && not (ltb (mem ext) 12 || ltb 4096 (mem ext))

-- The records from the one at `ext` on, with `n` turns left.
unfoldable pub take_records : (ℕ → ℕ) → ℕ → ℕ → ℕ → Boxes → Boxes
take_records mem len ext zero b = b
take_records mem len ext (suc n) b =
    let rest = take_records mem len (ext + mem ext) n (take_record mem len ext (see_head ext b)) in
    if ltb len (ext + 12) then b else if is_record mem ext then rest else see_head ext b

unfoldable pub with_fallback : Boxes → Boxes
with_fallback b = record b {
  inbox = if b.inbox == 0 then 0x81000 else b.inbox;
  outbox = if b.outbox == 0 then 0x82000 else b.outbox;
}

-- The mailboxes, of a FW_READY header of `size` bytes.
unfoldable pub find_boxes : (ℕ → ℕ) → ℕ → ℕ → Boxes
find_boxes mem len size =
    with_fallback
      (take_records mem len (mbox_uplink + size) 20 (record { inbox = 0; outbox = 0; reads = [] }))
