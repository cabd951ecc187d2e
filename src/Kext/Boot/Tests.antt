-- ===== src/Kext/Boot/Tests.antt =====
-- Witnesses for the data of initDSP() in kext/LatSOFAudio/LatSOFAudioDevice.cpp.
use lat_sofaudio.Prelude.{
  ℕ, ◌+◌, ◌-◌, ◌*◌, ◌≡◌, refl, true, Option, none, some, List, [], ◌∷◌, ◌==◌, if◌then◌else◌, arith,
  length, ◌||◌, ◌/◌, ◌↔◌, ltb, ◌≤◌,
}
use lat_sofaudio.Kext.Boot.Bdl.{Segment, image_bdl, image_entries}
use lat_sofaudio.Kext.Boot.Bdl.Cover.{total, locate, interrupts_last, Describes, image_bdl-covers}
use lat_sofaudio.Kext.Boot.Capabilities.{cap_id, note, note_all, scan, find_caps}
use lat_sofaudio.Kext.Boot.Wake.{begin_init, config_read16, walk, link, pm_cap, power_write}
use lat_sofaudio.Kext.Boot.Wake.Bounds.{written, power_write-wakes, answers, begin_init-decoding}
use lat_sofaudio.Kext.Registers.Waits.{IsReadyWithin}
use lat_sofaudio.Kext.Boot.Windows.{
  head, count, find_boxes, take_records, take_record, take_windows, take_window, window_count,
  see_head, is_record, sram_win, window_base, with_fallback,
}
use lat_sofaudio.Kext.Boot.Windows.Bounds.{all_inside, find_boxes-inside}
use lat_sofaudio.Kext.Boot.Ipc.{Mailbox, Peer, Link, send_all}
use lat_sofaudio.Kext.Boot.Ipc.Heard.{hear_all, is_framed, all_framed, reverse_onto, send_all-heard}

-- An image of two and a half pages from 0x1_0000_8000 on.
abbrev image_size : ℕ
image_size = 10240

abbrev segments : ℕ → Segment
segments o = record { addr = 0x1_0000_8000 + o; len = image_size - o }

image-Describes : Describes (λ o. 0x1_0000_8000 + o) image_size segments
image-Describes = record {
  addr = λ o h. refl;
  len = λ o h. refl;
  run = λ o i h. omega arith;
  below = λ o h. omega arith;
}

image_bdl-covers_example :
    let es = image_bdl segments (image_entries image_size) image_size 0 in
    (total es ≡ image_size)
    × (interrupts_last es ≡ true)
    × (locate es 5000 ≡ some (0x1_0000_8000 + 5000))
image_bdl-covers_example =
    image_bdl-covers (λ o. 0x1_0000_8000 + o) image_size 5000 segments image-Describes (omega arith)
      (omega arith)

-- A BAR with the three capabilities at 0x700, 0x800 and 0xc00.
abbrev hda_bar : ℕ → ℕ
hda_bar o =
    if o == 0xc00
    then 0x1002_0500
    else if o == 0x800
    then 0x1003_0c00
    else if o == 0x700
    then 0x1004_0800
    else 0

three_capabilities :
    find_caps hda_bar 0x4000 ≡ record { ml_cap = 0xc00; pp_cap = 0x800; spib_cap = 0x700 }
unfolding find_caps scan note_all note cap_id
three_capabilities = refl

-- A header of 100 bytes, and one record with the windows up and down.
abbrev dsp_bar : ℕ → ℕ
dsp_bar o =
    if o == 0x81064
    then 64
    else if o == 0x81068
    then 0x7000_0000
    else if o == 0x8106c
    then 1
    else if o == 0x81070
    then 2
    else if o == 0x81078
    then 1
    else if o == 0x81088
    then 0x1400
    else if o == 0x810a0
    then 0x2400
    else 0

find_boxes-inside_example : all_inside 0x10_0000 (find_boxes dsp_bar 0x10_0000 100).reads ≡ true
find_boxes-inside_example = find_boxes-inside dsp_bar 0x10_0000 100

windows_found :
    let b = find_boxes dsp_bar 0x10_0000 100 in (b.inbox ≡ 0x81400) × (b.outbox ≡ 0x82400)
unfolding find_boxes take_records take_record take_windows take_window window_count see_head
    is_record sram_win window_base with_fallback
windows_found = (refl, refl)

-- In a BAR that ends behind the head of the record, the count of windows is read past the end.
count_overruns :
    (find_boxes dsp_bar 0x81070 100).reads
    ≡ count 0x81070 ∷ head 0x8106c ∷ head 0x81068 ∷ head 0x81064 ∷ []
unfolding find_boxes take_records take_record take_windows take_window window_count see_head
    is_record sram_win window_base with_fallback
count_overruns = refl

-- A DSP that answers 0 to its first message, -22 to the second, and nothing from then on.
abbrev answer : List Mailbox → Option Mailbox
answer [] = none
answer (m ∷ []) = some (record { word = λ i. 0 })
answer (m ∷ n ∷ []) = some (record { word = λ i. 0xffff_ffea })
answer (m ∷ n ∷ o ∷ ms) = none

abbrev dsp : Peer
dsp = record { answers = answer }

abbrev junk : Mailbox
junk = record { word = λ i. 0xdead_beef }

abbrev fresh : Link
fresh = record { mailbox = junk; found = []; ipc_ok = 0; ipc_fail = 0 }

abbrev three_messages : List (List ℕ)
three_messages =
    (16 ∷ 0x3003_0000 ∷ 34 ∷ 31 ∷ []) ∷ (12 ∷ 0x3013_0000 ∷ 30 ∷ []) ∷ (8 ∷ 0xf000_0000 ∷ []) ∷ []

send_all-heard_example :
    let l = send_all dsp three_messages fresh in
    (hear_all l.found ≡ reverse_onto three_messages (hear_all fresh.found))
    × (l.ipc_ok + l.ipc_fail ≡ fresh.ipc_ok + fresh.ipc_fail + length three_messages)
unfolding all_framed is_framed
send_all-heard_example = send_all-heard dsp three_messages fresh refl

-- A configuration space whose list begins at 0x50 and has the PM capability at 0x80, in D3.
abbrev asleep : ℕ → ℕ
asleep o =
    if o == 0x06
    then 0x10
    else if o == 0x34
    then 0x50
    else if o == 0x50
    then 0x05
    else if o == 0x51
    then 0x80
    else if o == 0x80
    then 0x01
    else if o == 0x84
    then 0x0b
    else if o == 0x85
    then 0x01
    else 0

power_write-wakes_example :
    let pm = pm_cap asleep in
    let after = written (power_write asleep) asleep in
    (pm == 0 || asleep pm == 1 ≡ true)
    × (pm == 0 || config_read16 after (pm + 4) == config_read16 asleep (pm + 4) / 4 * 4 ≡ true)
    × (0x85 == pm + 4 || 0x85 == pm + 5 || after 0x85 == asleep 0x85 ≡ true)
power_write-wakes_example = power_write-wakes asleep 0x85

woken : power_write asleep ≡ some (record { offset = 0x84; value = 0x108 })
unfolding power_write pm_cap walk link config_read16
woken = refl

-- A controller that decodes at the fourth read, on a link that comes up at the eleventh.
abbrev gcap : ℕ → ℕ
gcap t = if ltb t 3 then 0xffff else 0x9701

begin_init-decoding_example :
    let b = begin_init asleep gcap (λ t. ltb 9 t) in
    ((b.decoding ≡ true) ↔ IsReadyWithin (answers gcap) 0 51) × (b.slept ≤ 2260)
begin_init-decoding_example = begin_init-decoding asleep gcap (λ t. ltb 9 t)
