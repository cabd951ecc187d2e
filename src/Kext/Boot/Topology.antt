-- ===== src/Kext/Boot/Topology.antt =====
-- The topology that initDSP() of kext/LatSOFAudio/LatSOFAudioDevice.cpp builds in the DSP: pipeline 3,
-- from the digital microphones to the host.
pub mod Graph
use lat_sofaudio.Prelude.{
  ℕ, zero, suc, ◌+◌, ◌*◌, ◌/◌, ◌%◌, ◌^◌, ◌-◌, Bool, not, ◌&&◌, List, [], ◌∷◌, ◌==◌, leb, ltb,
  if◌then◌else◌,
}
use lat_sofaudio.Kext.Boot.Ipc.{Peer, Link, send_ipc, send_all}

-- PIPE3_*
abbrev pub pipe3_id : ℕ
pipe3_id = 3

abbrev pub pipe3_sched_id : ℕ
pipe3_sched_id = 30

abbrev pub pipe3_buf0_id : ℕ
pipe3_buf0_id = 31

abbrev pub pipe3_dai_id : ℕ
pipe3_dai_id = 34

abbrev pub pipe3_host_id : ℕ
pipe3_host_id = 35

-- `UInt32 m[n] = {}`, and then m[i] = v for the pairs
unfoldable pub words_at : ℕ → List (ℕ × ℕ) → ℕ → ℕ
words_at zero_word [] i = zero_word
words_at zero_word ((j, v) ∷ ps) i = if i == j then v else words_at zero_word ps i

unfoldable pub collect : (ℕ → ℕ) → ℕ → ℕ → List ℕ
collect f i zero = []
collect f i (suc n) = f i ∷ collect f (i + 1) n

unfoldable pub words : ℕ → List (ℕ × ℕ) → List ℕ
words n ps = collect (words_at 0 ps) 0 n

-- A value of some bytes at an offset, the lowest byte first; the byte at an offset; the words.
pub record Store : Type 0 where
  pub offset : ℕ
  pub bytes : ℕ
  pub value : ℕ

unfoldable pub byte_at : List Store → ℕ → ℕ
byte_at [] i = 0
byte_at (s ∷ ss) i =
    if leb s.offset i && ltb i (s.offset + s.bytes)
    then s.value / 2 ^ (8 * (i - s.offset)) % 256
    else byte_at ss i

unfoldable pub word_at : List Store → ℕ → ℕ
word_at ss i =
    byte_at ss (4 * i)
    + 2 ^ 8 * byte_at ss (4 * i + 1)
    + 2 ^ 16 * byte_at ss (4 * i + 2)
    + 2 ^ 24 * byte_at ss (4 * i + 3)

unfoldable pub pipeline_message : List ℕ
pipeline_message =
    48 ∷ 0x3010_0000 ∷ pipe3_sched_id ∷ pipe3_id ∷ pipe3_host_id ∷ 0 ∷ 1000 ∷ 0 ∷ 5000 ∷ 0 ∷ 0 ∷ 1
    ∷ []

unfoldable pub buffer_message : List ℕ
buffer_message = 44 ∷ 0x3020_0000 ∷ pipe3_buf0_id ∷ 12 ∷ pipe3_id ∷ 0 ∷ 0 ∷ 9600 ∷ 0x71 ∷ 0 ∷ 0 ∷ []

unfoldable pub host_message : List ℕ
host_message = words 19 (
    (0, 76)
    ∷ (1, 0x3001_0000)
    ∷ (2, pipe3_host_id)
    ∷ (3, 1)
    ∷ (4, pipe3_id)
    ∷ (7, 36)
    ∷ (9, 2)
    ∷ (10, 2)
    ∷ (12, 2)
    ∷ (16, 1)
    ∷ [])

unfoldable pub dai_message : List ℕ
dai_message = words 20 (
    (0, 80)
    ∷ (1, 0x3001_0000)
    ∷ (2, pipe3_dai_id)
    ∷ (3, 2)
    ∷ (4, pipe3_id)
    ∷ (7, 36)
    ∷ (10, 2)
    ∷ (12, 2)
    ∷ (16, 1)
    ∷ (17, 0)
    ∷ (18, 2)
    ∷ [])

-- `d` is at 52, and `p0` at 124.
abbrev at : ℕ → ℕ → ℕ → Store
at o n v = record { offset = o; bytes = n; value = v }

unfoldable pub dai_config_stores : List Store
dai_config_stores =
    at 0 4 216
    ∷ at 4 4 0x8001_0000
    ∷ at 8 4 2
    ∷ at 12 4 0
    ∷ at 16 2 6
    ∷ at 52 4 0
    ∷ at 56 4 1
    ∷ at 60 4 2400000
    ∷ at 64 4 4800000
    ∷ at 68 4 48000
    ∷ at 76 2 32
    ∷ at 78 2 32
    ∷ at 80 2 40
    ∷ at 82 2 60
    ∷ at 84 4 1
    ∷ at 96 4 400
    ∷ at 124 2 0
    ∷ at 126 2 1
    ∷ at 128 2 1
    ∷ []

unfoldable pub dai_config_message : List ℕ
dai_config_message = collect (word_at dai_config_stores) 0 54

unfoldable pub connect_message : ℕ → ℕ → List ℕ
connect_message source sink = 16 ∷ 0x3003_0000 ∷ source ∷ sink ∷ []

unfoldable pub complete_message : List ℕ
complete_message = 12 ∷ 0x3013_0000 ∷ pipe3_sched_id ∷ []

-- The messages that are counted, in the order in which they are sent.
unfoldable pub topology : List (List ℕ)
topology =
    pipeline_message
    ∷ buffer_message
    ∷ host_message
    ∷ dai_message
    ∷ dai_config_message
    ∷ connect_message pipe3_dai_id pipe3_buf0_id
    ∷ connect_message pipe3_buf0_id pipe3_host_id
    ∷ complete_message
    ∷ []

-- The message that tries the mailbox, and PM_CTX_RESTORE.
unfoldable pub probe_message : List ℕ
probe_message = 8 ∷ 0xF000_0000 ∷ []

unfoldable pub restore_message : List ℕ
restore_message = 12 ∷ 0x4002_0000 ∷ 0 ∷ []

-- All that initDSP sends once the firmware is ready.
unfoldable pub bring_up : Peer → Link → Link
bring_up p l =
    (send_ipc p restore_message (send_all p topology (send_ipc p probe_message l).link)).link

-- Not one answered with 0: the firmware's mailbox is dead, and the attempt has failed.
unfoldable pub is_alive : Link → Bool
is_alive l = not (l.ipc_ok == 0)
