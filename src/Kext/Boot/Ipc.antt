-- ===== src/Kext/Boot/Ipc.antt =====
-- sendIpc() in initDSP() of kext/LatSOFAudio/LatSOFAudioDevice.cpp: a message into the mailbox, the
-- doorbell, and the reply.
pub mod Heard
use lat_sofaudio.Prelude.{
  ℕ, zero, suc, ◌+◌, ◌*◌, ◌/◌, ◌^◌, ◌-◌, Bool, Option, none, some, List, [], ◌∷◌, ◌==◌,
  if◌then◌else◌,
}

-- The mailbox at outboxOff: a word at each offset that is a multiple of 4.
pub record Mailbox : Type 0 where
  pub word : ℕ → ℕ

-- wr32(ob, i, …) for each word of the message, from offset `i` on.
unfoldable pub write_word : ℕ → ℕ → Mailbox → Mailbox
write_word i v m = record { word = λ j. if j == i then v else m.word j }

unfoldable pub write_words : List ℕ → ℕ → Mailbox → Mailbox
write_words [] i m = m
write_words (w ∷ ws) i m = write_words ws (i + 4) (write_word i w m)

-- The DSP: by the mailboxes that it found at each doorbell, newest first, what it leaves in the
-- mailbox when it sets DONE, none where it does not within half a second.
pub record Peer : Type 0 where
  pub answers : List Mailbox → Option Mailbox

-- The mailbox, what the DSP found in it so far, newest first, and the counts of replies.
pub record Link : Type 0 where
  pub mailbox : Mailbox
  pub found : List Mailbox
  pub ipc_ok : ℕ
  pub ipc_fail : ℕ

-- What sendIpc returns, and the link after it.
pub record Reply : Type 0 where
  pub value : ℕ
  pub link : Link

abbrev pub timed_out : ℕ
timed_out = 0xffff_ffff

-- The reply's error word, or 0xFFFFFFFF.
unfoldable pub receive : Option Mailbox → Link → Reply
receive none l = record { value = timed_out; link = l }
receive (some m) l = record { value = m.word 8; link = record l { mailbox = m } }

unfoldable pub send_ipc : Peer → List ℕ → Link → Reply
send_ipc p msg l =
    let m = write_words msg 0 l.mailbox in
    let found = m ∷ l.found in receive (p.answers found) (record l { mailbox = m; found = found })

-- countIpc
unfoldable pub count_ipc : Reply → Link
count_ipc r =
    let l = r.link in
    if r.value == 0
    then record l { ipc_ok = l.ipc_ok + 1 }
    else record l { ipc_fail = l.ipc_fail + 1 }

-- Messages that are sent one after the other, whatever the replies.
unfoldable pub send_all : Peer → List (List ℕ) → Link → Link
send_all p [] l = l
send_all p (msg ∷ msgs) l = send_all p msgs (count_ipc (send_ipc p msg l))
