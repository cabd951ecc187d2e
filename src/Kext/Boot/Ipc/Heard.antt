-- ===== src/Kext/Boot/Ipc/Heard.antt =====
-- What the DSP hears of the messages of sendIpc(), which stand in one mailbox over each other.
use lat_sofaudio.Prelude.{
  ℕ, zero, suc, ◌+◌, ◌*◌, ◌/◌, ◌<◌, ◌≡◌, refl, ap, ◌∙◌, Bool, true, false, ◌&&◌, Option, none, some,
  List, [], ◌∷◌, ◌==◌, arith, length,
}
use lat_sofaudio.Kext.Boot.Ipc.{
  Mailbox, write_word, write_words, Peer, Link, Reply, receive, send_ipc, count_ipc, send_all,
}

-- The first `n` words from an offset on.
unfoldable pub read_words : Mailbox → ℕ → ℕ → List ℕ
read_words m i zero = []
read_words m i (suc n) = m.word i ∷ read_words m (i + 4) n

-- A message as the firmware takes it: the first word says how many bytes there are.
unfoldable pub hear : Mailbox → List ℕ
hear m = read_words m 0 (m.word 0 / 4)

unfoldable pub hear_all : List Mailbox → List (List ℕ)
hear_all [] = []
hear_all (m ∷ ms) = hear m ∷ hear_all ms

-- A message whose first word is its size in bytes.
unfoldable pub is_framed : List ℕ → Bool
is_framed [] = false
is_framed (w ∷ ws) = w == 4 * (1 + length ws)

unfoldable pub all_framed : List (List ℕ) → Bool
all_framed [] = true
all_framed (m ∷ ms) = is_framed m && all_framed ms

write_words-below :
    (ws : List ℕ) (i j : ℕ) (m : Mailbox) → j < i → (write_words ws i m).word j ≡ m.word j
unfolding write_words
write_words-below [] i j m h = refl
write_words-below (w ∷ ws) i j m h =
    write_words-below ws (i + 4) j (write_word i w m) (omega arith) ∙ other
  where
    other : (write_word i w m).word j ≡ m.word j
    other = unfold write_word in ground arith

write_words-first :
    (w : ℕ) (ws : List ℕ) (i : ℕ) (m : Mailbox) → (write_words (w ∷ ws) i m).word i ≡ w
unfolding write_words write_word
write_words-first w ws i m =
    write_words-below ws (i + 4) i (write_word i w m) (omega arith) ∙ (ground arith)

read_words-write_words :
    (ws : List ℕ) (i : ℕ) (m : Mailbox) → read_words (write_words ws i m) i (length ws) ≡ ws
unfolding read_words write_words
read_words-write_words [] i m = refl
read_words-write_words (w ∷ ws) i m =
    rw (write_words-first w ws i m, read_words-write_words ws (i + 4) (write_word i w m)) refl

hear-write_words :
    (msg : List ℕ) (m : Mailbox) → is_framed msg ≡ true → hear (write_words msg 0 m) ≡ msg
unfolding hear is_framed
hear-write_words [] m h = ground arith
hear-write_words (w ∷ ws) m h =
    let n : w / 4 ≡ suc (length ws) = ground arith in
    rw (write_words-first w ws 0 m, n) (read_words-write_words (w ∷ ws) 0 m)

-- What a message adds to what was found, and to the count of replies.
receive-found : (o : Option Mailbox) (l : Link) → (receive o l).link.found ≡ l.found
unfolding receive
receive-found none l = refl
receive-found (some m) l = refl

receive-counts :
    (o : Option Mailbox) (l : Link)
    → let r = receive o l in r.link.ipc_ok + r.link.ipc_fail ≡ l.ipc_ok + l.ipc_fail
unfolding receive
receive-counts none l = refl
receive-counts (some m) l = refl

count_ipc_lem :
    (r : Reply)
    → ((count_ipc r).found ≡ r.link.found)
      × ((count_ipc r).ipc_ok + (count_ipc r).ipc_fail ≡ r.link.ipc_ok + r.link.ipc_fail + 1)
unfolding count_ipc
count_ipc_lem r = ground arith

-- One framed message, and what is heard after it.
pub send_ipc-heard :
    (p : Peer) (msg : List ℕ) (l : Link)
    → is_framed msg ≡ true
    → hear_all (send_ipc p msg l).link.found ≡ msg ∷ hear_all l.found
unfolding send_ipc hear_all
send_ipc-heard p msg l h =
    let m = write_words msg 0 l.mailbox in
    let sent : Link = record l { mailbox = m; found = m ∷ l.found } in
    ap hear_all (receive-found (p.answers (m ∷ l.found)) sent)
    ∙ ap (λ x. x ∷ hear_all l.found) (hear-write_words msg l.mailbox h)

count_ipc-send_ipc :
    (p : Peer) (msg : List ℕ) (l : Link)
    → let l' = count_ipc (send_ipc p msg l) in
      (l'.found ≡ (send_ipc p msg l).link.found)
      × (l'.ipc_ok + l'.ipc_fail ≡ l.ipc_ok + l.ipc_fail + 1)
unfolding send_ipc
count_ipc-send_ipc p msg l =
    let m = write_words msg 0 l.mailbox in
    let sent : Link = record l { mailbox = m; found = m ∷ l.found } in
    let o = p.answers (m ∷ l.found) in
    let (f, c) = count_ipc_lem (receive o sent) in (f, c ∙ ap (λ n. n + 1) (receive-counts o sent))

unfoldable pub reverse_onto : List (List ℕ) → List (List ℕ) → List (List ℕ)
reverse_onto [] acc = acc
reverse_onto (m ∷ ms) acc = reverse_onto ms (m ∷ acc)

-- Each message is framed: whatever the DSP answers to any of them and whatever stood in the mailbox,
-- the DSP hears every one, in order and complete, and each is counted once, with a reply of 0 or not.
pub send_all-heard :
    (p : Peer) (msgs : List (List ℕ)) (l : Link)
    → all_framed msgs ≡ true
    → let l' = send_all p msgs l in
      (hear_all l'.found ≡ reverse_onto msgs (hear_all l.found))
      × (l'.ipc_ok + l'.ipc_fail ≡ l.ipc_ok + l.ipc_fail + length msgs)
unfolding send_all all_framed reverse_onto hear_all
send_all-heard p [] l h = (refl, omega arith)
send_all-heard p (msg ∷ msgs) l h =
    let l' = count_ipc (send_ipc p msg l) in
    let (e, n) = send_all-heard p msgs l' (ground arith) in
    let heard : hear_all l'.found ≡ msg ∷ hear_all l.found =
      ap hear_all (count_ipc-send_ipc p msg l).0 ∙ send_ipc-heard p msg l (ground arith) in
    (e ∙ ap (reverse_onto msgs) heard, omega (arith, count_ipc-send_ipc p msg l))
