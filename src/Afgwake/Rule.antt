-- ===== src/Afgwake/Rule.antt =====
-- The one rule of contrib/latsof-afgwake.c: it sets a power state only right after it read one that is
-- not D0, and nothing but D0.
use lat_sofaudio.Prelude.{
  ℕ, ◌≡◌, Bool, true, false, ◌&&◌, ◌||◌, Option, List, [], ◌∷◌, if◌then◌else◌, branch, ◌==◌, arith,
}
use lat_sofaudio.Afgwake.{
  Sent, Tool, Codec, Result, sent_verb, as_long, is_answer, send, codec_verb, actual, power_actual,
  is_wrong, correct_if_wrong, prearm_for_jack, any_jack, on_change, backstop, any_device_running,
  Notice, changes, timer, handle, watch,
}

-- A read of the function group that answered a state other than D0.
unfoldable pub shows_wrong : Sent → Bool
shows_wrong s = s.nid == 1 && s.verb == 3845 && is_wrong (actual (as_long s.answer))

unfoldable pub follows_wrong : List Sent → Bool
follows_wrong [] = false
follows_wrong (s ∷ ss) = shows_wrong s

-- Every verb is a read of the function group's power state, or sets it to D0 right after such a read.
unfoldable pub is_lawful : List Sent → Bool
is_lawful [] = true
is_lawful (s ∷ ss) =
    s.nid == 1
    && s.param == 0
    && (s.verb == 3845 || s.verb == 1797 && follows_wrong ss)
    && is_lawful ss

read-is_lawful :
    (c : Codec) (t : Tool) → is_lawful t.log ≡ true → is_lawful (power_actual c 1 t).tool.log ≡ true
unfolding power_actual codec_verb send sent_verb is_lawful
read-is_lawful c t h = ground arith

read-shows_wrong :
    (c : Codec) (t : Tool)
    → is_wrong (actual (send c 1 3845 0 t).value) ≡ true
    → follows_wrong (send c 1 3845 0 t).tool.log ≡ true
unfolding send sent_verb follows_wrong shows_wrong
read-shows_wrong c t h = ground arith

read-follows_wrong :
    (c : Codec) (t : Tool)
    → is_wrong (power_actual c 1 t).value ≡ true
    → follows_wrong (power_actual c 1 t).tool.log ≡ true
unfolding power_actual codec_verb is_wrong actual
read-follows_wrong c t =
    branch
      (λ (r : Result (Option ℕ)).
        is_wrong (actual r.value) ≡ true → follows_wrong r.tool.log ≡ true)
      (t.port || c.opens t.log) (λ _ h. read-shows_wrong c (record t { port = true }) h)
      (λ _ h. ground arith)

power_actual-is_lawful :
    (c : Codec) (t : Tool)
    → is_lawful t.log ≡ true
    → let r = power_actual c 1 t in
      (is_lawful r.tool.log ≡ true) × (is_wrong r.value ≡ true → follows_wrong r.tool.log ≡ true)
power_actual-is_lawful c t h = (read-is_lawful c t h, read-follows_wrong c t)

set-is_lawful :
    (c : Codec) (t : Tool)
    → is_lawful t.log ≡ true
    → follows_wrong t.log ≡ true
    → is_lawful (codec_verb c 1 1797 0 t).tool.log ≡ true
unfolding codec_verb send sent_verb is_lawful
set-is_lawful c t h f = ground arith

pub correct_if_wrong-is_lawful :
    (c : Codec) (t : Tool)
    → is_lawful t.log ≡ true
    → is_lawful (correct_if_wrong c t).tool.log ≡ true
unfolding correct_if_wrong
correct_if_wrong-is_lawful c t h =
    let (l, w) = power_actual-is_lawful c t h in
    let r = power_actual c 1 t in
    branch (λ (u : Result Bool). is_lawful u.tool.log ≡ true) (is_wrong r.value)
      (λ x.
        let s = set-is_lawful c r.tool l (w x) in
        branch (λ (u : Result Bool). is_lawful u.tool.log ≡ true)
          (is_answer (codec_verb c 1 1797 0 r.tool).value) (λ _. (power_actual-is_lawful c _ s).0)
          (λ _. s))
      (λ _. l)

prearm_for_jack-is_lawful :
    (c : Codec) (t : Tool) → is_lawful t.log ≡ true → is_lawful (prearm_for_jack c t).log ≡ true
unfolding prearm_for_jack
prearm_for_jack-is_lawful c t h =
    let (l, w) = power_actual-is_lawful c t h in
    let r = power_actual c 1 t in
    branch (λ (u : Tool). is_lawful u.log ≡ true) (is_wrong r.value)
      (λ x. set-is_lawful c r.tool l (w x)) (λ _. l)

backstop-is_lawful :
    (c : Codec) (b : Bool) (t : Tool)
    → is_lawful t.log ≡ true
    → is_lawful (backstop c b t).log ≡ true
unfolding backstop
backstop-is_lawful c true t h = correct_if_wrong-is_lawful c t h
backstop-is_lawful c false t h = h

handle-is_lawful :
    (c : Codec) (n : Notice) (t : Tool)
    → is_lawful t.log ≡ true
    → is_lawful (handle c n t).log ≡ true
unfolding handle on_change backstop
handle-is_lawful c (timer ds) t h = backstop-is_lawful c (any_device_running ds) t h
handle-is_lawful c (changes ps ds) t h =
    backstop-is_lawful c (any_device_running ds) (if any_jack ps then prearm_for_jack c t else t) (
      branch (λ (u : Tool). is_lawful u.log ≡ true) (any_jack ps)
        (λ _. prearm_for_jack-is_lawful c t h) (λ _. h))

-- Whatever notifications and timer ticks come, whatever devices run and whatever the codec answers:
-- every verb the tool sends reads the power state of the function group, or sets it to D0 directly
-- after a read that answered a state other than D0.
pub watch-is_lawful :
    (c : Codec) (ns : List Notice) (t : Tool)
    → is_lawful t.log ≡ true
    → is_lawful (watch c ns t).log ≡ true
unfolding watch
watch-is_lawful c [] t h = h
watch-is_lawful c (n ∷ ns) t h = watch-is_lawful c ns (handle c n t) (handle-is_lawful c n t h)
