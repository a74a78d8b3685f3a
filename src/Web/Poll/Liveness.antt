-- ===== src/Web/Poll/Liveness.antt =====
-- The poll loop of apps/web/src/lib/paymentPoll.ts over sequences of events.
use pooli.Base.{ℕ, ◌≤◌, true, false, List, [], ◌∷◌, Option, none, some, Text, All, ◌≡◌, refl, arith}
use pooli.Web.Status.{should_poll}
use pooli.Web.Poll.{
  Poller, poll_interval_ms, tick, timer_fires, reload_settles, start, stop, set_hidden, Event,
  started, stopped, visibility, timer, settled, handle, run,
}

-- The intervals are between 2 and 5 seconds and never shrink.
pub poll_interval_ms-bounds :
    (n m : ℕ)
    → n ≤ m
    → (2000 ≤ poll_interval_ms n)
      × (poll_interval_ms n ≤ poll_interval_ms m)
      × (poll_interval_ms m ≤ 5000)
unfolding poll_interval_ms
poll_interval_ms-bounds n m h = (ground arith, ground arith, ground arith)

-- When the timer fires, 0 if none is set
abbrev pub delay : Option ℕ → ℕ
delay none = 0
delay (some ms) = ms

-- The loop runs, and the next poll is two to five seconds away.
abbrev pub IsPolling : Poller → Type 0
IsPolling s = (s.stopped ≡ false) × (2000 ≤ delay s.timer) × (delay s.timer ≤ 5000)

-- What may happen while a payment is awaited: no stop, and a status that is polled.
abbrev pub MayHappen : Event → Type 0
MayHappen (started status) = should_poll status ≡ true
MayHappen stopped = ⊥
MayHappen (visibility hidden status) = should_poll status ≡ true
MayHappen (timer status) = should_poll status ≡ true
MayHappen (settled status) = should_poll status ≡ true

handle-IsPolling : (e : Event) (s : Poller) → MayHappen e → IsPolling s → IsPolling (handle e s)
unfolding handle start set_hidden timer_fires tick reload_settles poll_interval_ms
handle-IsPolling (started status) s m h = ground arith
handle-IsPolling stopped s m h = absurd m
handle-IsPolling (visibility hidden status) s m h = ground arith
handle-IsPolling (timer status) s m h = ground arith
handle-IsPolling (settled status) s m h = ground arith

run-IsPolling :
    (es : List Event) (s : Poller) → All MayHappen es → IsPolling s → IsPolling (run es s)
unfolding run
run-IsPolling [] s ms h = h
run-IsPolling (e ∷ es) s (m, ms) h = run-IsPolling es (handle e s) ms (handle-IsPolling e s m h)

start-IsPolling :
    (status : Option Text) (s : Poller)
    → s.stopped ≡ true
    → should_poll status ≡ true
    → IsPolling (start status s)
unfolding start poll_interval_ms
start-IsPolling status s h m = ground arith

-- A poll loop that is started from a stop on a status that is polled keeps running with a timer of
-- 2 to 5 seconds set, through every sequence of events without a stop in which every status that is
-- read is polled, whether or not any reload settles.
pub run-start-IsPolling :
    (status : Option Text) (es : List Event) (s : Poller)
    → s.stopped ≡ true
    → should_poll status ≡ true
    → All MayHappen es
    → IsPolling (run es (start status s))
run-start-IsPolling status es s h m ms =
    run-IsPolling es (start status s) ms (start-IsPolling status s h m)

-- What may happen to a loop that is not started again.
abbrev pub NoStart : Event → Type 0
NoStart (started status) = ⊥
NoStart e = Unit

abbrev pub IsSilent : ℕ → Poller → Type 0
IsSilent n s = (s.stopped ≡ true) × (s.timer ≡ none) × (s.reloads ≡ n)

handle-IsSilent :
    (n : ℕ) (e : Event) (s : Poller) → NoStart e → IsSilent n s → IsSilent n (handle e s)
unfolding handle stop set_hidden timer_fires tick reload_settles
handle-IsSilent n (started status) s m h = absurd m
handle-IsSilent n stopped s m h = ground arith
handle-IsSilent n (visibility hidden status) s m h = ground arith
handle-IsSilent n (timer status) s m h = ground arith
handle-IsSilent n (settled status) s m h = ground arith

run-IsSilent :
    (n : ℕ) (es : List Event) (s : Poller) → All NoStart es → IsSilent n s → IsSilent n (run es s)
unfolding run
run-IsSilent n [] s ms h = h
run-IsSilent n (e ∷ es) s (m, ms) h = run-IsSilent n es (handle e s) ms (handle-IsSilent n e s m h)

-- Behind a stop and until the next start the poll loop stays stopped, sets no timer and calls no
-- reload, whatever events come, the end of a reload under way included.
pub run-stop-IsSilent :
    (es : List Event) (s : Poller) → All NoStart es → IsSilent s.reloads (run es (stop s))
unfolding stop
run-stop-IsSilent es s ms = run-IsSilent s.reloads es (stop s) ms (refl, refl, refl)
