-- ===== src/Web/Poll.antt =====
-- apps/web/src/lib/paymentPoll.ts: the poll loop of the checkout page as a state machine.
-- An event carries the status that `getStatus` returns while it is handled. The tick is cut at
-- `await opts.reload()`: `timer_fires` is what comes before, `reload_settles` what comes after.
pub mod Liveness
use pooli.Base.{
  ℕ, zero, suc, ◌+◌, Bool, true, false, not, ◌&&◌, ◌||◌, List, [], ◌∷◌, Option, none, some, Text,
  leb, if◌then◌else◌,
}
use pooli.Web.Status.{should_poll}

unfoldable pub poll_interval_ms : ℕ → ℕ
poll_interval_ms attempt = if leb attempt 5 then 2000 else if leb attempt 20 then 3000 else 5000

-- The variables of `createPaymentStatusPoller`: `timer` is the delay of the timer that is set, and
-- `reloads` counts the calls of `reload`.
pub record Poller : Type 0 where
  pub attempt : ℕ
  pub timer : Option ℕ
  pub stopped : Bool
  pub hidden : Bool
  pub in_flight : Bool
  pub reloads : ℕ

abbrev pub created : Poller
created = record {
  attempt = 0;
  timer = none;
  stopped = true;
  hidden = false;
  in_flight = false;
  reloads = 0;
}

abbrev pub clear_timer : Poller → Poller
clear_timer s = record s { timer = none }

abbrev pub arm : ℕ → Poller → Poller
arm ms s = if s.stopped then clear_timer s else record s { timer = some ms }

-- `tick` up to its `await`
unfoldable pub tick : Option Text → Poller → Poller
tick status s =
    if s.stopped
    then s
    else if not (should_poll status)
    then record s { attempt = 0 }
    else if s.hidden
    then arm 5000 s
    else let armed =
        arm (poll_interval_ms (suc s.attempt)) (record s { attempt = suc s.attempt }) in
      if s.in_flight then armed else record armed { in_flight = true; reloads = suc s.reloads }

-- The timer's callback
unfoldable pub timer_fires : Option Text → Poller → Poller
timer_fires status s = tick status (clear_timer s)

-- `tick` behind its `await`, when `reload` has returned or thrown
unfoldable pub reload_settles : Option Text → Poller → Poller
reload_settles status s =
    let landed = record s { in_flight = false } in
    if s.stopped
    then landed
    else if not (should_poll status)
    then clear_timer (record landed { attempt = 0 })
    else landed

unfoldable pub start : Option Text → Poller → Poller
start status s =
    let started = record s { stopped = false; attempt = 0 } in
    if not s.stopped
    then s
    else if not (should_poll status)
    then record started { stopped = true }
    else arm (poll_interval_ms 0) started

unfoldable pub stop : Poller → Poller
stop s = clear_timer (record s { stopped = true; attempt = 0 })

abbrev pub is_set : Option ℕ → Bool
is_set none = false
is_set (some ms) = true

-- `Math.max(attempt, 1)`
abbrev pub at_least_one : ℕ → ℕ
at_least_one zero = 1
at_least_one (suc n) = suc n

unfoldable pub set_hidden : Bool → Option Text → Poller → Poller
set_hidden next status s =
    let shown = record s { hidden = next } in
    let reloading = record shown { reloads = suc s.reloads } in
    if s.stopped
    then shown
    else if s.hidden && not next && should_poll status
    then if is_set s.timer
      then reloading
      else arm (poll_interval_ms (at_least_one s.attempt)) reloading
    else shown

pub data Event : Type 0 where
  started : Option Text → Event
  stopped : Event
  visibility : Bool → Option Text → Event
  timer : Option Text → Event
  settled : Option Text → Event

-- A timer fires only if it is set, and a reload settles only if one is under way.
unfoldable pub handle : Event → Poller → Poller
handle (started status) s = start status s
handle stopped s = stop s
handle (visibility hidden status) s = set_hidden hidden status s
handle (timer status) s = if is_set s.timer then timer_fires status s else s
handle (settled status) s = if s.in_flight then reload_settles status s else s

unfoldable pub run : List Event → Poller → Poller
run [] s = s
run (e ∷ es) s = run es (handle e s)
