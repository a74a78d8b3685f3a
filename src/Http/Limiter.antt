-- ===== src/Http/Limiter.antt =====
-- `AttemptLimiter` of apps/action-gateway/src/http/confirmation-api.ts: a counter for each key over
-- a window of time. `now` is the value of `Date.now()` at the call.
pub mod Bound
use pooli.Base.{ℕ, ◌+◌, Bool, true, false, Option, none, some, Text, leb, if◌then◌else◌, []}
use pooli.Base.Dict.{Dict, lookup, insert, erase}

pub record Window : Type 0 where
  pub count : ℕ
  pub reset_at : ℕ

pub record AttemptLimiter : Type 0 where
  pub attempts : Dict Window
  pub max : ℕ
  pub window_ms : ℕ

unfoldable pub new_limiter : ℕ → ℕ → AttemptLimiter
new_limiter max window_ms = record { attempts = []; max = max; window_ms = window_ms }

-- `cur` unless there is none or its window is over
abbrev pub live : Option Window → ℕ → Option Window
live none now = none
live (some cur) now = if leb cur.reset_at now then none else some cur

abbrev pub count_of : Option Window → ℕ
count_of none = 0
count_of (some cur) = cur.count

unfoldable pub used : AttemptLimiter → Text → ℕ → ℕ
used l key now = count_of (live (lookup key l.attempts) now)

abbrev pub consume_window : AttemptLimiter → Text → ℕ → Option Window → AttemptLimiter × Bool
consume_window l key now none = (
  record l {
    attempts = insert key (record { count = 1; reset_at = now + l.window_ms }) l.attempts;
  },
  true,
)
consume_window l key now (some cur) = if leb l.max cur.count then (l, false) else (
  record l {
    attempts = insert key (record { count = cur.count + 1; reset_at = cur.reset_at }) l.attempts;
  },
  true,
)

unfoldable pub consume : AttemptLimiter → Text → ℕ → AttemptLimiter × Bool
consume l key now = consume_window l key now (live (lookup key l.attempts) now)

unfoldable pub clear : AttemptLimiter → Text → AttemptLimiter
clear l key = record l { attempts = erase key l.attempts }
