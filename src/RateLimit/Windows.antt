-- ===== src/RateLimit/Windows.antt =====
-- `FixedWindowRateLimiter` of services/api/netops_api/core/rate_limit.py. The reading of
-- `monotonic()` is an argument, in nanoseconds; the lock makes each call one step.
use netops_copilot.Prelude.{
  ℕ, suc, ◌+◌, ◌-◌, ◌*◌, ◌/◌, ◌==◌, nat_eq, list_eq, leb, Bool, true, false, Option, none, some,
  List, [], ◌∷◌, if◌then◌else◌,
}
use netops_copilot.Prelude.Text.{Text}

-- `_Window`
pub record Window : Type 0 where
  pub started_at : ℕ
  pub requests : ℕ

pub record FixedWindowRateLimiter : Type 0 where
  pub max_requests : ℕ
  pub window_seconds : ℕ
  pub windows : List (Text × Window)

abbrev pub second : ℕ
second = 1000000000

-- `now - window.started_at >= self._window_seconds`, without a subtraction: another thread may
-- have started the window after `now` was read.
abbrev pub is_expired : ℕ → ℕ → Window → Bool
is_expired window_seconds now w = leb (w.started_at + window_seconds * second) now

-- `_prune`
unfoldable pub prune : ℕ → ℕ → List (Text × Window) → List (Text × Window)
prune window_seconds now [] = []
prune window_seconds now ((k, w) ∷ rest) =
    let kept = prune window_seconds now rest in
    if is_expired window_seconds now w then kept else (k, w) ∷ kept

-- `self._windows.get(key)`
unfoldable pub get : Text → List (Text × Window) → Option Window
get key [] = none
get key ((k, w) ∷ rest) = let later = get key rest in if k == key then some w else later

-- `self._windows[key] = window`
unfoldable pub set : Text → Window → List (Text × Window) → List (Text × Window)
set key window [] = (key, window) ∷ []
set key window ((k, w) ∷ rest) =
    let others = set key window rest in if k == key then (k, window) ∷ rest else (k, w) ∷ others

-- `max(1, int(remaining) + 1)`
abbrev pub retry_after : ℕ → ℕ → Window → ℕ
retry_after window_seconds now w = suc ((w.started_at + window_seconds * second - now) / second)

abbrev pub started : ℕ → Window
started now = record { started_at = now; requests = 1 }

-- The reply to a request, and the window of its key after it.
unfoldable pub consume :
    (max_requests window_seconds now : ℕ) → Option Window → (Bool × ℕ) × Option Window
consume max_requests window_seconds now none = ((true, 0), some (started now))
consume max_requests window_seconds now (some w) =
    if is_expired window_seconds now w
    then ((true, 0), some (started now))
    else if leb max_requests w.requests
    then ((false, retry_after window_seconds now w), none)
    else ((true, 0), some (record w { requests = suc w.requests }))

abbrev pub stored : Text → Option Window → List (Text × Window) → List (Text × Window)
stored key none windows = windows
stored key (some w) windows = set key w windows

-- `check`
unfoldable pub check : Text → ℕ → FixedWindowRateLimiter → (Bool × ℕ) × FixedWindowRateLimiter
check key now l =
    let pruned = prune l.window_seconds now l.windows in
    let r = consume l.max_requests l.window_seconds now (get key pruned) in
    (r.0, record l { windows = stored key r.1 pruned })
