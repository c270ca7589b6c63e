-- ===== src/RateLimit/Examples.antt =====
-- The limiter at concrete calls: two requests each minute.
use netops_copilot.Prelude.{ℕ, ◌+◌, ◌*◌, ◌≤◌, ◌≡◌, refl, List, [], ◌∷◌, arith, none, some}
use netops_copilot.Prelude.Text.{Text, codes}
use netops_copilot.RateLimit.Windows.{Window, FixedWindowRateLimiter, second, get}
use netops_copilot.RateLimit.Bursts.{allowed, allowed-window, allowed-opened}

abbrev idle : FixedWindowRateLimiter
idle = record { max_requests = 2; window_seconds = 60; windows = [] }

abbrev counted : Window
counted = record { started_at = 5 * second; requests = 1 }

abbrev busy : FixedWindowRateLimiter
busy = record { max_requests = 2; window_seconds = 60; windows = (codes "10.0.0.1", counted) ∷ [] }

abbrev calls : List (Text × ℕ)
calls =
    (codes "10.0.0.1", 6 * second)
    ∷ (codes "10.0.0.2", 7 * second)
    ∷ (codes "10.0.0.1", 8 * second)
    ∷ []

busy_found : get (codes "10.0.0.1") busy.windows ≡ some counted
unfolding get
busy_found = refl

allowed-window_example : 1 + allowed (codes "10.0.0.1") calls busy ≤ 2
allowed-window_example =
    allowed-window (codes "10.0.0.1") calls busy counted busy_found (omega arith)
      (omega arith, (omega arith, (omega arith, tt)))

idle_empty : get (codes "10.0.0.1") idle.windows ≡ none
unfolding get
idle_empty = refl

allowed-opened_example :
    allowed (codes "10.0.0.1") ((codes "10.0.0.1", 5 * second) ∷ calls) idle ≤ 2
allowed-opened_example =
    allowed-opened (codes "10.0.0.1") (5 * second) calls idle idle_empty (omega arith)
      (omega arith, (omega arith, (omega arith, tt)))
