-- ===== src/Cli/RateLimiter.antt =====
-- packages/cli/src/index.ts: `createRateLimiter`. A call takes the time that `Date.now()` gives it.
pub mod Windows
use fiber_paid_http.Prelude.{
  ℕ, ◌+◌, ◌-◌, ◌/◌, Text, Bool, true, false, not, Option, none, some, List, [], ◌∷◌, ltb, leb,
  if◌then◌else◌,
}
use fiber_paid_http.Tables.{find, remove}

pub record RateLimit : Type 0 where
  pub window_ms : ℕ
  pub max_requests : ℕ

-- An entry of the map `windows` with its key.
pub record Window : Type 0 where
  pub key : Text
  pub reset_at : ℕ
  pub count : ℕ

pub record RateLimiter : Type 0 where
  pub windows : List Window
  pub next_cleanup_at : ℕ

pub record Verdict : Type 0 where
  pub allowed : Bool
  pub retry_after_seconds : ℕ

abbrev pub key_of : Window → Text
key_of w = w.key

unfoldable pub create_rate_limiter : RateLimit → ℕ → RateLimiter
create_rate_limiter policy now = record { windows = []; next_cleanup_at = now + policy.window_ms }

-- the windows that are not over
unfoldable pub live : ℕ → List Window → List Window
live now [] = []
live now (w ∷ ws) = let rest = live now ws in if leb w.reset_at now then rest else w ∷ rest

unfoldable pub clean_up : RateLimit → ℕ → RateLimiter → RateLimiter
unfolding live
clean_up policy now limiter =
    if leb limiter.next_cleanup_at now
    then record { windows = live now limiter.windows; next_cleanup_at = now + policy.window_ms }
    else limiter

-- `windows.set(key, …)`, also where the entry is changed in place
unfoldable pub set_window : Window → RateLimiter → RateLimiter
unfolding remove
set_window w limiter = record limiter { windows = w ∷ remove key_of w.key limiter.windows }

-- `Math.ceil(ms / 1000)`
abbrev pub ceil_seconds : ℕ → ℕ
ceil_seconds ms = (ms + 999) / 1000

abbrev pub at_least_one : ℕ → ℕ
at_least_one n = if ltb n 1 then 1 else n

unfoldable pub open_window : RateLimit → Text → ℕ → RateLimiter → RateLimiter × Verdict
unfolding set_window
open_window policy key now limiter = (
  set_window (record { key = key; reset_at = now + policy.window_ms; count = 1 }) limiter,
  record { allowed = true; retry_after_seconds = ceil_seconds policy.window_ms },
)

unfoldable pub count_request : RateLimit → Window → ℕ → RateLimiter → RateLimiter × Verdict
unfolding set_window
count_request policy w now limiter = (
  set_window (record w { count = w.count + 1 }) limiter,
  record {
    allowed = not (ltb policy.max_requests (w.count + 1));
    retry_after_seconds = at_least_one (ceil_seconds (w.reset_at - now));
  },
)

abbrev pub decide : RateLimit → Text → ℕ → Option Window → RateLimiter → RateLimiter × Verdict
decide policy key now none limiter = open_window policy key now limiter
decide policy key now (some w) limiter =
    if leb w.reset_at now
    then open_window policy key now limiter
    else count_request policy w now limiter

unfoldable pub limit_rate : RateLimit → Text → ℕ → RateLimiter → RateLimiter × Verdict
unfolding clean_up open_window count_request find
limit_rate policy key now limiter =
    let cleaned = clean_up policy now limiter in
    decide policy key now (find key_of key cleaned.windows) cleaned
