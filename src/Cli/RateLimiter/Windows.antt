-- ===== src/Cli/RateLimiter/Windows.antt =====
-- packages/cli/src/index.ts: how many requests of a client pass in one window.
use fiber_paid_http.Prelude.{
  ℕ, ◌+◌, ◌-◌, ◌<◌, ◌≡◌, refl, sym, ap, ◌∙◌, arith, Text, ◌==◌, ==_refl, ==_iff, false, not, Option,
  none, some, List, [], ◌∷◌, ltb, leb, if◌then◌else◌, Bool-cases, inl, inr, All, ◌≢◌,
}
use fiber_paid_http.Tables.{has, find, key-find, find-remove_ne, find-none_of_has}
use fiber_paid_http.Cli.RateLimiter.{
  RateLimit, Window, RateLimiter, key_of, live, clean_up, set_window, open_window, count_request,
  decide, limit_rate,
}

-- A request: the client's key and the time of the call.
abbrev pub Request : Type 0
Request = Text × ℕ

-- How many of a client's requests are allowed, one after the other.
unfoldable pub allowed_requests : RateLimit → Text → List Request → RateLimiter → ℕ
unfolding limit_rate
allowed_requests policy key [] limiter = 0
allowed_requests policy key ((k, now) ∷ requests) limiter =
    let (next, verdict) = limit_rate policy k now limiter in
    (if k == key then (if verdict.allowed then 1 else 0) else 0)
    + allowed_requests policy key requests next

-- How many requests of the client there are.
unfoldable pub number_of : Text → List Request → ℕ
number_of key [] = 0
number_of key ((k, now) ∷ requests) = (if k == key then 1 else 0) + number_of key requests

abbrev pub at_most : ℕ → ℕ → ℕ
at_most limit n = if ltb limit n then limit else n

find-live :
    (key : Text) (now : ℕ) (ws : List Window) (w : Window)
    → find key_of key ws ≡ some w
    → now < w.reset_at
    → find key_of key (live now ws) ≡ some w
unfolding find live
find-live key now [] w h later = absurd cc
find-live key now (v ∷ ws) w h later = elim (Bool-cases (v.key == key)) [
  | inl hit ↦
      let found : some v ≡ some w = rw hit at h in
      let same : v ≡ w = cc in
      let stays : leb v.reset_at now ≡ false = ground (arith, ap (λ x. x.reset_at) same) in
      rw stays (rw hit found)
  | inr miss ↦
      let rest = find-live key now ws w (rw miss at h) later in
      elim (Bool-cases (leb v.reset_at now)) [
        | inl over ↦ rw over rest
        | inr stays ↦ rw stays (rw miss rest)
      ]
]

has-live :
    (key : Text) (now : ℕ) (ws : List Window)
    → has key_of key ws ≡ false
    → has key_of key (live now ws) ≡ false
unfolding has live
has-live key now [] h = refl
has-live key now (v ∷ ws) h = ground (arith, has-live key now ws)

has-clean_up :
    (policy : RateLimit) (key : Text) (now : ℕ) (limiter : RateLimiter)
    → has key_of key limiter.windows ≡ false
    → has key_of key (clean_up policy now limiter).windows ≡ false
unfolding clean_up
has-clean_up policy key now limiter h = elim (Bool-cases (leb limiter.next_cleanup_at now)) [
  | inl due ↦ rw due (has-live key now limiter.windows h)
  | inr early ↦ rw early h
]

find-clean_up :
    (policy : RateLimit) (key : Text) (now : ℕ) (limiter : RateLimiter) (w : Window)
    → find key_of key limiter.windows ≡ some w
    → now < w.reset_at
    → find key_of key (clean_up policy now limiter).windows ≡ some w
unfolding clean_up
find-clean_up policy key now limiter w h later =
    elim (Bool-cases (leb limiter.next_cleanup_at now)) [
      | inl due ↦ rw due (find-live key now limiter.windows w h later)
      | inr early ↦ rw early h
    ]

find-set_window_self :
    (w : Window) (limiter : RateLimiter) → find key_of w.key (set_window w limiter).windows ≡ some w
unfolding find set_window
find-set_window_self w limiter = rw (==_refl w.key) refl

find-set_window_other :
    (key : Text) (v w : Window) (limiter : RateLimiter)
    → (v.key == key) ≡ false
    → find key_of key limiter.windows ≡ some w
    → find key_of key (set_window v limiter).windows ≡ some w
unfolding find set_window
find-set_window_other key v w limiter other h =
    let ne : key ≢ v.key = λ e. let hit = (==_iff v.key key).1 (sym e) in absurd cc in
    rw other (find-remove_ne key_of key v.key limiter.windows ne ∙ h)

key-find_own :
    (key : Text) (ws : List Window) (w : Window) → find key_of key ws ≡ some w → w.key ≡ key
key-find_own key ws w h = key-find key_of key ws h

decided_other_open :
    (policy : RateLimit) (key k : Text) (now : ℕ) (limiter : RateLimiter) (w : Window)
    → (k == key) ≡ false
    → find key_of key limiter.windows ≡ some w
    → find key_of key (open_window policy k now limiter).0.windows ≡ some w
unfolding open_window
decided_other_open policy key k now limiter w other h =
    find-set_window_other key (record { key = k; reset_at = now + policy.window_ms; count = 1 }) w
      limiter other h

decided_other :
    (policy : RateLimit) (key k : Text) (now : ℕ) (limiter : RateLimiter) (o : Option Window)
    (w : Window)
    → (k == key) ≡ false
    → find key_of k limiter.windows ≡ o
    → find key_of key limiter.windows ≡ some w
    → find key_of key (decide policy k now o limiter).0.windows ≡ some w
unfolding count_request
decided_other policy key k now limiter none w other e h =
    decided_other_open policy key k now limiter w other h
decided_other policy key k now limiter (some v) w other e h =
    elim (Bool-cases (leb v.reset_at now)) [
      | inl over ↦ rw over (decided_other_open policy key k now limiter w other h)
      | inr still ↦
          let own = key-find_own k limiter.windows v e in
          rw still (
            find-set_window_other key (record v { count = v.count + 1 }) w limiter
              (ap (λ x. x == key) own ∙ other) h)
    ]

module _ (policy : RateLimit) (key : Text) where
  -- A window that is not over takes the next request of its client, and no other client changes it.
  next_other :
      (k : Text) (now : ℕ) (limiter : RateLimiter) (w : Window)
      → (k == key) ≡ false
      → find key_of key limiter.windows ≡ some w
      → now < w.reset_at
      → find key_of key (limit_rate policy k now limiter).0.windows ≡ some w
  unfolding limit_rate
  next_other k now limiter w other h later =
      let cleaned = clean_up policy now limiter in
      decided_other policy key k now cleaned (find key_of k cleaned.windows) w other refl
        (find-clean_up policy key now limiter w h later)

  next_own :
      (now : ℕ) (limiter : RateLimiter) (w : Window)
      → find key_of key limiter.windows ≡ some w
      → now < w.reset_at
      → limit_rate policy key now limiter ≡ count_request policy w now (clean_up policy now limiter)
  unfolding limit_rate
  next_own now limiter w h later =
      let live_still : leb w.reset_at now ≡ false = ground arith in
      rw (find-clean_up policy key now limiter w h later) (rw live_still refl)

  window_after :
      (now : ℕ) (limiter : RateLimiter) (w : Window)
      → w.key ≡ key
      → find key_of key (count_request policy w now limiter).0.windows
        ≡ some (record w { count = w.count + 1 })
  unfolding count_request
  window_after now limiter w own =
      ap (λ k. find key_of k (set_window (record w { count = w.count + 1 }) limiter).windows)
        (sym own)
      ∙ find-set_window_self (record w { count = w.count + 1 }) limiter

  take_one :
      (limit count n : ℕ)
      → (if not (ltb limit (count + 1)) then 1 else 0) + at_most (limit - (count + 1)) n
        ≡ at_most (limit - count) (1 + n)
  take_one limit count n = ground arith

  zero_plus : (n : ℕ) → 0 + n ≡ n
  zero_plus n = omega arith

  verdict_count :
      (now : ℕ) (limiter : RateLimiter) (w : Window)
      → (count_request policy w now limiter).1.allowed ≡ not (ltb policy.max_requests (w.count + 1))
  unfolding count_request
  verdict_count now limiter w = refl

  allowed_in_window :
      (requests : List Request) (limiter : RateLimiter) (w : Window)
      → w.key ≡ key
      → find key_of key limiter.windows ≡ some w
      → All (λ r. r.1 < w.reset_at) requests
      → allowed_requests policy key requests limiter
        ≡ at_most (policy.max_requests - w.count) (number_of key requests)
  unfolding allowed_requests number_of
  allowed_in_window [] limiter w own h times = ground arith
  allowed_in_window ((k, now) ∷ requests) limiter w own h (later, times) =
      elim (Bool-cases (k == key)) [
        | inr other ↦
            let next = (limit_rate policy k now limiter).0 in
            let rest =
              allowed_in_window requests next w own (next_other k now limiter w other h later)
                times in
            rw
              (
                other,
                zero_plus (allowed_requests policy key requests next),
                zero_plus (number_of key requests),
              )
              rest
        | inl hit ↦
            let cleaned = clean_up policy now limiter in
            let bigger = record w { count = w.count + 1 } in
            let counted : limit_rate policy k now limiter ≡ count_request policy w now cleaned =
              ap (λ x. limit_rate policy x now limiter) ((==_iff k key).0 hit)
              ∙ next_own now limiter w h later in
            let rest =
              allowed_in_window requests (count_request policy w now cleaned).0 bigger own
                (window_after now cleaned w own) times in
            rw (hit, counted, verdict_count now cleaned w, rest)
              (take_one policy.max_requests w.count (number_of key requests))
      ]

  next_first :
      (start : ℕ) (limiter : RateLimiter)
      → has key_of key limiter.windows ≡ false
      → limit_rate policy key start limiter
        ≡ open_window policy key start (clean_up policy start limiter)
  unfolding limit_rate
  next_first start limiter new =
      let cleaned = clean_up policy start limiter in
      rw (find-none_of_has key_of key cleaned.windows (has-clean_up policy key start limiter new))
        refl

  -- From a request of a client that has no window, until the window it opens is over, that request and as
  -- many more of the client as make the limit are allowed, whatever other clients send.
  pub limit_rate-window :
      (limiter : RateLimiter)
      → has key_of key limiter.windows ≡ false
      → (start : ℕ) (requests : List Request) → All (λ r. r.1 < start + policy.window_ms) requests
      → allowed_requests policy key ((key, start) ∷ requests) limiter
        ≡ 1 + at_most (policy.max_requests - 1) (number_of key requests)
  unfolding allowed_requests open_window
  limit_rate-window limiter new start requests times =
      let first : Window = record { key = key; reset_at = start + policy.window_ms; count = 1 } in
      let opened = set_window first (clean_up policy start limiter) in
      let rest =
        allowed_in_window requests opened first refl
          (find-set_window_self first (clean_up policy start limiter)) times in
      rw (==_refl key, next_first start limiter new) (ap (λ n. 1 + n) rest)
