-- ===== src/Limits.antt =====
-- The rate limiters: ratelimit.go, ratelimit_login.go and ratelimit_refresh.go. Each method holds the
-- limiter's lock throughout; `now` is `time.Now()` inside it, so it never goes back from one call to
-- the next. The background loop calls `cleanup` every minute.
pub mod Window
pub mod Forget
pub mod Login
pub mod Bucket
mod Examples
use vehicle_positions.Prelude.{
  ℕ, ◌+◌, ◌-◌, ◌*◌, String, Bool, true, false, not, Option, none, some, List, [], ◌∷◌, length, leb,
  ltb, if◌then◌else◌,
}
use vehicle_positions.Prelude.Int.{pos, leb_ℤ}
use vehicle_positions.Prelude.Time.{Time, minute, second, time_sub, time_back, before}
use vehicle_positions.Prelude.Dict.{Dict, lookup, insert, delete, keep_values}

abbrev pub login_ip_limit : ℕ
login_ip_limit = 10

abbrev pub login_email_limit : ℕ
login_email_limit = 5

abbrev pub login_window : ℕ
login_window = minute

abbrev pub max_tracked_logins : ℕ
max_tracked_logins = 10_000

abbrev pub refresh_ip_limit : ℕ
refresh_ip_limit = 60

pub record WindowEntry : Type 0 where
  pub count : ℕ
  pub window_start : Time

abbrev pub Windows : Type 0
Windows = Dict WindowEntry

-- An attempt of a key that has an entry. The entry is a pointer, so what is changed is filed.
unfoldable pub readmit : WindowEntry → ℕ → Time → WindowEntry × Bool
readmit e limit now =
    if leb_ℤ (pos login_window) (time_sub now e.window_start)
    then (record { count = 1; window_start = now }, true)
    else (record e { count = e.count + 1 }, leb (e.count + 1) limit)

unfoldable pub allow_in_window : Windows → String → ℕ → Time → Windows × Bool
unfolding readmit
allow_in_window m key limit now = elim (lookup key m) [
  | none ↦
      if leb max_tracked_logins (length m)
      then (m, false)
      else (insert key (record { count = 1; window_start = now }) m, true)
  | some e ↦ (insert key (readmit e limit now).0 m, (readmit e limit now).1)
]

unfoldable pub prune_stale_windows : Windows → Time → Windows
prune_stale_windows m cutoff =
    keep_values (λ (e : WindowEntry). not (before e.window_start cutoff)) m

pub record LoginRateLimiter : Type 0 where
  pub by_ip : Windows
  pub by_email : Windows

abbrev pub new_login_rate_limiter : LoginRateLimiter
new_login_rate_limiter = record { by_ip = []; by_email = [] }

unfoldable pub allow_login : LoginRateLimiter → String → String → Time → LoginRateLimiter × Bool
unfolding allow_in_window
allow_login l ip email now =
    let (by_ip, ip_ok) = allow_in_window l.by_ip ip login_ip_limit now in
    let (by_email, email_ok) = allow_in_window l.by_email email login_email_limit now in
    if ip_ok
    then (record { by_ip = by_ip; by_email = by_email }, email_ok)
    else (record l { by_ip = by_ip }, false)

abbrev refund : Option WindowEntry → String → Windows → Windows
refund none ip m = m
refund (some e) ip m = if ltb 0 e.count then insert ip (record e { count = e.count - 1 }) m else m

unfoldable pub record_success : LoginRateLimiter → String → String → LoginRateLimiter
record_success l ip email = record {
  by_ip = refund (lookup ip l.by_ip) ip l.by_ip;
  by_email = delete email l.by_email;
}

unfoldable pub cleanup_login : LoginRateLimiter → Time → LoginRateLimiter
unfolding prune_stale_windows
cleanup_login l now =
    let cutoff = time_back now (2 * login_window) in
    record {
      by_ip = prune_stale_windows l.by_ip cutoff;
      by_email = prune_stale_windows l.by_email cutoff;
    }

pub record RefreshRateLimiter : Type 0 where
  pub by_ip : Windows
  pub limit : ℕ

abbrev pub new_refresh_rate_limiter : RefreshRateLimiter
new_refresh_rate_limiter = record { by_ip = []; limit = refresh_ip_limit }

unfoldable pub allow_refresh : RefreshRateLimiter → String → Time → RefreshRateLimiter × Bool
unfolding allow_in_window
allow_refresh l ip now =
    let (by_ip, ok) = allow_in_window l.by_ip ip l.limit now in (record l { by_ip = by_ip }, ok)

unfoldable pub cleanup_refresh : RefreshRateLimiter → Time → RefreshRateLimiter
unfolding prune_stale_windows
cleanup_refresh l now = record l {
  by_ip = prune_stale_windows l.by_ip (time_back now (2 * login_window));
}

-- golang.org/x/time/rate: a token bucket, built by `rate.NewLimiter(rate.Every(interval), burst)`, and
-- its `Allow`, which changes it.
pub record BucketOps (L : Type 0) : Type 0 where
  pub new_limiter : ℕ → ℕ → L
  pub take_token : L → Time → L × Bool

abbrev pub rate_interval : ℕ
rate_interval = 5 * second

abbrev pub rate_burst : ℕ
rate_burst = 2

abbrev pub max_tracked_rates : ℕ
max_tracked_rates = 10_000

pub record RateLimiterEntry (L : Type 0) : Type 0 where
  pub limiter : L
  pub last_seen : Time

pub record VehicleRateLimiter (L : Type 0) : Type 0 where
  pub limiters : Dict (RateLimiterEntry L)
  pub interval : ℕ
  pub burst : ℕ
  pub fail_closed : Bool

module _ {L : Type 0} where
  unfoldable pub new_keyed_rate_limiter : ℕ → ℕ → Bool → VehicleRateLimiter L
  new_keyed_rate_limiter interval burst fail_closed = record {
    limiters = [];
    interval = interval;
    burst = burst;
    fail_closed = fail_closed;
  }

  unfoldable pub new_vehicle_rate_limiter : VehicleRateLimiter L
  unfolding new_keyed_rate_limiter
  new_vehicle_rate_limiter = new_keyed_rate_limiter rate_interval rate_burst false

module _ {L : Type 0} ⦃ops : BucketOps L⦄ where
  open ops use {new_limiter, take_token}

  abbrev pub take : VehicleRateLimiter L → String → L → Time → VehicleRateLimiter L × Bool
  take v key limiter now =
      let (next, ok) = take_token limiter now in
      (
        record v { limiters = insert key (record { limiter = next; last_seen = now }) v.limiters },
        ok,
      )

  unfoldable pub allow_key : VehicleRateLimiter L → String → Time → VehicleRateLimiter L × Bool
  allow_key v key now = elim (lookup key v.limiters) [
    | none ↦
        if leb max_tracked_rates (length v.limiters)
        then (v, not v.fail_closed)
        else take v key (new_limiter v.interval v.burst) now
    | some entry ↦ take v key entry.limiter now
  ]

module _ {L : Type 0} where
  unfoldable pub cleanup_keys : VehicleRateLimiter L → Time → VehicleRateLimiter L
  cleanup_keys v now = record v {
    limiters = keep_values (λ e. not (before e.last_seen (time_back now minute))) v.limiters;
  }
