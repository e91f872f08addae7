-- ===== src/Limits/Examples.antt =====
-- ratelimit.go and ratelimit_login.go at concrete attempts.
use vehicle_positions.Prelude.{
  ℕ, zero, suc, ap, eq_iff, ◌==◌, Bool, Bool-cases, inl, inr, ◌-◌, ◌≤◌, String, true, false, none,
  [], ◌∷◌, length, ltb, ◌≡◌, refl, arith, str_eq,
}
use Prim.Native.Nat.{min}
use Prim.Native.Char.{code}
use vehicle_positions.Prelude.Time.{Time}
use vehicle_positions.Prelude.Dict.{Dict, lookup}
use vehicle_positions.Limits.{
  WindowEntry, Windows, LoginRateLimiter, BucketOps, RateLimiterEntry, VehicleRateLimiter,
  login_ip_limit, new_login_rate_limiter,
}
use vehicle_positions.Limits.Window.{Attempts, let_in, made_by, unknown, let_in_exact}
use vehicle_positions.Limits.Login.{checked_from, checked_from_le}
use vehicle_positions.Limits.Bucket.{answers, lone_answers, current, answers-lone}

abbrev tries : Attempts
tries = ("ann", 101) ∷ ("bob", 102) ∷ ("ann", 103) ∷ []

let_in_exact_example : let_in "ann" [] 2 (("ann", 100) ∷ tries) ≡ min (suc (made_by "ann" tries)) 2
unfolding lookup
let_in_exact_example =
    let_in_exact "ann" [] 2 100 tries (omega arith) (unknown refl (omega arith))
      ((λ e. omega arith), ((λ e. omega arith), ((λ e. omega arith), tt)))

abbrev old : WindowEntry
old = record { count = 7; window_start = 100 }

abbrev windows : Windows
windows = ("ann", old) ∷ []

abbrev later : Time
later = 200_000_000_000

checked_from_le_example :
    checked_from "10.0.0.1" new_login_rate_limiter (
      record { ip = "10.0.0.1"; email = "a@x"; at = 100 }
      ∷ record { ip = "10.0.0.1"; email = "b@x"; at = 101 }
      ∷ [])
    ≤ login_ip_limit
unfolding lookup
checked_from_le_example =
    checked_from_le "10.0.0.1" "a@x" new_login_rate_limiter 100
      (record { ip = "10.0.0.1"; email = "b@x"; at = 101 } ∷ []) (unknown refl (omega arith))
      ((λ e. omega arith), tt)

abbrev logins : LoginRateLimiter
logins = record { by_ip = windows; by_email = [] }

-- A bucket that is never refilled.
abbrev tokens : BucketOps ℕ
tokens = record { new_limiter = λ interval burst. burst; take_token = λ n t. (n - 1, ltb 0 n) }

abbrev limiter : VehicleRateLimiter ℕ
limiter = record { limiters = []; interval = 5; burst = 2; fail_closed = true }

answers-lone_example :
    answers ⦃ops = tokens⦄ "ann" limiter tries
    ≡ lone_answers ⦃ops = tokens⦄ "ann" (current ⦃ops = tokens⦄ limiter "ann") tries
answers-lone_example = answers-lone ⦃ops = tokens⦄ "ann" limiter tries (omega arith)

-- A full map: keys of one, two, three, ... letters.
name : ℕ → String
name zero = "x"
name (suc n) = String.◌∷◌ "x" (name n)

crowd : ℕ → Dict (RateLimiterEntry ℕ)
crowd zero = []
crowd (suc n) = (name n, record { limiter = 1; last_seen = 100 }) ∷ crowd n

length-crowd : (n : ℕ) → length (crowd n) ≡ n
unfolding crowd
length-crowd zero = refl
length-crowd (suc n) = ap suc (length-crowd n)

starts_with_a : String → Bool
starts_with_a String.[] = false
starts_with_a (String.◌∷◌ c s) = code c == 97

name-ne : (n : ℕ) → str_eq (name n) "ann" ≡ false
unfolding name starts_with_a
name-ne zero = refl
name-ne (suc n) = elim (Bool-cases (str_eq (name (suc n)) "ann")) [
  | inl same ↦ cc (ap starts_with_a ((eq_iff (name (suc n)) "ann").0 same))
  | inr other ↦ other
]

lookup-crowd : (n : ℕ) → lookup "ann" (crowd n) ≡ none
unfolding crowd lookup
lookup-crowd zero = refl
lookup-crowd (suc n) = rw (name-ne n) (lookup-crowd n)

abbrev full_limiter : VehicleRateLimiter ℕ
full_limiter = record { limiters = crowd 10_000; interval = 5; burst = 2; fail_closed = true }
