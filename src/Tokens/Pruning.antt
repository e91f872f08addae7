-- ===== src/Tokens/Pruning.antt =====
-- refresh_retention.go: the pruning of refresh tokens, and what it means to the refresh handler.
use vehicle_positions.Prelude.{
  String, Bool, true, false, not, Option, none, some, List, [], ◌∷◌, ◌≡◌, ◌⊎◌, ◌≤◌, refl, arith,
  str_eq, eq_iff, keep, Option-cases, Bool-cases, inl, inr, if◌then◌else◌,
}
use vehicle_positions.Prelude.Int.{pos, leb_ℤ}
use vehicle_positions.Prelude.Time.{Time, Duration, before}
use vehicle_positions.Tokens.{Db, RefreshToken, find_token, prune_expired_refresh_tokens}
use vehicle_positions.Tokens.Handler.{
  Env, Response, bad_request, too_many, unauthorized, server_error, logged_in, handle_refresh_token,
}
use vehicle_positions.Tokens.Granted.{handle-IsGranted}

-- `none` is an error: an interval that is not positive is refused.
unfoldable pub new_refresh_token_pruner : Duration → Option Duration
new_refresh_token_pruner interval = if leb_ℤ interval (pos 0) then none else some interval

-- `prune`, with the clock and whether the statement fails; the number of rows is only logged
unfoldable pub prune : Db → Bool → Time → Db
unfolding prune_expired_refresh_tokens
prune db broken start = (prune_expired_refresh_tokens db broken start).0

-- The hashes of a table differ, as its unique constraint says.
abbrev IsAbsent : String → List RefreshToken → Type 0
IsAbsent hash [] = Unit
IsAbsent hash (t ∷ ts) = (str_eq t.token_hash hash ≡ false) × IsAbsent hash ts

abbrev pub HashesDiffer : List RefreshToken → Type 0
HashesDiffer [] = Unit
HashesDiffer (t ∷ ts) = IsAbsent t.token_hash ts × HashesDiffer ts

find_token-absent :
    (hash : String) (ts : List RefreshToken) → IsAbsent hash ts → find_token hash ts ≡ none
unfolding find_token
find_token-absent hash [] h = refl
find_token-absent hash (t ∷ ts) h = ground (arith, find_token-absent hash ts)

-- what a sweep by `p` leaves of a row that was found
abbrev left_of : (RefreshToken → Bool) → Option RefreshToken → Option RefreshToken
left_of p none = none
left_of p (some t) = if p t then some t else none

find_token-keep :
    (p : RefreshToken → Bool) (hash : String) (ts : List RefreshToken)
    → HashesDiffer ts
    → find_token hash (keep p ts) ≡ left_of p (find_token hash ts)
unfolding find_token keep
find_token-keep p hash [] h = refl
find_token-keep p hash (t ∷ ts) h = ground (
  arith,
  find_token-keep p hash ts,
  eq_iff t.token_hash hash,
  find_token-absent t.token_hash ts,
  find_token-absent hash ts,
)

abbrev pub is_login : Response → Bool
is_login bad_request = false
is_login too_many = false
is_login unauthorized = false
is_login server_error = false
is_login (logged_in r) = true

-- A token is refused where a row that could be exchanged is not on file.
no_login :
    (env : Env) (db : Db) (presented : String) (result : Db × Response)
    → handle_refresh_token env db presented ≡ result
    → ((t : RefreshToken)
        → find_token (env.hash_refresh_token presented) db.tokens ≡ some t
        → t.expires_at ≤ env.now)
    → is_login result.1 ≡ false
no_login env db presented (db', bad_request) e old = refl
no_login env db presented (db', too_many) e old = refl
no_login env db presented (db', unauthorized) e old = refl
no_login env db presented (db', server_error) e old = refl
no_login env db presented (db', logged_in r) e old =
    let g = handle-IsGranted env db presented db' r e in
    let clash : ⊥ = omega (arith, old g.stored g.known, g.current) in elim clash [ ]

-- A pruning pass is garbage collection: a presented token is on file after it as it was before, or
-- the refresh handler gives no login for it, neither before the pass nor after it, where hashes
-- are unique and the handler's clock is not behind the pass.
pub prune_lem :
    (db : Db) (broken : Bool) (start : Time) (env : Env) (presented : String)
    → HashesDiffer db.tokens
    → start ≤ env.now
    → (find_token (env.hash_refresh_token presented) (prune db broken start).tokens
        ≡ find_token (env.hash_refresh_token presented) db.tokens)
      ⊎ (is_login (handle_refresh_token env db presented).1 ≡ false)
        × (is_login (handle_refresh_token env (prune db broken start) presented).1 ≡ false)
unfolding prune prune_expired_refresh_tokens
prune_lem db true start env presented differ later = inl refl
prune_lem db false start env presented differ later =
    let hash = env.hash_refresh_token presented in
    let left = find_token-keep (λ t. not (before t.expires_at start)) hash db.tokens differ in
    elim (Option-cases (find_token hash db.tokens)) [
      | inl gone ↦ inl (ground (arith, left))
      | inr (t, there) ↦ elim (Bool-cases (before t.expires_at start)) [
        | inr current ↦ inl (ground (arith, left))
        | inl expired ↦ inr (
          no_login env db presented (handle_refresh_token env db presented) refl
              (λ u found. ground arith),
          no_login env (prune db false start) presented
              (handle_refresh_token env (prune db false start) presented) refl
              (λ u found. ground (arith, left)),
        )
      ]
    ]
