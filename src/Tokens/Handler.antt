-- ===== src/Tokens/Handler.antt =====
-- auth_refresh.go: the refresh handler, from the decoded request on. Between its calls of the store
-- other requests run: each `between` is what they did to the tables.
use vehicle_positions.Prelude.{
  ℕ, ◌+◌, ◌/◌, String, Bool, true, false, not, Option, none, some, str_eq, if◌then◌else◌,
}
use vehicle_positions.Prelude.Time.{Time, second, before}
use vehicle_positions.Tokens.{
  Db, User, RefreshToken, Fault, Reply, ok, find_token, find_user, rotate_refresh_token,
  delete_refresh_tokens_for_user,
}

pub record LoginResponse : Type 0 where
  pub token : String
  pub access_token : String
  pub refresh_token : String
  pub expires_in : ℕ

unfoldable pub new_login_response : String → String → ℕ → LoginResponse
new_login_response access refresh access_ttl = record {
  token = access;
  access_token = access;
  refresh_token = refresh;
  expires_in = access_ttl / second;
}

pub data Response : Type 0 where
  bad_request too_many unauthorized server_error : Response
  logged_in : LoginResponse → Response

-- What the handler takes from outside: `hash_refresh_token` (SHA-256), the fresh token and the signed
-- JWT, each of which may fail, the clock, the lifetimes, and what happens in between.
pub record Env : Type 0 where
  pub hash_refresh_token : String → String
  pub new_token : Option String
  pub generate_jwt : User → Option String
  pub now : Time
  pub access_ttl : ℕ
  pub refresh_ttl : ℕ
  pub allowed : Bool
  pub read_fails : Bool
  pub user_fails : Bool
  pub revoke_fault : Fault
  pub rotate_fault : Fault
  pub before_revoke : Db → Db
  pub before_user : Db → Db
  pub before_rotate : Db → Db
  pub before_last_revoke : Db → Db

-- the answer once the tokens of a user of a spent token are revoked, or could not be
abbrev pub after_revoke : Db × Reply Bool → Db × Response
after_revoke (db, ok b) = (db, unauthorized)
after_revoke (db, _) = (db, server_error)

unfoldable pub revoke_spent : Env → Db → RefreshToken → Db × Response
unfolding delete_refresh_tokens_for_user
revoke_spent env db stored =
    after_revoke (delete_refresh_tokens_for_user db env.revoke_fault stored.user_id)

abbrev sign : Env → String → Option String → Response
sign env refresh none = server_error
sign env refresh (some access) = logged_in (new_login_response access refresh env.access_ttl)

abbrev pub after_rotate : Env → RefreshToken → User → String → Db × Reply Bool → Db × Response
after_rotate env stored user refresh (db, ok true) = (db, sign env refresh (env.generate_jwt user))
after_rotate env stored user refresh (db, ok false) =
    revoke_spent env (env.before_last_revoke db) stored
after_rotate env stored user refresh (db, _) = (db, server_error)

unfoldable pub rotate : Env → Db → RefreshToken → User → String → Db × Response
unfolding rotate_refresh_token revoke_spent new_login_response
rotate env db stored user refresh = after_rotate env stored user refresh (
    rotate_refresh_token (env.before_rotate db) env.rotate_fault stored.id
      (env.hash_refresh_token refresh) stored.user_id (env.now + env.refresh_ttl) env.now)

abbrev pub with_token : Env → Db → RefreshToken → User → Option String → Db × Response
with_token env db stored user none = (db, server_error)
with_token env db stored user (some refresh) = rotate env db stored user refresh

abbrev pub with_user : Env → Db → RefreshToken → Option User → Db × Response
with_user env db stored none = (db, unauthorized)
with_user env db stored (some user) =
    if not user.active then (db, unauthorized) else with_token env db stored user env.new_token

-- a token that is on file and unused
abbrev pub refresh_unused : Env → Db → RefreshToken → Db × Response
refresh_unused env db stored =
    let db' = env.before_user db in
    if not (before env.now stored.expires_at)
    then (db, unauthorized)
    else if env.user_fails
    then (db', server_error)
    else with_user env db' stored (find_user stored.user_id db'.users)

abbrev pub with_use : Env → Db → RefreshToken → Option Time → Db × Response
with_use env db stored none = refresh_unused env db stored
with_use env db stored (some used_at) = revoke_spent env (env.before_revoke db) stored

abbrev pub with_stored : Env → Db → Option RefreshToken → Db × Response
with_stored env db none = (db, unauthorized)
with_stored env db (some stored) = with_use env db stored stored.used_at

unfoldable pub handle_refresh_token : Env → Db → String → Db × Response
unfolding find_token find_user rotate revoke_spent
handle_refresh_token env db presented =
    if str_eq presented ""
    then (db, bad_request)
    else if not env.allowed
    then (db, too_many)
    else if env.read_fails
    then (db, server_error)
    else with_stored env db (find_token (env.hash_refresh_token presented) db.tokens)
