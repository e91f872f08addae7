-- ===== src/Tokens/Race.antt =====
-- auth_refresh.go: two requests that race for one token.
use vehicle_positions.Prelude.{
  ◌⊎◌, subst, sym, ◌∙◌, String, Bool, true, false, none, some, ◌≡◌, refl, str_eq,
}
use vehicle_positions.Prelude.Time.{before}
use vehicle_positions.Tokens.{
  Db, User, RefreshToken, Reply, failed, user_not_found, ok, find_token, find_user, lock_user,
}
use vehicle_positions.Tokens.Handler.{
  Env, unauthorized, server_error, handle_refresh_token, revoke_spent, after_rotate,
}
use vehicle_positions.Tokens.Spent.{HasNone}
use vehicle_positions.Tokens.Reuse.{revoke_spent_lem}
use vehicle_positions.Tokens.Granted.{rotation}

-- a request whose checks all pass asks for a rotation
handle-rotate :
    (env : Env) (db : Db) (presented : String) (stored : RefreshToken) (user : User)
    (refresh : String)
    → str_eq presented "" ≡ false
    → env.allowed ≡ true
    → env.read_fails ≡ false
    → find_token (env.hash_refresh_token presented) db.tokens ≡ some stored
    → stored.used_at ≡ none
    → before env.now stored.expires_at ≡ true
    → env.user_fails ≡ false
    → find_user stored.user_id (env.before_user db).users ≡ some user
    → user.active ≡ true
    → env.new_token ≡ some refresh
    → handle_refresh_token env db presented
      ≡ after_rotate env stored user refresh (rotation env db stored refresh)
unfolding handle_refresh_token
handle-rotate env db presented stored user refresh given allowed readable known unused current works
      owner on minted =
    rw
      (
        given, allowed, readable, known, unused, current, works, owner, on, minted,
        handle_refresh_token,
      )
      refl

after_rotate-false :
    (env : Env) (stored : RefreshToken) (user : User) (refresh : String) (out : Db × Reply Bool)
    → out.1 ≡ ok false
    → after_rotate env stored user refresh out
      ≡ revoke_spent env (env.before_last_revoke out.0) stored
after_rotate-false env stored user refresh (db, ok false) e = refl
after_rotate-false env stored user refresh (db, ok true) e = cc e
after_rotate-false env stored user refresh (db, failed) e = cc e
after_rotate-false env stored user refresh (db, user_not_found) e = cc e

-- A request that loses the race for a token, the token having been used up between its reading and its
-- rotation, is treated as one that presents a used token: a refusal, and then the user holds no refresh
-- token any more, or an internal error. All that comes before the rotation went well, and the user
-- still exists at the last revocation.
pub handle-lost_race :
    (env : Env) (db : Db) (presented : String) (stored : RefreshToken) (user : User)
    (refresh : String)
    → str_eq presented "" ≡ false
    → env.allowed ≡ true
    → env.read_fails ≡ false
    → find_token (env.hash_refresh_token presented) db.tokens ≡ some stored
    → stored.used_at ≡ none
    → before env.now stored.expires_at ≡ true
    → env.user_fails ≡ false
    → find_user stored.user_id (env.before_user db).users ≡ some user
    → user.active ≡ true
    → env.new_token ≡ some refresh
    → (rotation env db stored refresh).1 ≡ ok false
    → lock_user (env.before_last_revoke (rotation env db stored refresh).0) stored.user_id ≡ true
    → (((handle_refresh_token env db presented).1 ≡ unauthorized)
        × HasNone stored.user_id (handle_refresh_token env db presented).0)
      ⊎ ((handle_refresh_token env db presented).1 ≡ server_error)
handle-lost_race env db presented stored user refresh given allowed readable known unused current
      works owner on minted lost there =
    let last = env.before_last_revoke (rotation env db stored refresh).0 in
    let asked =
      handle-rotate env db presented stored user refresh given allowed readable known unused current
        works owner on minted in
    let same : handle_refresh_token env db presented ≡ revoke_spent env last stored =
      asked ∙ after_rotate-false env stored user refresh (rotation env db stored refresh) lost in
    subst (λ out. ((out.1 ≡ unauthorized) × HasNone stored.user_id out.0) ⊎ (out.1 ≡ server_error))
      (sym same) (revoke_spent_lem env last stored there)
