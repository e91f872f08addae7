-- ===== src/Tokens/Reuse.antt =====
-- auth_refresh.go: what the handler does about a spent token.
use vehicle_positions.Prelude.{
  ℕ, String, Bool, true, false, some, ◌≡◌, ◌≢◌, ◌⊎◌, refl, sym, arith, subst, str_eq, inl, inr,
}
use vehicle_positions.Prelude.Time.{Time}
use vehicle_positions.Tokens.{
  Db, RefreshToken, Fault, Reply, failed, user_not_found, ok, find_token, lock_user,
  delete_refresh_tokens_for_user,
}
use vehicle_positions.Tokens.Handler.{
  Env, unauthorized, server_error, handle_refresh_token, revoke_spent, after_revoke,
}
use vehicle_positions.Tokens.Spent.{HasNone, deleted-HasNone}

pub after_revoke_cases :
    (out : Db × Reply Bool)
    → ((after_revoke out).1 ≡ unauthorized)
        × (out.1 ≢ failed)
        × (out.1 ≢ user_not_found)
        × ((after_revoke out).0 ≡ out.0)
      ⊎ ((after_revoke out).1 ≡ server_error)
after_revoke_cases (db, ok b) = inl (refl, (λ e. cc e), (λ e. cc e), refl)
after_revoke_cases (db, failed) = inr refl
after_revoke_cases (db, user_not_found) = inr refl

delete_reply :
    (db : Db) (f : Fault) (user : ℕ)
    → ((delete_refresh_tokens_for_user db f user).1 ≡ ok true)
      ⊎ ((delete_refresh_tokens_for_user db f user).1 ≡ failed)
unfolding delete_refresh_tokens_for_user
delete_reply db f user = ground arith

-- A user whose spent token is presented is answered by a refusal and holds no token, or by an error.
pub revoke_spent_lem :
    (env : Env) (db : Db) (stored : RefreshToken)
    → lock_user db stored.user_id ≡ true
    → (((revoke_spent env db stored).1 ≡ unauthorized)
        × HasNone stored.user_id (revoke_spent env db stored).0)
      ⊎ ((revoke_spent env db stored).1 ≡ server_error)
unfolding revoke_spent
revoke_spent_lem env db stored there =
    elim (after_revoke_cases (delete_refresh_tokens_for_user db env.revoke_fault stored.user_id)) [
      | inl (answer, sound, found, rows) ↦ elim (delete_reply db env.revoke_fault stored.user_id) [
        | inl done ↦ inl (
          answer,
          subst (λ d. HasNone stored.user_id d) (sym rows)
              (deleted-HasNone db env.revoke_fault stored.user_id there done),
        )
        | inr broken ↦ elim (sound broken) [ ]
      ]
      | inr e ↦ inr e
    ]

-- Presenting a token that has been used never yields tokens: the answer is the same refusal as for an
-- unknown token, and then the user holds no refresh token any more, or an internal error, which asks
-- for a retry. The request is well-formed and within its rate limit, the token can be read, and its
-- user exists.
pub handle-reuse :
    (env : Env) (db : Db) (presented : String) (stored : RefreshToken) (at : Time)
    → str_eq presented "" ≡ false
    → env.allowed ≡ true
    → env.read_fails ≡ false
    → find_token (env.hash_refresh_token presented) db.tokens ≡ some stored
    → stored.used_at ≡ some at
    → lock_user (env.before_revoke db) stored.user_id ≡ true
    → (((handle_refresh_token env db presented).1 ≡ unauthorized)
        × HasNone stored.user_id (handle_refresh_token env db presented).0)
      ⊎ ((handle_refresh_token env db presented).1 ≡ server_error)
unfolding handle_refresh_token
handle-reuse env db presented stored at given allowed readable known used there =
    let same : handle_refresh_token env db presented
        ≡ revoke_spent env (env.before_revoke db) stored =
      rw (given, allowed, readable, known, used, handle_refresh_token) refl in
    subst (λ out. ((out.1 ≡ unauthorized) × HasNone stored.user_id out.0) ⊎ (out.1 ≡ server_error))
      (sym same) (revoke_spent_lem env (env.before_revoke db) stored there)
