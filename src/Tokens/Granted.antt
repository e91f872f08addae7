-- ===== src/Tokens/Granted.antt =====
-- auth_refresh.go: when the handler hands out new tokens.
use vehicle_positions.Prelude.{
  ◌+◌, ◌<◌, String, Bool, true, false, not, Option, none, some, ◌≡◌, ◌≢◌, refl, ap, arith, str_eq,
  Option-cases, inl, inr, if◌then◌else◌,
}
use vehicle_positions.Prelude.Time.{Time, before}
use vehicle_positions.Tokens.{
  Db, User, RefreshToken, Reply, failed, user_not_found, ok, find_token, find_user,
  rotate_refresh_token, delete_refresh_tokens_for_user,
}
use vehicle_positions.Tokens.Handler.{
  Env, Response, LoginResponse, bad_request, too_many, unauthorized, server_error, logged_in,
  handle_refresh_token, rotate, revoke_spent, new_login_response, after_rotate, with_token,
  with_user, refresh_unused, with_use, with_stored,
}
use vehicle_positions.Tokens.Reuse.{after_revoke_cases}

-- the tables when the rotation runs
abbrev pub rotated_on : Env → Db → Db
rotated_on env db = env.before_rotate (env.before_user db)

-- the rotation that the handler asks for
abbrev pub rotation : Env → Db → RefreshToken → String → Db × Reply Bool
rotation env db stored refresh =
    rotate_refresh_token (rotated_on env db) env.rotate_fault stored.id
      (env.hash_refresh_token refresh) stored.user_id (env.now + env.refresh_ttl) env.now

-- All that it takes to be handed new tokens.
pub record IsGranted (env : Env) (db : Db) (presented : String) (db' : Db) (r : LoginResponse)
    : Type 0 where
  pub stored : RefreshToken
  pub user : User
  pub refresh : String
  pub access : String
  pub known : find_token (env.hash_refresh_token presented) db.tokens ≡ some stored
  pub unused : stored.used_at ≡ none
  pub current : env.now < stored.expires_at
  pub owner : find_user stored.user_id (env.before_user db).users ≡ some user
  pub owner_active : user.active ≡ true
  pub minted : env.new_token ≡ some refresh
  pub replaced : rotation env db stored refresh ≡ (db', ok true)
  pub signed : env.generate_jwt user ≡ some access
  pub answer : r ≡ new_login_response access refresh env.access_ttl

revoke_spent-refuses :
    (env : Env) (db : Db) (stored : RefreshToken) (r : LoginResponse)
    → (revoke_spent env db stored).1 ≢ logged_in r
unfolding revoke_spent
revoke_spent-refuses env db stored r e =
    elim (after_revoke_cases (delete_refresh_tokens_for_user db env.revoke_fault stored.user_id)) [
      | inl (answer, sound, found, rows) ↦ cc (answer, e)
      | inr broken ↦ cc (broken, e)
    ]

-- What the last step of a granted request comes to.
record IsSigned (env : Env) (stored : RefreshToken) (user : User) (refresh : String)
    (out : Db × Reply Bool) (db' : Db) (r : LoginResponse) : Type 0 where
  access : String
  replaced : out ≡ (db', ok true)
  signed : env.generate_jwt user ≡ some access
  answer : r ≡ new_login_response access refresh env.access_ttl

after_rotate-IsSigned :
    (env : Env) (stored : RefreshToken) (user : User) (refresh : String) (out : Db × Reply Bool)
    (db' : Db) (r : LoginResponse)
    → after_rotate env stored user refresh out ≡ (db', logged_in r)
    → IsSigned env stored user refresh out db' r
after_rotate-IsSigned env stored user refresh (db, ok true) db' r e =
    elim (Option-cases (env.generate_jwt user)) [
      | inl unsigned ↦ ground arith
      | inr (access, there) ↦ record {
        access = access;
        replaced = ground arith;
        signed = there;
        answer = ground arith;
      }
    ]
after_rotate-IsSigned env stored user refresh (db, ok false) db' r e =
    elim (revoke_spent-refuses env (env.before_last_revoke db) stored r
      (ap (λ (x : Db × Response). x.1) e)) [ ]
after_rotate-IsSigned env stored user refresh (db, failed) db' r e = cc e
after_rotate-IsSigned env stored user refresh (db, user_not_found) db' r e = cc e

-- An `if` that did not take its first branch.
pass_if :
    {A : Type 0} (c : Bool) (x y z : A) → (if c then x else y) ≡ z → x ≢ z → (c ≡ false) × (y ≡ z)
pass_if true x y z e n = elim (n e) [ ]
pass_if false x y z e n = (refl, e)

in_time :
    (env : Env) (stored : RefreshToken)
    → not (before env.now stored.expires_at) ≡ false
    → env.now < stored.expires_at
in_time env stored h = ground arith

is_on : (user : User) → not user.active ≡ false → user.active ≡ true
is_on user h = ground arith

-- a request that got as far as its token
handle-stored :
    (env : Env) (db : Db) (presented : String) (db' : Db) (r : LoginResponse)
    → handle_refresh_token env db presented ≡ (db', logged_in r)
    → with_stored env db (find_token (env.hash_refresh_token presented) db.tokens)
      ≡ (db', logged_in r)
unfolding handle_refresh_token
handle-stored env db presented db' r e =
    let found = with_stored env db (find_token (env.hash_refresh_token presented) db.tokens) in
    let read = if env.read_fails then (db, server_error) else found in
    let asked = if not env.allowed then (db, too_many) else read in
    let (given, e1) =
      pass_if (str_eq presented "") (db, bad_request) asked (db', logged_in r) e (λ q. cc q) in
    let (allowed, e2) =
      pass_if (not env.allowed) (db, too_many) read (db', logged_in r) e1 (λ q. cc q) in
    (pass_if env.read_fails (db, server_error) found (db', logged_in r) e2 (λ q. cc q)).1

stored-use :
    (env : Env) (db : Db) (o : Option RefreshToken) (db' : Db) (r : LoginResponse)
    → with_stored env db o ≡ (db', logged_in r)
    → (stored : RefreshToken) × (o ≡ some stored)
      × (with_use env db stored stored.used_at ≡ (db', logged_in r))
stored-use env db none db' r e = cc e
stored-use env db (some stored) db' r e = (stored, refl, e)

use-unused :
    (env : Env) (db : Db) (stored : RefreshToken) (o : Option Time) (db' : Db) (r : LoginResponse)
    → with_use env db stored o ≡ (db', logged_in r)
    → (o ≡ none) × (refresh_unused env db stored ≡ (db', logged_in r))
use-unused env db stored none db' r e = (refl, e)
use-unused env db stored (some at) db' r e =
    elim (revoke_spent-refuses env (env.before_revoke db) stored r
      (ap (λ (x : Db × Response). x.1) e)) [ ]

unused-user :
    (env : Env) (db : Db) (stored : RefreshToken) (db' : Db) (r : LoginResponse)
    → refresh_unused env db stored ≡ (db', logged_in r)
    → (env.now < stored.expires_at)
      × (with_user env
            (env.before_user db)
            stored
            (find_user stored.user_id (env.before_user db).users)
          ≡ (db', logged_in r))
unused-user env db stored db' r e =
    let db1 = env.before_user db in
    let owned = with_user env db1 stored (find_user stored.user_id db1.users) in
    let looked = if env.user_fails then (db1, server_error) else owned in
    let (current, e1) =
      pass_if (not (before env.now stored.expires_at)) (db, unauthorized) looked (db', logged_in r)
        e (λ q. cc q) in
    let (works, e2) =
      pass_if env.user_fails (db1, server_error) owned (db', logged_in r) e1 (λ q. cc q) in
    (in_time env stored current, e2)

user-token :
    (env : Env) (db : Db) (stored : RefreshToken) (o : Option User) (db' : Db) (r : LoginResponse)
    → with_user env db stored o ≡ (db', logged_in r)
    → (user : User) × (o ≡ some user)
      × (user.active ≡ true)
      × (with_token env db stored user env.new_token ≡ (db', logged_in r))
user-token env db stored none db' r e = cc e
user-token env db stored (some user) db' r e =
    let (on, e') =
      pass_if (not user.active) (db, unauthorized) (with_token env db stored user env.new_token)
        (db', logged_in r) e (λ q. cc q) in
    (user, refl, is_on user on, e')

token-rotate :
    (env : Env) (db : Db) (stored : RefreshToken) (user : User) (o : Option String) (db' : Db)
    (r : LoginResponse)
    → with_token env db stored user o ≡ (db', logged_in r)
    → (refresh : String) × (o ≡ some refresh)
      × (rotate env db stored user refresh ≡ (db', logged_in r))
token-rotate env db stored user none db' r e = cc e
token-rotate env db stored user (some refresh) db' r e = (refresh, refl, e)

rotate-IsSigned :
    (env : Env) (db : Db) (stored : RefreshToken) (user : User) (refresh : String) (db' : Db)
    (r : LoginResponse)
    → rotate env (env.before_user db) stored user refresh ≡ (db', logged_in r)
    → IsSigned env stored user refresh (rotation env db stored refresh) db' r
unfolding rotate
rotate-IsSigned env db stored user refresh db' r e =
    after_rotate-IsSigned env stored user refresh (rotation env db stored refresh) db' r e

-- New tokens are handed out only for a token that is on file, unused and not expired, whose owner
-- exists and is active, by a rotation that was granted; the answer carries the fresh refresh token and
-- the owner's access token.
pub handle-IsGranted :
    (env : Env) (db : Db) (presented : String) (db' : Db) (r : LoginResponse)
    → handle_refresh_token env db presented ≡ (db', logged_in r)
    → IsGranted env db presented db' r
handle-IsGranted env db presented db' r e =
    let (stored, known, e1) =
      stored-use env db (find_token (env.hash_refresh_token presented) db.tokens) db' r
        (handle-stored env db presented db' r e) in
    let (unused, e2) = use-unused env db stored stored.used_at db' r e1 in
    let (current, e3) = unused-user env db stored db' r e2 in
    let (user, owner, on, e4) =
      user-token env (env.before_user db) stored
        (find_user stored.user_id (env.before_user db).users) db' r e3 in
    let (refresh, minted, e5) =
      token-rotate env (env.before_user db) stored user env.new_token db' r e4 in
    let s = rotate-IsSigned env db stored user refresh db' r e5 in
    record {
      stored = stored;
      user = user;
      refresh = refresh;
      access = s.access;
      known = known;
      unused = unused;
      current = current;
      owner = owner;
      owner_active = on;
      minted = minted;
      replaced = s.replaced;
      signed = s.signed;
      answer = s.answer;
    }
