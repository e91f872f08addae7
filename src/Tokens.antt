-- ===== src/Tokens.antt =====
-- Refresh tokens: store_refresh_tokens.go over the statements of db/query.sql on the tables of
-- migrations/000015_add_refresh_tokens.up.sql. A store method is one transaction on the tables: a
-- statement that fails rolls it back. `Fault` says which of its statements fail, and those that the
-- method does not reach do not matter.
pub mod Pruning
pub mod Handler
pub mod Rotation
pub mod Effects
pub mod Spent
pub mod Reuse
pub mod Granted
pub mod Race
mod Examples
use vehicle_positions.Prelude.{
  ℕ, suc, ◌-◌, length, ◌+◌, String, Bool, true, false, not, ◌&&◌, ◌||◌, Option, none, some, List,
  [], ◌∷◌, any, keep, ltb, ◌==◌, str_eq, if◌then◌else◌,
}
use vehicle_positions.Prelude.Time.{Time, before}

pub record RefreshToken : Type 0 where
  pub id : ℕ
  pub token_hash : String
  pub user_id : ℕ
  pub expires_at : Time
  pub used_at : Option Time
  pub created_at : Time

pub record User : Type 0 where
  pub id : ℕ
  pub email : String
  pub role : String
  pub password_hash : String
  pub active : Bool

-- The tables; `next_id` is the sequence of `refresh_tokens.id`.
pub record Db : Type 0 where
  pub users : List User
  pub tokens : List RefreshToken
  pub next_id : ℕ

pub data Stage : Type 0 where
  at_begin at_lock at_mark at_create at_update at_delete at_commit : Stage

abbrev pub Fault : Type 0
Fault = Stage → Bool

-- What a method returns: an error of the database, ErrUserNotFound, or its value.
pub data Reply (A : Type 0) : Type 0 where
  failed : Reply A
  user_not_found : Reply A
  ok : A → Reply A

-- LockUser: whether there is a row to lock
unfoldable pub lock_user : Db → ℕ → Bool
unfolding any
lock_user db user_id = any (λ u. u.id == user_id) db.users

-- GetUserByID
unfoldable pub find_user : ℕ → List User → Option User
find_user id [] = none
find_user id (u ∷ rest) = if u.id == id then some u else find_user id rest

-- GetRefreshTokenByHash
unfoldable pub find_token : String → List RefreshToken → Option RefreshToken
find_token hash [] = none
find_token hash (t ∷ rest) = if str_eq t.token_hash hash then some t else find_token hash rest

abbrev pub is_unused : RefreshToken → Bool
is_unused t = elim t.used_at [ none ↦ true | some at ↦ false ]

-- MarkRefreshTokenUsed: `WHERE id = $1 AND used_at IS NULL`
unfoldable pub mark_used : ℕ → Time → List RefreshToken → List RefreshToken
mark_used id now [] = []
mark_used id now (t ∷ rest) =
    let marked = mark_used id now rest in
    if t.id == id && is_unused t then record t { used_at = some now } ∷ marked else t ∷ marked

-- the rows that it affects, as a test for none
unfoldable pub can_mark : ℕ → List RefreshToken → Bool
unfolding any
can_mark id tokens = any (λ t. t.id == id && is_unused t) tokens

-- CreateRefreshToken; `none` is a constraint of the table: no such user, an empty hash, or a hash
-- that is there already.
unfoldable pub insert_token : Db → String → ℕ → Time → Time → Option Db
unfolding lock_user any
insert_token db hash user_id expires_at now =
    if not (lock_user db user_id) || str_eq hash "" || any (λ t. str_eq t.token_hash hash) db.tokens
    then none
    else some (record db {
      tokens =
          record {
            id = db.next_id;
            token_hash = hash;
            user_id = user_id;
            expires_at = expires_at;
            used_at = none;
            created_at = now;
          }
          ∷ db.tokens;
      next_id = suc db.next_id;
    })

-- DeleteRefreshTokensForUser
unfoldable pub delete_tokens : ℕ → List RefreshToken → List RefreshToken
unfolding keep
delete_tokens user_id tokens = keep (λ t. not (t.user_id == user_id)) tokens

abbrev pub created : Db → Option Db → Bool → Db × Reply Bool
created db none lost = (db, failed)
created db (some next) lost = if lost then (db, failed) else (next, ok true)

unfoldable pub create_refresh_token : Db → Fault → String → ℕ → Time → Time → Db × Reply Bool
unfolding insert_token
create_refresh_token db fault hash user_id expires_at now =
    if fault at_create
    then (db, failed)
    else created db (insert_token db hash user_id expires_at now) false

unfoldable pub rotate_refresh_token : Db → Fault → ℕ → String → ℕ → Time → Time → Db × Reply Bool
unfolding lock_user can_mark mark_used insert_token
rotate_refresh_token db fault used_id new_hash user_id expires_at now =
    let marked = record db { tokens = mark_used used_id now db.tokens } in
    if fault at_begin || fault at_lock
    then (db, failed)
    else if not (lock_user db user_id)
    then (db, ok false)
    else if fault at_mark
    then (db, failed)
    else if not (can_mark used_id db.tokens)
    then (db, ok false)
    else if fault at_create
    then (db, failed)
    else created db (insert_token marked new_hash user_id expires_at now) (fault at_commit)

unfoldable pub delete_refresh_tokens_for_user : Db → Fault → ℕ → Db × Reply Bool
unfolding lock_user delete_tokens
delete_refresh_tokens_for_user db fault user_id =
    if fault at_begin || fault at_lock
    then (db, failed)
    else if not (lock_user db user_id)
    then (db, ok true)
    else if fault at_delete || fault at_commit
    then (db, failed)
    else (record db { tokens = delete_tokens user_id db.tokens }, ok true)

-- UpdateUserPassword and SetUserActive
unfoldable pub update_user : ℕ → (User → User) → List User → List User
update_user id f [] = []
update_user id f (u ∷ rest) =
    let updated = update_user id f rest in if u.id == id then f u ∷ updated else u ∷ updated

-- `hash` is bcrypt's, taken before the transaction; it may fail.
unfoldable pub set_user_password_and_revoke_sessions :
    Db → Fault → ℕ → Option String → Db × Reply Bool
unfolding lock_user delete_tokens update_user
set_user_password_and_revoke_sessions db fault id none = (db, failed)
set_user_password_and_revoke_sessions db fault id (some hash) =
    let next = record db {
      users = update_user id (λ u. record u { password_hash = hash }) db.users;
      tokens = delete_tokens id db.tokens;
    } in
    if fault at_begin || fault at_lock
    then (db, failed)
    else if not (lock_user db id)
    then (db, user_not_found)
    else if fault at_update || fault at_delete || fault at_commit
    then (db, failed)
    else (next, ok true)

unfoldable pub set_user_active_and_revoke_sessions : Db → Fault → ℕ → Bool → Db × Reply Bool
unfolding lock_user delete_tokens update_user
set_user_active_and_revoke_sessions db fault id active =
    let next = record db {
      users = update_user id (λ u. record u { active = active }) db.users;
      tokens = if active then db.tokens else delete_tokens id db.tokens;
    } in
    if fault at_begin || fault at_lock
    then (db, failed)
    else if not (lock_user db id)
    then (db, user_not_found)
    else if fault at_update || (not active && fault at_delete) || fault at_commit
    then (db, failed)
    else (next, ok true)

-- DeleteExpiredRefreshTokens, and the number of rows that it affects
unfoldable pub prune_expired_refresh_tokens : Db → Bool → Time → Db × Reply ℕ
unfolding keep
prune_expired_refresh_tokens db broken cutoff =
    let kept = keep (λ t. not (before t.expires_at cutoff)) db.tokens in
    if broken
    then (db, failed)
    else (record db { tokens = kept }, ok (length db.tokens - length kept))
