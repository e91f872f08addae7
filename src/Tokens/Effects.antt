-- ===== src/Tokens/Effects.antt =====
-- store_refresh_tokens.go: what any transaction of the store does to the refresh tokens.
use vehicle_positions.Prelude.{
  ℕ, suc, String, Bool, true, false, not, ◌||◌, Option, none, some, ◌∷◌, ◌≡◌, ◌≢◌, ◌⊎◌, refl, sym,
  ◌∙◌, ap, arith, keep, All, ◌==◌, Option-cases, Bool-cases, inl, inr, subst,
}
use vehicle_positions.Prelude.Time.{Time, before}
use vehicle_positions.Tokens.{
  Db, RefreshToken, Fault, Reply, failed, user_not_found, ok, at_begin, at_lock, at_create,
  at_delete, at_update, at_commit, lock_user, mark_used, can_mark, insert_token,
  create_refresh_token, rotate_refresh_token, delete_refresh_tokens_for_user,
  set_user_password_and_revoke_sessions, set_user_active_and_revoke_sessions,
  prune_expired_refresh_tokens,
}
use vehicle_positions.Tokens.Rotation.{insert_token-rows, rotate-IsRotated}

-- One transaction of the store, where the users of `login` may log in, which creates a token. A
-- rotation names the owner of the token that it uses up.
pub data Tx (login : ℕ → Bool) (db db' : Db) : Type 0 where
  creates :
      (f : Fault) (hash : String) (user : ℕ) (expires now : Time)
      → login user ≡ true
      → db' ≡ (create_refresh_token db f hash user expires now).0
      → Tx login db db'
  rotates :
      (f : Fault) (id : ℕ) (hash : String) (user : ℕ) (expires now : Time)
      → All (λ (t : RefreshToken). (t.id == id) ≡ true → t.user_id ≡ user) db.tokens
      → db' ≡ (rotate_refresh_token db f id hash user expires now).0
      → Tx login db db'
  deletes :
      (f : Fault) (user : ℕ) → db' ≡ (delete_refresh_tokens_for_user db f user).0 → Tx login db db'
  sets_password :
      (f : Fault) (user : ℕ) (hash : Option String)
      → db' ≡ (set_user_password_and_revoke_sessions db f user hash).0
      → Tx login db db'
  sets_active :
      (f : Fault) (user : ℕ) (active : Bool)
      → db' ≡ (set_user_active_and_revoke_sessions db f user active).0
      → Tx login db db'
  prunes :
      (broken : Bool) (cutoff : Time)
      → db' ≡ (prune_expired_refresh_tokens db broken cutoff).0
      → Tx login db db'

pub data Txs (login : ℕ → Bool) (db : Db) : Db → Type 0 where
  here : Txs login db db
  next : {b c : Db} → Txs login db b → Tx login b c → Txs login db c

-- What a transaction does to the refresh tokens.
pub data Effect (login : ℕ → Bool) (db db' : Db) : Type 0 where
  fewer :
      (q : RefreshToken → Bool)
      → db'.tokens ≡ keep q db.tokens
      → db'.next_id ≡ db.next_id
      → Effect login db db'
  same : db'.tokens ≡ db.tokens → db'.next_id ≡ db.next_id → Effect login db db'
  filed :
      (row : RefreshToken)
      → row.id ≡ db.next_id
      → login row.user_id ≡ true
      → db'.tokens ≡ row ∷ db.tokens
      → db'.next_id ≡ suc db.next_id
      → Effect login db db'
  replaced :
      (row : RefreshToken) (id : ℕ) (now : Time)
      → row.id ≡ db.next_id
      → can_mark id db.tokens ≡ true
      → All (λ (t : RefreshToken). (t.id == id) ≡ true → t.user_id ≡ row.user_id) db.tokens
      → db'.tokens ≡ row ∷ mark_used id now db.tokens
      → db'.next_id ≡ suc db.next_id
      → Effect login db db'

create-Effect :
    (login : ℕ → Bool) (db : Db) (f : Fault) (hash : String) (user : ℕ) (expires now : Time)
    → login user ≡ true
    → Effect login db (create_refresh_token db f hash user expires now).0
unfolding create_refresh_token
create-Effect login db f hash user expires now may =
    elim (Option-cases (insert_token db hash user expires now)) [
      | inl refused ↦ same (ground arith) (ground arith)
      | inr (db', there) ↦
          let rows = insert_token-rows db db' hash user expires now there in
          elim (Bool-cases (f at_create)) [
            | inl broken ↦ same (ground arith) (ground arith)
            | inr fine ↦
                let moved : (create_refresh_token db f hash user expires now).0 ≡ db' =
                  ground arith in
                filed
                  (record {
                    id = db.next_id;
                    token_hash = hash;
                    user_id = user;
                    expires_at = expires;
                    used_at = none;
                    created_at = now;
                  })
                  refl may (ap (λ (d : Db). d.tokens) (moved ∙ rows))
                  (ap (λ (d : Db). d.next_id) (moved ∙ rows))
          ]
    ]

granted_cases : (r : Reply Bool) → (r ≡ ok true) ⊎ (r ≢ ok true)
granted_cases failed = inr (λ e. cc e)
granted_cases user_not_found = inr (λ e. cc e)
granted_cases (ok true) = inl refl
granted_cases (ok false) = inr (λ e. cc e)

rotate-Effect :
    (login : ℕ → Bool) (db : Db) (f : Fault) (id : ℕ) (hash : String) (user : ℕ)
    (expires now : Time)
    → All (λ (t : RefreshToken). (t.id == id) ≡ true → t.user_id ≡ user) db.tokens
    → Effect login db (rotate_refresh_token db f id hash user expires now).0
rotate-Effect login db f id hash user expires now owner =
    let (granted, refused) = rotate-IsRotated db f id hash user expires now in
    elim (granted_cases (rotate_refresh_token db f id hash user expires now).1) [
      | inl won ↦
          let r = granted won in
          replaced
            (record {
              id = db.next_id;
              token_hash = hash;
              user_id = user;
              expires_at = expires;
              used_at = none;
              created_at = now;
            })
            id now refl r.was_unused owner (ap (λ (d : Db). d.tokens) r.stored)
            (ap (λ (d : Db). d.next_id) r.stored)
      | inr lost ↦
          same (ap (λ (d : Db). d.tokens) (refused lost))
            (ap (λ (d : Db). d.next_id) (refused lost))
    ]

delete-Effect :
    (login : ℕ → Bool) (db : Db) (f : Fault) (user : ℕ)
    → Effect login db (delete_refresh_tokens_for_user db f user).0
unfolding delete_refresh_tokens_for_user
delete-Effect login db f user = elim (Bool-cases (f at_begin || f at_lock)) [
  | inl broken ↦ same (ground arith) (ground arith)
  | inr fine ↦ elim (Bool-cases (lock_user db user)) [
    | inl locked ↦ elim (Bool-cases (f at_delete || f at_commit)) [
      | inl lost ↦ same (ground arith) (ground arith)
      | inr done ↦ fewer (λ t. not (t.user_id == user)) (ground arith) (ground arith)
    ]
    | inr nobody ↦ same (ground arith) (ground arith)
  ]
]

password-Effect :
    (login : ℕ → Bool) (db : Db) (f : Fault) (user : ℕ) (hash : Option String)
    → Effect login db (set_user_password_and_revoke_sessions db f user hash).0
unfolding set_user_password_and_revoke_sessions
password-Effect login db f user none = same refl refl
password-Effect login db f user (some hash) = elim (Bool-cases (f at_begin || f at_lock)) [
  | inl broken ↦ same (ground arith) (ground arith)
  | inr fine ↦ elim (Bool-cases (lock_user db user)) [
    | inl locked ↦ elim (Bool-cases (f at_update || f at_delete || f at_commit)) [
      | inl lost ↦ same (ground arith) (ground arith)
      | inr done ↦ fewer (λ t. not (t.user_id == user)) (ground arith) (ground arith)
    ]
    | inr nobody ↦ same (ground arith) (ground arith)
  ]
]

active-Effect :
    (login : ℕ → Bool) (db : Db) (f : Fault) (user : ℕ) (active : Bool)
    → Effect login db (set_user_active_and_revoke_sessions db f user active).0
unfolding set_user_active_and_revoke_sessions
active-Effect login db f user true = same (ground arith) (ground arith)
active-Effect login db f user false = elim (Bool-cases (f at_begin || f at_lock)) [
  | inl broken ↦ same (ground arith) (ground arith)
  | inr fine ↦ elim (Bool-cases (lock_user db user)) [
    | inl locked ↦ elim (Bool-cases (f at_update || f at_delete || f at_commit)) [
      | inl lost ↦ same (ground arith) (ground arith)
      | inr done ↦ fewer (λ t. not (t.user_id == user)) (ground arith) (ground arith)
    ]
    | inr nobody ↦ same (ground arith) (ground arith)
  ]
]

prune-Effect :
    (login : ℕ → Bool) (db : Db) (broken : Bool) (cutoff : Time)
    → Effect login db (prune_expired_refresh_tokens db broken cutoff).0
unfolding prune_expired_refresh_tokens
prune-Effect login db true cutoff = same refl refl
prune-Effect login db false cutoff = fewer (λ t. not (before t.expires_at cutoff)) refl refl

pub Tx-Effect : (login : ℕ → Bool) (db db' : Db) → Tx login db db' → Effect login db db'
Tx-Effect login db db' (creates f hash user expires now may e) =
    subst (Effect login db) (sym e) (create-Effect login db f hash user expires now may)
Tx-Effect login db db' (rotates f id hash user expires now owner e) =
    subst (Effect login db) (sym e) (rotate-Effect login db f id hash user expires now owner)
Tx-Effect login db db' (deletes f user e) =
    subst (Effect login db) (sym e) (delete-Effect login db f user)
Tx-Effect login db db' (sets_password f user hash e) =
    subst (Effect login db) (sym e) (password-Effect login db f user hash)
Tx-Effect login db db' (sets_active f user active e) =
    subst (Effect login db) (sym e) (active-Effect login db f user active)
Tx-Effect login db db' (prunes broken cutoff e) =
    subst (Effect login db) (sym e) (prune-Effect login db broken cutoff)
