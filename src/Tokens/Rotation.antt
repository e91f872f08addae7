-- ===== src/Tokens/Rotation.antt =====
-- store_refresh_tokens.go: a rotation that was granted.
use vehicle_positions.Prelude.{
  ℕ, suc, String, true, none, some, ◌∷◌, ◌≡◌, ◌≢◌, ◌∙◌, arith, Option-cases, inl, inr,
}
use vehicle_positions.Prelude.Time.{Time}
use vehicle_positions.Tokens.{
  Db, Fault, ok, lock_user, mark_used, can_mark, insert_token, rotate_refresh_token,
}

-- What a rotation did, by its reply: all of it or nothing.
pub record IsRotated (db : Db) (id : ℕ) (hash : String) (user : ℕ) (expires now : Time) (db' : Db)
    : Type 0 where
  pub owner_exists : lock_user db user ≡ true
  pub was_unused : can_mark id db.tokens ≡ true
  pub stored : db' ≡ record db {
    tokens =
        record {
          id = db.next_id;
          token_hash = hash;
          user_id = user;
          expires_at = expires;
          used_at = none;
          created_at = now;
        }
        ∷ mark_used id now db.tokens;
    next_id = suc db.next_id;
  }

pub insert_token-rows :
    (db db' : Db) (hash : String) (user : ℕ) (expires now : Time)
    → insert_token db hash user expires now ≡ some db'
    → db' ≡ record db {
      tokens =
          record {
            id = db.next_id;
            token_hash = hash;
            user_id = user;
            expires_at = expires;
            used_at = none;
            created_at = now;
          }
          ∷ db.tokens;
      next_id = suc db.next_id;
    }
unfolding insert_token
insert_token-rows db db' hash user expires now e = ground arith

-- A rotation that is granted marks the old token, which was unused, and files the new one, which is
-- unused and its owner's; one that is not granted leaves the tables as they were, whichever statement
-- failed.
pub rotate-IsRotated :
    (db : Db) (f : Fault) (id : ℕ) (hash : String) (user : ℕ) (expires now : Time)
    → ((rotate_refresh_token db f id hash user expires now).1 ≡ ok true
        → IsRotated db id hash user expires now
            (rotate_refresh_token db f id hash user expires now).0)
      × ((rotate_refresh_token db f id hash user expires now).1 ≢ ok true
          → (rotate_refresh_token db f id hash user expires now).0 ≡ db)
unfolding rotate_refresh_token
rotate-IsRotated db f id hash user expires now =
    let marked : Db = record db { tokens = mark_used id now db.tokens } in
    elim (Option-cases (insert_token marked hash user expires now)) [
      | inl refused ↦ (λ e. ground arith, λ n. ground arith)
      | inr (db', there) ↦ (
        λ e. record {
          owner_exists = ground arith;
          was_unused = ground arith;
          stored =
              (let moved : (rotate_refresh_token db f id hash user expires now).0 ≡ db' =
                  ground arith in
                moved)
              ∙ insert_token-rows marked db' hash user expires now there;
        },
        λ n. ground arith,
      )
    ]
