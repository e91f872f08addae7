-- ===== src/Tokens/Examples.antt =====
-- store_refresh_tokens.go and auth_refresh.go with one user and one token, fresh or used.
use vehicle_positions.Prelude.{true, false, none, some, [], keep, ◌∷◌, ◌≡◌, ◌≢◌, ◌⊎◌, refl, arith}
use vehicle_positions.Tokens.{
  Db, User, RefreshToken, Fault, ok, lock_user, rotate_refresh_token, find_token, find_user,
  delete_refresh_tokens_for_user, prune_expired_refresh_tokens,
}
use vehicle_positions.Tokens.Handler.{
  Env, unauthorized, server_error, handle_refresh_token, new_login_response,
}
use vehicle_positions.Tokens.Effects.{here}
use vehicle_positions.Tokens.Spent.{HasNone, rotate_once, delete-HasNone}
use vehicle_positions.Tokens.Reuse.{handle-reuse}
use vehicle_positions.Tokens.Granted.{IsGranted, handle-IsGranted}
use vehicle_positions.Prelude.Int.{pos}
use vehicle_positions.Tokens.Pruning.{new_refresh_token_pruner, prune, is_login, prune_lem}
use vehicle_positions.Tokens.Race.{handle-lost_race}

abbrev ann : User
ann = record { id = 7; email = "ann@x"; role = "driver"; password_hash = "bcrypt"; active = true }

abbrev fresh : RefreshToken
fresh = record {
  id = 1;
  token_hash = "one";
  user_id = 7;
  expires_at = 900;
  used_at = none;
  created_at = 100;
}

abbrev spent : RefreshToken
spent = record fresh { used_at = some 150 }

abbrev db : Db
db = record { users = ann ∷ []; tokens = fresh ∷ []; next_id = 2 }

abbrev used_db : Db
used_db = record { users = ann ∷ []; tokens = spent ∷ []; next_id = 2 }

abbrev fine : Fault
fine = λ stage. false

abbrev env : Env
env = record {
  hash_refresh_token = λ s. s;
  new_token = some "two";
  generate_jwt = λ u. some "jwt";
  now = 200;
  access_ttl = 900;
  refresh_ttl = 700;
  allowed = true;
  read_fails = false;
  user_fails = false;
  revoke_fault = fine;
  rotate_fault = fine;
  before_revoke = λ d. d;
  before_user = λ d. d;
  before_rotate = λ d. d;
  before_last_revoke = λ d. d;
}

-- Another request uses the token up before the rotation.
abbrev raced : Env
raced = record env { before_rotate = λ d. used_db }

rotate_once_example :
    (rotate_refresh_token
      (rotate_refresh_token db fine 1 "two" 7 900 200).0
      fine
      1
      "three"
      7
      950
      201).1
    ≢ ok true
unfolding rotate_refresh_token
rotate_once_example =
    rotate_once (λ u. true) db (rotate_refresh_token db fine 1 "two" 7 900 200).0 1 fine fine "two"
      "three" 7 7 900 950 200 201 (omega arith) refl here

delete-HasNone_example : HasNone 7 (delete_refresh_tokens_for_user db fine 7).0
unfolding delete_refresh_tokens_for_user
delete-HasNone_example =
    delete-HasNone (λ u. false) db (delete_refresh_tokens_for_user db fine 7).0 fine 7 refl refl
      refl here

handle-reuse_example :
    (((handle_refresh_token env used_db "one").1 ≡ unauthorized)
      × HasNone 7 (handle_refresh_token env used_db "one").0)
    ⊎ ((handle_refresh_token env used_db "one").1 ≡ server_error)
unfolding find_token lock_user
handle-reuse_example = handle-reuse env used_db "one" spent 150 refl refl refl refl refl refl

handle-IsGranted_example :
    IsGranted env db "one"
      (handle_refresh_token env db "one").0
      (new_login_response "jwt" "two" 900)
unfolding handle_refresh_token
handle-IsGranted_example =
    handle-IsGranted env db "one" (handle_refresh_token env db "one").0
      (new_login_response "jwt" "two" 900) refl

handle-lost_race_example :
    (((handle_refresh_token raced db "one").1 ≡ unauthorized)
      × HasNone 7 (handle_refresh_token raced db "one").0)
    ⊎ ((handle_refresh_token raced db "one").1 ≡ server_error)
unfolding find_token find_user rotate_refresh_token
handle-lost_race_example =
    handle-lost_race raced db "one" fresh ann "two" refl refl refl refl refl refl refl refl refl
      refl refl refl

abbrev stale_row : RefreshToken
stale_row = record {
  id = 2;
  token_hash = "old";
  user_id = 7;
  expires_at = 150;
  used_at = none;
  created_at = 50;
}

abbrev two_rows : Db
two_rows = record { users = ann ∷ []; tokens = stale_row ∷ fresh ∷ []; next_id = 3 }

test_prune : (prune two_rows false 200).tokens ≡ fresh ∷ []
unfolding prune prune_expired_refresh_tokens keep
test_prune = refl

test_new_refresh_token_pruner : new_refresh_token_pruner (pos 0) ≡ none
unfolding new_refresh_token_pruner
test_new_refresh_token_pruner = refl

prune_lem_example :
    (find_token "old" (prune two_rows false 200).tokens ≡ find_token "old" two_rows.tokens)
    ⊎ (is_login (handle_refresh_token env two_rows "old").1 ≡ false)
      × (is_login (handle_refresh_token env (prune two_rows false 200) "old").1 ≡ false)
prune_lem_example = prune_lem two_rows false 200 env "old" ((refl, tt), (tt, tt)) (omega arith)
