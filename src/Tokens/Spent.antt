-- ===== src/Tokens/Spent.antt =====
-- store_refresh_tokens.go: tokens that are spent or revoked, under later transactions.
use vehicle_positions.Prelude.{
  ℕ, ◌<◌, String, Bool, true, false, ◌&&◌, List, [], ◌∷◌, ◌≡◌, ◌≢◌, refl, ◌∙◌, ap, arith, any, keep,
  All, ◌==◌, Bool-cases, inl, inr,
}
use vehicle_positions.Prelude.Time.{Time}
use vehicle_positions.Tokens.{
  Db, RefreshToken, Fault, ok, lock_user, is_unused, mark_used, can_mark, delete_tokens,
  rotate_refresh_token, delete_refresh_tokens_for_user,
}
use vehicle_positions.Tokens.Rotation.{rotate-IsRotated}
use vehicle_positions.Tokens.Effects.{
  Txs, here, next, Effect, fewer, same, filed, replaced, Tx-Effect,
}

-- The token cannot be used up (again): its row is used or gone, and its id is not given out again.
abbrev pub IsSpent : ℕ → Db → Type 0
IsSpent id db = (id < db.next_id) × (can_mark id db.tokens ≡ false)

-- The user has no refresh token.
abbrev pub HasNone : ℕ → Db → Type 0
HasNone user db = any (λ (t : RefreshToken). t.user_id == user) db.tokens ≡ false

any-keep :
    (p q : RefreshToken → Bool) (ts : List RefreshToken)
    → any p ts ≡ false
    → any p (keep q ts) ≡ false
unfolding any keep
any-keep p q [] h = refl
any-keep p q (t ∷ ts) h = ground (arith, any-keep p q ts)

can_mark-mark_used :
    (id other : ℕ) (now : Time) (ts : List RefreshToken)
    → can_mark id ts ≡ false
    → can_mark id (mark_used other now ts) ≡ false
unfolding can_mark mark_used
can_mark-mark_used id other now [] h = refl
can_mark-mark_used id other now (t ∷ ts) h = ground (arith, can_mark-mark_used id other now ts)

can_mark_self :
    (id : ℕ) (now : Time) (ts : List RefreshToken) → can_mark id (mark_used id now ts) ≡ false
unfolding can_mark mark_used
can_mark_self id now [] = refl
can_mark_self id now (t ∷ ts) = ground (arith, can_mark_self id now ts)

owners-mark_used :
    (user id : ℕ) (now : Time) (ts : List RefreshToken)
    → any (λ (t : RefreshToken). t.user_id == user) ts ≡ false
    → any (λ (t : RefreshToken). t.user_id == user) (mark_used id now ts) ≡ false
unfolding any mark_used
owners-mark_used user id now [] h = refl
owners-mark_used user id now (t ∷ ts) h = ground (arith, owners-mark_used user id now ts)

owners-delete :
    (user : ℕ) (ts : List RefreshToken)
    → any (λ (t : RefreshToken). t.user_id == user) (delete_tokens user ts) ≡ false
unfolding any delete_tokens
owners-delete user [] = refl
owners-delete user (t ∷ ts) = ground (arith, owners-delete user ts)

same_ℕ : (a b : ℕ) → (a == b) ≡ true → a ≡ b
same_ℕ a b h = ground arith

not_allowed :
    (login : ℕ → Bool) (row user : ℕ)
    → login row ≡ true
    → login user ≡ false
    → (row == user) ≡ false
not_allowed login row user may out = elim (Bool-cases (row == user)) [
  | inl e ↦ cc (may, out, ap login (same_ℕ row user e))
  | inr other ↦ other
]

not_holder :
    (row user : ℕ) (ts : List RefreshToken)
    → any (λ (t : RefreshToken). t.user_id == row) ts ≡ true
    → any (λ (t : RefreshToken). t.user_id == user) ts ≡ false
    → (row == user) ≡ false
not_holder row user ts held none_held = elim (Bool-cases (row == user)) [
  | inl e ↦
      cc (
        held,
        none_held,
        ap (λ u. any (λ (t : RefreshToken). t.user_id == u) ts) (same_ℕ row user e),
      )
  | inr other ↦ other
]

pub deleted-HasNone :
    (db : Db) (f : Fault) (user : ℕ)
    → lock_user db user ≡ true
    → (delete_refresh_tokens_for_user db f user).1 ≡ ok true
    → HasNone user (delete_refresh_tokens_for_user db f user).0
unfolding delete_refresh_tokens_for_user
deleted-HasNone db f user there done =
    let rows : (delete_refresh_tokens_for_user db f user).0.tokens ≡ delete_tokens user db.tokens =
      ground arith in
    ap (any (λ (t : RefreshToken). t.user_id == user)) rows ∙ owners-delete user db.tokens

Effect-IsSpent :
    (login : ℕ → Bool) (id : ℕ) (db db' : Db) → Effect login db db' → IsSpent id db → IsSpent id db'
unfolding can_mark
Effect-IsSpent login id db db' (fewer q e n) h = (
  omega (arith, h.0, n),
  ap (can_mark id) e ∙ any-keep (λ t. t.id == id && is_unused t) q db.tokens h.1,
)
Effect-IsSpent login id db db' (same e n) h = (omega (arith, h.0, n), ap (can_mark id) e ∙ h.1)
Effect-IsSpent login id db db' (filed row own may e n) h =
    (omega (arith, h.0, n), ap (can_mark id) e ∙ ground (arith, h.0, h.1))
Effect-IsSpent login id db db' (replaced row old now own unused owner e n) h =
    let kept = can_mark-mark_used id old now db.tokens h.1 in
    (omega (arith, h.0, n), ap (can_mark id) e ∙ ground (arith, h.0, kept))

Txs-IsSpent :
    (login : ℕ → Bool) (id : ℕ) (db : Db) {db' : Db}
    → Txs login db db'
    → IsSpent id db
    → IsSpent id db'
Txs-IsSpent login id db here h = h
Txs-IsSpent login id db (next {b} {c} txs tx) h =
    Effect-IsSpent login id b c (Tx-Effect login b c tx) (Txs-IsSpent login id db txs h)

-- A refresh token is used once: after a rotation of it is granted, no later one is, whatever
-- transactions come in between and whichever of their statements fail.
pub rotate_once :
    (login : ℕ → Bool) (db db' : Db) (id : ℕ) (f g : Fault) (hash other : String) (user user' : ℕ)
    (expires expires' now now' : Time)
    → id < db.next_id
    → (rotate_refresh_token db f id hash user expires now).1 ≡ ok true
    → Txs login (rotate_refresh_token db f id hash user expires now).0 db'
    → (rotate_refresh_token db' g id other user' expires' now').1 ≢ ok true
unfolding can_mark
rotate_once login db db' id f g hash other user user' expires expires' now now' old won txs again =
    let r = (rotate-IsRotated db f id hash user expires now).0 won in
    let after = (rotate_refresh_token db f id hash user expires now).0 in
    let ids = ap (λ (d : Db). d.next_id) r.stored in
    let rows = ap (λ (d : Db). can_mark id d.tokens) r.stored in
    let self = can_mark_self id now db.tokens in
    let spent : IsSpent id after = (omega (arith, ids), rows ∙ ground (arith, self)) in
    let later = Txs-IsSpent login id after txs spent in
    let r' = (rotate-IsRotated db' g id other user' expires' now').0 again in
    cc (later.1, r'.was_unused)

owner_of_marked :
    (id user : ℕ) (ts : List RefreshToken)
    → can_mark id ts ≡ true
    → All (λ (t : RefreshToken). (t.id == id) ≡ true → t.user_id ≡ user) ts
    → any (λ (t : RefreshToken). t.user_id == user) ts ≡ true
unfolding can_mark any
owner_of_marked id user [] h owner = cc h
owner_of_marked id user (t ∷ ts) h owner = elim (Bool-cases (t.id == id && is_unused t)) [
  | inl hit ↦ ground (arith, owner.0)
  | inr miss ↦ ground (arith, owner_of_marked id user ts (ground arith) owner.1)
]

Effect-HasNone :
    (login : ℕ → Bool) (user : ℕ) (db db' : Db)
    → login user ≡ false
    → Effect login db db'
    → HasNone user db
    → HasNone user db'
unfolding any
Effect-HasNone login user db db' out (fewer q e n) h =
    ap (any (λ (t : RefreshToken). t.user_id == user)) e
    ∙ any-keep (λ t. t.user_id == user) q db.tokens h
Effect-HasNone login user db db' out (same e n) h =
    ap (any (λ (t : RefreshToken). t.user_id == user)) e ∙ h
Effect-HasNone login user db db' out (filed row own may e n) h =
    let other : (row.user_id == user) ≡ false = not_allowed login row.user_id user may out in
    ap (any (λ (t : RefreshToken). t.user_id == user)) e ∙ ground (arith, h, other)
Effect-HasNone login user db db' out (replaced row id now own unused owner e n) h =
    let marked = owners-mark_used user id now db.tokens h in
    let held = owner_of_marked id row.user_id db.tokens unused owner in
    let other : (row.user_id == user) ≡ false = not_holder row.user_id user db.tokens held h in
    ap (any (λ (t : RefreshToken). t.user_id == user)) e ∙ ground (arith, marked, other)

Txs-HasNone :
    (login : ℕ → Bool) (user : ℕ) (db : Db) {db' : Db}
    → login user ≡ false
    → Txs login db db'
    → HasNone user db
    → HasNone user db'
Txs-HasNone login user db out here h = h
Txs-HasNone login user db out (next {b} {c} txs tx) h =
    Effect-HasNone login user b c out (Tx-Effect login b c tx) (Txs-HasNone login user db out txs h)

-- What is revoked stays revoked: after a user's refresh tokens are deleted, the user holds none,
-- whatever transactions follow, rotations that were under way among them, until the user logs in.
pub delete-HasNone :
    (login : ℕ → Bool) (db db' : Db) (f : Fault) (user : ℕ)
    → login user ≡ false
    → lock_user db user ≡ true
    → (delete_refresh_tokens_for_user db f user).1 ≡ ok true
    → Txs login (delete_refresh_tokens_for_user db f user).0 db'
    → HasNone user db'
delete-HasNone login db db' f user out there done txs =
    Txs-HasNone login user (delete_refresh_tokens_for_user db f user).0 out txs
      (deleted-HasNone db f user there done)
