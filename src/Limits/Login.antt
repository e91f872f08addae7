-- ===== src/Limits/Login.antt =====
-- ratelimit_login.go: what the two windows of a login add up to.
use vehicle_positions.Prelude.{
  ℕ, suc, ◌+◌, ◌≤◌, ◌<◌, String, true, false, none, some, List, [], ◌∷◌, ◌≡◌, refl, ◌∙◌, ap, arith,
  str_eq, eq_refl, ltb, ◌-◌, ◌&&◌, Option-cases, Bool-cases, inl, inr, subst, if◌then◌else◌,
}
use vehicle_positions.Prelude.Time.{Time}
use vehicle_positions.Prelude.Dict.{
  lookup, lookup-insert_self, lookup-insert_ne, lookup-delete, lookup-delete_ne,
}
use vehicle_positions.Limits.{
  WindowEntry, LoginRateLimiter, allow_login, record_success, allow_in_window, login_ip_limit,
  login_email_limit, login_window,
}
use vehicle_positions.Limits.Window.{
  Attempts, InWindow, Opens, let_in, let_in_exact, entry_next, entry_kept, readmit-inside,
}

pub record LoginAttempt : Type 0 where
  pub ip : String
  pub email : String
  pub at : Time

-- Login attempts none of which succeeds: how many from `ip` get to have their password checked.
pub checked_from : String → LoginRateLimiter → List LoginAttempt → ℕ
checked_from ip l [] = 0
checked_from ip l (a ∷ rest) =
    let n = checked_from ip (allow_login l a.ip a.email a.at).0 rest in
    if str_eq a.ip ip && (allow_login l a.ip a.email a.at).1 then suc n else n

abbrev pub addresses : List LoginAttempt → Attempts
addresses [] = []
addresses (a ∷ rest) = (a.ip, a.at) ∷ addresses rest

allow_login-by_ip :
    (l : LoginRateLimiter) (ip email : String) (at : Time)
    → (allow_login l ip email at).0.by_ip ≡ (allow_in_window l.by_ip ip login_ip_limit at).0
unfolding allow_login
allow_login-by_ip l ip email at = ground arith

allow_login-needs_ip :
    (l : LoginRateLimiter) (ip email : String) (at : Time)
    → (allow_login l ip email at).1 ≡ true
    → (allow_in_window l.by_ip ip login_ip_limit at).1 ≡ true
unfolding allow_login
allow_login-needs_ip l ip email at h = ground arith

checked-let_in :
    (ip : String) (l : LoginRateLimiter) (tries : List LoginAttempt)
    → checked_from ip l tries ≤ let_in ip l.by_ip login_ip_limit (addresses tries)
unfolding checked_from let_in
checked-let_in ip l [] = omega arith
checked-let_in ip l (a ∷ rest) =
    let next = (allow_login l a.ip a.email a.at).0 in
    let ih =
      subst (λ m. checked_from ip next rest ≤ let_in ip m login_ip_limit (addresses rest))
        (allow_login-by_ip l a.ip a.email a.at) (checked-let_in ip next rest) in
    let need = allow_login-needs_ip l a.ip a.email a.at in ground (arith, ih, need)

-- Password guessing from one address is bounded whatever emails it sprays and whoever else logs in:
-- from the attempt that opens a window of the address, at most ten of its attempts within that minute
-- get to have a password checked, if none of the attempts succeeds.
pub checked_from_le :
    (ip email : String) (l : LoginRateLimiter) (at : Time) (rest : List LoginAttempt)
    → Opens ip l.by_ip at
    → InWindow ip at (addresses rest)
    → checked_from ip l (record { ip = ip; email = email; at = at } ∷ rest) ≤ login_ip_limit
checked_from_le ip email l at rest opens h =
    let first : LoginAttempt = record { ip = ip; email = email; at = at } in
    omega (
      arith,
      checked-let_in ip l (first ∷ rest),
      let_in_exact ip l.by_ip login_ip_limit at (addresses rest) (omega arith) opens h,
    )

record_success-refunds :
    (l : LoginRateLimiter) (ip email : String) (e : WindowEntry)
    → lookup ip l.by_ip ≡ some (record e { count = e.count + 1 })
    → lookup ip (record_success l ip email).by_ip ≡ some e
unfolding record_success
record_success-refunds l ip email e h =
    let some_left : ltb 0 (e.count + 1) ≡ true = ground arith in
    let back : e.count + 1 - 1 ≡ e.count = omega arith in
    rw (h, some_left, record_success)
      (lookup-insert_self ip (record e { count = e.count + 1 - 1 }) l.by_ip
        ∙ ap (λ n. some (record e { count = n })) back)

record_success-forgets :
    (l : LoginRateLimiter) (ip email : String)
    → lookup email (record_success l ip email).by_email ≡ none
unfolding record_success
record_success-forgets l ip email =
    ground (arith, lookup-delete email email l.by_email, eq_refl email)

record_success-other_ip :
    (l : LoginRateLimiter) (ip email other : String)
    → str_eq ip other ≡ false
    → lookup other (record_success l ip email).by_ip ≡ lookup other l.by_ip
unfolding record_success
record_success-other_ip l ip email other ne = elim (Option-cases (lookup ip l.by_ip)) [
  | inl gone ↦ rw (gone, record_success) refl
  | inr (e, there) ↦ elim (Bool-cases (ltb 0 e.count)) [
    | inl left ↦
        rw (there, left, record_success)
          (lookup-insert_ne ip other (record e { count = e.count - 1 }) l.by_ip ne)
    | inr spent ↦ rw (there, spent, record_success) refl
  ]
]

record_success-other_email :
    (l : LoginRateLimiter) (ip email other : String)
    → str_eq email other ≡ false
    → lookup other (record_success l ip email).by_email ≡ lookup other l.by_email
unfolding record_success
record_success-other_email l ip email other ne = lookup-delete_ne email other l.by_email ne

allow_login-other_email :
    (l : LoginRateLimiter) (ip email : String) (at : Time) (other : String)
    → str_eq email other ≡ false
    → lookup other (allow_login l ip email at).0.by_email ≡ lookup other l.by_email
unfolding allow_login
allow_login-other_email l ip email at other ne =
    elim (Bool-cases (allow_in_window l.by_ip ip login_ip_limit at).1) [
      | inl ip_ok ↦
          rw (ip_ok, allow_login) (entry_kept other email l.by_email login_email_limit at ne)
      | inr blocked ↦ rw (blocked, allow_login) refl
    ]

-- A login that succeeds costs nothing: if it falls into a window of its address, the address has
-- afterwards the count that it had before, the email's failures are forgotten, and no other address or
-- email is affected.
pub record_success-allow_login :
    (l : LoginRateLimiter) (ip email : String) (at : Time) (e : WindowEntry)
    → lookup ip l.by_ip ≡ some e
    → at < e.window_start + login_window
    → (lookup ip (record_success (allow_login l ip email at).0 ip email).by_ip ≡ some e)
      × (lookup email (record_success (allow_login l ip email at).0 ip email).by_email ≡ none)
      × ((other : String)
          → str_eq ip other ≡ false
          → lookup other (record_success (allow_login l ip email at).0 ip email).by_ip
            ≡ lookup other l.by_ip)
      × ((other : String)
          → str_eq email other ≡ false
          → lookup other (record_success (allow_login l ip email at).0 ip email).by_email
            ≡ lookup other l.by_email)
record_success-allow_login l ip email at e there inside =
    let a = allow_login l ip email at in
    let by_ip = allow_login-by_ip l ip email at in
    let (filed, let_in_ip) = entry_next ip l.by_ip login_ip_limit at e there in
    let counted : lookup ip a.0.by_ip ≡ some (record e { count = e.count + 1 }) =
      ap (λ m. lookup ip m) by_ip
      ∙ filed
      ∙ ap (λ r. some r.0) (readmit-inside e login_ip_limit at inside) in
    (
      record_success-refunds a.0 ip email e counted,
      record_success-forgets a.0 ip email,
      λ other ne.
          record_success-other_ip a.0 ip email other ne
          ∙ ap (λ m. lookup other m) by_ip
          ∙ entry_kept other ip l.by_ip login_ip_limit at ne,
      λ other ne.
          record_success-other_email a.0 ip email other ne
          ∙ allow_login-other_email l ip email at other ne,
    )
