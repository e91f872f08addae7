-- ===== src/Limits/Window.antt =====
-- ratelimit_login.go: the fixed window of `allowInWindow`, under any interleaving of keys.
use vehicle_positions.Prelude.{
  ℕ, suc, ◌+◌, ◌-◌, ◌≤◌, ◌<◌, String, true, false, none, some, List, [], ◌∷◌, length, ◌≡◌, refl,
  sym, ap, ◌∙◌, arith, leb, str_eq, eq_iff, eq_refl, ◌&&◌, Option-cases, Bool-cases, inl, inr,
  if◌then◌else◌,
}
use Prim.Native.Nat.{min}
use vehicle_positions.Prelude.Time.{Time, pos_leb-time_sub}
use vehicle_positions.Prelude.Dict.{
  lookup, IsDict, lookup-insert_self, lookup-insert_ne, insert-IsDict, length-insert,
}
use vehicle_positions.Limits.{
  WindowEntry, Windows, readmit, allow_in_window, login_window, max_tracked_logins,
}

-- Attempts, oldest first: who, and when.
abbrev pub Attempts : Type 0
Attempts = List (String × Time)

-- What is left of the map after the attempts, and how many of those of `key` were let in.
pub attempt_all : Windows → ℕ → Attempts → Windows
attempt_all m limit [] = m
attempt_all m limit ((who, at) ∷ rest) = attempt_all (allow_in_window m who limit at).0 limit rest

unfoldable pub let_in : String → Windows → ℕ → Attempts → ℕ
let_in key m limit [] = 0
let_in key m limit ((who, at) ∷ rest) =
    let n = let_in key (allow_in_window m who limit at).0 limit rest in
    if str_eq who key && (allow_in_window m who limit at).1 then suc n else n

pub made_by : String → Attempts → ℕ
made_by key [] = 0
made_by key ((who, at) ∷ rest) = let n = made_by key rest in if str_eq who key then suc n else n

-- The attempts of `key` all fall into the window that starts at `start`.
abbrev pub InWindow : String → Time → Attempts → Type 0
InWindow key start [] = Unit
InWindow key start ((who, at) ∷ rest) =
    (str_eq who key ≡ true → at < start + login_window) × InWindow key start rest

pub entry_kept :
    (key who : String) (m : Windows) (limit : ℕ) (at : Time)
    → str_eq who key ≡ false
    → lookup key (allow_in_window m who limit at).0 ≡ lookup key m
unfolding allow_in_window
entry_kept key who m limit at other = elim (Option-cases (lookup who m)) [
  | inl gone ↦ elim (Bool-cases (leb max_tracked_logins (length m))) [
    | inl full ↦ rw (gone, full, allow_in_window) refl
    | inr room ↦
        rw (gone, room, allow_in_window)
          (lookup-insert_ne who key (record { count = 1; window_start = at }) m other)
  ]
  | inr (e, there) ↦
      rw (there, allow_in_window) (lookup-insert_ne who key (readmit e limit at).0 m other)
]

pub entry_next :
    (key : String) (m : Windows) (limit : ℕ) (at : Time) (e : WindowEntry)
    → lookup key m ≡ some e
    → (lookup key (allow_in_window m key limit at).0 ≡ some (readmit e limit at).0)
      × ((allow_in_window m key limit at).1 ≡ (readmit e limit at).1)
unfolding allow_in_window
entry_next key m limit at e there = (
  rw (there, allow_in_window) (lookup-insert_self key (readmit e limit at).0 m),
  rw (there, allow_in_window) refl,
)

-- The first attempt of a window: of a key that is not known or whose window is over.
pub data Opens (key : String) (m : Windows) (at : Time) : Type 0 where
  unknown : lookup key m ≡ none → length m < max_tracked_logins → Opens key m at
  over :
      (e : WindowEntry)
      → lookup key m ≡ some e
      → e.window_start + login_window ≤ at
      → Opens key m at

pub readmit-open :
    (e : WindowEntry) (limit : ℕ) (at : Time)
    → e.window_start + login_window ≤ at
    → readmit e limit at ≡ (record { count = 1; window_start = at }, true)
unfolding readmit
readmit-open e limit at h =
    let late = pos_leb-time_sub at e.window_start login_window (omega arith) in ground arith

pub readmit-inside :
    (e : WindowEntry) (limit : ℕ) (at : Time)
    → at < e.window_start + login_window
    → readmit e limit at ≡ (record e { count = e.count + 1 }, leb (e.count + 1) limit)
unfolding readmit
readmit-inside e limit at h =
    let early = pos_leb-time_sub at e.window_start login_window (omega arith) in ground arith

pub entry_opened :
    (key : String) (m : Windows) (limit : ℕ) (at : Time)
    → Opens key m at
    → (lookup key (allow_in_window m key limit at).0
        ≡ some (record { count = 1; window_start = at }))
      × ((allow_in_window m key limit at).1 ≡ true)
unfolding allow_in_window
entry_opened key m limit at (unknown gone room) =
    let space : leb max_tracked_logins (length m) ≡ false = ground arith in
    (
      rw (gone, space, allow_in_window)
          (lookup-insert_self key (record { count = 1; window_start = at }) m),
      rw (gone, space, allow_in_window) refl,
    )
entry_opened key m limit at (over e there late) =
    let (filed, answer) = entry_next key m limit at e there in
    let fresh = readmit-open e limit at late in
    (filed ∙ ap (λ r. some r.0) fresh, answer ∙ ap (λ r. r.1) fresh)

let_in-inside :
    (key : String) (m : Windows) (limit : ℕ) (tries : Attempts) (e : WindowEntry)
    → lookup key m ≡ some e
    → InWindow key e.window_start tries
    → let_in key m limit tries ≡ min (made_by key tries) (limit - e.count)
unfolding let_in made_by
let_in-inside key m limit [] e there h = omega arith
let_in-inside key m limit ((who, at) ∷ rest) e there h = elim (Bool-cases (str_eq who key)) [
  | inl same ↦
      let self = (eq_iff who key).0 same in
      let there' = ap (λ k. lookup k m) self ∙ there in
      let (filed, answer) = entry_next who m limit at e there' in
      let fresh = readmit-inside e limit at (h.0 same) in
      let next : lookup key (allow_in_window m who limit at).0
          ≡ some (record e { count = e.count + 1 }) =
        ap (λ k. lookup k (allow_in_window m who limit at).0) (sym self)
        ∙ filed
        ∙ ap (λ r. some r.0) fresh in
      let ih =
        let_in-inside key (allow_in_window m who limit at).0 limit rest
          (record e { count = e.count + 1 }) next h.1 in
      let ok = answer ∙ ap (λ r. r.1) fresh in ground (arith, ok, ih)
  | inr other ↦
      let ih =
        let_in-inside key (allow_in_window m who limit at).0 limit rest e
          (entry_kept key who m limit at other ∙ there) h.1 in
      ground (arith, ih)
]

-- A window admits as many attempts of its key as the limit says, no more and no fewer, whoever else
-- tries in between: if an attempt of `key` opens a window (its key is not known and the map has room,
-- or its last window is over), then of that attempt and the further ones of `key` that fall into the
-- minute from it, exactly the first `limit` are let in. The limit is not 0.
pub let_in_exact :
    (key : String) (m : Windows) (limit : ℕ) (at : Time) (rest : Attempts)
    → 0 < limit
    → Opens key m at
    → InWindow key at rest
    → let_in key m limit ((key, at) ∷ rest) ≡ min (suc (made_by key rest)) limit
unfolding let_in
let_in_exact key m limit at rest positive opens h =
    let (filed, ok) = entry_opened key m limit at opens in
    let ih =
      let_in-inside key (allow_in_window m key limit at).0 limit rest
        (record { count = 1; window_start = at }) filed h in
    let self = eq_refl key in ground (arith, ok, ih, self)

pub allow-IsBounded :
    (m : Windows) (who : String) (limit : ℕ) (at : Time)
    → IsDict m
    → length m ≤ max_tracked_logins
    → IsDict (allow_in_window m who limit at).0
      × (length (allow_in_window m who limit at).0 ≤ max_tracked_logins)
unfolding allow_in_window
allow-IsBounded m who limit at d n = elim (Option-cases (lookup who m)) [
  | inl gone ↦ elim (Bool-cases (leb max_tracked_logins (length m))) [
    | inl full ↦ rw (gone, full, allow_in_window) (d, n)
    | inr room ↦
        let e : WindowEntry = record { count = 1; window_start = at } in
        rw (gone, room, allow_in_window)
          (insert-IsDict who e m d, ground (arith, length-insert who e m))
  ]
  | inr (e, there) ↦
      rw (there, allow_in_window)
        (
          insert-IsDict who (readmit e limit at).0 m d,
          ground (arith, length-insert who (readmit e limit at).0 m),
        )
]

-- Whatever is tried, the map never holds more than 10,000 keys, each of them once.
pub attempt_all-IsBounded :
    (m : Windows) (limit : ℕ) (tries : Attempts)
    → IsDict m
    → length m ≤ max_tracked_logins
    → IsDict (attempt_all m limit tries) × (length (attempt_all m limit tries) ≤ max_tracked_logins)
unfolding attempt_all
attempt_all-IsBounded m limit [] d n = (d, n)
attempt_all-IsBounded m limit ((who, at) ∷ rest) d n =
    let (d', n') = allow-IsBounded m who limit at d n in
    attempt_all-IsBounded (allow_in_window m who limit at).0 limit rest d' n'
