-- ===== src/Rider/Aggregator/Reaping.antt =====
-- `Reap` of rider/aggregator.go: which rides it ends and which it hands back for filing.
use vehicle_positions.Prelude.{
  ◌+◌, ◌<◌, ◌≤◌, ltb, String, Bool, true, false, Option, none, some, [], ◌∷◌, ◌≡◌, ◌↔◌, ◌⊎◌, refl,
  arith, str_eq, eq_iff, any, if◌then◌else◌, ◌∙◌, sym, ap, Bool-cases, inl, inr, Option-cases,
  subst,
}
use vehicle_positions.Prelude.Int.{ltb_ℤ, pos}
use vehicle_positions.Prelude.Time.{Time, time_sub, ltb_ℤ-time_sub, is_zero}
use vehicle_positions.Prelude.Dict.{Dict, lookup, IsDict, Fresh}
use vehicle_positions.Prelude.Sort.{str_leb, any-sort}
use vehicle_positions.Rider.Session.{EndReason, Session, end_max_duration, end_idle}
use vehicle_positions.Rider.Session.Step.{end_session, last_accepted_at}
use vehicle_positions.Rider.Session.Invariant.{Inv, end_session-Inv}
use vehicle_positions.Rider.Aggregator.{
  Aggregator, reap, reap_session, reap_sessions, ended_ids, expiry, idle_timeout, max_ride_duration,
}

module _ {F : Type 0} where
  -- The time of the latest accepted point, or of the start before the first.
  pub last_sign : Session F → Time
  last_sign s = if is_zero (last_accepted_at s) then s.started_at else last_accepted_at s

  -- The ride is over: it has ended, or it is too old, or it has been silent for too long.
  abbrev pub IsOver : Session F → Time → Type 0
  IsOver s now =
      (s.ended ≡ true)
      ⊎ (s.started_at + max_ride_duration < now)
      ⊎ (last_sign s + idle_timeout < now)

  reap_session-ended :
      (s : Session F) (now : Time) → ((reap_session now s).ended ≡ true) ↔ IsOver s now
  unfolding reap_session last_sign last_accepted_at expiry end_session
  reap_session-ended s now = (λ h. ground (arith, age, silence), λ h. ground (arith, age, silence))
    where
      age :
          ltb_ℤ (pos max_ride_duration) (time_sub now s.started_at)
          ≡ ltb (s.started_at + max_ride_duration) now
      age = ltb_ℤ-time_sub now s.started_at max_ride_duration (omega arith)

      silence :
          ltb_ℤ (pos idle_timeout) (
            time_sub now
              (if is_zero (last_accepted_at s) then s.started_at else last_accepted_at s))
          ≡ ltb
              ((if is_zero (last_accepted_at s) then s.started_at else last_accepted_at s)
                + idle_timeout)
              now
      silence = ltb_ℤ-time_sub now _ idle_timeout (omega arith)

  abbrev pub reaped : Time → Option (Session F) → Option (Session F)
  reaped now none = none
  reaped now (some s) = some (reap_session now s)

  pub lookup-reap_sessions :
      (now : Time) (id : String) (m : Dict (Session F))
      → lookup id (reap_sessions now m) ≡ reaped now (lookup id m)
  unfolding reap_sessions lookup
  lookup-reap_sessions now id [] = refl
  lookup-reap_sessions now id ((j, s) ∷ m) = ground (arith, lookup-reap_sessions now id m)

  -- whether the dictionary files an ended session under `id`
  abbrev ended_at_key : Option (Session F) → Bool
  ended_at_key none = false
  ended_at_key (some s) = s.ended

  any-ended_ids-Fresh :
      (id : String) (m : Dict (Session F))
      → Fresh id m
      → any (λ j. str_eq j id) (ended_ids m) ≡ false
  unfolding ended_ids any
  any-ended_ids-Fresh id [] h = refl
  any-ended_ids-Fresh id ((j, s) ∷ m) h = ground (arith, any-ended_ids-Fresh id m)

  any-ended_ids :
      (id : String) (m : Dict (Session F))
      → IsDict m
      → any (λ j. str_eq j id) (ended_ids m) ≡ ended_at_key (lookup id m)
  unfolding ended_ids any lookup
  any-ended_ids id [] h = refl
  any-ended_ids id ((j, s) ∷ m) h =
      ground
        (arith, any-ended_ids id m, any-ended_ids-Fresh id m, any-ended_ids-Fresh j m, eq_iff j id)

  Fresh-reap_sessions :
      (now : Time) (id : String) (m : Dict (Session F))
      → Fresh id m
      → Fresh id (reap_sessions now m)
  unfolding reap_sessions
  Fresh-reap_sessions now id [] h = tt
  Fresh-reap_sessions now id ((j, s) ∷ m) h = (h.0, Fresh-reap_sessions now id m h.1)

  pub reap_sessions-IsDict :
      (now : Time) (m : Dict (Session F)) → IsDict m → IsDict (reap_sessions now m)
  unfolding reap_sessions
  reap_sessions-IsDict now [] h = tt
  reap_sessions-IsDict now ((j, s) ∷ m) h =
      (Fresh-reap_sessions now j m h.0, reap_sessions-IsDict now m h.1)

  -- The rides that `Reap` hands back are exactly the registered ones that have ended, are older
  -- than three hours or have been silent for more than fifteen minutes (counted from the latest
  -- accepted point, or from the start before the first); a ride that is not registered is not
  -- among them.
  pub reap_exact :
      (a : Aggregator F) (now : Time) (id : String)
      → IsDict a.sessions
      → ((s : Session F)
          → lookup id a.sessions ≡ some s
          → (any (λ j. str_eq j id) (reap a now).1 ≡ true) ↔ IsOver s now)
        × (lookup id a.sessions ≡ none → any (λ j. str_eq j id) (reap a now).1 ≡ false)
  unfolding reap
  reap_exact a now id h =
      let listed =
        any-sort str_leb (λ j. str_eq j id) (ended_ids (reap_sessions now a.sessions))
        ∙ any-ended_ids id (reap_sessions now a.sessions) (reap_sessions-IsDict now a.sessions h) in
      let filed = lookup-reap_sessions now id a.sessions in
      (
        λ s there.
            let e = listed ∙ ap ended_at_key (filed ∙ ap (reaped now) there) in
            let (f, g) = reap_session-ended s now in (λ p. f (sym e ∙ p), λ p. e ∙ g p),
        λ gone. listed ∙ ap ended_at_key (filed ∙ ap (reaped now) gone),
      )

  -- `Reap` never changes a ride that has ended or is not over, and gives each that it ends the
  -- time and the reason: its age if it is too old, silence otherwise.
  pub reap_session_lem :
      (s : Session F) (now : Time)
      → (s.ended ≡ true → reap_session now s ≡ s)
        × (s.ended ≡ false
            → s.started_at + max_ride_duration < now
            → reap_session now s ≡ end_session s end_max_duration now)
        × (s.ended ≡ false
            → now ≤ s.started_at + max_ride_duration
            → last_sign s + idle_timeout < now
            → reap_session now s ≡ end_session s end_idle now)
        × (s.ended ≡ false
            → now ≤ s.started_at + max_ride_duration
            → now ≤ last_sign s + idle_timeout
            → reap_session now s ≡ s)
  unfolding reap_session last_sign last_accepted_at expiry end_session
  reap_session_lem s now =
      let age = ltb_ℤ-time_sub now s.started_at max_ride_duration (omega arith) in
      let silence =
        ltb_ℤ-time_sub now
          (if is_zero (last_accepted_at s) then s.started_at else last_accepted_at s) idle_timeout
          (omega arith) in
      (
        λ h. ground arith,
        λ h k. ground (arith, age, silence),
        λ h k l. ground (arith, age, silence),
        λ h k l. ground (arith, age, silence),
      )

  end_session-same :
      (s : Session F) (r : EndReason) (now : Time)
      → ((end_session s r now).id ≡ s.id) × ((end_session s r now).rider_id ≡ s.rider_id)
  unfolding end_session
  end_session-same s r now = ground arith

  pub reap_session-cases :
      (s : Session F) (now : Time)
      → (reap_session now s ≡ s) ⊎ ((r : EndReason) × (reap_session now s ≡ end_session s r now))
  unfolding reap_session
  reap_session-cases s now = elim (Option-cases (expiry s now)) [
    | inl young ↦ inl (ground arith)
    | inr (r, over) ↦ elim (Bool-cases s.ended) [
      | inl ended ↦ inl (ground arith)
      | inr live ↦ inr (r, ground arith)
    ]
  ]

  pub reap_session-same :
      (s : Session F) (now : Time)
      → ((reap_session now s).id ≡ s.id)
        × ((reap_session now s).rider_id ≡ s.rider_id)
        × (Inv s → Inv (reap_session now s))
  reap_session-same s now = elim (reap_session-cases s now) [
    | inl e ↦ (ap (λ t. t.id) e, ap (λ t. t.rider_id) e, λ h. subst (λ t. Inv t) (sym e) h)
    | inr (r, e) ↦
        let (p, q) = end_session-same s r now in
        (
          ap (λ t. t.id) e ∙ p,
          ap (λ t. t.rider_id) e ∙ q,
          λ h. subst (λ t. Inv t) (sym e) (end_session-Inv s r now h),
        )
  ]
