-- ===== src/Rider/Aggregator/Moves.antt =====
-- rider/aggregator.go: the registry under any interleaving of calls. A batch is one move: what other
-- calls do while its lock is free are moves before it.
use vehicle_positions.Prelude.{
  String, false, Option, none, some, List, ◌≡◌, sym, ap, ◌∙◌, arith, subst, Option-cases, inl, inr,
}
use vehicle_positions.Prelude.Time.{Time}
use vehicle_positions.Prelude.Float.{FloatOps}
use vehicle_positions.Prelude.Dict.{lookup}
use vehicle_positions.Rider.Schedule.{Zone}
use vehicle_positions.Rider.Verify.{Thresholds, Point, TrustedVehicle}
use vehicle_positions.Rider.Session.{EndReason, Tier, TripKey, Session}
use vehicle_positions.Rider.Session.Invariant.{Inv}
use vehicle_positions.Rider.Aggregator.{
  Aggregator, new_aggregator, add, end_ride, set_tier, remove_locked, reap, live_session,
  active_for_rider_locked, active_ride_for_rider, reap_sessions, reap_session,
}
use vehicle_positions.Rider.Aggregator.Batch.{apply_batch_locked}
use vehicle_positions.Rider.Aggregator.Registry.{
  RegistryInv, update-RegistryInv, add-RegistryInv, end_ride-RegistryInv, set_tier-RegistryInv,
  remove-RegistryInv, active-registered,
}
use vehicle_positions.Rider.Aggregator.Reaping.{
  reaped, lookup-reap_sessions, reap_sessions-IsDict, reap_session-same,
}
use vehicle_positions.Rider.Aggregator.Accounting.{batch-cases}

module _ {F : Type 0} where
  pub reaped_from :
      (a : Aggregator F) (now : Time) (id : String) (t : Session F)
      → lookup id (reap_sessions now a.sessions) ≡ some t
      → (s : Session F) × (lookup id a.sessions ≡ some s) × (reap_session now s ≡ t)
  reaped_from a now id t e =
      let filed = sym (lookup-reap_sessions now id a.sessions) ∙ e in
      elim (Option-cases (lookup id a.sessions)) [
        | inl gone ↦ ground arith
        | inr (s, there) ↦ (s, there, ground arith)
      ]

module _ {F : Type 0} ⦃fl : FloatOps F⦄ where
  -- One call. A ride is added under an id that is not registered (the ids are fresh UUIDs).
  pub data Move (a : Aggregator F) (a' : Aggregator F) : Type 0 where
    added : (s : Session F) → Inv s → lookup s.id a.sessions ≡ none → a' ≡ add a s → Move a a'
    ended : (id : String) (r : EndReason) (now : Time) → a' ≡ (end_ride a id r now).0 → Move a a'
    retiered : (r : String) (t : Tier) → a' ≡ set_tier a r t → Move a a'
    removed : (id : String) → a' ≡ (remove_locked a id).0 → Move a a'
    reaped_at : (now : Time) → a' ≡ (reap a now).0 → Move a a'
    batched :
        (id : String) (key : TripKey) (ps : List (Point F)) (trusted : Option (TrustedVehicle F))
        (now : Time)
        → a' ≡ (apply_batch_locked a id key ps trusted now).0
        → Move a a'

  pub data Moves (a : Aggregator F) : Aggregator F → Type 0 where
    here : Moves a a
    next : {b c : Aggregator F} → Moves a b → Move b c → Moves a c

  pub reap-RegistryInv :
      (a : Aggregator F) (now : Time) → RegistryInv a → RegistryInv (reap a now).0
  unfolding reap
  reap-RegistryInv a now h = record {
    dict = reap_sessions-IsDict now a.sessions h.dict;
    keyed = λ id t e.
        let (s, there, q) = reaped_from a now id t e in
        ap (λ (u : Session F). u.id) (sym q) ∙ (reap_session-same s now).0 ∙ h.keyed id s there;
    sound = λ id t e.
        let (s, there, q) = reaped_from a now id t e in
        subst (λ (u : Session F). Inv u) q ((reap_session-same s now).2 (h.sound id s there));
    owned = λ r id e.
        let (s, there, rider) = h.owned r id e in
        (
          reap_session now s,
          lookup-reap_sessions now id a.sessions ∙ ap (reaped now) there,
          (reap_session-same s now).1 ∙ rider,
        );
  }

  pub live_session-registered :
      (a : Aggregator F) (id : String) (s : Session F)
      → live_session a id ≡ some s
      → lookup id a.sessions ≡ some s
  unfolding live_session
  live_session-registered a id s e = ground arith

  pub batch-RegistryInv :
      (a : Aggregator F) (id : String) (key : TripKey) (ps : List (Point F))
      (trusted : Option (TrustedVehicle F)) (now : Time)
      → RegistryInv a
      → RegistryInv (apply_batch_locked a id key ps trusted now).0
  batch-RegistryInv a id key ps trusted now h = elim (batch-cases a id key ps trusted now) [
    | inl same ↦ subst (λ b. RegistryInv b) (sym same) h
    | inr (s, s', live, e, ride, sound) ↦
        let there = live_session-registered a id s live in
        subst (λ b. RegistryInv b) (sym e)
          (update-RegistryInv a id s s' h there ride.id ride.rider_id (sound (h.sound id s there)))
  ]

  Move-RegistryInv : (a a' : Aggregator F) → Move a a' → RegistryInv a → RegistryInv a'
  Move-RegistryInv a a' (added s v fresh e) h =
      subst (λ b. RegistryInv b) (sym e) (add-RegistryInv a s h v fresh)
  Move-RegistryInv a a' (ended id r now e) h =
      subst (λ b. RegistryInv b) (sym e) (end_ride-RegistryInv a id r now h)
  Move-RegistryInv a a' (retiered r t e) h =
      subst (λ b. RegistryInv b) (sym e) (set_tier-RegistryInv a r t h)
  Move-RegistryInv a a' (removed id e) h =
      subst (λ b. RegistryInv b) (sym e) (remove-RegistryInv a id h)
  Move-RegistryInv a a' (reaped_at now e) h =
      subst (λ b. RegistryInv b) (sym e) (reap-RegistryInv a now h)
  Move-RegistryInv a a' (batched id key ps trusted now e) h =
      subst (λ b. RegistryInv b) (sym e) (batch-RegistryInv a id key ps trusted now h)

  Moves-RegistryInv : {a a' : Aggregator F} → Moves a a' → RegistryInv a → RegistryInv a'
  Moves-RegistryInv here h = h
  Moves-RegistryInv (next {b} {c} ms m) h = Move-RegistryInv b c m (Moves-RegistryInv ms h)

  pub new_aggregator-RegistryInv :
      (th : Thresholds F) (tz : Zone) → RegistryInv (new_aggregator th tz)
  unfolding new_aggregator lookup
  new_aggregator-RegistryInv th tz = record {
    dict = tt;
    keyed = λ id s e. ground arith;
    sound = λ id s e. ground arith;
    owned = λ r id e. ground arith;
  }

  -- Whatever calls an empty registry receives and however they interleave, every session is filed
  -- once and under its own id, keeps the invariant of a session, and a rider's entry names a
  -- registered session of that rider; rides are added under ids that are not registered.
  pub reachable-RegistryInv :
      (th : Thresholds F) (tz : Zone) (a : Aggregator F)
      → Moves (new_aggregator th tz) a
      → RegistryInv a
  reachable-RegistryInv th tz a ms = Moves-RegistryInv ms (new_aggregator-RegistryInv th tz)

  -- In a registry that satisfies the invariant, the ride that is given as a rider's active one is
  -- registered, is that rider's and has not ended.
  pub active_ride_for_rider_lem :
      (a : Aggregator F) (r id : String)
      → RegistryInv a
      → active_ride_for_rider a r ≡ some id
      → (s : Session F) × (lookup id a.sessions ≡ some s) × (s.rider_id ≡ r) × (s.ended ≡ false)
  unfolding active_ride_for_rider
  active_ride_for_rider_lem a r id h e = elim (Option-cases (active_for_rider_locked a r)) [
    | inl idle ↦ ground arith
    | inr (s, active) ↦
        let (j, ours, there, live) = active-registered a r s active in
        let (t, there', rider) = h.owned r j ours in
        let named : s.id ≡ id = ground arith in
        let filed : j ≡ id = sym (h.keyed j s there) ∙ named in
        (s, subst (λ k. lookup k a.sessions ≡ some s) filed there, ground arith, live)
  ]
