-- ===== src/RiderApi/Following.antt =====
-- rider/aggregator.go: what each call of the registry does to the rides that are registered.
use vehicle_positions.Prelude.{
  String, false, Option, some, List, ◌≡◌, refl, sym, ap, ◌∙◌, arith, str_eq, Option-cases, inl, inr,
  subst,
}
use vehicle_positions.Prelude.Time.{Time}
use vehicle_positions.Prelude.Float.{FloatOps}
use vehicle_positions.Prelude.Dict.{lookup, delete-cases, lookup-delete_ne}
use vehicle_positions.Rider.Verify.{Point, TrustedVehicle}
use vehicle_positions.Rider.Session.{EndReason, Tier, TripKey, Session}
use vehicle_positions.Rider.Session.Step.{new_session, end_session}
use vehicle_positions.Rider.Session.Step as Step
use vehicle_positions.Rider.Aggregator.{
  Aggregator, end_ride, set_tier, remove_locked, reap, live_session, active_for_rider_locked,
  reap_session,
}
use vehicle_positions.Rider.Aggregator.Batch.{apply_batch_locked}
use vehicle_positions.Rider.Aggregator.Registry.{RegistryInv, active-registered}
use vehicle_positions.Rider.Aggregator.Accounting.{batch-cases}
use vehicle_positions.Rider.Aggregator.Reaping.{
  reaped, lookup-reap_sessions, reap_session-same, reap_session-cases,
}
use vehicle_positions.Rider.Aggregator.Moves.{live_session-registered, reaped_from}
use vehicle_positions.RiderApi.Linked.{ComesFrom, Keeps, ComesFrom-insert, Keeps-insert}

module _ {F : Type 0} where
  live_session-live :
      (a : Aggregator F) (id : String) (s : Session F)
      → live_session a id ≡ some s
      → s.ended ≡ false
  unfolding live_session
  live_session-live a id s e = ground arith

  stays : (a : Aggregator F) → ComesFrom a a × Keeps a a
  stays a = (λ id s e. (s, e, refl, λ live. live), λ id s e. (s, e, refl))

  end_session_mono :
      (s : Session F) (r : EndReason) (now : Time)
      → ((end_session s r now).rider_id ≡ s.rider_id)
        × ((end_session s r now).ended ≡ false → s.ended ≡ false)
  unfolding end_session
  end_session_mono s r now = ground arith

  pub end_ride-moves :
      (a : Aggregator F) (id : String) (r : EndReason) (now : Time)
      → ComesFrom a (end_ride a id r now).0 × Keeps a (end_ride a id r now).0
  unfolding end_ride
  end_ride-moves a id r now = elim (Option-cases (lookup id a.sessions)) [
    | inl gone ↦ rw (gone, end_ride) (stays a)
    | inr (s, there) ↦
        let (same, mono) = end_session_mono s r now in
        rw (there, end_ride)
          (
            ComesFrom-insert a id s (end_session s r now) there same mono,
            Keeps-insert a id s (end_session s r now) there same,
          )
  ]

  pub set_tier-moves :
      (a : Aggregator F) (r : String) (t : Tier)
      → RegistryInv a
      → ComesFrom a (set_tier a r t) × Keeps a (set_tier a r t)
  unfolding set_tier Step.set_tier
  set_tier-moves a r t h = elim (Option-cases (active_for_rider_locked a r)) [
    | inl idle ↦ rw (idle, set_tier) (stays a)
    | inr (s, active) ↦
        let (id, ours, there, live) = active-registered a r s active in
        let there' = subst (λ k. lookup k a.sessions ≡ some s) (sym (h.keyed id s there)) there in
        rw (active, set_tier)
          (
            ComesFrom-insert a s.id s (record s { tier = t }) there' refl (λ live. live),
            Keeps-insert a s.id s (record s { tier = t }) there' refl,
          )
  ]

  reap_session_mono :
      (s : Session F) (now : Time) → (reap_session now s).ended ≡ false → s.ended ≡ false
  reap_session_mono s now e = elim (reap_session-cases s now) [
    | inl same ↦ ap (λ t. t.ended) (sym same) ∙ e
    | inr (r, over) ↦ (end_session_mono s r now).1 (ap (λ t. t.ended) (sym over) ∙ e)
  ]

  pub reap-moves :
      (a : Aggregator F) (now : Time) → ComesFrom a (reap a now).0 × Keeps a (reap a now).0
  unfolding reap
  reap-moves a now = (
    λ id t e.
        let (s, there, q) = reaped_from a now id t e in
        let rider = (reap_session-same s now).1 in
        (
          s,
          there,
          ap (λ (u : Session F). u.rider_id) (sym q) ∙ rider,
          λ live. reap_session_mono s now (ap (λ (u : Session F). u.ended) q ∙ live),
        ),
    λ id s there. (
      reap_session now s,
      lookup-reap_sessions now id a.sessions ∙ ap (reaped now) there,
      (reap_session-same s now).1,
    ),
  )

  pub remove-moves : (a : Aggregator F) (id : String) → ComesFrom a (remove_locked a id).0
  unfolding remove_locked
  remove-moves a id = elim (Option-cases (lookup id a.sessions)) [
    | inl gone ↦ rw (gone, remove_locked) (stays a).0
    | inr (s, there) ↦
        rw (there, remove_locked)
          (λ j t e. (t, (delete-cases id j t a.sessions e).1, refl, λ live. live))
  ]

  pub remove-others :
      (a : Aggregator F) (id other : String) (s : Session F)
      → str_eq id other ≡ false
      → lookup other a.sessions ≡ some s
      → lookup other (remove_locked a id).0.sessions ≡ some s
  unfolding remove_locked
  remove-others a id other s ne e = elim (Option-cases (lookup id a.sessions)) [
    | inl gone ↦ rw (gone, remove_locked) e
    | inr (t, there) ↦ rw (there, remove_locked) (lookup-delete_ne id other a.sessions ne ∙ e)
  ]

module _ {F : Type 0} ⦃fl : FloatOps F⦄ where
  pub batch-moves :
      (a : Aggregator F) (id : String) (key : TripKey) (ps : List (Point F))
      (trusted : Option (TrustedVehicle F)) (now : Time)
      → ComesFrom a (apply_batch_locked a id key ps trusted now).0
        × Keeps a (apply_batch_locked a id key ps trusted now).0
  batch-moves a id key ps trusted now = elim (batch-cases a id key ps trusted now) [
    | inl same ↦ subst (λ b. ComesFrom a b × Keeps a b) (sym same) (stays a)
    | inr (s, s', live, e, ride, sound) ↦
        let there = live_session-registered a id s live in
        subst (λ b. ComesFrom a b × Keeps a b) (sym e)
          (
            ComesFrom-insert a id s s' there ride.rider_id (λ over. live_session-live a id s live),
            Keeps-insert a id s s' there ride.rider_id,
          )
  ]
