-- ===== src/RiderApi/Retry.antt =====
-- rider_handlers.go: a ride that could not be filed, and the next attempt.
use vehicle_positions.Prelude.{
  String, true, Option, none, some, ◌≡◌, sym, ap, ◌∙◌, arith, eq_refl, Option-cases, inl, inr,
  subst,
}
use vehicle_positions.Prelude.Time.{Time}
use vehicle_positions.Prelude.Dict.{lookup, insert, lookup-insert_self, lookup-delete}
use vehicle_positions.Rider.Session.{Session, EndReason, Tier}
use vehicle_positions.Rider.Session.Step.{end_session}
use vehicle_positions.Rider.Reputation.{parse_tier}
use vehicle_positions.Rider.Aggregator.{
  Aggregator, RideSnapshot, set_tier, remove_locked, snapshot_of,
}
use vehicle_positions.Rider.Aggregator.Registry.{
  RegistryInv, end_ride-RegistryInv, remove-RegistryInv,
}
use vehicle_positions.Rides.{
  Rider, Ride, RideOutcome, Db, Fault, Reply, failed, rider_not_found, ride_not_found,
  active_ride_exists, ok, find_active, rescored,
}
use vehicle_positions.Rides.Sound.{IsSound}
use vehicle_positions.Rides.Store.{finish_ride}
use vehicle_positions.Rides.Filed.{FinishedAs, finish_ride-FinishedAs}
use vehicle_positions.Rides.Finishing.{IsQuiet, filed_db, finish_ride-ok}
use vehicle_positions.RiderApi.Service.{
  Live, Filer, Finished, finished, not_filed, outcome_of, after_store, file, after_end, finish,
}
use vehicle_positions.RiderApi.Linked.{Linked}
use vehicle_positions.RiderApi.Following.{set_tier-moves}
use vehicle_positions.RiderApi.Filing.{end_ride-some}

module _ {F : Type 0} where
  -- One finishRide with nothing in between.
  abbrev pub alone : Time → Time → Fault → Filer F
  alone now db_now fault = record {
    now = now;
    db_now = db_now;
    fault = fault;
    before_store = λ st. st;
    before_remove = λ st. st;
    before_tier = λ st. st;
  }

  abbrev pub ended_snapshot : Session F → RideSnapshot
  ended_snapshot s = record (snapshot_of s) { ended = true }

  abbrev pub ended_agg : Aggregator F → String → Session F → Aggregator F
  ended_agg a id s = record a { sessions = insert id s a.sessions }

  finish_registered :
      (c : Filer F) (id : String) (reason : EndReason) (st : Live F) (s : Session F)
      → lookup id st.agg.sessions ≡ some s
      → finish c id reason st
        ≡ file c id
            (ended_snapshot (end_session s reason c.now))
            (c.before_store (record st { agg = ended_agg st.agg id (end_session s reason c.now) }))
  unfolding finish
  finish_registered c id reason st s there =
      ap (λ (p : Aggregator F × Option RideSnapshot). after_end c id (record st { agg = p.0 }) p.1)
        (end_ride-some st.agg id reason c.now s there)

  after_store_failed :
      (now db_now : Time) (fault : Fault) (id : String) (outcome : RideOutcome) (st : Live F)
      (result : Db F × Reply Rider)
      → FinishedAs st.db id outcome db_now result
      → (after_store (alone now db_now fault) id (record st { db = result.0 }) result.1).1
        ≡ not_filed
      → (after_store (alone now db_now fault) id (record st { db = result.0 }) result.1).0 ≡ st
  after_store_failed now db_now fault id outcome st (db', ok rd) f e = cc e
  after_store_failed now db_now fault id outcome st (db', ride_not_found) f e = cc e
  after_store_failed now db_now fault id outcome st (db', rider_not_found) f e =
      ap (λ d. record st { db = d }) f.0
  after_store_failed now db_now fault id outcome st (db', failed) f e =
      ap (λ d. record st { db = d }) f
  after_store_failed now db_now fault id outcome st (db', active_ride_exists) f e = elim f [ ]

  -- A ride that could not be filed: nothing is lost. The tables are as before and the ride stays
  -- registered, ended with the reason that it ended with first.
  pub finish_failed :
      (now db_now : Time) (fault : Fault) (id : String) (reason : EndReason) (st : Live F)
      (s : Session F)
      → lookup id st.agg.sessions ≡ some s
      → (finish (alone now db_now fault) id reason st).1 ≡ not_filed
      → (finish (alone now db_now fault) id reason st).0
        ≡ record st { agg = ended_agg st.agg id (end_session s reason now) }
  unfolding file
  finish_failed now db_now fault id reason st s there e =
      let c : Filer F = alone now db_now fault in
      let over = end_session s reason now in
      let st1 = record st { agg = ended_agg st.agg id over } in
      let outcome = outcome_of (ended_snapshot over) in
      let result = finish_ride st.db fault id outcome db_now in
      let same = finish_registered c id reason st s there in
      ap (λ (p : Live F × Finished). p.0) same
      ∙ after_store_failed now db_now fault id outcome st1 result
          (finish_ride-FinishedAs st.db fault id outcome db_now)
          (sym (ap (λ (p : Live F × Finished). p.1) same) ∙ e)

  remove_gone : (a : Aggregator F) (id : String) → lookup id (remove_locked a id).0.sessions ≡ none
  unfolding remove_locked
  remove_gone a id = elim (Option-cases (lookup id a.sessions)) [
    | inl gone ↦ rw (gone, remove_locked) gone
    | inr (s, there) ↦
        rw (there, remove_locked) (ground (arith, lookup-delete id id a.sessions, eq_refl id))
  ]

  set_tier_gone :
      (a : Aggregator F) (id r : String) (t : Tier)
      → RegistryInv a
      → lookup id a.sessions ≡ none
      → lookup id (set_tier a r t).sessions ≡ none
  set_tier_gone a id r t h gone = elim (Option-cases (lookup id (set_tier a r t).sessions)) [
    | inl absent ↦ absent
    | inr (s, there) ↦
        let (before, filed, rider, mono) = (set_tier-moves a r t h).0 id s there in cc (filed, gone)
  ]

  ended_agg-RegistryInv :
      (a : Aggregator F) (id : String) (reason : EndReason) (now : Time) (s : Session F)
      → lookup id a.sessions ≡ some s
      → RegistryInv a
      → RegistryInv (ended_agg a id (end_session s reason now))
  ended_agg-RegistryInv a id reason now s there h =
      subst (λ (p : Aggregator F × Option RideSnapshot). RegistryInv p.0)
        (end_ride-some a id reason now s there) (end_ride-RegistryInv a id reason now h)

  end_session_again :
      (s : Session F) (r r' : EndReason) (now now' : Time)
      → end_session (end_session s r now) r' now' ≡ end_session s r now
  unfolding end_session
  end_session_again s r r' now now' = ground arith

  -- What is left once a ride is filed: the rider's score and the row are written, and the ride is gone
  -- from the registry.
  pub record IsRetired (db : Db F) (id : String) (ride : Ride) (over : Session F) (db_now : Time)
      (result : Live F × Finished) : Type 0 where
    pub rider : Rider
    pub owned : lookup ride.rider_id db.riders ≡ some rider
    pub answered : result.1 ≡ finished (rescored rider (outcome_of (ended_snapshot over)) db_now)
    pub stored : result.0.db ≡ filed_db db id ride rider (outcome_of (ended_snapshot over)) db_now
    pub gone : lookup id result.0.agg.sessions ≡ none

  pub finish-IsRetired :
      (now db_now : Time) (fault : Fault) (id : String) (reason : EndReason) (st : Live F)
      (s : Session F) (ride : Ride)
      → RegistryInv st.agg
      → IsSound st.db
      → IsQuiet fault
      → lookup id st.agg.sessions ≡ some s
      → find_active id st.db.rides ≡ some ride
      → IsRetired st.db id ride
          (end_session s reason now)
          db_now
          (finish (alone now db_now fault) id reason st)
  unfolding file
  finish-IsRetired now db_now fault id reason st s ride h sound quiet there live =
      let c : Filer F = alone now db_now fault in
      let over = end_session s reason now in
      let a1 = ended_agg st.agg id over in
      let outcome = outcome_of (ended_snapshot over) in
      let (rider, owned, wrote) =
        finish_ride-ok st.db fault id outcome db_now ride sound quiet live in
      let done : finish c id reason st
          ≡ after_store c id (record { agg = a1; db = filed_db st.db id ride rider outcome db_now })
              (ok (rescored rider outcome db_now)) =
        finish_registered c id reason st s there
        ∙ ap (λ (p : Db F × Reply Rider). after_store c id (record { agg = a1; db = p.0 }) p.1)
            wrote in
      let rd = rescored rider outcome db_now in
      let h1 = ended_agg-RegistryInv st.agg id reason now s there h in
      record {
        rider = rider;
        owned = owned;
        answered = ap (λ (p : Live F × Finished). p.1) done;
        stored = ap (λ (p : Live F × Finished). p.0.db) done;
        gone =
            ap (λ (p : Live F × Finished). lookup id p.0.agg.sessions) done
            ∙ set_tier_gone (remove_locked a1 id).0 id rd.id (parse_tier rd.tier)
                (remove-RegistryInv a1 id h1) (remove_gone a1 id);
      }

  -- A failed write loses nothing: where registry and tables are linked and a registered ride, still
  -- active in the tables, could not be filed, the next attempt without failures, whatever reason it
  -- gives, files it under the reason that it ended with first, applies that outcome to its rider and
  -- unregisters it.
  pub finish_retried :
      (st : Live F) (id : String) (s : Session F) (ride : Ride) (reason reason' : EndReason)
      (fault fault' : Fault) (now db_now now' db_now' : Time)
      → Linked st
      → lookup id st.agg.sessions ≡ some s
      → find_active id st.db.rides ≡ some ride
      → (finish (alone now db_now fault) id reason st).1 ≡ not_filed
      → IsQuiet fault'
      → IsRetired st.db id ride (end_session s reason now) db_now' (
          finish
            (alone now' db_now' fault')
            id
            reason'
            (finish (alone now db_now fault) id reason st).0)
  finish_retried st id s ride reason reason' fault fault' now db_now now' db_now' h there live lost
        quiet =
      let over = end_session s reason now in
      let left = finish_failed now db_now fault id reason st s there lost in
      let st' : Live F = record st { agg = ended_agg st.agg id over } in
      let retired =
        finish-IsRetired now' db_now' fault' id reason' st' over ride
          (ended_agg-RegistryInv st.agg id reason now s there h.registry) h.tables quiet
          (lookup-insert_self id over st.agg.sessions) live in
      subst
        (λ (u : Live F).
          IsRetired st.db id ride over db_now' (finish (alone now' db_now' fault') id reason' u))
        (sym left)
        (subst
          (λ (t : Session F).
            IsRetired st.db id ride t db_now' (finish (alone now' db_now' fault') id reason' st'))
          (end_session_again s reason reason' now now') retired)
