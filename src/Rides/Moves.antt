-- ===== src/Rides/Moves.antt =====
-- rider_store.go: the transactions of the store, one after another.
use vehicle_positions.Prelude.{String, Bool, List, [], ◌≡◌, sym, subst}
use vehicle_positions.Prelude.Time.{Time}
use vehicle_positions.Prelude.Dict.{lookup}
use vehicle_positions.Rides.{Ride, RideProgress, RideOutcome, RidePointRecord, Db, Fault}
use vehicle_positions.Rides.Store.{
  register_rider, start_ride, record_ride_points, finish_ride, end_all_active_rides,
  delete_ride_points_before,
}
use vehicle_positions.Rides.Filed.{finish_ride-FinishedAs, record_ride_points-RecordedAs}
use vehicle_positions.Rides.Sound.{
  IsSound, register_rider-IsSound, start_ride-IsSound, IsSound-finished, IsSound-recorded,
  end_all_active_rides-IsSound, delete_ride_points_before-IsSound,
}

module _ {F : Type 0} where
  pub data Tx (db db' : Db F) : Type 0 where
    registers :
        (broken : Bool) (id installation platform app_id app_version : String) (now : Time)
        → db' ≡ (register_rider db broken id installation platform app_id app_version now).0
        → Tx db db'
    starts :
        (broken : Bool) (ride : Ride) (now : Time)
        → db' ≡ (start_ride db broken ride now).0
        → Tx db db'
    records :
        (fault : Fault) (id rider : String) (points : List (RidePointRecord F))
        (progress : RideProgress) (now : Time)
        → db' ≡ (record_ride_points db fault id rider points progress now).0
        → Tx db db'
    finishes :
        (fault : Fault) (id : String) (outcome : RideOutcome) (now : Time)
        → db' ≡ (finish_ride db fault id outcome now).0
        → Tx db db'
    sweeps :
        (broken : Bool) (reason : String) (now : Time)
        → db' ≡ (end_all_active_rides db broken reason now).0
        → Tx db db'
    prunes :
        (broken : Bool) (cutoff : Time)
        → db' ≡ (delete_ride_points_before db broken cutoff).0
        → Tx db db'

  pub data Txs (db : Db F) : Db F → Type 0 where
    here : Txs db db
    next : {b c : Db F} → Txs db b → Tx b c → Txs db c

  abbrev pub empty_db : Db F
  empty_db = record { riders = []; rides = []; points = [] }

  empty_db-IsSound : IsSound empty_db
  unfolding lookup
  empty_db-IsSound = record {
    riders = record {
      dict = tt;
      keyed = λ id r e. cc e;
      alone = λ a b r s e f g. cc e;
      standing = λ id r e. cc e;
    };
    rides = record {
      keyed = λ id r e. cc e;
      alone = λ a b r s e f live live' g. cc e;
      dated = λ id r e. cc e;
    };
    owned = λ id r e. cc e;
  }

  pub Tx-IsSound : {db db' : Db F} → Tx db db' → IsSound db → IsSound db'
  Tx-IsSound {db} (registers broken id installation platform app_id app_version now e) h =
      subst (λ (d : Db F). IsSound d) (sym e)
        (register_rider-IsSound db broken id installation platform app_id app_version now h)
  Tx-IsSound {db} (starts broken ride now e) h =
      subst (λ (d : Db F). IsSound d) (sym e) (start_ride-IsSound db broken ride now h)
  Tx-IsSound {db} (records fault id rider points progress now e) h =
      subst (λ (d : Db F). IsSound d) (sym e)
        (IsSound-recorded db id rider points progress now
          (record_ride_points db fault id rider points progress now)
          (record_ride_points-RecordedAs db fault id rider points progress now) h)
  Tx-IsSound {db} (finishes fault id outcome now e) h =
      subst (λ (d : Db F). IsSound d) (sym e)
        (IsSound-finished db id outcome now (finish_ride db fault id outcome now)
          (finish_ride-FinishedAs db fault id outcome now) h)
  Tx-IsSound {db} (sweeps broken reason now e) h =
      subst (λ (d : Db F). IsSound d) (sym e) (end_all_active_rides-IsSound db broken reason now h)
  Tx-IsSound {db} (prunes broken cutoff e) h =
      subst (λ (d : Db F). IsSound d) (sym e) (delete_ride_points_before-IsSound db broken cutoff h)

  Txs-IsSound : {db db' : Db F} → Txs db db' → IsSound db → IsSound db'
  Txs-IsSound here h = h
  Txs-IsSound (next txs tx) h = Tx-IsSound tx (Txs-IsSound txs h)

  -- Whatever transactions run on the empty tables, with whatever failures: an installation has one
  -- rider and a rider at most one active ride; every ride has its rider, and is active exactly if it
  -- has no end; every score lies in [-10, 10], has the tier of that score, and no rider has more
  -- corroborated or rejected rides than scored ones.
  pub reachable-IsSound : (db : Db F) → Txs empty_db db → IsSound db
  reachable-IsSound db txs = Txs-IsSound txs empty_db-IsSound
