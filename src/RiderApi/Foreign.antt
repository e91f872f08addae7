-- ===== src/RiderApi/Foreign.antt =====
-- rider_handlers.go: requests on a ride that is not the caller's own live ride.
use vehicle_positions.Prelude.{
  ℕ, String, Bool, false, Option, none, some, List, ◌≡◌, ◌≢◌, refl, arith, str_eq, eq_iff,
  Option-cases, Bool-cases, inl, inr,
}
use vehicle_positions.Prelude.Float.{FloatOps}
use vehicle_positions.Prelude.Dict.{lookup}
use vehicle_positions.Rider.Session.{Session}
use vehicle_positions.Rider.Aggregator.{snapshot, snapshot_of}
use vehicle_positions.RiderApi.{PositionUpload}
use vehicle_positions.Rider.Session.{parse_client_end_reason}
use vehicle_positions.RiderApi.Service.{Live, Filer, refused, resolve_ride}
use vehicle_positions.RiderApi.Handlers.{
  Call, Decoded, decoded, undecoded, end_decoded, end_by, handle_end_ride,
}
use vehicle_positions.RiderApi.Positions.{
  Reporter, positions_resolved, positions_by, handle_positions,
}

module _ {F : Type 0} where
  -- The ride is not registered as a live ride of the caller.
  abbrev pub IsForeign : Live F → String → Option String → Type 0
  IsForeign st ride_id caller =
      (s : Session F) (rider : String)
      → caller ≡ some rider
      → lookup ride_id st.agg.sessions ≡ some s
      → s.ended ≡ false
      → s.rider_id ≢ rider

  resolve_ride-refused :
      (is_uuid : String → Bool) (st : Live F) (ride_id rider : String)
      → IsForeign st ride_id (some rider)
      → (status : ℕ) × (msg : String) × (resolve_ride is_uuid st ride_id rider ≡ refused status msg)
  unfolding resolve_ride snapshot_of
  resolve_ride-refused is_uuid st ride_id rider foreign =
      elim (Option-cases (lookup ride_id st.agg.sessions)) [
        | inl gone ↦ elim (Bool-cases (is_uuid ride_id)) [
          | inl past ↦ (409, "ride ended", rw (gone, past, snapshot) refl)
          | inr never ↦ (404, "ride not found", rw (gone, never, snapshot) refl)
        ]
        | inr (s, there) ↦ elim (Bool-cases s.ended) [
          | inl over ↦ (409, "ride ended", rw (there, over, snapshot, snapshot_of) refl)
          | inr live ↦ elim (Bool-cases (str_eq s.rider_id rider)) [
            | inl own ↦ elim (foreign s rider refl there live ((eq_iff s.rider_id rider).0 own)) [ ]
            | inr other ↦
                (404, "ride not found", rw (there, live, other, snapshot, snapshot_of) refl)
          ]
        ]
      ]

module _ {F : Type 0} ⦃fl : FloatOps F⦄ where
  end_decoded_foreign :
      (call : Call) (c : Filer F) (st : Live F) (ride_id rider : String) (body : Decoded String)
      → IsForeign st ride_id (some rider)
      → (end_decoded call c st ride_id rider body).0 ≡ st
  end_decoded_foreign call c st ride_id rider (undecoded status msg) foreign = refl
  end_decoded_foreign call c st ride_id rider (decoded reason) foreign =
      let (status, msg, e) = resolve_ride-refused call.is_uuid st ride_id rider foreign in
      elim (Bool-cases (parse_client_end_reason reason).1) [
        | inl known ↦ rw (known, e) refl
        | inr unknown ↦ rw unknown refl
      ]

  end_by_foreign :
      (call : Call) (c : Filer F) (st : Live F) (ride_id : String) (body : Decoded String)
      (caller : Option String)
      → IsForeign st ride_id caller
      → (end_by call c st ride_id body caller).0 ≡ st
  end_by_foreign call c st ride_id body none foreign = refl
  end_by_foreign call c st ride_id body (some rider) foreign =
      ground (arith, end_decoded_foreign call c st ride_id rider body foreign)

  positions_by_foreign :
      (call : Call) (c : Reporter F) (st : Live F) (ride_id : String)
      (body : Decoded (List (PositionUpload F))) (caller : Option String)
      → IsForeign st ride_id caller
      → (positions_by call c st ride_id body caller).0 ≡ st
  positions_by_foreign call c st ride_id body none foreign = refl
  positions_by_foreign call c st ride_id body (some rider) foreign =
      let (status, msg, e) = resolve_ride-refused call.is_uuid st ride_id rider foreign in
      let same : (positions_resolved call c st body (resolve_ride call.is_uuid st ride_id rider)).0
          ≡ st =
        rw e refl in
      ground arith

  -- Nobody ends or feeds another rider's ride: a request to end a ride, or to report positions for
  -- it, leaves registry and tables as they are unless the ride is registered as a live ride of the
  -- rider that the token names, whatever the body says and whatever other requests would do between
  -- the handler's calls.
  pub foreign_ride_untouched :
      (call : Call) (c : Filer F) (r : Reporter F) (st : Live F) (ride_id : String)
      (reason : Decoded String) (body : Decoded (List (PositionUpload F)))
      → IsForeign st ride_id call.caller
      → ((handle_end_ride call c st ride_id reason).0 ≡ st)
        × ((handle_positions call r st ride_id body).0 ≡ st)
  unfolding handle_end_ride handle_positions
  foreign_ride_untouched call c r st ride_id reason body foreign = (
    end_by_foreign call c st ride_id reason call.caller foreign,
    positions_by_foreign call r st ride_id body call.caller foreign,
  )
