-- ===== src/RiderApi/Requests.antt =====
-- rider_handlers.go and the reap loop of rider_wiring.go: the other requests as steps.
use vehicle_positions.Prelude.{
  String, not, ◌&&◌, Option, none, some, List, length, ltb, ◌==◌, ◌≡◌, refl, sym, Option-cases,
  Bool-cases, inl, inr, subst,
}
use vehicle_positions.Prelude.Float.{FloatOps}
use vehicle_positions.Prelude.Time.{Time}
use vehicle_positions.Rider.Verify.{Point}
use vehicle_positions.Rider.Session.{EndReason, end_idle, is_blocked, parse_client_end_reason}
use vehicle_positions.Rider.Session.Step.{summary_ended}
use vehicle_positions.Rider.Aggregator.{RideSnapshot, live_key}
use vehicle_positions.Rider.Aggregator.Batch.{BatchResult, apply_batch_locked}
use vehicle_positions.RiderApi.{
  PositionUpload, rider_max_batch_size, ride_point_records, progress_of,
}
use vehicle_positions.RiderApi.Service.{
  Live, Filer, Finished, finished, not_active, not_filed, finish, Resolved, refused, resolved,
  resolve_ride,
}
use vehicle_positions.RiderApi.Handlers.{
  Decoded, undecoded, decoded, Call, after_finish, end_resolved, end_by, handle_end_ride,
}
use vehicle_positions.RiderApi.Positions.{
  Reporter, Stored, stored, refused_as_ended, not_stored, store_batch, file_ended, answer_batch,
  after_batch, judge_batch, take_positions, judge_taken, positions_resolved, positions_by,
  handle_positions, is_empty,
}
use vehicle_positions.RiderApi.Linked.{Linked}
use vehicle_positions.RiderApi.Steps.{Step, judges, stores, Steps, here, Steps-trans, one}
use vehicle_positions.RiderApi.Keeping.{Steps-Linked}
use vehicle_positions.RiderApi.Filing.{Interleaved, finish-Steps}

module _ {F : Type 0} where
  after_finish-state :
      (call : Call) (snap : RideSnapshot) (p : Live F × Finished)
      → (after_finish call snap p).0 ≡ p.0
  after_finish-state call snap (st, finished rd) = refl
  after_finish-state call snap (st, not_active) = refl
  after_finish-state call snap (st, not_filed) = refl

module _ {F : Type 0} ⦃fl : FloatOps F⦄ where
  end_resolved-Steps :
      (call : Call) (c : Filer F) (st : Live F) (reason : EndReason) (r : Resolved)
      → Interleaved c
      → Linked st
      → Steps st (end_resolved call c st reason r).0
  end_resolved-Steps call c st reason (refused status msg) gaps h = here
  end_resolved-Steps call c st reason (resolved snap) gaps h =
      subst (λ (u : Live F). Steps st u)
        (sym (after_finish-state call snap (finish c snap.id reason st)))
        (finish-Steps c snap.id reason st gaps h)

  end_by-Steps :
      (call : Call) (c : Filer F) (st : Live F) (ride_id : String) (body : Decoded String)
      (caller : Option String)
      → Interleaved c
      → Linked st
      → Steps st (end_by call c st ride_id body caller).0
  end_by-Steps call c st ride_id body none gaps h = here
  end_by-Steps call c st ride_id (undecoded status msg) (some rider_id) gaps h =
      elim (Bool-cases call.allowed) [
        | inl let_in ↦ rw let_in here
        | inr held_off ↦ rw held_off here
      ]
  end_by-Steps call c st ride_id (decoded reason) (some rider_id) gaps h =
      let parsed = parse_client_end_reason reason in
      let r = resolve_ride call.is_uuid st ride_id rider_id in
      elim (Bool-cases call.allowed) [
        | inr held_off ↦ rw held_off here
        | inl let_in ↦ elim (Bool-cases parsed.1) [
          | inl known ↦ rw (let_in, known) (end_resolved-Steps call c st parsed.0 r gaps h)
          | inr unknown ↦ rw (let_in, unknown) here
        ]
      ]

  pub handle_end_ride-Steps :
      (call : Call) (c : Filer F) (st : Live F) (ride_id : String) (body : Decoded String)
      → Interleaved c
      → Linked st
      → Steps st (handle_end_ride call c st ride_id body).0
  unfolding handle_end_ride
  handle_end_ride-Steps call c st ride_id body gaps h =
      end_by-Steps call c st ride_id body call.caller gaps h

  pub record ReportInterleaved (c : Reporter F) : Type 0 where
    pub batch : (st : Live F) → Linked st → Steps st (c.before_batch st)
    pub storing : (st : Live F) → Linked st → Steps st (c.before_record st)
    pub ended : Interleaved c.when_ended
    pub refused : Interleaved c.when_refused

  store_batch-Steps :
      (c : Reporter F) (snap : RideSnapshot) (res : BatchResult F) (st : Live F)
      → Steps st (store_batch c snap res st).0
  unfolding store_batch
  store_batch-Steps c snap res st =
      elim (Bool-cases (not (is_blocked snap.tier) && not (is_empty res.points))) [
        | inl wanted ↦ rw wanted (
            one (
              stores c.fault snap.id snap.rider_id (ride_point_records res.points)
                (progress_of res.ride_summary) c.db_now refl))
        | inr nothing ↦ rw nothing here
      ]

  file_ended-Steps :
      (c : Reporter F) (snap : RideSnapshot) (res : BatchResult F) (st : Live F)
      → ReportInterleaved c
      → Linked st
      → Steps st (file_ended c snap res st)
  unfolding file_ended
  file_ended-Steps c snap res st gaps h = elim (Bool-cases (summary_ended res.ride_summary)) [
    | inl over ↦
        rw over (finish-Steps c.when_ended snap.id res.ride_summary.end_reason st gaps.ended h)
    | inr live ↦ rw live here
  ]

  answer_batch-Steps :
      (c : Reporter F) (snap : RideSnapshot) (res : BatchResult F) (st : Live F) (s : Stored)
      → ReportInterleaved c
      → Linked st
      → Steps st (answer_batch c snap res st s).0
  answer_batch-Steps c snap res st refused_as_ended gaps h =
      finish-Steps c.when_refused snap.id end_idle st gaps.refused h
  answer_batch-Steps c snap res st not_stored gaps h = here
  answer_batch-Steps c snap res st stored gaps h = here

  after_batch-Steps :
      (c : Reporter F) (snap : RideSnapshot) (st : Live F) (res : Option (BatchResult F))
      → ReportInterleaved c
      → Linked st
      → Steps st (after_batch c snap st res).0
  after_batch-Steps c snap st none gaps h = here
  after_batch-Steps c snap st (some res) gaps h =
      let gap = gaps.storing st h in
      let wrote = store_batch c snap res (c.before_record st) in
      let to_wrote = Steps-trans gap (store_batch-Steps c snap res (c.before_record st)) in
      let filed = file_ended-Steps c snap res wrote.0 gaps (Steps-Linked to_wrote h) in
      let to_filed = Steps-trans to_wrote filed in
      Steps-trans to_filed (
        answer_batch-Steps c snap res (file_ended c snap res wrote.0) wrote.1 gaps
          (Steps-Linked to_filed h))

  judge_batch-Steps :
      (c : Reporter F) (snap : RideSnapshot) (points : List (Point F)) (now : Time) (st : Live F)
      → ReportInterleaved c
      → Linked st
      → Steps st (judge_batch c snap points now st).0
  unfolding judge_batch
  judge_batch-Steps c snap points now st gaps h = elim (Option-cases (live_key st.agg snap.id)) [
    | inl gone ↦ rw (gone, judge_batch) here
    | inr (key, live) ↦
        let gap = gaps.batch st h in
        let u = c.before_batch st in
        let out = apply_batch_locked u.agg snap.id key points (c.lookup_trusted key) now in
        let s : Step u (record u { agg = out.0 }) =
          judges snap.id key points (c.lookup_trusted key) now refl in
        let to_out = Steps-trans gap (one s) in
        rw (live, judge_batch)
          (Steps-trans to_out (
            after_batch-Steps c snap (record u { agg = out.0 }) out.1 gaps (Steps-Linked to_out h)))
  ]

  judge_taken-Steps :
      (call : Call) (c : Reporter F) (snap : RideSnapshot) (st : Live F)
      (taken : Option String × List (Point F))
      → ReportInterleaved c
      → Linked st
      → Steps st (judge_taken call c snap st taken).0
  judge_taken-Steps call c snap st (some msg, points) gaps h = here
  judge_taken-Steps call c snap st (none, points) gaps h =
      judge_batch-Steps c snap points call.now st gaps h

  positions_resolved-Steps :
      (call : Call) (c : Reporter F) (st : Live F) (body : Decoded (List (PositionUpload F)))
      (r : Resolved)
      → ReportInterleaved c
      → Linked st
      → Steps st (positions_resolved call c st body r).0
  positions_resolved-Steps call c st body (refused status msg) gaps h = here
  positions_resolved-Steps call c st (undecoded status msg) (resolved snap) gaps h = here
  positions_resolved-Steps call c st (decoded uploads) (resolved snap) gaps h =
      elim (Bool-cases (length uploads == 0)) [
        | inl nothing ↦ rw nothing here
        | inr something ↦ elim (Bool-cases (ltb rider_max_batch_size (length uploads))) [
          | inl many ↦ rw (something, many) here
          | inr few ↦
              rw (something, few) (judge_taken-Steps call c snap st (take_positions uploads) gaps h)
        ]
      ]

  positions_by-Steps :
      (call : Call) (c : Reporter F) (st : Live F) (ride_id : String)
      (body : Decoded (List (PositionUpload F))) (caller : Option String)
      → ReportInterleaved c
      → Linked st
      → Steps st (positions_by call c st ride_id body caller).0
  positions_by-Steps call c st ride_id body none gaps h = here
  positions_by-Steps call c st ride_id body (some rider_id) gaps h =
      elim (Bool-cases call.allowed) [
        | inr held_off ↦ rw held_off here
        | inl let_in ↦ rw let_in (
            positions_resolved-Steps call c st body (resolve_ride call.is_uuid st ride_id rider_id)
              gaps h)
      ]

  pub handle_positions-Steps :
      (call : Call) (c : Reporter F) (st : Live F) (ride_id : String)
      (body : Decoded (List (PositionUpload F)))
      → ReportInterleaved c
      → Linked st
      → Steps st (handle_positions call c st ride_id body).0
  unfolding handle_positions
  handle_positions-Steps call c st ride_id body gaps h =
      positions_by-Steps call c st ride_id body call.caller gaps h
