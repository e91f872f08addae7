-- ===== src/Rider/Aggregator/Accounting.antt =====
-- `ApplyBatch` of rider/aggregator.go: what becomes of the points of a batch.
use vehicle_positions.Prelude.{
  ◌+◌, String, true, false, Option, none, some, List, ◌≡◌, refl, arith, length, Bool-cases,
  Option-cases, inl, inr, subst, ◌⊎◌,
}
use vehicle_positions.Prelude.Time.{Time}
use vehicle_positions.Prelude.Float.{FloatOps}
use vehicle_positions.Prelude.Dict.{insert}
use vehicle_positions.Prelude.Sort.{sort, length-sort}
use vehicle_positions.Rider.Verify.{Point, TrustedVehicle, verify}
use vehicle_positions.Rider.Session.{TripKey, Session}
use vehicle_positions.Rider.Session.Invariant.{Inv}
use vehicle_positions.Rider.Aggregator.{Aggregator, live_key, live_session, same_key}
use vehicle_positions.Rider.Aggregator.Batch.{
  input_of, trusted_along_of, BatchResult, start_of, fold_batch, older, apply_batch,
  apply_batch_locked, result_of,
}
use vehicle_positions.Rider.Aggregator.Folding.{
  SameRide, fold_points-IsAccounted, fold_points-IsKept, IsReading, fold_points-IsReading,
}

module _ {F : Type 0} ⦃fl : FloatOps F⦄ where
  -- What a batch that was applied did: to the ride's session `s`, which is now `s'`, and in its
  -- answer `r`.
  pub record IsApplied (a : Aggregator F) (trusted : Option (TrustedVehicle F)) (now : Time)
      (ps : List (Point F)) (s s' : Session F) (r : BatchResult F) : Type 0 where
    pub read :
        IsReading
          (λ t p. verify (input_of a trusted (trusted_along_of s trusted) now t p))
          s
          (sort older ps)
          r.points
          s'
    -- every point is accepted or ignored, and the accepted ones are those that are handed on
    pub covered : r.accepted + r.ignored_count ≡ length ps
    pub recorded : length r.points ≡ r.accepted
    pub counted : s'.counts.total ≡ s.counts.total + r.accepted
    pub same : SameRide s s'
    pub sound : Inv s → Inv s'

  fold_batch-IsApplied :
      (a : Aggregator F) (trusted : Option (TrustedVehicle F)) (now : Time) (s : Session F)
      (ps : List (Point F))
      → IsApplied a trusted now ps s
          (fold_batch a trusted now s ps).session
          (result_of a now (fold_batch a trusted now s ps))
  unfolding fold_batch result_of
  fold_batch-IsApplied a trusted now s ps =
      let judge = λ (t : Session F) (p : Point F).
        verify (input_of a trusted (trusted_along_of s trusted) now t p) in
      let done = fold_points-IsAccounted judge (start_of s) (sort older ps) in
      let kept = fold_points-IsKept judge (start_of s) (sort older ps) in
      let n = length-sort older ps in
      record {
        read = fold_points-IsReading judge (start_of s) (sort older ps) refl;
        covered = omega (arith, done.covered, n);
        recorded = omega (arith, done.recorded);
        counted = omega (arith, done.counted);
        same = kept.same;
        sound = kept.sound;
      }

  -- What `apply_batch` did, whatever happened to the registry while the lock was free: the ride was
  -- live when the call came in, it is live on the same trip when the lock is taken again, that
  -- session is replaced by the one that the batch leads to and no other ride changes.
  pub record IsBatch (a after : Aggregator F) (id : String) (ps : List (Point F))
      (lookup : TripKey → Option (TrustedVehicle F)) (now : Time) (a' : Aggregator F)
      (r : BatchResult F) : Type 0 where
    pub key : TripKey
    pub before : live_key a id ≡ some key
    pub s : Session F
    pub s' : Session F
    pub live : live_session after id ≡ some s
    pub same_trip : same_key s.key key ≡ true
    pub stored : a' ≡ record after { sessions = insert id s' after.sessions }
    pub applied : IsApplied after (lookup key) now ps s s' r

  apply_batch_locked-IsApplied :
      (a : Aggregator F) (id : String) (key : TripKey) (ps : List (Point F))
      (trusted : Option (TrustedVehicle F)) (now : Time) (a' : Aggregator F) (r : BatchResult F)
      → apply_batch_locked a id key ps trusted now ≡ (a', some r)
      → (s : Session F) × (s' : Session F) × (live_session a id ≡ some s)
        × (same_key s.key key ≡ true)
        × (a' ≡ record a { sessions = insert id s' a.sessions })
        × IsApplied a trusted now ps s s' r
  unfolding apply_batch_locked
  apply_batch_locked-IsApplied a id key ps trusted now a' r e =
      elim (Option-cases (live_session a id)) [
        | inl gone ↦ ground arith
        | inr (s, live) ↦
            let f = fold_batch a trusted now s ps in
            let same : same_key s.key key ≡ true = ground arith in
            let stored : a' ≡ record a { sessions = insert id f.session a.sessions } =
              ground arith in
            let answer : result_of a now f ≡ r = ground arith in
            (
              s,
              f.session,
              live,
              same,
              stored,
              subst (IsApplied a trusted now ps s f.session) answer
                  (fold_batch-IsApplied a trusted now s ps),
            )
      ]

  -- A batch that is refused leaves the registry alone.
  pub batch-cases :
      (a : Aggregator F) (id : String) (key : TripKey) (ps : List (Point F))
      (trusted : Option (TrustedVehicle F)) (now : Time)
      → ((apply_batch_locked a id key ps trusted now).0 ≡ a)
        ⊎ ((s : Session F) × (s' : Session F) × (live_session a id ≡ some s)
            × ((apply_batch_locked a id key ps trusted now).0
                ≡ record a { sessions = insert id s' a.sessions })
            × SameRide s s'
            × (Inv s → Inv s'))
  unfolding apply_batch_locked
  batch-cases a id key ps trusted now = elim (Option-cases (live_session a id)) [
    | inl gone ↦ inl (ground arith)
    | inr (s, live) ↦ elim (Bool-cases (same_key s.key key)) [
      | inl same ↦
          let f = fold_batch a trusted now s ps in
          let done = fold_batch-IsApplied a trusted now s ps in
          inr (s, f.session, live, ground arith, done.same, done.sound)
      | inr other ↦ inl (ground arith)
    ]
  ]

  -- A batch that is answered was applied to the live session of its ride, and of no other, as
  -- `IsBatch` says: its points, oldest first, are each judged against the session as the points
  -- before left it, those that are not ignored are handed on in that order with their verdicts and
  -- are what the session is made of, and what comes after the end of the ride counts for nothing.
  -- Every point is counted as accepted or ignored, the accepted ones are as many as are handed on and
  -- as the session's total grows by, and the session keeps its ride and its invariant.
  pub apply_batch-IsBatch :
      (a : Aggregator F) (between : Aggregator F → Aggregator F) (id : String) (ps : List (Point F))
      (lookup : TripKey → Option (TrustedVehicle F)) (now : Time) (a' : Aggregator F)
      (r : BatchResult F)
      → apply_batch a between id ps lookup now ≡ (a', some r)
      → IsBatch a (between a) id ps lookup now a' r
  unfolding apply_batch
  apply_batch-IsBatch a between id ps lookup now a' r e = elim (Option-cases (live_key a id)) [
    | inl gone ↦ ground arith
    | inr (key, before) ↦
        let e' : apply_batch_locked (between a) id key ps (lookup key) now ≡ (a', some r) =
          ground arith in
        let (s, s', live, same, stored, applied) =
          apply_batch_locked-IsApplied (between a) id key ps (lookup key) now a' r e' in
        record {
          key = key;
          before = before;
          s = s;
          s' = s';
          live = live;
          same_trip = same;
          stored = stored;
          applied = applied;
        }
  ]

  -- Otherwise the ride was not live when the call came in, or when the lock was taken again it was
  -- not live on the same trip; the batch has then changed nothing.
  pub apply_batch_refused :
      (a : Aggregator F) (between : Aggregator F → Aggregator F) (id : String) (ps : List (Point F))
      (lookup : TripKey → Option (TrustedVehicle F)) (now : Time)
      → (apply_batch a between id ps lookup now).1 ≡ none
      → ((live_key a id ≡ none) × ((apply_batch a between id ps lookup now).0 ≡ a))
        ⊎ ((apply_batch a between id ps lookup now).0 ≡ between a)
          × ((key : TripKey) (s : Session F)
              → live_key a id ≡ some key
              → live_session (between a) id ≡ some s
              → same_key s.key key ≡ false)
  unfolding apply_batch apply_batch_locked
  apply_batch_refused a between id ps lookup now e = elim (Option-cases (live_key a id)) [
    | inl gone ↦ inl (gone, ground arith)
    | inr (key, before) ↦ inr (ground arith, λ k s p q. ground arith)
  ]
