-- ===== src/Rider/Aggregator/Credible.antt =====
-- The position of a trip in rider/aggregator.go: whose word it rests on.
use vehicle_positions.Prelude.{
  ◌≤◌, ◌<◌, Bool, true, false, Option, none, some, List, [], ◌∷◌, ◌++◌, ◌≡◌, ◌⊎◌, refl, ap, arith,
  any, keep, All, length, length-keep, ltb, str_eq, Option-cases, Bool-cases, inl, inr, subst,
}
use vehicle_positions.Prelude.Time.{Time}
use vehicle_positions.Prelude.Float.{FloatOps}
use vehicle_positions.Rider.Geometry.{ShapeGeom, point_at}
use vehicle_positions.Rider.Schedule.{TripInfo}
use vehicle_positions.Rider.Session.{TripKey}
use vehicle_positions.Rider.Aggregator.Estimate.{
  TripEstimate, agrees, any_pair, group_publishable, within, median_along, trim, estimate,
  estimate_from, estimate_on, outlier_distance,
}
use vehicle_positions.Rider.Aggregator.Grouping.{
  EstimateMember, TripGroup, newest_timestamp, distinct_riders,
}

module _ {F : Type 0} ⦃fl : FloatOps F⦄ where
  open fl use {le, sub, abs, lit}

  -- Why a set of riders may be published: one of them on their own, or two who agree.
  pub data Voucher (ms : List (EstimateMember F)) : Type 0 where
    one :
        (before after : List (EstimateMember F)) (m : EstimateMember F)
        → ms ≡ before ++ m ∷ after
        → m.is_publishable ≡ true
        → Voucher ms
    two :
        (before between after : List (EstimateMember F)) (m n : EstimateMember F)
        → ms ≡ before ++ m ∷ between ++ n ∷ after
        → str_eq m.rider_id n.rider_id ≡ false
        → le (abs (sub m.along n.along)) (lit 100) ≡ true
        → Voucher ms

  any-split :
      (p : EstimateMember F → Bool) (ms : List (EstimateMember F))
      → any p ms ≡ true
      → (before : List (EstimateMember F)) × (m : EstimateMember F) × (after : List
          (EstimateMember F))
        × (ms ≡ before ++ m ∷ after)
        × (p m ≡ true)
  unfolding any
  any-split p [] h = cc
  any-split p (x ∷ ms) h = elim (Bool-cases (p x)) [
    | inl hit ↦ ([], x, ms, refl, hit)
    | inr miss ↦
        let (before, m, after, e, q) = any-split p ms (ground arith) in
        (x ∷ before, m, after, ap (λ l. x ∷ l) e, q)
  ]

  any_pair-Voucher : (ms : List (EstimateMember F)) → any_pair ms ≡ true → Voucher ms
  unfolding any_pair
  any_pair-Voucher [] h = cc
  any_pair-Voucher (x ∷ ms) h = elim (Bool-cases (any (agrees x) ms)) [
    | inl hit ↦
        let (between, n, after, e, q) = any-split (agrees x) ms hit in
        two [] between after x n (ap (λ l. x ∷ l) e) (ground arith) (ground arith)
    | inr miss ↦ longer (any_pair-Voucher ms (ground arith))
  ]
    where
      longer : Voucher ms → Voucher (x ∷ ms)
      longer (one before after m e p) = one (x ∷ before) after m (ap (λ l. x ∷ l) e) p
      longer (two before between after m n e p q) =
          two (x ∷ before) between after m n (ap (λ l. x ∷ l) e) p q

  group_publishable-Voucher :
      (ms : List (EstimateMember F)) → group_publishable ms ≡ true → Voucher ms
  unfolding group_publishable
  group_publishable-Voucher ms h = elim (Bool-cases (any (λ m. m.is_publishable) ms)) [
    | inl hit ↦
        let (before, m, after, e, q) = any-split (λ m. m.is_publishable) ms hit in
        one before after m e q
    | inr miss ↦ any_pair-Voucher ms (ground arith)
  ]

  -- `kept` is what is left of `ms` where every member is near `centre`, in order.
  keep-All :
      (p : EstimateMember F → Bool) (ms : List (EstimateMember F))
      → All (λ m. p m ≡ true) (keep p ms)
  unfolding keep
  keep-All p [] = tt
  keep-All p (m ∷ ms) = ground (arith, keep-All p ms)

  keep_full :
      (p : EstimateMember F → Bool) (ms : List (EstimateMember F))
      → length ms ≤ length (keep p ms)
      → All (λ m. p m ≡ true) ms
  unfolding keep
  keep_full p [] h = tt
  keep_full p (m ∷ ms) h = ground (arith, keep_full p ms, length-keep p ms)

  newest_timestamp-le : (ms : List (EstimateMember F)) (now : Time) → newest_timestamp ms now ≤ now
  unfolding newest_timestamp
  newest_timestamp-le [] now = omega arith
  newest_timestamp-le (m ∷ ms) now = ground arith

  abbrev near : F → EstimateMember F → Bool
  near centre m = le (abs (sub m.along centre)) outlier_distance

  Voucher-nonempty : (ms : List (EstimateMember F)) → Voucher ms → 0 < length ms
  Voucher-nonempty [] (one [] after m e p) = cc
  Voucher-nonempty [] (one (x ∷ before) after m e p) = cc
  Voucher-nonempty [] (two [] between after m n e p q) = cc
  Voucher-nonempty [] (two (x ∷ before) between after m n e p q) = cc
  Voucher-nonempty (x ∷ ms) v = omega arith

  -- What the members that a position is computed from have in common.
  pub record IsTrimmed (ms kept : List (EstimateMember F)) : Type 0 where
    pub chosen : (kept ≡ ms) ⊎ (kept ≡ keep (near (median_along ms)) ms)
    pub close : All (λ m. near (median_along ms) m ≡ true) kept
    pub nonempty : 0 < length kept
    pub voucher : Voucher kept

  trim-IsTrimmed :
      (ms kept : List (EstimateMember F))
      → group_publishable ms ≡ true
      → trim ms ≡ some kept
      → IsTrimmed ms kept
  unfolding trim within
  trim-IsTrimmed ms kept v e =
      let p = near (median_along ms) in
      elim (Bool-cases (ltb (length (keep p ms)) (length ms))) [
        | inl fewer ↦
            let same : keep p ms ≡ kept = ground arith in
            let some_left : 0 < length (keep p ms) = ground arith in
            let credible : group_publishable (keep p ms) ≡ true = ground arith in
            subst (IsTrimmed ms) same (record {
              chosen = inr refl;
              close = keep-All p ms;
              nonempty = some_left;
              voucher = group_publishable-Voucher (keep p ms) credible;
            })
        | inr all ↦
            let same : ms ≡ kept = ground arith in
            subst (IsTrimmed ms) same (record {
              chosen = inl refl;
              close = keep_full p ms (ground arith);
              nonempty = Voucher-nonempty ms (group_publishable-Voucher ms v);
              voucher = group_publishable-Voucher ms v;
            })
      ]

  -- What a published position rests on.
  pub record IsCredible (g : TripGroup F) (key : TripKey) (now : Time) (e : TripEstimate F)
      : Type 0 where
    pub kept : List (EstimateMember F)
    pub trip : TripInfo F
    pub shape : ShapeGeom F
    pub trimmed : IsTrimmed g.members kept
    pub of_trip : e.key ≡ key
    pub place : e.pos ≡ point_at shape (median_along kept)
    pub on_trip : g.trip ≡ some trip
    pub on_shape : trip.shape ≡ some shape
    pub count : e.riders ≡ distinct_riders kept
    pub not_ahead : e.timestamp ≤ now

  IsCredible-of_estimate :
      (g : TripGroup F) (key : TripKey) (now : Time) (e : TripEstimate F) (trip : TripInfo F)
      (shape : ShapeGeom F) (kept : List (EstimateMember F))
      → g.trip ≡ some trip
      → trip.shape ≡ some shape
      → trim g.members ≡ some kept
      → group_publishable g.members ≡ true
      → estimate_from key trip shape kept now ≡ e
      → IsCredible g key now e
  unfolding estimate_from
  IsCredible-of_estimate g key now e trip shape kept t sh k v q =
      subst (IsCredible g key now) q (record {
        kept = kept;
        trip = trip;
        shape = shape;
        trimmed = trim-IsTrimmed g.members kept v k;
        of_trip = refl;
        place = refl;
        on_trip = t;
        on_shape = sh;
        count = refl;
        not_ahead = newest_timestamp-le kept now;
      })

  estimate_on-IsCredible :
      (g : TripGroup F) (key : TripKey) (now : Time) (e : TripEstimate F) (t : Option (TripInfo F))
      (k : Option (List (EstimateMember F)))
      → g.trip ≡ t
      → trim g.members ≡ k
      → group_publishable g.members ≡ true
      → estimate_on t key k now ≡ some e
      → IsCredible g key now e
  estimate_on-IsCredible g key now e none k p q v h = cc
  estimate_on-IsCredible g key now e (some trip) none p q v h = cc
  estimate_on-IsCredible g key now e (some trip) (some kept) p q v h =
      elim (Option-cases trip.shape) [
        | inl flat ↦ ground arith
        | inr (shape, there) ↦
            IsCredible-of_estimate g key now e trip shape kept p there q v (ground arith)
      ]

  -- A published position is on the trip's shape, at the median of members that are all within 100 m
  -- of the group's median and are either the whole group or what the trim leaves of it; among them
  -- is one whose ride may be published on its own, or two of different riders within 100 m of each
  -- other; it names that many riders, and it is never dated ahead of the clock.
  pub estimate-IsCredible :
      (g : TripGroup F) (key : TripKey) (now : Time) (e : TripEstimate F)
      → estimate g key now ≡ some e
      → IsCredible g key now e
  unfolding estimate
  estimate-IsCredible g key now e h =
      estimate_on-IsCredible g key now e g.trip (trim g.members) refl refl (ground arith)
        (ground arith)
