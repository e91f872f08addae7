-- ===== src/Rides/Columns.antt =====
-- The columns that the statements of db/query.sql write, one by one and in the words of the schema.
use vehicle_positions.Prelude.{
  ℕ, ◌+◌, ◌<◌, String, Bool, true, false, Option, none, some, List, [], ◌∷◌, map, ◌≡◌, refl, ap,
  arith,
}
use vehicle_positions.Prelude.Int.{ℤ, pos, negsuc, ◌+ℤ◌, ◌≤ℤ◌, min_ℤ, max_ℤ}
use vehicle_positions.Prelude.Time.{Time}
use vehicle_positions.Rider.Reputation.{tier_for, tier_string}
use vehicle_positions.Rides.{
  Rider, Ride, RideProgress, RideOutcome, RidePointRecord, PointRow, with_progress, closed, opened,
  rescored, int32, bool_count, optional_int4,
}
use vehicle_positions.Rides.Store.{point_row}

-- an integer that an int4 holds
abbrev pub IsInt4 : ℤ → Type 0
IsInt4 v = (negsuc 2_147_483_647 ≤ℤ v) × (v ≤ℤ pos 2_147_483_647)

-- a counter as it is stored, where it fits
abbrev pub ShownAs : ℕ → ℤ → Type 0
ShownAs n column = n < 2_147_483_648 → column ≡ pos n

-- what a ride was started with
pub record SameBooking (r r' : Ride) : Type 0 where
  pub id : r'.id ≡ r.id
  pub rider_id : r'.rider_id ≡ r.rider_id
  pub trip_id : r'.trip_id ≡ r.trip_id
  pub start_date : r'.start_date ≡ r.start_date
  pub route_id : r'.route_id ≡ r.route_id
  pub vehicle_id : r'.vehicle_id ≡ r.vehicle_id
  pub boarding_stop_id : r'.boarding_stop_id ≡ r.boarding_stop_id
  pub destination_stop_id : r'.destination_stop_id ≡ r.destination_stop_id

-- The row shows the progress.
pub record Shows (p : RideProgress) (r : Ride) : Type 0 where
  pub state : r.state ≡ p.state
  pub is_corroborated : r.is_corroborated ≡ p.is_corroborated
  pub total : ShownAs p.points_total r.points_total
  pub matched : ShownAs p.points_matched r.points_matched
  pub corroborated : ShownAs p.points_corroborated r.points_corroborated
  pub contradicted : ShownAs p.points_contradicted r.points_contradicted

-- an active ride, one column after another, before anything was reported
pub record IsFresh (now : Time) (r : Ride) : Type 0 where
  pub status : r.status ≡ "active"
  pub state : r.state ≡ "pending"
  pub is_corroborated : r.is_corroborated ≡ false
  pub end_reason : r.end_reason ≡ ""
  pub total : r.points_total ≡ pos 0
  pub matched : r.points_matched ≡ pos 0
  pub corroborated : r.points_corroborated ≡ pos 0
  pub contradicted : r.points_contradicted ≡ pos 0
  pub started_at : r.started_at ≡ now
  pub ended_at : r.ended_at ≡ none

-- an ended ride beside what it was
pub record IsEnded (outcome : RideOutcome) (now : Time) (r r' : Ride) : Type 0 where
  pub booking : SameBooking r r'
  pub started_at : r'.started_at ≡ r.started_at
  pub status : r'.status ≡ "ended"
  pub ended_at : r'.ended_at ≡ some now
  pub end_reason : r'.end_reason ≡ outcome.end_reason
  pub progress : Shows outcome.progress r'

-- a ride that goes on beside what it was
pub record GoesOn (p : RideProgress) (r r' : Ride) : Type 0 where
  pub booking : SameBooking r r'
  pub started_at : r'.started_at ≡ r.started_at
  pub status : r'.status ≡ "active"
  pub ended_at : r'.ended_at ≡ r.ended_at
  pub end_reason : r'.end_reason ≡ r.end_reason
  pub progress : Shows p r'

-- the tier of a score: blocked from -3 down, trusted from 3 up
pub record HasTier (score : ℤ) (tier : String) : Type 0 where
  pub blocked : score ≤ℤ negsuc 2 → tier ≡ "blocked"
  pub trusted : pos 3 ≤ℤ score → tier ≡ "trusted"
  pub new : negsuc 1 ≤ℤ score → score ≤ℤ pos 2 → tier ≡ "new"

-- the sum, kept between -10 and 10
pub record IsSum (score delta new_score : ℤ) : Type 0 where
  pub between : negsuc 9 ≤ℤ score +ℤ delta → score +ℤ delta ≤ℤ pos 10 → new_score ≡ score +ℤ delta
  pub above : pos 10 ≤ℤ score +ℤ delta → new_score ≡ pos 10
  pub below : score +ℤ delta ≤ℤ negsuc 9 → new_score ≡ negsuc 9

-- one more where the flag is set
abbrev pub Ticks : Bool → ℕ → ℕ → Type 0
Ticks true n n' = n' ≡ n + 1
Ticks false n n' = n' ≡ n

-- a rider after a ride beside the rider before it
pub record IsScored (outcome : RideOutcome) (now : Time) (r r' : Rider) : Type 0 where
  pub identity :
      (r'.id ≡ r.id)
      × (r'.installation_id ≡ r.installation_id)
      × (r'.platform ≡ r.platform)
      × (r'.app_id ≡ r.app_id)
      × (r'.app_version ≡ r.app_version)
      × (r'.attested ≡ r.attested)
      × (r'.created_at ≡ r.created_at)
  pub score : IsInt4 outcome.score_delta → IsSum r.score outcome.score_delta r'.score
  pub tier : HasTier r'.score r'.tier
  pub rides_total : r'.rides_total ≡ r.rides_total + 1
  pub rides_corroborated : Ticks outcome.is_corroborated r.rides_corroborated r'.rides_corroborated
  pub rides_rejected : Ticks outcome.is_rejected r.rides_rejected r'.rides_rejected
  pub last_seen_at : r'.last_seen_at ≡ now

int32_of_int4 : (v : ℤ) → IsInt4 v → int32 v ≡ v
unfolding int32
int32_of_int4 (pos n) h = ground arith
int32_of_int4 (negsuc n) h = ground arith

int32-ShownAs : (n : ℕ) → ShownAs n (int32 (pos n))
unfolding int32
int32-ShownAs n h = ground arith

with_progress-Shows : (r : Ride) (p : RideProgress) → Shows p (with_progress r p)
with_progress-Shows r p = record {
  state = refl;
  is_corroborated = refl;
  total = int32-ShownAs p.points_total;
  matched = int32-ShownAs p.points_matched;
  corroborated = int32-ShownAs p.points_corroborated;
  contradicted = int32-ShownAs p.points_contradicted;
}

pub with_progress-GoesOn :
    (r : Ride) (p : RideProgress) → r.status ≡ "active" → GoesOn p r (with_progress r p)
with_progress-GoesOn r p live = record {
  booking = ground arith;
  started_at = refl;
  status = live;
  ended_at = refl;
  end_reason = refl;
  progress = with_progress-Shows r p;
}

pub closed-IsEnded :
    (r : Ride) (outcome : RideOutcome) (now : Time) → IsEnded outcome now r (closed r outcome now)
closed-IsEnded r outcome now = record {
  booking = ground arith;
  started_at = refl;
  status = refl;
  ended_at = refl;
  end_reason = refl;
  progress = record {
    state = refl;
    is_corroborated = refl;
    total = int32-ShownAs outcome.progress.points_total;
    matched = int32-ShownAs outcome.progress.points_matched;
    corroborated = int32-ShownAs outcome.progress.points_corroborated;
    contradicted = int32-ShownAs outcome.progress.points_contradicted;
  };
}

pub opened-IsFresh :
    (r : Ride) (now : Time) → SameBooking r (opened r now) × IsFresh now (opened r now)
opened-IsFresh r now = (ground arith, ground arith)

tier_for-HasTier : (score : ℤ) → HasTier score (tier_string (tier_for score))
unfolding tier_for tier_string
tier_for-HasTier score = record {
  blocked = λ h. ground arith;
  trusted = λ h. ground arith;
  new = λ low high. ground arith;
}

clamped-IsSum :
    (score delta : ℤ) → IsSum score delta (min_ℤ (pos 10) (max_ℤ (negsuc 9) (score +ℤ delta)))
clamped-IsSum score delta = record {
  between = λ low high. ground arith;
  above = λ h. ground arith;
  below = λ h. ground arith;
}

bool_count-Ticks : (b : Bool) (n : ℕ) → Ticks b n (n + bool_count b)
unfolding bool_count
bool_count-Ticks true n = refl
bool_count-Ticks false n = omega arith

pub rescored-IsScored :
    (r : Rider) (outcome : RideOutcome) (now : Time)
    → IsScored outcome now r (rescored r outcome now)
unfolding rescored
rescored-IsScored r outcome now = record {
  identity = ground arith;
  score = λ fits.
      rw (int32_of_int4 outcome.score_delta fits, rescored)
        (clamped-IsSum r.score outcome.score_delta);
  tier = tier_for-HasTier (rescored r outcome now).score;
  rides_total = refl;
  rides_corroborated = bool_count-Ticks outcome.is_corroborated r.rides_corroborated;
  rides_rejected = bool_count-Ticks outcome.is_rejected r.rides_rejected;
  last_seen_at = refl;
}

-- the seconds off the schedule as they are stored
abbrev DeviationKept : Option ℤ → Option ℤ → Type 0
DeviationKept none column = column ≡ none
DeviationKept (some d) column = IsInt4 d → column ≡ some d

optional_int4-DeviationKept : (o : Option ℤ) → DeviationKept o (optional_int4 o)
unfolding optional_int4
optional_int4-DeviationKept none = refl
optional_int4-DeviationKept (some d) = λ fits. ap some (int32_of_int4 d fits)

module _ {F : Type 0} where
  -- the rows that a batch adds: a row for each point, in the order of the points
  pub record IsRowOf (ride_id : String) (now : Time) (p : RidePointRecord F) (row : PointRow F)
      : Type 0 where
    pub ride : row.ride_id ≡ ride_id
    pub received_at : row.received_at ≡ now
    pub place : (row.reading.latitude ≡ p.latitude) × (row.reading.longitude ≡ p.longitude)
    pub readings :
        (row.reading.accuracy ≡ p.accuracy)
        × (row.reading.speed ≡ p.speed)
        × (row.reading.bearing ≡ p.bearing)
    pub timestamp : row.reading.timestamp ≡ p.timestamp
    pub verdict :
        (row.reading.outcome ≡ p.outcome)
        × (row.reading.corroboration ≡ p.corroboration)
        × (row.reading.along_shape ≡ p.along_shape)
        × (row.reading.distance_to_shape ≡ p.distance_to_shape)
    pub deviation :
        DeviationKept p.schedule_deviation_seconds row.reading.schedule_deviation_seconds

  abbrev pub AreRowsOf : String → Time → List (RidePointRecord F) → List (PointRow F) → Type 0
  AreRowsOf id now [] [] = Unit
  AreRowsOf id now [] (_ ∷ _) = ⊥
  AreRowsOf id now (_ ∷ _) [] = ⊥
  AreRowsOf id now (p ∷ ps) (row ∷ rows) = IsRowOf id now p row × AreRowsOf id now ps rows

  pub map_point_row-AreRowsOf :
      (id : String) (now : Time) (ps : List (RidePointRecord F))
      → AreRowsOf id now ps (map (point_row id now) ps)
  map_point_row-AreRowsOf id now [] = tt
  map_point_row-AreRowsOf id now (p ∷ ps) = (
    record {
      ride = refl;
      received_at = refl;
      place = (refl, refl);
      readings = (refl, refl, refl);
      timestamp = refl;
      verdict = (refl, refl, refl, refl);
      deviation = optional_int4-DeviationKept p.schedule_deviation_seconds;
    },
    map_point_row-AreRowsOf id now ps,
  )
