-- ===== src/Rider/Schedule.antt =====
-- rider/index.go: a trip's stop times along its shape, the scheduled offset at a position, and the
-- calendar that says on which service dates a trip runs. Dates in the feed's time zone need the
-- time zone database, which is not part of the program: a `Zone` stands for it.
use vehicle_positions.Prelude.{
  ℕ, String, Bool, true, false, ◌&&◌, Option, none, some, List, [], ◌∷◌, ◌*◌, leb, ltb, ◌==◌, any,
  keep, get_or, if◌then◌else◌,
}
use vehicle_positions.Prelude.Int.{ℤ, pos, ◌+ℤ◌, ◌-ℤ◌}
use vehicle_positions.Prelude.Time.{Time, Duration, hour, time_back}
use vehicle_positions.Prelude.Float.{FloatOps}
use vehicle_positions.Prelude.Dict.{Dict, lookup}
use vehicle_positions.Rider.Geometry.{LatLon, ShapeGeom}

-- A *time.Location, as the standard library reads it.
pub record Zone : Type 0 where
  -- `time.ParseInLocation("20060102", s, loc)`: the first instant of the day that `s` names
  pub parse_day : String → Option Time
  -- `time.Date(day.Year(), day.Month(), day.Day(), 12, 0, 0, 0, loc)`
  pub noon : Time → Time
  -- `t.In(loc).Hour()` and `t.In(loc).Format("20060102")`
  pub hour_of : Time → ℕ
  pub format_day : Time → String
  -- `t.In(loc).AddDate(0, 0, -1)`
  pub day_before : Time → Time
  -- `dateKey(t)`, and `t.Weekday()` with Sunday 0
  pub date_key : Time → ℕ
  pub weekday : Time → ℕ

pub record StopTimeInfo (F : Type 0) : Type 0 where
  pub stop_id : String
  pub stop_name : String
  pub sequence : ℕ
  pub along_shape : F
  pub arrival : Duration
  pub departure : Duration
  pub pos : LatLon F

pub record TripInfo (F : Type 0) : Type 0 where
  pub id : String
  pub route_id : String
  pub service_id : String
  pub headsign : String
  pub direction_id : ℤ
  pub shape : Option (ShapeGeom F)
  pub stop_times : List (StopTimeInfo F)

-- `none` is the error on a date that does not parse
unfoldable pub service_day_start : Zone → String → Option Time
service_day_start zone date = elim (zone.parse_day date) [
  | none ↦ none
  | some day ↦ some (time_back (zone.noon day) (12 * hour))
]

module _ {F : Type 0} ⦃fl : FloatOps F⦄ where
  open fl use {lit, sub, mul, div, le, lt, of_duration, to_duration}

  abbrev pub last_stop : StopTimeInfo F → List (StopTimeInfo F) → StopTimeInfo F
  last_stop a [] = a
  last_stop a (b ∷ rest) = last_stop b rest

  -- `a.Departure + time.Duration(fraction * float64(b.Arrival - a.Departure))`
  unfoldable pub interpolate : StopTimeInfo F → StopTimeInfo F → F → Duration
  unfolding ◌+ℤ◌ ◌-ℤ◌
  interpolate a b along =
      let span = sub b.along_shape a.along_shape in
      let fraction = div (sub along a.along_shape) span in
      if le span (lit 0)
      then a.departure
      else a.departure +ℤ to_duration (mul fraction (of_duration (b.arrival -ℤ a.departure)))

  -- the loop over the pairs of neighbouring stops
  unfoldable pub offset_from : StopTimeInfo F → List (StopTimeInfo F) → F → Duration
  unfolding interpolate
  offset_from a [] along = a.arrival
  offset_from a (b ∷ rest) along =
      let later = offset_from b rest along in
      if lt b.along_shape along then later else interpolate a b along

  abbrev offset_of_stops : List (StopTimeInfo F) → F → Duration
  offset_of_stops [] along = pos 0
  offset_of_stops (first ∷ rest) along =
      let last = last_stop first rest in
      if le along first.along_shape
      then first.arrival
      else if le last.along_shape along
      then last.arrival
      else offset_from first rest along

  unfoldable pub scheduled_offset_at : Option (TripInfo F) → F → Duration
  unfolding offset_from
  scheduled_offset_at none along = pos 0
  scheduled_offset_at (some trip) along = offset_of_stops trip.stop_times along

-- The calendar of one GTFS service; `days` is indexed by weekday.
pub record ServiceCalendar : Type 0 where
  pub days : List Bool
  pub start : ℕ
  pub «end» : ℕ
  pub added : List ℕ
  pub removed : List ℕ

-- `m[key]` of a `map[int]bool` that holds only `true`
abbrev pub has_date : List ℕ → ℕ → Bool
has_date dates key = any (λ d. d == key) dates

unfoldable pub runs_on : ServiceCalendar → ℕ → ℕ → Bool
unfolding any
runs_on svc key weekday =
    if has_date svc.removed key
    then false
    else if has_date svc.added key
    then true
    else leb svc.start key && leb key svc.«end» && get_or svc.days weekday false

abbrev runs_if_found : Option ServiceCalendar → ℕ → ℕ → Bool
runs_if_found none key weekday = false
runs_if_found (some svc) key weekday = runs_on svc key weekday

-- The parts of an index that answer questions about dates and routes.
pub record Index (F : Type 0) : Type 0 where
  pub trips : Dict (TripInfo F)
  pub trips_by_route : Dict (List (TripInfo F))
  pub services : Dict ServiceCalendar
  pub tz : Zone

abbrev list_of : {A : Type 0} → Option (List A) → List A
list_of none = []
list_of (some xs) = xs

module _ {F : Type 0} where
  -- `activeOn`: the date is parsed, `day` its instant
  unfoldable pub active_on_day : Index F → Option (TripInfo F) → Time → Bool
  unfolding runs_on lookup
  active_on_day ix none day = false
  active_on_day ix (some trip) day =
      runs_if_found (lookup trip.service_id ix.services) (ix.tz.date_key day) (ix.tz.weekday day)

  unfoldable pub active_on : Index F → Option (TripInfo F) → String → Bool
  unfolding active_on_day
  active_on ix trip date = elim (ix.tz.parse_day date) [
    | none ↦ false
    | some day ↦ active_on_day ix trip day
  ]

  unfoldable pub trips_on_route : Index F → String → String → List (TripInfo F)
  unfolding active_on_day keep
  trips_on_route ix route_id date = elim (ix.tz.parse_day date) [
    | none ↦ []
    | some day ↦
        keep (λ trip. active_on_day ix (some trip) day)
          (list_of (lookup route_id ix.trips_by_route))
  ]

  unfoldable pub service_date : Index F → Time → String
  service_date ix now =
      ix.tz.format_day (if ltb (ix.tz.hour_of now) 3 then ix.tz.day_before now else now)

  unfoldable pub service_date_for : Index F → Option (TripInfo F) → Time → String
  unfolding service_date active_on
  service_date_for ix trip now =
      let date = service_date ix now in
      let calendar_day = ix.tz.format_day now in
      if active_on ix trip date
      then date
      else if active_on ix trip calendar_day
      then calendar_day
      else date
