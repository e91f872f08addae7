-- ===== src/Rider/Geometry.antt =====
-- rider/shape.go: coordinates, and a trip's shape as a polyline with cumulative distances.
pub mod Nearest
mod Examples
use vehicle_positions.Prelude.{
  ℕ, zero, suc, ◌-◌, Bool, true, false, not, ◌&&◌, ◌||◌, Option, none, some, List, [], ◌∷◌, length,
  get_or, ltb, if◌then◌else◌, map,
}
use vehicle_positions.Prelude.Float.{FloatOps}

pub record LatLon (F : Type 0) : Type 0 where
  pub lat : F
  pub lon : F

pub record Projection (F : Type 0) : Type 0 where
  pub along_shape : F
  pub distance_to_shape : F

pub record ShapeGeom (F : Type 0) : Type 0 where
  pub points : List (LatLon F)
  pub cumulative : List F
  pub shape_length : F
  pub origin : LatLon F
  pub cos_lat : F
  pub local_x : List F
  pub local_y : List F

module _ {F : Type 0} ⦃fl : FloatOps F⦄ where
  open fl use {
    lit, neg, add, sub, mul, div, lt, le, abs, max, min, inf, pi, sin, cos, asin, sqrt, atan2,
    hypot, fmod,
  }

  abbrev pub earth_radius_m : F
  earth_radius_m = lit 6_371_000

  abbrev pub metres_per_degree : F
  metres_per_degree = lit 111_320

  abbrev pub hint_candidate_band : F
  hint_candidate_band = lit 30

  abbrev pub backward_hint_weight : F
  backward_hint_weight = lit 2

  abbrev pub min_cos_lat : F
  min_cos_lat = div (lit 1) (lit 1_000_000)

  pub rad : F → F
  rad deg = div (mul deg pi) (lit 180)

  pub distance : LatLon F → LatLon F → F
  distance a b =
      let lat1 = rad a.lat in
      let lat2 = rad b.lat in
      let d_lat = sub lat2 lat1 in
      let d_lon = rad (sub b.lon a.lon) in
      let half_lat = sin (div d_lat (lit 2)) in
      let half_lon = sin (div d_lon (lit 2)) in
      let h =
        add (mul half_lat half_lat) (mul (mul (mul (cos lat1) (cos lat2)) half_lon) half_lon) in
      mul (mul (lit 2) earth_radius_m) (asin (min (lit 1) (sqrt h)))

  pub initial_bearing : LatLon F → LatLon F → F
  initial_bearing a b =
      let lat1 = rad a.lat in
      let lat2 = rad b.lat in
      let d_lon = rad (sub b.lon a.lon) in
      let y = mul (sin d_lon) (cos lat2) in
      let x = sub (mul (cos lat1) (sin lat2)) (mul (mul (sin lat1) (cos lat2)) (cos d_lon)) in
      let deg = div (mul (atan2 y x) (lit 180)) pi in fmod (add deg (lit 360)) (lit 360)

  pub offset_metres : LatLon F → F → F → LatLon F
  offset_metres p north east =
      let c = cos (rad p.lat) in
      let cos_lat = if lt c min_cos_lat then min_cos_lat else c in
      record {
        lat = add p.lat (div north metres_per_degree);
        lon = add p.lon (div east (mul metres_per_degree cos_lat));
      }

  -- the running sum of `NewShapeGeom`: `Cumulative[i] = Cumulative[i-1] + Distance(...)`
  pub cumulate : F → LatLon F → List (LatLon F) → List F
  cumulate sum p [] = sum ∷ []
  cumulate sum p (q ∷ rest) = sum ∷ cumulate (add sum (distance p q)) q rest

  pub sum_lat : F → List (LatLon F) → F
  sum_lat acc [] = acc
  sum_lat acc (p ∷ rest) = sum_lat (add acc p.lat) rest

  unfoldable pub local_at : LatLon F → F → LatLon F → F × F
  local_at origin cos_lat p = (
    mul (mul (sub p.lon origin.lon) cos_lat) metres_per_degree,
    mul (sub p.lat origin.lat) metres_per_degree,
  )

  -- `none` is the panic on fewer than two points
  pub new_shape_geom : List (LatLon F) → Option (ShapeGeom F)
  new_shape_geom (p ∷ q ∷ rest) =
      let points = p ∷ q ∷ rest in
      let cos_lat = cos (rad (div (sum_lat (lit 0) points) (lit (length points)))) in
      let cumulative = cumulate (lit 0) p (q ∷ rest) in
      some (record {
        points = points;
        cumulative = cumulative;
        shape_length = get_or cumulative (length points - 1) (lit 0);
        origin = p;
        cos_lat = cos_lat;
        local_x = map (λ r. (local_at p cos_lat r).0) points;
        local_y = map (λ r. (local_at p cos_lat r).1) points;
      })
  new_shape_geom _ = none

  unfoldable pub project_onto : ShapeGeom F → ℕ → F → F → F × F
  project_onto s i px py =
      let ax = get_or s.local_x i (lit 0) in
      let ay = get_or s.local_y i (lit 0) in
      let dx = sub (get_or s.local_x (suc i) (lit 0)) ax in
      let dy = sub (get_or s.local_y (suc i) (lit 0)) ay in
      let len_sq = add (mul dx dx) (mul dy dy) in
      let t =
        if lt (lit 0) len_sq
        then min (lit 1) (max (lit 0) (div (add (mul (sub px ax) dx) (mul (sub py ay) dy)) len_sq))
        else lit 0 in
      let start = get_or s.cumulative i (lit 0) in
      (
        hypot (sub px (add ax (mul t dx))) (sub py (add ay (mul t dy))),
        add start (mul t (sub (get_or s.cumulative (suc i) (lit 0)) start)),
      )

  -- the pass without a hint: `n` segments left, from segment `i` on
  unfoldable pub nearest_from : ShapeGeom F → F → F → ℕ → ℕ → F × F → F × F
  nearest_from s px py zero i best = best
  nearest_from s px py (suc n) i best =
      let (d, along) = project_onto s i px py in
      nearest_from s px py n (suc i) (if lt d best.0 then (d, along) else best)

  pub is_local_min : List F → ℕ → Bool
  is_local_min dists i =
      let here = get_or dists i (lit 0) in
      if ltb 0 i && lt (get_or dists (i - 1) (lit 0)) here
      then false
      else if ltb i (length dists - 1) && lt (get_or dists (suc i) (lit 0)) here
      then false
      else true

  pub project_all : ShapeGeom F → F → F → ℕ → ℕ → List (F × F)
  project_all s px py zero i = []
  project_all s px py (suc n) i = project_onto s i px py ∷ project_all s px py n (suc i)

  -- the index of the first smallest distance, as the loop of the hinted path keeps it
  pub best_from : List F → ℕ → ℕ → ℕ → ℕ
  best_from dists zero i best = best
  best_from dists (suc n) i best =
      best_from dists n (suc i)
        (if lt (get_or dists i (lit 0)) (get_or dists best (lit 0)) then i else best)

  pub hint_delta : F → F → F
  hint_delta along hint =
      let delta = sub along hint in
      if lt delta (lit 0) then mul (neg delta) backward_hint_weight else delta

  -- the second loop of the hinted path: the state is (closest, chosen)
  pub choose_from : List F → List F → F → F → ℕ → ℕ → F × ℕ → F × ℕ
  choose_from dists alongs hint threshold zero i state = state
  choose_from dists alongs hint threshold (suc n) i state =
      let delta = hint_delta (get_or alongs i (lit 0)) hint in
      choose_from dists alongs hint threshold n (suc i) (
        if lt threshold (get_or dists i (lit 0)) || not (is_local_min dists i)
        then state
        else if lt delta state.0
        then (delta, i)
        else state)

  unfoldable pub project_hinted : ShapeGeom F → LatLon F → F → Projection F
  project_hinted s p hint =
      let segments = length s.points - 1 in
      let (px, py) = local_at s.origin s.cos_lat p in
      let all = project_all s px py segments 0 in
      let dists = map (λ r. r.0) all in
      let alongs = map (λ r. r.1) all in
      let best = best_from dists segments 0 0 in
      let threshold =
        max (add (mul (lit 2) (get_or dists best (lit 0))) (lit 1)) hint_candidate_band in
      let chosen = (choose_from dists alongs hint threshold segments 0 (inf, best)).1 in
      record {
        along_shape = get_or alongs chosen (lit 0);
        distance_to_shape = get_or dists chosen (lit 0);
      }

  unfoldable pub project : ShapeGeom F → LatLon F → Option F → Projection F
  project s p none =
      let (px, py) = local_at s.origin s.cos_lat p in
      let best = nearest_from s px py (length s.points - 1) 0 (inf, lit 0) in
      record { along_shape = best.1; distance_to_shape = best.0 }
  project s p (some hint) = project_hinted s p hint

  -- the loop of `segmentAt`: `n` segments left, from segment `i` on
  pub segment_from : ShapeGeom F → F → ℕ → ℕ → ℕ → ℕ × F
  segment_from s along last zero i = (last, lit 1)
  segment_from s along last (suc n) i =
      let start = get_or s.cumulative i (lit 0) in
      let next = get_or s.cumulative (suc i) (lit 0) in
      let seg_len = sub next start in
      let rest = segment_from s along last n (suc i) in
      if lt along next
      then (if le seg_len (lit 0) then (i, lit 0) else (i, div (sub along start) seg_len))
      else rest

  pub segment_at : ShapeGeom F → F → ℕ × F
  segment_at s along =
      let last = length s.points - 2 in
      if le s.shape_length along
      then (last, lit 1)
      else if le along (lit 0)
      then (0, lit 0)
      else segment_from s along last (suc last) 0

  abbrev origin_point : LatLon F
  origin_point = record { lat = lit 0; lon = lit 0 }

  pub point_at : ShapeGeom F → F → LatLon F
  point_at s along =
      let (i, t) = segment_at s along in
      let a = get_or s.points i origin_point in
      let b = get_or s.points (suc i) origin_point in
      record {
        lat = add a.lat (mul t (sub b.lat a.lat));
        lon = add a.lon (mul t (sub b.lon a.lon));
      }

  pub bearing_at : ShapeGeom F → F → F
  bearing_at s along =
      let (i, t) = segment_at s along in
      initial_bearing (get_or s.points i origin_point) (get_or s.points (suc i) origin_point)
