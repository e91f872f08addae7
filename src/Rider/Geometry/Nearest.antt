-- ===== src/Rider/Geometry/Nearest.antt =====
-- rider/shape.go: the projection without a hint.
use vehicle_positions.Prelude.{
  ℕ, zero, suc, ◌+◌, ◌-◌, ◌≤◌, ◌<◌, true, false, none, ◌≡◌, ◌⊎◌, refl, ◌∙◌, ap, arith, length,
  subst, ltb, Bool-cases, inl, inr, if◌then◌else◌,
}
use vehicle_positions.Prelude.Float.{FloatOps, OrderLaws}
use vehicle_positions.Rider.Geometry.{
  LatLon, ShapeGeom, project_onto, nearest_from, local_at, project,
}

module _ {F : Type 0} ⦃fl : FloatOps F⦄ (laws : OrderLaws fl) where
  -- `r` is at least as near as `best` and as the `n` segments from `i` on, and it is one of them.
  record IsNearest (s : ShapeGeom F) (px py : F) (n i : ℕ) (best r : F × F) : Type 0 where
    below : fl.le r.0 best.0 ≡ true
    least : (j : ℕ) → i ≤ j → j < i + n → fl.le r.0 (project_onto s j px py).0 ≡ true
    origin : (r ≡ best) ⊎ ((j : ℕ) × (i ≤ j) × (j < i + n) × (r ≡ project_onto s j px py))

  -- the better of two places, the first if they are equally near
  abbrev better : F × F → F × F → F × F
  better d best = if fl.lt d.0 best.0 then d else best

  better-le :
      (d best : F × F)
      → fl.is_nan d.0 ≡ false
      → fl.is_nan best.0 ≡ false
      → (fl.le (better d best).0 best.0 ≡ true)
        × (fl.le (better d best).0 d.0 ≡ true)
        × (fl.is_nan (better d best).0 ≡ false)
        × ((better d best ≡ d) ⊎ (better d best ≡ best))
  better-le d best nd nb =
      let order = laws.lt_iff_not_le d.0 best.0 nd nb in
      let down = laws.le_of_lt d.0 best.0 in
      elim (Bool-cases (fl.lt d.0 best.0)) [
        | inl nearer ↦ rw nearer (down nearer, laws.le_refl d.0 nd, nd, inl refl)
        | inr further ↦ rw further (laws.le_refl best.0 nb, ground arith, nb, inr refl)
      ]

  nearest_from-IsNearest :
      (s : ShapeGeom F) (px py : F) (n i : ℕ) (best : F × F)
      → fl.is_nan best.0 ≡ false
      → ((j : ℕ) → i ≤ j → j < i + n → fl.is_nan (project_onto s j px py).0 ≡ false)
      → IsNearest s px py n i best (nearest_from s px py n i best)
  unfolding nearest_from
  nearest_from-IsNearest s px py zero i best nb nd = record {
    below = laws.le_refl best.0 nb;
    least = λ j a b. ground arith;
    origin = inl refl;
  }
  nearest_from-IsNearest s px py (suc n) i best nb nd =
      let d = project_onto s i px py in
      let (lb, ld, nan, which) = better-le d best (nd i (omega arith) (omega arith)) nb in
      let ih =
        nearest_from-IsNearest s px py n (suc i) (better d best) nan
          (λ j a b. nd j (omega (arith, a)) (omega (arith, b))) in
      record {
        below = laws.le_trans _ _ _ ih.below lb;
        least = λ j a b. elim (Bool-cases (ltb i j)) [
          | inl later ↦ ih.least j (ground arith) (ground arith)
          | inr first ↦
              let here : i ≡ j = ground arith in
              subst
                (λ k.
                  fl.le (nearest_from s px py n (suc i) (better d best)).0
                    (project_onto s k px py).0
                  ≡ true)
                here (laws.le_trans _ _ _ ih.below ld)
        ];
        origin = elim ih.origin [
          | inl kept ↦ elim which [
            | inl won ↦ inr (i, omega arith, omega arith, kept ∙ won)
            | inr stayed ↦ inl (kept ∙ stayed)
          ]
          | inr (j, a, b, e) ↦ inr (j, omega (arith, a), omega (arith, b), e)
        ];
      }

  -- Without a hint a point is projected onto a nearest segment of the shape: no segment is nearer, and
  -- the place and the distance that are given are those on one of the segments, unless every segment
  -- is infinitely far away. The comparison of floats is a total order where no distance is NaN, and
  -- none is.
  pub project-IsNearest :
      (s : ShapeGeom F) (p : LatLon F)
      → fl.is_nan fl.inf ≡ false
      → ((j : ℕ)
          → j < length s.points - 1
          → fl.is_nan
              (project_onto s j
                (local_at s.origin s.cos_lat p).0
                (local_at s.origin s.cos_lat p).1).0
            ≡ false)
      → ((j : ℕ)
          → j < length s.points - 1
          → fl.le
              (project s p none).distance_to_shape
              (project_onto s j
                (local_at s.origin s.cos_lat p).0
                (local_at s.origin s.cos_lat p).1).0
            ≡ true)
        × ((project s p none ≡ record { along_shape = fl.lit 0; distance_to_shape = fl.inf })
            ⊎ ((j : ℕ) × (j < length s.points - 1)
                × (((project s p none).distance_to_shape, (project s p none).along_shape)
                    ≡ project_onto s j
                        (local_at s.origin s.cos_lat p).0
                        (local_at s.origin s.cos_lat p).1)))
  unfolding project
  project-IsNearest s p nan_inf nans =
      let (px, py) = local_at s.origin s.cos_lat p in
      let r =
        nearest_from-IsNearest s px py (length s.points - 1) 0 (fl.inf, fl.lit 0) nan_inf
          (λ j a b. nans j (omega (arith, b))) in
      (
        λ j b. r.least j (omega arith) (omega (arith, b)),
        elim r.origin [
          | inl far ↦
              inl (ap (λ (q : F × F). record { along_shape = q.1; distance_to_shape = q.0 }) far)
          | inr (j, a, b, e) ↦ inr (j, omega (arith, b), e)
        ],
      )
