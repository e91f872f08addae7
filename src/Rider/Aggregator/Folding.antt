-- ===== src/Rider/Aggregator/Folding.antt =====
-- The loop of `ApplyBatch` of rider/aggregator.go: what it keeps count of and what it keeps.
use mathlib.Core.List.{append_assoc, append-nil}
use vehicle_positions.Prelude.{
  ◌≢◌, ◌⊎◌, ◌++◌, ◌∙◌, refl, ◌+◌, true, false, List, [], ◌∷◌, ◌≡◌, sym, ap, arith, length,
  length-append, Bool-cases, inl, inr, if◌then◌else◌, subst,
}
use vehicle_positions.Prelude.Float.{FloatOps}
use vehicle_positions.Rider.Verify.{Point, Verdict, Outcome, ignored}
use vehicle_positions.Rider.Session.{Session, same_outcome}
use vehicle_positions.Rider.Session.Step.{apply, last_accepted_at}
use vehicle_positions.Rider.Session.Invariant.{Inv, apply-Inv}
use vehicle_positions.Rider.Aggregator.Batch.{Fold, fold_point, fold_points}

module _ {F : Type 0} where
  -- What a batch never changes of a session.
  pub record SameRide (s t : Session F) : Type 0 where
    pub id : t.id ≡ s.id
    pub rider_id : t.rider_id ≡ s.rider_id
    pub key : t.key ≡ s.key
    pub trip : t.trip ≡ s.trip
    pub tier : t.tier ≡ s.tier
    pub started_at : t.started_at ≡ s.started_at

  pub apply-SameRide : (s : Session F) (v : Verdict F) (p : Point F) → SameRide s (apply s v p).0
  unfolding apply
  apply-SameRide s v p = ground arith

  pub SameRide-refl : (s : Session F) → SameRide s s
  SameRide-refl s = ground arith

  pub SameRide-trans : {s t u : Session F} → SameRide s t → SameRide t u → SameRide s u
  SameRide-trans h k = ground arith

  pub apply-total :
      (s : Session F) (v : Verdict F) (p : Point F)
      → s.ended ≡ false
      → same_outcome v.outcome ignored ≡ false
      → ((apply s v p).0.counts.total ≡ s.counts.total + 1)
        × (last_accepted_at (apply s v p).0 ≡ p.timestamp)
  unfolding apply last_accepted_at
  apply-total s v p live h = ground arith

same_outcome_ignored : (o : Outcome) → same_outcome o ignored ≡ true → o ≡ ignored
same_outcome_ignored o e = ground arith

used_outcome : (o : Outcome) → same_outcome o ignored ≡ false → o ≢ ignored
used_outcome o e h = ground arith

module _ {F : Type 0} ⦃fl : FloatOps F⦄ (judge : Session F → Point F → Verdict F) where
  -- What the loop has done when it started from `f` and read the points `ps`.
  pub record IsAccounted (f : Fold F) (ps : List (Point F)) (g : Fold F) : Type 0 where
    pub covered : g.accepted + g.ignored_count ≡ f.accepted + f.ignored_count + length ps
    pub recorded : length g.points + f.accepted ≡ length f.points + g.accepted
    pub counted : g.session.counts.total + f.accepted ≡ f.session.counts.total + g.accepted

  fold_point-SameRide :
      (f : Fold F) (p : Point F) → SameRide f.session (fold_point judge f p).session
  unfolding fold_point
  fold_point-SameRide f p =
      let v = judge f.session p in
      elim (Bool-cases (same_outcome v.outcome ignored)) [
        | inl skipped ↦ rw skipped (SameRide-refl f.session)
        | inr used ↦ rw used (apply-SameRide f.session v p)
      ]

  fold_point-Inv : (f : Fold F) (p : Point F) → Inv f.session → Inv (fold_point judge f p).session
  unfolding fold_point
  fold_point-Inv f p h =
      let v = judge f.session p in
      elim (Bool-cases (same_outcome v.outcome ignored)) [
        | inl skipped ↦ rw skipped h
        | inr used ↦ rw used (apply-Inv f.session v p h)
      ]

  fold_point-IsAccounted :
      (f : Fold F) (p : Point F)
      → f.session.ended ≡ false
      → IsAccounted f (p ∷ []) (fold_point judge f p)
  unfolding fold_point
  fold_point-IsAccounted f p live =
      let v = judge f.session p in
      ground (arith, apply-total f.session v p live, length-append f.points ((p, v) ∷ []))

  nil_step : (f : Fold F) → f ≡ record f { ignored_count = f.ignored_count + 0 }
  nil_step f = ap (λ n. record f { ignored_count = n }) (omega arith)

  fold_points-nil :
      (f : Fold F) → fold_points judge f [] ≡ record f { ignored_count = f.ignored_count + 0 }
  unfolding fold_points
  fold_points-nil f = nil_step f

  fold_points-live :
      (f : Fold F) (p : Point F) (rest : List (Point F))
      → f.session.ended ≡ false
      → fold_points judge f (p ∷ rest) ≡ fold_points judge (fold_point judge f p) rest
  unfolding fold_points
  fold_points-live f p rest live =
      ap
        (λ b.
          if b
          then record f { ignored_count = f.ignored_count + length (p ∷ rest) }
          else fold_points judge (fold_point judge f p) rest)
        live

  fold_points-ended :
      (f : Fold F) (ps : List (Point F))
      → f.session.ended ≡ true
      → fold_points judge f ps ≡ record f { ignored_count = f.ignored_count + length ps }
  unfolding fold_points
  fold_points-ended f [] over = nil_step f
  fold_points-ended f (p ∷ rest) over =
      ap
        (λ b.
          if b
          then record f { ignored_count = f.ignored_count + length (p ∷ rest) }
          else fold_points judge (fold_point judge f p) rest)
        over

  -- The induction that every fact about the loop uses.
  pub fold_points_induction :
      (P : Fold F → List (Point F) → Fold F → Type 0)
      → ((f : Fold F) (ps : List (Point F))
          → P f ps (record f { ignored_count = f.ignored_count + length ps }))
      → ((f : Fold F) (p : Point F) (rest : List (Point F)) (g : Fold F)
          → f.session.ended ≡ false
          → P (fold_point judge f p) rest g
          → P f (p ∷ rest) g)
      → (f : Fold F) (ps : List (Point F)) → P f ps (fold_points judge f ps)
  fold_points_induction P stop go f [] = subst (P f []) (sym (fold_points-nil f)) (stop f [])
  fold_points_induction P stop go f (p ∷ rest) = elim (Bool-cases f.session.ended) [
    | inl over ↦
        subst (P f (p ∷ rest)) (sym (fold_points-ended f (p ∷ rest) over)) (stop f (p ∷ rest))
    | inr live ↦ subst (P f (p ∷ rest)) (sym (fold_points-live f p rest live)) (
        go f p rest (fold_points judge (fold_point judge f p) rest) live
          (fold_points_induction P stop go (fold_point judge f p) rest))
  ]

  pub fold_points-IsAccounted :
      (f : Fold F) (ps : List (Point F)) → IsAccounted f ps (fold_points judge f ps)
  fold_points-IsAccounted =
      fold_points_induction IsAccounted
        (λ f ps. record { covered = omega arith; recorded = omega arith; counted = omega arith })
        (λ f p rest g live all.
          let one = fold_point-IsAccounted f p live in
          record { covered = omega arith; recorded = omega arith; counted = omega arith })

  -- The session keeps its invariant and stays on its ride.
  pub record IsKept (f : Fold F) (ps : List (Point F)) (g : Fold F) : Type 0 where
    pub same : SameRide f.session g.session
    pub sound : Inv f.session → Inv g.session

  pub fold_points-IsKept : (f : Fold F) (ps : List (Point F)) → IsKept f ps (fold_points judge f ps)
  fold_points-IsKept =
      fold_points_induction IsKept
        (λ f ps. record { same = SameRide-refl f.session; sound = λ h. h })
        (λ f p rest g live all. record {
          same = SameRide-trans (fold_point-SameRide f p) all.same;
          sound = λ h. all.sound (fold_point-Inv f p h);
        })

  -- The points of a batch, oldest first, each judged against the session as the points before it
  -- left it. `handed` are the points that are not ignored, with their verdicts, and `t` is what they
  -- make of the session; once it has ended, the rest counts for nothing.
  abbrev pub IsReading :
      Session F → List (Point F) → List (Point F × Verdict F) → Session F → Type 0
  IsReading s [] handed t = (handed ≡ []) × (t ≡ s)
  IsReading s (p ∷ rest) handed t =
      ((s.ended ≡ true) × (handed ≡ []) × (t ≡ s))
      ⊎ ((s.ended ≡ false) × ((judge s p).outcome ≡ ignored) × IsReading s rest handed t)
      ⊎ ((s.ended ≡ false)
          × ((judge s p).outcome ≢ ignored)
          × ((later : List (Point F × Verdict F)) × (handed ≡ (p, judge s p) ∷ later)
              × IsReading (apply s (judge s p) p).0 rest later t))

  -- what the loop adds to the points that it has, as a reading of the rest
  abbrev Adds : Fold F → List (Point F) → Fold F → Type 0
  Adds f ps g =
      (added : List (Point F × Verdict F)) × (g.points ≡ f.points ++ added)
      × IsReading f.session ps added g.session

  over_IsReading : (s : Session F) (ps : List (Point F)) → s.ended ≡ true → IsReading s ps [] s
  over_IsReading s [] over = (refl, refl)
  over_IsReading s (p ∷ rest) over = inl (over, refl, refl)

  Adds-point :
      (f : Fold F) (p : Point F) (rest : List (Point F)) (g : Fold F)
      → f.session.ended ≡ false
      → Adds (fold_point judge f p) rest g
      → Adds f (p ∷ rest) g
  unfolding fold_point
  Adds-point f p rest g live all =
      let v = judge f.session p in
      elim (Bool-cases (same_outcome v.outcome ignored)) [
        | inl skipped ↦
            let step : fold_point judge f p ≡ record f { ignored_count = f.ignored_count + 1 } =
              rw (skipped, fold_point) refl in
            let (added, e, r) = subst (λ (h : Fold F). Adds h rest g) step all in
            (added, e, inr (inl (live, same_outcome_ignored v.outcome skipped, r)))
        | inr used ↦
            let next : Fold F = record {
              session = (apply f.session v p).0;
              accepted = f.accepted + 1;
              ignored_count = f.ignored_count;
              points = f.points ++ (p, v) ∷ [];
            } in
            let step : fold_point judge f p ≡ next = rw (used, fold_point) refl in
            let (added, e, r) = subst (λ (h : Fold F). Adds h rest g) step all in
            (
              (p, v) ∷ added,
              e ∙ append_assoc f.points ((p, v) ∷ []) added,
              inr (inr (live, used_outcome v.outcome used, (added, refl, r))),
            )
      ]

  fold_points-Adds : (f : Fold F) (ps : List (Point F)) → Adds f ps (fold_points judge f ps)
  unfolding fold_points
  fold_points-Adds f [] = ([], sym (append-nil f.points), (refl, refl))
  fold_points-Adds f (p ∷ rest) = elim (Bool-cases f.session.ended) [
    | inl over ↦
        subst (Adds f (p ∷ rest)) (sym (fold_points-ended f (p ∷ rest) over))
          ([], sym (append-nil f.points), over_IsReading f.session (p ∷ rest) over)
    | inr live ↦ subst (Adds f (p ∷ rest)) (sym (fold_points-live f p rest live)) (
        Adds-point f p rest (fold_points judge (fold_point judge f p) rest) live
          (fold_points-Adds (fold_point judge f p) rest))
  ]

  pub fold_points-IsReading :
      (f : Fold F) (ps : List (Point F))
      → f.points ≡ []
      → IsReading f.session ps (fold_points judge f ps).points (fold_points judge f ps).session
  fold_points-IsReading f ps none_yet =
      let (added, e, r) = fold_points-Adds f ps in
      let same : added ≡ (fold_points judge f ps).points =
        sym (e ∙ ap (λ xs. xs ++ added) none_yet) in
      subst (λ xs. IsReading f.session ps xs (fold_points judge f ps).session) same r
