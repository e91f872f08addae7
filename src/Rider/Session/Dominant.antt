-- ===== src/Rider/Session/Dominant.antt =====
-- `dominantOutcome` of rider/session.go: which failure a run of failed points is blamed on.
use mathlib.Core.Path.{fun_ext}
use mathlib.Core.List.{reverse, append_assoc, append-nil, reverse-reverse}
use vehicle_positions.Prelude.{
  ℕ, suc, subst, ◌≤◌, ◌<◌, Bool, true, false, List, [], ◌∷◌, ◌++◌, ◌≡◌, ◌≢◌, refl, sym, ap, ◌∙◌,
  arith, ltb, Bool-cases, inl, inr, All, if◌then◌else◌,
}
use vehicle_positions.Rider.Verify.{Outcome, off_route, implausible, off_schedule}
use vehicle_positions.Rider.Session.{EndReason, same_outcome}
use vehicle_positions.Rider.Session.Step.{
  count_outcome, dominant_from, dominant_of_reversed, dominant_outcome, end_reason_for,
}

module _ (c : Outcome → ℕ) where
  -- `best` is the first of the most frequent outcomes of `seen`.
  pub record IsFirstTop (best : Outcome) (seen : List Outcome) : Type 0 where
    pub earlier : List Outcome
    pub later : List Outcome
    pub position : seen ≡ earlier ++ best ∷ later
    pub earlier_fewer : All (λ o. c o < c best) earlier
    pub top : All (λ o. c o ≤ c best) seen

  All-lt : (m n : ℕ) (xs : List Outcome) → m < n → All (λ o. c o ≤ m) xs → All (λ o. c o < n) xs
  All-lt m n [] h a = tt
  All-lt m n (x ∷ xs) h a = (omega arith, All-lt m n xs h a.1)

  All-le_snoc :
      (n : ℕ) (o : Outcome) (xs : List Outcome)
      → c o ≤ n
      → All (λ p. c p ≤ n) xs
      → All (λ p. c p ≤ n) (xs ++ o ∷ [])
  All-le_snoc n o [] h a = (h, tt)
  All-le_snoc n o (x ∷ xs) h a = (a.0, All-le_snoc n o xs h a.1)

  All-le_of_lt : (n : ℕ) (xs : List Outcome) → All (λ o. c o < n) xs → All (λ o. c o ≤ n) xs
  All-le_of_lt n [] a = tt
  All-le_of_lt n (x ∷ xs) a = (omega arith, All-le_of_lt n xs a.1)

  IsFirstTop-keep :
      (best o : Outcome) (seen : List Outcome)
      → c o ≤ c best
      → IsFirstTop best seen
      → IsFirstTop best (seen ++ o ∷ [])
  IsFirstTop-keep best o seen h t = record {
    earlier = t.earlier;
    later = t.later ++ o ∷ [];
    position =
        ap (λ xs. xs ++ o ∷ []) t.position ∙ append_assoc t.earlier (best ∷ t.later) (o ∷ []);
    earlier_fewer = t.earlier_fewer;
    top = All-le_snoc (c best) o seen h t.top;
  }

  IsFirstTop-replace :
      (best o : Outcome) (seen : List Outcome)
      → c best < c o
      → IsFirstTop best seen
      → IsFirstTop o (seen ++ o ∷ [])
  IsFirstTop-replace best o seen h t =
      let fewer : All (λ p. c p < c o) seen = All-lt (c best) (c o) seen h t.top in
      record {
        earlier = seen;
        later = [];
        position = refl;
        earlier_fewer = fewer;
        top = All-le_snoc (c o) o seen (omega arith) (All-le_of_lt (c o) seen fewer);
      }

dominant_from-IsFirstTop :
    (streak : List Outcome) (best : Outcome) (seen rest : List Outcome)
    → IsFirstTop (λ o. count_outcome o streak) best seen
    → IsFirstTop (λ o. count_outcome o streak) (dominant_from streak best rest) (seen ++ rest)
unfolding dominant_from
dominant_from-IsFirstTop streak best seen [] t = rw append-nil t
dominant_from-IsFirstTop streak best seen (o ∷ rest) t =
    rw (sym (append_assoc seen (o ∷ []) rest))
      (elim (Bool-cases (ltb (count_outcome best streak) (count_outcome o streak))) [
        | inl more ↦ rw more (
            dominant_from-IsFirstTop streak o (seen ++ o ∷ []) rest
              (IsFirstTop-replace (λ p. count_outcome p streak) best o seen (ground arith) t))
        | inr fewer ↦ rw fewer (
            dominant_from-IsFirstTop streak best (seen ++ o ∷ []) rest
              (IsFirstTop-keep (λ p. count_outcome p streak) best o seen (ground arith) t))
      ])

if_same : (b : Bool) (o : Outcome) → (if b then o else o) ≡ o
if_same true o = refl
if_same false o = refl

dominant_of_reversed-IsFirstTop :
    (streak xs : List Outcome)
    → xs ≢ []
    → IsFirstTop (λ o. count_outcome o streak) (dominant_of_reversed streak xs) xs
unfolding dominant_from
dominant_of_reversed-IsFirstTop streak [] h = absurd (h refl)
dominant_of_reversed-IsFirstTop streak (last ∷ rest) h = rw (if_same _ last) (
    dominant_from-IsFirstTop streak last (last ∷ []) rest (record {
      earlier = [];
      later = [];
      position = refl;
      earlier_fewer = tt;
      top = (omega arith, tt);
    }))

-- What `dominantOutcome` of a non-empty run is: in the run read from its newest outcome back, the
-- first of the outcomes that occur most often. So it occurs in the run, none occurs more often, and
-- every newer outcome occurs less often.
pub dominant_outcome-IsFirstTop :
    (streak : List Outcome)
    → streak ≢ []
    → IsFirstTop (λ o. count_outcome o streak) (dominant_outcome streak) (reverse streak)
unfolding dominant_outcome
dominant_outcome-IsFirstTop streak h =
    dominant_of_reversed-IsFirstTop streak (reverse streak)
      (λ e. h (sym (reverse-reverse streak) ∙ ap reverse e))

-- How often an outcome occurs.
abbrev pub occurrences : List Outcome → Outcome → ℕ
occurrences [] o = 0
occurrences (x ∷ xs) o = let n = occurrences xs o in if same_outcome x o then suc n else n

count_outcome-occurrences :
    (o : Outcome) (xs : List Outcome) → count_outcome o xs ≡ occurrences xs o
unfolding count_outcome
count_outcome-occurrences o [] = refl
count_outcome-occurrences o (x ∷ xs) = ground (arith, count_outcome-occurrences o xs)

-- The reason that a session gives for failing by an outcome.
abbrev pub blame : Outcome → EndReason
blame off_route = "off_route"
blame implausible = "implausible"
blame off_schedule = "off_schedule"
blame _ = "off_route"

end_reason_for-blame : (o : Outcome) → end_reason_for o ≡ blame o
end_reason_for-blame o = ground arith

-- A reason that blames the most frequent outcome of a run, and of several the newest.
pub record IsBlamed (run : List Outcome) (reason : EndReason) : Type 0 where
  pub blamed : Outcome
  pub named : reason ≡ blame blamed
  pub most : IsFirstTop (occurrences run) blamed (reverse run)

pub dominant_outcome-IsBlamed :
    (run : List Outcome) → run ≢ [] → IsBlamed run (end_reason_for (dominant_outcome run))
dominant_outcome-IsBlamed run some_run = record {
  blamed = dominant_outcome run;
  named = end_reason_for-blame (dominant_outcome run);
  most =
      subst (λ c. IsFirstTop c (dominant_outcome run) (reverse run))
        (fun_ext λ o. count_outcome-occurrences o run) (dominant_outcome-IsFirstTop run some_run);
}
