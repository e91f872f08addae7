-- ===== src/Rider/Aggregator/Status.antt =====
-- `Estimates` beside `TripStatus` of rider/aggregator.go.
use vehicle_positions.Prelude.{
  Bool, true, false, not, ◌&&◌, ◌||◌, Option, none, some, List, [], ◌∷◌, ◌≡◌, refl, sym, ap, ◌∙◌,
  arith, any, is_some, eq_iff, Option-cases, Bool-cases, inl, inr, subst,
}
use vehicle_positions.Prelude.Time.{Time}
use vehicle_positions.Prelude.Float.{FloatOps}
use vehicle_positions.Prelude.Dict.{values}
use vehicle_positions.Prelude.Sort.{any-sort}
use vehicle_positions.Rider.Schedule.{TripInfo}
use vehicle_positions.Rider.Session.{TripKey, Session}
use vehicle_positions.Rider.Aggregator.{Aggregator, same_key}
use vehicle_positions.Rider.Aggregator.Estimate.{
  TripEstimate, estimate, estimate_from, is_covered, collect, publish, before_key, estimates,
  trip_status, status_of,
}
use vehicle_positions.Rider.Aggregator.Grouping.{
  EstimateMember, TripGroup, Groups, member_of_locked, join, join_member, group_from, groups,
  find_group,
}

-- `==` on trip keys is equality.
same_key_trans : (a b c : TripKey) → same_key a b ≡ true → same_key a c ≡ same_key b c
same_key_trans a b c h =
    ground (arith, eq_iff a.trip_id b.trip_id, eq_iff a.start_date b.start_date)

same_key_symm : (a b : TripKey) → same_key a b ≡ same_key b a
same_key_symm a b = ground (
  arith,
  eq_iff a.trip_id b.trip_id,
  eq_iff b.trip_id a.trip_id,
  eq_iff a.start_date b.start_date,
  eq_iff b.start_date a.start_date,
)

same_key→eq : (a b : TripKey) → same_key a b ≡ true → a ≡ b
same_key→eq a b h = ground (arith, eq_iff a.trip_id b.trip_id, eq_iff a.start_date b.start_date)

module _ {F : Type 0} where
  abbrev FreshKey : TripKey → Groups F → Type 0
  FreshKey key [] = Unit
  FreshKey key ((k, g) ∷ out) = (same_key k key ≡ false) × FreshKey key out

  -- every trip has one group
  abbrev DistinctKeys : Groups F → Type 0
  DistinctKeys [] = Unit
  DistinctKeys ((k, g) ∷ out) = FreshKey k out × DistinctKeys out

  FreshKey-join :
      (key k : TripKey) (trip : Option (TripInfo F)) (m : EstimateMember F) (out : Groups F)
      → same_key key k ≡ false
      → FreshKey k out
      → FreshKey k (join key trip m out)
  unfolding join
  FreshKey-join key k trip m [] n h = (n, tt)
  FreshKey-join key k trip m ((j, g) ∷ out) n h = elim (Bool-cases (same_key j key)) [
    | inl same ↦ rw same h
    | inr other ↦ rw other (h.0, FreshKey-join key k trip m out n h.1)
  ]

  join-DistinctKeys :
      (key : TripKey) (trip : Option (TripInfo F)) (m : EstimateMember F) (out : Groups F)
      → DistinctKeys out
      → DistinctKeys (join key trip m out)
  unfolding join
  join-DistinctKeys key trip m [] h = (tt, tt)
  join-DistinctKeys key trip m ((k, g) ∷ out) h = elim (Bool-cases (same_key k key)) [
    | inl same ↦ rw same h
    | inr other ↦ rw other (
      FreshKey-join key k trip m out (same_key_symm key k ∙ other) h.0,
      join-DistinctKeys key trip m out h.1,
    )
  ]

  group_from-DistinctKeys :
      (a : Aggregator F) (now : Time) (out : Groups F) (ss : List (Session F))
      → DistinctKeys out
      → DistinctKeys (group_from a now out ss)
  unfolding group_from
  group_from-DistinctKeys a now out [] h = h
  group_from-DistinctKeys a now out (s ∷ ss) h =
      group_from-DistinctKeys a now (join_member s (member_of_locked a now s) out) ss
        (member (member_of_locked a now s))
    where
      member : (o : Option (EstimateMember F)) → DistinctKeys (join_member s o out)
      member none = h
      member (some m) = join-DistinctKeys s.key s.trip m out h

  groups-DistinctKeys : (a : Aggregator F) (now : Time) → DistinctKeys (groups a now)
  unfolding groups
  groups-DistinctKeys a now = group_from-DistinctKeys a now [] (values a.sessions) tt

module _ {F : Type 0} ⦃fl : FloatOps F⦄ where
  estimate-key :
      (g : TripGroup F) (key : TripKey) (now : Time) (e : TripEstimate F)
      → estimate g key now ≡ some e
      → e.key ≡ key
  unfolding estimate estimate_from
  estimate-key g key now e h = ground arith

  -- whether a group is published
  abbrev published : Option (TripKey → Bool) → TripKey → Time → Option (TripGroup F) → Bool
  published covered key now none = false
  published covered key now (some g) = not (is_covered covered key) && is_some (estimate g key now)

  abbrev keyed_option : TripKey → Option (TripEstimate F) → Bool
  keyed_option key none = false
  keyed_option key (some e) = same_key e.key key

  abbrev keyed_so : TripKey → TripEstimate F → Bool
  keyed_so key e = same_key e.key key

  any-publish :
      (key : TripKey) (c : Bool) (o : Option (TripEstimate F)) (out : List (TripEstimate F))
      → any (keyed_so key) (publish c o out)
        ≡ (not c && keyed_option key o) || any (keyed_so key) out
  unfolding any
  any-publish key true o out = refl
  any-publish key false none out = refl
  any-publish key false (some e) out = refl

  keyed_option-estimate :
      (g : TripGroup F) (k key : TripKey) (now : Time)
      → keyed_option key (estimate g k now) ≡ same_key k key && is_some (estimate g k now)
  keyed_option-estimate g k key now = elim (Option-cases (estimate g k now)) [
    | inl gone ↦ rw gone (ground arith)
    | inr (e, there) ↦
        rw there (ap (λ j. same_key j key) (estimate-key g k now e there) ∙ ground arith)
  ]

  any-collect_fresh :
      (covered : Option (TripKey → Bool)) (now : Time) (key : TripKey) (out : Groups F)
      → FreshKey key out
      → any (keyed_so key) (collect covered now out) ≡ false
  unfolding collect
  any-collect_fresh covered now key [] h = unfold any in refl
  any-collect_fresh covered now key ((k, g) ∷ out) h =
      any-publish key (is_covered covered k) (estimate g k now) (collect covered now out)
      ∙ ground (arith, any-collect_fresh covered now key out h.1, keyed_option-estimate g k key now)

  FreshKey-of_same :
      (k key : TripKey) (out : Groups F) → same_key k key ≡ true → FreshKey k out → FreshKey key out
  FreshKey-of_same k key out same h = subst (λ j. FreshKey j out) (same_key→eq k key same) h

  any-collect :
      (covered : Option (TripKey → Bool)) (now : Time) (key : TripKey) (out : Groups F)
      → DistinctKeys out
      → any (keyed_so key) (collect covered now out)
        ≡ published covered key now (find_group key out)
  unfolding collect find_group
  any-collect covered now key [] h = unfold any in refl
  any-collect covered now key ((k, g) ∷ out) h =
      any-publish key (is_covered covered k) (estimate g k now) (collect covered now out)
      ∙ elim (Bool-cases (same_key k key)) [
        | inl same ↦
            let e = same_key→eq k key same in
            let none_later =
              any-collect_fresh covered now key out (FreshKey-of_same k key out same h.0) in
            let one = keyed_option-estimate g k key now in
            let cov = ap (is_covered covered) e in
            let est = ap (λ j. is_some (estimate g j now)) e in ground arith
        | inr other ↦
            ground (arith, any-collect covered now key out h.1, keyed_option-estimate g k key now)
      ]

  -- A trip is said to be reported by riders exactly if the estimates that the feed publishes hold
  -- one for it: the status and the feed never disagree.
  pub trip_status-estimates :
      (a : Aggregator F) (key : TripKey) (now : Time) (covered : Option (TripKey → Bool))
      → (trip_status a key now covered).0 ≡ any (λ e. same_key e.key key) (estimates a now covered)
  unfolding trip_status estimates
  trip_status-estimates a key now covered =
      status (find_group key (groups a now))
      ∙ sym (
          any-sort before_key (keyed_so key) (collect covered now (groups a now))
          ∙ any-collect covered now key (groups a now) (groups-DistinctKeys a now))
    where
      status :
          (o : Option (TripGroup F)) → (status_of covered key now o).0 ≡ published covered key now o
      status none = refl
      status (some g) = ground arith
