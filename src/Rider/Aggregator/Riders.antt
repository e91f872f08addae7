-- ===== src/Rider/Aggregator/Riders.antt =====
-- The trip groups of rider/aggregator.go: the riders behind the members of a group.
use vehicle_positions.Prelude.{
  ◌+◌, String, true, false, Option, some, List, [], ◌∷◌, ◌++◌, ◌≡◌, refl, sym, ap, ◌∙◌, arith,
  length, any, All, str_eq, eq_iff, eq_refl, Option-cases, Bool-cases, inl, inr, subst,
}
use vehicle_positions.Prelude.Time.{Time}
use vehicle_positions.Prelude.Dict.{Dict, lookup, values, IsDict, Fresh, lookup_of_Fresh}
use vehicle_positions.Rider.Schedule.{TripInfo}
use vehicle_positions.Rider.Session.{TripKey, Session, is_blocked, is_verified}
use vehicle_positions.Rider.Session.Step.{fresh}
use vehicle_positions.Rider.Aggregator.{Aggregator, same_key, ride_of_rider}
use vehicle_positions.Rider.Aggregator.Grouping.{
  EstimateMember, Groups, member_of_locked, join, join_member, group_from, groups, distinct_from,
  distinct_riders,
}
use vehicle_positions.Rider.Aggregator.Registry.{RegistryInv}

module _ {F : Type 0} where
  -- No two members are the same rider.
  abbrev pub AreApart : List (EstimateMember F) → Type 0
  AreApart [] = Unit
  AreApart (m ∷ ms) = All (λ n. str_eq m.rider_id n.rider_id ≡ false) ms × AreApart ms

  abbrev pub AllApart : Groups F → Type 0
  AllApart [] = Unit
  AllApart ((k, g) ∷ out) = AreApart g.members × AllApart out

  abbrev InGroups : (EstimateMember F → Type 0) → Groups F → Type 0
  InGroups P [] = Unit
  InGroups P ((k, g) ∷ out) = All P g.members × InGroups P out

  All-snoc :
      (P : EstimateMember F → Type 0) (ms : List (EstimateMember F)) (m : EstimateMember F)
      → All P ms
      → P m
      → All P (ms ++ m ∷ [])
  All-snoc P [] m h p = (p, tt)
  All-snoc P (x ∷ ms) m h p = (h.0, All-snoc P ms m h.1 p)

  AreApart-snoc :
      (ms : List (EstimateMember F)) (m : EstimateMember F)
      → AreApart ms
      → All (λ n. str_eq n.rider_id m.rider_id ≡ false) ms
      → AreApart (ms ++ m ∷ [])
  AreApart-snoc [] m h a = (tt, tt)
  AreApart-snoc (x ∷ ms) m h a = (
    All-snoc (λ n. str_eq x.rider_id n.rider_id ≡ false) ms m h.0 a.0,
    AreApart-snoc ms m h.1 a.1,
  )

  join-InGroups :
      (P : EstimateMember F → Type 0) (key : TripKey) (trip : Option (TripInfo F))
      (m : EstimateMember F) (out : Groups F)
      → InGroups P out
      → P m
      → InGroups P (join key trip m out)
  unfolding join
  join-InGroups P key trip m [] h p = ((p, tt), tt)
  join-InGroups P key trip m ((k, g) ∷ out) h p = elim (Bool-cases (same_key k key)) [
    | inl same ↦ rw same (All-snoc P g.members m h.0 p, h.1)
    | inr other ↦ rw other (h.0, join-InGroups P key trip m out h.1 p)
  ]

  join-AllApart :
      (key : TripKey) (trip : Option (TripInfo F)) (m : EstimateMember F) (out : Groups F)
      → AllApart out
      → InGroups (λ n. str_eq n.rider_id m.rider_id ≡ false) out
      → AllApart (join key trip m out)
  unfolding join
  join-AllApart key trip m [] h a = ((tt, tt), tt)
  join-AllApart key trip m ((k, g) ∷ out) h a = elim (Bool-cases (same_key k key)) [
    | inl same ↦ rw same (AreApart-snoc g.members m h.0 a.0, h.1)
    | inr other ↦ rw other (h.0, join-AllApart key trip m out h.1 a.1)
  ]

  InGroups-map :
      (P Q : EstimateMember F → Type 0)
      → ((n : EstimateMember F) → P n → Q n)
      → (out : Groups F) → InGroups P out
      → InGroups Q out
  InGroups-map P Q f [] h = tt
  InGroups-map P Q f ((k, g) ∷ out) h = (members g.members h.0, InGroups-map P Q f out h.1)
    where
      members : (ms : List (EstimateMember F)) → All P ms → All Q ms
      members [] a = tt
      members (m ∷ ms) a = (f m a.0, members ms a.1)

  -- the ride that the registry holds to be the rider's own
  abbrev own_ride : Aggregator F → String → String
  own_ride a rider_id = ride_of_rider (lookup rider_id a.by_rider)

  -- What a session that contributes to a trip has to be.
  record Contributes (a : Aggregator F) (now : Time) (s : Session F) (m : EstimateMember F)
      : Type 0 where
    pub live : s.ended ≡ false
    pub verified_ride : is_verified s.state ≡ true
    pub not_blocked : is_blocked s.tier ≡ false
    pub recent : fresh s now a.th.point_max_age ≡ true
    pub own : str_eq (own_ride a s.rider_id) s.id ≡ true
    pub rider : m.rider_id ≡ s.rider_id

  -- A session that contributes to its trip is live, verified and fresh, its rider is not blocked, it
  -- is the ride that the registry holds to be its rider's own, and it speaks for that rider.
  member_of_locked-Contributes :
      (a : Aggregator F) (now : Time) (s : Session F) (m : EstimateMember F)
      → member_of_locked a now s ≡ some m
      → Contributes a now s m
  unfolding member_of_locked
  member_of_locked-Contributes a now s m e = ground arith

  abbrev Keyed : Dict (Session F) → Type 0
  Keyed [] = Unit
  Keyed ((k, s) ∷ m) = (s.id ≡ k) × Keyed m

  Keyed-of_lookups :
      (m : Dict (Session F))
      → IsDict m
      → ((id : String) (s : Session F) → lookup id m ≡ some s → s.id ≡ id)
      → Keyed m
  unfolding lookup
  Keyed-of_lookups [] d h = tt
  Keyed-of_lookups ((k, s) ∷ m) d h = (
    h k s (rw eq_refl refl),
    Keyed-of_lookups m d.1
        (λ id t e. h id t (ground (arith, eq_iff k id, lookup_of_Fresh k m d.0))),
  )

  apart_of_ride :
      (a : Aggregator F) (now : Time) (k : String) (s : Session F) (m n : EstimateMember F)
      → s.id ≡ k
      → Contributes a now s m
      → str_eq k (own_ride a n.rider_id) ≡ false
      → str_eq n.rider_id m.rider_id ≡ false
  apart_of_ride a now k s m n e c f = elim (Bool-cases (str_eq n.rider_id m.rider_id)) [
    | inl same ↦
        let riders : n.rider_id ≡ s.rider_id = (eq_iff n.rider_id m.rider_id).0 same ∙ c.rider in
        let rides : own_ride a n.rider_id ≡ k =
          ap (own_ride a) riders ∙ (eq_iff (own_ride a s.rider_id) s.id).0 c.own ∙ e in
        cc (f, ap (str_eq k) rides, eq_refl k)
    | inr other ↦ other
  ]

  Fresh-own_ride :
      (a : Aggregator F) (now : Time) (k : String) (s : Session F) (m : EstimateMember F)
      (rest : Dict (Session F))
      → s.id ≡ k
      → Contributes a now s m
      → Fresh k rest
      → Fresh (own_ride a m.rider_id) rest
  Fresh-own_ride a now k s m rest e c f =
      subst (λ id. Fresh id rest)
        (sym (ap (own_ride a) c.rider ∙ (eq_iff (own_ride a s.rider_id) s.id).0 c.own ∙ e)) f

  group_from-AllApart :
      (a : Aggregator F) (now : Time) (m : Dict (Session F)) (out : Groups F)
      → IsDict m
      → Keyed m
      → AllApart out
      → InGroups (λ n. Fresh (own_ride a n.rider_id) m) out
      → AllApart (group_from a now out (values m))
  unfolding group_from values
  group_from-AllApart a now [] out d k h f = h
  group_from-AllApart a now ((id, s) ∷ rest) out d k h f =
      let next = λ (o : Option (EstimateMember F)).
        AllApart (group_from a now (join_member s o out) (values rest)) in
      elim (Option-cases (member_of_locked a now s)) [
        | inl absent ↦ subst next (sym absent) (
            group_from-AllApart a now rest out d.1 k.1 h
              (InGroups-map _ (λ n. Fresh (own_ride a n.rider_id) rest) (λ n p. p.1) out f))
        | inr (m, present) ↦
            let c = member_of_locked-Contributes a now s m present in
            subst next (sym present) (
              group_from-AllApart a now rest (join s.key s.trip m out) d.1 k.1
                (join-AllApart s.key s.trip m out h (
                  InGroups-map _ (λ n. str_eq n.rider_id m.rider_id ≡ false)
                    (λ n p. apart_of_ride a now id s m n k.0 c p.0) out f))
                (join-InGroups (λ n. Fresh (own_ride a n.rider_id) rest) s.key s.trip m out
                  (InGroups-map _ (λ n. Fresh (own_ride a n.rider_id) rest) (λ n p. p.1) out f)
                  (Fresh-own_ride a now id s m rest k.0 c d.0)))
      ]

  -- In a registry that satisfies the invariant no rider contributes twice to a trip, so no phone
  -- can weight a median twice or vouch for itself, whatever rides of theirs are still registered.
  pub groups-AllApart : (a : Aggregator F) (now : Time) → RegistryInv a → AllApart (groups a now)
  unfolding groups
  groups-AllApart a now h =
      group_from-AllApart a now a.sessions [] h.dict (Keyed-of_lookups a.sessions h.dict h.keyed) tt
        tt

  distinct_from-apart :
      (seen : List String) (ms : List (EstimateMember F))
      → AreApart ms
      → All (λ m. any (λ r. str_eq r m.rider_id) seen ≡ false) ms
      → distinct_from seen ms ≡ length seen + length ms
  unfolding distinct_from any
  distinct_from-apart seen [] a h = omega arith
  distinct_from-apart seen (m ∷ ms) a h =
      rw h.0 (distinct_from-apart (m.rider_id ∷ seen) ms a.1 (unseen m ms a.0 h.1) ∙ omega arith)
    where
      unseen :
          (m : EstimateMember F) (ms : List (EstimateMember F))
          → All (λ n. str_eq m.rider_id n.rider_id ≡ false) ms
          → All (λ n. any (λ r. str_eq r n.rider_id) seen ≡ false) ms
          → All (λ n. any (λ r. str_eq r n.rider_id) (m.rider_id ∷ seen) ≡ false) ms
      unseen m [] p q = tt
      unseen m (n ∷ ns) p q = (rw (p.0, q.0) refl, unseen m ns p.1 q.1)

  -- Where no rider stands twice, the count of riders is the count of members.
  pub distinct_riders-apart :
      (ms : List (EstimateMember F)) → AreApart ms → distinct_riders ms ≡ length ms
  unfolding distinct_riders
  distinct_riders-apart ms a = distinct_from-apart [] ms a (none_seen ms) ∙ omega arith
    where
      none_seen :
          (ms : List (EstimateMember F)) → All (λ m. any (λ r. str_eq r m.rider_id) [] ≡ false) ms
      none_seen [] = tt
      none_seen (m ∷ ms) = (refl, none_seen ms)
