-- ===== src/Rides/Rows.antt =====
-- The tables of rider_store.go: the constraints of migrations/000012_riders.up.sql and what the
-- statements rely on, and the writes of a row.
use vehicle_positions.Prelude.{
  String, true, false, not, ◌≤◌, some, ◌≡◌, sym, ap, ◌∙◌, arith, str_eq, eq_iff, inl, inr, subst,
  is_some,
}
use vehicle_positions.Prelude.Int.{◌≤ℤ◌}
use vehicle_positions.Prelude.Dict.{Dict, IsDict, insert-IsDict, lookup, insert, insert-cases}
use vehicle_positions.Rider.Reputation.{tier_for, tier_string, min_score, max_score}
use vehicle_positions.Rides.{Rider, Ride, is_active_row}

-- A score lies in [-10, 10] and has its tier, and no counter passes the number of scored rides.
abbrev pub IsInStanding : Rider → Type 0
IsInStanding r =
    (min_score ≤ℤ r.score)
    × (r.score ≤ℤ max_score)
    × (r.tier ≡ tier_string (tier_for r.score))
    × (r.rides_corroborated ≤ r.rides_total)
    × (r.rides_rejected ≤ r.rides_total)

pub record RidersInv (riders : Dict Rider) : Type 0 where
  pub dict : IsDict riders
  pub keyed : (id : String) (r : Rider) → lookup id riders ≡ some r → r.id ≡ id
  pub alone :
      (a b : String) (r s : Rider)
      → lookup a riders ≡ some r
      → lookup b riders ≡ some s
      → r.installation_id ≡ s.installation_id
      → a ≡ b
  pub standing : (id : String) (r : Rider) → lookup id riders ≡ some r → IsInStanding r

pub record RidesInv (rides : Dict Ride) : Type 0 where
  pub keyed : (id : String) (r : Ride) → lookup id rides ≡ some r → r.id ≡ id
  pub alone :
      (a b : String) (r s : Ride)
      → lookup a rides ≡ some r
      → lookup b rides ≡ some s
      → is_active_row r ≡ true
      → is_active_row s ≡ true
      → r.rider_id ≡ s.rider_id
      → a ≡ b
  pub dated :
      (id : String) (r : Ride)
      → lookup id rides ≡ some r
      → is_active_row r ≡ not (is_some r.ended_at)

abbrev pub AreOwned : Dict Rider → Dict Ride → Type 0
AreOwned riders rides =
    (id : String) (r : Ride) → lookup id rides ≡ some r → is_some (lookup r.rider_id riders) ≡ true

pub put_rider :
    (riders : Dict Rider) (id : String) (old row : Rider)
    → RidersInv riders
    → lookup id riders ≡ some old
    → row.id ≡ old.id
    → row.installation_id ≡ old.installation_id
    → IsInStanding row
    → RidersInv (insert id row riders)
put_rider riders id old row h there same_id same_installation standing = record {
  dict = insert-IsDict id row riders h.dict;
  keyed = λ j r e. elim (insert-cases id j row r riders e) [
    | inl (p, q) ↦ ap (λ (x : Rider). x.id) (sym q) ∙ same_id ∙ h.keyed id old there ∙ p
    | inr (n, before) ↦ h.keyed j r before
  ];
  alone = λ a b r s e f g. elim (insert-cases id a row r riders e) [
    | inl (p, q) ↦ elim (insert-cases id b row s riders f) [
      | inl (p', q') ↦ sym p ∙ p'
      | inr (n, before) ↦ sym p ∙ h.alone id b old s there before (cc (q, same_installation, g))
    ]
    | inr (n, before) ↦ elim (insert-cases id b row s riders f) [
      | inl (p, q) ↦ h.alone a id r old before there (cc (q, same_installation, g)) ∙ p
      | inr (n', before') ↦ h.alone a b r s before before' g
    ]
  ];
  standing = λ j r e. elim (insert-cases id j row r riders e) [
    | inl (p, q) ↦ subst (λ (x : Rider). IsInStanding x) q standing
    | inr (n, before) ↦ h.standing j r before
  ];
}

pub new_rider :
    (riders : Dict Rider) (row : Rider)
    → RidersInv riders
    → ((b : String) (s : Rider)
        → lookup b riders ≡ some s
        → str_eq s.installation_id row.installation_id ≡ false)
    → IsInStanding row
    → RidersInv (insert row.id row riders)
new_rider riders row h fresh standing = record {
  dict = insert-IsDict row.id row riders h.dict;
  keyed = λ j r e. elim (insert-cases row.id j row r riders e) [
    | inl (p, q) ↦ ap (λ (x : Rider). x.id) (sym q) ∙ p
    | inr (n, before) ↦ h.keyed j r before
  ];
  alone = λ a b r s e f g. elim (insert-cases row.id a row r riders e) [
    | inl (p, q) ↦ elim (insert-cases row.id b row s riders f) [
      | inl (p', q') ↦ sym p ∙ p'
      | inr (n, before) ↦
          ground (arith, fresh b s before, eq_iff s.installation_id row.installation_id)
    ]
    | inr (n, before) ↦ elim (insert-cases row.id b row s riders f) [
      | inl (p, q) ↦ ground (arith, fresh a r before, eq_iff r.installation_id row.installation_id)
      | inr (n', before') ↦ h.alone a b r s before before' g
    ]
  ];
  standing = λ j r e. elim (insert-cases row.id j row r riders e) [
    | inl (p, q) ↦ subst (λ (x : Rider). IsInStanding x) q standing
    | inr (n, before) ↦ h.standing j r before
  ];
}

pub put_ride :
    (rides : Dict Ride) (id : String) (old row : Ride)
    → RidesInv rides
    → lookup id rides ≡ some old
    → row.id ≡ old.id
    → row.rider_id ≡ old.rider_id
    → (is_active_row row ≡ true → is_active_row old ≡ true)
    → is_active_row row ≡ not (is_some row.ended_at)
    → RidesInv (insert id row rides)
put_ride rides id old row h there same_id same_rider still dated = record {
  keyed = λ j r e. elim (insert-cases id j row r rides e) [
    | inl (p, q) ↦ ap (λ (x : Ride). x.id) (sym q) ∙ same_id ∙ h.keyed id old there ∙ p
    | inr (n, before) ↦ h.keyed j r before
  ];
  alone = λ a b r s e f live live' g. elim (insert-cases id a row r rides e) [
    | inl (p, q) ↦ elim (insert-cases id b row s rides f) [
      | inl (p', q') ↦ sym p ∙ p'
      | inr (n, before) ↦
          sym p
          ∙ h.alone id b old s there before (still (ap (λ (x : Ride). is_active_row x) q ∙ live))
              live' (cc (q, same_rider, g))
    ]
    | inr (n, before) ↦ elim (insert-cases id b row s rides f) [
      | inl (p, q) ↦
          h.alone a id r old before there live
            (still (ap (λ (x : Ride). is_active_row x) q ∙ live')) (cc (q, same_rider, g))
          ∙ p
      | inr (n', before') ↦ h.alone a b r s before before' live live' g
    ]
  ];
  dated = λ j r e. elim (insert-cases id j row r rides e) [
    | inl (p, q) ↦ subst (λ (x : Ride). is_active_row x ≡ not (is_some x.ended_at)) q dated
    | inr (n, before) ↦ h.dated j r before
  ];
}

pub new_ride :
    (rides : Dict Ride) (row : Ride)
    → RidesInv rides
    → ((b : String) (s : Ride)
        → lookup b rides ≡ some s
        → is_active_row s ≡ true
        → str_eq s.rider_id row.rider_id ≡ false)
    → is_active_row row ≡ not (is_some row.ended_at)
    → RidesInv (insert row.id row rides)
new_ride rides row h free dated = record {
  keyed = λ j r e. elim (insert-cases row.id j row r rides e) [
    | inl (p, q) ↦ ap (λ (x : Ride). x.id) (sym q) ∙ p
    | inr (n, before) ↦ h.keyed j r before
  ];
  alone = λ a b r s e f live live' g. elim (insert-cases row.id a row r rides e) [
    | inl (p, q) ↦ elim (insert-cases row.id b row s rides f) [
      | inl (p', q') ↦ sym p ∙ p'
      | inr (n, before) ↦ ground (arith, free b s before, eq_iff s.rider_id row.rider_id)
    ]
    | inr (n, before) ↦ elim (insert-cases row.id b row s rides f) [
      | inl (p, q) ↦ ground (arith, free a r before, eq_iff r.rider_id row.rider_id)
      | inr (n', before') ↦ h.alone a b r s before before' live live' g
    ]
  ];
  dated = λ j r e. elim (insert-cases row.id j row r rides e) [
    | inl (p, q) ↦ subst (λ (x : Ride). is_active_row x ≡ not (is_some x.ended_at)) q dated
    | inr (n, before) ↦ h.dated j r before
  ];
}
