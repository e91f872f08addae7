-- ===== src/RiderApi/Linked.antt =====
-- rider_handlers.go: what ties the registry of live rides to the tables.
use vehicle_positions.Prelude.{
  String, true, false, some, ◌≡◌, refl, sym, ap, ◌∙◌, arith, str_eq, eq_iff, Bool-cases, inl, inr,
  subst,
}
use vehicle_positions.Prelude.Dict.{
  lookup, insert, insert-cases, lookup-insert_self, lookup-insert_ne,
}
use vehicle_positions.Rider.Session.{Session}
use vehicle_positions.Rider.Aggregator.{Aggregator}
use vehicle_positions.Rider.Aggregator.Registry.{RegistryInv}
use vehicle_positions.Rides.{Ride, is_active_row}
use vehicle_positions.Rides.Sound.{IsSound}
use vehicle_positions.RiderApi.Service.{Live}

module _ {F : Type 0} where
  -- The ride of this id, if it is registered, has ended.
  abbrev pub IsNotLive : String → Aggregator F → Type 0
  IsNotLive id a = (s : Session F) → lookup id a.sessions ≡ some s → s.ended ≡ true

  pub record Linked (st : Live F) : Type 0 where
    pub registry : RegistryInv st.agg
    pub tables : IsSound st.db
    -- a ride that is active in the tables is registered, so the reaper comes to it
    pub held :
        (id : String) (r : Ride)
        → lookup id st.db.rides ≡ some r
        → is_active_row r ≡ true
        → (s : Session F) × (lookup id st.agg.sessions ≡ some s) × (s.rider_id ≡ r.rider_id)
    -- a registered ride has its row, which is active while the ride is live
    pub rowed :
        (id : String) (s : Session F)
        → lookup id st.agg.sessions ≡ some s
        → (r : Ride) × (lookup id st.db.rides ≡ some r)
          × (r.rider_id ≡ s.rider_id)
          × (s.ended ≡ false → is_active_row r ≡ true)

  -- Every session comes from one of the same rider, which was live if it is.
  abbrev pub ComesFrom : Aggregator F → Aggregator F → Type 0
  ComesFrom a a' =
      (id : String) (s' : Session F)
      → lookup id a'.sessions ≡ some s'
      → (s : Session F) × (lookup id a.sessions ≡ some s)
        × (s'.rider_id ≡ s.rider_id)
        × (s'.ended ≡ false → s.ended ≡ false)

  -- No session goes.
  abbrev pub Keeps : Aggregator F → Aggregator F → Type 0
  Keeps a a' =
      (id : String) (s : Session F)
      → lookup id a.sessions ≡ some s
      → (s' : Session F) × (lookup id a'.sessions ≡ some s') × (s'.rider_id ≡ s.rider_id)

  pub ComesFrom-insert :
      (a : Aggregator F) (id : String) (s s' : Session F)
      → lookup id a.sessions ≡ some s
      → s'.rider_id ≡ s.rider_id
      → (s'.ended ≡ false → s.ended ≡ false)
      → ComesFrom a (record a { sessions = insert id s' a.sessions })
  ComesFrom-insert a id s s' there same mono j t e = elim (insert-cases id j s' t a.sessions e) [
    | inl (p, q) ↦ (
      s,
      subst (λ k. lookup k a.sessions ≡ some s) p there,
      ap (λ (u : Session F). u.rider_id) (sym q) ∙ same,
      λ live. mono (ap (λ (u : Session F). u.ended) q ∙ live),
    )
    | inr (n, old) ↦ (t, old, refl, λ live. live)
  ]

  pub Keeps-insert :
      (a : Aggregator F) (id : String) (s s' : Session F)
      → lookup id a.sessions ≡ some s
      → s'.rider_id ≡ s.rider_id
      → Keeps a (record a { sessions = insert id s' a.sessions })
  Keeps-insert a id s s' there same j t e = elim (Bool-cases (str_eq id j)) [
    | inl here ↦ (
      s',
      ground (arith, eq_iff id j, lookup-insert_self id s' a.sessions),
      ground (arith, eq_iff id j),
    )
    | inr other ↦ (t, lookup-insert_ne id j s' a.sessions other ∙ e, refl)
  ]

  -- A change of the registry alone.
  pub agg_Linked :
      (st : Live F) (a' : Aggregator F)
      → Linked st
      → RegistryInv a'
      → ComesFrom st.agg a'
      → ((id : String) (r : Ride) (s : Session F)
          → lookup id st.db.rides ≡ some r
          → is_active_row r ≡ true
          → lookup id st.agg.sessions ≡ some s
          → (s' : Session F) × (lookup id a'.sessions ≡ some s') × (s'.rider_id ≡ s.rider_id))
      → Linked (record st { agg = a' })
  agg_Linked st a' h sound back keeps = record {
    registry = sound;
    tables = h.tables;
    held = λ id r there live.
        let (s, filed, rider) = h.held id r there live in
        let (s', filed', rider') = keeps id r s there live filed in (s', filed', rider' ∙ rider);
    rowed = λ id s' filed'.
        let (s, filed, rider, mono) = back id s' filed' in
        let (r, there, same, active) = h.rowed id s filed in
        (r, there, same ∙ sym rider, λ live. active (mono live));
  }
