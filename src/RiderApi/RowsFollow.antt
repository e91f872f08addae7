-- ===== src/RiderApi/RowsFollow.antt =====
-- rider_store.go beside the registry of rider/aggregator.go: the writes to the tables.
use vehicle_positions.Prelude.{
  String, true, false, none, some, ◌≡◌, refl, sym, ap, ◌∙◌, arith, str_eq, eq_iff, Option-cases,
  Bool-cases, inl, inr, subst,
}
use vehicle_positions.Prelude.Dict.{
  Dict, lookup, insert, insert-cases, lookup-insert_self, lookup-insert_ne,
}
use vehicle_positions.Rider.Session.{Session}
use vehicle_positions.Rider.Session.Invariant.{Inv}
use vehicle_positions.Rider.Aggregator.{Aggregator, add}
use vehicle_positions.Rider.Aggregator.Registry.{add-RegistryInv}
use vehicle_positions.Rides.{Ride, Db, is_active_row}
use vehicle_positions.Rides.Sound.{IsSound}
use vehicle_positions.RiderApi.Service.{Live}
use vehicle_positions.RiderApi.Linked.{Linked}

module _ {F : Type 0} where
  -- No ride becomes active, no row goes, and a row ends only if its ride is not live.
  pub record RowsFollow (a : Aggregator F) (rides rides' : Dict Ride) : Type 0 where
    pub back :
        (id : String) (r' : Ride)
        → lookup id rides' ≡ some r'
        → is_active_row r' ≡ true
        → (r : Ride) × (lookup id rides ≡ some r)
          × (is_active_row r ≡ true)
          × (r'.rider_id ≡ r.rider_id)
    pub on :
        (id : String) (r : Ride)
        → lookup id rides ≡ some r
        → (r' : Ride) × (lookup id rides' ≡ some r')
          × (r'.rider_id ≡ r.rider_id)
          × ((s : Session F)
              → lookup id a.sessions ≡ some s
              → s.ended ≡ false
              → is_active_row r ≡ true
              → is_active_row r' ≡ true)

  pub RowsFollow-same : (a : Aggregator F) (rides : Dict Ride) → RowsFollow a rides rides
  RowsFollow-same a rides = record {
    back = λ id r there live. (r, there, live, refl);
    on = λ id r there. (r, there, refl, λ s filed live active. active);
  }

  pub RowsFollow-insert :
      (a : Aggregator F) (rides : Dict Ride) (id : String) (old row : Ride)
      → lookup id rides ≡ some old
      → row.rider_id ≡ old.rider_id
      → (is_active_row row ≡ true → is_active_row old ≡ true)
      → ((s : Session F)
          → lookup id a.sessions ≡ some s
          → s.ended ≡ false
          → is_active_row old ≡ true
          → is_active_row row ≡ true)
      → RowsFollow a rides (insert id row rides)
  RowsFollow-insert a rides id old row there same fewer stays = record {
    back = λ j r e live. elim (insert-cases id j row r rides e) [
      | inl (p, q) ↦ (
        old,
        subst (λ k. lookup k rides ≡ some old) p there,
        fewer (ap (λ (x : Ride). is_active_row x) q ∙ live),
        ap (λ (x : Ride). x.rider_id) (sym q) ∙ same,
      )
      | inr (n, before) ↦ (r, before, live, refl)
    ];
    on = λ j r e. elim (Bool-cases (str_eq id j)) [
      | inl here ↦
          let same_id : id ≡ j = ground (arith, eq_iff id j) in
          let old_row : old ≡ r = ground (arith, eq_iff id j) in
          (
            row,
            subst (λ k. lookup k (insert id row rides) ≡ some row) same_id
                (lookup-insert_self id row rides),
            same ∙ ap (λ (x : Ride). x.rider_id) old_row,
            λ s filed live active.
                stays s (subst (λ k. lookup k a.sessions ≡ some s) (sym same_id) filed) live
                  (ap (λ (x : Ride). is_active_row x) old_row ∙ active),
          )
      | inr other ↦
          (r, lookup-insert_ne id j row rides other ∙ e, refl, λ s filed live active. active)
    ];
  }

  -- A change of the tables alone.
  pub db_Linked :
      (st : Live F) (db' : Db F)
      → Linked st
      → IsSound db'
      → RowsFollow st.agg st.db.rides db'.rides
      → Linked (record st { db = db' })
  db_Linked st db' h sound follow = record {
    registry = h.registry;
    tables = sound;
    held = λ id r' there' live'.
        let (r, there, live, rider) = follow.back id r' there' live' in
        let (s, filed, same) = h.held id r there live in (s, filed, same ∙ sym rider);
    rowed = λ id s filed.
        let (r, there, same, active) = h.rowed id s filed in
        let (r', there', rider, stays) = follow.on id r there in
        (r', there', rider ∙ same, λ live. stays s filed live (active live));
  }

  -- A new ride, in the tables and in the registry.
  pub add_Linked :
      (st : Live F) (db' : Db F) (row : Ride) (s : Session F)
      → Linked st
      → IsSound db'
      → db'.rides ≡ insert s.id row st.db.rides
      → lookup s.id st.db.rides ≡ none
      → row.rider_id ≡ s.rider_id
      → is_active_row row ≡ true
      → Inv s
      → Linked (record { agg = add st.agg s; db = db' })
  unfolding add
  add_Linked st db' row s h sound rows fresh rider active v =
      let unregistered : lookup s.id st.agg.sessions ≡ none =
        elim (Option-cases (lookup s.id st.agg.sessions)) [
          | inl gone ↦ gone
          | inr (t, filed) ↦ let (r, there, same, live) = h.rowed s.id t filed in cc (there, fresh)
        ] in
      record {
        registry = add-RegistryInv st.agg s h.registry v unregistered;
        tables = sound;
        held = λ id r there live.
            elim (insert-cases s.id id row r st.db.rides (ap (lookup id) (sym rows) ∙ there)) [
              | inl (p, q) ↦ (
                s,
                subst (λ k. lookup k (insert s.id s st.agg.sessions) ≡ some s) p
                    (lookup-insert_self s.id s st.agg.sessions),
                sym rider ∙ ap (λ (x : Ride). x.rider_id) q,
              )
              | inr (n, old) ↦
                  let (t, filed, same) = h.held id r old live in
                  (t, lookup-insert_ne s.id id s st.agg.sessions n ∙ filed, same)
            ];
        rowed = λ id t filed. elim (insert-cases s.id id s t st.agg.sessions filed) [
          | inl (p, q) ↦ (
            row,
            ap (lookup id) rows
                ∙ subst (λ k. lookup k (insert s.id row st.db.rides) ≡ some row) p
                    (lookup-insert_self s.id row st.db.rides),
            rider ∙ ap (λ (u : Session F). u.rider_id) q,
            λ live. active,
          )
          | inr (n, old) ↦
              let (r, there, same, live) = h.rowed id t old in
              (
                r,
                ap (lookup id) rows ∙ lookup-insert_ne s.id id row st.db.rides n ∙ there,
                same,
                live,
              )
        ];
      }
