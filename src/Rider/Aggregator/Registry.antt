-- ===== src/Rider/Aggregator/Registry.antt =====
-- rider/aggregator.go: what holds of the registry whatever calls it receives.
use vehicle_positions.Prelude.{
  String, false, none, some, ◌≡◌, refl, sym, ap, ◌∙◌, arith, str_eq, eq_iff, Option-cases,
  Bool-cases, inl, inr, subst, if◌then◌else◌,
}
use vehicle_positions.Prelude.Time.{Time}
use vehicle_positions.Prelude.Dict.{
  Dict, lookup, insert, delete, IsDict, lookup-insert, lookup-delete, insert-IsDict, delete-IsDict,
  insert-cases, delete-cases, lookup-insert_self, lookup-insert_ne, lookup-delete_ne,
}
use vehicle_positions.Rider.Session.{EndReason, Tier, Session}
use vehicle_positions.Rider.Session.Invariant.{Inv, end_session-Inv, set_tier-Inv}
use vehicle_positions.Rider.Session.Step.{end_session}
use vehicle_positions.Rider.Session.Step as Step
use vehicle_positions.Rider.Aggregator.{
  Aggregator, add, end_ride, set_tier, remove_locked, active_for_rider_locked, ride_of_rider,
}

module _ {F : Type 0} where
  pub record RegistryInv (a : Aggregator F) : Type 0 where
    -- every session is filed once, under its own id, and is sound
    pub dict : IsDict a.sessions
    pub keyed : (id : String) (s : Session F) → lookup id a.sessions ≡ some s → s.id ≡ id
    pub sound : (id : String) (s : Session F) → lookup id a.sessions ≡ some s → Inv s
    -- a rider's entry names a registered session of that rider
    pub owned :
        (r id : String)
        → lookup r a.by_rider ≡ some id
        → (s : Session F) × (lookup id a.sessions ≡ some s) × (s.rider_id ≡ r)

  -- Replacing a registered session by one of the same id and rider keeps the invariant.
  pub update-RegistryInv :
      (a : Aggregator F) (id : String) (s s' : Session F)
      → RegistryInv a
      → lookup id a.sessions ≡ some s
      → s'.id ≡ s.id
      → s'.rider_id ≡ s.rider_id
      → Inv s'
      → RegistryInv (record a { sessions = insert id s' a.sessions })
  update-RegistryInv a id s s' h there same_id same_rider v = record {
    dict = insert-IsDict id s' a.sessions h.dict;
    keyed = λ j t e. elim (insert-cases id j s' t a.sessions e) [
      | inl (p, q) ↦ ap (λ (u : Session F). u.id) (sym q) ∙ same_id ∙ h.keyed id s there ∙ p
      | inr (n, old) ↦ h.keyed j t old
    ];
    sound = λ j t e. elim (insert-cases id j s' t a.sessions e) [
      | inl (p, q) ↦ subst (λ (u : Session F). Inv u) q v
      | inr (n, old) ↦ h.sound j t old
    ];
    owned = λ r j e.
        let (t, filed, rider) = h.owned r j e in
        elim (Bool-cases (str_eq id j)) [
          | inl same ↦
              (s', ground (arith, lookup-insert id j s' a.sessions), ground (arith, eq_iff id j))
          | inr other ↦ (t, lookup-insert_ne id j s' a.sessions other ∙ filed, rider)
        ];
  }

  pub add-RegistryInv :
      (a : Aggregator F) (s : Session F)
      → RegistryInv a
      → Inv s
      → lookup s.id a.sessions ≡ none
      → RegistryInv (add a s)
  unfolding add
  add-RegistryInv a s h v fresh = record {
    dict = insert-IsDict s.id s a.sessions h.dict;
    keyed = λ j t e. elim (insert-cases s.id j s t a.sessions e) [
      | inl (p, q) ↦ ap (λ (u : Session F). u.id) (sym q) ∙ p
      | inr (n, old) ↦ h.keyed j t old
    ];
    sound = λ j t e. elim (insert-cases s.id j s t a.sessions e) [
      | inl (p, q) ↦ subst (λ (u : Session F). Inv u) q v
      | inr (n, old) ↦ h.sound j t old
    ];
    owned = λ r j e. elim (insert-cases s.rider_id r s.id j a.by_rider e) [
      | inl (p, q) ↦ (
        s,
        subst (λ k. lookup k (insert s.id s a.sessions) ≡ some s) q
            (lookup-insert_self s.id s a.sessions),
        p,
      )
      | inr (n, old) ↦
          let (t, filed, rider) = h.owned r j old in
          elim (Bool-cases (str_eq s.id j)) [
            | inl same ↦ ground (arith, eq_iff s.id j)
            | inr other ↦ (t, lookup-insert_ne s.id j s a.sessions other ∙ filed, rider)
          ]
    ];
  }

  pub end_ride-RegistryInv :
      (a : Aggregator F) (id : String) (r : EndReason) (now : Time)
      → RegistryInv a
      → RegistryInv (end_ride a id r now).0
  unfolding end_ride
  end_ride-RegistryInv a id r now h = elim (Option-cases (lookup id a.sessions)) [
    | inl gone ↦ rw (gone, end_ride) h
    | inr (s, there) ↦
        rw (there, end_ride)
          (update-RegistryInv a id s (end_session s r now) h there (ground arith) (ground arith)
            (end_session-Inv s r now (h.sound id s there)))
  ]

  pub active-registered :
      (a : Aggregator F) (r : String) (s : Session F)
      → active_for_rider_locked a r ≡ some s
      → (id : String) × (lookup r a.by_rider ≡ some id)
        × (lookup id a.sessions ≡ some s)
        × (s.ended ≡ false)
  unfolding active_for_rider_locked
  active-registered a r s e = elim (Option-cases (lookup r a.by_rider)) [
    | inl gone ↦ ground arith
    | inr (id, there) ↦ (id, there, ground arith, ground arith)
  ]

  pub set_tier-RegistryInv :
      (a : Aggregator F) (r : String) (t : Tier) → RegistryInv a → RegistryInv (set_tier a r t)
  unfolding set_tier Step.set_tier
  set_tier-RegistryInv a r t h = elim (Option-cases (active_for_rider_locked a r)) [
    | inl idle ↦ rw (idle, set_tier) h
    | inr (s, active) ↦
        let (id, ours, there, live) = active-registered a r s active in
        rw (active, set_tier)
          (subst
            (λ k. RegistryInv (record a { sessions = insert k (record s { tier = t }) a.sessions }))
            (sym (h.keyed id s there))
            (update-RegistryInv a id s (record s { tier = t }) h there refl refl
              (set_tier-Inv s t (h.sound id s there))))
  ]

  -- What is left of the riders' entries when `s`, filed under `id`, goes.
  abbrev entries_without : Aggregator F → String → Session F → Dict String
  entries_without a id s =
      if str_eq (ride_of_rider (lookup s.rider_id a.by_rider)) id
      then delete s.rider_id a.by_rider
      else a.by_rider

  kept_entry :
      (a : Aggregator F) (id r j : String) (s : Session F)
      → RegistryInv a
      → lookup id a.sessions ≡ some s
      → lookup r (entries_without a id s) ≡ some j
      → (lookup r a.by_rider ≡ some j) × (str_eq id j ≡ false)
  kept_entry a id r j s h there e =
      let old : lookup r a.by_rider ≡ some j =
        ground (arith, lookup-delete s.rider_id r a.by_rider) in
      let (t, filed, rider) = h.owned r j old in
      (
        old,
        ground (
          arith,
          lookup-delete s.rider_id r a.by_rider,
          eq_iff id j,
          eq_iff s.rider_id r,
          eq_iff (ride_of_rider (lookup s.rider_id a.by_rider)) id,
        ),
      )

  pub remove-RegistryInv :
      (a : Aggregator F) (id : String) → RegistryInv a → RegistryInv (remove_locked a id).0
  unfolding remove_locked
  remove-RegistryInv a id h = elim (Option-cases (lookup id a.sessions)) [
    | inl gone ↦ rw (gone, remove_locked) h
    | inr (s, there) ↦
        rw (there, remove_locked)
          (record {
            dict = delete-IsDict id a.sessions h.dict;
            keyed = λ j t e. h.keyed j t (delete-cases id j t a.sessions e).1;
            sound = λ j t e. h.sound j t (delete-cases id j t a.sessions e).1;
            owned = λ r j e.
                let (old, other) = kept_entry a id r j s h there e in
                let (t, filed, rider) = h.owned r j old in
                (t, lookup-delete_ne id j a.sessions other ∙ filed, rider);
          })
  ]
