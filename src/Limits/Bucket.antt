-- ===== src/Limits/Bucket.antt =====
-- ratelimit.go: the token bucket of a key beside those of the other keys.
use vehicle_positions.Prelude.{
  ℕ, ◌+◌, ◌≤◌, ◌<◌, String, Bool, true, false, not, Option, none, some, List, [], ◌∷◌, length, All,
  ◌≡◌, refl, sym, ◌∙◌, ap, arith, leb, str_eq, eq_iff, Option-cases, Bool-cases, inl, inr, subst,
  if◌then◌else◌,
}
use vehicle_positions.Prelude.Time.{Time}
use vehicle_positions.Prelude.Dict.{
  lookup, insert, lookup-insert_self, lookup-insert_ne, length-insert,
}
use vehicle_positions.Limits.{
  BucketOps, RateLimiterEntry, VehicleRateLimiter, allow_key, take, max_tracked_rates,
}
use vehicle_positions.Limits.Window.{Attempts}

module _ {L : Type 0} ⦃ops : BucketOps L⦄ where
  open ops use {new_limiter, take_token}

  -- What `key` is told, in the order of its attempts.
  pub answers : String → VehicleRateLimiter L → Attempts → List Bool
  answers key v [] = []
  answers key v ((who, at) ∷ rest) =
      let told = answers key (allow_key v who at).0 rest in
      if str_eq who key then (allow_key v who at).1 ∷ told else told

  -- What a bucket of its own would tell it.
  pub lone_answers : String → L → Attempts → List Bool
  lone_answers key b [] = []
  lone_answers key b ((who, at) ∷ rest) =
      let told = lone_answers key (take_token b at).0 rest in
      let skipped = lone_answers key b rest in
      if str_eq who key then (take_token b at).1 ∷ told else skipped

  -- the bucket that a key's next attempt draws on
  abbrev pub bucket_of : ℕ → ℕ → Option (RateLimiterEntry L) → L
  bucket_of interval burst none = new_limiter interval burst
  bucket_of interval burst (some e) = e.limiter

  abbrev pub current : VehicleRateLimiter L → String → L
  current v key = bucket_of v.interval v.burst (lookup key v.limiters)

  allow_key-room :
      (v : VehicleRateLimiter L) (who : String) (at : Time)
      → length v.limiters < max_tracked_rates
      → allow_key v who at ≡ take v who (current v who) at
  unfolding allow_key
  allow_key-room v who at room =
      let space : leb max_tracked_rates (length v.limiters) ≡ false = ground arith in
      elim (Option-cases (lookup who v.limiters)) [
        | inl gone ↦ rw (gone, space, allow_key) refl
        | inr (e, there) ↦ rw (there, allow_key) refl
      ]

  length-insert_le :
      (k : String) (e : RateLimiterEntry L) (v : VehicleRateLimiter L)
      → length (insert k e v.limiters) ≤ length v.limiters + 1
  length-insert_le k e v = ground (arith, length-insert k e v.limiters)

  -- While the map has room, each key is limited by a bucket of its own: what it is told is what a
  -- bucket that serves it alone would tell it, however the attempts of other keys interleave.
  pub answers-lone :
      (key : String) (v : VehicleRateLimiter L) (tries : Attempts)
      → length v.limiters + length tries ≤ max_tracked_rates
      → answers key v tries ≡ lone_answers key (current v key) tries
  unfolding answers lone_answers
  answers-lone key v [] room = refl
  answers-lone key v ((who, at) ∷ rest) room =
      let b = current v who in
      let e : RateLimiterEntry L = record { limiter = (take_token b at).0; last_seen = at } in
      let v' = record v { limiters = insert who e v.limiters } in
      let step = allow_key-room v who at (omega arith) in
      let ih = answers-lone key v' rest (omega (arith, length-insert_le who e v)) in
      let split =
        ap
          (λ (r : VehicleRateLimiter L × Bool).
            if str_eq who key then r.1 ∷ answers key r.0 rest else answers key r.0 rest)
          step in
      elim (Bool-cases (str_eq who key)) [
        | inl same ↦
            let self : who ≡ key = (eq_iff who key).0 same in
            let filed : lookup key v'.limiters ≡ some e =
              ap (λ k. lookup k v'.limiters) (sym self) ∙ lookup-insert_self who e v.limiters in
            let cur = ap (bucket_of v.interval v.burst) filed in
            let drawn = ap (current v) self in
            split
            ∙ ap (λ c. if c then (take_token b at).1 ∷ answers key v' rest else answers key v' rest)
                same
            ∙ ap (λ x. (take_token b at).1 ∷ x) (ih ∙ ap (λ l. lone_answers key l rest) cur)
            ∙ ap (λ l. (take_token l at).1 ∷ lone_answers key (take_token l at).0 rest) drawn
            ∙ sym (
                ap
                  (λ c.
                    if c
                    then (take_token (current v key) at).1
                      ∷ lone_answers key (take_token (current v key) at).0 rest
                    else lone_answers key (current v key) rest)
                  same)
        | inr other ↦
            let cur =
              ap (bucket_of v.interval v.burst) (lookup-insert_ne who key e v.limiters other) in
            split
            ∙ ap (λ c. if c then (take_token b at).1 ∷ answers key v' rest else answers key v' rest)
                other
            ∙ (ih ∙ ap (λ l. lone_answers key l rest) cur)
            ∙ sym (
                ap
                  (λ c.
                    if c
                    then (take_token (current v key) at).1
                      ∷ lone_answers key (take_token (current v key) at).0 rest
                    else lone_answers key (current v key) rest)
                  other)
      ]

  -- What another key's attempt leaves as it was.
  record IsUndisturbed (key : String) (v v' : VehicleRateLimiter L) : Type 0 where
    known : lookup key v'.limiters ≡ lookup key v.limiters
    full : max_tracked_rates ≤ length v.limiters → max_tracked_rates ≤ length v'.limiters
    closed : v'.fail_closed ≡ v.fail_closed

  insert-IsUndisturbed :
      (key who : String) (v : VehicleRateLimiter L) (e : RateLimiterEntry L)
      → str_eq who key ≡ false
      → IsUndisturbed key v (record v { limiters = insert who e v.limiters })
  insert-IsUndisturbed key who v e other = record {
    known = lookup-insert_ne who key e v.limiters other;
    full = λ n. ground (arith, length-insert who e v.limiters);
    closed = refl;
  }

  allow_key-IsUndisturbed :
      (key who : String) (v : VehicleRateLimiter L) (at : Time)
      → str_eq who key ≡ false
      → IsUndisturbed key v (allow_key v who at).0
  unfolding allow_key
  allow_key-IsUndisturbed key who v at other = elim (Option-cases (lookup who v.limiters)) [
    | inl gone ↦ elim (Bool-cases (leb max_tracked_rates (length v.limiters))) [
      | inl full ↦
          rw (gone, full, allow_key) (record { known = refl; full = λ n. n; closed = refl })
      | inr space ↦
          rw (gone, space, allow_key)
            (insert-IsUndisturbed key who v
              (record {
                limiter = (take_token (new_limiter v.interval v.burst) at).0;
                last_seen = at;
              })
              other)
    ]
    | inr (b, there) ↦
        rw (there, allow_key)
          (insert-IsUndisturbed key who v
            (record { limiter = (take_token b.limiter at).0; last_seen = at }) other)
  ]

  allow_key-full :
      (v : VehicleRateLimiter L) (who : String) (at : Time)
      → lookup who v.limiters ≡ none
      → max_tracked_rates ≤ length v.limiters
      → allow_key v who at ≡ (v, not v.fail_closed)
  unfolding allow_key
  allow_key-full v who at gone n =
      let full : leb max_tracked_rates (length v.limiters) ≡ true = ground arith in
      rw (gone, full, allow_key) refl

  -- A key that is not known to a full map is told the same at every attempt, however the attempts of
  -- other keys interleave: no if the limiter fails closed, yes if it does not.
  pub answers_full :
      (key : String) (v : VehicleRateLimiter L) (tries : Attempts)
      → lookup key v.limiters ≡ none
      → max_tracked_rates ≤ length v.limiters
      → All (λ told. told ≡ not v.fail_closed) (answers key v tries)
  unfolding answers
  answers_full key v [] gone n = tt
  answers_full key v ((who, at) ∷ rest) gone n = elim (Bool-cases (str_eq who key)) [
    | inl same ↦
        let self : who ≡ key = (eq_iff who key).0 same in
        let step = allow_key-full v who at (ap (λ k. lookup k v.limiters) self ∙ gone) n in
        rw (same, step) (refl, answers_full key v rest gone n)
    | inr other ↦
        let h = allow_key-IsUndisturbed key who v at other in
        rw other (
          subst (λ c. All (λ told. told ≡ not c) (answers key (allow_key v who at).0 rest)) h.closed
            (answers_full key (allow_key v who at).0 rest (h.known ∙ gone) (h.full n)))
  ]
