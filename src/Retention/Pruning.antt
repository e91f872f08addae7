-- ===== src/Retention/Pruning.antt =====
-- retention.go: what a sweep does to the rows.
use vehicle_positions.Prelude.{
  ℕ, zero, suc, ◌+◌, ◌-◌, ◌≤◌, ◌<◌, Bool, false, some, List, [], ◌∷◌, ◌++◌, length, keep, any, ltb,
  ◌≡◌, ◌≢◌, refl, ap, ◌∙◌, arith, Bool-cases, inl, inr, length-keep, length-append, if◌then◌else◌,
}
use vehicle_positions.Prelude.Int.{ℤ, pos_part}
use vehicle_positions.Prelude.Time.{Time, Duration, time_back}
use vehicle_positions.Prelude.Sort.{sort, length-sort, any-sort}
use vehicle_positions.Retention.{
  LocationPoint, LocationPruner, new_location_pruner, is_expired, is_kept, drop_first,
  received_before, delete_location_points_before, Sweep, drained, out_of_fuel, prune_from,
  prune_all,
}

any_kept-keep :
    (cutoff : Time) (ps : List LocationPoint)
    → any (is_kept cutoff) (keep (is_expired cutoff) ps) ≡ false
unfolding any keep
any_kept-keep cutoff [] = refl
any_kept-keep cutoff (p ∷ ps) = ground (arith, any_kept-keep cutoff ps)

-- What is left of a list of expired rows is expired.
keep-drop_first :
    (cutoff : Time) (n : ℕ) (ps : List LocationPoint)
    → any (is_kept cutoff) ps ≡ false
    → (keep (is_kept cutoff) (drop_first n ps) ≡ [])
      × (length (keep (is_expired cutoff) (drop_first n ps)) ≡ length ps - n)
unfolding any keep
keep-drop_first cutoff zero [] h = (refl, refl)
keep-drop_first cutoff (suc n) [] h = (refl, omega arith)
keep-drop_first cutoff zero (p ∷ ps) h = ground (arith, keep-drop_first cutoff zero ps)
keep-drop_first cutoff (suc n) (p ∷ ps) h = ground (arith, keep-drop_first cutoff n ps)

keep-append :
    (q : LocationPoint → Bool) (ps rs : List LocationPoint)
    → keep q (ps ++ rs) ≡ keep q ps ++ keep q rs
unfolding keep
keep-append q [] rs = refl
keep-append q (p ∷ ps) rs = ground (arith, keep-append q ps rs)

keep-keep :
    (cutoff : Time) (ps : List LocationPoint)
    → (keep (is_kept cutoff) (keep (is_kept cutoff) ps) ≡ keep (is_kept cutoff) ps)
      × (keep (is_expired cutoff) (keep (is_kept cutoff) ps) ≡ [])
unfolding keep
keep-keep cutoff [] = (refl, refl)
keep-keep cutoff (p ∷ ps) = ground (arith, keep-keep cutoff ps)

abbrev pub expired_count : Time → List LocationPoint → ℕ
expired_count cutoff ps = length (keep (is_expired cutoff) ps)

delete_batch :
    (cutoff : Time) (n : ℕ) (ps : List LocationPoint)
    → (keep (is_kept cutoff) (delete_location_points_before cutoff n ps).0
        ≡ keep (is_kept cutoff) ps)
      × (expired_count cutoff (delete_location_points_before cutoff n ps).0
          ≡ expired_count cutoff ps - n)
unfolding delete_location_points_before
delete_batch cutoff n ps =
    let expired = keep (is_expired cutoff) ps in
    let sorted = sort received_before expired in
    let kept = keep (is_kept cutoff) ps in
    let over = any-sort received_before (is_kept cutoff) expired ∙ any_kept-keep cutoff ps in
    let (none_kept, count) = keep-drop_first cutoff n sorted over in
    let (again, gone) = keep-keep cutoff ps in
    (
      keep-append (is_kept cutoff) (drop_first n sorted) kept ∙ rw (none_kept, again) refl,
      ap length (keep-append (is_expired cutoff) (drop_first n sorted) kept)
          ∙ length-append (keep (is_expired cutoff) (drop_first n sorted))
              (keep (is_expired cutoff) kept)
          ∙ rw gone (omega (arith, count, length-sort received_before expired)),
    )

deleted_count :
    (cutoff : Time) (n : ℕ) (ps : List LocationPoint)
    → (delete_location_points_before cutoff n ps).1
      ≡ (if ltb n (expired_count cutoff ps) then n else expired_count cutoff ps)
unfolding delete_location_points_before
deleted_count cutoff n ps =
    ap (λ c. if ltb n c then n else c) (length-sort received_before (keep (is_expired cutoff) ps))

-- What a sweep that began with `total` deleted rows did to the rows.
pub record IsSwept (stops : ℕ → Bool) (total : ℕ) (cutoff : Time) (ps : List LocationPoint)
    (result : List LocationPoint × Sweep) : Type 0 where
  pub kept : keep (is_kept cutoff) result.0 ≡ keep (is_kept cutoff) ps
  pub ends : result.1 ≢ out_of_fuel
  pub all_gone :
      (k : ℕ)
      → result.1 ≡ drained k
      → (expired_count cutoff result.0 ≡ 0) × (k ≡ total + expired_count cutoff ps)
  pub drains : ((i : ℕ) → stops i ≡ false) → (k : ℕ) × (result.1 ≡ drained k)

prune_from-IsSwept :
    (fuel : ℕ) (stops : ℕ → Bool) (i total : ℕ) (cutoff : Time) (n : ℕ) (ps : List LocationPoint)
    → 1 ≤ n
    → expired_count cutoff ps < fuel
    → IsSwept stops total cutoff ps (prune_from fuel stops i total cutoff n ps)
unfolding prune_from
prune_from-IsSwept zero stops i total cutoff n ps some_batch enough = ground arith
prune_from-IsSwept (suc fuel) stops i total cutoff n ps some_batch enough =
    let left = (delete_location_points_before cutoff n ps).0 in
    let deleted = (delete_location_points_before cutoff n ps).1 in
    let (same, fewer) = delete_batch cutoff n ps in
    let count = deleted_count cutoff n ps in
    elim (Bool-cases (stops i)) [
      | inl halted ↦
          rw (halted, prune_from)
            (record {
              kept = refl;
              ends = λ e. cc e;
              all_gone = λ k e. cc e;
              drains = λ never. cc (never i, halted);
            })
      | inr goes ↦ elim (Bool-cases (ltb deleted n)) [
        | inl short ↦
            rw (goes, short, prune_from)
              (record {
                kept = same;
                ends = λ e. cc e;
                all_gone = λ k e. ground arith;
                drains = λ never. (total + deleted, refl);
              })
        | inr full ↦
            let rest =
              prune_from-IsSwept fuel stops (suc i) (total + deleted) cutoff n left some_batch
                (ground arith) in
            rw (goes, full, prune_from)
              (record {
                kept = rest.kept ∙ same;
                ends = rest.ends;
                all_gone =
                    λ k e. let (none_left, sum) = rest.all_gone k e in (none_left, ground arith);
                drains = rest.drains;
              })
      ]
    ]

valid_batch :
    (retention interval : Duration) (batch_size : ℤ) (p : LocationPruner)
    → new_location_pruner retention interval batch_size ≡ some p
    → 1 ≤ pos_part p.batch_size
unfolding new_location_pruner
valid_batch retention interval batch_size p e = ground arith

-- A pruner that could be made, whatever its settings, ends every sweep after finitely many batches.
-- No row that is younger than the cutoff is touched, even where a pass fails or the pruner is stopped;
-- a sweep that comes to its end has deleted every expired row and counts them, and it comes to its end
-- unless it is stopped or a pass fails.
pub prune_all-IsSwept :
    (retention interval : Duration) (batch_size : ℤ) (p : LocationPruner) (stops : ℕ → Bool)
    (now : Time) (ps : List LocationPoint)
    → new_location_pruner retention interval batch_size ≡ some p
    → IsSwept stops 0 (time_back now (pos_part p.retention)) ps (prune_all p stops now ps)
unfolding prune_all
prune_all-IsSwept retention interval batch_size p stops now ps e =
    let cutoff = time_back now (pos_part p.retention) in
    prune_from-IsSwept (suc (length ps)) stops 0 0 cutoff (pos_part p.batch_size) ps
      (valid_batch retention interval batch_size p e)
      (omega (arith, length-keep (is_expired cutoff) ps))
