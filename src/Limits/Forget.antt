-- ===== src/Limits/Forget.antt =====
-- ratelimit_login.go: `pruneStaleWindows` between the attempts.
use vehicle_positions.Prelude.{
  ℕ, ◌+◌, ◌≤◌, ◌<◌, String, none, some, length, ◌≡◌, sym, ◌∙◌, arith, not, if◌then◌else◌,
  Option-cases, Bool-cases, inl, inr,
}
use vehicle_positions.Prelude.Time.{Time, before}
use vehicle_positions.Prelude.Dict.{lookup, IsDict, lookup-keep_values, length-keep_values}
use vehicle_positions.Limits.{
  WindowEntry, Windows, allow_in_window, prune_stale_windows, login_window, max_tracked_logins,
}
use vehicle_positions.Limits.Window.{entry_next, unknown, over, entry_opened}

lookup-prune :
    (m : Windows) (cutoff : Time) (key : String)
    → IsDict m
    → lookup key (prune_stale_windows m cutoff) ≡ elim (lookup key m) [
      | none ↦ none
      | some e ↦ if not (before e.window_start cutoff) then some e else none
    ]
unfolding prune_stale_windows
lookup-prune m cutoff key h =
    lookup-keep_values (λ (e : WindowEntry). not (before e.window_start cutoff)) key m h

length-prune : (m : Windows) (cutoff : Time) → length (prune_stale_windows m cutoff) ≤ length m
unfolding prune_stale_windows
length-prune m cutoff =
    length-keep_values (λ (e : WindowEntry). not (before e.window_start cutoff)) m

-- What the next attempt of a key is told, and what is on file for it afterwards, do not depend on
-- whether windows that started before `cutoff` have been dropped, if the cutoff is at least a minute
-- old and the map has room.
pub allow-prune :
    (m : Windows) (cutoff now : Time) (key : String) (limit : ℕ)
    → IsDict m
    → length m < max_tracked_logins
    → cutoff + login_window ≤ now
    → ((allow_in_window (prune_stale_windows m cutoff) key limit now).1
        ≡ (allow_in_window m key limit now).1)
      × (lookup key (allow_in_window (prune_stale_windows m cutoff) key limit now).0
          ≡ lookup key (allow_in_window m key limit now).0)
allow-prune m cutoff now key limit h room old =
    let fewer = length-prune m cutoff in
    let room' : length (prune_stale_windows m cutoff) < max_tracked_logins = omega arith in
    let pruned = lookup-prune m cutoff key h in
    elim (Option-cases (lookup key m)) [
      | inl gone ↦
          let (filed, ok) = entry_opened key m limit now (unknown gone room) in
          let gone' : lookup key (prune_stale_windows m cutoff) ≡ none = ground arith in
          let (filed', ok') =
            entry_opened key (prune_stale_windows m cutoff) limit now (unknown gone' room') in
          (ok' ∙ sym ok, filed' ∙ sym filed)
      | inr (e, there) ↦ elim (Bool-cases (before e.window_start cutoff)) [
        | inl stale ↦
            let (filed, ok) = entry_opened key m limit now (over e there (ground arith)) in
            let gone' : lookup key (prune_stale_windows m cutoff) ≡ none = ground arith in
            let (filed', ok') =
              entry_opened key (prune_stale_windows m cutoff) limit now (unknown gone' room') in
            (ok' ∙ sym ok, filed' ∙ sym filed)
        | inr current ↦
            let there' : lookup key (prune_stale_windows m cutoff) ≡ some e = ground arith in
            let (filed, ok) = entry_next key m limit now e there in
            let (filed', ok') = entry_next key (prune_stale_windows m cutoff) limit now e there' in
            (ok' ∙ sym ok, filed' ∙ sym filed)
      ]
    ]
