-- ===== src/Rider/Trusted/Examples.antt =====
-- rider/trusted.go with two feeds, of which one reports a trip and the other one cannot be reached.
use vehicle_positions.Prelude.{ℕ, String, true, none, some, ◌*◌, List, [], ◌∷◌, ◌≡◌, refl}
use vehicle_positions.Prelude.Int.{ℤ, pos}
use vehicle_positions.Prelude.Time.{Time, second}
use vehicle_positions.Rider.Session.{TripKey}
use vehicle_positions.Rider.Trusted.{
  EntityOps, FetchRequest, FeedResponse, unreachable, answered, read, FeedState, TrustedFeed,
  request_failed, vehicle_of, new_trusted_feed, poll_one, poll, fetch,
}
use vehicle_positions.Rider.Trusted.Lookup.{lookup_trusted}
use vehicle_positions.Rider.Trusted.Polling.{last_usable, IsIdle, lookup_trusted-poll}

-- an entity is a vehicle id, a trip id and a timestamp
abbrev Entity : Type 0
Entity = String × String × ℕ

abbrev ops : EntityOps Entity ℤ
ops = record {
  has_vehicle = λ e. true;
  has_position = λ e. true;
  timestamp = λ e. e.2;
  trip_id = λ e. e.1;
  start_date = λ e. "20260101";
  vehicle_id = λ e. e.0;
  latitude = λ e. pos 47;
  longitude = λ e. pos 8;
}

abbrev key : TripKey
key = record { trip_id = "t1"; start_date = "20260101" }

abbrev message : List Entity
message = ("bus1", "t1", 100) ∷ ("bus2", "", 100) ∷ ("bus3", "t1", 120) ∷ ("bus4", "t1", 0) ∷ []

abbrev good : FetchRequest → FeedResponse Entity
good r = answered 200 (read 500 (some message)) "tag" "today"

abbrev gone : FetchRequest → FeedResponse Entity
gone r = unreachable

abbrev state : String → FeedState ℤ
state url = record {
  url = url;
  etag = "";
  last_modified = "";
  entities = [];
  last_success = 0;
  last_error = none;
}

abbrev feeds : List (FeedState ℤ)
feeds = state "a" ∷ state "b" ∷ []

abbrev one_answer : List (ℕ × Time)
one_answer = (1, 700) ∷ (0, 900) ∷ []

abbrev feed : TrustedFeed ℤ
feed = record { max_age = pos (90 * second); feeds = poll ops good one_answer feeds }

test_new_trusted_feed : (new_trusted_feed {F = ℤ} ("a" ∷ "b" ∷ []) (pos 1)).feeds ≡ feeds
unfolding new_trusted_feed
test_new_trusted_feed = refl

-- the last entity that has a trip and a timestamp
test_last_usable : last_usable ops key message none ≡ some (vehicle_of ops ("bus3", "t1", 120))
test_last_usable = refl

test_gone : (poll_one ops gone (state "a") 5).last_error ≡ some request_failed
unfolding poll_one fetch
test_gone = refl

idle : (url etag modified : String) → IsIdle ops (fetch ops gone url etag modified)
unfolding fetch
idle url etag modified = tt

lookup_trusted-poll_example :
    lookup_trusted (record feed { feeds = poll ops gone one_answer feed.feeds }) key 950
    ≡ lookup_trusted feed key 950
lookup_trusted-poll_example = lookup_trusted-poll ops gone feed one_answer key 950 idle
