-- ===== src/Lib.antt =====
-- The server of vehicle-positions: it takes positions from agency drivers and from riders' phones
-- and publishes a GTFS-realtime feed. These modules model its core in a cubical type theory and
-- prove what makes it correct. Paths are from the repository's root.
--
-- A rider's phone starts a ride on a trip and posts batches of points. Each point is projected
-- onto the trip's shape (rider/shape.go), placed on the schedule (rider/index.go) and judged
-- (rider/verify.go). The ride's session (rider/session.go) folds the verdicts into a state:
-- pending, verified or rejected. The aggregator (rider/aggregator.go) is the registry of live
-- sessions, and turns the verified rides of a trip into one vehicle position for the feed. A
-- finished ride moves its rider's score (rider/reputation.go), and the score sets the tier of the
-- next ride.
--
-- The rider API (rider_handlers.go) starts, feeds and ends rides: a session in the registry beside
-- a row in the database (rider_store.go). A ride ends in the registry first, is then filed with
-- its outcome in one transaction, and only then leaves the registry; the reaper (rider_wiring.go)
-- files what has run out or could not be filed.
--
-- A driver's vehicle reports to the tracker (tracker.go), which is the feed's first source and
-- tells the aggregator which trips are covered, as the agency's own feeds do, which are polled
-- (rider/trusted.go). Keyed limiters guard the endpoints (ratelimit.go, ratelimit_login.go,
-- ratelimit_refresh.go).
--
-- A driver stays logged in by refresh tokens that are used once (auth_refresh.go,
-- store_refresh_tokens.go).
--
-- Which file models which part:
--   Rider/Geometry.antt            rider/shape.go
--   Rider/Schedule.antt            rider/index.go: stop offsets and service calendars
--   Rider/Verify.antt              rider/verify.go
--   Rider/Session.antt, Step       rider/session.go: its types; its methods, one function each
--   Rider/Reputation.antt          rider/reputation.go
--   Rider/Aggregator.antt          rider/aggregator.go: the registry, its methods one function each
--   Rider/Aggregator/Batch.antt    rider/aggregator.go: ApplyBatch
--   Rider/Aggregator/Grouping and
--   Rider/Aggregator/Estimate.antt rider/aggregator.go: Estimates, TripStatus and what they call
--   Rides.antt, Store              rider_store.go, over db/query.sql and migrations/000012_riders.up.sql
--   RiderApi.antt                  rider_handlers.go: requests, their validation, what is stored
--   RiderApi/Service.antt          rider_handlers.go: finishRide, resolveRide; rider_wiring.go: the reaper
--   RiderApi/Handlers, Starts and
--   RiderApi/Positions.antt        rider_handlers.go: the handlers
--   Rider/Trusted.antt, Lookup     rider/trusted.go
--   RiderApi/Sources.antt          rider_wiring.go: trustedSources
--   Retention.antt                 retention.go, over DeleteLocationPointsBefore of db/query.sql
--   Tracker.antt                   tracker.go
--   Tokens.antt                    store_refresh_tokens.go, over db/query.sql and its table
--   Tokens/Handler.antt            auth_refresh.go: handleRefreshToken
--   Tokens/Pruning.antt            refresh_retention.go
--   Limits.antt                    ratelimit.go, ratelimit_login.go, ratelimit_refresh.go
-- The other files below a part prove what their first line says, and Examples holds runs.
--
-- How the code is read. A method that changes its receiver returns the new record. A method that
-- holds a mutex from its first line to its last is one step; ApplyBatch lets go of the lock, and
-- is two steps with a function between them that stands for every other call. A pointer that may
-- be nil is an Option. A map is an association list in which a key has one entry
-- (Prelude/Dict.antt), and the order of a range over it is the list's order: no result here
-- depends on it. time.Time is a number of nanoseconds since the zero time, and Sub saturates as
-- time.Duration does (Prelude/Time.antt). int is a natural number where the code only counts with
-- it, else an integer; none of them comes near 2^63. float64 and the functions of package math are
-- a parameter, FloatOps (Prelude/Float.antt): no law of them is assumed, except that one theorem
-- takes the order of floats that are not NaN (OrderLaws), so what is proved holds of rounded
-- arithmetic. The client of a trusted feed and the entities that it decodes are parameters. The
-- time zone database is a parameter, Zone, and the token bucket of golang.org/x/time/rate is one,
-- BucketOps. A transaction of a store is one function on tables, which are lists of rows or
-- dictionaries from the primary key; an error of the database, one at the commit too, is an
-- argument and leaves the tables as they were; calls of other requests between two transactions
-- are a function between them. SHA-256, bcrypt, crypto/rand and JWT signing are arguments. Every
-- loop is structural recursion but the retention sweep, which runs on fuel, one pass more than
-- there are rows; Retention/Pruning.antt shows that it does not run out.
--
-- Not modelled: the HTTP layer and the admin pages, the stores other than those of the refresh
-- tokens, the riders and the pruning of location points (they are wrappers that sqlc generates),
-- the tickers, JWT signing and bcrypt, the GTFS loader, logging, and the Android and iOS apps.
pub mod Limits
pub mod Prelude
pub mod Retention
pub mod Rider
pub mod RiderApi
pub mod Rides
pub mod Tokens
pub mod Tracker
