-- ===== src/Lib.antt =====
-- The ratings service of the app center: a gRPC server that authenticates clients by a hash, takes their
-- votes on revisions of snaps, and serves ratings of snaps and charts of the best rated ones.
--
-- A request passes the layer of src/middleware.rs, which lets in a public path or a token that
-- src/jwt.rs verifies; the generated servers of src/proto lead it to a handler of src/grpc; the handler
-- calls src/db for the tables of sql/migrations, src/ratings for bands, charts and what snapcraft.io
-- says of a snap, and the caches in front of both.
--
-- Db: src/db over the tables of sql/migrations. A statement is a function from the tables to a result
--   and the tables after it, run as PostgreSQL runs it: Db/Tables has the rows and errors, Db/Char how
--   CHAR(n) stores and compares, Db/User, Db/Vote, Db/Summary and Db/SnapCategories the statements by the
--   names of their Rust functions. Which statements the server answers and its clock come with a session.
--   Db/Ballots is a specification of what clients hold of snaps, without rows and ids. Db/Invariant,
--   Db/Rows, Db/Casting, Db/Repetition, Db/Deletion, Db/Grouping, Db/Charting, Db/Reading, Db/ReadBack, Db/Arrival
--   and the children of Db/Ballots hold the proofs.
-- Ratings: src/ratings. Ratings/Band and Ratings/Rating are rating.rs, Ratings/Chart is charts.rs,
--   Ratings/SnapcraftIo and Ratings/Update are mod.rs and categories.rs as one task runs them, and
--   Ratings/Protocol is categories.rs as a step relation of any number of tasks on one snap.
--   Ratings/Thresholds, Ratings/Sorting, Ratings/Ranking and the children of Ratings/Protocol are proofs.
-- Auth: src/jwt.rs (Auth/Jwt) and src/middleware.rs: Auth/Middleware is what the layer decides of a
--   request, with the functions of `str` of Auth/Header, Auth/Layer the layer as a service around another
--   one, Auth/Status how a request can fail; Auth/Admission and Auth/Opaque are proofs.
-- Grpc: src/grpc. Grpc/Routes is the match on paths of the generated servers, Grpc/Client the methods of
--   the generated clients, Grpc/Dispatch the way of a request through the layer to its handler, Grpc/World
--   the state and the surroundings of a request, Grpc/User, Grpc/App and Grpc/Charts the handlers with
--   their caches, each as one step. Grpc/Task/Handlers has the handlers as tasks, which others interrupt
--   between their accesses to the tables and the caches, Grpc/Requests the requests in sequence, and
--   Grpc/Pool the runtime: a list of tasks, to which requests arrive, which move on in any order, and
--   under which cached results expire. The rest are proofs: Grpc/Keeping says what a task keeps at each
--   access, Grpc/Task/Alone, Grpc/Task/Bounds and Grpc/Task/Accesses how it runs alone and how often it
--   accesses anything, and the children of Grpc/Pool what holds under every interleaving.
-- Proto: the enums of src/proto with their names.
-- Mock: mock_server/src/main.rs, the server that stands in for snapcraft.io in the tests: Mock/Server has
--   its state and handlers, Mock/Splitting and Mock/Finding are proofs, with what tests/common/mod.rs sends it.
-- Startup: how the service starts. Startup/Settings is src/config.rs with the outside's answers,
--   Startup/Pool the pool of src/db/mod.rs, Startup/Server is src/context.rs, `run_server` of
--   src/grpc/mod.rs and src/main.rs; a step passes on the pool's cell and a list of what was done.
--   Startup/Tls, Startup/Order and Startup/Port are proofs, over the refusals of Startup/Refusal.
-- Tests: the theorems at sample values, and in Tests/Repository unit tests of src/db/mod.rs and
--   src/ratings/rating.rs, run in the model;
--   Tests/TwoUpdates is a run of two votes on a snap without categories.
--
-- Parameters. Floating point is a record of operations (Ratings/Float); where a theorem needs that `<=`
-- is an order away from NaN it says so, and Ratings/FixedPoint meets those laws. The jsonwebtoken
-- library, the HTTP client with its URLs and JSON, the text of an error, tonic's `Grpc` under the
-- generated clients, tower's inner service, which service tonic gives a path to, how prost reads a
-- body as a message, and what the system answers while the service starts are arguments.
--
-- Bounds. Integers of w bits that the source casts wrap around (Prelude/Int); ids of rows and counts of
-- votes are not bounded, as they stay below 2 ^ 31 and 2 ^ 63. All functions end by their structure: there
-- is no fuel but that of a square root in the sample numbers, where it bounds the bits of the result, and
-- that of the digits of a port, which has 16 bits and so five digits at most.
--
-- Interleavings. What a task does between two of its accesses is one step with the access before it; a
-- statement is one access, and so is a look-up in a cache that holds its lock while it asks the database.
-- What the outside decides for a request is fixed when it arrives. Where a task waits on another one's
-- update of a snap's categories, the outside decides too whether that one notifies it: if so it goes on
-- when it does, without an access, and if not it ends there with no answer, a failure that nobody is
-- sent (Auth/Status). How such a wait comes about, and that it may never end, is with Ratings/Protocol,
-- where a task can also be dropped with its entry in the map. A handler whose future is dropped at any
-- other await, as tonic does when its client is gone, is a task that takes no further step.
--
-- Not modelled: logging, how the environment's variables become a configuration, the wire format, the
-- settings of the generated clients and servers (compression, limits, interceptors), and that a cached
-- result stays for a day before it expires. In the handlers as one step, requests for several names run
-- one after the other.
pub mod Prelude
pub mod Db
pub mod Ratings
pub mod Auth
pub mod Grpc
pub mod Proto
pub mod Mock
pub mod Startup
pub mod Tests
