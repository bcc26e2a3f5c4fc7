-- ===== src/Tests/Samples.antt =====
-- The client, the snap, the session and the tables that the tests use.
use app_center_ratings.Prelude.{◌≢◌, arith, refl, true, none, some, Text, text, text_eq, ok}
use app_center_ratings.Prelude.Int.{pos, as_i32}
use app_center_ratings.Db.Char.{char_store, char_eq_text, rtrim, IsTrimmed}
use app_center_ratings.Db.Tables.{User, Tables, Session, migrated}
use app_center_ratings.Db.User.{create_or_seen, upsert_user_row, insert_user}
use app_center_ratings.Db.Vote.{Vote}
use app_center_ratings.Db.Invariant.{IsValid, migrated-IsValid}
use app_center_ratings.Db.Invariant.Users.{create_or_seen-IsValid}
use app_center_ratings.Db.Casting.{IsAccepted}
use app_center_ratings.Auth.Jwt.{Claims}
use app_center_ratings.Auth.Middleware.{Request}
use app_center_ratings.Ratings.FixedPoint.{fixed_point}
use app_center_ratings.Ratings.Update.{nobody, never_notifies}
use app_center_ratings.Grpc.World.{World, Env}
use app_center_ratings.Grpc.User.{VoteRequest}

abbrev pub client : Text
client = text "aaaaaaaaaaaaaaaaaaaaaaaaaaaaaaaaaaaaaaaaaaaaaaaaaaaaaaaaaaaaaaaa"

abbrev pub snap : Text
snap = text "NeoQngJVBf2wKF1qzmr7nmBAG3ydkQBh"

-- A session in which every statement is answered.
abbrev pub session : Session
session = record { answers = λ _. true; now = 1000; week_ago = 700; month_ago = 100 }

abbrev pub user : User
user = record { id = 1; client_hash = client; created = 1000; last_seen = 1000 }

abbrev pub one_user : Tables
one_user = (create_or_seen session client migrated).1

pub one_user-IsValid : IsValid one_user
one_user-IsValid = create_or_seen-IsValid session client migrated migrated-IsValid

abbrev pub up_vote : Vote
up_vote = record {
  client_hash = client;
  snap_id = snap;
  snap_revision = 7;
  vote_up = true;
  timestamp = 1000;
}

pub up_vote-IsAccepted : IsAccepted session up_vote one_user user snap
unfolding create_or_seen upsert_user_row insert_user char_store char_eq_text rtrim text_eq as_i32
up_vote-IsAccepted = record { answered = refl; known = refl; fits = refl; above = refl }

pub snap-IsTrimmed : IsTrimmed snap
unfolding rtrim
snap-IsTrimmed = refl

abbrev pub claims : Claims
claims = record { sub = client; exp = 87400 }

abbrev pub vote_request : Request Text VoteRequest
vote_request = record {
  path = text "/ratings.features.user.User/Vote";
  authorization = some (text "Bearer token");
  claims = none;
  body = record { snap_id = snap; snap_revision = pos 7; vote_up = true };
}

abbrev pub passed_request : Request Text VoteRequest
passed_request = record vote_request { claims = some claims }

-- No answer comes from snapcraft.io, and no other task runs.
abbrev pub env : Env
env = record {
  session = session;
  connection = ok tt;
  jwt_encode = λ sub. ok (text "token");
  to_string = λ e. text "error";
  web = record {
    parse_url = λ base. none;
    join = λ base path. none;
    get = λ url query. none;
    assertions_from_str = λ s. none;
    find_from_str = λ s. none;
  };
  snapcraft_io_uri = text "https://api.snapcraft.io/v2/";
  other_update = λ snap_id. nobody;
}

abbrev pub world : World fixed_point.F32
world = record {
  stores = record { tables = one_user; names = λ k. none };
  summaries = λ k. none;
  charts = λ k. none;
}

abbrev pub empty_world : World fixed_point.F32
empty_world = record world { stores = record world.stores { tables = migrated } }

pub nobody-ends : nobody ≢ never_notifies
nobody-ends e = ground arith
