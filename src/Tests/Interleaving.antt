-- ===== src/Tests/Interleaving.antt =====
-- The theorems on the tasks of src/grpc, where a stranger's deletion and an authentication are served at
-- one time.
use app_center_ratings.Prelude.{
  ◌≡◌, ◌↔◌, refl, ap, Bool, true, false, Bool-cases, inl, inr, Option, none, some, List, [], ◌∷◌,
  All, arith, if◌then◌else◌, Text, text, text_eq, Result, ok, err,
}
use app_center_ratings.Prelude.Int.{pos}
use app_center_ratings.Auth.Jwt.{Claims, JwtError, invalid_shape}
use app_center_ratings.Auth.Admission.{IsVerified}
use app_center_ratings.Auth.Middleware.{admit, is_public}
use app_center_ratings.Auth.Header.{ends_with}
use app_center_ratings.Db.Char.{char_store, rtrim}
use app_center_ratings.Db.Vote.{save_to_db}
use app_center_ratings.Db.Invariant.{IsValid}
use app_center_ratings.Db.Invariant.Runs.{Call}
use app_center_ratings.Db.Invariant.Votes.{save_to_db-IsValid}
use app_center_ratings.Db.Ballots.{ballots_of, selected, play_calls}
use app_center_ratings.Ratings.FixedPoint.{fixed_point}
use app_center_ratings.Grpc.Routes.{Service, user_service, serve, user_server}
use app_center_ratings.Grpc.World.{World}
use app_center_ratings.Grpc.Task.{in_order}
use app_center_ratings.Grpc.Keeping.{IsMadeBy}
use app_center_ratings.Grpc.Requests.{authenticate_with}
use app_center_ratings.Grpc.Dispatch.{Codec, Arrival, accept}
use app_center_ratings.Grpc.Ownership.{IsOther}
use app_center_ratings.Grpc.Pool.{Event, arrives, moves, expires, idle, happen, happen_all}
use app_center_ratings.Grpc.Pool.Refinement.{OwnedBy, happen_all-refines, happen_all-IsOther}
use app_center_ratings.Grpc.Pool.Answers.{HasPanicked, HasOpaque, happen_all-panics}
use app_center_ratings.Grpc.Pool.Progress.{HasAnswered, happen_all-answers}
use app_center_ratings.Grpc.Pool.Caches.{HasTrueCaches, happen_all-HasTrueCaches}
use app_center_ratings.Tests.Samples.{
  client, snap, session, one_user, one_user-IsValid, up_vote, env, empty_world,
}

abbrev stranger : Claims
stranger = record {
  sub = text "bbbbbbbbbbbbbbbbbbbbbbbbbbbbbbbbbbbbbbbbbbbbbbbbbbbbbbbbbbbbbbbb";
  exp = 87400;
}

abbrev decode : Text → Result JwtError Claims
decode token = if text_eq token (text "token") then ok stranger else err invalid_shape

-- Bodies that any of the user service's messages can be read from.
abbrev codec : Codec (Unit {0})
codec = record {
  error = text "failed to decode Protobuf message";
  authenticate_request = λ b. some client;
  delete_request = λ b. some tt;
  vote_request = λ b. some (record { snap_id = snap; snap_revision = pos 7; vote_up = true });
  get_snap_votes_request = λ b. some snap;
  get_rating_request = λ b. none;
  get_chart_request = λ b. none;
}

abbrev deletion : Arrival Text (Unit {0})
deletion = record {
  env = env;
  decode = decode;
  request = record {
    path = text "/ratings.features.user.User/Delete";
    authorization = some (text "Bearer token");
    claims = none;
    body = tt;
  };
}

abbrev authentication : Arrival Text (Unit {0})
authentication = record {
  env = env;
  decode = decode;
  request = record {
    path = text "/ratings.features.user.User/Authenticate";
    authorization = none;
    claims = none;
    body = tt;
  };
}

abbrev to_users : Text → Option Service
to_users path = some user_service

abbrev voted_world : World fixed_point.F32
voted_world = record empty_world {
  stores = record empty_world.stores { tables = (save_to_db session up_vote one_user).1 };
}

voted_world-IsValid : IsValid voted_world.stores.tables
voted_world-IsValid = save_to_db-IsValid session up_vote one_user one_user-IsValid

-- The authentication overtakes the deletion, and all that is cached expires.
abbrev events : List (Event Text (Unit {0}))
events =
    arrives deletion in_order
    ∷ arrives authentication in_order
    ∷ moves 1
    ∷ expires (λ key. true) (λ key. true)
    ∷ moves 0
    ∷ []

deletion_claims : (c : Claims) → IsVerified some decode deletion.request c → stranger ≡ c
deletion_claims c verified = elim (Bool-cases (text_eq verified.token (text "token"))) [
  | inl good ↦ ground (arith, verified.accepted)
  | inr bad ↦ absurd (ground (arith, verified.accepted))
]

events-OwnedBy : (Whose : Text → Type 0) → Whose stranger.sub → All (OwnedBy some Whose) events
events-OwnedBy Whose own = (
  λ c verified. rw (← deletion_claims c verified) own,
  (λ c verified. absurd (ground (arith, verified.sent)), (tt, (tt, (tt, tt)))),
)

happen_all-refines_example :
    IsValid
      (happen_all codec some to_users fixed_point events (idle voted_world)).world.stores.tables
    × ((cs : List Call) × All (IsMadeBy (λ sub. sub ≡ stranger.sub)) cs
        × (ballots_of
              (happen_all codec some to_users fixed_point events
                (idle voted_world)).world.stores.tables
            ≡ play_calls cs (ballots_of voted_world.stores.tables)))
happen_all-refines_example =
    happen_all-refines codec some to_users fixed_point (λ sub. sub ≡ stranger.sub) events
      voted_world voted_world-IsValid (events-OwnedBy (λ sub. sub ≡ stranger.sub) refl)

abbrev is_client : Option Text → Bool
is_client none = false
is_client (some hash) = text_eq hash client

stranger-IsOther : IsOther client stranger.sub
unfolding selected rtrim char_store text_eq
stranger-IsOther h = let clash : false ≡ true = ap is_client h in absurd (ground arith)

happen_all-IsOther_example :
    (ballots_of
        (happen_all codec some to_users fixed_point events
          (idle voted_world)).world.stores.tables).ballot
      client snap
      (pos 7)
    ≡ (ballots_of voted_world.stores.tables).ballot client snap (pos 7)
happen_all-IsOther_example =
    happen_all-IsOther codec some to_users fixed_point client events voted_world voted_world-IsValid
      (events-OwnedBy (IsOther client) stranger-IsOther) snap (pos 7)

-- The header of the deletion can not be read as text.
abbrev unreadable : Text → Option Text
unreadable header = none

happen_all-panics_example :
    HasPanicked (happen_all codec unreadable to_users fixed_point events (idle voted_world)).tasks
    ↔ HasOpaque unreadable events
happen_all-panics_example =
    happen_all-panics codec unreadable to_users fixed_point events voted_world

abbrev deletion_first : List (Event Text (Unit {0}))
deletion_first = arrives deletion in_order ∷ []

abbrev one_move_each : List (Event Text (Unit {0}))
one_move_each = moves 0 ∷ moves 1 ∷ []

authentication_accepted :
    accept {H = Text} codec some to_users authentication ≡ ok (authenticate_with client)
unfolding accept admit is_public ends_with serve user_server text_eq
authentication_accepted = refl

happen_all-answers_example :
    HasAnswered 1
      (happen_all codec some to_users fixed_point one_move_each (
        happen codec some to_users fixed_point
          (arrives authentication in_order)
          (happen_all codec some to_users fixed_point deletion_first (idle voted_world)))).tasks
unfolding happen_all happen
happen_all-answers_example =
    happen_all-answers codec some to_users fixed_point deletion_first one_move_each authentication
      in_order voted_world {rpc = authenticate_with client} {n = 1}
      (λ key chart found. absurd (ground arith)) authentication_accepted refl (omega arith)

happen_all-HasTrueCaches_example :
    HasTrueCaches fixed_point voted_world.stores.tables
      (happen_all codec some to_users fixed_point events (idle voted_world)).world
happen_all-HasTrueCaches_example =
    happen_all-HasTrueCaches codec some to_users fixed_point events voted_world (λ key. refl)
      (λ key. refl)
