-- ===== src/Tests/Services.antt =====
-- The theorems on requests, at sample requests.
use app_center_ratings.Prelude.{
  Bool, false, ℕ, ◌+◌, ◌≡◌, ◌≢◌, ◌⊎◌, refl, true, Option, some, [], ◌∷◌, if◌then◌else◌, ltb, arith,
  Text, text, text_eq, Result, ok, err,
}
use app_center_ratings.Prelude.Int.{as_i32, as_u32}
use app_center_ratings.Auth.Status.{internal_server_error}
use app_center_ratings.Auth.Header.{split_whitespace, scan_parts, is_whitespace, ends_with}
use app_center_ratings.Auth.Jwt.{Claims, JwtError, invalid_shape, JsonWebToken}
use app_center_ratings.Auth.Middleware.{is_public, admit}
use app_center_ratings.Auth.Admission.{IsVerified, admit_cases}
use app_center_ratings.Db.Category.{Category, unspecified, week, timeframe_as_i32, category_as_i32}
use app_center_ratings.Db.Char.{char_store, char_eq_text, rtrim}
use app_center_ratings.Db.User.{create_or_seen, upsert_user_row, insert_user}
use app_center_ratings.Db.Summary.{total_of, positive_of}
use app_center_ratings.Db.Casting.{IsAccepted, previous, added, replaced}
use app_center_ratings.Auth.Layer.{
  InnerService, ready, AuthMiddleware, new_layer, layer, poll_ready, call_layer, call_layer-polled,
}
use app_center_ratings.Grpc.Voting.Answers.{VoteEnds, vote-VoteEnds}
use app_center_ratings.Grpc.User.{VoteRequest}
use app_center_ratings.Ratings.FixedPoint.{fixed_point}
use app_center_ratings.Grpc.Routes.{Endpoint, user_service, serve, user_server}
use app_center_ratings.Grpc.Access.{handlers_are_guarded}
use app_center_ratings.Grpc.User.{vote}
use app_center_ratings.Grpc.Voting.{vote_of, vote-counts}
use app_center_ratings.Grpc.Charts.{get_chart}
use app_center_ratings.Grpc.ChartRequests.{chart_key-injective, get_chart-refused}
use app_center_ratings.Tests.Samples.{
  nobody-ends, snap, session, user, one_user, claims, vote_request, passed_request, env, world,
}

-- Tokens that hold their claims in the open, under any key.
abbrev read_claims : ℕ → Text → Result (Unit {0}) Claims
read_claims now [] = err tt
read_claims now (exp ∷ sub) = if ltb now exp then ok (record { sub = sub; exp = exp }) else err tt

abbrev pub open_tokens : JsonWebToken
open_tokens = record {
  Key = Unit {0};
  LibError = Unit {0};
  from_base64_secret = λ secret. ok tt;
  encode = λ k c. ok (c.exp ∷ c.sub);
  decode = λ now k token. read_claims now token;
}

abbrev decode : Text → Result JwtError Claims
decode token = if text_eq token (text "token") then ok claims else err invalid_shape

is_passed : admit some decode vote_request ≡ ok passed_request
unfolding admit is_public ends_with text_eq split_whitespace scan_parts is_whitespace
is_passed = refl

is_led : serve user_service passed_request.path ≡ some Endpoint.vote
unfolding serve user_server text_eq
is_led = refl

vote-not-authenticate : Endpoint.vote ≢ Endpoint.authenticate
vote-not-authenticate h = ground arith

admit_cases_example :
    ((is_public vote_request.path ≡ true) × (passed_request ≡ vote_request))
    ⊎ ((c : Claims) × IsVerified some decode vote_request c
        × (passed_request ≡ record vote_request { claims = some c }))
admit_cases_example = admit_cases some decode vote_request is_passed

handlers_are_guarded_example :
    (c : Claims) × IsVerified some decode vote_request c × (passed_request.claims ≡ some c)
handlers_are_guarded_example =
    handlers_are_guarded some decode user_service Endpoint.vote vote_request is_passed is_led
      vote-not-authenticate

vote_of-IsAccepted : IsAccepted session (vote_of env claims passed_request.body) one_user user snap
unfolding create_or_seen upsert_user_row insert_user char_store char_eq_text rtrim text_eq as_i32
    as_u32
vote_of-IsAccepted = record { answered = refl; known = refl; fits = refl; above = refl }

vote-counts_example :
    ((vote env passed_request world).0 ≡ ok tt)
    × (total_of snap (vote env passed_request world).1.stores.tables.votes
        ≡ total_of snap one_user.votes
          + (if text_eq snap snap
              then added (previous (vote_of env claims passed_request.body) one_user user snap)
              else 0))
    × (positive_of snap (vote env passed_request world).1.stores.tables.votes
          + (if text_eq snap snap
              then replaced (previous (vote_of env claims passed_request.body) one_user user snap)
              else 0)
        ≡ positive_of snap one_user.votes + (if text_eq snap snap then 1 else 0))
vote-counts_example =
    vote-counts env passed_request claims world refl refl nobody-ends vote_of-IsAccepted snap

chart_key-injective_example :
    (◌≡◌ {A = Option Category} (some Category.games) (some Category.games)) × (week ≡ week)
chart_key-injective_example =
    chart_key-injective (some Category.games) (some Category.games) week week refl

week-not-unspecified : week ≢ unspecified
week-not-unspecified h = ground arith

get_chart-refused_example :
    get_chart fixed_point env
      (record {
        timeframe = timeframe_as_i32 week;
        category = some (category_as_i32 Category.games);
      })
      world
    ≡ (err internal_server_error, world)
get_chart-refused_example =
    get_chart-refused fixed_point env world week Category.games week-not-unspecified refl refl refl

vote-VoteEnds_example : VoteEnds env passed_request claims world
vote-VoteEnds_example = vote-VoteEnds env passed_request claims world refl

-- A service that is ready whenever it is asked, and whose clones are not until they are.
abbrev asked : InnerService Bool Text VoteRequest (Unit {0})
asked = record { poll_ready = λ s. (ready, true); clone = λ s. false; call = λ s request. ok tt }

abbrev layered : AuthMiddleware Bool
layered = layer (new_layer decode) false

is_polled : (poll_ready asked some layered).0 ≡ ready
unfolding poll_ready
is_polled = refl

is_called :
    (call_layer asked some (poll_ready asked some layered).1 vote_request).0.called
    ≡ some (true, passed_request)
unfolding poll_ready call_layer admit is_public ends_with text_eq split_whitespace scan_parts
    is_whitespace
is_called = refl

call_layer-polled_example :
    (true ≡ true)
    × (((is_public vote_request.path ≡ true) × (passed_request ≡ vote_request))
        ⊎ ((c : Claims) × IsVerified some decode vote_request c
            × (passed_request ≡ record vote_request { claims = some c })))
call_layer-polled_example =
    call_layer-polled asked some (λ s. s ≡ true) (λ s h. refl) layered vote_request is_polled
      is_called
