-- ===== src/Grpc/Client.antt =====
-- The generated clients of src/proto, and the names under which tonic finds the servers.
use app_center_ratings.Prelude.{Option, none, some, ◌++◌, Text, text, Result, err}
use app_center_ratings.Auth.Status.{unknown, Status}
use app_center_ratings.Grpc.Routes.{
  Endpoint, authenticate, delete, vote, get_snap_votes, get_rating, get_chart, Service,
  rating_service, chart_service, user_service,
}

-- `NamedService::NAME` of the servers.
unfoldable pub service_name : Service → Text
service_name rating_service = text "ratings.features.app.App"
service_name chart_service = text "ratings.features.chart.Chart"
service_name user_service = text "ratings.features.user.User"

-- tonic's `GrpcMethod`, which goes with a request as an extension.
pub record GrpcMethod : Type 0 where
  pub service : Text
  pub method : Text

-- A request of a client: its message, and the extension of type `GrpcMethod`, if it has one.
pub record ClientRequest (M : Type 0) : Type 0 where
  pub message : M
  pub grpc_method : Option GrpcMethod

-- tonic's `Grpc` over a channel: `ready`, by its error if it is not, and `unary`, which sends a request
-- under a path.
pub record Inner (M R : Type 0) : Type 0 where
  pub not_ready : Option Text
  pub unary : ClientRequest M → Text → Result Status R

module _ {M R : Type 0} (inner : Inner M R) (req : ClientRequest M) where
  -- The body that the generator writes for each method.
  unfoldable pub unary_call : (path service method : Text) → Result Status R
  unary_call path service method = elim inner.not_ready [
    | some e ↦ err (record { code = unknown; message = text "Service was not ready: " ++ e })
    | none ↦
        inner.unary
          (record req { grpc_method = some (record { service = service; method = method }) }) path
  ]

  -- `AppClient::get_rating`.
  unfoldable pub get_rating_call : Result Status R
  get_rating_call =
      unary_call (text "/ratings.features.app.App/GetRating") (text "ratings.features.app.App")
        (text "GetRating")

  -- `ChartClient::get_chart`.
  unfoldable pub get_chart_call : Result Status R
  get_chart_call =
      unary_call (text "/ratings.features.chart.Chart/GetChart")
        (text "ratings.features.chart.Chart") (text "GetChart")

  -- `UserClient::authenticate`.
  unfoldable pub authenticate_call : Result Status R
  authenticate_call =
      unary_call (text "/ratings.features.user.User/Authenticate")
        (text "ratings.features.user.User") (text "Authenticate")

  -- `UserClient::delete`.
  unfoldable pub delete_call : Result Status R
  delete_call =
      unary_call (text "/ratings.features.user.User/Delete") (text "ratings.features.user.User")
        (text "Delete")

  -- `UserClient::vote`.
  unfoldable pub vote_call : Result Status R
  vote_call =
      unary_call (text "/ratings.features.user.User/Vote") (text "ratings.features.user.User")
        (text "Vote")

  -- `UserClient::get_snap_votes`.
  unfoldable pub get_snap_votes_call : Result Status R
  get_snap_votes_call =
      unary_call (text "/ratings.features.user.User/GetSnapVotes")
        (text "ratings.features.user.User") (text "GetSnapVotes")

  -- The client's method for a handler.
  abbrev pub call : Endpoint → Result Status R
  call get_rating = get_rating_call
  call get_chart = get_chart_call
  call authenticate = authenticate_call
  call delete = delete_call
  call vote = vote_call
  call get_snap_votes = get_snap_votes_call
