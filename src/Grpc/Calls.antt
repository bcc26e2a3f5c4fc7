-- ===== src/Grpc/Calls.antt =====
-- Where a call of a generated client arrives among the generated servers of src/proto.
use app_center_ratings.Prelude.{
  ◌≡◌, refl, ◌∙◌, Bool, true, false, Bool-cases, Option-cases, inl, inr, if◌then◌else◌, none, some,
  ◌++◌, arith, Text, text, text_eq, err,
}
use app_center_ratings.Auth.Status.{unknown}
use app_center_ratings.Grpc.Routes.{
  Endpoint, authenticate, delete, vote, get_snap_votes, get_rating, get_chart, Service,
  rating_service, chart_service, user_service, serve, user_server, app_server, chart_server,
}
use app_center_ratings.Grpc.Access.{endpoint_path}
use app_center_ratings.Grpc.Client.{
  service_name, GrpcMethod, ClientRequest, Inner, unary_call, get_rating_call, get_chart_call,
  authenticate_call, delete_call, vote_call, get_snap_votes_call, call,
}

abbrev service_of : Endpoint → Service
service_of get_rating = rating_service
service_of get_chart = chart_service
service_of _ = user_service

abbrev is_of : Service → Endpoint → Bool
is_of rating_service get_rating = true
is_of chart_service get_chart = true
is_of user_service authenticate = true
is_of user_service delete = true
is_of user_service vote = true
is_of user_service get_snap_votes = true
is_of _ _ = false

is_of_sound : (s : Service) (e : Endpoint) → is_of s e ≡ true → s ≡ service_of e
is_of_sound rating_service get_rating h = refl
is_of_sound chart_service get_chart h = refl
is_of_sound user_service authenticate h = refl
is_of_sound user_service delete h = refl
is_of_sound user_service vote h = refl
is_of_sound user_service get_snap_votes h = refl
is_of_sound _ _ h = absurd (ground arith)

-- Where the path of a handler leads in each of the services.
serve-endpoint_path :
    (s : Service) (e : Endpoint) → serve s (endpoint_path e) ≡ (if is_of s e then some e else none)
unfolding serve user_server app_server chart_server text_eq
serve-endpoint_path rating_service authenticate = refl
serve-endpoint_path chart_service authenticate = refl
serve-endpoint_path user_service authenticate = refl
serve-endpoint_path _ _ = refl

-- A path that names a service and a method of it, and leads to one handler of that service alone.
pub record Names (path : Text) (called : GrpcMethod) (e : Endpoint) : Type 0 where
  pub service : Service
  pub named : called.service ≡ service_name service
  pub path_of : path ≡ text "/" ++ (called.service ++ (text "/" ++ called.method))
  pub arrives : serve service path ≡ some e
  pub alone : (s : Service) (d : Endpoint) → serve s path ≡ some d → (s ≡ service) × (d ≡ e)

endpoint_path_alone :
    (e : Endpoint) (s : Service) (d : Endpoint)
    → serve s (endpoint_path e) ≡ some d
    → (s ≡ service_of e) × (d ≡ e)
endpoint_path_alone e s d h = elim (Bool-cases (is_of s e)) [
  | inl own ↦ (is_of_sound s e own, ground (arith, serve-endpoint_path s e))
  | inr other ↦ absurd (ground (arith, serve-endpoint_path s e))
]

abbrev method_of : Endpoint → Text
method_of authenticate = text "Authenticate"
method_of delete = text "Delete"
method_of vote = text "Vote"
method_of get_snap_votes = text "GetSnapVotes"
method_of get_rating = text "GetRating"
method_of get_chart = text "GetChart"

abbrev called_of : Endpoint → GrpcMethod
called_of e = record { service = service_name (service_of e); method = method_of e }

endpoint_path_split :
    (e : Endpoint)
    → endpoint_path e ≡ text "/" ++ (service_name (service_of e) ++ (text "/" ++ method_of e))
unfolding service_name
endpoint_path_split authenticate = refl
endpoint_path_split _ = refl

endpoint_path_arrives : (e : Endpoint) → serve (service_of e) (endpoint_path e) ≡ some e
unfolding serve user_server app_server chart_server text_eq
endpoint_path_arrives authenticate = refl
endpoint_path_arrives _ = refl

endpoint_path-Names : (e : Endpoint) → Names (endpoint_path e) (called_of e) e
endpoint_path-Names e = record {
  service = service_of e;
  named = refl;
  path_of = endpoint_path_split e;
  arrives = endpoint_path_arrives e;
  alone = endpoint_path_alone e;
}

module _ {M R : Type 0} (inner : Inner M R) (req : ClientRequest M) where
  -- The client is not ready, which the caller is told, or the request is sent as it is, under a path
  -- and a method of the handler.
  pub data Sends (e : Endpoint) : Type 0 where
    refused :
        (error : Text)
        → inner.not_ready ≡ some error
        → call inner req e
          ≡ err (record { code = unknown; message = text "Service was not ready: " ++ error })
        → Sends e
    sent :
        (path : Text) (called : GrpcMethod)
        → inner.not_ready ≡ none
        → call inner req e ≡ inner.unary (record req { grpc_method = some called }) path
        → Names path called e
        → Sends e

  call_lem :
      (e : Endpoint)
      → call inner req e
        ≡ unary_call inner req (endpoint_path e) (service_name (service_of e)) (method_of e)
  unfolding get_rating_call get_chart_call authenticate_call delete_call vote_call
      get_snap_votes_call service_name
  call_lem authenticate = refl
  call_lem _ = refl

  -- A call of a generated client, for any of the handlers, tells its caller when the channel
  -- is not ready, and otherwise is sent with its message as it is, under a path and a method
  -- that name the same service and method, and which the generated server of that service
  -- leads to that handler, while no other service leads it to any.
  pub call-Sends : (e : Endpoint) → Sends e
  unfolding unary_call
  call-Sends e = elim (Option-cases inner.not_ready) [
    | inr (error, down) ↦ refused error down (call_lem e ∙ rw down refl)
    | inl up ↦
        sent (endpoint_path e) (called_of e) up (call_lem e ∙ rw up refl) (endpoint_path-Names e)
  ]
