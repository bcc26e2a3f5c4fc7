-- ===== src/Grpc/Dispatch.antt =====
-- A request from the channel to its handler: the layer of src/middleware.rs around the services that
-- `run_server` of src/grpc/mod.rs adds, with the match on paths and the reading of messages of the
-- generated servers of src/proto. Which service a path is given to is tonic's, and how a body is read
-- as a message is prost's: arguments.
use app_center_ratings.Prelude.{
  Option, none, some, List, [], ◌∷◌, Text, Result, ok, err, ok_or, ◌>>=◌,
}
use app_center_ratings.Auth.Status.{Failure, status, internal, unimplemented}
use app_center_ratings.Auth.Jwt.{Claims, JwtError}
use app_center_ratings.Auth.Middleware.{Request, admit}
use app_center_ratings.Ratings.Float.{Floats}
use app_center_ratings.Grpc.Routes.{
  Endpoint, authenticate, delete, vote, get_snap_votes, get_rating, get_chart, Service, serve,
}
use app_center_ratings.Grpc.World.{World, Env}
use app_center_ratings.Grpc.User.{VoteRequest}
use app_center_ratings.Grpc.Charts.{GetChartRequest}
use app_center_ratings.Grpc.Requests.{
  Rpc, authenticate_with, delete_with, vote_with, get_snap_votes_with, get_rating_with,
  get_chart_with, serve_rpc,
}

-- The answer of the generated servers, and of the router, to a path that they do not know.
abbrev pub no_method : Failure
no_method = status unimplemented []

-- The messages that bodies hold, where they can be read, and the error where they cannot; a message of
-- one field stands for that field.
pub record Codec (B : Type 0) : Type 0 where
  pub error : Text
  pub authenticate_request : B → Option Text
  pub delete_request : B → Option (Unit {0})
  pub vote_request : B → Option VoteRequest
  pub get_snap_votes_request : B → Option Text
  pub get_rating_request : B → Option Text
  pub get_chart_request : B → Option GetChartRequest

-- A request with what surrounds it; `decode` is the verifier's at the time.
pub record Arrival (H B : Type 0) : Type 0 where
  pub env : Env
  pub decode : Text → Result JwtError Claims
  pub request : Request H B

module _ {H B M : Type 0} where
  abbrev pub with_body : Request H B → M → Request H M
  with_body req m = record {
    path = req.path;
    authorization = req.authorization;
    claims = req.claims;
    body = m;
  }

module _ {H M : Type 0} where
  abbrev pub read_as : (M → Rpc H) → Option M → Option (Rpc H)
  read_as handler none = none
  read_as handler (some m) = some (handler m)

module _ {H B : Type 0} (codec : Codec B) where
  -- The handler's request, if its body can be read.
  abbrev pub read_rpc : Endpoint → Request H B → Option (Rpc H)
  read_rpc authenticate req = read_as authenticate_with (codec.authenticate_request req.body)
  read_rpc delete req = read_as (λ m. delete_with (with_body req m)) (codec.delete_request req.body)
  read_rpc vote req = read_as (λ m. vote_with (with_body req m)) (codec.vote_request req.body)
  read_rpc get_snap_votes req =
      read_as (λ m. get_snap_votes_with (with_body req m)) (codec.get_snap_votes_request req.body)
  read_rpc get_rating req = read_as get_rating_with (codec.get_rating_request req.body)
  read_rpc get_chart req = read_as get_chart_with (codec.get_chart_request req.body)

  module _ (to_str : H → Option Text) (route : Text → Option Service) where
    -- A request on its way to its handler: the layer, the router, the match of the generated server
    -- on the path, and the reading of the body.
    unfoldable pub accept : Arrival H B → Result Failure (Rpc H)
    accept a = do
      passed ← admit to_str a.decode a.request
      service ← ok_or no_method (route passed.path)
      endpoint ← ok_or no_method (serve service passed.path)
      ok_or (status internal codec.error) (read_rpc endpoint passed)

    module _ (f : Floats) where
      abbrev pub serve_accepted : Env → Result Failure (Rpc H) → World f.F32 → World f.F32
      serve_accepted env (err e) w = w
      serve_accepted env (ok rpc) w = serve_rpc f env rpc w

      -- The world after a request: one that is refused on its way leaves it as it is.
      unfoldable pub receive : Arrival H B → World f.F32 → World f.F32
      receive a w = serve_accepted a.env (accept a) w

      unfoldable pub receive_all : List (Arrival H B) → World f.F32 → World f.F32
      receive_all [] w = w
      receive_all (a ∷ rest) w = receive_all rest (receive a w)
