-- ===== src/Grpc/Requests.antt =====
-- Sequences of requests to the services of src/grpc, each with surroundings of its own.
pub mod Tasks
pub mod Kept
pub mod Valid
pub mod Remembered
use app_center_ratings.Prelude.{List, [], ◌∷◌, Text, Result, ok, err}
use app_center_ratings.Auth.Status.{Failure}
use app_center_ratings.Auth.Middleware.{Request}
use app_center_ratings.Ratings.Float.{Floats}
use app_center_ratings.Grpc.World.{World, Env, Handler}
use app_center_ratings.Grpc.App.{PbRating, get_rating}
use app_center_ratings.Grpc.User.{PbVote, VoteRequest, authenticate, delete, vote, get_snap_votes}
use app_center_ratings.Grpc.Charts.{GetChartRequest, GetChartResponse, get_chart}

-- A request that a handler is given.
pub data Rpc (H : Type 0) : Type 0 where
  authenticate_with : Text → Rpc H
  delete_with : Request H (Unit {0}) → Rpc H
  vote_with : Request H VoteRequest → Rpc H
  get_snap_votes_with : Request H Text → Rpc H
  get_rating_with : Text → Rpc H
  get_chart_with : GetChartRequest → Rpc H

-- What a handler answers with.
pub data Reply (F32 : Type 0) : Type 0 where
  token : Text → Reply F32
  done : Reply F32
  user_votes : List PbVote → Reply F32
  rated : PbRating → Reply F32
  charted : GetChartResponse F32 → Reply F32

module _ {F32 A : Type 0} where
  abbrev reply_with : (A → Reply F32) → Result Failure A → Result Failure (Reply F32)
  reply_with g (ok a) = ok (g a)
  reply_with g (err e) = err e

  abbrev pub reply : (A → Reply F32) → Handler F32 A → Handler F32 (Reply F32)
  reply g h w = let (r, w') = h w in (reply_with g r, w')

module _ (f : Floats) {H : Type 0} where
  -- The answer to a request, and the world after it.
  unfoldable pub answer_rpc : Env → Rpc H → Handler f.F32 (Reply f.F32)
  answer_rpc env (authenticate_with id) = reply token (authenticate env id)
  answer_rpc env (delete_with request) = reply (λ _. done) (delete env request)
  answer_rpc env (vote_with request) = reply (λ _. done) (vote env request)
  answer_rpc env (get_snap_votes_with request) = reply user_votes (get_snap_votes env request)
  answer_rpc env (get_rating_with snap_id) = reply rated (get_rating f env snap_id)
  answer_rpc env (get_chart_with request) = reply charted (get_chart f env request)

  -- The world after a request.
  unfoldable pub serve_rpc : Env → Rpc H → World f.F32 → World f.F32
  serve_rpc env rpc w = (answer_rpc env rpc w).1

  unfoldable pub serve_all : List (Env × Rpc H) → World f.F32 → World f.F32
  serve_all [] w = w
  serve_all ((env, rpc) ∷ rest) w = serve_all rest (serve_rpc env rpc w)
