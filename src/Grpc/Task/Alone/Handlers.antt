-- ===== src/Grpc/Task/Alone/Handlers.antt =====
-- The tasks of src/grpc, run with no other between, against the handlers of Grpc/User, Grpc/App and
-- Grpc/Charts.
use app_center_ratings.Prelude.{ℕ, suc, not, ◌==◌, List, [], ◌∷◌, is_empty, byte_len, Text}
use app_center_ratings.Auth.Middleware.{Request}
use app_center_ratings.Db.Vote.{Vote}
use app_center_ratings.Ratings.Float.{Floats}
use app_center_ratings.Ratings.Chart.{ChartData, Chart}
use app_center_ratings.Grpc.World.{Env}
use app_center_ratings.Grpc.User.{
  VoteRequest, authenticate, delete, vote, get_snap_votes, name_votes,
}
use app_center_ratings.Grpc.App.{get_rating}
use app_center_ratings.Grpc.Charts.{GetChartRequest, get_chart, name_chart_data}
use app_center_ratings.Grpc.Task.{in_order}
use app_center_ratings.Grpc.Task.Handlers.{
  authenticate_task, name_votes_task, delete_task, vote_task, get_snap_votes_task, get_rating_task,
  name_chart_task, get_chart_task,
}
use app_center_ratings.Grpc.Task.Alone.{
  Runs, Runs-finished, Runs-act, Runs-if, Runs-bind, Runs-joined, conn_task-Runs,
  snap_name_task-Runs, update_task-Runs,
}

module _ {F32 : Type 0} (env : Env) where
  pub authenticate_task-Runs :
      (id : Text) → Runs {F32 = F32} (authenticate_task env id) (authenticate env id)
  unfolding authenticate_task authenticate
  authenticate_task-Runs id = Runs-if (not (byte_len id == 64)) (Runs-finished _) (
      Runs-bind _ _ _ _ (conn_task-Runs env)
        λ _. Runs-bind _ _ _ _ (Runs-act _) λ user. Runs-finished _)

  pub delete_task-Runs :
      {H B : Type 0} (request : Request H B)
      → Runs {F32 = F32} (delete_task env request) (delete env request)
  unfolding delete_task delete
  delete_task-Runs request =
      Runs-bind _ _ _ _ (Runs-finished _)
        λ (claims, _). Runs-bind _ _ _ _ (conn_task-Runs env) λ _. Runs-act _

  pub vote_task-Runs :
      {H : Type 0} (request : Request H VoteRequest)
      → Runs {F32 = F32} (vote_task env request) (vote env request)
  unfolding vote_task vote
  vote_task-Runs request = Runs-bind _ _ _ _ (Runs-finished _) λ (claims, request').
      Runs-bind _ _ _ _ (conn_task-Runs env) λ _.
        Runs-bind _ _ _ _ (update_task-Runs env request'.body.snap_id)
          λ _. Runs-bind _ _ _ _ (Runs-act _) λ _. Runs-finished _

  name_votes_task-Runs :
      (n : ℕ) (votes : List Vote)
      → Runs {F32 = F32} (name_votes_task env in_order n votes) (name_votes env votes)
  unfolding name_votes_task name_votes
  name_votes_task-Runs n [] = Runs-finished _
  name_votes_task-Runs n (v ∷ vs) =
      Runs-joined _ _ _ (snap_name_task-Runs env _ v.snap_id) (name_votes_task-Runs (suc n) vs)

  pub get_snap_votes_task-Runs :
      {H : Type 0} (request : Request H Text)
      → Runs {F32 = F32} (get_snap_votes_task env in_order request) (get_snap_votes env request)
  unfolding get_snap_votes_task get_snap_votes
  get_snap_votes_task-Runs request = Runs-bind _ _ _ _ (Runs-finished _) λ (claims, request').
      Runs-bind _ _ _ _ (conn_task-Runs env) λ _.
        Runs-bind _ _ _ _ (update_task-Runs env request'.body)
          λ _. Runs-bind _ _ _ _ (Runs-act _) λ votes. name_votes_task-Runs 0 votes

module _ (f : Floats) (env : Env) where
  pub get_rating_task-Runs :
      (snap_id : Text) → Runs (get_rating_task f env snap_id) (get_rating f env snap_id)
  unfolding get_rating_task get_rating
  get_rating_task-Runs snap_id = Runs-if (is_empty snap_id) (Runs-finished _) (
      Runs-bind _ _ _ _ (conn_task-Runs env) λ _.
        Runs-bind _ _ _ _ (Runs-act _)
          λ votes. Runs-bind _ _ _ _ (snap_name_task-Runs env _ _) λ name. Runs-finished _)

  name_chart_task-Runs :
      (n : ℕ) (ds : List (ChartData f.F32))
      → Runs (name_chart_task f env in_order n ds) (name_chart_data f env ds)
  unfolding name_chart_task name_chart_data
  name_chart_task-Runs n [] = Runs-finished _
  name_chart_task-Runs n (d ∷ ds) =
      Runs-joined _ _ _ (snap_name_task-Runs env _ d.rating.snap_id)
        (name_chart_task-Runs (suc n) ds)

  pub get_chart_task-Runs :
      (request : GetChartRequest)
      → Runs (get_chart_task f env in_order request) (get_chart f env request)
  unfolding get_chart_task get_chart
  get_chart_task-Runs request = Runs-bind _ _ _ _ (Runs-finished _) λ category.
      Runs-bind _ _ _ _ (Runs-act _) λ (chart : Chart f.F32).
        Runs-if (is_empty chart.chart_data) (Runs-finished _)
          (Runs-bind _ _ _ _ (name_chart_task-Runs 0 chart.chart_data) λ named. Runs-finished _)
