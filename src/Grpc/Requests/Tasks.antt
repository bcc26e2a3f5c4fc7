-- ===== src/Grpc/Requests/Tasks.antt =====
-- The task that serves a request to src/grpc, against the handlers, and what it keeps at each of its
-- accesses.
use app_center_ratings.Prelude.{◌≡◌, refl, ◌∙◌, Text, Result, ok, err}
use app_center_ratings.Auth.Status.{Failure}
use app_center_ratings.Ratings.Float.{Floats}
use app_center_ratings.Grpc.World.{World, Env, Handler, lift, continue}
use app_center_ratings.Grpc.Task.{Task, finished, Turns, in_order, run_alone, ◌>>=◌}
use app_center_ratings.Grpc.Task.Handlers.{
  authenticate_task, delete_task, vote_task, get_snap_votes_task, get_rating_task, get_chart_task,
}
use app_center_ratings.Grpc.Task.Alone.{Runs, Runs-finished, Runs-bind}
use app_center_ratings.Grpc.Task.Alone.Handlers.{
  authenticate_task-Runs, delete_task-Runs, vote_task-Runs, get_snap_votes_task-Runs,
  get_rating_task-Runs, get_chart_task-Runs,
}
use app_center_ratings.Grpc.Keeping.{
  Keeps, Keeps-bind, Keeps-finished, IsKept, ClaimsAre, HasClaims,
}
use app_center_ratings.Grpc.Keeping.Handlers.{
  authenticate_task-Keeps, delete_task-Keeps, vote_task-Keeps, get_snap_votes_task-Keeps,
  get_rating_task-Keeps, get_chart_task-Keeps,
}
use app_center_ratings.Grpc.Requests.{
  Rpc, authenticate_with, delete_with, vote_with, get_snap_votes_with, get_rating_with,
  get_chart_with, Reply, token, done, user_votes, rated, charted, reply, answer_rpc,
}

-- Any client.
abbrev pub Anyone : Text → Type 0
Anyone hash = Unit {0}

module _ {H : Type 0} where
  -- The claims that a request carries are of one of these clients, and it carries some where its handler
  -- expects them, unless that may panic.
  abbrev pub RpcIs : (Text → Type 0) → Type 0 → Rpc H → Type 0
  RpcIs Whose CanPanic (delete_with request) = ClaimsAre Whose request × HasClaims CanPanic request
  RpcIs Whose CanPanic (vote_with request) = ClaimsAre Whose request × HasClaims CanPanic request
  RpcIs Whose CanPanic (get_snap_votes_with request) = HasClaims CanPanic request
  RpcIs Whose CanPanic rpc = Unit {0}

  pub RpcIs-Anyone : (rpc : Rpc H) → RpcIs Anyone (Unit {0}) rpc
  RpcIs-Anyone (authenticate_with id) = tt
  RpcIs-Anyone (delete_with request) = (λ c carried. tt, λ missing. tt)
  RpcIs-Anyone (vote_with request) = (λ c carried. tt, λ missing. tt)
  RpcIs-Anyone (get_snap_votes_with request) = λ missing. tt
  RpcIs-Anyone (get_rating_with snap_id) = tt
  RpcIs-Anyone (get_chart_with request) = tt

module _ {F32 A : Type 0} where
  abbrev pub reply_task : (A → Reply F32) → Task F32 A → Task F32 (Reply F32)
  reply_task g t = t >>= λ a. finished (ok (g a))

  reply_task-Runs :
      (g : A → Reply F32) (t : Task F32 A) {h : Handler F32 A}
      → Runs t h
      → Runs (reply_task g t) (reply g h)
  reply_task-Runs g t {h} r =
      let bound = Runs-bind t h _ (λ a. lift (ok (g a))) r λ a. Runs-finished (ok (g a)) in
      record { at = λ w. bound.at w ∙ replied (h w).0 (h w).1 }
    where
      replied :
          (r : Result Failure A) (w : World F32)
          → continue r (λ a. lift (ok (g a))) w ≡ reply g (lift r) w
      replied (ok a) w = refl
      replied (err e) w = refl

  reply_task-Keeps :
      {P : World F32 → Type 0} {CanPanic : Type 0} (g : A → Reply F32) (t : Task F32 A)
      → Keeps P CanPanic t
      → Keeps P CanPanic (reply_task g t)
  reply_task-Keeps g t k = Keeps-bind t _ k λ a. Keeps-finished (ok (g a)) tt

module _ (f : Floats) {H : Type 0} where
  unfoldable pub rpc_task : Env → Turns → Rpc H → Task f.F32 (Reply f.F32)
  rpc_task env turns (authenticate_with id) = reply_task token (authenticate_task env id)
  rpc_task env turns (delete_with request) = reply_task (λ _. done) (delete_task env request)
  rpc_task env turns (vote_with request) = reply_task (λ _. done) (vote_task env request)
  rpc_task env turns (get_snap_votes_with request) =
      reply_task user_votes (get_snap_votes_task env turns request)
  rpc_task env turns (get_rating_with snap_id) = reply_task rated (get_rating_task f env snap_id)
  rpc_task env turns (get_chart_with request) =
      reply_task charted (get_chart_task f env turns request)

  rpc_task-Runs :
      (env : Env) (rpc : Rpc H) → Runs (rpc_task env in_order rpc) (answer_rpc f env rpc)
  unfolding rpc_task answer_rpc
  rpc_task-Runs env (authenticate_with id) = reply_task-Runs token _ (authenticate_task-Runs env id)
  rpc_task-Runs env (delete_with request) =
      reply_task-Runs (λ _. done) _ (delete_task-Runs env request)
  rpc_task-Runs env (vote_with request) = reply_task-Runs (λ _. done) _ (vote_task-Runs env request)
  rpc_task-Runs env (get_snap_votes_with request) =
      reply_task-Runs user_votes _ (get_snap_votes_task-Runs env request)
  rpc_task-Runs env (get_rating_with snap_id) =
      reply_task-Runs rated _ (get_rating_task-Runs f env snap_id)
  rpc_task-Runs env (get_chart_with request) =
      reply_task-Runs charted _ (get_chart_task-Runs f env request)

  -- The task of a request, if no other runs in between and the futures that it joins go on one
  -- after the other, gives the answer of the handler and leaves the world as the handler does.
  pub rpc_task-run_alone :
      (env : Env) (rpc : Rpc H) (w : World f.F32)
      → run_alone (rpc_task env in_order rpc) w ≡ answer_rpc f env rpc w
  rpc_task-run_alone env rpc w = (rpc_task-Runs env rpc).at w

  module _ {P : World f.F32 → Type 0} {CanPanic : Type 0} {Whose : Text → Type 0}
      (k : IsKept f P Whose) where
    pub rpc_task-Keeps :
        (env : Env) (turns : Turns) (rpc : Rpc H)
        → RpcIs Whose CanPanic rpc
        → Keeps P CanPanic (rpc_task env turns rpc)
    unfolding rpc_task
    rpc_task-Keeps env turns (authenticate_with id) own =
        reply_task-Keeps token _ (authenticate_task-Keeps f k env id)
    rpc_task-Keeps env turns (delete_with request) own =
        reply_task-Keeps (λ _. done) _ (delete_task-Keeps f k env request own.0 own.1)
    rpc_task-Keeps env turns (vote_with request) own =
        reply_task-Keeps (λ _. done) _ (vote_task-Keeps f k env request own.0 own.1)
    rpc_task-Keeps env turns (get_snap_votes_with request) own =
        reply_task-Keeps user_votes _ (get_snap_votes_task-Keeps f k env turns request own)
    rpc_task-Keeps env turns (get_rating_with snap_id) own =
        reply_task-Keeps rated _ (get_rating_task-Keeps f k env snap_id)
    rpc_task-Keeps env turns (get_chart_with request) own =
        reply_task-Keeps charted _ (get_chart_task-Keeps f k env turns request)
