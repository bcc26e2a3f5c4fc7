-- ===== src/Grpc/Task/Accesses.antt =====
-- How often the tasks of src/grpc access the tables and the caches, whatever other tasks do in between;
-- that one waits for another's update, for ever or not, is no access.
use app_center_ratings.Prelude.{
  ℕ, zero, suc, ◌+◌, ◌*◌, ◌≤◌, Bool, true, false, not, ◌==◌, Option, none, some, List, [], ◌∷◌,
  is_empty, length, byte_len, arith, Text, Result, ok, err,
}
use app_center_ratings.Auth.Status.{Failure, no_answer}
use app_center_ratings.Auth.Middleware.{Request}
use app_center_ratings.Db.Category.{Category}
use app_center_ratings.Db.Tables.{DbError}
use app_center_ratings.Db.SnapCategories.{snap_has_categories}
use app_center_ratings.Ratings.Float.{Floats}
use app_center_ratings.Ratings.Chart.{ChartData}
use app_center_ratings.Ratings.SnapcraftIo.{RatingsError, fetch_snap_name, fetch_categories}
use app_center_ratings.Ratings.Update.{OtherUpdate, nobody, notifies, never_notifies}
use app_center_ratings.Grpc.World.{World, Env, Handler}
use app_center_ratings.Grpc.User.{VoteRequest}
use app_center_ratings.Grpc.Task.{act, Turns}
use app_center_ratings.Grpc.Task.Handlers.{
  conn_task, snap_name_task, keep_name, recall, set_task, keep_and_set, recall_and_set,
  update_inner_task, update_missing_task, update_task, authenticate_task, delete_task, vote_task,
  get_rating_task, name_chart_task,
}
use app_center_ratings.Grpc.Task.Bounds.{
  Within, Within-≤, Within-finished, Within-atom, Within-if, Within-bind, Within-try_join,
}

module _ {F32 : Type 0} {P : World F32 → Type 0} (env : Env) where
  Within-act : {A : Type 0} (h : Handler F32 A) → Within P 1 (act h)
  Within-act h = Within-atom 0 _ _ λ w p. Within-finished 0 (h w).0

  conn_task-Within : Within P 0 (conn_task env)
  unfolding conn_task
  conn_task-Within = Within-finished 0 _

  snap_name_task-Within : (e : Failure) (snap_id : Text) → Within P 2 (snap_name_task env e snap_id)
  unfolding snap_name_task
  snap_name_task-Within e snap_id = Within-atom 1 _ _ λ w p. recalled (w.stores.names snap_id)
    where
      kept : (r : Result RatingsError Text) → Within P 1 (keep_name env e snap_id r)
      kept (ok name) = Within-atom 0 _ _ λ w p. Within-finished 0 (ok name)
      kept (err bad) = Within-finished 1 (err e)

      recalled : (o : Option Text) → Within P 1 (recall env e snap_id o)
      recalled (some name) = Within-finished 1 (ok name)
      recalled none = kept (fetch_snap_name env.web snap_id env.snapcraft_io_uri)

  update_task-Within : (snap_id : Text) → Within P 4 (update_task env snap_id)
  unfolding update_task update_inner_task
  update_task-Within snap_id = Within-atom 3 _ _ λ w p.
      missing (env.other_update snap_id) (snap_has_categories env.session snap_id w.stores.tables)
    where
      set :
          (r : Result RatingsError (List Category))
          → (n : ℕ) → Within P (suc n) (set_task env snap_id r)
      set (err e) n = Within-finished _ (ok tt)
      set (ok []) n = Within-finished _ (ok tt)
      set (ok (c ∷ cs)) n = Within-atom n _ _ λ w p. Within-finished n (ok tt)

      kept : (r : Result RatingsError Text) → Within P 2 (keep_and_set env snap_id r)
      kept (ok name) =
          Within-atom 1 _ _ λ w p. set (fetch_categories env.web name env.snapcraft_io_uri) 0
      kept (err e) = Within-finished 2 (ok tt)

      recalled : (o : Option Text) → Within P 2 (recall_and_set env snap_id o)
      recalled (some name) = set (fetch_categories env.web name env.snapcraft_io_uri) 1
      recalled none = kept (fetch_snap_name env.web snap_id env.snapcraft_io_uri)

      missing :
          (other : OtherUpdate) (r : Result DbError Bool)
          → Within P 3 (update_missing_task env snap_id other r)
      missing other (err e) = Within-finished 3 (ok tt)
      missing other (ok true) = Within-finished 3 (ok tt)
      missing notifies (ok false) = Within-finished 3 (ok tt)
      missing never_notifies (ok false) = Within-finished 3 (err no_answer)
      missing nobody (ok false) = Within-atom 2 _ _ λ w p. recalled (w.stores.names snap_id)

  pub authenticate_task-Within : (id : Text) → Within P 1 (authenticate_task env id)
  unfolding authenticate_task
  authenticate_task-Within id = Within-if 1 (not (byte_len id == 64)) (Within-finished 1 (err _)) (
      Within-bind 0 1 _ _ conn_task-Within
        λ _. Within-bind 1 0 _ _ (Within-act _) λ user. Within-finished 0 _)

  pub delete_task-Within :
      {H B : Type 0} (request : Request H B) → Within P 1 (delete_task env request)
  unfolding delete_task
  delete_task-Within request =
      Within-bind 0 1 _ _ (Within-finished 0 _)
        λ (claims, _). Within-bind 0 1 _ _ conn_task-Within λ _. Within-act _

  pub vote_task-Within :
      {H : Type 0} (request : Request H VoteRequest) → Within P 5 (vote_task env request)
  unfolding vote_task
  vote_task-Within request = Within-bind 0 5 _ _ (Within-finished 0 _) λ (claims, request').
      Within-bind 0 5 _ _ conn_task-Within λ _.
        Within-bind 4 1 _ _ (update_task-Within request'.body.snap_id)
          λ _. Within-bind 1 0 _ _ (Within-act _) λ _. Within-finished 0 (ok tt)

module _ (f : Floats) {P : World f.F32 → Type 0} (env : Env) where
  pub get_rating_task-Within : (snap_id : Text) → Within P 3 (get_rating_task f env snap_id)
  unfolding get_rating_task
  get_rating_task-Within snap_id = Within-if 3 (is_empty snap_id) (Within-finished 3 (err _)) (
      Within-bind 0 3 _ _ (conn_task-Within env) λ _.
        Within-bind 1 2 _ _ (Within-act env _) λ votes.
          Within-bind 2 0 _ _ (snap_name_task-Within env _ _) λ name. Within-finished 0 (ok _))

  pub name_chart_task-Within :
      (turns : Turns) (n k : ℕ) (ds : List (ChartData f.F32))
      → length ds ≤ k
      → Within P (2 * k) (name_chart_task f env turns n ds)
  unfolding name_chart_task
  name_chart_task-Within turns n k [] h = Within-finished _ (ok [])
  name_chart_task-Within turns n zero (d ∷ ds) h = absurd (omega arith)
  name_chart_task-Within turns n (suc k) (d ∷ ds) h =
      Within-≤ (2 + 2 * k + 0) (2 * suc k) _ (omega arith) (
        Within-bind (2 + 2 * k) 0 _ _
          (Within-try_join (turns n) 2 (2 * k) _ _ (snap_name_task-Within env _ d.rating.snap_id)
            (name_chart_task-Within turns (suc n) k ds (omega arith)))
          λ named. Within-finished 0 (ok _))
