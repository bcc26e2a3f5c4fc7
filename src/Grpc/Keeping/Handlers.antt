-- ===== src/Grpc/Keeping/Handlers.antt =====
-- What the tasks of the handlers of src/grpc keep, at each of their accesses.
use app_center_ratings.Prelude.{
  ℕ, suc, ◌≡◌, Bool, true, false, not, ◌==◌, Option, none, some, Option-cases, inl, inr, List, [],
  ◌∷◌, is_empty, byte_len, Text, Result, ok, err,
}
use app_center_ratings.Prelude.Int.{ℤ}
use app_center_ratings.Ratings.Update.{OtherUpdate, nobody, notifies, never_notifies}
use app_center_ratings.Auth.Status.{
  no_answer, EndsAs, EndsAs-map_err, panic, unknown, internal, invalid_argument,
  internal_server_error,
}
use app_center_ratings.Auth.Jwt.{Claims}
use app_center_ratings.Auth.Middleware.{Request}
use app_center_ratings.Db.Category.{Category, category_from_repr}
use app_center_ratings.Db.Tables.{DbError}
use app_center_ratings.Db.User.{create_or_seen, delete_by_client_hash}
use app_center_ratings.Db.Vote.{Vote, save_to_db}
use app_center_ratings.Db.SnapCategories.{snap_has_categories}
use app_center_ratings.Db.Invariant.Runs.{
  see_user, delete_client, cast_vote, set_categories, run_call,
}
use app_center_ratings.Ratings.Float.{Floats}
use app_center_ratings.Ratings.Chart.{ChartData, Chart}
use app_center_ratings.Ratings.SnapcraftIo.{RatingsError, fetch_snap_name}
use app_center_ratings.Grpc.Access.{take_claims}
use app_center_ratings.Grpc.World.{World, Env}
use app_center_ratings.Grpc.User.{VoteRequest}
use app_center_ratings.Grpc.Charts.{GetChartRequest, requested_category, known_category}
use app_center_ratings.Grpc.Task.{Task, finished, ◌>>=◌, Turns}
use app_center_ratings.Grpc.Task.Handlers.{
  conn_task, snap_name_task, keep_name, recall, set_task, keep_and_set, recall_and_set,
  update_inner_task, update_missing_task, update_task, authenticate_task, name_votes_task,
  delete_task, vote_task, get_snap_votes_task, get_rating_task, name_chart_task, get_chart_task,
}
use app_center_ratings.Grpc.Keeping.{
  Keeps, Keeps-finished, Keeps-atom, Keeps-act, Keeps-if, Keeps-bind, Keeps-try_join, IsKept,
  ClaimsAre, HasClaims,
}

module _ (f : Floats) {P : World f.F32 → Type 0} {CanPanic : Type 0} {Whose : Text → Type 0}
    (k : IsKept f P Whose) (env : Env) where
  -- What follows `claims` runs with the claims of the request.
  Keeps-claims :
      {H B A : Type 0} (request : Request H B) (g : Claims × Request H B → Task f.F32 A)
      → HasClaims CanPanic request
      → ((c : Claims)
          → request.claims ≡ some c
          → (request' : Request H B) → Keeps P CanPanic (g (c, request')))
      → Keeps P CanPanic (finished (take_claims request) >>= g)
  unfolding take_claims
  Keeps-claims request g has kg = elim (Option-cases request.claims) [
    | inl none_left ↦ rw none_left (Keeps-finished (err panic) (has none_left))
    | inr (c, carried) ↦ rw carried (kg c carried (record request { claims = none }))
  ]

  Keeps-conn_task : Keeps P CanPanic (conn_task env)
  unfolding conn_task
  Keeps-conn_task = Keeps-finished _ (EndsAs-map_err CanPanic internal env.to_string env.connection)

  Keeps-snap_name_task :
      (snap_id : Text) → Keeps P CanPanic (snap_name_task env internal_server_error snap_id)
  unfolding snap_name_task
  Keeps-snap_name_task snap_id = Keeps-atom _ _ (λ w h. h) λ w. recalled (w.stores.names snap_id)
    where
      kept :
          (r : Result RatingsError Text)
          → Keeps P CanPanic (keep_name env internal_server_error snap_id r)
      kept (ok name) = Keeps-atom _ _ (λ w h. k.named w _ h) λ w. Keeps-finished (ok name) tt
      kept (err e) = Keeps-finished (err internal_server_error) tt

      recalled : (o : Option Text) → Keeps P CanPanic (recall env internal_server_error snap_id o)
      recalled (some name) = Keeps-finished (ok name) tt
      recalled none = kept (fetch_snap_name env.web snap_id env.snapcraft_io_uri)

  module _ (snap_id : Text) where
    Keeps-set_task :
        (r : Result RatingsError (List Category)) → Keeps P CanPanic (set_task env snap_id r)
    unfolding run_call
    Keeps-set_task (err e) = Keeps-finished (ok tt) tt
    Keeps-set_task (ok []) = Keeps-finished (ok tt) tt
    Keeps-set_task (ok (c ∷ cs)) =
        Keeps-atom _ _ (λ w h. k.ran w (set_categories env.session snap_id (c ∷ cs)) tt h)
          λ w. Keeps-finished (ok tt) tt

    Keeps-update_inner_task : Keeps P CanPanic (update_inner_task env snap_id)
    unfolding update_inner_task
    Keeps-update_inner_task = Keeps-atom _ _ (λ w h. h) λ w. recalled (w.stores.names snap_id)
      where
        kept : (r : Result RatingsError Text) → Keeps P CanPanic (keep_and_set env snap_id r)
        kept (ok name) = Keeps-atom _ _ (λ w h. k.named w _ h) λ w. Keeps-set_task _
        kept (err e) = Keeps-finished (ok tt) tt

        recalled : (o : Option Text) → Keeps P CanPanic (recall_and_set env snap_id o)
        recalled (some name) = Keeps-set_task _
        recalled none = kept (fetch_snap_name env.web snap_id env.snapcraft_io_uri)

    Keeps-update_task : Keeps P CanPanic (update_task env snap_id)
    unfolding update_task
    Keeps-update_task =
        Keeps-atom _ _ (λ w h. h)
          λ w.
            missing (env.other_update snap_id)
              (snap_has_categories env.session snap_id w.stores.tables)
      where
        missing :
            (other : OtherUpdate) (r : Result DbError Bool)
            → Keeps P CanPanic (update_missing_task env snap_id other r)
        missing other (err e) = Keeps-finished (ok tt) tt
        missing other (ok true) = Keeps-finished (ok tt) tt
        missing notifies (ok false) = Keeps-finished (ok tt) tt
        missing never_notifies (ok false) = Keeps-finished (err no_answer) tt
        missing nobody (ok false) = Keeps-update_inner_task

  Keeps-name_votes_task :
      (turns : Turns) (n : ℕ) (votes : List Vote)
      → Keeps P CanPanic (name_votes_task env turns n votes)
  unfolding name_votes_task
  Keeps-name_votes_task turns n [] = Keeps-finished (ok []) tt
  Keeps-name_votes_task turns n (v ∷ vs) =
      Keeps-bind _ _
        (Keeps-try_join (turns n) _ _ (Keeps-snap_name_task v.snap_id)
          (Keeps-name_votes_task turns (suc n) vs))
        λ named. Keeps-finished (ok _) tt

  pub authenticate_task-Keeps : (id : Text) → Keeps P CanPanic (authenticate_task env id)
  unfolding authenticate_task run_call
  authenticate_task-Keeps id = Keeps-if (not (byte_len id == 64)) (Keeps-finished (err _) tt) (
      Keeps-bind _ _ Keeps-conn_task λ _.
        Keeps-bind _ _
          (Keeps-act _ (λ w h. k.ran w (see_user env.session id) tt h)
            λ w.
              EndsAs-map_err CanPanic invalid_argument _
                (create_or_seen env.session id w.stores.tables).0)
          λ user.
            Keeps-finished _ (EndsAs-map_err CanPanic internal _ (env.jwt_encode user.client_hash)))

  pub delete_task-Keeps :
      {H B : Type 0} (request : Request H B)
      → ClaimsAre Whose request
      → HasClaims CanPanic request
      → Keeps P CanPanic (delete_task env request)
  unfolding delete_task run_call
  delete_task-Keeps request own has = Keeps-claims request _ has λ c carried _.
      Keeps-bind _ _ Keeps-conn_task λ _.
        Keeps-act _ (λ w h. k.ran w (delete_client env.session c.sub) (own c carried) h)
          λ w.
            EndsAs-map_err CanPanic unknown _
              (delete_by_client_hash env.session c.sub w.stores.tables).0

  pub vote_task-Keeps :
      {H : Type 0} (request : Request H VoteRequest)
      → ClaimsAre Whose request
      → HasClaims CanPanic request
      → Keeps P CanPanic (vote_task env request)
  unfolding vote_task run_call
  vote_task-Keeps request own has = Keeps-claims request _ has λ c carried request'.
      Keeps-bind _ _ Keeps-conn_task λ _.
        Keeps-bind _ _ (Keeps-update_task request'.body.snap_id) λ _.
          Keeps-bind _ _
            (Keeps-act _ (λ w h. k.ran w (cast_vote env.session _) (own c carried) h)
              λ w. EndsAs-map_err CanPanic unknown _ (save_to_db env.session _ w.stores.tables).0)
            λ _. Keeps-finished (ok tt) tt

  pub get_snap_votes_task-Keeps :
      {H : Type 0} (turns : Turns) (request : Request H Text)
      → HasClaims CanPanic request
      → Keeps P CanPanic (get_snap_votes_task env turns request)
  unfolding get_snap_votes_task
  get_snap_votes_task-Keeps turns request has = Keeps-claims request _ has λ c carried request'.
      Keeps-bind _ _ Keeps-conn_task λ _. Keeps-bind _ _ (Keeps-update_task request'.body) λ _.
        Keeps-bind _ _ (Keeps-act _ (λ w h. h) λ w. EndsAs-map_err CanPanic unknown _ _)
          λ votes. Keeps-name_votes_task turns 0 votes

  pub get_rating_task-Keeps : (snap_id : Text) → Keeps P CanPanic (get_rating_task f env snap_id)
  unfolding get_rating_task
  get_rating_task-Keeps snap_id = Keeps-if (is_empty snap_id) (Keeps-finished (err _) tt) (
      Keeps-bind _ _ Keeps-conn_task λ _.
        Keeps-bind _ _
          (Keeps-act _ (λ w h. k.summed env w snap_id h) λ w. EndsAs-map_err CanPanic unknown _ _)
          λ votes. Keeps-bind _ _ (Keeps-snap_name_task _) λ name. Keeps-finished (ok _) tt)

  Keeps-name_chart_task :
      (turns : Turns) (n : ℕ) (ds : List (ChartData f.F32))
      → Keeps P CanPanic (name_chart_task f env turns n ds)
  unfolding name_chart_task
  Keeps-name_chart_task turns n [] = Keeps-finished (ok []) tt
  Keeps-name_chart_task turns n (d ∷ ds) =
      Keeps-bind _ _
        (Keeps-try_join (turns n) _ _ (Keeps-snap_name_task d.rating.snap_id)
          (Keeps-name_chart_task turns (suc n) ds))
        λ named. Keeps-finished (ok _) tt

  pub get_chart_task-Keeps :
      (turns : Turns) (request : GetChartRequest)
      → Keeps P CanPanic (get_chart_task f env turns request)
  unfolding get_chart_task
  get_chart_task-Keeps turns request =
      Keeps-bind _ _ (Keeps-finished _ (requested request.category)) λ category.
        Keeps-bind _ _
          (Keeps-act _ (λ w h. k.charted env w category _ h)
            λ w. EndsAs-map_err CanPanic unknown _ _)
          λ (chart : Chart f.F32).
            Keeps-if (is_empty chart.chart_data) (Keeps-finished (err _) tt) (
              Keeps-bind _ _ (Keeps-name_chart_task turns 0 chart.chart_data)
                λ named. Keeps-finished (ok _) tt)
    where
      known : (o : Option Category) → EndsAs CanPanic (known_category f env o)
      known none = tt
      known (some c) = tt

      requested : (o : Option ℤ) → EndsAs CanPanic (requested_category f env o)
      requested none = tt
      requested (some c) = known (category_from_repr c)
