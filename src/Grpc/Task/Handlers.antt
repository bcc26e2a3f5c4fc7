-- ===== src/Grpc/Task/Handlers.antt =====
-- The handlers of src/grpc as tasks. A statement on the database is one access. `get_by_snap_id_cached`
-- and `get_chart_cached` hold the lock of their cache while they look up, ask the database and keep the
-- answer (`sync_writes`), so that each is one access too; `get_snap_name` looks up and keeps in two.
-- The futures that `try_join_all` joins go on in the order of the turns.
use app_center_ratings.Prelude.{
  ℕ, suc, Bool, true, false, not, ◌==◌, Option, none, some, List, [], ◌∷◌, if◌then◌else◌, is_empty,
  byte_len, Text, text, Result, ok, err, map_err,
}
use app_center_ratings.Prelude.Int.{as_u32}
use app_center_ratings.Auth.Status.{
  Failure, status, no_answer, invalid_argument, not_found, internal, internal_server_error,
}
use app_center_ratings.Auth.Middleware.{Request}
use app_center_ratings.Db.Category.{Category, unspecified, timeframe_as_i32, timeframe_from_repr}
use app_center_ratings.Db.Tables.{DbError}
use app_center_ratings.Db.User.{create_or_seen, delete_by_client_hash}
use app_center_ratings.Db.Vote.{Vote, save_to_db, get_all_by_client_hash}
use app_center_ratings.Db.SnapCategories.{snap_has_categories, set_categories_for_snap}
use app_center_ratings.Ratings.Float.{Floats}
use app_center_ratings.Ratings.Chart.{ChartData, unwrap_or}
use app_center_ratings.Ratings.Rating.{rating_from_summary}
use app_center_ratings.Ratings.SnapcraftIo.{RatingsError, store, fetch_snap_name, fetch_categories}
use app_center_ratings.Ratings.Update.{OtherUpdate, nobody, notifies, never_notifies}
use app_center_ratings.Grpc.Access.{take_claims}
use app_center_ratings.Grpc.World.{Env, with_tables, with_names}
use app_center_ratings.Grpc.App.{PbRating, pb_rating, summary_or}
use app_center_ratings.Grpc.User.{
  PbVote, pb_vote, VoteRequest, expected_client_hash_length, on_tables,
}
use app_center_ratings.Grpc.Charts.{
  GetChartRequest, GetChartResponse, PbChartData, requested_category, category_number,
  pb_chart_data, chart_or,
}
use app_center_ratings.Grpc.Task.{
  Task, finished, atom, pure, fail, act, ◌>>=◌, ◌>>◌, Turns, try_join,
}

module _ {F32 : Type 0} (env : Env) where
  -- `conn!()`: what is taken of the pool is no other task's.
  unfoldable pub conn_task : Task F32 (Unit {0})
  conn_task = finished (map_err (λ e. status internal (env.to_string e)) env.connection)

  abbrev pub keep_name : Failure → Text → Result RatingsError Text → Task F32 Text
  keep_name failure snap_id (ok name) =
      atom (λ w. with_names w (store snap_id name w.stores.names)) (λ w. pure name)
  keep_name failure snap_id (err e) = fail failure

  abbrev pub recall : Failure → Text → Option Text → Task F32 Text
  recall failure snap_id (some name) = pure name
  recall failure snap_id none =
      keep_name failure snap_id (fetch_snap_name env.web snap_id env.snapcraft_io_uri)

  -- `get_snap_name`, with any error as the given failure.
  unfoldable pub snap_name_task : Failure → Text → Task F32 Text
  snap_name_task failure snap_id =
      atom (λ w. w) (λ w. recall failure snap_id (w.stores.names snap_id))

  module _ (snap_id : Text) where
    abbrev pub set_task : Result RatingsError (List Category) → Task F32 (Unit {0})
    set_task (err e) = pure tt
    set_task (ok []) = pure tt
    set_task (ok (c ∷ cs)) =
        atom
          (λ w.
            with_tables w (set_categories_for_snap env.session snap_id (c ∷ cs) w.stores.tables).1)
          (λ w. pure tt)

    abbrev pub keep_and_set : Result RatingsError Text → Task F32 (Unit {0})
    keep_and_set (ok name) =
        atom (λ w. with_names w (store snap_id name w.stores.names))
          (λ w. set_task (fetch_categories env.web name env.snapcraft_io_uri))
    keep_and_set (err e) = pure tt

    abbrev pub recall_and_set : Option Text → Task F32 (Unit {0})
    recall_and_set (some name) = set_task (fetch_categories env.web name env.snapcraft_io_uri)
    recall_and_set none = keep_and_set (fetch_snap_name env.web snap_id env.snapcraft_io_uri)

    -- `update_categories_inner`.
    unfoldable pub update_inner_task : Task F32 (Unit {0})
    update_inner_task = atom (λ w. w) (λ w. recall_and_set (w.stores.names snap_id))

    abbrev pub update_missing_task : OtherUpdate → Result DbError Bool → Task F32 (Unit {0})
    update_missing_task other (err e) = pure tt
    update_missing_task other (ok true) = pure tt
    update_missing_task nobody (ok false) = update_inner_task
    update_missing_task notifies (ok false) = pure tt
    update_missing_task never_notifies (ok false) = fail no_answer

    -- `update_categories`, whose errors the handlers log and drop.
    unfoldable pub update_task : Task F32 (Unit {0})
    update_task =
        atom (λ w. w)
          (λ w.
            update_missing_task (env.other_update snap_id)
              (snap_has_categories env.session snap_id w.stores.tables))

  unfoldable pub authenticate_task : Text → Task F32 Text
  authenticate_task id =
      if not (byte_len id == expected_client_hash_length)
      then fail (status invalid_argument (text "Client hash must be of length 64"))
      else do
        conn_task
        user ← act (on_tables (status invalid_argument (text "id")) (create_or_seen env.session id))
        finished (
            map_err (λ _. status internal (text "internal error"))
              (env.jwt_encode user.client_hash))

  -- The futures of the votes, the first of them at its position in the list, joined.
  unfoldable pub name_votes_task : Turns → ℕ → List Vote → Task F32 (List PbVote)
  name_votes_task turns n [] = pure []
  name_votes_task turns n (vote ∷ votes) = do
    (snap_name, rest) ←
        try_join (turns n) (snap_name_task internal_server_error vote.snap_id)
          (name_votes_task turns (suc n) votes)
    pure (pb_vote vote snap_name ∷ rest)

  unfoldable pub delete_task : {H B : Type 0} → Request H B → Task F32 (Unit {0})
  delete_task request = do
    (claims, _) ← finished (take_claims request)
    conn_task
    act (on_tables internal_server_error (delete_by_client_hash env.session claims.sub))

  module _ {H : Type 0} where
    unfoldable pub vote_task : Request H VoteRequest → Task F32 (Unit {0})
    vote_task request = do
      (claims, request') ← finished (take_claims request)
      let body = request'.body
      conn_task
      update_task body.snap_id
      act (
          on_tables internal_server_error (
            save_to_db env.session (record {
              client_hash = claims.sub;
              snap_id = body.snap_id;
              snap_revision = as_u32 body.snap_revision;
              vote_up = body.vote_up;
              timestamp = env.session.now;
            })))
      pure tt

    unfoldable pub get_snap_votes_task : Turns → Request H Text → Task F32 (List PbVote)
    get_snap_votes_task turns request = do
      (claims, request') ← finished (take_claims request)
      let snap_id = request'.body
      conn_task
      update_task snap_id
      votes ← act (
          on_tables internal_server_error
            (λ t. (get_all_by_client_hash env.session claims.sub (some snap_id) t, t)))
      name_votes_task turns 0 votes

module _ (f : Floats) (env : Env) where
  unfoldable pub get_rating_task : Text → Task f.F32 PbRating
  get_rating_task snap_id =
      if is_empty snap_id then fail (status invalid_argument (text "snap id")) else do
        conn_task env
        votes ← act (summary_or f env internal_server_error snap_id)
        let rating = rating_from_summary f votes
        snap_name ← snap_name_task env internal_server_error rating.snap_id
        pure (pb_rating rating snap_name)

  unfoldable pub name_chart_task :
      Turns → ℕ → List (ChartData f.F32) → Task f.F32 (List (PbChartData f.F32))
  name_chart_task turns n [] = pure []
  name_chart_task turns n (d ∷ ds) = do
    (snap_name, rest) ←
        try_join (turns n) (snap_name_task env internal_server_error d.rating.snap_id)
          (name_chart_task turns (suc n) ds)
    pure (pb_chart_data d snap_name ∷ rest)

  unfoldable pub get_chart_task : Turns → GetChartRequest → Task f.F32 (GetChartResponse f.F32)
  get_chart_task turns request = do
    category ← finished (requested_category f env request.category)
    let timeframe = unwrap_or unspecified (timeframe_from_repr request.timeframe)
    chart ← act (chart_or f env internal_server_error category timeframe)
    if is_empty chart.chart_data
        then fail (status not_found (text "Cannot find data for given timeframe."))
        else do
          ordered_chart_data ← name_chart_task turns 0 chart.chart_data
          pure (record {
            timeframe = timeframe_as_i32 timeframe;
            category = category_number category;
            ordered_chart_data = ordered_chart_data;
          })
