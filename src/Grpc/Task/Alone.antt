-- ===== src/Grpc/Task/Alone.antt =====
-- What the tasks of the handlers of src/grpc are made of, run with no other task between, against what the
-- handlers are made of.
pub mod Handlers
use app_center_ratings.Prelude.{
  ℕ, suc, ◌≡◌, refl, ap, ◌∙◌, Bool, true, false, not, ◌==◌, Option, none, some, List, [], ◌∷◌,
  is_empty, byte_len, if◌then◌else◌, Text, Result, ok, err,
}
use app_center_ratings.Auth.Status.{Failure}
use app_center_ratings.Auth.Middleware.{Request}
use app_center_ratings.Db.Category.{Category}
use app_center_ratings.Db.Tables.{DbError}
use app_center_ratings.Db.Vote.{Vote}
use app_center_ratings.Db.SnapCategories.{snap_has_categories}
use app_center_ratings.Ratings.Float.{Floats}
use app_center_ratings.Ratings.Chart.{ChartData, Chart}
use app_center_ratings.Ratings.SnapcraftIo.{
  RatingsError, Names, store, get_snap_name, get_snap_categories, fetch_snap_name, fetch_categories,
}
use app_center_ratings.Ratings.Update.{
  Stores, set_fetched, update_missing, update_categories, update_categories_inner, OtherUpdate,
  nobody, notifies, never_notifies,
}
use app_center_ratings.Grpc.World.{
  World, Env, Handler, lift, continue, conn, snap_name_or, with_names,
}
use app_center_ratings.Grpc.World
use app_center_ratings.Grpc.User.{
  returned, VoteRequest, authenticate, delete, vote, get_snap_votes, try_update_categories,
  name_votes,
}
use app_center_ratings.Grpc.App.{get_rating}
use app_center_ratings.Grpc.Charts.{GetChartRequest, get_chart, name_chart_data}
use app_center_ratings.Grpc.Task.{
  Task, finished, atom, act, run_alone, after, ◌>>=◌, in_order, try_join,
}
use app_center_ratings.Grpc.Task.Handlers.{
  conn_task, snap_name_task, keep_name, recall, set_task, keep_and_set, recall_and_set,
  update_inner_task, update_missing_task, update_task, authenticate_task, name_votes_task,
  delete_task, vote_task, get_snap_votes_task, get_rating_task, name_chart_task, get_chart_task,
}

module _ {F32 A : Type 0} where
  -- The task alone is the handler.
  pub record Runs (t : Task F32 A) (h : Handler F32 A) : Type 0 where
    pub at : (w : World F32) → run_alone t w ≡ h w

  pub Runs-finished : (r : Result Failure A) → Runs (finished r) (lift r)
  Runs-finished r = record { at = λ w. refl }

  pub Runs-act : (h : Handler F32 A) → Runs (act h) h
  Runs-act h = record { at = λ w. refl }

  pub Runs-if :
      (b : Bool) {t t' : Task F32 A} {h h' : Handler F32 A}
      → Runs t h
      → Runs t' h'
      → Runs (if b then t else t') (if b then h else h')
  Runs-if true r r' = r
  Runs-if false r r' = r'

module _ {F32 A B : Type 0} where
  run_alone-bind :
      (t : Task F32 A) (g : A → Task F32 B) (w : World F32)
      → run_alone (t >>= g) w ≡ run_alone (after (run_alone t w).0 g) (run_alone t w).1
  run_alone-bind (finished r) g w = refl
  run_alone-bind (atom write rest) g w = run_alone-bind (rest w) g (write w)

  pub Runs-bind :
      (t : Task F32 A) (h : Handler F32 A) (g : A → Task F32 B) (k : A → Handler F32 B)
      → Runs t h
      → ((a : A) → Runs (g a) (k a))
      → Runs (t >>= g) (World.◌>>=◌ h k)
  Runs-bind t h g k r rs = record {
    at = λ w.
        run_alone-bind t g w
        ∙ ap (λ (p : Result Failure A × World F32). run_alone (after p.0 g) p.1) (r.at w)
        ∙ goes_on (h w).0 (h w).1;
  }
    where
      goes_on : (r : Result Failure A) (w : World F32) → run_alone (after r g) w ≡ continue r k w
      goes_on (ok a) w = (rs a).at w
      goes_on (err e) w = refl

module _ {F32 A B C : Type 0} where
  -- What is made of two results is the same, joined without turns or one after the other.
  run_alone-joined :
      (t : Task F32 A) (u : Task F32 B) (g : A → B → C) (w : World F32)
      → run_alone (try_join [] t u >>= λ p. finished (ok (g p.0 p.1))) w
        ≡ run_alone (t >>= λ a. u >>= λ b. finished (ok (g a b))) w
  run_alone-joined (finished (ok a)) (finished (ok b)) g w = refl
  run_alone-joined (finished (ok a)) (finished (err e)) g w = refl
  run_alone-joined (finished (ok a)) (atom write rest) g w =
      run_alone-joined (finished (ok a)) (rest w) g (write w)
  run_alone-joined (finished (err e)) u g w = refl
  run_alone-joined (atom write rest) u g w = run_alone-joined (rest w) u g (write w)

  pub Runs-joined :
      (t : Task F32 A) (u : Task F32 B) (g : A → B → C) {h : Handler F32 A} {h' : Handler F32 B}
      → Runs t h
      → Runs u h'
      → Runs
          (try_join [] t u >>= λ p. finished (ok (g p.0 p.1)))
          (World.◌>>=◌ h λ a. World.◌>>=◌ h' λ b. World.pure (g a b))
  Runs-joined t u g {h} {h'} r r' =
      let one_by_one =
        Runs-bind t h _ _ r λ a. Runs-bind u h' _ _ r' λ b. Runs-finished (ok (g a b)) in
      record { at = λ w. run_alone-joined t u g w ∙ one_by_one.at w }

module _ {F32 : Type 0} (env : Env) where
  pub conn_task-Runs : Runs {F32 = F32} (conn_task env) (conn env)
  unfolding conn_task conn
  conn_task-Runs = Runs-finished _

  pub snap_name_task-Runs :
      (e : Failure) (snap_id : Text)
      → Runs {F32 = F32} (snap_name_task env e snap_id) (snap_name_or env e snap_id)
  unfolding snap_name_task snap_name_or get_snap_name
  snap_name_task-Runs e snap_id = record { at = λ w. recalled w (w.stores.names snap_id) refl }
    where
      fetched :
          (w : World F32) (r : Result RatingsError Text)
          → fetch_snap_name env.web snap_id env.snapcraft_io_uri ≡ r
          → w.stores.names snap_id ≡ none
          → run_alone (keep_name env e snap_id r) w ≡ snap_name_or env e snap_id w
      fetched w (ok name) found new = rw (new, found) refl
      fetched w (err bad) found new = rw (new, found) refl

      recalled :
          (w : World F32) (o : Option Text)
          → w.stores.names snap_id ≡ o
          → run_alone (recall env e snap_id o) w ≡ snap_name_or env e snap_id w
      recalled w (some name) kept = rw kept refl
      recalled w none new =
          fetched w (fetch_snap_name env.web snap_id env.snapcraft_io_uri) refl new

module _ {F32 : Type 0} (env : Env) (snap_id : Text) where
  -- The update of a world.
  abbrev updated : World F32 → Stores → Result Failure (Unit {0}) × World F32
  updated w st = (ok tt, record w { stores = st })

  abbrev after_update :
      World F32
      → Option (Result RatingsError (Unit {0})) × Stores
      → Result Failure (Unit {0}) × World F32
  after_update w (r, st) = (returned r, record w { stores = st })

  set_task_lem :
      (r : Result RatingsError (List Category)) (names : Names) (w : World F32)
      → run_alone (set_task env snap_id r) (with_names w names)
        ≡ updated w
            (set_fetched env.web env.snapcraft_io_uri env.session snap_id w.stores (r, names)).1
  set_task_lem (err e) names w = refl
  set_task_lem (ok []) names w = refl
  set_task_lem (ok (c ∷ cs)) names w = refl

  update_inner_task_lem :
      (w : World F32)
      → run_alone (update_inner_task env snap_id) w
        ≡ updated w
            (update_categories_inner env.web env.snapcraft_io_uri env.session snap_id w.stores).1
  unfolding update_inner_task update_categories_inner get_snap_categories get_snap_name
  update_inner_task_lem w = recalled (w.stores.names snap_id) refl
    where
      fetched :
          (r : Result RatingsError Text)
          → fetch_snap_name env.web snap_id env.snapcraft_io_uri ≡ r
          → w.stores.names snap_id ≡ none
          → run_alone (keep_and_set env snap_id r) w
            ≡ updated w
                (update_categories_inner env.web env.snapcraft_io_uri env.session snap_id
                  w.stores).1
      fetched (err e) lost new = rw (new, lost) refl
      fetched (ok name) found new =
          rw (new, found)
            (set_task_lem (fetch_categories env.web name env.snapcraft_io_uri)
              (store snap_id name w.stores.names) w)

      recalled :
          (o : Option Text)
          → w.stores.names snap_id ≡ o
          → run_alone (recall_and_set env snap_id o) w
            ≡ updated w
                (update_categories_inner env.web env.snapcraft_io_uri env.session snap_id
                  w.stores).1
      recalled none new = fetched (fetch_snap_name env.web snap_id env.snapcraft_io_uri) refl new
      recalled (some name) kept =
          rw kept
            (set_task_lem (fetch_categories env.web name env.snapcraft_io_uri) w.stores.names w)

  pub update_task-Runs :
      Runs {F32 = F32} (update_task env snap_id) (try_update_categories env snap_id)
  unfolding update_task try_update_categories update_categories
  update_task-Runs = record {
    at = λ w.
        missing (env.other_update snap_id) (snap_has_categories env.session snap_id w.stores.tables)
          w;
  }
    where
      missing :
          (other : OtherUpdate) (r : Result DbError Bool) (w : World F32)
          → run_alone (update_missing_task env snap_id other r) w
            ≡ after_update w
                (update_missing env.web env.snapcraft_io_uri env.session snap_id other r w.stores)
      missing other (err e) w = refl
      missing other (ok true) w = refl
      missing notifies (ok false) w = refl
      missing never_notifies (ok false) w = refl
      missing nobody (ok false) w = update_inner_task_lem w
