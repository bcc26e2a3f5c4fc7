-- ===== src/Grpc/Keeping.antt =====
-- What every task of a handler of src/grpc keeps at each of its accesses, whatever other tasks do in
-- between, by what its single writes keep.
pub mod Handlers
use app_center_ratings.Prelude.{
  ℕ, ◌≡◌, Bool, true, false, not, ◌==◌, Option, none, some, Option-cases, inl, inr, List, [], ◌∷◌,
  if◌then◌else◌, is_empty, byte_len, Text, Result, ok, err, map_err,
}
use app_center_ratings.Auth.Status.{Code, Failure, status, FailsAs, EndsAs}
use app_center_ratings.Auth.Jwt.{Claims}
use app_center_ratings.Auth.Middleware.{Request}
use app_center_ratings.Db.Category.{Category, Timeframe}
use app_center_ratings.Db.Tables.{User, DbError}
use app_center_ratings.Db.User.{create_or_seen, delete_by_client_hash}
use app_center_ratings.Db.Vote.{Vote, save_to_db}
use app_center_ratings.Db.SnapCategories.{snap_has_categories}
use app_center_ratings.Db.Invariant.Runs.{
  Call, see_user, delete_client, cast_vote, set_categories, run_call,
}
use app_center_ratings.Ratings.Float.{Floats}
use app_center_ratings.Ratings.Chart.{ChartData, Chart}
use app_center_ratings.Ratings.SnapcraftIo.{RatingsError, Names, fetch_snap_name, fetch_categories}
use app_center_ratings.Grpc.Access.{take_claims}
use app_center_ratings.Grpc.World.{World, Env, Handler, with_tables, with_names}
use app_center_ratings.Grpc.App.{get_by_snap_id_cached, summary_or}
use app_center_ratings.Grpc.User.{VoteRequest, on_tables}
use app_center_ratings.Grpc.Charts.{GetChartRequest, get_chart_cached, requested_category, chart_or}
use app_center_ratings.Grpc.Task.{
  Task, finished, atom, pure, fail, act, run_alone, after, ◌>>=◌, try_join,
}
use app_center_ratings.Grpc.Task.Handlers.{
  conn_task, snap_name_task, keep_name, recall, set_task, keep_and_set, recall_and_set,
  update_inner_task, update_missing_task, update_task, authenticate_task, name_votes_task,
  delete_task, vote_task, get_snap_votes_task, get_rating_task, name_chart_task, get_chart_task,
}

module _ {F32 : Type 0} (P : World F32 → Type 0) (CanPanic : Type 0) where
  -- Where P holds before an access of the task, it holds after it, whatever came before.
  abbrev KeepsAt : {A : Type 0} → Task F32 A → Type 0
  KeepsAt (finished r) = EndsAs CanPanic r
  KeepsAt (atom write rest) = (w : World F32) → P w → P (write w) × KeepsAt (rest w)

  pub record Keeps {A : Type 0} (t : Task F32 A) : Type 0 where
    pub at : KeepsAt t

module _ {F32 A : Type 0} {P : World F32 → Type 0} {CanPanic : Type 0} where
  pub Keeps-finished : (r : Result Failure A) → EndsAs CanPanic r → Keeps P CanPanic (finished r)
  Keeps-finished r ends = record { at = ends }

  pub Keeps-atom :
      (write : World F32 → World F32) (rest : World F32 → Task F32 A)
      → ((w : World F32) → P w → P (write w))
      → ((w : World F32) → Keeps P CanPanic (rest w))
      → Keeps P CanPanic (atom write rest)
  Keeps-atom write rest writes goes_on = record { at = λ w h. (writes w h, (goes_on w).at) }

  pub Keeps-act :
      (h : Handler F32 A)
      → ((w : World F32) → P w → P (h w).1)
      → ((w : World F32) → EndsAs CanPanic (h w).0)
      → Keeps P CanPanic (act h)
  Keeps-act h writes ends = Keeps-atom _ _ writes λ w. Keeps-finished (h w).0 (ends w)

  pub Keeps-if :
      (b : Bool) {t t' : Task F32 A}
      → Keeps P CanPanic t
      → Keeps P CanPanic t'
      → Keeps P CanPanic (if b then t else t')
  Keeps-if true k k' = k
  Keeps-if false k k' = k'

  -- A task that runs with no other between keeps P.
  pub run_alone-kept :
      (t : Task F32 A) → Keeps P CanPanic t → (w : World F32) → P w → P (run_alone t w).1
  run_alone-kept (finished r) k w h = h
  run_alone-kept (atom write rest) k w h =
      let (written, left) = k.at w h in
      run_alone-kept (rest w) (record { at = left }) (write w) written

module _ {F32 A B : Type 0} {P : World F32 → Type 0} {CanPanic : Type 0} where
  pub Keeps-bind :
      (t : Task F32 A) (g : A → Task F32 B)
      → Keeps P CanPanic t
      → ((a : A) → Keeps P CanPanic (g a))
      → Keeps P CanPanic (t >>= g)
  Keeps-bind (finished (ok a)) g k kg = kg a
  Keeps-bind (finished (err e)) g k kg = record { at = k.at }
  Keeps-bind (atom write rest) g k kg = record {
    at = λ w h.
        let (written, left) = k.at w h in
        (written, (Keeps-bind (rest w) g (record { at = left }) kg).at);
  }

module _ {F32 A B : Type 0} {P : World F32 → Type 0} {CanPanic : Type 0} where
  pub Keeps-try_join :
      (turns : List Bool) (t : Task F32 A) (u : Task F32 B)
      → Keeps P CanPanic t
      → Keeps P CanPanic u
      → Keeps P CanPanic (try_join turns t u)
  Keeps-try_join [] t u k k' =
      Keeps-bind t _ k λ a. Keeps-bind u _ k' λ b. Keeps-finished (ok (a, b)) tt
  Keeps-try_join (turn ∷ turns) (finished (err e)) u k k' = record { at = k.at }
  Keeps-try_join (turn ∷ turns) (finished (ok a)) u k k' =
      Keeps-bind u _ k' λ b. Keeps-finished (ok (a, b)) tt
  Keeps-try_join (turn ∷ turns) (atom write rest) (finished (err e)) k k' = record { at = k'.at }
  Keeps-try_join (turn ∷ turns) (atom write rest) (finished (ok b)) k k' =
      Keeps-bind (atom write rest) _ k λ a. Keeps-finished (ok (a, b)) tt
  Keeps-try_join (true ∷ turns) (atom write rest) (atom write' rest') k k' = record {
    at = λ w h.
        let (written, left) = k.at w h in
        (written, (Keeps-try_join turns (rest w) (atom write' rest') (record { at = left }) k').at);
  }
  Keeps-try_join (false ∷ turns) (atom write rest) (atom write' rest') k k' = record {
    at = λ w h.
        let (written, left) = k'.at w h in
        (written, (Keeps-try_join turns (atom write rest) (rest' w) k (record { at = left })).at);
  }

-- The call is not in the name of a client, or it is in the name of one of these.
abbrev pub IsMadeBy : (Text → Type 0) → Call → Type 0
IsMadeBy Whose (see_user s hash) = Unit {0}
IsMadeBy Whose (delete_client s hash) = Whose hash
IsMadeBy Whose (cast_vote s vote) = Whose vote.client_hash
IsMadeBy Whose (set_categories s snap_id categories) = Unit {0}

-- The single writes of the handlers keep P, those in a client's name where the client is one of these.
pub record IsKept (f : Floats) (P : World f.F32 → Type 0) (Whose : Text → Type 0) : Type 0 where
  pub named : (w : World f.F32) (names : Names) → P w → P (with_names w names)
  pub ran :
      (w : World f.F32) (c : Call)
      → IsMadeBy Whose c
      → P w
      → P (with_tables w (run_call c w.stores.tables))
  pub summed :
      (env : Env) (w : World f.F32) (snap_id : Text)
      → P w
      → P (get_by_snap_id_cached f env snap_id w).1
  pub charted :
      (env : Env) (w : World f.F32) (c : Option Category) (t : Timeframe)
      → P w
      → P (get_chart_cached f env c t w).1

-- The claims of a request, if it has any, are of one of these clients.
abbrev pub ClaimsAre : {H B : Type 0} → (Text → Type 0) → Request H B → Type 0
ClaimsAre Whose request = (c : Claims) → request.claims ≡ some c → Whose c.sub

-- The request has claims, unless its task may panic.
abbrev pub HasClaims : {H B : Type 0} → Type 0 → Request H B → Type 0
HasClaims CanPanic request = request.claims ≡ none → CanPanic
