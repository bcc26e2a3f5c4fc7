-- ===== src/Grpc/User.antt =====
-- src/grpc/user.rs: the handlers of the user service. The client hash of a handler that calls
-- `claims` is the `sub` of the claims that it takes out of the request (Access.antt).
use app_center_ratings.Prelude.{
  ℕ, Bool, not, Option, none, some, List, [], ◌∷◌, ◌==◌, if◌then◌else◌, Text, text, byte_len,
  Result, ok, err, map_err,
}
use app_center_ratings.Prelude.Int.{ℤ, as_u32, as_i32}
use app_center_ratings.Auth.Status.{
  Failure, status, no_answer, invalid_argument, internal, internal_server_error,
}
use app_center_ratings.Auth.Middleware.{Request}
use app_center_ratings.Db.Tables.{Tables, DbError}
use app_center_ratings.Db.User.{create_or_seen, delete_by_client_hash}
use app_center_ratings.Db.Vote.{Vote, save_to_db, get_all_by_client_hash}
use app_center_ratings.Ratings.SnapcraftIo.{RatingsError}
use app_center_ratings.Ratings.Update.{update_categories}
use app_center_ratings.Grpc.Access.{take_claims}
use app_center_ratings.Grpc.World.{Env, Handler, pure, fail, lift, ◌>>=◌, ◌>>◌, conn, snap_name_or}

-- The messages `VoteRequest` and `Vote` of src/proto/ratings.features.user.rs. A timestamp stands for
-- its seconds and nanoseconds.
pub record VoteRequest : Type 0 where
  pub snap_id : Text
  pub snap_revision : ℤ
  pub vote_up : Bool

pub record PbVote : Type 0 where
  pub snap_id : Text
  pub snap_revision : ℤ
  pub vote_up : Bool
  pub timestamp : Option ℕ
  pub snap_name : Text

-- `PbVote::from_vote_and_snap_name`.
abbrev pub pb_vote : Vote → Text → PbVote
pb_vote value snap_name = record {
  snap_id = value.snap_id;
  snap_revision = as_i32 value.snap_revision;
  vote_up = value.vote_up;
  timestamp = some value.timestamp;
  snap_name = snap_name;
}

abbrev pub expected_client_hash_length : ℕ
expected_client_hash_length = 64

-- A call of src/db that gives a new state of the tables, with any error as the given failure.
abbrev pub on_tables :
    {F32 A : Type 0} → Failure → (Tables → Result DbError A × Tables) → Handler F32 A
on_tables failure statement w =
    let (r, tables) = statement w.stores.tables in
    (map_err (λ _. failure) r, record w { stores = record w.stores { tables = tables } })

-- The warning of a failed update is not modelled: the handler goes on either way, once the update
-- has returned.
abbrev pub returned : Option (Result RatingsError (Unit {0})) → Result Failure (Unit {0})
returned (some r) = ok tt
returned none = err no_answer

module _ {F32 : Type 0} (env : Env) where
  -- `authenticate`.
  unfoldable pub authenticate : Text → Handler F32 Text
  authenticate id =
      if not (byte_len id == expected_client_hash_length)
      then fail (status invalid_argument (text "Client hash must be of length 64"))
      else do
        conn env
        user ← on_tables (status invalid_argument (text "id")) (create_or_seen env.session id)
        lift (
            map_err (λ _. status internal (text "internal error"))
              (env.jwt_encode user.client_hash))

  unfoldable pub try_update_categories : Text → Handler F32 (Unit {0})
  try_update_categories snap_id w =
      let (r, stores) =
        update_categories env.web env.snapcraft_io_uri env.session snap_id
          (env.other_update snap_id) w.stores in
      (returned r, record w { stores = stores })

  -- The names of all votes' snaps, one after the other.
  unfoldable pub name_votes : List Vote → Handler F32 (List PbVote)
  name_votes [] = pure []
  name_votes (vote ∷ votes) = do
    snap_name ← snap_name_or env internal_server_error vote.snap_id
    rest ← name_votes votes
    pure (pb_vote vote snap_name ∷ rest)

  module _ {H B : Type 0} (request : Request H B) where
    -- `delete`.
    unfoldable pub delete : Handler F32 (Unit {0})
    delete = do
      (claims, _) ← lift (take_claims request)
      conn env
      on_tables internal_server_error (delete_by_client_hash env.session claims.sub)

  module _ {H : Type 0} where
    -- `vote`.
    unfoldable pub vote : Request H VoteRequest → Handler F32 (Unit {0})
    vote request = do
      (claims, request') ← lift (take_claims request)
      let body = request'.body
      conn env
      try_update_categories body.snap_id
      on_tables internal_server_error (
          save_to_db env.session (record {
            client_hash = claims.sub;
            snap_id = body.snap_id;
            snap_revision = as_u32 body.snap_revision;
            vote_up = body.vote_up;
            timestamp = env.session.now;
          }))
      pure tt

    -- `get_snap_votes`; the body is the snap_id.
    unfoldable pub get_snap_votes : Request H Text → Handler F32 (List PbVote)
    get_snap_votes request = do
      (claims, request') ← lift (take_claims request)
      let snap_id = request'.body
      conn env
      try_update_categories snap_id
      votes ←
          on_tables internal_server_error
            (λ t. (get_all_by_client_hash env.session claims.sub (some snap_id) t, t))
      name_votes votes
