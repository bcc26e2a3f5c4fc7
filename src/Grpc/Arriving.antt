-- ===== src/Grpc/Arriving.antt =====
-- The handlers `authenticate` and `vote` of src/grpc/user.rs, one after the other.
use app_center_ratings.Prelude.{
  ◌≢◌, ◌≡◌, refl, true, false, ◌==◌, some, find, length, byte_len, Text, text, ok, err,
}
use app_center_ratings.Prelude.Int.{pos, ltb_ℤ, IsI32, as_i32-as_u32}
use app_center_ratings.Auth.Status.{status, invalid_argument}
use app_center_ratings.Auth.Jwt.{Claims}
use app_center_ratings.Auth.Middleware.{Request}
use app_center_ratings.Db.Char.{char_store, char_store_exact, IsTrimmed}
use app_center_ratings.Db.Tables.{User, upsert_user, upsert_vote}
use app_center_ratings.Db.User.{create_or_seen, is_client}
use app_center_ratings.Db.Invariant.{IsValid}
use app_center_ratings.Db.Casting.{IsAccepted}
use app_center_ratings.Db.Arrival.{create_or_seen-found}
use app_center_ratings.Ratings.Update.{never_notifies}
use app_center_ratings.Grpc.World.{World, Env, conn}
use app_center_ratings.Grpc.User.{VoteRequest, authenticate, vote}
use app_center_ratings.Grpc.Voting.{vote_of, vote-counts}

module _ {F32 : Type 0} (env : Env) (id : Text) (w : World F32) where
  -- A hash of another length than 64 bytes is refused, and nothing is changed.
  pub authenticate-invalid_length :
      (byte_len id == 64) ≡ false
      → authenticate env id w
        ≡ (err (status invalid_argument (text "Client hash must be of length 64")), w)
  unfolding authenticate
  authenticate-invalid_length h = rw h refl

  authenticate-runs :
      {u : User} {token : Text}
      → (byte_len id == 64) ≡ true
      → env.connection ≡ ok tt
      → (create_or_seen env.session id w.stores.tables).0 ≡ ok u
      → env.jwt_encode u.client_hash ≡ ok token
      → ((authenticate env id w).0 ≡ ok token)
        × ((authenticate env id w).1.stores.tables
            ≡ (create_or_seen env.session id w.stores.tables).1)
  unfolding authenticate conn
  authenticate-runs long connected seen encoded =
      rw (long, connected) (rw seen (rw encoded (refl, refl)))

  module _ (valid : IsValid w.stores.tables) (trimmed : IsTrimmed id) (chars : length id ≡ 64)
      (bytes : (byte_len id == 64) ≡ true) (connected : env.connection ≡ ok tt)
      (answered : env.session.answers upsert_user ≡ true) {token : Text}
      (encoded : env.jwt_encode id ≡ ok token) where
    authenticate-found :
        (u : User) × ((authenticate env id w).0 ≡ ok token)
        × (find (is_client id) (authenticate env id w).1.stores.tables.users ≡ some u)
    authenticate-found =
        let fits : char_store 64 id ≡ some id = rw (← chars) (char_store_exact id) in
        let (u, seen, found, held) =
          create_or_seen-found env.session id id w.stores.tables valid trimmed fits answered in
        let (answer, tables) =
          authenticate-runs {u = u} {token = token} bytes connected seen (rw held encoded) in
        (u, answer, rw tables found)

    -- In valid tables and over connections and servers that answer, a client whose hash has
    -- 64 characters and bytes and ends in no space, and for which the encoder makes a token,
    -- is answered with that token, and after that a vote with claims of this hash, on a
    -- snap_id that fits and a revision of 32 bits above zero, is answered with success,
    -- unless it waits for another task's update of the snap's categories that never notifies
    -- it.
    pub authenticate_then_vote :
        (later : Env) {H : Type 0} (request : Request H VoteRequest) (claims : Claims) {snap : Text}
        → request.claims ≡ some claims
        → claims.sub ≡ id
        → later.connection ≡ ok tt
        → later.other_update request.body.snap_id ≢ never_notifies
        → later.session.answers upsert_vote ≡ true
        → char_store 32 request.body.snap_id ≡ some snap
        → IsI32 request.body.snap_revision
        → ltb_ℤ (pos 0) request.body.snap_revision ≡ true
        → ((authenticate env id w).0 ≡ ok token)
          × ((vote later request (authenticate env id w).1).0 ≡ ok tt)
    authenticate_then_vote later request claims {snap} carried own on ends takes fits small above =
        let (u, answer, found) = authenticate-found in
        let accepted : IsAccepted later.session (vote_of later claims request.body)
            (authenticate env id w).1.stores.tables u snap =
          record {
            answered = takes;
            known = rw own found;
            fits = fits;
            above = rw (as_i32-as_u32 request.body.snap_revision small) above;
          } in
        (
          answer,
          (vote-counts later request claims (authenticate env id w).1 carried on ends accepted
              snap).0,
        )
