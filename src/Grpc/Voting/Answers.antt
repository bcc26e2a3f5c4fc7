-- ===== src/Grpc/Voting/Answers.antt =====
-- How the handler `vote` of src/grpc/user.rs answers.
use app_center_ratings.Prelude.{
  ◌≡◌, refl, sym, ap, ◌∙◌, some, find, Text, ok, err, false, inl, inr, Result-cases,
}
use app_center_ratings.Auth.Status.{status, no_answer, internal, internal_server_error}
use app_center_ratings.Auth.Jwt.{Claims}
use app_center_ratings.Auth.Middleware.{Request}
use app_center_ratings.Db.Tables.{User, DbError, failed_to_cast_vote}
use app_center_ratings.Db.User.{is_client}
use app_center_ratings.Db.Casting.{IsAccepted}
use app_center_ratings.Db.Repetition.{SaveEnds, save_to_db-SaveEnds}
use app_center_ratings.Db.SnapCategories.{snap_has_categories}
use app_center_ratings.Ratings.Update.{never_notifies}
use app_center_ratings.Grpc.Access.{take_claims}
use app_center_ratings.Grpc.World.{World, Env, conn}
use app_center_ratings.Grpc.User.{VoteRequest, try_update_categories, vote}
use app_center_ratings.Grpc.Voting.{
  SameVotes, vote_of, updated, saved, conn_works, try_update_cases, try_update-SameVotes,
  vote_saves,
}

module _ {F32 H : Type 0} (env : Env) (request : Request H VoteRequest) (claims : Claims)
    (w : World F32) where
  -- How a vote ends.
  pub data VoteEnds : Type 0 where
    unconnected :
        (e : DbError)
        → env.connection ≡ err e
        → vote env request w ≡ (err (status internal (env.to_string e)), w)
        → VoteEnds
    unanswered :
        env.other_update request.body.snap_id ≡ never_notifies
        → snap_has_categories env.session request.body.snap_id w.stores.tables ≡ ok false
        → vote env request w ≡ (err no_answer, w)
        → VoteEnds
    accepted :
        (u : User) (snap : Text)
        → IsAccepted env.session (vote_of env claims request.body) w.stores.tables u snap
        → (vote env request w).0 ≡ ok tt
        → VoteEnds
    refused :
        (vote env request w).0 ≡ err internal_server_error
        → SameVotes w.stores.tables (vote env request w).1.stores.tables
        → VoteEnds

  cut_off :
      {e : DbError}
      → request.claims ≡ some claims
      → env.connection ≡ err e
      → vote env request w ≡ (err (status internal (env.to_string e)), w)
  unfolding vote take_claims conn
  cut_off carried lost = rw (carried, lost) refl

  fails :
      request.claims ≡ some claims
      → env.connection ≡ ok tt
      → (try_update_categories env request.body.snap_id w).0 ≡ ok tt
      → (saved env request claims w).0 ≡ err failed_to_cast_vote
      → ((vote env request w).0 ≡ err internal_server_error)
        × ((vote env request w).1.stores.tables ≡ (saved env request claims w).1)
  unfolding vote take_claims
  fails carried connected returns failed =
      rw carried (rw (conn_works env w connected) (rw (returns, failed) (refl, refl)))

  waits :
      request.claims ≡ some claims
      → env.connection ≡ ok tt
      → try_update_categories env request.body.snap_id w ≡ (err no_answer, w)
      → vote env request w ≡ (err no_answer, w)
  unfolding vote take_claims
  waits carried connected never = rw carried (rw (conn_works env w connected) (rw never refl))

  vote_returns :
      request.claims ≡ some claims
      → env.connection ≡ ok tt
      → (try_update_categories env request.body.snap_id w).0 ≡ ok tt
      → VoteEnds
  vote_returns carried connected returns =
      let same = try_update-SameVotes env request.body.snap_id w in
      elim (save_to_db-SaveEnds env.session (vote_of env claims request.body)
        (updated env request.body.snap_id w)) [
          | SaveEnds.saved u snap row a done stored way ↦
              accepted u snap
                (record {
                  answered = a.answered;
                  known = sym (ap (find (is_client claims.sub)) same.same_users) ∙ a.known;
                  fits = a.fits;
                  above = a.above;
                })
                (vote_saves env request claims w carried connected returns done).0
          | SaveEnds.refused refusal failed rows ↦
              let (answer, tables) = fails carried connected returns failed in
              refused answer (
                rw tables (record {
                  same_users = rows.same_users ∙ same.same_users;
                  same_votes = rows.same_votes ∙ same.same_votes;
                }))
        ]

  -- A vote request with claims ends in one of four ways: without a connection with an internal
  -- error that holds the database's text, and nothing changes; without an answer, where the
  -- snap has no categories and another task is updating them and never notifies this one, and
  -- nothing changes; with success, and then the user is there, the snap_id fits, the revision
  -- is above zero and the server answers; or with the general server error, and then all users
  -- and votes are as before.
  pub vote-VoteEnds : request.claims ≡ some claims → VoteEnds
  vote-VoteEnds carried = elim (Result-cases env.connection) [
    | inr (e, lost) ↦ unconnected e lost (cut_off carried lost)
    | inl (_, connected) ↦ elim (try_update_cases env request.body.snap_id w) [
      | inl returns ↦ vote_returns carried connected returns
      | inr (never, missing, stuck) ↦ unanswered never missing (waits carried connected stuck)
    ]
  ]
