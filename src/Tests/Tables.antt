-- ===== src/Tests/Tables.antt =====
-- The theorems on the tables and on votes, at sample calls.
use app_center_ratings.Prelude.{
  ◌+◌, ◌≡◌, ℕ, refl, ap, ◌∙◌, Result, some, find, ◌&&◌, none, [], ◌∷◌, if◌then◌else◌, count, ◌==◌,
  text_eq, ok, err,
}
use app_center_ratings.Prelude.Int.{as_i32}
use app_center_ratings.Db.Category.{Category}
use app_center_ratings.Db.Tables.{Tables, migrated, DbError, failed_to_cast_vote}
use app_center_ratings.Db.User.{is_client, delete_by_client_hash}
use app_center_ratings.Db.Vote.{save_to_db, get_all_by_client_hash}
use app_center_ratings.Db.Summary.{total_of, positive_of, is_for}
use app_center_ratings.Db.Invariant.Keys.{MeetsMigrations}
use app_center_ratings.Db.Invariant.Runs.{
  see_user, delete_client, cast_vote, set_categories, run_calls,
  run_calls_from_migrated-MeetsMigrations,
}
use app_center_ratings.Db.Casting.{
  previous, added, replaced, save_to_db_accepted, save_to_db-counts,
}
use app_center_ratings.Db.Invariant.{IsValid}
use app_center_ratings.Db.Invariant.Votes.{save_to_db-IsValid}
use app_center_ratings.Db.Rows.{SameRows}
use app_center_ratings.Db.Repetition.{
  users-place_vote, SaveEnds, save_to_db-SaveEnds, save_to_db_again,
}
use app_center_ratings.Db.Deletion.{delete-forgets, delete-counts}
use app_center_ratings.Tests.Samples.{
  client, snap, session, user, one_user, one_user-IsValid, up_vote, up_vote-IsAccepted,
}

save_to_db-counts_example :
    ((save_to_db session up_vote one_user).0 ≡ ok 1)
    × (total_of snap (save_to_db session up_vote one_user).1.votes
        ≡ total_of snap one_user.votes
          + (if text_eq snap snap then added (previous up_vote one_user user snap) else 0))
    × (positive_of snap (save_to_db session up_vote one_user).1.votes
          + (if text_eq snap snap then replaced (previous up_vote one_user user snap) else 0)
        ≡ positive_of snap one_user.votes + (if text_eq snap snap then 1 else 0))
save_to_db-counts_example = save_to_db-counts session up_vote one_user up_vote-IsAccepted snap

run_calls_from_migrated-MeetsMigrations_example : MeetsMigrations (
    run_calls
      (see_user session client
        ∷ cast_vote session up_vote
        ∷ set_categories session snap (Category.games ∷ [])
        ∷ delete_client session client
        ∷ [])
      migrated)
run_calls_from_migrated-MeetsMigrations_example = run_calls_from_migrated-MeetsMigrations (
    see_user session client
    ∷ cast_vote session up_vote
    ∷ set_categories session snap (Category.games ∷ [])
    ∷ delete_client session client
    ∷ [])

save_to_db_again_example :
    ((save_to_db session up_vote (save_to_db session up_vote one_user).1).0 ≡ ok 1)
    × ((save_to_db session up_vote (save_to_db session up_vote one_user).1).1.votes
        ≡ (save_to_db session up_vote one_user).1.votes)
save_to_db_again_example = save_to_db_again session session up_vote one_user up_vote-IsAccepted refl

abbrev voted : Tables
voted = (save_to_db session up_vote one_user).1

delete-forgets_example :
    (get_all_by_client_hash session client none (delete_by_client_hash session client voted).1
      ≡ ok [])
    × ((save_to_db session up_vote (delete_by_client_hash session client voted).1).0
        ≡ err failed_to_cast_vote)
    × SameRows
        (delete_by_client_hash session client voted).1
        (save_to_db session up_vote (delete_by_client_hash session client voted).1).1
delete-forgets_example = delete-forgets session client voted refl session none up_vote refl refl

save_to_db-SaveEnds_example : SaveEnds session up_vote migrated
save_to_db-SaveEnds_example = save_to_db-SaveEnds session up_vote migrated

voted-IsValid : IsValid voted
voted-IsValid = save_to_db-IsValid session up_vote one_user one_user-IsValid

voted-known : find (is_client client) voted.users ≡ some user
voted-known =
    ap (λ (p : Result DbError ℕ × Tables). find (is_client client) p.1.users)
      (save_to_db_accepted session up_vote one_user up_vote-IsAccepted)
    ∙ ap (find (is_client client)) (
        users-place_vote session user.id snap (as_i32 up_vote.snap_revision) up_vote.vote_up
          (previous up_vote one_user user snap) one_user)
    ∙ up_vote-IsAccepted.known

delete-counts_example :
    (total_of snap (delete_by_client_hash session client voted).1.votes
        + count (λ v. is_for snap v && v.user_id_fk == user.id) voted.votes
      ≡ total_of snap voted.votes)
    × (positive_of snap (delete_by_client_hash session client voted).1.votes
          + count (λ v. (is_for snap v && v.vote_up) && v.user_id_fk == user.id) voted.votes
        ≡ positive_of snap voted.votes)
delete-counts_example = delete-counts session client voted voted-IsValid refl voted-known snap
