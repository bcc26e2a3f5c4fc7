-- ===== src/Tests/Ballots.antt =====
-- The theorems on what clients hold of snaps, at sample calls.
use app_center_ratings.Prelude.{◌≡◌, refl, some, List, [], ◌∷◌, ok}
use app_center_ratings.Db.Category.{Category}
use app_center_ratings.Db.Tables.{Tables, migrated}
use app_center_ratings.Db.Vote.{Vote, save_to_db, get_all_by_client_hash}
use app_center_ratings.Db.Invariant.Votes.{save_to_db-IsValid}
use app_center_ratings.Db.Invariant.Runs.{
  Call, see_user, delete_client, cast_vote, set_categories, run_calls,
}
use app_center_ratings.Db.Ballots.{ballots_of, play_calls, no_ballots}
use app_center_ratings.Db.Ballots.Refinement.{run_calls_from_migrated-refines}
use app_center_ratings.Db.Ballots.ReadOut.{Reads, get_all_by_client_hash-Reads}
use app_center_ratings.Tests.Samples.{client, snap, session, one_user, one_user-IsValid, up_vote}

abbrev calls : List Call
calls =
    see_user session client
    ∷ cast_vote session up_vote
    ∷ set_categories session snap (Category.games ∷ [])
    ∷ delete_client session client
    ∷ see_user session client
    ∷ cast_vote session up_vote
    ∷ []

run_calls_from_migrated-refines_example :
    ballots_of (run_calls calls migrated) ≡ play_calls calls no_ballots
run_calls_from_migrated-refines_example = run_calls_from_migrated-refines calls

abbrev voted : Tables
voted = (save_to_db session up_vote one_user).1

get_all_by_client_hash-Reads_example :
    (votes : List Vote) × (get_all_by_client_hash session client (some snap) voted ≡ ok votes)
    × Reads client (some snap) (ballots_of voted) votes
get_all_by_client_hash-Reads_example =
    get_all_by_client_hash-Reads session client (some snap) voted
      (save_to_db-IsValid session up_vote one_user one_user-IsValid) refl
