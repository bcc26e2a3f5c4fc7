-- ===== src/Db/Ballots/Refinement.antt =====
-- Every sequence of the calls of src/db that write, as the ballots see it.
use app_center_ratings.Prelude.{
  ◌≡◌, refl, ap, ◌∙◌, Option, none, some, List, [], ◌∷◌, Text, inl, inr, Bool-cases,
}
use app_center_ratings.Db.Category.{Category}
use app_center_ratings.Db.Char.{char_store}
use app_center_ratings.Db.Tables.{Tables, Session, migrated, insert_categories}
use app_center_ratings.Db.SnapCategories.{insert_rows, set_categories_for_snap}
use app_center_ratings.Db.Invariant.{IsValid, migrated-IsValid}
use app_center_ratings.Db.Invariant.Runs.{
  Call, see_user, delete_client, cast_vote, set_categories, run_call, run_calls, run_call-IsValid,
}
use app_center_ratings.Db.Ballots.{ballots_of, play_call, play_calls, no_ballots}
use app_center_ratings.Db.Ballots.Users.{ballots_of-create_or_seen}
use app_center_ratings.Db.Ballots.Votes.{ballots_of-save_to_db}
use app_center_ratings.Db.Ballots.Deleted.{ballots_of-delete}

ballots_of-insert_rows :
    (snap : Option Text) (cs : List Category) (t : Tables)
    → ballots_of (insert_rows snap cs t).1 ≡ ballots_of t
unfolding ballots_of
ballots_of-insert_rows snap [] t = refl
ballots_of-insert_rows none (c ∷ cs) t = refl
ballots_of-insert_rows (some snap) (c ∷ cs) t = refl

pub ballots_of-set_categories :
    (s : Session) (snap_id : Text) (cs : List Category) (t : Tables)
    → ballots_of (set_categories_for_snap s snap_id cs t).1 ≡ ballots_of t
unfolding set_categories_for_snap
ballots_of-set_categories s snap_id cs t = elim (Bool-cases (s.answers insert_categories)) [
  | inr off ↦ rw off refl
  | inl on ↦ rw on (ballots_of-insert_rows (char_store 32 snap_id) cs t)
]

ballots_of-run_call :
    (c : Call) (t : Tables) → IsValid t → ballots_of (run_call c t) ≡ play_call c (ballots_of t)
unfolding run_call
ballots_of-run_call (see_user s hash) t valid = ballots_of-create_or_seen s hash t valid
ballots_of-run_call (delete_client s hash) t valid = ballots_of-delete s hash t valid
ballots_of-run_call (cast_vote s vote) t valid = ballots_of-save_to_db s vote t valid
ballots_of-run_call (set_categories s snap_id cs) t valid = ballots_of-set_categories s snap_id cs t

pub run_calls-refines :
    (cs : List Call) (t : Tables)
    → IsValid t
    → ballots_of (run_calls cs t) ≡ play_calls cs (ballots_of t)
unfolding run_calls
run_calls-refines [] t valid = refl
run_calls-refines (c ∷ cs) t valid =
    run_calls-refines cs (run_call c t) (run_call-IsValid c t valid)
    ∙ ap (play_calls cs) (ballots_of-run_call c t valid)

-- Whatever users are created, seen and deleted, votes cast and categories stored, in any order
-- and with any statements refused, what the tables then say of which clients there are, and of
-- which way each client votes on each revision of a snap, is what the same calls make of a
-- specification without rows, ids and cascades: a known set of clients and one ballot of each
-- for a snap and a revision.
pub run_calls_from_migrated-refines :
    (cs : List Call) → ballots_of (run_calls cs migrated) ≡ play_calls cs no_ballots
run_calls_from_migrated-refines cs =
    run_calls-refines cs migrated migrated-IsValid ∙ ap (play_calls cs) start
  where
    start : ballots_of migrated ≡ no_ballots
    start = unfold ballots_of in refl
