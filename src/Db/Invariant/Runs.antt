-- ===== src/Db/Invariant/Runs.antt =====
-- Every sequence of the program's writing statements, from the migrated tables on.
use app_center_ratings.Prelude.{Option, none, some, List, [], ◌∷◌, Text, inl, inr, Bool-cases}
use app_center_ratings.Db.Category.{Category}
use app_center_ratings.Db.Char.{char_store}
use app_center_ratings.Db.Tables.{Tables, Session, migrated, insert_categories}
use app_center_ratings.Db.User.{create_or_seen, delete_by_client_hash}
use app_center_ratings.Db.Vote.{Vote, save_to_db}
use app_center_ratings.Db.SnapCategories.{insert_rows, set_categories_for_snap}
use app_center_ratings.Db.Invariant.{IsValid}
use app_center_ratings.Db.Invariant.Keys.{
  HasKeys, MeetsMigrations, migrated-MeetsMigrations, create_or_seen-HasKeys,
  delete_by_client_hash-HasKeys, save_to_db-HasKeys,
}
use app_center_ratings.Db.Invariant.Keys.Categories.{set_categories_for_snap-HasKeys}
use app_center_ratings.Db.Invariant.Users.{create_or_seen-IsValid, delete_by_client_hash-IsValid}
use app_center_ratings.Db.Invariant.Votes.{save_to_db-IsValid}

-- The calls of src/db that write.
pub data Call : Type 0 where
  see_user : Session → Text → Call
  delete_client : Session → Text → Call
  cast_vote : Session → Vote → Call
  set_categories : Session → Text → List Category → Call

unfoldable pub run_call : Call → Tables → Tables
run_call (see_user s hash) t = (create_or_seen s hash t).1
run_call (delete_client s hash) t = (delete_by_client_hash s hash t).1
run_call (cast_vote s vote) t = (save_to_db s vote t).1
run_call (set_categories s snap_id categories) t =
    (set_categories_for_snap s snap_id categories t).1

unfoldable pub run_calls : List Call → Tables → Tables
run_calls [] t = t
run_calls (c ∷ cs) t = run_calls cs (run_call c t)

insert_rows-IsValid :
    (snap : Option Text) (cs : List Category) (t : Tables)
    → IsValid t
    → IsValid (insert_rows snap cs t).1
insert_rows-IsValid snap [] t h = h
insert_rows-IsValid none (c ∷ cs) t h = h
insert_rows-IsValid (some snap) (c ∷ cs) t h = record {
  one_per_hash = h.one_per_hash;
  one_per_id = h.one_per_id;
  ids_below = h.ids_below;
  owned = h.owned;
  one_per_key = h.one_per_key;
  checked = h.checked;
  full_hash = h.full_hash;
  full_snap = h.full_snap;
}

pub set_categories_for_snap-IsValid :
    (s : Session) (snap_id : Text) (cs : List Category) (t : Tables)
    → IsValid t
    → IsValid (set_categories_for_snap s snap_id cs t).1
unfolding set_categories_for_snap
set_categories_for_snap-IsValid s snap_id cs t h = elim (Bool-cases (s.answers insert_categories)) [
  | inr off ↦ rw off h
  | inl on ↦ rw on (insert_rows-IsValid (char_store 32 snap_id) cs t h)
]

pub run_call-IsValid : (c : Call) (t : Tables) → IsValid t → IsValid (run_call c t)
unfolding run_call
run_call-IsValid (see_user s hash) t h = create_or_seen-IsValid s hash t h
run_call-IsValid (delete_client s hash) t h = delete_by_client_hash-IsValid s hash t h
run_call-IsValid (cast_vote s vote) t h = save_to_db-IsValid s vote t h
run_call-IsValid (set_categories s snap_id cs) t h =
    set_categories_for_snap-IsValid s snap_id cs t h

pub run_calls-IsValid : (cs : List Call) (t : Tables) → IsValid t → IsValid (run_calls cs t)
unfolding run_calls
run_calls-IsValid [] t h = h
run_calls-IsValid (c ∷ cs) t h = run_calls-IsValid cs (run_call c t) (run_call-IsValid c t h)

run_call-HasKeys : (c : Call) (t : Tables) → HasKeys t → HasKeys (run_call c t)
unfolding run_call
run_call-HasKeys (see_user s hash) t h = create_or_seen-HasKeys s hash t h
run_call-HasKeys (delete_client s hash) t h = delete_by_client_hash-HasKeys s hash t h
run_call-HasKeys (cast_vote s vote) t h = save_to_db-HasKeys s vote t h
run_call-HasKeys (set_categories s snap_id cs) t h =
    set_categories_for_snap-HasKeys s snap_id cs t h

run_calls-MeetsMigrations :
    (cs : List Call) (t : Tables) → MeetsMigrations t → MeetsMigrations (run_calls cs t)
unfolding run_calls
run_calls-MeetsMigrations [] t h = h
run_calls-MeetsMigrations (c ∷ cs) t h =
    run_calls-MeetsMigrations cs (run_call c t)
      (record { valid = run_call-IsValid c t h.valid; keys = run_call-HasKeys c t h.keys })

-- Whatever users are created, seen and deleted, votes cast and categories stored, in any order
-- and with any statements refused, the tables meet the constraints of the migrations: the
-- primary keys of the three tables, all ids below the next number of their sequence, one user
-- for a hash, one vote for a user, a snap_id and a revision, each vote by a user that is there
-- and on a revision above zero, each category between 0 and 19, and all CHAR values as long as
-- their columns.
pub run_calls_from_migrated-MeetsMigrations :
    (cs : List Call) → MeetsMigrations (run_calls cs migrated)
run_calls_from_migrated-MeetsMigrations cs =
    run_calls-MeetsMigrations cs migrated migrated-MeetsMigrations
