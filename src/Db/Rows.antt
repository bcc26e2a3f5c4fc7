-- ===== src/Db/Rows.antt =====
-- The statement of `save_to_db` in src/db/vote.rs, where it is refused: the rows of the tables,
-- without the sequences that number them.
use app_center_ratings.Prelude.{◌≡◌, refl, none, err, find, inl, inr, Bool-cases, Option-cases}
use app_center_ratings.Db.Char.{char_store}
use app_center_ratings.Db.Tables.{Tables, Session, failed_to_cast_vote, upsert_vote}
use app_center_ratings.Db.User.{is_client}
use app_center_ratings.Db.Vote.{Vote, draw_id, insert_vote, save_to_db}

-- The rows of the three tables are the same.
pub record SameRows (t t' : Tables) : Type 0 where
  pub same_users : t'.users ≡ t.users
  pub same_votes : t'.votes ≡ t.votes
  pub same_categories : t'.snap_categories ≡ t.snap_categories

pub same_rows : (t : Tables) → SameRows t t
same_rows t = record { same_users = refl; same_votes = refl; same_categories = refl }

pub draw_id-SameRows : (t : Tables) → SameRows t (draw_id t)
draw_id-SameRows t = record { same_users = refl; same_votes = refl; same_categories = refl }

pub save_to_db_unknown :
    (s : Session) (vote : Vote) (t : Tables)
    → find (is_client vote.client_hash) t.users ≡ none
    → ((save_to_db s vote t).0 ≡ err failed_to_cast_vote) × SameRows t (save_to_db s vote t).1
unfolding save_to_db insert_vote
save_to_db_unknown s vote t e = elim (Bool-cases (s.answers upsert_vote)) [
  | inr off ↦ rw off (refl, same_rows t)
  | inl on ↦ elim (Option-cases (char_store 32 vote.snap_id)) [
    | inl long ↦ rw (on, e, long) (refl, same_rows t)
    | inr (snap, fits) ↦ rw (on, e, fits) (refl, draw_id-SameRows t)
  ]
]
