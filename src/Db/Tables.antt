-- ===== src/Db/Tables.antt =====
-- sql/migrations: the rows of the three tables, and the errors of src/db/mod.rs.
use app_center_ratings.Prelude.{ℕ, Bool, List, [], Text}
use app_center_ratings.Prelude.Int.{ℤ}

-- `users`; a moment is a number, and client_hash is the stored CHAR(64).
pub record User : Type 0 where
  pub id : ℕ
  pub client_hash : Text
  pub created : ℕ
  pub last_seen : ℕ

-- `votes`; snap_id is the stored CHAR(32).
pub record VoteRow : Type 0 where
  pub id : ℕ
  pub created : ℕ
  pub user_id_fk : ℕ
  pub snap_id : Text
  pub snap_revision : ℤ
  pub vote_up : Bool

-- `snap_categories`.
pub record CategoryRow : Type 0 where
  pub id : ℕ
  pub snap_id : Text
  pub category : ℤ

-- The tables, each with the next number of its SERIAL column.
pub record Tables : Type 0 where
  pub users : List User
  pub users_id_seq : ℕ
  pub votes : List VoteRow
  pub votes_id_seq : ℕ
  pub snap_categories : List CategoryRow
  pub snap_categories_id_seq : ℕ

-- The tables after the migrations.
abbrev pub migrated : Tables
migrated = record {
  users = [];
  users_id_seq = 1;
  votes = [];
  votes_id_seq = 1;
  snap_categories = [];
  snap_categories_id_seq = 1;
}

-- Why the server or the driver refuses a statement.
pub data SqlxError : Type 0 where
  unreachable : SqlxError
  value_too_long not_null_violation check_violation syntax_error : SqlxError
  column_decode : SqlxError

-- `db::Error`.
pub data DbError : Type 0 where
  failed_to_create_user_record failed_to_delete_user_record : DbError
  failed_to_get_user_vote failed_to_cast_vote : DbError
  migration envy : DbError
  sqlx : SqlxError → DbError

-- The statements that the program sends.
pub data Statement : Type 0 where
  upsert_user delete_user select_user_votes upsert_vote : Statement
  select_summary select_summaries count_categories insert_categories : Statement

-- What the server decides while a request is served: which statements it answers at all, its clock,
-- and the values of `NOW() - INTERVAL '1 week'` and `NOW() - INTERVAL '1 month'`.
pub record Session : Type 0 where
  pub answers : Statement → Bool
  pub now : ℕ
  pub week_ago : ℕ
  pub month_ago : ℕ
