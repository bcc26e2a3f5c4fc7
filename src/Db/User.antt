-- ===== src/Db/User.antt =====
-- src/db/user.rs: `User::create_or_seen` and `User::delete_by_client_hash`.
use app_center_ratings.Prelude.{
  ℕ, ◌+◌, Bool, not, ◌&&◌, Option, none, some, List, [], ◌∷◌, ◌++◌, ◌==◌, if◌then◌else◌, any, keep,
  find, Text, text_eq, Result, ok, err, map_err,
}
use app_center_ratings.Db.Char.{char_store, char_eq_text}
use app_center_ratings.Db.Tables.{
  User, VoteRow, Tables, SqlxError, DbError, Session, unreachable, value_too_long,
  failed_to_create_user_record, failed_to_delete_user_record, upsert_user, delete_user,
}

-- `DO UPDATE SET last_seen = NOW()`, on the row that conflicts.
unfoldable pub touch : Text → ℕ → List User → List User
touch hash now [] = []
touch hash now (u ∷ us) =
    let rest = touch hash now us in
    if text_eq u.client_hash hash then record u { last_seen = now } ∷ us else u ∷ rest

-- The row that conflicts with the new one is updated, or there is none and the new one goes in.
unfoldable pub insert_user : Session → Text → Option User → Tables → User × Tables
insert_user s hash (some u) t = (
  record u { last_seen = s.now },
  record t { users = touch hash s.now t.users; users_id_seq = t.users_id_seq + 1 },
)
insert_user s hash none t =
    let u : User = record {
      id = t.users_id_seq;
      client_hash = hash;
      created = s.now;
      last_seen = s.now;
    } in
    (u, record t { users = t.users ++ u ∷ []; users_id_seq = t.users_id_seq + 1 })

abbrev stored_user : Session → Option Text → Tables → Result SqlxError User × Tables
stored_user s none t = (err value_too_long, t)
stored_user s (some hash) t =
    let (u, t') = insert_user s hash (find (λ v. text_eq v.client_hash hash) t.users) t in
    (ok u, t')

-- `INSERT INTO users … ON CONFLICT (client_hash) DO UPDATE … RETURNING …`.
unfoldable pub upsert_user_row : Session → Text → Tables → Result SqlxError User × Tables
upsert_user_row s client_hash t =
    if s.answers upsert_user
    then stored_user s (char_store 64 client_hash) t
    else (err unreachable, t)

unfoldable pub create_or_seen : Session → Text → Tables → Result DbError User × Tables
unfolding upsert_user_row
create_or_seen s client_hash t =
    let (r, t') = upsert_user_row s client_hash t in
    (map_err (λ _. failed_to_create_user_record) r, t')

-- The users that `WHERE client_hash = $1` selects.
abbrev pub is_client : Text → User → Bool
is_client client_hash u = char_eq_text u.client_hash client_hash

-- `REFERENCES users(id) ON DELETE CASCADE`: the vote goes with its user.
abbrev pub loses_user : Text → List User → VoteRow → Bool
loses_user client_hash us v = any (λ u. is_client client_hash u && u.id == v.user_id_fk) us

-- `DELETE FROM users WHERE client_hash = $1`.
unfoldable pub delete_by_client_hash : Session → Text → Tables → Result DbError (Unit {0}) × Tables
delete_by_client_hash s client_hash t =
    if s.answers delete_user
    then (
      ok tt,
      record t {
        users = keep (λ u. not (is_client client_hash u)) t.users;
        votes = keep (λ v. not (loses_user client_hash t.users v)) t.votes;
      },
    )
    else (err failed_to_delete_user_record, t)
