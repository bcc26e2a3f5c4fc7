-- ===== src/Db/Vote.antt =====
-- src/db/vote.rs: `Vote`, `Vote::save_to_db` and `Vote::get_all_by_client_hash`.
use app_center_ratings.Prelude.{
  ℕ, ◌+◌, Bool, true, ◌&&◌, Option, none, some, List, [], ◌∷◌, ◌++◌, ◌==◌, if◌then◌else◌, find,
  keep, Text, text_eq, Result, ok, err, map_err, ◌>>=◌,
}
use app_center_ratings.Prelude.Int.{ℤ, pos, negsuc, ltb_ℤ, eqb_ℤ, as_i32}
use app_center_ratings.Db.Char.{char_store, char_eq_text}
use app_center_ratings.Db.User.{is_client}
use app_center_ratings.Db.Tables.{
  User, VoteRow, Tables, SqlxError, DbError, Session, unreachable, value_too_long,
  not_null_violation, check_violation, column_decode, failed_to_get_user_vote, failed_to_cast_vote,
  upsert_vote, select_user_votes,
}

-- `Vote`; the revision is a u32.
pub record Vote : Type 0 where
  pub client_hash : Text
  pub snap_id : Text
  pub snap_revision : ℕ
  pub vote_up : Bool
  pub timestamp : ℕ

-- The rows of one key of the index idx_votes_unique_user_snap.
abbrev pub same_key : ℕ → Text → ℤ → VoteRow → Bool
same_key user snap revision v =
    v.user_id_fk == user && (text_eq v.snap_id snap && eqb_ℤ v.snap_revision revision)

-- `DO UPDATE SET vote_up = EXCLUDED.vote_up`, on the row that conflicts.
unfoldable pub change_vote : ℕ → Text → ℤ → Bool → List VoteRow → List VoteRow
change_vote user snap revision up [] = []
change_vote user snap revision up (v ∷ vs) =
    let rest = change_vote user snap revision up vs in
    if same_key user snap revision v then record v { vote_up = up } ∷ vs else v ∷ rest

-- The row that goes in; `created` has its default, NOW().
abbrev pub new_row : Session → ℕ → Text → ℤ → Bool → Tables → VoteRow
new_row s user snap revision up t = record {
  id = t.votes_id_seq;
  created = s.now;
  user_id_fk = user;
  snap_id = snap;
  snap_revision = revision;
  vote_up = up;
}

-- The row that conflicts with the new one is updated, or there is none and the new one goes in.
unfoldable pub place_vote : Session → ℕ → Text → ℤ → Bool → Option VoteRow → Tables → Tables
place_vote s user snap revision up (some _) t = record t {
  votes = change_vote user snap revision up t.votes;
  votes_id_seq = t.votes_id_seq + 1;
}
place_vote s user snap revision up none t = record t {
  votes = t.votes ++ new_row s user snap revision up t ∷ [];
  votes_id_seq = t.votes_id_seq + 1;
}

-- A number of the sequence is drawn before the row is checked, and not given back when it is refused.
abbrev pub draw_id : Tables → Tables
draw_id t = record t { votes_id_seq = t.votes_id_seq + 1 }

-- The constraints of `votes`: snap_id CHAR(32), to which the parameter is converted before the
-- statement runs, and user_id_fk NOT NULL and CHECK (snap_revision > 0), which the row is checked by.
unfoldable pub insert_vote :
    Session → Option User → Option Text → ℤ → Bool → Tables → Result SqlxError ℕ × Tables
insert_vote s user none revision up t = (err value_too_long, t)
insert_vote s none (some snap) revision up t = (err not_null_violation, draw_id t)
insert_vote s (some u) (some snap) revision up t =
    if ltb_ℤ (pos 0) revision
    then (ok 1, place_vote s u.id snap revision up (find (same_key u.id snap revision) t.votes) t)
    else (err check_violation, draw_id t)

-- `INSERT INTO votes … ON CONFLICT (user_id_fk, snap_id, snap_revision) DO UPDATE …`; the user is
-- the subquery's, NULL if there is none. The result is the number of rows affected.
unfoldable pub save_to_db : Session → Vote → Tables → Result DbError ℕ × Tables
save_to_db s vote t =
    if s.answers upsert_vote
    then (let user = find (is_client vote.client_hash) t.users in
        let (r, t') =
          insert_vote s user (char_store 32 vote.snap_id) (as_i32 vote.snap_revision) vote.vote_up
            t in
        (map_err (λ _. failed_to_cast_vote) r, t'))
    else (err failed_to_cast_vote, t)

-- `users INNER JOIN votes ON users.id = votes.user_id_fk`, with the conditions of the WHERE clause.
abbrev pub is_wanted : Option Text → VoteRow → Bool
is_wanted none v = true
is_wanted (some snap_id) v = char_eq_text v.snap_id snap_id

abbrev pub votes_of : User → Option Text → List VoteRow → List VoteRow
votes_of u filter votes = keep (λ v. v.user_id_fk == u.id && is_wanted filter v) votes

-- `#[sqlx(try_from = "i32")]`: a negative revision is no u32.
abbrev pub decode_revision : ℤ → Result SqlxError ℕ
decode_revision (pos n) = ok n
decode_revision (negsuc n) = err column_decode

abbrev pub decode_vote : User → VoteRow → Result SqlxError Vote
decode_vote u v = do
  revision ← decode_revision v.snap_revision
  ok (record {
    client_hash = u.client_hash;
    snap_id = v.snap_id;
    snap_revision = revision;
    vote_up = v.vote_up;
    timestamp = v.created;
  })

-- `fetch_all` decodes row by row and stops at the first error.
unfoldable pub decode_votes : User → List VoteRow → Result SqlxError (List Vote)
decode_votes u [] = ok []
decode_votes u (v ∷ vs) = do first ← decode_vote u v; rest ← decode_votes u vs; ok (first ∷ rest)

unfoldable pub join_votes :
    Text → Option Text → List User → List VoteRow → Result SqlxError (List Vote)
join_votes client_hash filter [] votes = ok []
join_votes client_hash filter (u ∷ us) votes = do
  mine ← (if is_client client_hash u then decode_votes u (votes_of u filter votes) else ok [])
  others ← join_votes client_hash filter us votes
  ok (mine ++ others)

unfoldable pub get_all_by_client_hash :
    Session → Text → Option Text → Tables → Result DbError (List Vote)
get_all_by_client_hash s client_hash snap_id_filter t =
    map_err (λ _. failed_to_get_user_vote)
      (if s.answers select_user_votes
        then join_votes client_hash snap_id_filter t.users t.votes
        else err unreachable)
