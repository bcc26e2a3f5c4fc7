-- ===== src/Db/Summary.antt =====
-- src/db/vote.rs: `VoteSummary`, its query for one snap, and the query that
-- `VoteSummary::get_for_timeframe` builds for the charts.
use app_center_ratings.Prelude.{
  ℕ, Bool, not, ◌&&◌, Option, none, some, List, [], ◌∷◌, ◌++◌, leb, if◌then◌else◌, any, keep, count,
  Text, text_eq, Result, ok, err, map_err, map,
}
use app_center_ratings.Prelude.Int.{ℤ, pos, eqb_ℤ}
use app_center_ratings.Db.Category.{Category, category_as_i32, Timeframe, unspecified, week, month}
use app_center_ratings.Db.Char.{char_eq_text}
use app_center_ratings.Db.Tables.{
  VoteRow, CategoryRow, Tables, SqlxError, DbError, Session, unreachable, syntax_error, sqlx,
  select_summary, select_summaries,
}

-- `VoteSummary`; the two counts are i64.
pub record VoteSummary : Type 0 where
  pub snap_id : Text
  pub total_votes : ℤ
  pub positive_votes : ℤ

abbrev pub is_for : Text → VoteRow → Bool
is_for snap v = text_eq v.snap_id snap

-- `COUNT(*)` and `COUNT(*) FILTER (WHERE votes.vote_up)` of the group of one stored snap_id.
abbrev pub total_of : Text → List VoteRow → ℕ
total_of snap votes = count (is_for snap) votes

abbrev pub positive_of : Text → List VoteRow → ℕ
positive_of snap votes = count (λ v. is_for snap v && v.vote_up) votes

abbrev pub summary_of : List VoteRow → Text → VoteSummary
summary_of votes snap = record {
  snap_id = snap;
  total_votes = pos (total_of snap votes);
  positive_votes = pos (positive_of snap votes);
}

-- The groups of `GROUP BY votes.snap_id`, by their first rows.
unfoldable pub group_keys : List VoteRow → List Text
group_keys [] = []
group_keys (v ∷ vs) = v.snap_id ∷ keep (λ k. not (text_eq k v.snap_id)) (group_keys vs)

unfoldable pub group_by_snap_id : List VoteRow → List VoteSummary
unfolding group_keys
group_by_snap_id votes = map (summary_of votes) (group_keys votes)

-- The summary where the query found no row.
abbrev pub no_votes : Text → VoteSummary
no_votes snap_id = record { snap_id = snap_id; total_votes = pos 0; positive_votes = pos 0 }

abbrev pub first_or : VoteSummary → List VoteSummary → VoteSummary
first_or d [] = d
first_or d (x ∷ xs) = x

-- The body of `get_by_snap_id_cached`, which runs where its cache holds nothing: `WHERE
-- votes.snap_id = $1 GROUP BY votes.snap_id`.
unfoldable pub get_by_snap_id_uncached : Session → Text → Tables → Result DbError VoteSummary
unfolding group_by_snap_id
get_by_snap_id_uncached s snap_id t =
    if s.answers select_summary
    then (let rows = group_by_snap_id (keep (λ v. char_eq_text v.snap_id snap_id) t.votes) in
        ok (first_or (no_votes snap_id) rows))
    else err (sqlx unreachable)

-- The intervals and the conditions in the text of the query.
pub data Interval : Type 0 where
  one_week one_month : Interval

pub data Condition : Type 0 where
  created_since : Interval → Condition
  in_category : Category → Condition

-- The pieces of SQL that the builder is given, in the order of the `push` calls.
pub data Fragment : Type 0 where
  select_from_votes : Fragment
  where_clause : Condition → Fragment
  group_by_clause : Fragment

abbrev pub push_timeframe : Timeframe → List Fragment
push_timeframe week = where_clause (created_since one_week) ∷ []
push_timeframe month = where_clause (created_since one_month) ∷ []
push_timeframe unspecified = []

abbrev pub push_category : Option Category → List Fragment
push_category (some category) = where_clause (in_category category) ∷ []
push_category none = []

abbrev pub build_query : Timeframe → Option Category → List Fragment
build_query timeframe category =
    select_from_votes
    ∷ (push_timeframe timeframe ++ (push_category category ++ group_by_clause ∷ []))

abbrev pub cutoff : Session → Interval → ℕ
cutoff s one_week = s.week_ago
cutoff s one_month = s.month_ago

abbrev pub holds : Session → List CategoryRow → Condition → VoteRow → Bool
holds s rows (created_since interval) v = leb (cutoff s interval) v.created
holds s rows (in_category category) v =
    any (λ r. text_eq r.snap_id v.snap_id && eqb_ℤ r.category (category_as_i32 category)) rows

-- What the server answers to the text: the grammar of SELECT takes one WHERE clause at most.
unfoldable pub run_query : Session → Tables → List Fragment → Result SqlxError (List VoteSummary)
unfolding group_by_snap_id
run_query s t (select_from_votes ∷ group_by_clause ∷ []) = ok (group_by_snap_id t.votes)
run_query s t (select_from_votes ∷ where_clause c ∷ group_by_clause ∷ []) =
    ok (group_by_snap_id (keep (holds s t.snap_categories c) t.votes))
run_query s t _ = err syntax_error

unfoldable pub get_for_timeframe :
    Session → Timeframe → Option Category → Tables → Result DbError (List VoteSummary)
unfolding run_query
get_for_timeframe s timeframe category t = map_err sqlx (
    if s.answers select_summaries
    then run_query s t (build_query timeframe category)
    else err unreachable)
