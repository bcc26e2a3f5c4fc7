-- ===== src/Db/Charting.antt =====
-- The query that `VoteSummary::get_for_timeframe` of src/db/vote.rs builds: which votes it counts,
-- and when the server refuses it.
use app_center_ratings.Prelude.{
  ◌≡◌, ◌≢◌, ◌⊎◌, refl, ap, Bool, true, ◌&&◌, Option, none, some, List, [], ◌∷◌, arith, ltb, leb,
  if◌then◌else◌, any, find, keep, length, Text, text_eq, ok, err,
}
use app_center_ratings.Prelude.Int.{eqb_ℤ}
use app_center_ratings.Db.Category.{Category, category_as_i32, Timeframe, unspecified, week, month}
use app_center_ratings.Db.Tables.{
  VoteRow, CategoryRow, Tables, Session, sqlx, syntax_error, select_summaries,
}
use app_center_ratings.Db.Summary.{
  VoteSummary, total_of, summary_of, group_by_snap_id, get_for_timeframe,
}
use app_center_ratings.Db.Grouping.{sum_totals, group_by_snap_id-totals, find-group_by_snap_id}

-- The votes that a chart is meant to count: cast in the time, and on a snap of the category.
abbrev pub in_time : Session → Timeframe → VoteRow → Bool
in_time s unspecified v = true
in_time s week v = leb s.week_ago v.created
in_time s month v = leb s.month_ago v.created

abbrev pub in_chart : List CategoryRow → Option Category → VoteRow → Bool
in_chart rows none v = true
in_chart rows (some c) v =
    any (λ r. text_eq r.snap_id v.snap_id && eqb_ℤ r.category (category_as_i32 c)) rows

abbrev pub chart_votes : Session → Timeframe → Option Category → Tables → List VoteRow
chart_votes s timeframe category t =
    keep (λ v. in_time s timeframe v && in_chart t.snap_categories category v) t.votes

-- The rows are the groups of these votes: one row for each snap with such a vote, with its counts,
-- and every vote in one of them.
pub record Groups (votes : List VoteRow) (rows : List VoteSummary) : Type 0 where
  pub row :
      (k : Text)
      → find (λ r. text_eq r.snap_id k) rows
        ≡ (if ltb 0 (total_of k votes) then some (summary_of votes k) else none)
  pub complete : sum_totals rows ≡ length votes

pub group_by_snap_id-Groups : (votes : List VoteRow) → Groups votes (group_by_snap_id votes)
group_by_snap_id-Groups votes = record {
  row = find-group_by_snap_id votes;
  complete = group_by_snap_id-totals votes;
}

keep-ext :
    (p q : VoteRow → Bool) (vs : List VoteRow) → ((v : VoteRow) → p v ≡ q v) → keep p vs ≡ keep q vs
keep-ext p q [] same = refl
keep-ext p q (v ∷ vs) same = ground (arith, same v, keep-ext p q vs same)

keep-all : (p : VoteRow → Bool) (vs : List VoteRow) → ((v : VoteRow) → p v ≡ true) → keep p vs ≡ vs
keep-all p [] every = refl
keep-all p (v ∷ vs) every = ground (arith, every v, keep-all p vs every)

-- Not both a time and a category.
abbrev pub IsSingle : Timeframe → Option Category → Type 0
IsSingle timeframe category = (timeframe ≡ unspecified) ⊎ (category ≡ none)

pub query_groups :
    (s : Session) (timeframe : Timeframe) (category : Option Category) (t : Tables)
    → s.answers select_summaries ≡ true
    → IsSingle timeframe category
    → get_for_timeframe s timeframe category t
      ≡ ok (group_by_snap_id (chart_votes s timeframe category t))
unfolding get_for_timeframe
query_groups s unspecified none t on h = rw (on, keep-all (λ v. true) t.votes (λ v. refl)) refl
query_groups s unspecified (some c) t on h = rw on refl
query_groups s week none t on h =
    let same =
      keep-ext (λ v. in_time s week v) (λ v. in_time s week v && true) t.votes
        (λ v. ground arith) in
    rw on (ap (λ vs. ok (group_by_snap_id vs)) same)
query_groups s month none t on h =
    let same =
      keep-ext (λ v. in_time s month v) (λ v. in_time s month v && true) t.votes
        (λ v. ground arith) in
    rw on (ap (λ vs. ok (group_by_snap_id vs)) same)
query_groups s week (some c) t on h = absurd (ground arith)
query_groups s month (some c) t on h = absurd (ground arith)

-- Over a server that answers, a query with a time or a category, but not both, finds for each
-- snap_id that has votes in that time and category the summary of those votes and for any other
-- none, and the totals of its rows add up to the number of all those votes.
pub get_for_timeframe-Groups :
    (s : Session) (timeframe : Timeframe) (category : Option Category) (t : Tables)
    → s.answers select_summaries ≡ true
    → IsSingle timeframe category
    → (rows : List VoteSummary) × (get_for_timeframe s timeframe category t ≡ ok rows)
      × Groups (chart_votes s timeframe category t) rows
get_for_timeframe-Groups s timeframe category t on h = (
  group_by_snap_id (chart_votes s timeframe category t),
  query_groups s timeframe category t on h,
  group_by_snap_id-Groups (chart_votes s timeframe category t),
)

-- A query for a category over the last week or month reaches a server that answers with two
-- WHERE clauses and is refused as a syntax error, whatever the tables hold.
pub get_for_timeframe-refused :
    (s : Session) (timeframe : Timeframe) (category : Category) (t : Tables)
    → s.answers select_summaries ≡ true
    → timeframe ≢ unspecified
    → get_for_timeframe s timeframe (some category) t ≡ err (sqlx syntax_error)
unfolding get_for_timeframe
get_for_timeframe-refused s unspecified category t on timed = absurd (timed refl)
get_for_timeframe-refused s week category t on timed = rw on refl
get_for_timeframe-refused s month category t on timed = rw on refl
