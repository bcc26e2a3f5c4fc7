-- ===== src/Grpc/App.antt =====
-- src/grpc/app.rs: `get_rating`, with the cache of src/db/vote.rs in front of the summary.
use app_center_ratings.Prelude.{
  ℕ, Option, none, some, if◌then◌else◌, is_empty, Text, text, Result, ok, err, map_err,
}
use app_center_ratings.Prelude.Int.{ℤ}
use app_center_ratings.Auth.Status.{Failure, status, invalid_argument, internal_server_error}
use app_center_ratings.Db.Tables.{DbError}
use app_center_ratings.Db.Summary.{VoteSummary, get_by_snap_id_uncached}
use app_center_ratings.Ratings.Float.{Floats}
use app_center_ratings.Ratings.Band.{band_as_i32, band_from_repr}
use app_center_ratings.Ratings.Rating.{Rating, rating_from_summary}
use app_center_ratings.Ratings.SnapcraftIo.{store}
use app_center_ratings.Grpc.World.{World, Env, Handler, pure, fail, ◌>>=◌, ◌>>◌, conn, snap_name_or}

-- `Rating` of src/proto/ratings.features.common.rs.
pub record PbRating : Type 0 where
  pub snap_id : Text
  pub total_votes : ℕ
  pub ratings_band : ℤ
  pub snap_name : Text

-- `PbRating::from_rating_and_snap_name`.
abbrev pub pb_rating : Rating → Text → PbRating
pb_rating rating snap_name = record {
  snap_id = rating.snap_id;
  total_votes = rating.total_votes;
  ratings_band = band_as_i32 rating.ratings_band;
  snap_name = snap_name;
}

-- `Rating::from(PbRating)`; the `unwrap` panics at a number that is no band's.
unfoldable pub rating_from_pb : PbRating → Option Rating
rating_from_pb r = elim (band_from_repr r.ratings_band) [
  | none ↦ none
  | some band ↦
      some (record { snap_id = r.snap_id; total_votes = r.total_votes; ratings_band = band })
]

module _ (f : Floats) (env : Env) where
  abbrev pub keep_summary :
      Text → World f.F32 → Result DbError VoteSummary → Result DbError VoteSummary × World f.F32
  keep_summary snap_id w (ok votes) =
      (ok votes, record w { summaries = store snap_id votes w.summaries })
  keep_summary snap_id w (err e) = (err e, w)

  abbrev pub recall_summary :
      Text → World f.F32 → Option VoteSummary → Result DbError VoteSummary × World f.F32
  recall_summary snap_id w (some votes) = (ok votes, w)
  recall_summary snap_id w none =
      keep_summary snap_id w (get_by_snap_id_uncached env.session snap_id w.stores.tables)

  -- `get_by_snap_id_cached`: a summary that is kept, or what the query gives, which is kept.
  unfoldable pub get_by_snap_id_cached :
      Text → World f.F32 → Result DbError VoteSummary × World f.F32
  get_by_snap_id_cached snap_id w = recall_summary snap_id w (w.summaries snap_id)

  abbrev pub summary_or : Failure → Text → Handler f.F32 VoteSummary
  summary_or failure snap_id w =
      let (r, w') = get_by_snap_id_cached snap_id w in (map_err (λ _. failure) r, w')

  -- `get_rating`.
  unfoldable pub get_rating : Text → Handler f.F32 PbRating
  get_rating snap_id =
      if is_empty snap_id then fail (status invalid_argument (text "snap id")) else do
        conn env
        votes ← summary_or internal_server_error snap_id
        let rating = rating_from_summary f votes
        snap_name ← snap_name_or env internal_server_error rating.snap_id
        pure (pb_rating rating snap_name)
