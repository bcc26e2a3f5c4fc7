-- ===== src/Ratings/Rating.antt =====
-- src/ratings/rating.rs: `Rating`, `calculate_band` and the Wilson bound.
use app_center_ratings.Prelude.{ℕ, Option, none, some, Text, if◌then◌else◌}
use app_center_ratings.Prelude.Int.{ℤ, pos, ltb_ℤ, eqb_ℤ, as_u64}
use app_center_ratings.Db.Summary.{VoteSummary}
use app_center_ratings.Ratings.Float.{Floats}
use app_center_ratings.Ratings.Band.{RatingsBand, insufficient_votes, from_value}

pub record Rating : Type 0 where
  pub snap_id : Text
  pub total_votes : ℕ
  pub ratings_band : RatingsBand

abbrev pub insufficient_votes_quantity : ℤ
insufficient_votes_quantity = pos 25

module _ (f : Floats) where
  -- `confidence_interval_lower_bound`.
  unfoldable pub confidence_interval_lower_bound : ℤ → ℤ → f.F64
  confidence_interval_lower_bound positive_ratings total_ratings =
      if eqb_ℤ total_ratings (pos 0)
      then f.hundredths 0
      else (let z_score = f.hundredths 196 in
          let z_squared = f.mul z_score z_score in
          let total = f.of_i64 total_ratings in
          let ratio = f.div (f.of_i64 positive_ratings) total in
          let centre = f.add ratio (f.div z_squared (f.mul (f.hundredths 200) total)) in
          let variance =
            f.add (f.mul ratio (f.sub (f.hundredths 100) ratio))
              (f.div z_squared (f.mul (f.hundredths 400) total)) in
          f.div (f.sub centre (f.mul z_score (f.sqrt (f.div variance total))))
            (f.add (f.hundredths 100) (f.div z_squared total)))

  unfoldable pub calculate_band : VoteSummary → Option f.F64 × RatingsBand
  calculate_band votes =
      if ltb_ℤ votes.total_votes insufficient_votes_quantity
      then (none, insufficient_votes)
      else (let adjusted_ratio =
            confidence_interval_lower_bound votes.positive_votes votes.total_votes in
          (some adjusted_ratio, from_value f adjusted_ratio))

  -- `Rating::from(VoteSummary)`.
  unfoldable pub rating_from_summary : VoteSummary → Rating
  rating_from_summary votes =
      let (_, ratings_band) = calculate_band votes in
      record {
        snap_id = votes.snap_id;
        total_votes = as_u64 votes.total_votes;
        ratings_band = ratings_band;
      }
