-- ===== src/Ratings/Chart.antt =====
-- src/ratings/charts.rs: `ChartData` and `Chart::new`.
use Prim.Native.Nat.{Ordering}
use app_center_ratings.Prelude.{Option, none, some, List, [], ◌∷◌, map, take, if◌then◌else◌}
use app_center_ratings.Prelude.Int.{as_u64}
use app_center_ratings.Db.Category.{Timeframe}
use app_center_ratings.Db.Summary.{VoteSummary}
use app_center_ratings.Ratings.Float.{Floats, is_greater}
use app_center_ratings.Ratings.Rating.{Rating, calculate_band}

-- The slice's `sort_by`, which is stable: an item goes in front of the first one that it is not above.
module _ {ℓ} {A : Type ℓ} (compare_by : A → A → Ordering) where
  unfoldable pub insert_by : A → List A → List A
  insert_by x [] = x ∷ []
  insert_by x (y ∷ ys) =
      let rest = insert_by x ys in
      if is_greater (some (compare_by x y)) then y ∷ rest else x ∷ y ∷ ys

  unfoldable pub sort_by : List A → List A
  sort_by [] = []
  sort_by (x ∷ xs) = insert_by x (sort_by xs)

pub record ChartData (S : Type 0) : Type 0 where
  pub raw_rating : S
  pub rating : Rating

pub record Chart (S : Type 0) : Type 0 where
  pub timeframe : Timeframe
  pub chart_data : List (ChartData S)

-- `unwrap_or`.
abbrev pub unwrap_or {ℓ} : {A : Type ℓ} → A → Option A → A
unwrap_or d none = d
unwrap_or d (some x) = x

module _ (f : Floats) where
  -- `ChartData::from(VoteSummary)`.
  unfoldable pub chart_data_from_summary : VoteSummary → ChartData f.F32
  chart_data_from_summary vote_summary =
      let (raw_rating, ratings_band) = calculate_band f vote_summary in
      record {
        raw_rating = f.to_f32 (unwrap_or (f.hundredths 0) raw_rating);
        rating = record {
          snap_id = vote_summary.snap_id;
          total_votes = as_u64 vote_summary.total_votes;
          ratings_band = ratings_band;
        };
      }

  -- `b.raw_rating.partial_cmp(&a.raw_rating).unwrap_or(Ordering::Equal)`.
  unfoldable pub by_rating : ChartData f.F32 → ChartData f.F32 → Ordering
  by_rating a b = unwrap_or Ordering.eq (f.partial_cmp b.raw_rating a.raw_rating)

  unfoldable pub new_chart : Timeframe → List VoteSummary → Chart f.F32
  new_chart timeframe summaries = record {
    timeframe = timeframe;
    chart_data = take 20 (sort_by by_rating (map chart_data_from_summary summaries));
  }
