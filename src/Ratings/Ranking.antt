-- ===== src/Ratings/Ranking.antt =====
-- What `Chart::new` of src/ratings/charts.rs shows.
use Prim.Native.Nat.{min}
use app_center_ratings.Prelude.{◌+◌, ◌≡◌, Bool, false, List, map, count, length, All}
use app_center_ratings.Db.Category.{Timeframe}
use app_center_ratings.Db.Summary.{VoteSummary}
use app_center_ratings.Ratings.Float.{Floats, is_greater, IsNumber32, IsOrdered32}
use app_center_ratings.Ratings.Chart.{ChartData, sort_by, by_rating, chart_data_from_summary}
use app_center_ratings.Ratings.Sorting.{IsSorted, is_behind}

module _ (f : Floats) where
  -- `b` is rated above `a`.
  abbrev pub is_outrated : ChartData f.F32 → ChartData f.F32 → Bool
  is_outrated a b = is_greater (f.partial_cmp b.raw_rating a.raw_rating)

  -- What a chart shows of the data, and what it leaves out.
  pub record IsTop (shown left : List (ChartData f.F32)) (all : List (ChartData f.F32))
      : Type 0 where
    pub parts : (p : ChartData f.F32 → Bool) → count p shown + count p left ≡ count p all
    pub size : length shown ≡ min 20 (length all)
    pub best : All (λ a. All (λ b. is_behind (by_rating f) a b ≡ false) left) shown
    pub sorted : IsSorted (by_rating f) shown

  -- All ratings are numbers.
  abbrev pub AllNumbers : List (ChartData f.F32) → Type 0
  AllNumbers = All (λ d. IsNumber32 f d.raw_rating)

  module _ (o : IsOrdered32 f) (timeframe : Timeframe) (summaries : List VoteSummary) where
    abbrev pub candidates : List (ChartData f.F32)
    candidates = map (chart_data_from_summary f) summaries

    abbrev ordered : List (ChartData f.F32)
    ordered = sort_by (by_rating f) candidates
