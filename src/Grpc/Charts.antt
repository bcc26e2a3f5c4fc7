-- ===== src/Grpc/Charts.antt =====
-- src/grpc/charts.rs: `get_chart`, with the cache of its charts.
use app_center_ratings.Prelude.{
  Option, none, some, List, [], ◌∷◌, ◌++◌, if◌then◌else◌, is_empty, Text, text, Result, ok, err,
  map_err,
}
use app_center_ratings.Prelude.Int.{ℤ}
use app_center_ratings.Auth.Status.{
  Failure, status, invalid_argument, not_found, internal_server_error,
}
use app_center_ratings.Db.Category.{
  Category, category_as_i32, category_from_repr, Timeframe, unspecified, week, month,
  timeframe_as_i32, timeframe_from_repr,
}
use app_center_ratings.Db.Tables.{DbError}
use app_center_ratings.Db.Summary.{VoteSummary, get_for_timeframe}
use app_center_ratings.Ratings.Float.{Floats}
use app_center_ratings.Ratings.Chart.{ChartData, Chart, new_chart, unwrap_or}
use app_center_ratings.Ratings.SnapcraftIo.{store}
use app_center_ratings.Grpc.App.{PbRating, pb_rating}
use app_center_ratings.Grpc.World.{World, Env, Handler, pure, fail, lift, ◌>>=◌, snap_name_or}

-- `GetChartRequest`, `ChartData` and `GetChartResponse` of src/proto/ratings.features.chart.rs.
pub record GetChartRequest : Type 0 where
  pub timeframe : ℤ
  pub category : Option ℤ

pub record PbChartData (F32 : Type 0) : Type 0 where
  pub raw_rating : F32
  pub rating : Option PbRating

pub record GetChartResponse (F32 : Type 0) : Type 0 where
  pub timeframe : ℤ
  pub category : Option ℤ
  pub ordered_chart_data : List (PbChartData F32)

-- `{:?}` of the two enums: the names of the variants.
abbrev pub debug_category : Category → Text
debug_category Category.art_and_design = text "ArtAndDesign"
debug_category Category.books_and_reference = text "BooksAndReference"
debug_category Category.development = text "Development"
debug_category Category.devices_and_iot = text "DevicesAndIot"
debug_category Category.education = text "Education"
debug_category Category.entertainment = text "Entertainment"
debug_category Category.featured = text "Featured"
debug_category Category.finance = text "Finance"
debug_category Category.games = text "Games"
debug_category Category.health_and_fitness = text "HealthAndFitness"
debug_category Category.music_and_audio = text "MusicAndAudio"
debug_category Category.news_and_weather = text "NewsAndWeather"
debug_category Category.personalisation = text "Personalisation"
debug_category Category.photo_and_video = text "PhotoAndVideo"
debug_category Category.productivity = text "Productivity"
debug_category Category.science = text "Science"
debug_category Category.security = text "Security"
debug_category Category.server_and_cloud = text "ServerAndCloud"
debug_category Category.social = text "Social"
debug_category Category.utilities = text "Utilities"

abbrev pub debug_timeframe : Timeframe → Text
debug_timeframe unspecified = text "Unspecified"
debug_timeframe week = text "Week"
debug_timeframe month = text "Month"

abbrev debug_option : Option Category → Text
debug_option none = text "None"
debug_option (some c) = text "Some(" ++ (debug_category c ++ text ")")

-- The key of the cache, `format!("{:?}{:?}", category, timeframe)`.
unfoldable pub chart_key : Option Category → Timeframe → Text
chart_key category timeframe = debug_option category ++ debug_timeframe timeframe

-- `category.map(|v| v as i32)`.
abbrev pub category_number : Option Category → Option ℤ
category_number none = none
category_number (some c) = some (category_as_i32 c)

-- `PbChartData::from_chart_data_and_snap_name`.
abbrev pub pb_chart_data : {F32 : Type 0} → ChartData F32 → Text → PbChartData F32
pb_chart_data d snap_name = record {
  raw_rating = d.raw_rating;
  rating = some (pb_rating d.rating snap_name);
}

module _ (f : Floats) (env : Env) where
  abbrev pub chart_of : Timeframe → Result DbError (List VoteSummary) → Result DbError (Chart f.F32)
  chart_of timeframe (ok summaries) = ok (new_chart f timeframe summaries)
  chart_of timeframe (err e) = err e

  abbrev pub fetch_connected :
      Option Category
      → Timeframe
      → World f.F32
      → Result DbError (Unit {0})
      → Result DbError (Chart f.F32)
  fetch_connected category timeframe w (ok _) =
      chart_of timeframe (get_for_timeframe env.session timeframe category w.stores.tables)
  fetch_connected category timeframe w (err e) = err e

  -- The body of `get_chart_cached`; the `?` of `conn!()` returns the database's error.
  unfoldable pub fetch_chart :
      Option Category → Timeframe → World f.F32 → Result DbError (Chart f.F32)
  fetch_chart category timeframe w = fetch_connected category timeframe w env.connection

  abbrev pub keep_chart :
      Text → World f.F32 → Result DbError (Chart f.F32) → Result DbError (Chart f.F32) × World f.F32
  keep_chart key w (ok chart) = (ok chart, record w { charts = store key chart w.charts })
  keep_chart key w (err e) = (err e, w)

  abbrev pub recall_chart :
      Option Category
      → Timeframe
      → World f.F32
      → Option (Chart f.F32)
      → Result DbError (Chart f.F32) × World f.F32
  recall_chart category timeframe w (some chart) = (ok chart, w)
  recall_chart category timeframe w none =
      keep_chart (chart_key category timeframe) w (fetch_chart category timeframe w)

  -- `get_chart_cached`.
  unfoldable pub get_chart_cached :
      Option Category → Timeframe → World f.F32 → Result DbError (Chart f.F32) × World f.F32
  get_chart_cached category timeframe w =
      recall_chart category timeframe w (w.charts (chart_key category timeframe))

  -- The data with their snaps' names, one after the other.
  unfoldable pub name_chart_data : List (ChartData f.F32) → Handler f.F32 (List (PbChartData f.F32))
  name_chart_data [] = pure []
  name_chart_data (d ∷ ds) = do
    snap_name ← snap_name_or env internal_server_error d.rating.snap_id
    rest ← name_chart_data ds
    pure (pb_chart_data d snap_name ∷ rest)

  -- `match category`: a number that is no category's is refused.
  abbrev pub known_category : Option Category → Result Failure (Option Category)
  known_category none = err (status invalid_argument (text "invalid category value"))
  known_category (some category) = ok (some category)

  abbrev pub requested_category : Option ℤ → Result Failure (Option Category)
  requested_category none = ok none
  requested_category (some c) = known_category (category_from_repr c)

  abbrev pub chart_or : Failure → Option Category → Timeframe → Handler f.F32 (Chart f.F32)
  chart_or failure category timeframe w =
      let (r, w') = get_chart_cached category timeframe w in (map_err (λ _. failure) r, w')

  -- `get_chart`.
  unfoldable pub get_chart : GetChartRequest → Handler f.F32 (GetChartResponse f.F32)
  get_chart request = do
    category ← lift (requested_category request.category)
    let timeframe = unwrap_or unspecified (timeframe_from_repr request.timeframe)
    chart ← chart_or internal_server_error category timeframe
    if is_empty chart.chart_data
        then fail (status not_found (text "Cannot find data for given timeframe."))
        else do
          ordered_chart_data ← name_chart_data chart.chart_data
          pure (record {
            timeframe = timeframe_as_i32 timeframe;
            category = category_number category;
            ordered_chart_data = ordered_chart_data;
          })
