-- ===== src/Grpc/Shown.antt =====
-- What chart `get_chart` of src/grpc/charts.rs answers with, from the votes in the tables to the names.
use app_center_ratings.Prelude.{Option, List, [], ◌∷◌, map, Text, text, Result, ok, err}
use app_center_ratings.Auth.Status.{Failure, status, not_found}
use app_center_ratings.Db.Category.{Category, Timeframe, timeframe_as_i32}
use app_center_ratings.Db.Summary.{VoteSummary, group_by_snap_id}
use app_center_ratings.Db.Charting.{chart_votes}
use app_center_ratings.Ratings.Float.{Floats}
use app_center_ratings.Ratings.Chart.{ChartData, Chart, new_chart}
use app_center_ratings.Ratings.SnapcraftIo.{store}
use app_center_ratings.Grpc.World.{World, Env}
use app_center_ratings.Grpc.Charts.{GetChartRequest, GetChartResponse, chart_key, category_number}
use app_center_ratings.Grpc.Naming.{pb_chart_data}

module _ (timeframe : Timeframe) (category : Option Category) where
  abbrev pub chart_request : GetChartRequest
  chart_request = record {
    timeframe = timeframe_as_i32 timeframe;
    category = category_number category;
  }

  -- What is answered for the data of a chart.
  abbrev pub chart_answer :
      {F32 : Type 0} → (Text → Text) → List (ChartData F32) → Result Failure (GetChartResponse F32)
  chart_answer name_of [] = err (status not_found (text "Cannot find data for given timeframe."))
  chart_answer name_of (d ∷ ds) = ok (record {
    timeframe = timeframe_as_i32 timeframe;
    category = category_number category;
    ordered_chart_data = map (pb_chart_data name_of) (d ∷ ds);
  })

  module _ (f : Floats) (env : Env) (w : World f.F32) where
    -- The summaries of the votes that the chart is for, and the chart of them.
    abbrev pub rows : List VoteSummary
    rows = group_by_snap_id (chart_votes env.session timeframe category w.stores.tables)

    abbrev shown : Chart f.F32
    shown = new_chart f timeframe rows

    abbrev kept : World f.F32
    kept = record w { charts = store (chart_key category timeframe) shown w.charts }
