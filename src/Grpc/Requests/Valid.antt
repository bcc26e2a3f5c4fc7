-- ===== src/Grpc/Requests/Valid.antt =====
-- The constraints of sql/migrations through the requests to src/grpc.
use app_center_ratings.Prelude.{Option, none, some, List, Text, Result, ok, err}
use app_center_ratings.Db.Category.{Category, Timeframe}
use app_center_ratings.Db.Tables.{DbError}
use app_center_ratings.Db.Summary.{VoteSummary}
use app_center_ratings.Db.Invariant.{IsValid}
use app_center_ratings.Db.Invariant.Runs.{run_call-IsValid}
use app_center_ratings.Ratings.Float.{Floats}
use app_center_ratings.Ratings.Chart.{Chart}
use app_center_ratings.Grpc.World.{World, Env}
use app_center_ratings.Grpc.App.{get_by_snap_id_cached, keep_summary, recall_summary}
use app_center_ratings.Grpc.Charts.{get_chart_cached, keep_chart, recall_chart, chart_key}
use app_center_ratings.Grpc.Keeping.{IsKept}
use app_center_ratings.Grpc.Requests.{Rpc, serve_all}
use app_center_ratings.Grpc.Requests.Kept.{serve_all-kept}

abbrev pub HasValid : (f : Floats) → World f.F32 → Type 0
HasValid f w = IsValid w.stores.tables

module _ (f : Floats) (env : Env) where
  keep_summary-IsValid :
      (snap_id : Text) (w : World f.F32) (r : Result DbError VoteSummary)
      → HasValid f w
      → HasValid f (keep_summary f env snap_id w r).1
  keep_summary-IsValid snap_id w (ok votes) h = h
  keep_summary-IsValid snap_id w (err e) h = h

  recall_summary-IsValid :
      (snap_id : Text) (w : World f.F32) (o : Option VoteSummary)
      → HasValid f w
      → HasValid f (recall_summary f env snap_id w o).1
  recall_summary-IsValid snap_id w (some votes) h = h
  recall_summary-IsValid snap_id w none h = keep_summary-IsValid snap_id w _ h

  keep_chart-IsValid :
      (key : Text) (w : World f.F32) (r : Result DbError (Chart f.F32))
      → HasValid f w
      → HasValid f (keep_chart f env key w r).1
  keep_chart-IsValid key w (ok chart) h = h
  keep_chart-IsValid key w (err e) h = h

  recall_chart-IsValid :
      (c : Option Category) (t : Timeframe) (w : World f.F32) (o : Option (Chart f.F32))
      → HasValid f w
      → HasValid f (recall_chart f env c t w o).1
  recall_chart-IsValid c t w (some chart) h = h
  recall_chart-IsValid c t w none h = keep_chart-IsValid (chart_key c t) w _ h

pub HasValid-IsKept : (f : Floats) {Whose : Text → Type 0} → IsKept f (HasValid f) Whose
unfolding get_by_snap_id_cached get_chart_cached
HasValid-IsKept f = record {
  named = λ w names h. h;
  ran = λ w c made h. run_call-IsValid c w.stores.tables h;
  summed = λ env w snap_id h. recall_summary-IsValid f env snap_id w (w.summaries snap_id) h;
  charted = λ env w c t h. recall_chart-IsValid f env c t w (w.charts (chart_key c t)) h;
}

-- Whatever requests the handlers serve one after another, each with statements, connections and
-- answers of snapcraft.io that succeed or fail, tables that meet the constraints of the
-- migrations before meet them after.
serve_all-IsValid :
    (f : Floats) {H : Type 0} (requests : List (Env × Rpc H)) (w : World f.F32)
    → IsValid w.stores.tables
    → IsValid (serve_all f requests w).stores.tables
serve_all-IsValid f requests w h = serve_all-kept f (HasValid f) (HasValid-IsKept f) requests w h
