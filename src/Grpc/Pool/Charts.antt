-- ===== src/Grpc/Pool/Charts.antt =====
-- The charts that the cache of src/grpc/charts.rs keeps, under every interleaving.
use app_center_ratings.Prelude.{
  ◌≤◌, ◌≡◌, refl, sym, ap, ◌∙◌, Bool, Bool-cases, Option, none, some, inl, inr, length, length-take,
  map, List, arith, Text, text_eq, Result, ok, err, map_err,
}
use app_center_ratings.Auth.Status.{Failure}
use app_center_ratings.Db.Category.{Category, Timeframe}
use app_center_ratings.Db.Tables.{DbError}
use app_center_ratings.Db.Summary.{VoteSummary}
use app_center_ratings.Ratings.Float.{Floats}
use app_center_ratings.Ratings.Chart.{Chart, chart_data_from_summary, sort_by, by_rating, new_chart}
use app_center_ratings.Grpc.World.{World, Env, Cache}
use app_center_ratings.Grpc.App.{get_by_snap_id_cached, keep_summary, recall_summary}
use app_center_ratings.Grpc.Charts.{
  chart_of, fetch_connected, fetch_chart, keep_chart, recall_chart, get_chart_cached, chart_or,
  chart_key,
}
use app_center_ratings.Grpc.Keeping.{IsKept}
use app_center_ratings.Grpc.Pool.{expire}

module _ (f : Floats) where
  -- A chart of at most twenty snaps.
  abbrev pub IsShort : Chart f.F32 → Type 0
  IsShort chart = length chart.chart_data ≤ 20

  -- Every chart that the cache finds is one.
  abbrev pub HasShortCharts : World f.F32 → Type 0
  HasShortCharts w = (key : Text) (chart : Chart f.F32) → w.charts key ≡ some chart → IsShort chart

  new_chart-IsShort :
      (t : Timeframe) (summaries : List VoteSummary) → IsShort (new_chart f t summaries)
  unfolding new_chart
  new_chart-IsShort t summaries =
      omega
        (arith, length-take 20 (sort_by (by_rating f) (map (chart_data_from_summary f) summaries)))

  module _ (env : Env) where
    -- What is answered is short, and so is what is kept.
    abbrev Answered : Result DbError (Chart f.F32) → Type 0
    Answered (ok chart) = IsShort chart
    Answered (err e) = Unit {0}

    fetch_chart-Answered :
        (c : Option Category) (t : Timeframe) (w : World f.F32) → Answered (fetch_chart f env c t w)
    unfolding fetch_chart
    fetch_chart-Answered c t w = connected env.connection
      where
        made : (r : Result DbError (List VoteSummary)) → Answered (chart_of f env t r)
        made (ok summaries) = new_chart-IsShort t summaries
        made (err e) = tt

        connected : (r : Result DbError (Unit {0})) → Answered (fetch_connected f env c t w r)
        connected (ok _) = made _
        connected (err e) = tt

    keep_chart-Answered :
        (key : Text) (w : World f.F32) (r : Result DbError (Chart f.F32))
        → Answered r
        → HasShortCharts w
        → Answered (keep_chart f env key w r).0 × HasShortCharts (keep_chart f env key w r).1
    keep_chart-Answered key w (err e) a h = (tt, h)
    keep_chart-Answered key w (ok chart) a h = (
      a,
      λ k c found. elim (Bool-cases (text_eq key k)) [
        | inl same ↦ let this : chart ≡ c = ground arith in rw this at a
        | inr other ↦ h k c (ground arith)
      ],
    )

    get_chart_cached-Answered :
        (c : Option Category) (t : Timeframe) (w : World f.F32)
        → HasShortCharts w
        → Answered (get_chart_cached f env c t w).0
          × HasShortCharts (get_chart_cached f env c t w).1
    unfolding get_chart_cached
    get_chart_cached-Answered c t w h = go (w.charts (chart_key c t)) refl
      where
        go :
            (o : Option (Chart f.F32))
            → w.charts (chart_key c t) ≡ o
            → Answered (recall_chart f env c t w o).0
              × HasShortCharts (recall_chart f env c t w o).1
        go (some chart) kept = (h (chart_key c t) chart kept, h)
        go none new = keep_chart-Answered (chart_key c t) w _ (fetch_chart-Answered c t w) h

    pub chart_or-IsShort :
        (e : Failure) (c : Option Category) (t : Timeframe) (w : World f.F32) {chart : Chart f.F32}
        → HasShortCharts w
        → (chart_or f env e c t w).0 ≡ ok chart
        → IsShort chart
    chart_or-IsShort e c t w {chart} h =
        go (get_chart_cached f env c t w).0 (get_chart_cached-Answered c t w h).0
      where
        go :
            (r : Result DbError (Chart f.F32))
            → Answered r
            → map_err (λ _. e) r ≡ ok chart
            → IsShort chart
        go (ok found) a eq = let same : found ≡ chart = ground arith in rw same at a
        go (err bad) a eq = absurd (ground arith)

    recall_summary_charts :
        (snap_id : Text) (w : World f.F32) (o : Option VoteSummary)
        → (recall_summary f env snap_id w o).1.charts ≡ w.charts
    recall_summary_charts snap_id w (some votes) = refl
    recall_summary_charts snap_id w none = kept _
      where
        kept :
            (r : Result DbError VoteSummary) → (keep_summary f env snap_id w r).1.charts ≡ w.charts
        kept (ok votes) = refl
        kept (err e) = refl

  pub HasShortCharts-IsKept : {Whose : Text → Type 0} → IsKept f HasShortCharts Whose
  unfolding get_by_snap_id_cached
  HasShortCharts-IsKept = record {
    named = λ w names h. h;
    ran = λ w c made h. h;
    summed = λ env w snap_id h key chart found. h key chart (
        ap (λ (c : Cache (Chart f.F32)). c key)
          (sym (recall_summary_charts env snap_id w (w.summaries snap_id)))
        ∙ found);
    charted = λ env w c t h. (get_chart_cached-Answered env c t w h).1;
  }

  pub expire-HasShortCharts :
      (lost lost' : Text → Bool) (w : World f.F32)
      → HasShortCharts w
      → HasShortCharts (expire lost lost' w)
  expire-HasShortCharts lost lost' w h key chart found = elim (Bool-cases (lost' key)) [
    | inl gone ↦ absurd (ground arith)
    | inr there ↦ h key chart (ground arith)
  ]
