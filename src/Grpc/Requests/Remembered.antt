-- ===== src/Grpc/Requests/Remembered.antt =====
-- A summary in the cache of src/db/vote.rs through the requests to src/grpc.
use app_center_ratings.Prelude.{
  ◌≡◌, refl, sym, ap, ◌∙◌, false, Option, none, some, List, arith, is_empty, Text, text_eq,
  text_eq_iff, Result, ok, err, inl, inr, Bool-cases,
}
use app_center_ratings.Db.Category.{Category, Timeframe}
use app_center_ratings.Db.Tables.{DbError}
use app_center_ratings.Db.Summary.{VoteSummary}
use app_center_ratings.Ratings.Float.{Floats}
use app_center_ratings.Ratings.Chart.{Chart}
use app_center_ratings.Ratings.Rating.{rating_from_summary}
use app_center_ratings.Ratings.SnapcraftIo.{get_snap_name}
use app_center_ratings.Grpc.World.{World, Env}
use app_center_ratings.Grpc.App.{
  pb_rating, get_rating, get_by_snap_id_cached, keep_summary, recall_summary,
}
use app_center_ratings.Grpc.Charts.{get_chart_cached, keep_chart, recall_chart, chart_key}
use app_center_ratings.Grpc.Keeping.{IsKept}
use app_center_ratings.Grpc.RatingRequests.{get_rating-kept}
use app_center_ratings.Grpc.Requests.{Rpc, serve_all}
use app_center_ratings.Grpc.Requests.Kept.{serve_all-kept}

module _ (f : Floats) (key : Text) (r : VoteSummary) where
  -- The cache holds the summary under the key.
  abbrev Remembers : World f.F32 → Type 0
  Remembers w = w.summaries key ≡ some r

  module _ (env : Env) where
    keep_summary-Remembers :
        (snap_id : Text) (w : World f.F32) (o : Result DbError VoteSummary)
        → text_eq snap_id key ≡ false
        → Remembers w
        → Remembers (keep_summary f env snap_id w o).1
    keep_summary-Remembers snap_id w (ok votes) other h = rw other h
    keep_summary-Remembers snap_id w (err e) other h = h

    recall_summary-Remembers :
        (snap_id : Text) (w : World f.F32) (o : Option VoteSummary)
        → w.summaries snap_id ≡ o
        → Remembers w
        → Remembers (recall_summary f env snap_id w o).1
    recall_summary-Remembers snap_id w (some votes) e h = h
    recall_summary-Remembers snap_id w none e h = elim (Bool-cases (text_eq snap_id key)) [
      | inr other ↦ keep_summary-Remembers snap_id w _ other h
      | inl same ↦
          let eq = (text_eq_iff snap_id key).0 same in
          let clash : none ≡ some r = sym e ∙ ap w.summaries eq ∙ h in absurd (ground arith)
    ]

    keep_chart-Remembers :
        (k : Text) (w : World f.F32) (o : Result DbError (Chart f.F32))
        → Remembers w
        → Remembers (keep_chart f env k w o).1
    keep_chart-Remembers k w (ok chart) h = h
    keep_chart-Remembers k w (err e) h = h

    recall_chart-Remembers :
        (c : Option Category) (t : Timeframe) (w : World f.F32) (o : Option (Chart f.F32))
        → Remembers w
        → Remembers (recall_chart f env c t w o).1
    recall_chart-Remembers c t w (some chart) h = h
    recall_chart-Remembers c t w none h = keep_chart-Remembers (chart_key c t) w _ h

  Remembers-IsKept : {Whose : Text → Type 0} → IsKept f Remembers Whose
  unfolding get_by_snap_id_cached get_chart_cached
  Remembers-IsKept = record {
    named = λ w names h. h;
    ran = λ w c made h. h;
    summed = λ env w snap_id h. recall_summary-Remembers env snap_id w (w.summaries snap_id) refl h;
    charted = λ env w c t h. recall_chart-Remembers env c t w (w.charts (chart_key c t)) h;
  }

-- While a summary is in the cache under a snap_id that is not empty, whatever requests are
-- served meanwhile, votes on that snap included, a rating over a working connection is answered
-- from that summary, with the name that the snap has then.
pub get_rating-remembered :
    (f : Floats) (env : Env) {H : Type 0} (requests : List (Env × Rpc H)) (snap_id : Text)
    (r : VoteSummary) (w : World f.F32) {name : Text}
    → w.summaries snap_id ≡ some r
    → is_empty snap_id ≡ false
    → env.connection ≡ ok tt
    → (get_snap_name env.web r.snap_id env.snapcraft_io_uri (serve_all f requests w).stores.names).0
      ≡ ok name
    → (get_rating f env snap_id (serve_all f requests w)).0
      ≡ ok (pb_rating (rating_from_summary f r) name)
get_rating-remembered f env requests snap_id r w {name} held given connected named =
    let still =
      serve_all-kept f (λ w. w.summaries snap_id ≡ some r) (Remembers-IsKept f snap_id r) requests w
        held in
    (get_rating-kept f env snap_id (serve_all f requests w) r {name = name} given connected still
      named).0
