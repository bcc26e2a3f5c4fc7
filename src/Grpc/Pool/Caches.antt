-- ===== src/Grpc/Pool/Caches.antt =====
-- What the caches of src/db/vote.rs and src/grpc/charts.rs hold, under every interleaving, against what the
-- database says.
use app_center_ratings.Prelude.{
  ◌≡◌, refl, sym, ap, ◌∙◌, Bool, Bool-cases, Option, none, some, inl, inr, List, [], ◌∷◌, ◌++◌,
  arith, Text, text_eq, text_eq_iff, Result, ok, err,
}
use app_center_ratings.Db.Category.{Category, Timeframe}
use app_center_ratings.Db.Tables.{Tables, Session, DbError}
use app_center_ratings.Db.Summary.{VoteSummary, get_by_snap_id_uncached, get_for_timeframe}
use app_center_ratings.Db.Invariant.Runs.{Call, run_call, run_calls}
use app_center_ratings.Ratings.Float.{Floats}
use app_center_ratings.Ratings.Chart.{Chart, new_chart}
use app_center_ratings.Grpc.Routes.{Service}
use app_center_ratings.Grpc.World.{World, Env}
use app_center_ratings.Grpc.App.{get_by_snap_id_cached, keep_summary, recall_summary}
use app_center_ratings.Grpc.Charts.{
  get_chart_cached, keep_chart, recall_chart, fetch_chart, fetch_connected, chart_of, chart_key,
}
use app_center_ratings.Grpc.ChartRequests.{chart_key-injective}
use app_center_ratings.Grpc.Keeping.{IsKept}
use app_center_ratings.Grpc.Requests.Tasks.{Anyone}
use app_center_ratings.Grpc.Dispatch.{Codec}
use app_center_ratings.Grpc.Pool.{Event, idle, expire, happen_all}
use app_center_ratings.Grpc.Pool.Kept.{happen_all-kept}
use app_center_ratings.Grpc.Pool.Answers.{legible}
use app_center_ratings.Grpc.Pool.Refinement.{run_calls-snoc}

-- It holds of the tables after some of the calls.
pub record HeldOnce (t : Tables) (cs : List Call) (Q : Tables → Type 0) : Type 0 where
  pub before : List Call
  pub after : List Call
  pub parts : cs ≡ before ++ after
  pub held : Q (run_calls before t)

++-assoc : (xs ys zs : List Call) → (xs ++ ys) ++ zs ≡ xs ++ (ys ++ zs)
++-assoc [] ys zs = refl
++-assoc (x ∷ xs) ys zs = ap (◌∷◌ x) (++-assoc xs ys zs)

++-[] : (xs : List Call) → xs ++ [] ≡ xs
++-[] [] = refl
++-[] (x ∷ xs) = ap (◌∷◌ x) (++-[] xs)

module _ (t : Tables) (cs : List Call) (Q : Tables → Type 0) where
  HeldOnce-later : (c : Call) → HeldOnce t cs Q → HeldOnce t (cs ++ (c ∷ [])) Q
  HeldOnce-later c h = record {
    before = h.before;
    after = h.after ++ (c ∷ []);
    parts = ap (λ cs. cs ++ (c ∷ [])) h.parts ∙ ++-assoc h.before h.after (c ∷ []);
    held = h.held;
  }

  HeldOnce-now : Q (run_calls cs t) → HeldOnce t cs Q
  HeldOnce-now q = record { before = cs; after = []; parts = sym (++-[] cs); held = q }

-- The summary is the query's answer for the snap.
abbrev pub IsSummary : Text → VoteSummary → Tables → Type 0
IsSummary key votes t = (s : Session) × (get_by_snap_id_uncached s key t ≡ ok votes)

-- The chart is made of the query's answer for the category and the timeframe.
abbrev pub IsChart : (f : Floats) → Option Category → Timeframe → Chart f.F32 → Tables → Type 0
IsChart f category timeframe chart t =
    (s : Session) × (rows : List VoteSummary) × (get_for_timeframe s timeframe category t ≡ ok rows)
    × (new_chart f timeframe rows ≡ chart)

module _ (f : Floats) (t : Tables) where
  -- Calls one after another lead to the tables, and what the caches hold was so after some of them.
  pub record HasTrueCaches (w : World f.F32) : Type 0 where
    pub calls : List Call
    pub ran : w.stores.tables ≡ run_calls calls t
    pub summaries :
        (key : Text) (votes : VoteSummary)
        → w.summaries key ≡ some votes
        → HeldOnce t calls (IsSummary key votes)
    pub charts :
        (c : Option Category) (tf : Timeframe) (chart : Chart f.F32)
        → w.charts (chart_key c tf) ≡ some chart
        → HeldOnce t calls (IsChart f c tf chart)

  keep_summary-HasTrueCaches :
      (env : Env) (key : Text) (w : World f.F32) (r : Result DbError VoteSummary)
      → get_by_snap_id_uncached env.session key w.stores.tables ≡ r
      → HasTrueCaches w
      → HasTrueCaches (keep_summary f env key w r).1
  keep_summary-HasTrueCaches env key w (err e) asked h = h
  keep_summary-HasTrueCaches env key w (ok votes) asked h = record {
    calls = h.calls;
    ran = h.ran;
    summaries = λ k r found. elim (Bool-cases (text_eq key k)) [
      | inr other ↦ h.summaries k r (ground arith)
      | inl same ↦
          let this : key ≡ k = (text_eq_iff key k).0 same in
          let kept : votes ≡ r = ground arith in
          HeldOnce-now t h.calls (IsSummary k r) (
            env.session,
            ap (get_by_snap_id_uncached env.session k) (sym h.ran)
                ∙ ap (λ key. get_by_snap_id_uncached env.session key w.stores.tables) (sym this)
                ∙ asked
                ∙ ap ok kept,
          )
    ];
    charts = h.charts;
  }

  recall_summary-HasTrueCaches :
      (env : Env) (key : Text) (w : World f.F32) (o : Option VoteSummary)
      → HasTrueCaches w
      → HasTrueCaches (recall_summary f env key w o).1
  recall_summary-HasTrueCaches env key w (some votes) h = h
  recall_summary-HasTrueCaches env key w none h = keep_summary-HasTrueCaches env key w _ refl h

  fetch_chart-IsChart :
      (env : Env) (c : Option Category) (tf : Timeframe) (w : World f.F32) {chart : Chart f.F32}
      → fetch_chart f env c tf w ≡ ok chart
      → IsChart f c tf chart w.stores.tables
  unfolding fetch_chart
  fetch_chart-IsChart env c tf w {chart} = connected env.connection
    where
      made :
          (r : Result DbError (List VoteSummary))
          → get_for_timeframe env.session tf c w.stores.tables ≡ r
          → chart_of f env tf r ≡ ok chart
          → IsChart f c tf chart w.stores.tables
      made (ok rows) asked e = (env.session, rows, asked, ground arith)
      made (err bad) asked e = absurd (ground arith)

      connected :
          (r : Result DbError (Unit {0}))
          → fetch_connected f env c tf w r ≡ ok chart
          → IsChart f c tf chart w.stores.tables
      connected (ok _) e = made (get_for_timeframe env.session tf c w.stores.tables) refl e
      connected (err bad) e = absurd (ground arith)

  keep_chart-HasTrueCaches :
      (env : Env) (c : Option Category) (tf : Timeframe) (w : World f.F32)
      (r : Result DbError (Chart f.F32))
      → fetch_chart f env c tf w ≡ r
      → HasTrueCaches w
      → HasTrueCaches (keep_chart f env (chart_key c tf) w r).1
  keep_chart-HasTrueCaches env c tf w (err e) made h = h
  keep_chart-HasTrueCaches env c tf w (ok chart) made h = record {
    calls = h.calls;
    ran = h.ran;
    summaries = h.summaries;
    charts = λ d u shown found. elim (Bool-cases (text_eq (chart_key c tf) (chart_key d u))) [
      | inr other ↦ h.charts d u shown (ground arith)
      | inl same ↦
          let (this, that) = chart_key-injective c d tf u ((text_eq_iff _ _).0 same) in
          let kept : chart ≡ shown = ground arith in
          HeldOnce-now t h.calls (IsChart f d u shown) (
            rw h.ran at (
              rw kept at
                (rw that at (rw this at (fetch_chart-IsChart env c tf w {chart = chart} made)))))
    ];
  }

  recall_chart-HasTrueCaches :
      (env : Env) (c : Option Category) (tf : Timeframe) (w : World f.F32)
      (o : Option (Chart f.F32))
      → HasTrueCaches w
      → HasTrueCaches (recall_chart f env c tf w o).1
  recall_chart-HasTrueCaches env c tf w (some chart) h = h
  recall_chart-HasTrueCaches env c tf w none h = keep_chart-HasTrueCaches env c tf w _ refl h

  HasTrueCaches-IsKept : IsKept f HasTrueCaches Anyone
  unfolding get_by_snap_id_cached get_chart_cached
  HasTrueCaches-IsKept = record {
    named = λ w names h. record {
      calls = h.calls;
      ran = h.ran;
      summaries = h.summaries;
      charts = h.charts;
    };
    ran = λ w c made h. record {
      calls = h.calls ++ (c ∷ []);
      ran = ap (run_call c) h.ran ∙ sym (run_calls-snoc h.calls c t);
      summaries = λ key votes found.
          HeldOnce-later t h.calls (IsSummary key votes) c (h.summaries key votes found);
      charts = λ d u chart found.
          HeldOnce-later t h.calls (IsChart f d u chart) c (h.charts d u chart found);
    };
    summed = λ env w key h. recall_summary-HasTrueCaches env key w (w.summaries key) h;
    charted = λ env w c tf h. recall_chart-HasTrueCaches env c tf w (w.charts (chart_key c tf)) h;
  }

  expire-HasTrueCaches :
      (lost lost' : Text → Bool) (w : World f.F32)
      → HasTrueCaches w
      → HasTrueCaches (expire lost lost' w)
  expire-HasTrueCaches lost lost' w h = record {
    calls = h.calls;
    ran = h.ran;
    summaries = λ key votes found. elim (Bool-cases (lost key)) [
      | inl gone ↦ absurd (ground arith)
      | inr there ↦ h.summaries key votes (ground arith)
    ];
    charts = λ d u chart found. elim (Bool-cases (lost' (chart_key d u))) [
      | inl gone ↦ absurd (ground arith)
      | inr there ↦ h.charts d u chart (ground arith)
    ];
  }

module _ {H B : Type 0} (codec : Codec B) (to_str : H → Option Text) (route : Text → Option Service)
    (f : Floats) where
  -- From a start with nothing in the caches of summaries and charts, whatever requests arrive,
  -- however their tasks are interleaved and whatever expires, the tables are at any time those
  -- that a sequence of calls of the database's functions leaves, and every summary and every
  -- chart that a cache holds is what the database, had it been asked after some number of
  -- those calls, would have answered for that snap, or for that category and timeframe.
  pub happen_all-HasTrueCaches :
      (es : List (Event H B)) (w : World f.F32)
      → ((key : Text) → w.summaries key ≡ none)
      → ((key : Text) → w.charts key ≡ none)
      → HasTrueCaches f w.stores.tables (happen_all codec to_str route f es (idle w)).world
  happen_all-HasTrueCaches es w no_summaries no_charts =
      let start : HasTrueCaches f w.stores.tables w = record {
        calls = [];
        ran = unfold run_calls in refl;
        summaries = λ key votes found. absurd (ground (arith, no_summaries key));
        charts = λ d u chart found. absurd (ground (arith, no_charts (chart_key d u)));
      } in
      (happen_all-kept codec to_str route f (Unit {0}) (HasTrueCaches-IsKept f w.stores.tables)
        (expire-HasTrueCaches f w.stores.tables) es (idle w)
        (legible codec to_str route (Unit {0}) es λ o. tt) tt start).1
