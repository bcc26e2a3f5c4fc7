-- ===== src/Grpc/ChartRequests.antt =====
-- What `get_chart` of src/grpc/charts.rs answers to requests, and the keys of its cache.
use app_center_ratings.Prelude.{
  ◌≡◌, ◌≢◌, refl, sym, ap, ◌∙◌, true, Option, none, some, List, [], ◌∷◌, find, arith, Text, text,
  text_eq, ok, err,
}
use app_center_ratings.Prelude.Int.{ℤ}
use app_center_ratings.Auth.Status.{status, invalid_argument, internal_server_error}
use app_center_ratings.Db.Category.{
  Category, all_categories, category_as_i32, category_from_repr, category_from_repr_iff, Timeframe,
  unspecified, week, month, timeframe_as_i32, timeframe_from_repr,
}
use app_center_ratings.Db.Tables.{sqlx, syntax_error, select_summaries}
use app_center_ratings.Db.Charting.{get_for_timeframe-refused}
use app_center_ratings.Ratings.Float.{Floats}
use app_center_ratings.Grpc.World.{World, Env}
use app_center_ratings.Grpc.Charts.{chart_key, fetch_chart, get_chart_cached, get_chart}

-- The request that a key stands for, by the names of the variants.
abbrev all_keys : List (Option Category × Timeframe)
all_keys = with_times (none ∷ some_categories all_categories)
  where
    some_categories : List Category → List (Option Category)
    some_categories [] = []
    some_categories (c ∷ cs) = some c ∷ some_categories cs

    with_times : List (Option Category) → List (Option Category × Timeframe)
    with_times [] = []
    with_times (c ∷ cs) = (c, unspecified) ∷ (c, week) ∷ (c, month) ∷ with_times cs

read_key : Text → Option (Option Category × Timeframe)
read_key key = find (λ (c, t). text_eq (chart_key c t) key) all_keys

read_key-unspecified :
    (c : Option Category) → read_key (chart_key c unspecified) ≡ some (c, unspecified)
unfolding read_key chart_key text_eq
read_key-unspecified none = refl
read_key-unspecified (some Category.art_and_design) = refl
read_key-unspecified _ = refl

read_key-week : (c : Option Category) → read_key (chart_key c week) ≡ some (c, week)
unfolding read_key chart_key text_eq
read_key-week none = refl
read_key-week (some Category.art_and_design) = refl
read_key-week _ = refl

read_key-month : (c : Option Category) → read_key (chart_key c month) ≡ some (c, month)
unfolding read_key chart_key text_eq
read_key-month none = refl
read_key-month (some Category.art_and_design) = refl
read_key-month _ = refl

read_key-chart_key : (c : Option Category) (t : Timeframe) → read_key (chart_key c t) ≡ some (c, t)
read_key-chart_key c unspecified = read_key-unspecified c
read_key-chart_key c week = read_key-week c
read_key-chart_key c month = read_key-month c

-- Two chart requests have one key of the cache only if they are for the same category and the
-- same timeframe, so that the cache never answers one with the chart of another.
pub chart_key-injective :
    (c d : Option Category) (t u : Timeframe) → chart_key c t ≡ chart_key d u → (c ≡ d) × (t ≡ u)
chart_key-injective c d t u e =
    let same = sym (read_key-chart_key c t) ∙ ap read_key e ∙ read_key-chart_key d u in ground arith

pub timeframe_from_repr-as_i32 : (t : Timeframe) → timeframe_from_repr (timeframe_as_i32 t) ≡ some t
unfolding timeframe_from_repr
timeframe_from_repr-as_i32 unspecified = refl
timeframe_from_repr-as_i32 _ = refl

module _ (f : Floats) (env : Env) (w : World f.F32) where
  -- A number that is no category's is refused with `invalid_argument`, and nothing is changed.
  pub get_chart-invalid_category :
      (timeframe n : ℤ)
      → category_from_repr n ≡ none
      → get_chart f env (record { timeframe = timeframe; category = some n }) w
        ≡ (err (status invalid_argument (text "invalid category value")), w)
  unfolding get_chart
  get_chart-invalid_category timeframe n e = rw e refl

  get_chart_cached-refused :
      (timeframe : Timeframe) (category : Category)
      → timeframe ≢ unspecified
      → env.connection ≡ ok tt
      → env.session.answers select_summaries ≡ true
      → w.charts (chart_key (some category) timeframe) ≡ none
      → get_chart_cached f env (some category) timeframe w ≡ (err (sqlx syntax_error), w)
  unfolding get_chart_cached fetch_chart
  get_chart_cached-refused timeframe category timed connected on fresh =
      rw (fresh, connected)
        (rw (get_for_timeframe-refused env.session timeframe category w.stores.tables on timed)
          refl)

  get_chart-refused_number :
      (timeframe : Timeframe) (category : Category) (t c : ℤ)
      → timeframe_from_repr t ≡ some timeframe
      → category_from_repr c ≡ some category
      → get_chart_cached f env (some category) timeframe w ≡ (err (sqlx syntax_error), w)
      → get_chart f env (record { timeframe = t; category = some c }) w
        ≡ (err internal_server_error, w)
  unfolding get_chart
  get_chart-refused_number timeframe category t c known_t known_c refused =
      rw (known_c, known_t) (rw refused refl)

  -- A request for the chart of a category over the last week or month, of which no chart is
  -- kept, is answered over a working connection with an internal server error and changes
  -- nothing, the cache of charts included.
  pub get_chart-refused :
      (timeframe : Timeframe) (category : Category)
      → timeframe ≢ unspecified
      → env.connection ≡ ok tt
      → env.session.answers select_summaries ≡ true
      → w.charts (chart_key (some category) timeframe) ≡ none
      → get_chart f env
          (record {
            timeframe = timeframe_as_i32 timeframe;
            category = some (category_as_i32 category);
          })
          w
        ≡ (err internal_server_error, w)
  get_chart-refused timeframe category timed connected on fresh =
      get_chart-refused_number timeframe category _ _ (timeframe_from_repr-as_i32 timeframe)
        ((category_from_repr_iff (category_as_i32 category) category).1 refl)
        (get_chart_cached-refused timeframe category timed connected on fresh)
