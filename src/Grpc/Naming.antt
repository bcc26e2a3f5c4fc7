-- ===== src/Grpc/Naming.antt =====
-- The names of snaps that `get_chart` of src/grpc/charts.rs shows, where snapcraft.io knows them.
use app_center_ratings.Prelude.{
  ◌≡◌, refl, inl, inr, some, Option-cases, Bool-cases, List, [], ◌∷◌, map, arith, Text, text_eq,
  text_eq_iff, ok,
}
use app_center_ratings.Ratings.Float.{Floats}
use app_center_ratings.Ratings.Chart.{ChartData}
use app_center_ratings.Ratings.SnapcraftIo.{Names, store, fetch_snap_name, get_snap_name}
use app_center_ratings.Grpc.App.{pb_rating}
use app_center_ratings.Grpc.World.{World, Env, with_names, snap_name_or}
use app_center_ratings.Grpc.Charts.{PbChartData, name_chart_data}

-- What is kept are the snaps' names.
abbrev pub IsTrue : (Text → Text) → Names → Type 0
IsTrue name_of names = (snap_id name : Text) → names snap_id ≡ some name → name ≡ name_of snap_id

-- snapcraft.io finds the name of every snap.
abbrev pub FindsAll : Env → (Text → Text) → Type 0
FindsAll env name_of =
    (snap_id : Text) → fetch_snap_name env.web snap_id env.snapcraft_io_uri ≡ ok (name_of snap_id)

store-IsTrue :
    (name_of : Text → Text) (snap_id : Text) (names : Names)
    → IsTrue name_of names
    → IsTrue name_of (store snap_id (name_of snap_id) names)
store-IsTrue name_of snap_id names true_names k name kept = elim (Bool-cases (text_eq snap_id k)) [
  | inl same ↦
      let eq = (text_eq_iff snap_id k).0 same in
      let this : name ≡ name_of snap_id = ground arith in rw (← eq) this
  | inr other ↦ true_names k name (ground arith)
]

-- What is sent of the data.
abbrev pub pb_chart_data : {F32 : Type 0} → (Text → Text) → ChartData F32 → PbChartData F32
pb_chart_data name_of d = record {
  raw_rating = d.raw_rating;
  rating = some (pb_rating d.rating (name_of d.rating.snap_id));
}

module _ (env : Env) (name_of : Text → Text) (finds : FindsAll env name_of) where
  pub get_snap_name_found :
      (snap_id : Text) (names : Names)
      → IsTrue name_of names
      → (kept : Names) × (get_snap_name env.web snap_id env.snapcraft_io_uri names
          ≡ (ok (name_of snap_id), kept))
        × IsTrue name_of kept
  unfolding get_snap_name
  get_snap_name_found snap_id names true_names = elim (Option-cases (names snap_id)) [
    | inl new ↦ (
      store snap_id (name_of snap_id) names,
      rw (new, finds snap_id) refl,
      store-IsTrue name_of snap_id names true_names,
    )
    | inr (name, kept) ↦ (names, rw (kept, true_names snap_id name kept) refl, true_names)
  ]

  module _ (f : Floats) where
    -- All data is named, in its order, and only names are changed.
    pub name_chart_data_found :
        (ds : List (ChartData f.F32)) (w : World f.F32)
        → IsTrue name_of w.stores.names
        → (names : Names) × (name_chart_data f env ds w
            ≡ (ok (map (pb_chart_data name_of) ds), with_names w names))
    unfolding name_chart_data snap_name_or
    name_chart_data_found [] w true_names = (w.stores.names, refl)
    name_chart_data_found (d ∷ ds) w true_names =
        let (names, found, still) =
          get_snap_name_found d.rating.snap_id w.stores.names true_names in
        let (names', rest) = name_chart_data_found ds (with_names w names) still in
        (names', rw found (rw rest refl))
