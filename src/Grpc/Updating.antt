-- ===== src/Grpc/Updating.antt =====
-- The tables after an update of src/ratings/categories.rs.
use app_center_ratings.Prelude.{◌≡◌, refl, Bool, true, false, List, [], ◌∷◌, Text, Result, ok, err}
use app_center_ratings.Db.Category.{Category}
use app_center_ratings.Db.Tables.{DbError}
use app_center_ratings.Db.Invariant.{IsValid}
use app_center_ratings.Db.Invariant.Runs.{set_categories_for_snap-IsValid}
use app_center_ratings.Db.Ballots.{ballots_of}
use app_center_ratings.Db.Ballots.Refinement.{ballots_of-set_categories}
use app_center_ratings.Ratings.SnapcraftIo.{RatingsError, Names}
use app_center_ratings.Ratings.Update.{
  OtherUpdate, nobody, notifies, never_notifies, Stores, set_fetched, update_missing,
  update_categories_inner,
}
use app_center_ratings.Grpc.World.{Env}

module _ (env : Env) (snap_id : Text) where
  set_fetched-IsValid :
      (st : Stores) (r : Result RatingsError (List Category)) (names : Names)
      → IsValid st.tables
      → IsValid
          (set_fetched env.web env.snapcraft_io_uri env.session snap_id st (r, names)).1.tables
  set_fetched-IsValid st (err e) names h = h
  set_fetched-IsValid st (ok []) names h = h
  set_fetched-IsValid st (ok (c ∷ cs)) names h =
      set_categories_for_snap-IsValid env.session snap_id (c ∷ cs) st.tables h

  pub update_missing-IsValid :
      (other : OtherUpdate) (r : Result DbError Bool) (st : Stores)
      → IsValid st.tables
      → IsValid
          (update_missing env.web env.snapcraft_io_uri env.session snap_id other r st).1.tables
  unfolding update_categories_inner
  update_missing-IsValid other (err e) st h = h
  update_missing-IsValid other (ok true) st h = h
  update_missing-IsValid notifies (ok false) st h = h
  update_missing-IsValid never_notifies (ok false) st h = h
  update_missing-IsValid nobody (ok false) st h = set_fetched-IsValid st _ _ h

  ballots_of-set_fetched :
      (st : Stores) (r : Result RatingsError (List Category)) (names : Names)
      → ballots_of
          (set_fetched env.web env.snapcraft_io_uri env.session snap_id st (r, names)).1.tables
        ≡ ballots_of st.tables
  ballots_of-set_fetched st (err e) names = refl
  ballots_of-set_fetched st (ok []) names = refl
  ballots_of-set_fetched st (ok (c ∷ cs)) names =
      ballots_of-set_categories env.session snap_id (c ∷ cs) st.tables

  pub ballots_of-update_missing :
      (other : OtherUpdate) (r : Result DbError Bool) (st : Stores)
      → ballots_of
          (update_missing env.web env.snapcraft_io_uri env.session snap_id other r st).1.tables
        ≡ ballots_of st.tables
  unfolding update_categories_inner
  ballots_of-update_missing other (err e) st = refl
  ballots_of-update_missing other (ok true) st = refl
  ballots_of-update_missing notifies (ok false) st = refl
  ballots_of-update_missing never_notifies (ok false) st = refl
  ballots_of-update_missing nobody (ok false) st = ballots_of-set_fetched st _ _
