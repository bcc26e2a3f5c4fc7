-- ===== src/Ratings/Update.antt =====
-- src/ratings/categories.rs: `update_categories` as one task runs it. What it does among other tasks
-- is in Protocol.antt.
use app_center_ratings.Prelude.{
  Bool, true, false, Option, none, some, List, [], ◌∷◌, Text, Result, ok, err, map_err,
}
use app_center_ratings.Db.Category.{Category}
use app_center_ratings.Db.Tables.{Tables, Session, DbError}
use app_center_ratings.Db.SnapCategories.{snap_has_categories, set_categories_for_snap}
use app_center_ratings.Ratings.SnapcraftIo.{RatingsError, db, Snapcraft, Names, get_snap_categories}

-- What an update reads and writes: the tables and the names that are kept.
pub record Stores : Type 0 where
  pub tables : Tables
  pub names : Names

-- What the task finds in `category_updates`: nothing, so that it makes the update itself, or the
-- `Notify` of a task that is updating the snap, which it then waits on without an update of its own.
-- That task notifies it, or never does (Protocol/Wakeup.antt).
pub data OtherUpdate : Type 0 where
  nobody notifies never_notifies : OtherUpdate

module _ (web : Snapcraft) (base : Text) (s : Session) (snap_id : Text) where
  abbrev pub set_found : Stores → List Category → Result RatingsError (Unit {0}) × Stores
  set_found st [] = (ok tt, st)
  set_found st (c ∷ cs) =
      let (r, tables) = set_categories_for_snap s snap_id (c ∷ cs) st.tables in
      (map_err db r, record st { tables = tables })

  abbrev pub set_fetched :
      Stores → Result RatingsError (List Category) × Names → Result RatingsError (Unit {0}) × Stores
  set_fetched st (err e, names) = (err e, record st { names = names })
  set_fetched st (ok categories, names) = set_found (record st { names = names }) categories

  -- `update_categories_inner`.
  unfoldable pub update_categories_inner : Stores → Result RatingsError (Unit {0}) × Stores
  update_categories_inner st = set_fetched st (get_snap_categories web snap_id base st.names)

  -- There is no result where `notified().await` does not end.
  abbrev pub update_missing :
      OtherUpdate → Result DbError Bool → Stores → Option (Result RatingsError (Unit {0})) × Stores
  update_missing other (err e) st = (some (err (db e)), st)
  update_missing other (ok true) st = (some (ok tt), st)
  update_missing nobody (ok false) st = (some (ok tt), (update_categories_inner st).1)
  update_missing notifies (ok false) st = (some (ok tt), st)
  update_missing never_notifies (ok false) st = (none, st)

  -- `update_categories`. An error of the update is logged and dropped.
  unfoldable pub update_categories :
      OtherUpdate → Stores → Option (Result RatingsError (Unit {0})) × Stores
  update_categories other st = update_missing other (snap_has_categories s snap_id st.tables) st
