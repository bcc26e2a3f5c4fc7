-- ===== src/Db/SnapCategories.antt =====
-- src/db/categories.rs: `snap_has_categories` and `set_categories_for_snap`.
use app_center_ratings.Prelude.{
  ℕ, suc, ◌+◌, Bool, Option, none, some, List, [], ◌∷◌, ◌++◌, ltb, if◌then◌else◌, count, length,
  Text, Result, ok, err, map_err,
}
use app_center_ratings.Db.Category.{Category, category_as_i32}
use app_center_ratings.Db.Char.{char_store, char_eq_text}
use app_center_ratings.Db.Tables.{
  CategoryRow, Tables, SqlxError, DbError, Session, unreachable, value_too_long, syntax_error, sqlx,
  count_categories, insert_categories,
}

-- `SELECT COUNT(*) FROM snap_categories WHERE snap_id = $1`, and `n_rows > 0`.
unfoldable pub snap_has_categories : Session → Text → Tables → Result DbError Bool
snap_has_categories s snap_id t =
    if s.answers count_categories
    then (let n_rows = count (λ r. char_eq_text r.snap_id snap_id) t.snap_categories in
        ok (ltb 0 n_rows))
    else err (sqlx unreachable)

-- One row of `VALUES` for each category, with the numbers of the sequence from `id` on.
unfoldable pub category_rows : Text → ℕ → List Category → List CategoryRow
category_rows snap id [] = []
category_rows snap id (c ∷ cs) =
    record { id = id; snap_id = snap; category = category_as_i32 c }
    ∷ category_rows snap (suc id) cs

-- The statement goes in whole or not at all. With no category there is no row behind `VALUES`,
-- which the server does not parse.
abbrev pub insert_rows : Option Text → List Category → Tables → Result SqlxError (Unit {0}) × Tables
insert_rows snap [] t = (err syntax_error, t)
insert_rows none (c ∷ cs) t = (err value_too_long, t)
insert_rows (some snap) (c ∷ cs) t = (
  ok tt,
  record t {
    snap_categories = t.snap_categories ++ category_rows snap t.snap_categories_id_seq (c ∷ cs);
    snap_categories_id_seq = t.snap_categories_id_seq + length (c ∷ cs);
  },
)

unfoldable pub set_categories_for_snap :
    Session → Text → List Category → Tables → Result DbError (Unit {0}) × Tables
set_categories_for_snap s snap_id categories t =
    if s.answers insert_categories
    then (let (r, t') = insert_rows (char_store 32 snap_id) categories t in (map_err sqlx r, t'))
    else (err (sqlx unreachable), t)
