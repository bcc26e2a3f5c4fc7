-- ===== src/Db/Invariant/Keys/Categories.antt =====
-- src/db/categories.rs: `set_categories_for_snap` keeps the keys, the range and the width.
use app_center_ratings.Prelude.{
  ℕ, suc, ◌+◌, ◌≤◌, ◌<◌, ◌≡◌, refl, false, Option, none, some, List, [], ◌∷◌, arith, count, length,
  Text, count-append, inl, inr, Bool-cases,
}
use app_center_ratings.Db.Category.{
  Category, category_as_i32, art_and_design, books_and_reference, development, devices_and_iot,
  education, entertainment, featured, finance, games, health_and_fitness, music_and_audio,
  news_and_weather, personalisation, photo_and_video, productivity, science, security,
  server_and_cloud, social, utilities,
}
use app_center_ratings.Db.Char.{char_store, length-char_store}
use app_center_ratings.Db.Tables.{Tables, Session, insert_categories}
use app_center_ratings.Db.SnapCategories.{category_rows, insert_rows, set_categories_for_snap}
use app_center_ratings.Db.Invariant.Keys.{has_row_id, is_outside, is_short_category, HasKeys}

is_outside-category :
    (id : ℕ) (snap : Text) (c : Category)
    → is_outside (record { id = id; snap_id = snap; category = category_as_i32 c }) ≡ false
is_outside-category id snap art_and_design = refl
is_outside-category id snap books_and_reference = refl
is_outside-category id snap development = refl
is_outside-category id snap devices_and_iot = refl
is_outside-category id snap education = refl
is_outside-category id snap entertainment = refl
is_outside-category id snap featured = refl
is_outside-category id snap finance = refl
is_outside-category id snap games = refl
is_outside-category id snap health_and_fitness = refl
is_outside-category id snap music_and_audio = refl
is_outside-category id snap news_and_weather = refl
is_outside-category id snap personalisation = refl
is_outside-category id snap photo_and_video = refl
is_outside-category id snap productivity = refl
is_outside-category id snap science = refl
is_outside-category id snap security = refl
is_outside-category id snap server_and_cloud = refl
is_outside-category id snap social = refl
is_outside-category id snap utilities = refl

module _ (snap : Text) where
  category_rows-outside :
      (id : ℕ) (cs : List Category) → count is_outside (category_rows snap id cs) ≡ 0
  unfolding category_rows
  category_rows-outside id [] = refl
  category_rows-outside id (c ∷ cs) =
      rw (is_outside-category id snap c) (category_rows-outside (suc id) cs)

  category_rows-short :
      (id : ℕ) (cs : List Category)
      → length snap ≡ 32
      → count is_short_category (category_rows snap id cs) ≡ 0
  unfolding category_rows
  category_rows-short id [] full = refl
  category_rows-short id (c ∷ cs) full = rw full (category_rows-short (suc id) cs full)

  -- The ids are those from the first one on.
  category_rows_before :
      (i id : ℕ) (cs : List Category) → i < id → count (has_row_id i) (category_rows snap id cs) ≡ 0
  unfolding category_rows
  category_rows_before i id [] lt = refl
  category_rows_before i id (c ∷ cs) lt =
      ground (arith, category_rows_before i (suc id) cs (omega arith))

  category_rows_behind :
      (i id : ℕ) (cs : List Category)
      → id + length cs ≤ i
      → count (has_row_id i) (category_rows snap id cs) ≡ 0
  unfolding category_rows
  category_rows_behind i id [] le = refl
  category_rows_behind i id (c ∷ cs) le =
      ground (arith, category_rows_behind i (suc id) cs (omega arith))

  category_rows_once :
      (i id : ℕ) (cs : List Category) → count (has_row_id i) (category_rows snap id cs) ≤ 1
  unfolding category_rows
  category_rows_once i id [] = omega arith
  category_rows_once i id (c ∷ cs) =
      ground (arith, category_rows_once i (suc id) cs, category_rows_before i (suc id) cs)

  insert_rows-HasKeys :
      (c : Category) (cs : List Category) (t : Tables)
      → length snap ≡ 32
      → HasKeys t
      → HasKeys (insert_rows (some snap) (c ∷ cs) t).1
  insert_rows-HasKeys c cs t full h =
      let new = category_rows snap t.snap_categories_id_seq (c ∷ cs) in
      record {
        one_per_vote = h.one_per_vote;
        votes_below = h.votes_below;
        one_per_row = λ i. ground (
          arith,
          count-append (has_row_id i) t.snap_categories new,
          h.one_per_row i,
          h.rows_below i,
          category_rows_once i t.snap_categories_id_seq (c ∷ cs),
          category_rows_before i t.snap_categories_id_seq (c ∷ cs),
        );
        rows_below = λ i le. omega (
          arith,
          count-append (has_row_id i) t.snap_categories new,
          h.rows_below i (omega arith),
          category_rows_behind i t.snap_categories_id_seq (c ∷ cs) le,
        );
        inside = omega (
          arith,
          count-append is_outside t.snap_categories new,
          h.inside,
          category_rows-outside t.snap_categories_id_seq (c ∷ cs),
        );
        full_category = omega (
          arith,
          count-append is_short_category t.snap_categories new,
          h.full_category,
          category_rows-short t.snap_categories_id_seq (c ∷ cs) full,
        );
      }

insert_stored-HasKeys :
    (snap_id : Text) (snap : Option Text) (cs : List Category) (t : Tables)
    → char_store 32 snap_id ≡ snap
    → HasKeys t
    → HasKeys (insert_rows snap cs t).1
insert_stored-HasKeys snap_id snap [] t fits h = h
insert_stored-HasKeys snap_id none (c ∷ cs) t fits h = h
insert_stored-HasKeys snap_id (some snap) (c ∷ cs) t fits h =
    insert_rows-HasKeys snap c cs t (length-char_store 32 snap_id snap fits) h

pub set_categories_for_snap-HasKeys :
    (s : Session) (snap_id : Text) (cs : List Category) (t : Tables)
    → HasKeys t
    → HasKeys (set_categories_for_snap s snap_id cs t).1
unfolding set_categories_for_snap
set_categories_for_snap-HasKeys s snap_id cs t h = elim (Bool-cases (s.answers insert_categories)) [
  | inr off ↦ rw off h
  | inl on ↦ rw on (insert_stored-HasKeys snap_id (char_store 32 snap_id) cs t refl h)
]
