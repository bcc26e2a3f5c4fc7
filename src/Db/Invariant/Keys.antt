-- ===== src/Db/Invariant/Keys.antt =====
-- The constraints of sql/migrations beside those of Db/Invariant: the primary keys of `votes` and of
-- `snap_categories`, with the sequences that number them, the CHECK on the categories and the width
-- of their snap_id.
pub mod Categories
use app_center_ratings.Prelude.{
  ℕ, suc, ◌+◌, ◌≤◌, ◌<◌, ◌≡◌, refl, Bool, true, false, not, ◌&&◌, ◌||◌, Option, none, some, List,
  [], ◌∷◌, ◌++◌, arith, ◌==◌, ==_iff, keep, find, count, length, Text, count-append, count-keep,
  inl, inr, Bool-cases, Option-cases,
}
use app_center_ratings.Prelude.Int.{ℤ, pos, ltb_ℤ, as_i32}
use app_center_ratings.Db.Category.{Category, category_as_i32}
use app_center_ratings.Db.Char.{char_store, length-char_store}
use app_center_ratings.Db.Tables.{
  User, VoteRow, CategoryRow, Tables, Session, migrated, upsert_user, delete_user, upsert_vote,
  insert_categories,
}
use app_center_ratings.Db.User.{
  insert_user, create_or_seen, is_client, loses_user, delete_by_client_hash,
}
use app_center_ratings.Db.Vote.{
  Vote, same_key, change_vote, new_row, place_vote, draw_id, insert_vote, save_to_db,
}
use app_center_ratings.Db.SnapCategories.{category_rows, insert_rows, set_categories_for_snap}
use app_center_ratings.Db.Invariant.{IsValid, migrated-IsValid, count-change_vote}

abbrev has_vote_id : ℕ → VoteRow → Bool
has_vote_id i v = v.id == i

abbrev pub has_row_id : ℕ → CategoryRow → Bool
has_row_id i r = r.id == i

-- The rows that CHECK (category BETWEEN 0 AND 19) refuses.
abbrev pub is_outside : CategoryRow → Bool
is_outside r = ltb_ℤ r.category (pos 0) || ltb_ℤ (pos 19) r.category

abbrev pub is_short_category : CategoryRow → Bool
is_short_category r = not (length r.snap_id == 32)

pub record HasKeys (t : Tables) : Type 0 where
  pub one_per_vote : (i : ℕ) → count (has_vote_id i) t.votes ≤ 1
  pub votes_below : (i : ℕ) → t.votes_id_seq ≤ i → count (has_vote_id i) t.votes ≡ 0
  pub one_per_row : (i : ℕ) → count (has_row_id i) t.snap_categories ≤ 1
  pub rows_below :
      (i : ℕ) → t.snap_categories_id_seq ≤ i → count (has_row_id i) t.snap_categories ≡ 0
  pub inside : count is_outside t.snap_categories ≡ 0
  pub full_category : count is_short_category t.snap_categories ≡ 0

-- The tables meet the constraints of the migrations: those of Db/Invariant and these.
pub record MeetsMigrations (t : Tables) : Type 0 where
  pub valid : IsValid t
  pub keys : HasKeys t

pub migrated-MeetsMigrations : MeetsMigrations migrated
migrated-MeetsMigrations = record {
  valid = migrated-IsValid;
  keys = record {
    one_per_vote = λ i. omega arith;
    votes_below = λ i le. refl;
    one_per_row = λ i. omega arith;
    rows_below = λ i le. refl;
    inside = refl;
    full_category = refl;
  };
}

insert_user-HasKeys :
    (s : Session) (hash : Text) (o : Option User) (t : Tables)
    → HasKeys t
    → HasKeys (insert_user s hash o t).1
unfolding insert_user
insert_user-HasKeys s hash (some u) t h = record {
  one_per_vote = h.one_per_vote;
  votes_below = h.votes_below;
  one_per_row = h.one_per_row;
  rows_below = h.rows_below;
  inside = h.inside;
  full_category = h.full_category;
}
insert_user-HasKeys s hash none t h = record {
  one_per_vote = h.one_per_vote;
  votes_below = h.votes_below;
  one_per_row = h.one_per_row;
  rows_below = h.rows_below;
  inside = h.inside;
  full_category = h.full_category;
}

pub create_or_seen-HasKeys :
    (s : Session) (hash : Text) (t : Tables) → HasKeys t → HasKeys (create_or_seen s hash t).1
unfolding create_or_seen
create_or_seen-HasKeys s hash t h = elim (Bool-cases (s.answers upsert_user)) [
  | inr off ↦ rw off h
  | inl on ↦ rw on (elim (Option-cases (char_store 64 hash)) [
    | inl long ↦ rw long h
    | inr (c, fits) ↦ rw fits (insert_user-HasKeys s c _ t h)
  ])
]

pub delete_by_client_hash-HasKeys :
    (s : Session) (hash : Text) (t : Tables)
    → HasKeys t
    → HasKeys (delete_by_client_hash s hash t).1
unfolding delete_by_client_hash
delete_by_client_hash-HasKeys s hash t h =
    let safe : VoteRow → Bool = λ v. not (loses_user hash t.users v) in
    elim (Bool-cases (s.answers delete_user)) [
      | inr off ↦ rw off h
      | inl on ↦ rw on (record {
        one_per_vote =
            λ i. omega (arith, count-keep (has_vote_id i) safe t.votes, h.one_per_vote i);
        votes_below =
            λ i le. omega (arith, count-keep (has_vote_id i) safe t.votes, h.votes_below i le);
        one_per_row = h.one_per_row;
        rows_below = h.rows_below;
        inside = h.inside;
        full_category = h.full_category;
      })
    ]

place_vote-HasKeys :
    (s : Session) (user : ℕ) (snap : Text) (revision : ℤ) (up : Bool) (o : Option VoteRow)
    (t : Tables)
    → HasKeys t
    → HasKeys (place_vote s user snap revision up o t)
unfolding place_vote
place_vote-HasKeys s user snap revision up (some v) t h = record {
  one_per_vote = λ i.
      rw (count-change_vote (has_vote_id i) user snap revision up t.votes (λ w. refl))
        (h.one_per_vote i);
  votes_below = λ i le.
      rw (count-change_vote (has_vote_id i) user snap revision up t.votes (λ w. refl))
        (h.votes_below i (omega arith));
  one_per_row = h.one_per_row;
  rows_below = h.rows_below;
  inside = h.inside;
  full_category = h.full_category;
}
place_vote-HasKeys s user snap revision up none t h =
    let new = new_row s user snap revision up t in
    record {
      one_per_vote = λ i. ground (
        arith,
        count-append (has_vote_id i) t.votes (new ∷ []),
        h.one_per_vote i,
        h.votes_below i,
      );
      votes_below = λ i le.
          ground
            (arith, count-append (has_vote_id i) t.votes (new ∷ []), h.votes_below i (omega arith));
      one_per_row = h.one_per_row;
      rows_below = h.rows_below;
      inside = h.inside;
      full_category = h.full_category;
    }

draw_id-HasKeys : (t : Tables) → HasKeys t → HasKeys (draw_id t)
draw_id-HasKeys t h = record {
  one_per_vote = h.one_per_vote;
  votes_below = λ i le. h.votes_below i (omega arith);
  one_per_row = h.one_per_row;
  rows_below = h.rows_below;
  inside = h.inside;
  full_category = h.full_category;
}

insert_vote-HasKeys :
    (s : Session) (o : Option User) (c : Option Text) (revision : ℤ) (up : Bool) (t : Tables)
    → HasKeys t
    → HasKeys (insert_vote s o c revision up t).1
unfolding insert_vote
insert_vote-HasKeys s o none revision up t h = h
insert_vote-HasKeys s none (some snap) revision up t h = draw_id-HasKeys t h
insert_vote-HasKeys s (some u) (some snap) revision up t h =
    elim (Bool-cases (ltb_ℤ (pos 0) revision)) [
      | inr below ↦ rw below (draw_id-HasKeys t h)
      | inl above ↦ rw above (place_vote-HasKeys s u.id snap revision up _ t h)
    ]

pub save_to_db-HasKeys :
    (s : Session) (vote : Vote) (t : Tables) → HasKeys t → HasKeys (save_to_db s vote t).1
unfolding save_to_db
save_to_db-HasKeys s vote t h = elim (Bool-cases (s.answers upsert_vote)) [
  | inr off ↦ rw off h
  | inl on ↦ rw on (insert_vote-HasKeys s _ _ _ vote.vote_up t h)
]
