-- ===== src/Tests/Repository.antt =====
-- The unit tests of src/db/mod.rs and src/ratings/rating.rs, run in the model: from the migrated tables, over
-- a server that answers, and with the sample numbers for f64.
use app_center_ratings.Prelude.{
  ◌≡◌, refl, ℕ, Bool, true, false, not, ◌&&◌, if◌then◌else◌, ◌==◌, Option, none, some, List, [],
  ◌∷◌, Text, text, text_eq, Result, ok, err,
}
use app_center_ratings.Prelude.Int.{pos, as_i32}
use app_center_ratings.Db.Category.{Category}
use app_center_ratings.Db.Char.{char_store, char_eq_text, rtrim}
use app_center_ratings.Db.Tables.{Tables, DbError, migrated}
use app_center_ratings.Db.User.{create_or_seen, upsert_user_row, insert_user, touch}
use app_center_ratings.Db.Vote.{
  Vote, save_to_db, insert_vote, place_vote, change_vote, get_all_by_client_hash, join_votes,
  decode_votes,
}
use app_center_ratings.Db.SnapCategories.{
  snap_has_categories, set_categories_for_snap, category_rows,
}
use app_center_ratings.Db.Summary.{VoteSummary}
use app_center_ratings.Ratings.Float.{Floats}
use app_center_ratings.Ratings.Band.{RatingsBand, insufficient_votes, very_good, from_value}
use app_center_ratings.Ratings.Rating.{calculate_band, confidence_interval_lower_bound}
use app_center_ratings.Ratings.FixedPoint.{fixed_point, root}
use app_center_ratings.Tests.Samples.{session}

abbrev client_hash_1 : Text
client_hash_1 = text "0000000000000000000000000000000000000000000000000000000000000001"

abbrev client_hash_2 : Text
client_hash_2 = text "0000000000000000000000000000000000000000000000000000000000000002"

abbrev snap_id_1 : Text
snap_id_1 = text "00000000000000000000000000000001"

abbrev snap_id_2 : Text
snap_id_2 = text "00000000000000000000000000000002"

abbrev test_vote_1 : Vote
test_vote_1 = record {
  client_hash = client_hash_1;
  snap_id = snap_id_1;
  snap_revision = 1;
  vote_up = true;
  timestamp = 123;
}

abbrev test_vote_2 : Vote
test_vote_2 = record {
  client_hash = client_hash_2;
  snap_id = snap_id_2;
  snap_revision = 2;
  vote_up = false;
  timestamp = 456;
}

-- One statement after another; the test ends at the first error.
abbrev after {ℓ} : {A : Type ℓ} → Result DbError A × Tables → (Tables → Bool) → Bool
after (ok a, t) rest = rest t
after (err e, t) rest = false

abbrev is_only_vote : Vote → Result DbError (List Vote) → Bool
is_only_vote v (ok (w ∷ [])) =
    text_eq w.snap_id v.snap_id
    && text_eq w.client_hash v.client_hash
    && w.snap_revision == v.snap_revision
    && (if v.vote_up then w.vote_up else not w.vote_up)
is_only_vote v _ = false

unfoldable save_and_read_votes : Tables → Bool
save_and_read_votes t = after (create_or_seen session client_hash_1 t) λ t.
    after (create_or_seen session client_hash_2 t) λ t.
      after (save_to_db session test_vote_1 t) λ t. after (save_to_db session test_vote_2 t) λ t.
        is_only_vote test_vote_1 (get_all_by_client_hash session client_hash_1 (some snap_id_1) t)
        && is_only_vote test_vote_2
            (get_all_by_client_hash session client_hash_2 (some snap_id_2) t)

save_and_read_votes_passes : save_and_read_votes migrated ≡ true
unfolding save_and_read_votes create_or_seen upsert_user_row insert_user touch save_to_db
    insert_vote place_vote change_vote get_all_by_client_hash join_votes decode_votes char_store
    char_eq_text rtrim text_eq as_i32
save_and_read_votes_passes = refl

abbrev is_found : Result DbError Bool → Bool
is_found (ok found) = found
is_found (err e) = false

abbrev is_missing : Result DbError Bool → Bool
is_missing (ok found) = not found
is_missing (err e) = false

unfoldable read_and_set_categories : Tables → Bool
read_and_set_categories t =
    is_missing (snap_has_categories session snap_id_1 t)
    && after (set_categories_for_snap session snap_id_1 (Category.art_and_design ∷ []) t)
        λ t. is_found (snap_has_categories session snap_id_1 t)

read_and_set_categories_passes : read_and_set_categories migrated ≡ true
unfolding read_and_set_categories snap_has_categories set_categories_for_snap category_rows
    char_store char_eq_text rtrim text_eq
read_and_set_categories_passes = refl

-- With any numbers.
zero_votes : (f : Floats) → confidence_interval_lower_bound f (pos 0) (pos 0) ≡ f.hundredths 0
unfolding confidence_interval_lower_bound
zero_votes f = refl

abbrev summary_of_all_up : ℕ → VoteSummary
summary_of_all_up n = record { snap_id = text "1"; total_votes = pos n; positive_votes = pos n }

one_vote_is_not_enough :
    (f : Floats) → calculate_band f (summary_of_all_up 1) ≡ (none, insufficient_votes)
unfolding calculate_band
one_vote_is_not_enough f = refl

abbrev is_very_good : Option fixed_point.F64 × RatingsBand → Bool
is_very_good (some rating, very_good) = fixed_point.gt rating (fixed_point.hundredths 70)
is_very_good _ = false

hundred_up_votes : is_very_good (calculate_band fixed_point (summary_of_all_up 100)) ≡ true
unfolding calculate_band confidence_interval_lower_bound from_value root
hundred_up_votes = refl
