-- ===== src/Tests/Flows.antt =====
-- The theorems on what several requests do together, at sample requests.
use app_center_ratings.Prelude.{◌≡◌, refl, ◌&&◌, some, count, arith, text, text_eq, byte_len, ok}
use app_center_ratings.Prelude.Int.{pos, as_u64, as_i32}
use app_center_ratings.Db.Char.{char_store, char_eq_text, rtrim, IsTrimmed}
use app_center_ratings.Db.User.{create_or_seen, upsert_user_row, insert_user}
use app_center_ratings.Db.Vote.{save_to_db, insert_vote, place_vote}
use app_center_ratings.Db.Summary.{
  VoteSummary, get_by_snap_id_uncached, group_by_snap_id, group_keys,
}
use app_center_ratings.Db.Invariant.{migrated-IsValid}
use app_center_ratings.Db.Invariant.Votes.{save_to_db-IsValid}
use app_center_ratings.Db.Reading.{is_wanted}
use app_center_ratings.Ratings.FixedPoint.{fixed_point}
use app_center_ratings.Ratings.Band.{band_as_i32}
use app_center_ratings.Ratings.Rating.{calculate_band}
use app_center_ratings.Ratings.SnapcraftIo.{get_snap_name}
use app_center_ratings.Grpc.World.{World}
use app_center_ratings.Grpc.App.{PbRating, get_rating}
use app_center_ratings.Grpc.User.{authenticate, vote}
use app_center_ratings.Grpc.Arriving.{authenticate_then_vote}
use app_center_ratings.Grpc.RatingRequests.{get_rating-counts}
use app_center_ratings.Db.SnapCategories.{snap_has_categories}
use app_center_ratings.Ratings.SnapcraftIo.{get_snap_categories}
use app_center_ratings.Ratings.Update.{update_categories, update_categories_inner}
use app_center_ratings.Grpc.Access.{take_claims}
use app_center_ratings.Grpc.World.{Env, conn}
use app_center_ratings.Grpc.User.{try_update_categories}
use app_center_ratings.Grpc.App.{pb_rating}
use app_center_ratings.Grpc.Requests.{Rpc, vote_with, answer_rpc, serve_rpc, serve_all}
use app_center_ratings.Grpc.Requests.Remembered.{get_rating-remembered}
use app_center_ratings.Ratings.Rating.{rating_from_summary}
use app_center_ratings.Db.Summary.{no_votes}
use app_center_ratings.Prelude.{List, [], ◌∷◌, Text}
use app_center_ratings.Prelude.Int.{as_u32}
use app_center_ratings.Prelude.Int.{pos_part}
use app_center_ratings.Prelude.{◌+◌}
use app_center_ratings.Db.Casting.{added, replaced, previous}
use app_center_ratings.Grpc.App.{get_by_snap_id_cached}
use app_center_ratings.Grpc.Summaries.{summary_after_vote}
use app_center_ratings.Tests.Samples.{
  user, up_vote-IsAccepted, snap-IsTrimmed, client, snap, session, one_user, one_user-IsValid,
  up_vote, env, claims, passed_request, empty_world, nobody-ends, world,
}

client-IsTrimmed : IsTrimmed client
unfolding rtrim
client-IsTrimmed = refl

authenticate_then_vote_example :
    ((authenticate env client empty_world).0 ≡ ok (text "token"))
    × ((vote env passed_request (authenticate env client empty_world).1).0 ≡ ok tt)
unfolding byte_len char_store
authenticate_then_vote_example =
    authenticate_then_vote env client empty_world migrated-IsValid client-IsTrimmed refl refl refl
      refl refl env passed_request claims {snap = snap} refl refl refl nobody-ends refl refl
      (omega arith) refl

abbrev named_world : World fixed_point.F32
named_world = record empty_world {
  stores = record {
    tables = (save_to_db session up_vote one_user).1;
    names = λ k. some (text "firefox");
  };
}

abbrev one_vote : VoteSummary
one_vote = record { snap_id = snap; total_votes = pos 1; positive_votes = pos 1 }

one_vote-asked : get_by_snap_id_uncached session snap named_world.stores.tables ≡ ok one_vote
unfolding get_by_snap_id_uncached group_by_snap_id group_keys save_to_db insert_vote place_vote
    create_or_seen upsert_user_row insert_user char_store char_eq_text rtrim text_eq as_i32
one_vote-asked = refl

get_rating-counts_example :
    (p : PbRating) × ((get_rating fixed_point env snap named_world).0 ≡ ok p)
    × (p.total_votes ≡ as_u64 (pos (count (is_wanted snap) named_world.stores.tables.votes)))
    × (p.ratings_band
        ≡ band_as_i32
            (calculate_band fixed_point (record {
              snap_id = snap;
              total_votes = pos (count (is_wanted snap) named_world.stores.tables.votes);
              positive_votes =
                  pos (count (λ v. is_wanted snap v && v.vote_up) named_world.stores.tables.votes);
            })).1)
    × (p.snap_name ≡ text "firefox")
    × ((get_rating fixed_point env snap named_world).1.summaries snap ≡ some one_vote)
unfolding get_snap_name
get_rating-counts_example =
    get_rating-counts fixed_point env snap named_world one_vote
      (save_to_db-IsValid session up_vote one_user one_user-IsValid) refl refl refl refl
      one_vote-asked refl

-- The summary of no vote is kept, and then a vote is cast.
abbrev remembering_world : World fixed_point.F32
remembering_world = record empty_world {
  stores = record { tables = one_user; names = λ k. some (text "firefox") };
  summaries = λ k. some (no_votes snap);
}

abbrev a_vote : List (Env × Rpc Text)
a_vote = (env, vote_with passed_request) ∷ []

a_vote-names :
    (get_snap_name env.web snap env.snapcraft_io_uri
      (serve_all fixed_point a_vote remembering_world).stores.names).0
    ≡ ok (text "firefox")
unfolding serve_all serve_rpc answer_rpc vote take_claims conn try_update_categories
    update_categories update_categories_inner get_snap_categories get_snap_name snap_has_categories
    save_to_db insert_vote create_or_seen upsert_user_row insert_user char_store char_eq_text rtrim
    text_eq as_i32 as_u32
a_vote-names = refl

get_rating-remembered_example :
    (get_rating fixed_point env snap (serve_all fixed_point a_vote remembering_world)).0
    ≡ ok (pb_rating (rating_from_summary fixed_point (no_votes snap)) (text "firefox"))
get_rating-remembered_example =
    get_rating-remembered fixed_point env a_vote snap (no_votes snap) remembering_world refl refl
      refl a_vote-names

abbrev voted_later : World fixed_point.F32
voted_later = record world {
  stores = record world.stores { tables = (save_to_db session up_vote one_user).1 };
}

summary_after_vote_example :
    (before : VoteSummary) × (after : VoteSummary) × ((get_by_snap_id_cached fixed_point env snap
        world).0
      ≡ ok before)
    × ((get_by_snap_id_cached fixed_point env snap voted_later).0 ≡ ok after)
    × (pos_part after.total_votes
        ≡ pos_part before.total_votes + added (previous up_vote one_user user snap))
    × (pos_part after.positive_votes + replaced (previous up_vote one_user user snap)
        ≡ pos_part before.positive_votes + 1)
summary_after_vote_example =
    summary_after_vote fixed_point env env env up_vote world voted_later one_user-IsValid
      up_vote-IsAccepted snap-IsTrimmed refl refl refl refl refl
