-- ===== src/Tests/Reads.antt =====
-- The theorems on summaries and charts, at sample tables.
use app_center_ratings.Prelude.{◌≡◌, refl, inr, none, List, [], ◌∷◌, text, ok}
use app_center_ratings.Prelude.Int.{pos}
use app_center_ratings.Db.Category.{week}
use app_center_ratings.Db.Tables.{Tables}
use app_center_ratings.Db.Vote.{save_to_db}
use app_center_ratings.Db.Summary.{VoteSummary, get_for_timeframe}
use app_center_ratings.Db.Charting.{chart_votes, Groups, get_for_timeframe-Groups}
use app_center_ratings.Tests.Samples.{snap, session, one_user, up_vote}

abbrev voted : Tables
voted = (save_to_db session up_vote one_user).1

get_for_timeframe-Groups_example :
    (rows : List VoteSummary) × (get_for_timeframe session week none voted ≡ ok rows)
    × Groups (chart_votes session week none voted) rows
get_for_timeframe-Groups_example = get_for_timeframe-Groups session week none voted refl (inr refl)

abbrev two_snaps : List VoteSummary
two_snaps =
    record { snap_id = snap; total_votes = pos 30; positive_votes = pos 12 }
    ∷ record {
      snap_id = text "BBBBBBBBBBBBBBBBBBBBBBBBBBBBBBBB";
      total_votes = pos 40;
      positive_votes = pos 38;
    }
    ∷ []
