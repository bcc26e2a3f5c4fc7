-- ===== src/Tests/Charting.antt =====
-- The theorems on the chart and the votes that requests are answered with, at a sample vote.
use app_center_ratings.Prelude.{none, some, List, map, Text, text}
use app_center_ratings.Db.Category.{week}
use app_center_ratings.Auth.Middleware.{Request}
use app_center_ratings.Db.Vote.{Vote, save_to_db}
use app_center_ratings.Ratings.FixedPoint.{fixed_point}
use app_center_ratings.Ratings.Chart.{ChartData, Chart, chart_data_from_summary}
use app_center_ratings.Grpc.World.{World, Env}
use app_center_ratings.Grpc.Shown.{rows}
use app_center_ratings.Tests.Samples.{snap, claims, session, one_user, up_vote, env, empty_world}

abbrev firefox : Text → Text
firefox snap_id = text "firefox"

-- snapcraft.io gives every snap the one name.
abbrev named_env : Env
named_env = record env {
  web = record {
    parse_url = λ base. some base;
    join = λ base path. some path;
    get = λ url query. some url;
    assertions_from_str = λ s. some (text "firefox");
    find_from_str = λ s. none;
  };
}

abbrev voted_world : World fixed_point.F32
voted_world = record empty_world {
  stores = record { tables = (save_to_db session up_vote one_user).1; names = λ k. none };
}

abbrev data_of : List (ChartData fixed_point.F32)
data_of =
    map (chart_data_from_summary fixed_point) (rows week none fixed_point named_env voted_world)

abbrev votes_request : Request Text Text
votes_request = record {
  path = text "/ratings.features.user.User/GetSnapVotes";
  authorization = some (text "Bearer token");
  claims = some claims;
  body = snap;
}
