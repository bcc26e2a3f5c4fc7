-- ===== src/Tests/TwoUpdates.antt =====
-- Two votes on a snap without categories, both of which ask for its categories before either of them
-- stores any, by the update of src/ratings/categories.rs.
use app_center_ratings.Prelude.{◌≡◌, refl, none, some, List, [], ◌∷◌, length, Text, text, ok}
use app_center_ratings.Auth.Middleware.{admit, is_public}
use app_center_ratings.Auth.Header.{ends_with, split_whitespace, scan_parts, is_whitespace}
use app_center_ratings.Db.Category.{category_try_from}
use app_center_ratings.Db.User.{create_or_seen, insert_user}
use app_center_ratings.Db.Char.{char_store, char_eq_text, rtrim}
use app_center_ratings.Db.SnapCategories.{
  snap_has_categories, set_categories_for_snap, category_rows,
}
use app_center_ratings.Ratings.SnapcraftIo.{
  fetch_snap_name, fetch_categories, get_json, parse_categories,
}
use app_center_ratings.Ratings.FixedPoint.{fixed_point}
use app_center_ratings.Grpc.Routes.{user_service, serve, user_server}
use app_center_ratings.Grpc.Access.{take_claims}
use app_center_ratings.Grpc.World.{Env}
use app_center_ratings.Grpc.Task.{in_order}
use app_center_ratings.Grpc.Task.Handlers.{conn_task, update_task, update_inner_task, vote_task}
use app_center_ratings.Grpc.Requests.Tasks.{rpc_task}
use app_center_ratings.Grpc.Dispatch.{Codec, accept}
use app_center_ratings.Grpc.Pool.{
  Event, arrives, moves, idle, move, request_task, happen, happen_all,
}
use app_center_ratings.Tests.Samples.{claims, env, world, vote_request}

abbrev finding_env : Env
finding_env = record env {
  web = record {
    parse_url = λ base. some base;
    join = λ base path. some path;
    get = λ url query. some url;
    assertions_from_str = λ s. some (text "firefox");
    find_from_str = λ s. some (text "social" ∷ []);
  };
}

abbrev codec : Codec (Unit {0})
codec = record {
  error = text "failed to decode Protobuf message";
  authenticate_request = λ b. none;
  delete_request = λ b. none;
  vote_request = λ b. some vote_request.body;
  get_snap_votes_request = λ b. none;
  get_rating_request = λ b. none;
  get_chart_request = λ b. none;
}

abbrev a_vote : Event Text (Unit {0})
a_vote =
    arrives
      (record {
        env = finding_env;
        decode = λ token. ok claims;
        request = record {
          path = vote_request.path;
          authorization = vote_request.authorization;
          claims = none;
          body = tt;
        };
      })
      in_order

abbrev asked_before_stored : List (Event Text (Unit {0}))
asked_before_stored =
    a_vote ∷ a_vote ∷ moves 0 ∷ moves 1 ∷ moves 0 ∷ moves 0 ∷ moves 0 ∷ moves 1 ∷ moves 1 ∷ []

stored_twice :
    length
      (happen_all codec some
        (λ path. some user_service)
        fixed_point
        asked_before_stored
        (idle world)).world.stores.tables.snap_categories
    ≡ 2
unfolding happen_all happen move request_task accept rpc_task vote_task take_claims conn_task
    update_task update_inner_task admit is_public ends_with split_whitespace scan_parts
    is_whitespace serve user_server fetch_snap_name fetch_categories get_json parse_categories
    snap_has_categories set_categories_for_snap category_rows char_store char_eq_text rtrim
    create_or_seen insert_user category_try_from
stored_twice = refl
