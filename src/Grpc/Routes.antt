-- ===== src/Grpc/Routes.antt =====
-- The generated servers of src/proto: which handler a path leads to.
use app_center_ratings.Prelude.{Option, none, some, if◌then◌else◌, Text, text, text_eq}

-- The handlers.
pub data Endpoint : Type 0 where
  authenticate delete vote get_snap_votes : Endpoint
  get_rating get_chart : Endpoint

-- `UserServer::call`; any other path is answered with "unimplemented".
unfoldable pub user_server : Text → Option Endpoint
user_server path =
    if text_eq path (text "/ratings.features.user.User/Authenticate")
    then some authenticate
    else if text_eq path (text "/ratings.features.user.User/Delete")
    then some delete
    else if text_eq path (text "/ratings.features.user.User/Vote")
    then some vote
    else if text_eq path (text "/ratings.features.user.User/GetSnapVotes")
    then some get_snap_votes
    else none

-- `AppServer::call`.
unfoldable pub app_server : Text → Option Endpoint
app_server path =
    if text_eq path (text "/ratings.features.app.App/GetRating") then some get_rating else none

-- `ChartServer::call`.
unfoldable pub chart_server : Text → Option Endpoint
chart_server path =
    if text_eq path (text "/ratings.features.chart.Chart/GetChart") then some get_chart else none

-- The services that `run_server` adds. Which of them tonic gives a path to is its own: an argument.
pub data Service : Type 0 where
  rating_service chart_service user_service : Service

unfoldable pub serve : Service → Text → Option Endpoint
serve rating_service = app_server
serve chart_service = chart_server
serve user_service = user_server
