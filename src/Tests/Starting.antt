-- ===== src/Tests/Starting.antt =====
-- The theorems on starting the service and on calling it, at a sample configuration and requests.
use app_center_ratings.Prelude.{◌⊎◌, none, some, Text, text, ok}
use app_center_ratings.Grpc.Routes.{Endpoint}
use app_center_ratings.Grpc.Client.{ClientRequest, Inner}
use app_center_ratings.Grpc.Calls.{Sends, call-Sends}
use app_center_ratings.Startup.Settings.{Config, Outside}
use app_center_ratings.Startup.Server.{main}
use app_center_ratings.Startup.Refusal.{Refusal}
use app_center_ratings.Startup.Order.{fresh, Fails, Serves, main_cases}
use app_center_ratings.Tests.Services.{open_tokens}
use app_center_ratings.Tests.Samples.{snap}

abbrev config : Config
config = record {
  host = text "0.0.0.0";
  port = 8080;
  postgres_uri = text "postgresql://localhost:5433/ratings";
  jwt_secret = text "c2VjcmV0";
  snapcraft_io_uri = text "https://api.snapcraft.io/v2/";
  tls_keychain_path = some (text "chain.pem");
  tls_key_path = some (text "key.pem");
}

-- Everything that is asked for succeeds.
abbrev outside : Outside
outside = record {
  from_env = some config;
  client_builds = some tt;
  connect = λ n uri. ok tt;
  migrations_run = some tt;
  acquire = ok tt;
  ping = ok tt;
  parse_addr = λ s. some s;
  read_to_string = λ path. some path;
  tls_config = λ identity. some tt;
  serve = λ addr. ok tt;
}

main_cases_example :
    Serves outside (main open_tokens outside fresh)
    ⊎ (Fails (main open_tokens outside fresh) × Refusal open_tokens outside)
main_cases_example = main_cases open_tokens outside

abbrev rating_request : ClientRequest Text
rating_request = record { message = snap; grpc_method = none }

-- A channel that returns the path.
abbrev echo : Inner Text Text
echo = record { not_ready = none; unary = λ req path. ok path }

call-Sends_example : Sends echo rating_request Endpoint.get_rating
call-Sends_example = call-Sends echo rating_request Endpoint.get_rating
