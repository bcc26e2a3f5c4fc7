-- ===== src/Startup/Refusal.antt =====
-- What can keep the service of src/main.rs from starting.
use app_center_ratings.Prelude.{◌≡◌, Option, none, some, Text, err}
use app_center_ratings.Auth.Jwt.{JwtError, JsonWebToken, encoder_from_secret, verifier_from_secret}
use app_center_ratings.Db.Tables.{SqlxError}
use app_center_ratings.Startup.Settings.{Config, socket, Identity, Outside}
use app_center_ratings.Startup.Pool.{max_pool_connections}

-- One path without the other, a file that cannot be read, or an identity that is not accepted.
pub data RefusesTls (o : Outside) : Option Text → Option Text → Type 0 where
  lone_keychain : (keychain_path : Text) → RefusesTls o (some keychain_path) none
  lone_key : (key_path : Text) → RefusesTls o none (some key_path)
  unread_keychain :
      (keychain_path key_path : Text)
      → o.read_to_string keychain_path ≡ none
      → RefusesTls o (some keychain_path) (some key_path)
  unread_key :
      (keychain_path key_path : Text)
      → o.read_to_string key_path ≡ none
      → RefusesTls o (some keychain_path) (some key_path)
  unaccepted :
      (keychain_path key_path : Text) (identity : Identity)
      → o.tls_config identity ≡ none
      → RefusesTls o (some keychain_path) (some key_path)

pub data Refusal (lib : JsonWebToken) (o : Outside) : Type 0 where
  unset : o.from_env ≡ none → Refusal lib o
  no_client : o.client_builds ≡ none → Refusal lib o
  stale : o.migrations_run ≡ none → Refusal lib o
  no_connection : (e : SqlxError) → o.acquire ≡ err e → Refusal lib o
  unanswered : (e : SqlxError) → o.ping ≡ err e → Refusal lib o
  no_encoder :
      (c : Config) (e : JwtError)
      → o.from_env ≡ some c
      → encoder_from_secret lib c.jwt_secret ≡ err e
      → Refusal lib o
  no_verifier :
      (c : Config) (e : JwtError)
      → o.from_env ≡ some c
      → verifier_from_secret lib c.jwt_secret ≡ err e
      → Refusal lib o
  unconnected :
      (c : Config) (e : SqlxError)
      → o.from_env ≡ some c
      → o.connect max_pool_connections c.postgres_uri ≡ err e
      → Refusal lib o
  no_address : (c : Config) → o.from_env ≡ some c → o.parse_addr (socket c) ≡ none → Refusal lib o
  no_tls :
      (c : Config)
      → o.from_env ≡ some c
      → RefusesTls o c.tls_keychain_path c.tls_key_path
      → Refusal lib o
