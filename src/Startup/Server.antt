-- ===== src/Startup/Server.antt =====
-- `Context::new` of src/context.rs, `run_server` of src/grpc/mod.rs and `main` of src/main.rs.
use app_center_ratings.Prelude.{Option, none, some, Text, err, map_err}
use app_center_ratings.Auth.Jwt.{reqwest, JsonWebToken, encoder_from_secret, verifier_from_secret}
use app_center_ratings.Startup.Settings.{
  Config, socket, Identity, Outside, envy, transport, tls_refused, jwt, addr_parse, io, panicked,
  Start, served, pure, lift, or_fail, record_event, ◌>>=◌, ◌>>◌,
}
use app_center_ratings.Startup.Pool.{check_db_conn}

module _ (lib : JsonWebToken) (o : Outside) where
  -- `Context::new`: a context is its configuration and the encoder's key, beside the HTTP client and the
  -- empty map of updates.
  pub record Context : Type 0 where
    pub config : Config
    pub jwt_encoder : lib.Key

  unfoldable pub new_context : Config → Start Context
  new_context config = do
    jwt_encoder ← lift (map_err jwt (encoder_from_secret lib config.jwt_secret))
    or_fail (jwt reqwest) o.client_builds
    pure (record { config = config; jwt_encoder = jwt_encoder })

  -- The two arms of the `match` that build a server: with an identity, or without.
  abbrev tls_builder : Text → Text → Start (Option Identity)
  tls_builder keychain_path key_path = do
    keychain ← or_fail (io keychain_path) (o.read_to_string keychain_path)
    key ← or_fail (io key_path) (o.read_to_string key_path)
    let identity : Identity = record { keychain = keychain; key = key }
    or_fail tls_refused (o.tls_config identity)
    pure (some identity)

  unfoldable pub builder : Option Text → Option Text → Start (Option Identity)
  builder (some keychain_path) (some key_path) = tls_builder keychain_path key_path
  builder (some keychain_path) none = lift (err panicked)
  builder none (some key_path) = lift (err panicked)
  builder none none = pure none

  -- `run_server`.
  unfoldable pub run_server : Context → Start (Unit {0})
  run_server ctx = do
    verifier ← lift (map_err jwt (verifier_from_secret lib ctx.config.jwt_secret))
    addr ← or_fail addr_parse (o.parse_addr (socket ctx.config))
    identity ← builder ctx.config.tls_keychain_path ctx.config.tls_key_path
    record_event (served addr identity)
    lift (map_err (λ _. transport) (o.serve addr))

  -- `main`, behind the setting up of the log.
  unfoldable pub main : Start (Unit {0})
  main = do
    config ← or_fail envy o.from_env
    ctx ← new_context config
    check_db_conn o
    run_server ctx
