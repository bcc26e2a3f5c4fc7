-- ===== src/Startup/Pool.antt =====
-- The pool of src/db/mod.rs: `init_pool_from_uri`, `init_pool_from_uri_and_migrate`, `get_pool` and
-- `check_db_conn`.
use app_center_ratings.Prelude.{ℕ, Option, none, some, Text, Result, map_err}
use app_center_ratings.Db.Tables.{sqlx, migration, envy}
use app_center_ratings.Startup.Settings.{
  Outside, db, Start, connected, migrated, pinged, pure, lift, or_fail, record_event, ◌>>=◌, ◌>>◌,
}

abbrev pub max_pool_connections : ℕ
max_pool_connections = 5

module _ (o : Outside) where
  -- `init_pool_from_uri`; a pool goes by its URI.
  unfoldable pub init_pool_from_uri : Text → Start Text
  init_pool_from_uri postgres_uri = do
    lift (map_err (λ e. db (sqlx e)) (o.connect max_pool_connections postgres_uri))
    record_event (connected postgres_uri)
    pure postgres_uri

  unfoldable pub init_pool_from_uri_and_migrate : Start Text
  init_pool_from_uri_and_migrate = do
    config ← or_fail (db envy) o.from_env
    pool ← init_pool_from_uri config.postgres_uri
    or_fail (db migration) o.migrations_run
    record_event migrated
    pure pool

  abbrev set_pool : Text → Start Text
  set_pool pool p = (Result.ok pool, record p { pool = some pool })

  abbrev get_or_try_init : Option Text → Start Text
  get_or_try_init (some pool) = pure pool
  get_or_try_init none = do pool ← init_pool_from_uri_and_migrate; set_pool pool

  -- `get_pool`: the pool of the cell, or a new one, which is kept in the cell if it is made.
  unfoldable pub get_pool : Start Text
  get_pool p = get_or_try_init p.pool p

  -- `conn!()`.
  unfoldable pub acquire : Start (Unit {0})
  acquire = do get_pool; lift (map_err (λ e. db (sqlx e)) o.acquire)

  -- `check_db_conn`.
  unfoldable pub check_db_conn : Start (Unit {0})
  check_db_conn = do acquire; lift (map_err (λ e. db (sqlx e)) o.ping); record_event pinged
