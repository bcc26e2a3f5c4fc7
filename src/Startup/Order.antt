-- ===== src/Startup/Order.antt =====
-- In which order the service of src/main.rs starts, and over what it serves.
use app_center_ratings.Prelude.{
  ◌≡◌, refl, ap, ◌⊎◌, inl, inr, Option, none, some, Option-cases, [], ◌∷◌, All, Text, Result, ok,
  err, map_err, Result-cases,
}
use app_center_ratings.Auth.Jwt.{reqwest, JsonWebToken, encoder_from_secret, verifier_from_secret}
use app_center_ratings.Startup.Settings.{
  Config, socket, Identity, Outside, StartError, envy, jwt, transport, Event, connected, migrated,
  pinged, served, Process, Start, or_fail, ◌>>=◌, ◌>>◌,
}
use app_center_ratings.Startup.Pool.{
  max_pool_connections, init_pool_from_uri, init_pool_from_uri_and_migrate, get_pool, acquire,
  check_db_conn,
}
use app_center_ratings.Startup.Refusal.{
  Refusal, unset, no_client, stale, no_connection, unanswered, no_encoder, no_verifier, unconnected,
  no_address, no_tls,
}
use app_center_ratings.Startup.Tls.{HasTls, builder_cases}
use app_center_ratings.Startup.Server.{Context, new_context, run_server, main}

abbrev pub fresh : Process
fresh = record { pool = none; log = [] }

abbrev IsBefore : Event → Type 0
IsBefore (served addr identity) = ⊥
IsBefore e = Unit {0}

-- An error, before anything is served.
pub record Fails {A : Type 0} (r : Result StartError A × Process) : Type 0 where
  pub error : StartError
  pub failed : r.0 ≡ err error
  pub unserved : All IsBefore r.1.log

module _ {A B : Type 0} (m : Start A) (n : Start B) (p : Process) where
  -- What follows an error is not run.
  Fails-then : Fails (m p) → Fails ((m >> n) p)
  Fails-then bad =
      rw bad.failed (record { error = bad.error; failed = refl; unserved = bad.unserved })

module _ (o : Outside) (c : Config) (loaded : o.from_env ≡ some c) where
  abbrev ready : Process
  ready = record {
    pool = some c.postgres_uri;
    log = connected c.postgres_uri ∷ migrated ∷ pinged ∷ [];
  }

  -- The pool is connected once, migrated and tried, or starting up fails.
  check_db_conn_cases :
      (lib : JsonWebToken)
      → (check_db_conn o fresh ≡ (ok tt, ready)) ⊎ (Fails (check_db_conn o fresh) × Refusal lib o)
  unfolding check_db_conn acquire get_pool init_pool_from_uri_and_migrate init_pool_from_uri
  check_db_conn_cases lib = elim (Result-cases (o.connect max_pool_connections c.postgres_uri)) [
    | inr (e, refused) ↦ inr (
      rw (loaded, refused) (record { error = _; failed = refl; unserved = tt }),
      unconnected c e loaded refused,
    )
    | inl (_, reached) ↦ elim (Option-cases o.migrations_run) [
      | inl old ↦ inr (
        rw (loaded, reached, old) (record { error = _; failed = refl; unserved = (tt, tt) }),
        stale old,
      )
      | inr (_, moved) ↦ elim (Result-cases o.acquire) [
        | inr (e, full) ↦ inr (
          rw (loaded, reached, moved, full)
              (record { error = _; failed = refl; unserved = (tt, (tt, tt)) }),
          no_connection e full,
        )
        | inl (_, taken) ↦ elim (Result-cases o.ping) [
          | inr (e, silent) ↦ inr (
            rw (loaded, reached, moved, taken, silent)
                (record { error = _; failed = refl; unserved = (tt, (tt, tt)) }),
            unanswered e silent,
          )
          | inl (_, answered) ↦ inl (rw (loaded, reached, moved, taken, answered) refl)
        ]
      ]
    ]
  ]

-- What a server that has started is known by.
pub record Serves (o : Outside) (r : Result StartError (Unit {0}) × Process) : Type 0 where
  pub config : Config
  pub addr : Text
  pub identity : Option Identity
  pub loaded : o.from_env ≡ some config
  pub parsed : o.parse_addr (socket config) ≡ some addr
  pub has_tls : HasTls o config.tls_keychain_path config.tls_key_path identity
  pub log : r.1.log ≡ connected config.postgres_uri ∷ migrated ∷ pinged ∷ served addr identity ∷ []
  pub outcome : r.0 ≡ map_err (λ _. transport) (o.serve addr)

module _ (lib : JsonWebToken) (o : Outside) (c : Config) (loaded : o.from_env ≡ some c) where
  run_server_cases :
      (ctx : Context lib o)
      → ctx.config ≡ c
      → Serves o (run_server lib o ctx (ready o c loaded))
        ⊎ (Fails (run_server lib o ctx (ready o c loaded)) × Refusal lib o)
  unfolding run_server
  run_server_cases ctx same = elim (Result-cases (verifier_from_secret lib c.jwt_secret)) [
    | inr (e, refused) ↦ inr (
      rw (same, refused) (record { error = _; failed = refl; unserved = (tt, (tt, (tt, tt))) }),
      no_verifier c e loaded refused,
    )
    | inl (_, verifies) ↦ elim (Option-cases (o.parse_addr (socket c))) [
      | inl unknown ↦ inr (
        rw (same, verifies, unknown)
            (record { error = _; failed = refl; unserved = (tt, (tt, (tt, tt))) }),
        no_address c loaded unknown,
      )
      | inr (addr, parsed) ↦
          elim (builder_cases lib o (ready o c loaded) c.tls_keychain_path c.tls_key_path) [
            | inr (e, unbuilt, refusal) ↦ inr (
              rw (same, verifies, parsed, unbuilt)
                  (record { error = e; failed = refl; unserved = (tt, (tt, (tt, tt))) }),
              no_tls c loaded refusal,
            )
            | inl (identity, built, has_tls) ↦ inl (
                rw (same, verifies, parsed, built)
                  (record {
                    config = c;
                    addr = addr;
                    identity = identity;
                    loaded = loaded;
                    parsed = parsed;
                    has_tls = has_tls;
                    log = refl;
                    outcome = refl;
                  }))
          ]
    ]
  ]

  new_context_cases :
      ((ctx : Context lib o) × (ctx.config ≡ c) × (new_context lib o c fresh ≡ (ok ctx, fresh)))
      ⊎ ((e : StartError) × (new_context lib o c fresh ≡ (err e, fresh)) × Refusal lib o)
  unfolding new_context
  new_context_cases = elim (Result-cases (encoder_from_secret lib c.jwt_secret)) [
    | inr (e, refused) ↦ inr (jwt e, rw refused refl, no_encoder c e loaded refused)
    | inl (key, signs) ↦ elim (Option-cases o.client_builds) [
      | inl broken ↦ inr (jwt reqwest, rw (signs, broken) refl, no_client broken)
      | inr (tt, built) ↦
          inl (record { config = c; jwt_encoder = key }, refl, rw (signs, built) refl)
    ]
  ]

  connected_cases :
      (ctx : Context lib o)
      → ctx.config ≡ c
      → Serves o ((check_db_conn o >> run_server lib o ctx) fresh)
        ⊎ (Fails ((check_db_conn o >> run_server lib o ctx) fresh) × Refusal lib o)
  connected_cases ctx same = elim (check_db_conn_cases o c loaded lib) [
    | inl up ↦ rw up (run_server_cases ctx same)
    | inr (bad, refusal) ↦
        inr (Fails-then (check_db_conn o) (run_server lib o ctx) fresh bad, refusal)
  ]

  abbrev main_from : Config → Start (Unit {0})
  main_from config = new_context lib o config >>= λ ctx. check_db_conn o >> run_server lib o ctx

  main_loaded : main lib o fresh ≡ main_from c fresh
  unfolding main
  main_loaded = ap (λ read. (or_fail envy read >>= main_from) fresh) loaded

  main_loaded_cases : Serves o (main lib o fresh) ⊎ (Fails (main lib o fresh) × Refusal lib o)
  main_loaded_cases = elim new_context_cases [
    | inr (e, bad, refusal) ↦
        inr (rw (main_loaded, bad) (record { error = e; failed = refl; unserved = tt }), refusal)
    | inl (ctx, same, made) ↦ rw (main_loaded, made) (connected_cases ctx same)
  ]

-- When the service starts with an empty pool cell, either something that it asks for is refused
-- - its configuration, the HTTP client, a key of its secret, the pool, its migrations, a
-- connection or an answer of the database, its address or its identity, or one TLS path is given
-- without the other - and it ends with an error before anything is served, or it serves under
-- the configuration of the environment: it has connected a pool to the configured database, run
-- the migrations and tried a connection, in this order and once each, before it serves at the
-- configured address, with the identity of both TLS files, accepted, where both paths are given,
-- and without TLS only where neither is; and it ends as serving ends.
pub main_cases :
    (lib : JsonWebToken) (o : Outside)
    → Serves o (main lib o fresh) ⊎ (Fails (main lib o fresh) × Refusal lib o)
unfolding main
main_cases lib o = elim (Option-cases o.from_env) [
  | inl nothing ↦
      inr (rw nothing (record { error = envy; failed = refl; unserved = tt }), unset nothing)
  | inr (c, loaded) ↦ main_loaded_cases lib o c loaded
]
