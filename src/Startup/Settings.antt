-- ===== src/Startup/Settings.antt =====
-- src/config.rs, and what starting up asks of the system.
use app_center_ratings.Prelude.{
  ℕ, zero, suc, ◌+◌, ◌/◌, ◌%◌, ◌==◌, Option, none, some, List, [], ◌∷◌, ◌++◌, if◌then◌else◌, Text,
  text, Result, ok, err,
}
use app_center_ratings.Auth.Jwt.{JwtError}
use app_center_ratings.Db.Tables.{SqlxError, DbError}

-- `Config`.
pub record Config : Type 0 where
  pub host : Text
  pub port : ℕ
  pub postgres_uri : Text
  pub jwt_secret : Text
  pub snapcraft_io_uri : Text
  pub tls_keychain_path : Option Text
  pub tls_key_path : Option Text

-- The decimal digits of a number, of as many places as the fuel says; a u16 has five at most.
abbrev pub digits : ℕ → ℕ → Text → Text
digits zero n acc = acc
digits (suc fuel) n acc =
    let rest = digits fuel (n / 10) ((b'0' + n % 10) ∷ acc) in
    if n / 10 == 0 then (b'0' + n % 10) ∷ acc else rest

abbrev pub u16_to_string : ℕ → Text
u16_to_string n = digits 5 n []

-- `Config::socket`, `format!("{host}:{port}")`.
unfoldable pub socket : Config → Text
socket c = c.host ++ (text ":" ++ u16_to_string c.port)

-- A pair of a certificate chain and its key.
pub record Identity : Type 0 where
  pub keychain : Text
  pub key : Text

-- Why starting up ends.
pub data StartError : Type 0 where
  envy transport tls_refused : StartError
  jwt : JwtError → StartError
  db : DbError → StartError
  addr_parse : StartError
  io : Text → StartError
  panicked : StartError

-- The answers to: the environment's variables read as a `Config`; building the HTTP client; connecting
-- a pool of so many connections to a URI; running the migrations; taking a connection and `ping`;
-- parsing an address; reading a file; building a server with an identity; and serving.
pub record Outside : Type 0 where
  pub from_env : Option Config
  pub client_builds : Option (Unit {0})
  pub connect : ℕ → Text → Result SqlxError (Unit {0})
  pub migrations_run : Option (Unit {0})
  pub acquire : Result SqlxError (Unit {0})
  pub ping : Result SqlxError (Unit {0})
  pub parse_addr : Text → Option Text
  pub read_to_string : Text → Option Text
  pub tls_config : Identity → Option (Unit {0})
  pub serve : Text → Result (Unit {0}) (Unit {0})

-- What the service has done to the outside.
pub data Event : Type 0 where
  connected : Text → Event
  migrated pinged : Event
  served : Text → Option Identity → Event

-- The process: the cell POOL, and the events so far.
pub record Process : Type 0 where
  pub pool : Option Text
  pub log : List Event

-- A step of starting up ends with a result or an error, and leaves the process as it has changed it.
abbrev pub Start : Type 0 → Type 0
Start A = Process → Result StartError A × Process

module _ {A : Type 0} where
  abbrev pub pure : A → Start A
  pure a p = (ok a, p)

  abbrev pub lift : Result StartError A → Start A
  lift r p = (r, p)

  -- `?` on what is none by the given error.
  abbrev pub or_fail : StartError → Option A → Start A
  or_fail e none p = (err e, p)
  or_fail e (some a) p = (ok a, p)

abbrev pub record_event : Event → Start (Unit {0})
record_event e p = (ok tt, record p { log = p.log ++ e ∷ [] })

module _ {A B : Type 0} where
  abbrev pub continue : Result StartError A → (A → Start B) → Start B
  continue (ok a) g p = g a p
  continue (err e) g p = (err e, p)

  infixl 5 ◌>>=◌ ◌>>◌
  abbrev pub ◌>>=◌ : Start A → (A → Start B) → Start B
  ◌>>=◌ m g p = let (r, p') = m p in continue r g p'

  abbrev pub ◌>>◌ : Start A → Start B → Start B
  m >> n = m >>= λ _. n
