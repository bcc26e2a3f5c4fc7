-- ===== src/Grpc/World.antt =====
-- What the handlers of src/grpc work with: the state of src/context.rs, the database and the caches,
-- and what is decided outside the program while a request is served.
use app_center_ratings.Prelude.{Option, Text, Result, ok, err, map_err}
use app_center_ratings.Auth.Status.{Failure, status, internal}
use app_center_ratings.Auth.Jwt.{JwtError}
use app_center_ratings.Db.Tables.{Tables, Session, DbError}
use app_center_ratings.Db.Summary.{VoteSummary}
use app_center_ratings.Ratings.Chart.{Chart}
use app_center_ratings.Ratings.SnapcraftIo.{Snapcraft, Names, get_snap_name}
use app_center_ratings.Ratings.Update.{Stores, OtherUpdate}

-- `#[cached(time = 86400, result = true)]` keeps a successful result under its key for a day. A cache
-- is the results that a look-up finds now; that one expires is a step of the clock between requests.
abbrev pub Cache : Type 0 → Type 0
Cache V = Text → Option V

pub record World (F32 : Type 0) : Type 0 where
  pub stores : Stores
  pub summaries : Cache VoteSummary
  pub charts : Cache (Chart F32)

-- One request's surroundings: the database's decisions, the outcome of `get_pool` and `acquire`,
-- the encoder with its key, the text of a `db::Error`, snapcraft.io under the configured address, and
-- what another task is doing about a snap's categories.
pub record Env : Type 0 where
  pub session : Session
  pub connection : Result DbError (Unit {0})
  pub jwt_encode : Text → Result JwtError Text
  pub to_string : DbError → Text
  pub web : Snapcraft
  pub snapcraft_io_uri : Text
  pub other_update : Text → OtherUpdate

-- A handler returns a response or fails, and leaves the world as it has changed it.
abbrev pub Handler : Type 0 → Type 0 → Type 0
Handler F32 A = World F32 → Result Failure A × World F32

module _ {F32 A : Type 0} where
  abbrev pub pure : A → Handler F32 A
  pure a w = (ok a, w)

  abbrev pub fail : Failure → Handler F32 A
  fail e w = (err e, w)

  abbrev pub lift : Result Failure A → Handler F32 A
  lift r w = (r, w)

module _ {F32 A B : Type 0} where
  abbrev pub continue : Result Failure A → (A → Handler F32 B) → Handler F32 B
  continue (ok a) g w = g a w
  continue (err e) g w = (err e, w)

  infixl 5 ◌>>=◌ ◌>>◌
  abbrev pub ◌>>=◌ : Handler F32 A → (A → Handler F32 B) → Handler F32 B
  ◌>>=◌ m g w = let (r, w') = m w in continue r g w'

  abbrev pub ◌>>◌ : Handler F32 A → Handler F32 B → Handler F32 B
  m >> n = m >>= λ _. n

-- `conn!()` in a handler: `From<db::Error> for Status` makes an internal error with the text.
unfoldable pub conn : {F32 : Type 0} → Env → Handler F32 (Unit {0})
conn env = lift (map_err (λ e. status internal (env.to_string e)) env.connection)

-- `get_snap_name(&snap_id, uri, &client)`, with any error as the given failure.
unfoldable pub snap_name_or : {F32 : Type 0} → Env → Failure → Text → Handler F32 Text
snap_name_or env failure snap_id w =
    let (r, names) = get_snap_name env.web snap_id env.snapcraft_io_uri w.stores.names in
    (map_err (λ _. failure) r, record w { stores = record w.stores { names = names } })

module _ {F32 : Type 0} where
  abbrev pub with_tables : World F32 → Tables → World F32
  with_tables w t = record w { stores = record w.stores { tables = t } }

  abbrev pub with_names : World F32 → Names → World F32
  with_names w n = record w { stores = record w.stores { names = n } }
