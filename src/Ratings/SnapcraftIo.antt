-- ===== src/Ratings/SnapcraftIo.antt =====
-- src/ratings/mod.rs: `Error`, `get_json` and `get_snap_name`, and `get_snap_categories` of
-- src/ratings/categories.rs. The HTTP client, the URLs and JSON are libraries': an argument.
use app_center_ratings.Prelude.{
  Option, none, some, List, [], ◌∷◌, ◌++◌, if◌then◌else◌, Text, text, text_eq, Result, ok, err,
  ok_or, ◌>>=◌,
}
use app_center_ratings.Db.Category.{Category, category_try_from}
use app_center_ratings.Db.Tables.{DbError}

-- `ratings::Error`; what other libraries put into an error is left out.
pub data RatingsError : Type 0 where
  db : DbError → RatingsError
  envy sqlx strum invalid_url snapcraft_io json : RatingsError

-- What a request to snapcraft.io uses: `Url::parse` and `Url::join`, each giving the text of a URL or
-- failing; sending a GET with the headers of `get_json` and a query, up to the text of an answer that
-- is no error status; and reading the two answers as JSON, a snap's name and its categories' names.
pub record Snapcraft : Type 0 where
  pub parse_url : Text → Option Text
  pub join : Text → Text → Option Text
  pub get : Text → List (Text × Text) → Option Text
  pub assertions_from_str : Text → Option Text
  pub find_from_str : Text → Option (List Text)

-- The names that `get_snap_name` has found before: `#[cached]` keeps every successful result under
-- its snap_id, with no limit of time.
abbrev pub Names : Type 0
Names = Text → Option Text

abbrev pub store {ℓ} : {V : Type ℓ} → Text → V → (Text → Option V) → Text → Option V
store key value cache k = if text_eq key k then some value else cache k

module _ (web : Snapcraft) where
  unfoldable pub get_json {ℓ} :
      {T : Type ℓ} → (Text → Option T) → Text → List (Text × Text) → Result RatingsError T
  get_json from_str url query = do
    s ← ok_or snapcraft_io (web.get url query)
    ok_or json (from_str s)

  -- The body of `get_snap_name`.
  unfoldable pub fetch_snap_name : Text → Text → Result RatingsError Text
  fetch_snap_name snap_id base = do
    base_url ← ok_or invalid_url (web.parse_url base)
    assertions_url ←
        ok_or invalid_url (web.join base_url (text "assertions/snap-declaration/16/" ++ snap_id))
    get_json web.assertions_from_str assertions_url []

  abbrev remember : Names → Text → Result RatingsError Text → Result RatingsError Text × Names
  remember names snap_id (ok name) = (ok name, store snap_id name names)
  remember names snap_id (err e) = (err e, names)

  abbrev recall_name : Names → Text → Text → Option Text → Result RatingsError Text × Names
  recall_name names snap_id base (some name) = (ok name, names)
  recall_name names snap_id base none = remember names snap_id (fetch_snap_name snap_id base)

  -- `get_snap_name`: a name that is kept, or what the body finds, which is kept if it is no error.
  unfoldable pub get_snap_name : Text → Text → Names → Result RatingsError Text × Names
  get_snap_name snap_id base names = recall_name names snap_id base (names snap_id)

  -- `categories.into_iter().map(…).collect()`: the first name that is no category ends it.
  unfoldable pub parse_categories : List Text → Result RatingsError (List Category)
  parse_categories [] = ok []
  parse_categories (name ∷ more) = do
    c ← ok_or strum (category_try_from name)
    cs ← parse_categories more
    ok (c ∷ cs)

  abbrev pub fetch_categories : Text → Text → Result RatingsError (List Category)
  fetch_categories snap_name base = do
    base_url ← ok_or invalid_url (web.parse_url base)
    info_url ← ok_or invalid_url (web.join base_url (text "snaps/info/" ++ snap_name))
    names ← get_json web.find_from_str info_url ((text "fields", text "categories") ∷ [])
    parse_categories names

  abbrev with_name :
      Text → Result RatingsError Text × Names → Result RatingsError (List Category) × Names
  with_name base (err e, names) = (err e, names)
  with_name base (ok snap_name, names) = (fetch_categories snap_name base, names)

  -- `get_snap_categories`.
  unfoldable pub get_snap_categories :
      Text → Text → Names → Result RatingsError (List Category) × Names
  get_snap_categories snap_id base names = with_name base (get_snap_name snap_id base names)
