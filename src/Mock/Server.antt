-- ===== src/Mock/Server.antt =====
-- mock_server/src/main.rs: the state of the mock server and its three handlers.
use app_center_ratings.Prelude.{
  ℕ, Option, none, some, List, [], ◌∷◌, ◌==◌, if◌then◌else◌, is_empty, Text, text,
}
use app_center_ratings.Ratings.SnapcraftIo.{store}

-- What the macro `json!` is given here: texts, objects of one field, and arrays.
mutual
  pub data Json : Type 0 where
    string : Text → Json
    field : Text → Json → Json
    array : JsonArray → Json

  pub data JsonArray : Type 0 where
    empty : JsonArray
    element : Json → JsonArray → JsonArray

-- `StateInner`: the names of snaps by their ids, and the categories of snaps by their names.
pub record StateInner : Type 0 where
  pub id_map : Text → Option Text
  pub categories : Text → Option (List Text)

abbrev pub default_state : StateInner
default_state = record { id_map = λ k. none; categories = λ k. none }

pub data StatusCode : Type 0 where
  ok not_found : StatusCode

-- In front of the first part.
abbrev pub prepend : ℕ → List Text → List Text
prepend c [] = (c ∷ []) ∷ []
prepend c (part ∷ parts) = (c ∷ part) ∷ parts

-- `str::split` at a char.
unfoldable pub split : ℕ → Text → List Text
split at [] = [] ∷ []
split at (c ∷ t) = let rest = split at t in if c == at then [] ∷ rest else prepend c rest

unfoldable pub read_categories : Text → List Text
read_categories categories = if is_empty categories then [] else split b',' categories

-- `register_snap`; the name is what `Uuid::new_v4` gives.
unfoldable pub register_snap : Text → Text → Text → StateInner → (StatusCode × Text) × StateInner
register_snap snap_name snap_id categories state = (
  (ok, text "registered"),
  record {
    id_map = store snap_id snap_name state.id_map;
    categories = store snap_name (read_categories categories) state.categories;
  },
)

abbrev pub named_categories : List Text → JsonArray
named_categories [] = empty
named_categories (c ∷ cats) = element (field (text "name") (string c)) (named_categories cats)

-- `to_string` writes JSON as text.
module _ (to_string : Json → Text) where
  abbrev pub error_body : Text
  error_body = to_string (field (text "error") (string (text "not found")))

  -- `snap_assertions`.
  unfoldable pub snap_assertions : Text → StateInner → StatusCode × Text
  snap_assertions snap_id state = elim (state.id_map snap_id) [
    | some name ↦ (ok, to_string (field (text "headers") (field (text "snap-name") (string name))))
    | none ↦ (not_found, error_body)
  ]

  -- `snap_info`.
  unfoldable pub snap_info : Text → StateInner → StatusCode × Text
  snap_info snap_name state = elim (state.categories snap_name) [
    | some cats ↦ (
      ok,
      to_string (field (text "snap") (field (text "categories") (array (named_categories cats)))),
    )
    | none ↦ (not_found, error_body)
  ]
