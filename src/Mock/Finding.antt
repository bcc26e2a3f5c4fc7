-- ===== src/Mock/Finding.antt =====
-- What src/ratings/categories.rs finds where mock_server stands in for snapcraft.io.
use app_center_ratings.Prelude.{
  ◌≡◌, refl, ap, ◌∙◌, false, Option, none, some, List, [], ◌∷◌, ◌++◌, map, All, Text, text, text_eq,
  text_eq_refl, ok,
}
use app_center_ratings.Db.Category.{Category, category_name, category_try_from-name}
use app_center_ratings.Ratings.SnapcraftIo.{
  Snapcraft, Names, get_json, fetch_snap_name, get_snap_name, parse_categories, get_snap_categories,
}
use app_center_ratings.Mock.Server.{
  Json, string, field, array, StateInner, StatusCode, register_snap, read_categories,
  named_categories, snap_assertions, snap_info,
}
use app_center_ratings.Mock.Splitting.{join, read_categories-join}

-- A request to register a snap, and the name that it is given.
pub record Registration : Type 0 where
  pub snap_name : Text
  pub snap_id : Text
  pub categories : Text

abbrev pub register_all : List Registration → StateInner → StateInner
register_all [] state = state
register_all (r ∷ rs) state =
    register_all rs (register_snap r.snap_name r.snap_id r.categories state).1

-- Of another snap, by its id and by the name it is given.
abbrev pub IsApart : Registration → Registration → Type 0
IsApart r other =
    (text_eq other.snap_id r.snap_id ≡ false) × (text_eq other.snap_name r.snap_name ≡ false)

-- The state tells the snap's name and categories.
abbrev Holds : Registration → StateInner → Type 0
Holds r state =
    (state.id_map r.snap_id ≡ some r.snap_name)
    × (state.categories r.snap_name ≡ some (read_categories r.categories))

register_snap-Holds :
    (r : Registration) (state : StateInner)
    → Holds r (register_snap r.snap_name r.snap_id r.categories state).1
unfolding register_snap
register_snap-Holds r state = (rw (text_eq_refl r.snap_id) refl, rw (text_eq_refl r.snap_name) refl)

register_all-Holds :
    (r : Registration) (rs : List Registration) (state : StateInner)
    → All (IsApart r) rs
    → Holds r state
    → Holds r (register_all rs state)
unfolding register_snap
register_all-Holds r [] state apart h = h
register_all-Holds r (other ∷ rs) state apart h =
    register_all-Holds r rs _ apart.1 (rw (apart.0.0) h.0, rw (apart.0.1) h.1)

-- An answer that is no error status.
abbrev pub body : StatusCode × Text → Option Text
body (StatusCode.ok, t) = some t
body (StatusCode.not_found, t) = none

-- The client's requests about the snap reach the handlers of a mock server in this state, and the
-- JSON that it writes is read as it was.
pub record IsServed (web : Snapcraft) (to_string : Json → Text) (base : Text) (r : Registration)
    (state : StateInner) : Type 0 where
  pub base_url : Text
  pub assertions_url : Text
  pub info_url : Text
  pub parsed : web.parse_url base ≡ some base_url
  pub assertions_joined :
      web.join base_url (text "assertions/snap-declaration/16/" ++ r.snap_id) ≡ some assertions_url
  pub info_joined : web.join base_url (text "snaps/info/" ++ r.snap_name) ≡ some info_url
  pub assertions_got : web.get assertions_url [] ≡ body (snap_assertions to_string r.snap_id state)
  pub info_got :
      web.get info_url ((text "fields", text "categories") ∷ [])
      ≡ body (snap_info to_string r.snap_name state)
  pub reads_name :
      (name : Text)
      → web.assertions_from_str
          (to_string (field (text "headers") (field (text "snap-name") (string name))))
        ≡ some name
  pub reads_categories :
      (names : List Text)
      → web.find_from_str (
          to_string
            (field (text "snap") (field (text "categories") (array (named_categories names)))))
        ≡ some names

parse_categories-names :
    (web : Snapcraft) (cs : List Category) → parse_categories web (map category_name cs) ≡ ok cs
unfolding parse_categories
parse_categories-names web [] = refl
parse_categories-names web (c ∷ cs) =
    rw (category_try_from-name c) (rw (parse_categories-names web cs) refl)

module _ (web : Snapcraft) (to_string : Json → Text) (base : Text) (r : Registration)
    (state : StateInner) (served : IsServed web to_string base r state) (h : Holds r state) where
  assertions_found :
      web.get served.assertions_url []
      ≡ some (to_string (field (text "headers") (field (text "snap-name") (string r.snap_name))))
  unfolding snap_assertions
  assertions_found =
      let told : snap_assertions to_string r.snap_id state ≡ (
        StatusCode.ok,
        to_string (field (text "headers") (field (text "snap-name") (string r.snap_name))),
      ) =
        rw (h.0, snap_assertions) refl in
      served.assertions_got ∙ ap body told

  info_found :
      web.get served.info_url ((text "fields", text "categories") ∷ [])
      ≡ some (
          to_string (
            field (text "snap") (
              field (text "categories") (array (named_categories (read_categories r.categories))))))
  unfolding snap_info
  info_found =
      let told : snap_info to_string r.snap_name state ≡ (
        StatusCode.ok,
        to_string (
            field (text "snap") (
              field (text "categories") (array (named_categories (read_categories r.categories))))),
      ) =
        rw (h.1, snap_info) refl in
      served.info_got ∙ ap body told

  fetch_snap_name_served : fetch_snap_name web r.snap_id base ≡ ok r.snap_name
  unfolding fetch_snap_name get_json
  fetch_snap_name_served =
      rw served.parsed (
        rw served.assertions_joined (rw assertions_found (rw (served.reads_name r.snap_name) refl)))

  get_snap_categories_served :
      (names : Names)
      → names r.snap_id ≡ none
      → (get_snap_categories web r.snap_id base names).0
        ≡ parse_categories web (read_categories r.categories)
  unfolding get_snap_categories get_snap_name get_json
  get_snap_categories_served names new =
      rw (new, fetch_snap_name_served)
        (rw served.parsed (
          rw served.info_joined
            (rw info_found (rw (served.reads_categories (read_categories r.categories)) refl))))

-- What a test registers a snap with: the names of its categories, joined with commas.
abbrev pub of_categories : Text → Text → List Category → Registration
of_categories snap_name snap_id cs = record {
  snap_name = snap_name;
  snap_id = snap_id;
  categories = join b',' (map category_name cs);
}

module _ (web : Snapcraft) (to_string : Json → Text) (base : Text) (snap_name snap_id : Text)
    (cs : List Category) where
  -- Where the mock server stands in for snapcraft.io, and what it writes as JSON is read as it
  -- was, the categories with whose names, joined with commas, a test registers a snap are what
  -- the service finds for the snap, whatever other snaps are registered later under other ids
  -- and names, if no name is kept for the snap.
  pub get_snap_categories-register_snap :
      (later : List Registration) (state : StateInner) (names : Names)
      → All (IsApart (of_categories snap_name snap_id cs)) later
      → IsServed web to_string base
          (of_categories snap_name snap_id cs)
          (register_all (of_categories snap_name snap_id cs ∷ later) state)
      → names snap_id ≡ none
      → (get_snap_categories web snap_id base names).0 ≡ ok cs
  get_snap_categories-register_snap later state names apart served new =
      let r = of_categories snap_name snap_id cs in
      get_snap_categories_served web to_string base r _ served
        (register_all-Holds r later _ apart (register_snap-Holds r state)) names new
      ∙ ap (parse_categories web) (read_categories-join cs)
      ∙ parse_categories-names web cs
