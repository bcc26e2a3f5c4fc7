-- ===== src/Tests/Mocking.antt =====
-- The theorem on the mock server, over a client and a JSON of the plainest kind.
use app_center_ratings.Prelude.{
  zero, suc, ◌≡◌, refl, ap, ◌∙◌, none, some, List, [], ◌∷◌, ◌++◌, map, if◌then◌else◌, is_empty, All,
  Text, text, text_eq, ok,
}
use app_center_ratings.Db.Category.{Category}
use app_center_ratings.Ratings.SnapcraftIo.{Snapcraft, get_snap_categories}
use app_center_ratings.Mock.Server.{
  Json, string, field, array, JsonArray, empty, element, StateInner, default_state, prepend,
  named_categories, snap_assertions, snap_info,
}
use app_center_ratings.Mock.Finding.{
  Registration, of_categories, register_all, IsApart, body, IsServed,
  get_snap_categories-register_snap,
}
use app_center_ratings.Tests.Samples.{snap}

-- Texts stand for themselves, and an array has a zero behind each of its elements.
mutual
  write : Json → Text
  write (string t) = t
  write (field key value) = write value
  write (array elements) = write_array elements

  write_array : JsonArray → Text
  write_array empty = []
  write_array (element j elements) = map suc (write j) ++ (0 ∷ write_array elements)

abbrev read_array : Text → List Text
read_array [] = []
read_array (zero ∷ t) = [] ∷ read_array t
read_array (suc c ∷ t) = prepend c (read_array t)

read_array-append : (part t : Text) → read_array (map suc part ++ (0 ∷ t)) ≡ part ∷ read_array t
read_array-append [] t = refl
read_array-append (c ∷ part) t = ap (prepend c) (read_array-append part t)

read_array-write : (names : List Text) → read_array (write (array (named_categories names))) ≡ names
unfolding write write_array
read_array-write [] = refl
read_array-write (name ∷ names) =
    read_array-append name _ ∙ ap (λ rest. name ∷ rest) (read_array-write names)

abbrev cs : List Category
cs = Category.games ∷ Category.social ∷ []

abbrev later : List Registration
later = of_categories (text "other-name") (text "other-id") [] ∷ []

abbrev registered : Registration
registered = of_categories (text "a-name") snap cs

abbrev state : StateInner
state = register_all (registered ∷ later) default_state

abbrev mocked : Snapcraft
mocked = record {
  parse_url = λ base. some base;
  join = λ base path. some path;
  get = λ url query.
      if is_empty query
      then body (snap_assertions write snap state)
      else body (snap_info write (text "a-name") state);
  assertions_from_str = λ s. some s;
  find_from_str = λ s. some (read_array s);
}

mocked-IsServed : IsServed mocked write (text "http://127.0.0.1:11111/") registered state
unfolding write
mocked-IsServed = record {
  base_url = text "http://127.0.0.1:11111/";
  assertions_url = text "assertions/snap-declaration/16/" ++ snap;
  info_url = text "snaps/info/a-name";
  parsed = refl;
  assertions_joined = refl;
  info_joined = refl;
  assertions_got = refl;
  info_got = refl;
  reads_name = λ name. refl;
  reads_categories = λ names. ap some (read_array-write names);
}

later-IsApart : All (IsApart registered) later
unfolding text_eq
later-IsApart = ((refl, refl), tt)

get_snap_categories-register_snap_example :
    (get_snap_categories mocked snap (text "http://127.0.0.1:11111/") (λ k. none)).0 ≡ ok cs
get_snap_categories-register_snap_example =
    get_snap_categories-register_snap mocked write (text "http://127.0.0.1:11111/") (text "a-name")
      snap cs later default_state (λ k. none) later-IsApart mocked-IsServed refl
