-- ===== src/Db/Category.antt =====
-- src/db/categories.rs: the enum `Category`, its numbers and its names; `Timeframe` of
-- src/db/vote.rs.
use app_center_ratings.Prelude.{
  ◌≡◌, ◌↔◌, refl, sym, Option, some, List, [], ◌∷◌, find, find_sound, Text, text, text_eq,
  eq_of_text_eq,
}
use app_center_ratings.Prelude.Int.{ℤ, pos, eqb_ℤ, eqb_ℤ→eq}

pub data Category : Type 0 where
  art_and_design books_and_reference development devices_and_iot education : Category
  entertainment featured finance games health_and_fitness : Category
  music_and_audio news_and_weather personalisation photo_and_video productivity : Category
  science security server_and_cloud social utilities : Category

-- The variants, in their order.
abbrev pub all_categories : List Category
all_categories =
    art_and_design ∷ books_and_reference ∷ development ∷ devices_and_iot ∷ education ∷ entertainment
    ∷ featured ∷ finance ∷ games ∷ health_and_fitness ∷ music_and_audio ∷ news_and_weather
    ∷ personalisation ∷ photo_and_video ∷ productivity ∷ science ∷ security ∷ server_and_cloud
    ∷ social ∷ utilities ∷ []

-- `c as i32`, of `#[repr(i32)]`.
abbrev pub category_as_i32 : Category → ℤ
category_as_i32 art_and_design = pos 0
category_as_i32 books_and_reference = pos 1
category_as_i32 development = pos 2
category_as_i32 devices_and_iot = pos 3
category_as_i32 education = pos 4
category_as_i32 entertainment = pos 5
category_as_i32 featured = pos 6
category_as_i32 finance = pos 7
category_as_i32 games = pos 8
category_as_i32 health_and_fitness = pos 9
category_as_i32 music_and_audio = pos 10
category_as_i32 news_and_weather = pos 11
category_as_i32 personalisation = pos 12
category_as_i32 photo_and_video = pos 13
category_as_i32 productivity = pos 14
category_as_i32 science = pos 15
category_as_i32 security = pos 16
category_as_i32 server_and_cloud = pos 17
category_as_i32 social = pos 18
category_as_i32 utilities = pos 19

-- `strum::Display` and `strum::EnumString` with `serialize_all = "kebab-case"`.
abbrev pub category_name : Category → Text
category_name art_and_design = text "art-and-design"
category_name books_and_reference = text "books-and-reference"
category_name development = text "development"
category_name devices_and_iot = text "devices-and-iot"
category_name education = text "education"
category_name entertainment = text "entertainment"
category_name featured = text "featured"
category_name finance = text "finance"
category_name games = text "games"
category_name health_and_fitness = text "health-and-fitness"
category_name music_and_audio = text "music-and-audio"
category_name news_and_weather = text "news-and-weather"
category_name personalisation = text "personalisation"
category_name photo_and_video = text "photo-and-video"
category_name productivity = text "productivity"
category_name science = text "science"
category_name security = text "security"
category_name server_and_cloud = text "server-and-cloud"
category_name social = text "social"
category_name utilities = text "utilities"

-- `strum::FromRepr`: the variant with the number.
unfoldable pub category_from_repr : ℤ → Option Category
category_from_repr n = find (λ c. eqb_ℤ (category_as_i32 c) n) all_categories

-- `Category::try_from(&str)`: the variant with the name, in the very case of the letters.
unfoldable pub category_try_from : Text → Option Category
unfolding text_eq
category_try_from s = find (λ c. text_eq (category_name c) s) all_categories

pub data Timeframe : Type 0 where
  unspecified week month : Timeframe

abbrev pub all_timeframes : List Timeframe
all_timeframes = unspecified ∷ week ∷ month ∷ []

abbrev pub timeframe_as_i32 : Timeframe → ℤ
timeframe_as_i32 unspecified = pos 0
timeframe_as_i32 week = pos 1
timeframe_as_i32 month = pos 2

unfoldable pub timeframe_from_repr : ℤ → Option Timeframe
timeframe_from_repr n = find (λ t. eqb_ℤ (timeframe_as_i32 t) n) all_timeframes

category_from_repr-as_i32 : (c : Category) → category_from_repr (category_as_i32 c) ≡ some c
unfolding category_from_repr
category_from_repr-as_i32 art_and_design = refl
category_from_repr-as_i32 _ = refl

-- An integer stands for a category exactly when it is that category's own number, so decoding and
-- encoding are inverse to each other and every other integer is refused.
pub category_from_repr_iff :
    (n : ℤ) (c : Category) → (category_from_repr n ≡ some c) ↔ (n ≡ category_as_i32 c)
unfolding category_from_repr
category_from_repr_iff n c = (
  λ h. sym (eqb_ℤ→eq _ _ (find_sound (λ d. eqb_ℤ (category_as_i32 d) n) all_categories h)),
  λ e. rw e (category_from_repr-as_i32 c),
)

pub category_try_from-name : (c : Category) → category_try_from (category_name c) ≡ some c
unfolding category_try_from
category_try_from-name art_and_design = refl
category_try_from-name _ = refl

-- A text parses as a category exactly when it is the category's kebab-case name.
category_try_from_iff :
    (s : Text) (c : Category) → (category_try_from s ≡ some c) ↔ (s ≡ category_name c)
unfolding category_try_from
category_try_from_iff s c = (
  λ h. sym (eq_of_text_eq _ _ (find_sound (λ d. text_eq (category_name d) s) all_categories h)),
  λ e. rw e (category_try_from-name c),
)
