-- ===== src/Proto/Category.antt =====
-- src/proto/ratings.features.chart.rs: the enum `Category` of the protocol, whose numbers a request and
-- its answer carry.
use app_center_ratings.Prelude.{
  ℕ, ◌≡◌, ◌↔◌, refl, Option, none, some, List, [], ◌∷◌, Text, text, text_eq, if◌then◌else◌, ◌==◌,
  ◌&&◌, ◌-◌, leb,
}
use app_center_ratings.Prelude.Int.{ℤ, pos}
use app_center_ratings.Proto.Arms.{select, select_sound}
use app_center_ratings.Db.Category.{Category, category_as_i32, category_name}

pub data PbCategory : Type 0 where
  art_and_design books_and_reference development devices_and_iot education : PbCategory
  entertainment featured finance games health_and_fitness : PbCategory
  music_and_audio news_and_weather personalisation photo_and_video productivity : PbCategory
  science security server_and_cloud social utilities : PbCategory

-- `as i32`, of `#[repr(i32)]`.
abbrev pub as_i32 : PbCategory → ℤ
as_i32 art_and_design = pos 0
as_i32 books_and_reference = pos 1
as_i32 development = pos 2
as_i32 devices_and_iot = pos 3
as_i32 education = pos 4
as_i32 entertainment = pos 5
as_i32 featured = pos 6
as_i32 finance = pos 7
as_i32 games = pos 8
as_i32 health_and_fitness = pos 9
as_i32 music_and_audio = pos 10
as_i32 news_and_weather = pos 11
as_i32 personalisation = pos 12
as_i32 photo_and_video = pos 13
as_i32 productivity = pos 14
as_i32 science = pos 15
as_i32 security = pos 16
as_i32 server_and_cloud = pos 17
as_i32 social = pos 18
as_i32 utilities = pos 19

-- `Category::as_str_name`.
abbrev pub as_str_name : PbCategory → Text
as_str_name art_and_design = text "ART_AND_DESIGN"
as_str_name books_and_reference = text "BOOKS_AND_REFERENCE"
as_str_name development = text "DEVELOPMENT"
as_str_name devices_and_iot = text "DEVICES_AND_IOT"
as_str_name education = text "EDUCATION"
as_str_name entertainment = text "ENTERTAINMENT"
as_str_name featured = text "FEATURED"
as_str_name finance = text "FINANCE"
as_str_name games = text "GAMES"
as_str_name health_and_fitness = text "HEALTH_AND_FITNESS"
as_str_name music_and_audio = text "MUSIC_AND_AUDIO"
as_str_name news_and_weather = text "NEWS_AND_WEATHER"
as_str_name personalisation = text "PERSONALISATION"
as_str_name photo_and_video = text "PHOTO_AND_VIDEO"
as_str_name productivity = text "PRODUCTIVITY"
as_str_name science = text "SCIENCE"
as_str_name security = text "SECURITY"
as_str_name server_and_cloud = text "SERVER_AND_CLOUD"
as_str_name social = text "SOCIAL"
as_str_name utilities = text "UTILITIES"

-- The arms of `Category::from_str_name`.
abbrev pub arms : List (Text × PbCategory)
arms =
    (text "ART_AND_DESIGN", art_and_design)
    ∷ (text "BOOKS_AND_REFERENCE", books_and_reference)
    ∷ (text "DEVELOPMENT", development)
    ∷ (text "DEVICES_AND_IOT", devices_and_iot)
    ∷ (text "EDUCATION", education)
    ∷ (text "ENTERTAINMENT", entertainment)
    ∷ (text "FEATURED", featured)
    ∷ (text "FINANCE", finance)
    ∷ (text "GAMES", games)
    ∷ (text "HEALTH_AND_FITNESS", health_and_fitness)
    ∷ (text "MUSIC_AND_AUDIO", music_and_audio)
    ∷ (text "NEWS_AND_WEATHER", news_and_weather)
    ∷ (text "PERSONALISATION", personalisation)
    ∷ (text "PHOTO_AND_VIDEO", photo_and_video)
    ∷ (text "PRODUCTIVITY", productivity)
    ∷ (text "SCIENCE", science)
    ∷ (text "SECURITY", security)
    ∷ (text "SERVER_AND_CLOUD", server_and_cloud)
    ∷ (text "SOCIAL", social)
    ∷ (text "UTILITIES", utilities)
    ∷ []

unfoldable pub from_str_name : Text → Option PbCategory
from_str_name value = select value arms

from_str_name-as_str_name : (c : PbCategory) → from_str_name (as_str_name c) ≡ some c
unfolding from_str_name text_eq
from_str_name-as_str_name art_and_design = refl
from_str_name-as_str_name _ = refl

-- A text is read as a variant of the protocol's categories exactly when it is the variant's own
-- name in the protocol.
category_of_name_iff :
    (value : Text) (c : PbCategory) → (from_str_name value ≡ some c) ↔ (value ≡ as_str_name c)
unfolding from_str_name
category_of_name_iff value c = (
  λ h.
      select_sound as_str_name value arms
        ((
          refl,
          (
            refl,
            (
              refl,
              (
                refl,
                (
                  refl,
                  (
                    refl,
                    (
                      refl,
                      (
                        refl,
                        (
                          refl,
                          (
                            refl,
                            (
                              refl,
                              (
                                refl,
                                (refl, (refl, (refl, (refl, (refl, (refl, (refl, (refl, tt)))))))),
                              ),
                            ),
                          ),
                        ),
                      ),
                    ),
                  ),
                ),
              ),
            ),
          ),
        ))
        h,
  λ e. rw e (from_str_name-as_str_name c),
)

-- A name in kebab-case, in the spelling of the protocol: a letter is made a capital, and a dash an
-- underscore.
abbrev capital : ℕ → ℕ
capital c = if c == 45 then 95 else if leb 97 c && leb c 122 then c - 32 else c

abbrev pub screaming : Text → Text
screaming [] = []
screaming (c ∷ name) = capital c ∷ screaming name

abbrev pub number_of : Option PbCategory → Option ℤ
number_of none = none
number_of (some c) = some (as_i32 c)

-- The number that the tables hold for a category is the number that the protocol gives to the
-- category of the same name, so a request for one is never taken for another.
category_numbers_agree :
    (c : Category)
    → number_of (from_str_name (screaming (category_name c))) ≡ some (category_as_i32 c)
unfolding from_str_name text_eq
category_numbers_agree Category.art_and_design = refl
category_numbers_agree _ = refl
