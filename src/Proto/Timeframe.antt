-- ===== src/Proto/Timeframe.antt =====
-- src/proto/ratings.features.chart.rs: the enum `Timeframe` of the protocol.
use app_center_ratings.Prelude.{◌≡◌, ◌↔◌, refl, Option, some, List, [], ◌∷◌, Text, text, text_eq}
use app_center_ratings.Prelude.Int.{ℤ, pos}
use app_center_ratings.Proto.Arms.{select, select_sound}

pub data PbTimeframe : Type 0 where
  unspecified week month : PbTimeframe

-- `as i32`, of `#[repr(i32)]`.
abbrev pub as_i32 : PbTimeframe → ℤ
as_i32 unspecified = pos 0
as_i32 week = pos 1
as_i32 month = pos 2

-- `Timeframe::as_str_name`.
abbrev pub as_str_name : PbTimeframe → Text
as_str_name unspecified = text "TIMEFRAME_UNSPECIFIED"
as_str_name week = text "TIMEFRAME_WEEK"
as_str_name month = text "TIMEFRAME_MONTH"

-- The arms of `Timeframe::from_str_name`.
abbrev pub arms : List (Text × PbTimeframe)
arms =
    (text "TIMEFRAME_UNSPECIFIED", unspecified)
    ∷ (text "TIMEFRAME_WEEK", week)
    ∷ (text "TIMEFRAME_MONTH", month)
    ∷ []

unfoldable pub from_str_name : Text → Option PbTimeframe
from_str_name value = select value arms

from_str_name-as_str_name : (c : PbTimeframe) → from_str_name (as_str_name c) ≡ some c
unfolding from_str_name text_eq
from_str_name-as_str_name unspecified = refl
from_str_name-as_str_name _ = refl

-- A text is read as a variant exactly when it is the variant's own name in the protocol.
pub timeframe_of_name_iff :
    (value : Text) (c : PbTimeframe) → (from_str_name value ≡ some c) ↔ (value ≡ as_str_name c)
unfolding from_str_name
timeframe_of_name_iff value c = (
  λ h. select_sound as_str_name value arms ((refl, (refl, (refl, tt)))) h,
  λ e. rw e (from_str_name-as_str_name c),
)
