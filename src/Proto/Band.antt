-- ===== src/Proto/Band.antt =====
-- src/proto/ratings.features.common.rs: the enum `RatingsBand` of the protocol, and its conversion in
-- src/grpc/charts.rs.
use app_center_ratings.Prelude.{
  ◌≡◌, ◌↔◌, refl, sym, Option, some, List, [], ◌∷◌, Text, text, text_eq,
}
use app_center_ratings.Prelude.Int.{ℤ, pos}
use app_center_ratings.Proto.Arms.{select, select_sound}
use app_center_ratings.Ratings.Band.{RatingsBand, band_as_i32, band_from_repr}
use app_center_ratings.Ratings.Rating.{Rating}
use app_center_ratings.Grpc.App.{pb_rating, rating_from_pb}

pub data PbRatingsBand : Type 0 where
  very_good good neutral poor very_poor : PbRatingsBand
  insufficient_votes : PbRatingsBand

-- `as i32`, of `#[repr(i32)]`.
abbrev pub as_i32 : PbRatingsBand → ℤ
as_i32 very_good = pos 0
as_i32 good = pos 1
as_i32 neutral = pos 2
as_i32 poor = pos 3
as_i32 very_poor = pos 4
as_i32 insufficient_votes = pos 5

-- `RatingsBand::as_str_name`.
abbrev pub as_str_name : PbRatingsBand → Text
as_str_name very_good = text "VERY_GOOD"
as_str_name good = text "GOOD"
as_str_name neutral = text "NEUTRAL"
as_str_name poor = text "POOR"
as_str_name very_poor = text "VERY_POOR"
as_str_name insufficient_votes = text "INSUFFICIENT_VOTES"

-- The arms of `RatingsBand::from_str_name`.
abbrev pub arms : List (Text × PbRatingsBand)
arms =
    (text "VERY_GOOD", very_good)
    ∷ (text "GOOD", good)
    ∷ (text "NEUTRAL", neutral)
    ∷ (text "POOR", poor)
    ∷ (text "VERY_POOR", very_poor)
    ∷ (text "INSUFFICIENT_VOTES", insufficient_votes)
    ∷ []

unfoldable pub from_str_name : Text → Option PbRatingsBand
from_str_name value = select value arms

from_str_name-as_str_name : (c : PbRatingsBand) → from_str_name (as_str_name c) ≡ some c
unfolding from_str_name text_eq
from_str_name-as_str_name very_good = refl
from_str_name-as_str_name _ = refl

-- A text is read as a variant exactly when it is the variant's own name in the protocol.
pub band_of_name_iff :
    (value : Text) (c : PbRatingsBand) → (from_str_name value ≡ some c) ↔ (value ≡ as_str_name c)
unfolding from_str_name
band_of_name_iff value c = (
  λ h. select_sound as_str_name value arms ((refl, (refl, (refl, (refl, (refl, (refl, tt))))))) h,
  λ e. rw e (from_str_name-as_str_name c),
)

-- `PbRatingsBand::from`.
abbrev pub pb_band : RatingsBand → PbRatingsBand
pb_band RatingsBand.very_good = very_good
pb_band RatingsBand.good = good
pb_band RatingsBand.neutral = neutral
pb_band RatingsBand.poor = poor
pb_band RatingsBand.very_poor = very_poor
pb_band RatingsBand.insufficient_votes = insufficient_votes

band_from_repr-as_i32 : (b : RatingsBand) → band_from_repr (band_as_i32 b) ≡ some b
unfolding band_from_repr
band_from_repr-as_i32 RatingsBand.very_good = refl
band_from_repr-as_i32 _ = refl

pb_band-as_i32 : (b : RatingsBand) → as_i32 (pb_band b) ≡ band_as_i32 b
pb_band-as_i32 RatingsBand.very_good = refl
pb_band-as_i32 _ = refl

-- A rating that is sent is read back as it was, whatever name its snap is sent with, and the
-- number that is sent for its band is the protocol's number of that band.
rating_from_pb-pb_rating :
    (rating : Rating) (snap_name : Text)
    → (rating_from_pb (pb_rating rating snap_name) ≡ some rating)
      × ((pb_rating rating snap_name).ratings_band ≡ as_i32 (pb_band rating.ratings_band))
unfolding rating_from_pb
rating_from_pb-pb_rating rating snap_name = (
  rw (band_from_repr-as_i32 rating.ratings_band, rating_from_pb) refl,
  sym (pb_band-as_i32 rating.ratings_band),
)
