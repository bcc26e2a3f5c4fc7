-- ===== src/Ratings/Band.antt =====
-- src/ratings/rating.rs: `RatingsBand`, its thresholds and its partial order.
use Prim.Native.Nat.{Ordering, compare}
use app_center_ratings.Prelude.{
  ℕ, ◌-◌, Bool, true, false, ◌&&◌, ◌||◌, Option, none, some, List, [], ◌∷◌, find, if◌then◌else◌,
}
use app_center_ratings.Prelude.Int.{ℤ, pos, eqb_ℤ}
use app_center_ratings.Ratings.Float.{Floats}

pub data RatingsBand : Type 0 where
  very_good good neutral poor very_poor insufficient_votes : RatingsBand

abbrev pub all_bands : List RatingsBand
all_bands = very_good ∷ good ∷ neutral ∷ poor ∷ very_poor ∷ insufficient_votes ∷ []

-- The number of `#[repr(i32)]`.
abbrev pub band_number : RatingsBand → ℕ
band_number very_good = 0
band_number good = 1
band_number neutral = 2
band_number poor = 3
band_number very_poor = 4
band_number insufficient_votes = 5

abbrev pub band_as_i32 : RatingsBand → ℤ
band_as_i32 b = pos (band_number b)

-- `strum::FromRepr`.
unfoldable pub band_from_repr : ℤ → Option RatingsBand
band_from_repr n = find (λ b. eqb_ℤ (band_as_i32 b) n) all_bands

abbrev pub is_insufficient : RatingsBand → Bool
is_insufficient insufficient_votes = true
is_insufficient _ = false

-- `PartialOrd for RatingsBand`.
unfoldable pub partial_cmp : RatingsBand → RatingsBand → Option Ordering
partial_cmp a b =
    if is_insufficient a || is_insufficient b
    then none
    else (let max = band_number insufficient_votes in
        some (compare (max - band_number a) (max - band_number b)))

module _ (f : Floats) where
  -- 0.8, 0.55, 0.45 and 0.2
  abbrev pub good_upper : f.F64
  good_upper = f.hundredths 80

  abbrev pub neutral_upper : f.F64
  neutral_upper = f.hundredths 55

  abbrev pub poor_upper : f.F64
  poor_upper = f.hundredths 45

  abbrev pub very_poor_upper : f.F64
  very_poor_upper = f.hundredths 20

  -- `RatingsBand::from_value`.
  unfoldable pub from_value : f.F64 → RatingsBand
  from_value value =
      if f.gt value good_upper
      then very_good
      else if f.le value good_upper && f.gt value neutral_upper
      then good
      else if f.le value neutral_upper && f.gt value poor_upper
      then neutral
      else if f.le value poor_upper && f.gt value very_poor_upper
      then poor
      else very_poor
