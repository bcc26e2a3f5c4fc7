-- ===== src/Tests/Bands.antt =====
-- The theorems on bands, at sample values.
use Prim.Native.Nat.{Ordering}
use app_center_ratings.Prelude.{◌≡◌, ◌↔◌, ◌<◌, ◌⊎◌, refl, true, false, some, text}
use app_center_ratings.Prelude.Int.{pos, ltb_ℤ}
use app_center_ratings.Db.Summary.{VoteSummary}
use app_center_ratings.Ratings.Rating.{calculate_band}
use app_center_ratings.Ratings.FixedPoint.{root, fixed_point, fixed_point-IsOrdered}
use app_center_ratings.Ratings.Band.{
  good, neutral, insufficient_votes, band_number, is_insufficient, partial_cmp, from_value,
}
use app_center_ratings.Ratings.Thresholds.{
  Values, adjusted, from_value_iff, calculate_band_iff, partial_cmp_iff,
}

from_value_iff_example :
    (from_value fixed_point (some 700000) ≡ good) ↔ Values fixed_point good (some 700000)
from_value_iff_example = from_value_iff fixed_point fixed_point-IsOrdered (some 700000) refl good

partial_cmp_iff_example :
    ((partial_cmp good neutral ≡ some Ordering.eq)
      ↔ ((good ≡ neutral) × (is_insufficient neutral ≡ false)))
    × ((partial_cmp good neutral ≡ some Ordering.gt)
        ↔ ((band_number good < band_number neutral) × (is_insufficient neutral ≡ false)))
partial_cmp_iff_example = partial_cmp_iff good neutral

abbrev fifty_votes : VoteSummary
fifty_votes = record { snap_id = text "firefox"; total_votes = pos 50; positive_votes = pos 45 }

calculate_band_iff_example : ((calculate_band fixed_point fifty_votes).1 ≡ good) ↔ (
    ((ltb_ℤ (pos 50) (pos 25) ≡ true) × (good ≡ insufficient_votes))
    ⊎ ((ltb_ℤ (pos 50) (pos 25) ≡ false)
        × Values fixed_point good (adjusted fixed_point fifty_votes)))
unfolding root
calculate_band_iff_example =
    calculate_band_iff fixed_point fixed_point-IsOrdered fifty_votes refl good
