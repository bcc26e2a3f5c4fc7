-- ===== src/Ratings/Thresholds.antt =====
-- The bands of src/ratings/rating.rs as intervals of the value, and the order of the bands.
use Prim.Native.Nat.{Ordering}
use app_center_ratings.Prelude.{
  ℕ, ◌≤◌, ◌<◌, ◌≡◌, ◌≢◌, ◌↔◌, ◌⊎◌, refl, sym, true, false, not, none, some, arith, inl, inr,
  Bool-cases,
}
use app_center_ratings.Prelude.Int.{pos, ltb_ℤ, eqb_ℤ, eqb_ℤ→eq}
use app_center_ratings.Db.Summary.{VoteSummary}
use app_center_ratings.Ratings.Float.{Floats, IsNumber, IsOrdered}
use app_center_ratings.Ratings.Band.{
  RatingsBand, very_good, good, neutral, poor, very_poor, insufficient_votes, band_number,
  is_insufficient, partial_cmp, from_value, good_upper, neutral_upper, poor_upper, very_poor_upper,
}
use app_center_ratings.Ratings.Rating.{
  calculate_band, insufficient_votes_quantity, confidence_interval_lower_bound,
}

module _ (f : Floats) where
  -- The values of each band, as tests/voting.rs lists them.
  abbrev pub Values : RatingsBand → f.F64 → Type 0
  Values very_good v = f.le v (good_upper f) ≡ false
  Values good v = (f.le v (good_upper f) ≡ true) × (f.le v (neutral_upper f) ≡ false)
  Values neutral v = (f.le v (neutral_upper f) ≡ true) × (f.le v (poor_upper f) ≡ false)
  Values poor v = (f.le v (poor_upper f) ≡ true) × (f.le v (very_poor_upper f) ≡ false)
  Values very_poor v = f.le v (very_poor_upper f) ≡ true
  Values insufficient_votes v = ⊥

  module _ (o : IsOrdered f) where
    -- What the order says of one value and the four thresholds.
    record Placed (v : f.F64) : Type 0 where
      gt80 : f.gt v (good_upper f) ≡ not (f.le v (good_upper f))
      gt55 : f.gt v (neutral_upper f) ≡ not (f.le v (neutral_upper f))
      gt45 : f.gt v (poor_upper f) ≡ not (f.le v (poor_upper f))
      gt20 : f.gt v (very_poor_upper f) ≡ not (f.le v (very_poor_upper f))
      up20 : f.le v (very_poor_upper f) ≡ true → f.le v (poor_upper f) ≡ true
      up45 : f.le v (poor_upper f) ≡ true → f.le v (neutral_upper f) ≡ true
      up55 : f.le v (neutral_upper f) ≡ true → f.le v (good_upper f) ≡ true

    above :
        (v : f.F64) (n : ℕ) → IsNumber f v → f.gt v (f.hundredths n) ≡ not (f.le v (f.hundredths n))
    above v n num = o.gt-eq-not-le v (f.hundredths n) num (o.hundredths_mono n n (omega arith))

    below :
        (v : f.F64) (m n : ℕ)
        → m ≤ n
        → f.le v (f.hundredths m) ≡ true
        → f.le v (f.hundredths n) ≡ true
    below v m n le h = o.le_trans v (f.hundredths m) (f.hundredths n) h (o.hundredths_mono m n le)

    placed : (v : f.F64) → IsNumber f v → Placed v
    placed v num = record {
      gt80 = above v 80 num;
      gt55 = above v 55 num;
      gt45 = above v 45 num;
      gt20 = above v 20 num;
      up20 = below v 20 45 (omega arith);
      up45 = below v 45 55 (omega arith);
      up55 = below v 55 80 (omega arith);
    }

    -- Where `<=` and `>` of f64 are an order away from NaN, a number falls into a band
    -- exactly when it lies between the band's thresholds, the upper one included and the
    -- lower one not; no number falls into the band of too few votes.
    pub from_value_iff :
        (v : f.F64) → IsNumber f v → (b : RatingsBand) → (from_value f v ≡ b) ↔ Values b v
    unfolding from_value
    from_value_iff v num very_good =
        let p = placed v num in ground (arith, p.gt80, p.gt55, p.gt45, p.gt20)
    from_value_iff v num _ =
        let p = placed v num in
        ground (arith, p.gt80, p.gt55, p.gt45, p.gt20, p.up20, p.up45, p.up55)

    -- Where `<=` and `>` of f64 are an order away from NaN, of two numbers the larger never
    -- falls into the worse band.
    from_value_mono :
        (v w : f.F64)
        → IsNumber f v
        → IsNumber f w
        → f.le v w ≡ true
        → band_number (from_value f w) ≤ band_number (from_value f v)
    unfolding from_value
    from_value_mono v w nv nw h =
        let p = placed v nv in
        let q = placed w nw in
        let under =
          λ (n : ℕ) (k : f.le w (f.hundredths n) ≡ true). o.le_trans v w (f.hundredths n) h k in
        ground (
          arith,
          p.gt80,
          p.gt55,
          p.gt45,
          p.gt20,
          p.up20,
          p.up45,
          p.up55,
          q.gt80,
          q.gt55,
          q.gt45,
          q.gt20,
          q.up20,
          q.up45,
          q.up55,
          under 80,
          under 55,
          under 45,
          under 20,
        )

  from_value-ne-insufficient : (v : f.F64) → from_value f v ≢ insufficient_votes
  unfolding from_value
  from_value-ne-insufficient v h = ground arith

  -- A summary of less than 25 votes gets no value and the band `InsufficientVotes`; any other
  -- gets the Wilson bound of its counts as its value, and a band that is not
  -- `InsufficientVotes`.
  calculate_band_cases :
      (votes : VoteSummary)
      → (((ltb_ℤ votes.total_votes (pos 25) ≡ true)
            × (calculate_band f votes ≡ (none, insufficient_votes)))
          ⊎ ((ltb_ℤ votes.total_votes (pos 25) ≡ false)
              × ((calculate_band f votes).0
                  ≡ some (confidence_interval_lower_bound f votes.positive_votes votes.total_votes))
              × ((calculate_band f votes).1 ≢ insufficient_votes)))
  unfolding calculate_band
  calculate_band_cases votes =
      elim (Bool-cases (ltb_ℤ votes.total_votes insufficient_votes_quantity)) [
        | inl few ↦ inl (few, rw few refl)
        | inr many ↦ inr (many, rw many refl, rw many (from_value-ne-insufficient _))
      ]

  -- The lower end of the Wilson score interval of a ratio that is seen in n trials, as it is given at
  -- evanmiller.org/how-not-to-sort-by-average-rating.html.
  abbrev wilson_lower : f.F64 → f.F64 → f.F64 → f.F64
  wilson_lower z ratio n =
      f.div
        (f.sub (f.add ratio (f.div (f.mul z z) (f.mul (f.hundredths 200) n))) (
          f.mul z (
            f.sqrt (
              f.div
                (f.add (f.mul ratio (f.sub (f.hundredths 100) ratio))
                  (f.div (f.mul z z) (f.mul (f.hundredths 400) n)))
                n))))
        (f.add (f.hundredths 100) (f.div (f.mul z z) n))

  -- That of the votes, for about 95 percent.
  abbrev pub adjusted : VoteSummary → f.F64
  adjusted votes =
      let n = f.of_i64 votes.total_votes in
      wilson_lower (f.hundredths 196) (f.div (f.of_i64 votes.positive_votes) n) n

  bound-eq-adjusted :
      (votes : VoteSummary)
      → ltb_ℤ votes.total_votes (pos 25) ≡ false
      → confidence_interval_lower_bound f votes.positive_votes votes.total_votes ≡ adjusted votes
  unfolding confidence_interval_lower_bound
  bound-eq-adjusted votes many = elim (Bool-cases (eqb_ℤ votes.total_votes (pos 0))) [
    | inr some_votes ↦ rw some_votes refl
    | inl no_votes ↦
        let zero_votes = eqb_ℤ→eq votes.total_votes (pos 0) no_votes in
        let few : true ≡ false = rw zero_votes at many in absurd (ground arith)
  ]

  module _ (o : IsOrdered f) where
    -- Where `<=` and `>` of f64 are an order away from NaN, and the lower end of the Wilson
    -- interval of the counts, written out here as its published formula with 1.96, is a
    -- number, a summary is given a band exactly when there are less than 25 votes and the
    -- band is the one of too few votes, or there are 25 or more and that lower end lies
    -- between the band's thresholds.
    pub calculate_band_iff :
        (votes : VoteSummary)
        → IsNumber f (adjusted votes)
        → (b : RatingsBand)
        → ((calculate_band f votes).1 ≡ b) ↔ (
            ((ltb_ℤ votes.total_votes (pos 25) ≡ true) × (b ≡ insufficient_votes))
            ⊎ ((ltb_ℤ votes.total_votes (pos 25) ≡ false) × Values b (adjusted votes)))
    unfolding calculate_band
    calculate_band_iff votes num b =
        let values = from_value_iff o (adjusted votes) num b in
        elim (Bool-cases (ltb_ℤ votes.total_votes insufficient_votes_quantity)) [
          | inl few ↦ rw few (λ e. inl (refl, sym e), few_cases b (Values b (adjusted votes)))
          | inr many ↦ rw many (
              rw (bound-eq-adjusted votes many)
                (λ e. inr (refl, values.0 e), many_cases b (Values b (adjusted votes)) values.1))
        ]
      where
        few_cases :
            (b : RatingsBand) (V : Type 0)
            → ((true ≡ true) × (b ≡ insufficient_votes)) ⊎ ((true ≡ false) × V)
            → insufficient_votes ≡ b
        few_cases b V (inl (_, e)) = sym e
        few_cases b V (inr (bad, _)) = absurd (ground arith)

        many_cases :
            (b : RatingsBand) (V : Type 0) {c : RatingsBand}
            → (V → c ≡ b)
            → ((false ≡ true) × (b ≡ insufficient_votes)) ⊎ ((false ≡ false) × V)
            → c ≡ b
        many_cases b V g (inl (bad, _)) = absurd (ground arith)
        many_cases b V g (inr (_, v)) = g v

-- Two bands compare as equal exactly when they are one band other than `InsufficientVotes`, and
-- one as greater than another exactly when its number is smaller and the other is not
-- `InsufficientVotes`.
pub partial_cmp_iff :
    (a b : RatingsBand)
    → ((partial_cmp a b ≡ some Ordering.eq) ↔ ((a ≡ b) × (is_insufficient b ≡ false)))
      × ((partial_cmp a b ≡ some Ordering.gt)
          ↔ ((band_number a < band_number b) × (is_insufficient b ≡ false)))
unfolding partial_cmp
partial_cmp_iff very_good b = ground arith
partial_cmp_iff good b = ground arith
partial_cmp_iff _ b = ground arith
