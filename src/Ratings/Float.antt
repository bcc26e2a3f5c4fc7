-- ===== src/Ratings/Float.antt =====
-- What src/ratings does with `f64` and `f32`: the operations that it calls, and the laws of IEEE
-- comparison that the theorems need.
use Prim.Native.Nat.{Ordering}
use app_center_ratings.Prelude.{ℕ, ◌≤◌, ◌≡◌, Bool, true, false, not, Option, some}
use app_center_ratings.Prelude.Int.{ℤ}

pub record Floats : Type 1 where
  pub F64 : Type 0
  pub F32 : Type 0
  -- a literal, in hundredths: 0.55 is `hundredths 55`
  pub hundredths : ℕ → F64
  pub of_i64 : ℤ → F64
  pub add : F64 → F64 → F64
  pub sub : F64 → F64 → F64
  pub mul : F64 → F64 → F64
  pub div : F64 → F64 → F64
  pub sqrt : F64 → F64
  pub le : F64 → F64 → Bool
  pub gt : F64 → F64 → Bool
  pub to_f32 : F64 → F32
  pub partial_cmp : F32 → F32 → Option Ordering

-- `partial_cmp` says `>`.
abbrev pub is_greater : Option Ordering → Bool
is_greater (some Ordering.gt) = true
is_greater _ = false

module _ (f : Floats) where
  -- A NaN is a value that is not `<=` itself, and does not compare with itself.
  abbrev pub IsNumber : f.F64 → Type 0
  IsNumber x = f.le x x ≡ true

  abbrev pub IsNumber32 : f.F32 → Type 0
  IsNumber32 a = f.partial_cmp a a ≡ some Ordering.eq

  -- `<=` and `>` of f64 away from NaN.
  pub record IsOrdered : Type 0 where
    pub le_trans : (x y z : f.F64) → f.le x y ≡ true → f.le y z ≡ true → f.le x z ≡ true
    pub gt-eq-not-le : (x y : f.F64) → IsNumber x → IsNumber y → f.gt x y ≡ not (f.le x y)
    pub le_total : (x y : f.F64) → IsNumber x → IsNumber y → f.le x y ≡ false → f.le y x ≡ true
    pub hundredths_mono : (m n : ℕ) → m ≤ n → f.le (f.hundredths m) (f.hundredths n) ≡ true

  -- Of f32: away from NaN "not above" is transitive, and what is above another is not below it.
  pub record IsOrdered32 : Type 0 where
    pub trans :
        (a b c : f.F32)
        → IsNumber32 a
        → IsNumber32 b
        → IsNumber32 c
        → is_greater (f.partial_cmp a b) ≡ false
        → is_greater (f.partial_cmp b c) ≡ false
        → is_greater (f.partial_cmp a c) ≡ false
    pub flips :
        (a b : f.F32)
        → is_greater (f.partial_cmp a b) ≡ true
        → is_greater (f.partial_cmp b a) ≡ false
