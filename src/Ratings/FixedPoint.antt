-- ===== src/Ratings/FixedPoint.antt =====
-- A concrete number type that meets the laws of Float.antt: millionths, with `none` for NaN. Floats
-- are taken by the theorems as they come; this one shows that the laws can hold, and runs the tests.
use Prim.Native.Nat.{Ordering, compare}
use app_center_ratings.Prelude.{
  ℕ, zero, suc, ◌+◌, ◌-◌, ◌*◌, ◌/◌, Bool, false, Option, none, some, arith, leb, ltb, ◌==◌,
  if◌then◌else◌,
}
use app_center_ratings.Prelude.Int.{ℤ, pos, negsuc}
use app_center_ratings.Ratings.Float.{Floats, IsOrdered, IsOrdered32}

abbrev pub Millionths : Type 0
Millionths = Option ℕ

abbrev one : ℕ
one = 1000000

abbrev both : (ℕ → ℕ → Millionths) → Millionths → Millionths → Millionths
both op (some a) (some b) = op a b
both op _ _ = none

abbrev test : (ℕ → ℕ → Bool) → Millionths → Millionths → Bool
test op (some a) (some b) = op a b
test op _ _ = false

-- The largest r with r * r ≤ n, by bisection between lo and hi.
isqrt : ℕ → ℕ → ℕ → ℕ → ℕ
isqrt zero n lo hi = lo
isqrt (suc fuel) n lo hi =
    let mid = (lo + hi) / 2 in
    let down = isqrt fuel n lo mid in
    let up = isqrt fuel n mid hi in if ltb n (mid * mid) then down else up

unfoldable pub root : Millionths → Millionths
unfolding isqrt
root none = none
root (some n) = some (isqrt 64 (n * one) 0 (n * one + 1))

abbrev from_i64 : ℤ → Millionths
from_i64 (pos n) = some (n * one)
from_i64 (negsuc n) = none

abbrev compare_millionths : Millionths → Millionths → Option Ordering
compare_millionths (some a) (some b) = some (compare a b)
compare_millionths _ _ = none

abbrev pub fixed_point : Floats
fixed_point = record {
  F64 = Millionths;
  F32 = Millionths;
  hundredths = λ n. some (n * 10000);
  of_i64 = from_i64;
  add = both (λ a b. some (a + b));
  sub = both (λ a b. some (a - b));
  mul = both (λ a b. some (a * b / one));
  div = both (λ a b. if b == 0 then none else some (a * one / b));
  sqrt = root;
  le = test leb;
  gt = test (λ a b. ltb b a);
  to_f32 = λ a. a;
  partial_cmp = compare_millionths;
}

pub fixed_point-IsOrdered : IsOrdered fixed_point
fixed_point-IsOrdered = ground arith

pub fixed_point-IsOrdered32 : IsOrdered32 fixed_point
fixed_point-IsOrdered32 = ground arith
