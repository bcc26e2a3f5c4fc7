-- ===== src/Startup/Port.antt =====
-- The port in the address that src/config.rs makes: its digits are all written.
use app_center_ratings.Prelude.{
  ℕ, zero, suc, ◌+◌, ◌-◌, ◌*◌, ◌/◌, ◌%◌, ◌^◌, ◌<◌, ◌==◌, ==_iff, ◌≡◌, [], ◌∷◌, inl, inr, Bool-cases,
  ap, ◌∙◌, arith, Text,
}
use app_center_ratings.Startup.Settings.{digits, u16_to_string}

-- A decimal number, behind one that is read already.
abbrev read_decimal : ℕ → Text → ℕ
read_decimal n [] = n
read_decimal n (c ∷ t) = read_decimal (n * 10 + (c - b'0')) t

last_digit :
    (n : ℕ) (acc : Text) (fuel : ℕ)
    → n / 10 ≡ 0
    → read_decimal 0 (digits (suc fuel) n acc) ≡ read_decimal n acc
last_digit n acc fuel small =
    let whole : 0 * 10 + (b'0' + n % 10 - b'0') ≡ n = omega arith in
    rw small (ap (λ m. read_decimal m acc) whole)

read_decimal-digits :
    (fuel n : ℕ) (acc : Text)
    → n < 10 ^ suc fuel
    → read_decimal 0 (digits (suc fuel) n acc) ≡ read_decimal n acc
read_decimal-digits zero n acc h = last_digit n acc zero (omega arith)
read_decimal-digits (suc fuel) n acc h = elim (Bool-cases (n / 10 == 0)) [
  | inl last ↦ last_digit n acc (suc fuel) ((==_iff (n / 10) 0).0 last)
  | inr more ↦
      let front : n / 10 < 10 ^ suc fuel = omega arith in
      let whole : (n / 10) * 10 + (b'0' + n % 10 - b'0') ≡ n = omega arith in
      rw more (
        read_decimal-digits fuel (n / 10) ((b'0' + n % 10) ∷ acc) front
        ∙ ap (λ m. read_decimal m acc) whole)
]

-- What is written for a number of 16 bits is read as that number.
read_decimal-u16_to_string : (n : ℕ) → n < 2 ^ 16 → read_decimal 0 (u16_to_string n) ≡ n
read_decimal-u16_to_string n h = read_decimal-digits 4 n [] (omega arith)
