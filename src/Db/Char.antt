-- ===== src/Db/Char.antt =====
-- The SQL type CHAR(n) of sql/migrations: what a column stores of a text, and how a stored value
-- compares with a text parameter `$1`.
use mathlib.Core.List.{append-nil}
use mathlib.Core.Path.{ap₂}
use app_center_ratings.Prelude.{
  ℕ, zero, suc, sym, ◌∙◌, inl, inr, Bool-cases, take-append-drop, length-take, ◌-◌, ◌≡◌, refl, ap,
  Bool, true, ◌&&◌, Option, none, some, [], ◌∷◌, ◌++◌, arith, leb, ◌==◌, if◌then◌else◌, length,
  take, drop, replicate, is_empty, all, Text, text_eq, text_eq_iff, text_eq_refl, length-append,
  length-replicate,
}

abbrev pub space : ℕ
space = 0x20

-- Assignment to CHAR(n): a shorter text is filled up with spaces, a longer one is refused unless
-- what is past the end are spaces. `none` is the error `value too long`.
unfoldable pub char_store : ℕ → Text → Option Text
char_store n t =
    if leb (length t) n
    then some (t ++ replicate (n - length t) space)
    else if all (λ c. c == space) (drop n t)
    then some (take n t)
    else none

-- The spaces at the end are no part of the value: the cast from CHAR(n) to TEXT drops them.
abbrev trim_onto : ℕ → Text → Text
trim_onto c rest = if c == space && is_empty rest then [] else c ∷ rest

unfoldable pub rtrim : Text → Text
rtrim [] = []
rtrim (c ∷ t) = trim_onto c (rtrim t)

-- `column = $1` with a text parameter.
unfoldable pub char_eq_text : Text → Text → Bool
char_eq_text column param = text_eq (rtrim column) param

-- A text of exactly n characters is stored as it is.
pub char_store_exact : (t : Text) → char_store (length t) t ≡ some t
unfolding char_store
char_store_exact t =
    let full : leb (length t) (length t) ≡ true = ground arith in
    let none_left : length t - length t ≡ 0 = omega arith in
    rw (full, none_left) (ap some (append-nil t))

-- A text with no space at its end.
abbrev pub IsTrimmed : Text → Type 0
IsTrimmed t = rtrim t ≡ t

abbrev is_blank : Text → Bool
is_blank = all (λ c. c == space)

replicate-is_blank : (n : ℕ) → is_blank (replicate n space) ≡ true
replicate-is_blank zero = refl
replicate-is_blank (suc n) = replicate-is_blank n

rtrim-blank : (b : Text) → is_blank b ≡ true → rtrim b ≡ []
unfolding rtrim
rtrim-blank [] h = refl
rtrim-blank (c ∷ b) h = ground (arith, rtrim-blank b)

-- Spaces that are put behind a text are dropped again.
rtrim-append : (t b : Text) → is_blank b ≡ true → rtrim (t ++ b) ≡ rtrim t
unfolding rtrim
rtrim-append [] b h = rtrim-blank b h
rtrim-append (c ∷ t) b h = ap (trim_onto c) (rtrim-append t b h)

pub rtrim-char_store : (n : ℕ) (t c : Text) → char_store n t ≡ some c → rtrim c ≡ rtrim t
unfolding char_store
rtrim-char_store n t c e = elim (Bool-cases (leb (length t) n)) [
  | inl short ↦
      let stored : c ≡ t ++ replicate (n - length t) space = ground arith in
      rw stored
        (rtrim-append t (replicate (n - length t) space) (replicate-is_blank (n - length t)))
  | inr long ↦ elim (Bool-cases (is_blank (drop n t))) [
    | inl blank ↦
        let stored : c ≡ take n t = ground arith in
        rw stored (sym (rtrim-append (take n t) (drop n t) blank) ∙ ap rtrim (take-append-drop n t))
    | inr solid ↦ let refused : ⊥ = ground arith in absurd refused
  ]
]

-- A text that ends in no space is found again under itself, and under no other text, once it has
-- been stored.
pub char_eq_text-char_store :
    (n : ℕ) (t p c : Text) → IsTrimmed t → char_store n t ≡ some c → char_eq_text c p ≡ text_eq t p
unfolding char_eq_text
char_eq_text-char_store n t p c h e = ap (λ x. text_eq x p) (rtrim-char_store n t c e ∙ h)

-- What CHAR(n) stores has n characters.
pub length-char_store : (n : ℕ) (t c : Text) → char_store n t ≡ some c → length c ≡ n
unfolding char_store
length-char_store n t c e = ground (
  arith,
  length-append t (replicate (n - length t) space),
  length-replicate (n - length t) space,
  length-take n t,
)

-- A text is what is left of it without the spaces at its end, and those spaces.
rtrim_spaces : (t : Text) → (n : ℕ) × (t ≡ rtrim t ++ replicate n space)
unfolding rtrim
rtrim_spaces [] = (0, refl)
rtrim_spaces (c ∷ t) =
    let (n, e) = rtrim_spaces t in
    elim (Bool-cases (c == space && is_empty (rtrim t))) [
      | inl dropped ↦
          let blank : c ≡ space = ground arith in
          let none_left : rtrim t ≡ [] = ground arith in
          (suc n, rw dropped (ap₂ ◌∷◌ blank (e ∙ ap (λ r. r ++ replicate n space) none_left)))
      | inr stays ↦ (n, rw stays (ap (◌∷◌ c) e))
    ]

-- Two values of one CHAR(n) column that are equal but for the spaces at their ends are equal.
pub rtrim-injective : (a b : Text) → length a ≡ length b → rtrim a ≡ rtrim b → a ≡ b
rtrim-injective a b len same =
    let (n, ea) = rtrim_spaces a in
    let (m, eb) = rtrim_spaces b in
    let la = ap length ea ∙ length-append (rtrim a) (replicate n space) in
    let lb = ap length eb ∙ length-append (rtrim b) (replicate m space) in
    let equal : n ≡ m =
      omega
        (arith, la, lb, len, ap length same, length-replicate n space, length-replicate m space) in
    ea ∙ ap₂ (λ r k. r ++ replicate k space) same equal ∙ sym eb

-- In a full column a stored text is selected by the text, if that ends in no space, and no other is.
pub char_eq_text_stored :
    (n : ℕ) (t c s : Text)
    → IsTrimmed t
    → char_store n t ≡ some c
    → length s ≡ n
    → char_eq_text s t ≡ text_eq s c
unfolding char_eq_text
char_eq_text_stored n t c s trimmed fits full =
    let back : rtrim c ≡ t = rtrim-char_store n t c fits ∙ trimmed in
    let width = length-char_store n t c fits in
    elim (Bool-cases (text_eq s c)) [
      | inl same ↦
          let eq = (text_eq_iff s c).0 same in rw (eq, back) (text_eq_refl t ∙ sym (text_eq_refl c))
      | inr other ↦ elim (Bool-cases (text_eq (rtrim s) t)) [
        | inr no_match ↦ no_match ∙ sym other
        | inl match ↦
            let eq =
              rtrim-injective s c (full ∙ sym width)
                ((text_eq_iff (rtrim s) t).0 match ∙ sym back) in
            absurd (cc (other, (text_eq_iff s c).1 eq))
      ]
    ]
