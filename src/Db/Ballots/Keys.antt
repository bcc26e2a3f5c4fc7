-- ===== src/Db/Ballots/Keys.antt =====
-- Rows found by their keys: by a stored hash, by an id, and by the key of a vote.
use app_center_ratings.Prelude.{
  ℕ, ◌≤◌, ◌<◌, ◌≡◌, ◌≢◌, ◌⊎◌, refl, sym, ap, ◌∙◌, Bool, true, false, Option, none, some, List, [],
  ◌∷◌, ◌++◌, arith, ==_iff, leb, keep, find, count, length, Text, text_eq, text_eq_iff, inl, inr,
  Bool-cases, Option-cases,
}
use app_center_ratings.Prelude.Int.{ℤ}
use app_center_ratings.Db.Char.{char_store, char_eq_text, char_eq_text_stored, rtrim}
use app_center_ratings.Db.Tables.{User, Tables}
use app_center_ratings.Db.User.{is_client}
use app_center_ratings.Db.Invariant.{has_hash, is_short_hash, IsValid}
use app_center_ratings.Db.Ballots.{Ballots, selected}

-- Ballots are equal when they say the same.
pub Ballots-ext :
    (a b : Ballots)
    → ((hash : Text) → a.known hash ≡ b.known hash)
    → ((hash snap : Text) (revision : ℤ)
        → a.ballot hash snap revision ≡ b.ballot hash snap revision)
    → a ≡ b
Ballots-ext a b same_known same_ballot i = record {
  known = λ hash. same_known hash i;
  ballot = λ hash snap revision. same_ballot hash snap revision i;
}

module _ {A : Type 0} where
  -- What one test finds and another passes is counted by the other.
  pub count_pos_of_find :
      (p q : A → Bool) (xs : List A) {x : A} → find p xs ≡ some x → q x ≡ true → 0 < count q xs
  count_pos_of_find p q [] h e = absurd (ground arith)
  count_pos_of_find p q (y ∷ xs) {x} h e = elim (Bool-cases (p y)) [
    | inl this ↦ let eq : y ≡ x = ground arith in rw (ap q eq ∙ e) (omega arith)
    | inr other ↦ let rest = count_pos_of_find p q xs {x = x} (rw other at h) e in ground arith
  ]

  -- Two items that are found, of which a test that at most one item passes says yes, are one.
  pub find_unique :
      (p q r : A → Bool) (xs : List A) {x y : A}
      → find p xs ≡ some x
      → find q xs ≡ some y
      → r x ≡ true
      → r y ≡ true
      → count r xs ≤ 1
      → x ≡ y
  find_unique p q r [] hx hy ex ey one = absurd (ground arith)
  find_unique p q r (z ∷ xs) {x} {y} hx hy ex ey one = elim (Bool-cases (p z)) [
    | inl px ↦ elim (Bool-cases (q z)) [
      | inl qy ↦ ground arith
      | inr other ↦
          let zx : z ≡ x = ground arith in
          let here : r z ≡ true = ap r zx ∙ ex in
          let later = count_pos_of_find q r xs {x = y} (rw other at hy) ey in absurd (ground arith)
    ]
    | inr other ↦ elim (Bool-cases (q z)) [
      | inl qy ↦
          let zy : z ≡ y = ground arith in
          let here : r z ≡ true = ap r zy ∙ ey in
          let later = count_pos_of_find p r xs {x = x} (rw other at hx) ex in absurd (ground arith)
      | inr other' ↦
          find_unique p q r xs {x = x} {y = y} (rw other at hx) (rw other' at hy) ex ey
            (ground arith)
    ]
  ]

  pub find-ext : (p q : A → Bool) (xs : List A) → ((x : A) → p x ≡ q x) → find p xs ≡ find q xs
  find-ext p q [] same = refl
  find-ext p q (x ∷ xs) same = ground (arith, same x, find-ext p q xs same)

  -- A list that is filtered is searched as it was, where all that the test finds stays.
  pub find-keep :
      (p q : A → Bool) (xs : List A)
      → ((x : A) → p x ≡ true → q x ≡ true)
      → find p (keep q xs) ≡ find p xs
  find-keep p q [] stays = refl
  find-keep p q (x ∷ xs) stays = ground (arith, stays x, find-keep p q xs stays)

-- No text that ends in spaces, and none that is too long, is what is left of a stored value.
abbrev pub selects : Option Text → Text → Bool
selects none stored = false
selects (some c) stored = text_eq stored c

rtrim-rtrim : (t : Text) → rtrim (rtrim t) ≡ rtrim t
unfolding rtrim
rtrim-rtrim [] = refl
rtrim-rtrim (c ∷ t) = ground (arith, rtrim-rtrim t)

length-rtrim : (t : Text) → length (rtrim t) ≤ length t
unfolding rtrim
length-rtrim [] = omega arith
length-rtrim (c ∷ t) = ground (arith, length-rtrim t)

char_store-short : (n : ℕ) (t : Text) → length t ≤ n → char_store n t ≢ none
unfolding char_store
char_store-short n t short h =
    let fits : leb (length t) n ≡ true = ground arith in let stored = rw fits at h in absurd (cc)

pub selects_stored :
    (hash stored : Text)
    → length stored ≡ 64
    → char_eq_text stored hash ≡ selects (selected hash) stored
unfolding selected char_eq_text
selects_stored hash stored full = elim (Bool-cases (text_eq (rtrim hash) hash)) [
  | inl trimmed ↦ elim (Option-cases (char_store 64 hash)) [
    | inr (c, fits) ↦
        rw (trimmed, fits)
          (unfold char_eq_text in
            char_eq_text_stored 64 hash c stored ((text_eq_iff (rtrim hash) hash).0 trimmed) fits
              full)
    | inl long ↦
        rw (trimmed, long)
          (elim (Bool-cases (text_eq (rtrim stored) hash)) [
            | inr other ↦ other
            | inl same ↦
                let eq = (text_eq_iff (rtrim stored) hash).0 same in
                absurd
                  (char_store-short 64 hash (omega (arith, ap length eq, length-rtrim stored)) long)
          ])
  ]
  | inr padded ↦ rw padded (elim (Bool-cases (text_eq (rtrim stored) hash)) [
    | inr other ↦ other
    | inl same ↦
        let eq = (text_eq_iff (rtrim stored) hash).0 same in
        let back : rtrim hash ≡ hash = ap rtrim (sym eq) ∙ rtrim-rtrim stored ∙ eq in
        absurd (cc (padded, (text_eq_iff (rtrim hash) hash).1 back))
  ])
]

-- In a full column, `WHERE client_hash = $1` finds the row of the selected hash.
pub find-selected :
    (hash : Text) (us : List User)
    → count is_short_hash us ≡ 0
    → find (is_client hash) us ≡ find (λ u. selects (selected hash) u.client_hash) us
find-selected hash [] full = refl
find-selected hash (u ∷ us) full =
    let width : length u.client_hash ≡ 64 = ground (arith, ==_iff (length u.client_hash) 64) in
    ground (arith, selects_stored hash u.client_hash width, find-selected hash us)

pub find-append_other :
    {A : Type 0} (p : A → Bool) (xs : List A) {y : A}
    → p y ≡ false
    → find p (xs ++ y ∷ []) ≡ find p xs
find-append_other p [] e = ground arith
find-append_other p (x ∷ xs) {y} e = ground (arith, find-append_other p xs {y = y} e)

-- The row of the selected hash.
pub selected_cases :
    (hash : Text) (t : Tables)
    → IsValid t
    → ((c : Text) × (selected hash ≡ some c)
        × (find (is_client hash) t.users ≡ find (has_hash c) t.users))
      ⊎ ((selected hash ≡ none) × (find (is_client hash) t.users ≡ none))
selected_cases hash t valid = elim (Option-cases (selected hash)) [
  | inr (c, e) ↦ inl (
    c,
    e,
    find-selected hash t.users valid.full_hash
        ∙ ap (λ o. find (λ (u : User). selects o u.client_hash) t.users) e,
  )
  | inl e ↦ inr (
    e,
    find-selected hash t.users valid.full_hash
        ∙ ap (λ o. find (λ (u : User). selects o u.client_hash) t.users) e
        ∙ find_nothing t.users,
  )
]
  where
    find_nothing : (us : List User) → ◌≡◌ {A = Option User} (find (λ u. false) us) none
    find_nothing [] = refl
    find_nothing (u ∷ us) = find_nothing us
