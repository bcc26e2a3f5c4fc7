-- ===== src/Ratings/Sorting.antt =====
-- The stable sort that `Chart::new` of src/ratings/charts.rs calls.
use Prim.Native.Nat.{Ordering}
use app_center_ratings.Prelude.{
  suc, ◌≡◌, refl, Bool, true, false, some, List, [], ◌∷◌, arith, count, length, All, inl, inr,
  Bool-cases,
}
use app_center_ratings.Ratings.Float.{is_greater}
use app_center_ratings.Ratings.Chart.{insert_by, sort_by}

module _ {ℓ} {A : Type ℓ} (compare_by : A → A → Ordering) where
  -- `a` has to stand behind `b`.
  abbrev pub is_behind : A → A → Bool
  is_behind a b = is_greater (some (compare_by a b))

  -- No item has to stand behind a later one.
  abbrev pub IsSorted : List A → Type 0
  IsSorted [] = Unit
  IsSorted (x ∷ xs) = All (λ y. is_behind x y ≡ false) xs × IsSorted xs

  count-insert_by :
      (p : A → Bool) (x : A) (ys : List A) → count p (insert_by compare_by x ys) ≡ count p (x ∷ ys)
  unfolding insert_by
  count-insert_by p x [] = refl
  count-insert_by p x (y ∷ ys) = ground (arith, count-insert_by p x ys)

  -- The sort keeps every item, as often as it was there.
  pub count-sort_by : (p : A → Bool) (xs : List A) → count p (sort_by compare_by xs) ≡ count p xs
  unfolding sort_by
  count-sort_by p [] = refl
  count-sort_by p (x ∷ xs) =
      ground (arith, count-insert_by p x (sort_by compare_by xs), count-sort_by p xs)

  length-insert_by : (x : A) (ys : List A) → length (insert_by compare_by x ys) ≡ suc (length ys)
  unfolding insert_by
  length-insert_by x [] = refl
  length-insert_by x (y ∷ ys) = ground (arith, length-insert_by x ys)

  pub length-sort_by : (xs : List A) → length (sort_by compare_by xs) ≡ length xs
  unfolding sort_by
  length-sort_by [] = refl
  length-sort_by (x ∷ xs) =
      ground (arith, length-insert_by x (sort_by compare_by xs), length-sort_by xs)

  All-insert_by {κ} :
      (P : A → Type κ) (x : A) (ys : List A) → P x → All P ys → All P (insert_by compare_by x ys)
  unfolding insert_by
  All-insert_by P x [] h hs = (h, tt)
  All-insert_by P x (y ∷ ys) h hs = elim (Bool-cases (is_behind x y)) [
    | inl behind ↦ rw behind (hs.0, All-insert_by P x ys h hs.1)
    | inr fits ↦ rw fits (h, hs)
  ]

  pub All-sort_by {κ} : (P : A → Type κ) (xs : List A) → All P xs → All P (sort_by compare_by xs)
  unfolding sort_by
  All-sort_by P [] hs = tt
  All-sort_by P (x ∷ xs) hs = All-insert_by P x (sort_by compare_by xs) hs.0 (All-sort_by P xs hs.1)

  -- Among the items that are to be compared the order is transitive, and no two stand behind each
  -- other.
  module _ (Good : A → Type 0)
      (trans : (a b c : A)
        → Good a
        → Good b
        → Good c
        → is_behind a b ≡ false
        → is_behind b c ≡ false
        → is_behind a c ≡ false)
      (flips : (a b : A) → is_behind a b ≡ true → is_behind b a ≡ false) where
    in_front :
        (x y : A) (zs : List A)
        → Good x
        → Good y
        → All Good zs
        → is_behind x y ≡ false
        → All (λ z. is_behind y z ≡ false) zs
        → All (λ z. is_behind x z ≡ false) zs
    in_front x y [] gx gy gs h hs = tt
    in_front x y (z ∷ zs) gx gy gs h hs =
        (trans x y z gx gy gs.0 h hs.0, in_front x y zs gx gy gs.1 h hs.1)

    insert_by-IsSorted :
        (x : A) (ys : List A)
        → Good x
        → All Good ys
        → IsSorted ys
        → IsSorted (insert_by compare_by x ys)
    unfolding insert_by
    insert_by-IsSorted x [] gx gs s = (tt, tt)
    insert_by-IsSorted x (y ∷ ys) gx gs s = elim (Bool-cases (is_behind x y)) [
      | inl behind ↦ rw behind (
        All-insert_by (λ z. is_behind y z ≡ false) x ys (flips x y behind) s.0,
        insert_by-IsSorted x ys gx gs.1 s.1,
      )
      | inr fits ↦ rw fits ((fits, in_front x y ys gx gs.0 gs.1 fits s.0), s)
    ]

    pub sort_by-IsSorted : (xs : List A) → All Good xs → IsSorted (sort_by compare_by xs)
    unfolding sort_by
    sort_by-IsSorted [] gs = tt
    sort_by-IsSorted (x ∷ xs) gs =
        insert_by-IsSorted x (sort_by compare_by xs) gs.0 (All-sort_by Good xs gs.1)
          (sort_by-IsSorted xs gs.1)
