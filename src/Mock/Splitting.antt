-- ===== src/Mock/Splitting.antt =====
-- What `register_snap` of mock_server/src/main.rs reads from the names that a test joins with commas.
use app_center_ratings.Prelude.{
  ℕ, ◌≡◌, refl, ap, ◌∙◌, false, List, [], ◌∷◌, ◌++◌, map, any, All, is_empty, ◌==◌, arith, Text,
}
use app_center_ratings.Db.Category.{Category, category_name}
use app_center_ratings.Mock.Server.{split, read_categories}

-- `join` of a slice that is not empty; the separator is one char.
abbrev join_more : ℕ → Text → List Text → Text
join_more at part [] = part
join_more at part (next ∷ parts) = part ++ (at ∷ join_more at next parts)

-- `join` of a slice.
abbrev pub join : ℕ → List Text → Text
join at [] = []
join at (part ∷ parts) = join_more at part parts

abbrev IsPart : ℕ → Text → Type 0
IsPart at part = any (λ c. c == at) part ≡ false

split-part : (at : ℕ) (part : Text) → IsPart at part → split at part ≡ part ∷ []
unfolding split
split-part at [] h = refl
split-part at (c ∷ part) h = ground (arith, split-part at part)

split-append :
    (at : ℕ) (part t : Text) → IsPart at part → split at (part ++ (at ∷ t)) ≡ part ∷ split at t
unfolding split
split-append at [] t h = ground arith
split-append at (c ∷ part) t h = ground (arith, split-append at part t)

split-join_more :
    (at : ℕ) (part : Text) (parts : List Text)
    → IsPart at part
    → All (IsPart at) parts
    → split at (join_more at part parts) ≡ part ∷ parts
split-join_more at part [] h hs = split-part at part h
split-join_more at part (next ∷ parts) h hs =
    split-append at part (join_more at next parts) h
    ∙ ap (λ ps. part ∷ ps) (split-join_more at next parts hs.0 hs.1)

category_name-IsPart : (c : Category) → IsPart b',' (category_name c)
category_name-IsPart Category.art_and_design = refl
category_name-IsPart _ = refl

names-IsPart : (cs : List Category) → All (IsPart b',') (map category_name cs)
names-IsPart [] = tt
names-IsPart (c ∷ cs) = (category_name-IsPart c, names-IsPart cs)

joined_given :
    (c : Category) (names : List Text) → is_empty (join_more b',' (category_name c) names) ≡ false
joined_given Category.art_and_design [] = refl
joined_given _ [] = refl
joined_given Category.art_and_design (name ∷ names) = refl
joined_given _ (name ∷ names) = refl

-- The names of categories that are joined with commas are read as they were.
pub read_categories-join :
    (cs : List Category) → read_categories (join b',' (map category_name cs)) ≡ map category_name cs
unfolding read_categories
read_categories-join [] = refl
read_categories-join (c ∷ cs) = rw (joined_given c (map category_name cs)) (
    split-join_more b',' (category_name c) (map category_name cs) (category_name-IsPart c)
      (names-IsPart cs))
