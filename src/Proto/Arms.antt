-- ===== src/Proto/Arms.antt =====
-- The `match` of the generated `from_str_name` functions of src/proto: the first arm with the text.
use app_center_ratings.Prelude.{
  ◌≡◌, ◌∙◌, ap, Bool-cases, inl, inr, Option, none, some, List, [], ◌∷◌, if◌then◌else◌, All, arith,
  Text, text_eq, text_eq_iff,
}

module _ {A : Type 0} where
  abbrev pub select : Text → List (Text × A) → Option A
  select value [] = none
  select value ((name, a) ∷ arms) =
      let rest = select value arms in if text_eq value name then some a else rest

  -- Where every arm has the name of its result, what is selected has the text as its name.
  pub select_sound :
      (name_of : A → Text) (value : Text) (arms : List (Text × A))
      → All (λ (name, a). name ≡ name_of a) arms
      → {c : A} → select value arms ≡ some c
      → value ≡ name_of c
  select_sound name_of value [] own {c} h = absurd (ground arith)
  select_sound name_of value ((name, a) ∷ arms) own {c} h = elim (Bool-cases (text_eq value name)) [
    | inl same ↦
        let this : a ≡ c = ground arith in (text_eq_iff value name).0 same ∙ own.0 ∙ ap name_of this
    | inr other ↦ select_sound name_of value arms own.1 {c = c} (rw other at h)
  ]
