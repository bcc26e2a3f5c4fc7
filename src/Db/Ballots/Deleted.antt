-- ===== src/Db/Ballots/Deleted.antt =====
-- `User::delete_by_client_hash` of src/db/user.rs, as the ballots see it.
use app_center_ratings.Prelude.{
  ◌≡◌, refl, sym, ap, ◌∙◌, Bool, true, false, not, ◌&&◌, none, some, List, [], ◌∷◌, arith, ◌==◌,
  ==_iff, if◌then◌else◌, any, keep, find, find_sound, count, length, Text, text_eq, text_eq_iff,
  inl, inr, Bool-cases, Option-cases,
}
use app_center_ratings.Prelude.Int.{ℤ}
use app_center_ratings.Db.Tables.{User, VoteRow, Tables, Session, delete_user}
use app_center_ratings.Db.User.{is_client, loses_user, delete_by_client_hash}
use app_center_ratings.Db.Vote.{same_key}
use app_center_ratings.Db.Invariant.{IsValid, has_hash, has_id, is_short_hash}
use app_center_ratings.Db.Ballots.{ballots_of, ballot_by, direction, is_there, selected, forget}
use app_center_ratings.Db.Ballots.Keys.{
  Ballots-ext, count_pos_of_find, find_unique, find-keep, selects, selects_stored,
}

text_eq_comm : (s t : Text) → text_eq s t ≡ text_eq t s
unfolding text_eq
text_eq_comm [] [] = refl
text_eq_comm [] (d ∷ t) = refl
text_eq_comm (c ∷ s) [] = refl
text_eq_comm (c ∷ s) (d ∷ t) = ground (arith, text_eq_comm s t)

pub any→find :
    {A : Type 0} (p : A → Bool) (xs : List A) → any p xs ≡ true → (x : A) × (find p xs ≡ some x)
any→find p [] h = absurd (ground arith)
any→find p (x ∷ xs) h = elim (Bool-cases (p x)) [
  | inl this ↦ (x, rw this)
  | inr other ↦ let (y, e) = any→find p xs (rw other at h) in (y, rw other e)
]

module _ (hash h : Text) where
  abbrev is_selected : Bool
  is_selected = selects (selected hash) h

  find-remaining :
      (us : List User)
      → count is_short_hash us ≡ 0
      → find (has_hash h) (keep (λ u. not (is_client hash u)) us)
        ≡ (if is_selected then none else find (has_hash h) us)
  find-remaining [] full = ground arith
  find-remaining (u ∷ us) full =
      let width : length u.client_hash ≡ 64 = ground (arith, ==_iff (length u.client_hash) 64) in
      let own = selects_stored hash u.client_hash width in
      let rest = find-remaining us (ground arith) in
      elim (Bool-cases (has_hash h u)) [
        | inr other ↦ elim (Bool-cases (is_client hash u)) [
          | inl gone ↦ rw gone (rw other rest)
          | inr stays ↦ rw stays (rw other rest)
        ]
        | inl same ↦
            let eq : u.client_hash ≡ h = (text_eq_iff u.client_hash h).0 same in
            let mine : is_client hash u ≡ is_selected = own ∙ ap (selects (selected hash)) eq in
            elim (Bool-cases is_selected) [
              | inl gone ↦ rw (mine ∙ gone, gone) (rest ∙ rw gone)
              | inr stays ↦ rw (mine ∙ stays, stays) (rw same refl)
            ]
      ]

  is_client-found :
      (us : List User) {v : User}
      → count is_short_hash us ≡ 0
      → find (has_hash h) us ≡ some v
      → is_client hash v ≡ is_selected
  is_client-found us {v} full found =
      let held = (text_eq_iff v.client_hash h).0 (find_sound (has_hash h) us found) in
      elim (Bool-cases (is_short_hash v)) [
        | inl short ↦
            let some_short = count_pos_of_find (has_hash h) is_short_hash us {x = v} found short in
            absurd (omega (arith, some_short, full))
        | inr wide ↦
            let width : length v.client_hash ≡ 64 =
              ground (arith, ==_iff (length v.client_hash) 64) in
            selects_stored hash v.client_hash width ∙ ap (selects (selected hash)) held
      ]

  -- The votes of a client that is not selected stay.
  votes_stay :
      (t : Tables) {v : User} (k : Text) (r : ℤ)
      → IsValid t
      → find (has_hash h) t.users ≡ some v
      → is_selected ≡ false
      → find (same_key v.id k r) (keep (λ x. not (loses_user hash t.users x)) t.votes)
        ≡ find (same_key v.id k r) t.votes
  votes_stay t {v} k r valid found stays =
      find-keep (same_key v.id k r) (λ x. not (loses_user hash t.users x)) t.votes
        λ x own. elim (Bool-cases (loses_user hash t.users x)) [
          | inr kept ↦ rw kept
          | inl lost ↦
              let (u, e) = any→find (λ u. is_client hash u && u.id == x.user_id_fk) t.users lost in
              let by_v : x.user_id_fk ≡ v.id = ground arith in
              let test =
                find_sound (λ (u : User). is_client hash u && u.id == x.user_id_fk) t.users e in
              let mine : is_client hash u ≡ true = ground arith in
              let id : u.id ≡ x.user_id_fk = ground arith in
              let one =
                find_unique (λ (u : User). is_client hash u && u.id == x.user_id_fk) (has_hash h)
                  (has_id v.id) t.users {x = u} {y = v} e found ((==_iff u.id v.id).1 (id ∙ by_v))
                  ((==_iff v.id v.id).1 refl) (valid.one_per_id v.id) in
              let same = sym (ap (is_client hash) one) ∙ mine in
              absurd (cc (same, is_client-found t.users {v = v} valid.full_hash found, stays))
        ]

module _ (hash : Text) (t : Tables) (valid : IsValid t) where
  remaining_users : List User
  remaining_users = keep (λ u. not (is_client hash u)) t.users

  remaining_votes : List VoteRow
  remaining_votes = keep (λ v. not (loses_user hash t.users v)) t.votes

  known-remaining :
      (h : Text)
      → is_there (find (has_hash h) remaining_users)
        ≡ (if selects (selected hash) h then false else is_there (find (has_hash h) t.users))
  unfolding remaining_users
  known-remaining h =
      let others = find-remaining hash h t.users valid.full_hash in
      elim (Bool-cases (selects (selected hash) h)) [
        | inl gone ↦ rw gone (ap is_there (rw gone at others))
        | inr stays ↦ rw stays (ap is_there (rw stays at others))
      ]

  ballot-remaining :
      (h k : Text) (r : ℤ)
      → ballot_by (find (has_hash h) remaining_users) remaining_votes k r ≡ (
          if selects (selected hash) h
          then none
          else ballot_by (find (has_hash h) t.users) t.votes k r)
  unfolding remaining_users remaining_votes
  ballot-remaining h k r =
      let others = find-remaining hash h t.users valid.full_hash in
      elim (Bool-cases (selects (selected hash) h)) [
        | inl gone ↦ rw gone (ap (λ o. ballot_by o remaining_votes k r) (rw gone at others))
        | inr stays ↦ rw stays (
            ap (λ o. ballot_by o remaining_votes k r) (rw stays at others)
            ∙ elim (Option-cases (find (has_hash h) t.users)) [
              | inl unknown ↦ rw unknown refl
              | inr (v, found) ↦
                  rw found (ap direction (votes_stay hash h t {v = v} k r valid found stays))
            ])
      ]

-- A client that is deleted is no more known and its ballots are gone, and no other client's change.
pub ballots_of-delete :
    (s : Session) (hash : Text) (t : Tables)
    → IsValid t
    → ballots_of (delete_by_client_hash s hash t).1
      ≡ (if s.answers delete_user then forget (selected hash) (ballots_of t) else ballots_of t)
unfolding delete_by_client_hash ballots_of remaining_users remaining_votes
ballots_of-delete s hash t valid = elim (Bool-cases (s.answers delete_user)) [
  | inr off ↦ rw off refl
  | inl on ↦ elim (Option-cases (selected hash)) [
    | inl nobody ↦
        rw (on, nobody)
          (Ballots-ext _ _ (λ h. known-remaining hash t valid h ∙ rw nobody refl)
            (λ h k r. ballot-remaining hash t valid h k r ∙ rw nobody refl))
    | inr (c, one) ↦
        rw (on, one)
          (Ballots-ext _ _ (λ h. known-remaining hash t valid h ∙ rw (one, text_eq_comm c h) refl)
            (λ h k r. ballot-remaining hash t valid h k r ∙ rw (one, text_eq_comm c h) refl))
  ]
]
