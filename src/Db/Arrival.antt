-- ===== src/Db/Arrival.antt =====
-- That `User::create_or_seen` of src/db/user.rs leaves a user whom the other statements find.
use app_center_ratings.Prelude.{
  ℕ, ◌≡◌, refl, ap, ◌∙◌, true, Option, none, some, List, [], ◌∷◌, arith, ==_iff, find, find_sound,
  find-append, count, length, Text, text_eq_iff, text_eq_refl, ok, inl, inr, Bool-cases,
}
use app_center_ratings.Db.Char.{char_store, char_eq_text_stored, length-char_store, IsTrimmed}
use app_center_ratings.Db.Tables.{User, Tables, Session, upsert_user}
use app_center_ratings.Db.User.{touch, insert_user, create_or_seen, is_client}
use app_center_ratings.Db.Invariant.{IsValid, has_hash, is_short_hash}

module _ (hash stored : Text) (trimmed : IsTrimmed hash)
    (fits : char_store 64 hash ≡ some stored) where
  -- A row of a full column is the client's exactly when it holds what is stored of the hash.
  is_client-eq : (u : User) → length u.client_hash ≡ 64 → is_client hash u ≡ has_hash stored u
  is_client-eq u full = char_eq_text_stored 64 hash stored u.client_hash trimmed fits full

  find-is_client :
      (us : List User)
      → count is_short_hash us ≡ 0
      → find (is_client hash) us ≡ find (has_hash stored) us
  find-is_client [] full = refl
  find-is_client (u ∷ us) full =
      let width : length u.client_hash ≡ 64 = ground (arith, ==_iff (length u.client_hash) 64) in
      ground (arith, is_client-eq u width, find-is_client us)

  find-touch :
      (now : ℕ) (us : List User) {u : User}
      → count is_short_hash us ≡ 0
      → find (has_hash stored) us ≡ some u
      → find (is_client hash) (touch stored now us) ≡ some (record u { last_seen = now })
  unfolding touch
  find-touch now [] full e = absurd (ground arith)
  find-touch now (v ∷ us) {u} full e =
      let width : length v.client_hash ≡ 64 = ground (arith, ==_iff (length v.client_hash) 64) in
      let same = is_client-eq v width in
      elim (Bool-cases (has_hash stored v)) [
        | inl this ↦
            let eq : v ≡ u = ground arith in
            rw (this, same) (rw this (ap (λ (x : User). some (record x { last_seen = now })) eq))
        | inr other ↦
            let rest = find-touch now us {u = u} (ground arith) (rw other at e) in
            rw (other, same) (rw other rest)
      ]

  insert_user-found :
      (s : Session) (o : Option User) (t : Tables)
      → count is_short_hash t.users ≡ 0
      → find (has_hash stored) t.users ≡ o
      → (find (is_client hash) (insert_user s stored o t).1.users
          ≡ some (insert_user s stored o t).0)
        × ((insert_user s stored o t).0.client_hash ≡ stored)
  unfolding insert_user
  insert_user-found s (some u) t full e =
      let held = (text_eq_iff u.client_hash stored).0 (find_sound (has_hash stored) t.users e) in
      (find-touch s.now t.users full e, held)
  insert_user-found s none t full e =
      let new : User = record {
        id = t.users_id_seq;
        client_hash = stored;
        created = s.now;
        last_seen = s.now;
      } in
      let own = is_client-eq new (length-char_store 64 hash stored fits) ∙ text_eq_refl stored in
      (
        find-append (is_client hash) t.users (new ∷ []) (find-is_client t.users full ∙ e)
            ∙ rw own refl,
        refl,
      )

-- A client whose hash fits and ends in no space is there once it has been created or seen, as the user
-- that the call returns.
pub create_or_seen-found :
    (s : Session) (hash stored : Text) (t : Tables)
    → IsValid t
    → IsTrimmed hash
    → char_store 64 hash ≡ some stored
    → s.answers upsert_user ≡ true
    → (u : User) × ((create_or_seen s hash t).0 ≡ ok u)
      × (find (is_client hash) (create_or_seen s hash t).1.users ≡ some u)
      × (u.client_hash ≡ stored)
unfolding create_or_seen
create_or_seen-found s hash stored t h trimmed fits on =
    let (found, held) =
      insert_user-found hash stored trimmed fits s (find (has_hash stored) t.users) t h.full_hash
        refl in
    rw (on, fits) (_, refl, found, held)
