-- ===== src/Db/Invariant/Users.antt =====
-- src/db/user.rs keeps the constraints.
use app_center_ratings.Prelude.{
  ℕ, ◌≤◌, ◌<◌, ◌≡◌, refl, sym, ◌∙◌, Bool, false, not, ◌&&◌, Option, none, some, List, [], ◌∷◌, ◌++◌,
  arith, ◌==◌, any, keep, find, count, length, Text, text_eq, text_eq_iff, count-append, count-keep,
  count-eq-zero-find, ==_iff, inl, inr, Bool-cases, Option-cases,
}
use app_center_ratings.Db.Char.{char_store, length-char_store}
use app_center_ratings.Db.Tables.{User, VoteRow, Tables, Session, upsert_user, delete_user}
use app_center_ratings.Db.User.{
  insert_user, create_or_seen, is_client, loses_user, delete_by_client_hash,
}
use app_center_ratings.Db.Vote.{same_key}
use app_center_ratings.Db.Invariant.{
  has_hash, has_id, is_by, is_unchecked, is_short_hash, is_short_snap, IsValid, count-touch,
}

-- The new row of a hash that no row has.
one_hash_more :
    (hash other : Text) (u : User) (us : List User)
    → u.client_hash ≡ hash
    → count (has_hash hash) us ≡ 0
    → count (has_hash other) us ≤ 1
    → count (has_hash other) (us ++ u ∷ []) ≤ 1
one_hash_more hash other u us e fresh old = elim (Bool-cases (text_eq u.client_hash other)) [
  | inl same ↦
      let eq : hash ≡ other = sym e ∙ (text_eq_iff u.client_hash other).0 same in
      let none_yet : count (has_hash other) us ≡ 0 = rw (← eq) fresh in
      ground (arith, count-append (has_hash other) us (u ∷ []))
  | inr differs ↦ ground (arith, count-append (has_hash other) us (u ∷ []))
]

insert_user-IsValid :
    (s : Session) (hash : Text) (o : Option User) (t : Tables)
    → find (has_hash hash) t.users ≡ o
    → length hash ≡ 64
    → IsValid t
    → IsValid (insert_user s hash o t).1
unfolding insert_user
insert_user-IsValid s hash (some u) t e full h = record {
  one_per_hash =
      λ k. rw (count-touch (has_hash k) hash s.now t.users (λ v. refl)) (h.one_per_hash k);
  one_per_id = λ i. rw (count-touch (has_id i) hash s.now t.users (λ v. refl)) (h.one_per_id i);
  ids_below = λ i le.
      rw (count-touch (has_id i) hash s.now t.users (λ v. refl)) (h.ids_below i (omega arith));
  owned = λ i own. rw (count-touch (has_id i) hash s.now t.users (λ v. refl)) (h.owned i own);
  one_per_key = h.one_per_key;
  checked = h.checked;
  full_hash = rw (count-touch is_short_hash hash s.now t.users (λ v. refl)) h.full_hash;
  full_snap = h.full_snap;
}
insert_user-IsValid s hash none t e full h = record {
  one_per_hash = λ k.
      one_hash_more hash k _ t.users refl (count-eq-zero-find (has_hash hash) t.users e)
        (h.one_per_hash k);
  one_per_id = λ i.
      ground (arith, count-append (has_id i) t.users (new ∷ []), h.one_per_id i, h.ids_below i);
  ids_below = λ i le.
      ground (arith, count-append (has_id i) t.users (new ∷ []), h.ids_below i (omega arith));
  owned = λ i own. ground (arith, count-append (has_id i) t.users (new ∷ []), h.owned i own);
  one_per_key = h.one_per_key;
  checked = h.checked;
  full_hash = ground (arith, count-append is_short_hash t.users (new ∷ []), h.full_hash);
  full_snap = h.full_snap;
}
  where
    new : User
    new = record { id = t.users_id_seq; client_hash = hash; created = s.now; last_seen = s.now }

pub create_or_seen-IsValid :
    (s : Session) (hash : Text) (t : Tables) → IsValid t → IsValid (create_or_seen s hash t).1
unfolding create_or_seen
create_or_seen-IsValid s hash t h = elim (Bool-cases (s.answers upsert_user)) [
  | inr off ↦ rw off h
  | inl on ↦ rw on (elim (Option-cases (char_store 64 hash)) [
    | inl long ↦ rw long h
    | inr (c, fits) ↦
        rw fits (insert_user-IsValid s c _ t refl (length-char_store 64 hash c fits) h)
  ])
]

module _ (hash : Text) where
  -- The user with this id goes.
  abbrev goes : List User → ℕ → Bool
  goes us i = any (λ u. is_client hash u && u.id == i) us

  count-keep_others :
      (i : ℕ) (us : List User)
      → goes us i ≡ false
      → count (has_id i) (keep (λ u. not (is_client hash u)) us) ≡ count (has_id i) us
  count-keep_others i [] stays = refl
  count-keep_others i (u ∷ us) stays = ground (arith, count-keep_others i us)

  -- A vote that is kept is by a user that stays.
  owner_stays :
      (us : List User) (i : ℕ) (vs : List VoteRow)
      → 0 < count (is_by i) (keep (λ v. not (loses_user hash us v)) vs)
      → goes us i ≡ false
  owner_stays us i [] own = absurd (omega arith)
  owner_stays us i (v ∷ vs) own = elim (Bool-cases (loses_user hash us v)) [
    | inl lost ↦ owner_stays us i vs (rw lost at own)
    | inr kept ↦ elim (Bool-cases (v.user_id_fk == i)) [
      | inl same ↦ rw (← ((==_iff v.user_id_fk i).0 same)) kept
      | inr differs ↦ owner_stays us i vs (rw (kept, differs) at own)
    ]
  ]

pub delete_by_client_hash-IsValid :
    (s : Session) (hash : Text) (t : Tables)
    → IsValid t
    → IsValid (delete_by_client_hash s hash t).1
unfolding delete_by_client_hash
delete_by_client_hash-IsValid s hash t h = elim (Bool-cases (s.answers delete_user)) [
  | inr off ↦ rw off h
  | inl on ↦ rw on (record {
    one_per_hash = λ k. omega (arith, count-keep (has_hash k) stays t.users, h.one_per_hash k);
    one_per_id = λ i. omega (arith, count-keep (has_id i) stays t.users, h.one_per_id i);
    ids_below = λ i le. omega (arith, count-keep (has_id i) stays t.users, h.ids_below i le);
    owned = λ i own.
        rw (count-keep_others hash i t.users (owner_stays hash t.users i t.votes own))
          (h.owned i (omega (arith, count-keep (is_by i) safe t.votes)));
    one_per_key =
        λ u n r. omega (arith, count-keep (same_key u n r) safe t.votes, h.one_per_key u n r);
    checked = omega (arith, count-keep is_unchecked safe t.votes, h.checked);
    full_hash = omega (arith, count-keep is_short_hash stays t.users, h.full_hash);
    full_snap = omega (arith, count-keep is_short_snap safe t.votes, h.full_snap);
  })
]
  where
    stays : User → Bool
    stays u = not (is_client hash u)

    safe : VoteRow → Bool
    safe v = not (loses_user hash t.users v)
