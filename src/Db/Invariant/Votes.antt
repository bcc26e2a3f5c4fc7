-- ===== src/Db/Invariant/Votes.antt =====
-- src/db/vote.rs: `save_to_db` keeps the constraints.
use app_center_ratings.Prelude.{
  ℕ, ◌≤◌, ◌<◌, ◌≡◌, refl, Bool, true, Option, none, some, List, [], ◌∷◌, ◌++◌, arith, ◌==◌, find,
  count, length, Text, text_eq_iff, count-append, count-eq-zero-find, ==_iff, inl, inr, Bool-cases,
}
use app_center_ratings.Prelude.Int.{ℤ, pos, ltb_ℤ, eqb_ℤ→eq}
use app_center_ratings.Db.Char.{char_store, length-char_store}
use app_center_ratings.Db.Tables.{User, VoteRow, Tables, Session, upsert_vote}
use app_center_ratings.Db.User.{is_client}
use app_center_ratings.Db.Vote.{
  Vote, same_key, new_row, place_vote, draw_id, insert_vote, save_to_db,
}
use app_center_ratings.Db.Invariant.{
  has_id, is_by, is_unchecked, is_short_snap, IsValid, count-change_vote,
}

-- The new row of a key that no row has.
one_key_more :
    (user : ℕ) (snap : Text) (revision : ℤ) (v : VoteRow) (vs : List VoteRow)
    → count (same_key v.user_id_fk v.snap_id v.snap_revision) vs ≡ 0
    → count (same_key user snap revision) vs ≤ 1
    → count (same_key user snap revision) (vs ++ v ∷ []) ≤ 1
one_key_more user snap revision v vs fresh old = elim (Bool-cases (same_key user snap revision v)) [
  | inr differs ↦ ground (arith, count-append (same_key user snap revision) vs (v ∷ []))
  | inl same ↦
      let eu : v.user_id_fk ≡ user = ground arith in
      let es : v.snap_id ≡ snap = ground (arith, text_eq_iff v.snap_id snap) in
      let er : v.snap_revision ≡ revision = ground (arith, eqb_ℤ→eq v.snap_revision revision) in
      let none_yet : count (same_key user snap revision) vs ≡ 0 = rw (eu, es, er) at fresh in
      ground (arith, count-append (same_key user snap revision) vs (v ∷ []))
]

-- A user that was found is there.
pub find-known :
    (p : User → Bool) (us : List User) {u : User} → find p us ≡ some u → 0 < count (has_id u.id) us
find-known p [] e = ground arith
find-known p (v ∷ us) {u} e = elim (Bool-cases (p v)) [
  | inl this ↦ let eq : v ≡ u = ground arith in rw eq (ground arith)
  | inr later ↦
      let rest : 0 < count (has_id u.id) us = find-known p us {u = u} (rw later at e) in
      ground arith
]

place_vote-IsValid :
    (s : Session) (u : User) (snap : Text) (revision : ℤ) (up : Bool) (o : Option VoteRow)
    (t : Tables)
    → find (same_key u.id snap revision) t.votes ≡ o
    → ltb_ℤ (pos 0) revision ≡ true
    → 0 < count (has_id u.id) t.users
    → length snap ≡ 32
    → IsValid t
    → IsValid (place_vote s u.id snap revision up o t)
unfolding place_vote
place_vote-IsValid s u snap revision up (some v) t e above known full h = record {
  one_per_hash = h.one_per_hash;
  one_per_id = h.one_per_id;
  ids_below = h.ids_below;
  owned = λ i own.
      h.owned i (rw (count-change_vote (is_by i) u.id snap revision up t.votes (λ w. refl)) at own);
  one_per_key = λ a b c.
      rw (count-change_vote (same_key a b c) u.id snap revision up t.votes (λ w. refl))
        (h.one_per_key a b c);
  checked = rw (count-change_vote is_unchecked u.id snap revision up t.votes (λ w. refl)) h.checked;
  full_hash = h.full_hash;
  full_snap =
      rw (count-change_vote is_short_snap u.id snap revision up t.votes (λ w. refl)) h.full_snap;
}
place_vote-IsValid s u snap revision up none t e above known full h = record {
  one_per_hash = h.one_per_hash;
  one_per_id = h.one_per_id;
  ids_below = h.ids_below;
  owned = λ i own. elim (Bool-cases (u.id == i)) [
    | inl same ↦ rw (← ((==_iff u.id i).0 same)) known
    | inr differs ↦ h.owned i (ground (arith, count-append (is_by i) t.votes (new ∷ [])))
  ];
  one_per_key = λ a b c.
      one_key_more a b c new t.votes (count-eq-zero-find (same_key u.id snap revision) t.votes e)
        (h.one_per_key a b c);
  checked = ground (arith, count-append is_unchecked t.votes (new ∷ []), h.checked);
  full_hash = h.full_hash;
  full_snap = ground (arith, count-append is_short_snap t.votes (new ∷ []), h.full_snap);
}
  where
    new : VoteRow
    new = new_row s u.id snap revision up t

draw_id-IsValid : (t : Tables) → IsValid t → IsValid (draw_id t)
draw_id-IsValid t h = record {
  one_per_hash = h.one_per_hash;
  one_per_id = h.one_per_id;
  ids_below = h.ids_below;
  owned = h.owned;
  one_per_key = h.one_per_key;
  checked = h.checked;
  full_hash = h.full_hash;
  full_snap = h.full_snap;
}

insert_vote-IsValid :
    (s : Session) (o : Option User) (c : Option Text) (revision : ℤ) (up : Bool) (t : Tables)
    (hash snap_id : Text)
    → find (is_client hash) t.users ≡ o
    → char_store 32 snap_id ≡ c
    → IsValid t
    → IsValid (insert_vote s o c revision up t).1
unfolding insert_vote
insert_vote-IsValid s o none revision up t hash snap_id e fits h = h
insert_vote-IsValid s none (some snap) revision up t hash snap_id e fits h = draw_id-IsValid t h
insert_vote-IsValid s (some u) (some snap) revision up t hash snap_id e fits h =
    elim (Bool-cases (ltb_ℤ (pos 0) revision)) [
      | inr below ↦ rw below (draw_id-IsValid t h)
      | inl above ↦ rw above (
          place_vote-IsValid s u snap revision up _ t refl above
            (find-known (is_client hash) t.users e) (length-char_store 32 snap_id snap fits) h)
    ]

pub save_to_db-IsValid :
    (s : Session) (vote : Vote) (t : Tables) → IsValid t → IsValid (save_to_db s vote t).1
unfolding save_to_db
save_to_db-IsValid s vote t h = elim (Bool-cases (s.answers upsert_vote)) [
  | inr off ↦ rw off h
  | inl on ↦
      rw on (insert_vote-IsValid s _ _ _ vote.vote_up t vote.client_hash vote.snap_id refl refl h)
]
