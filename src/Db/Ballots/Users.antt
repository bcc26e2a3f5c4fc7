-- ===== src/Db/Ballots/Users.antt =====
-- `User::create_or_seen` of src/db/user.rs, as the ballots see it.
use app_center_ratings.Prelude.{
  ℕ, ◌≡◌, refl, sym, ap, ◌∙◌, Bool, true, Option, none, some, List, [], ◌∷◌, ◌++◌, arith,
  if◌then◌else◌, find, count, Text, text_eq, text_eq_iff, inl, inr, Bool-cases, Option-cases,
}
use app_center_ratings.Prelude.Int.{ℤ}
use app_center_ratings.Db.Char.{char_store}
use app_center_ratings.Db.Tables.{User, VoteRow, Tables, Session, upsert_user}
use app_center_ratings.Db.User.{touch, insert_user, create_or_seen}
use app_center_ratings.Db.Vote.{same_key}
use app_center_ratings.Db.Invariant.{IsValid, has_hash, is_by}
use app_center_ratings.Db.Ballots.{ballots_of, ballot_by, is_there, see}
use app_center_ratings.Db.Ballots.Keys.{Ballots-ext}

module _ (now : ℕ) (hash k : Text) where
  there-touch :
      (us : List User)
      → is_there (find (has_hash k) (touch hash now us)) ≡ is_there (find (has_hash k) us)
  unfolding touch
  there-touch [] = refl
  there-touch (u ∷ us) = ground (arith, there-touch us)

there-append :
    (p : User → Bool) (new : User) (us : List User)
    → is_there (find p (us ++ new ∷ [])) ≡ (if p new then true else is_there (find p us))
there-append p new [] = ground arith
there-append p new (u ∷ us) = ground (arith, there-append p new us)

module _ (votes : List VoteRow) (snap : Text) (revision : ℤ) (now : ℕ) (hash k : Text) where
  ballot_by-touch :
      (us : List User)
      → ballot_by (find (has_hash k) (touch hash now us)) votes snap revision
        ≡ ballot_by (find (has_hash k) us) votes snap revision
  unfolding touch
  ballot_by-touch [] = refl
  ballot_by-touch (u ∷ us) = ground (arith, ballot_by-touch us)

-- Nobody who is not there has voted.
no_votes_by :
    (i : ℕ) (snap : Text) (revision : ℤ) (vs : List VoteRow)
    → count (is_by i) vs ≡ 0
    → find (same_key i snap revision) vs ≡ none
no_votes_by i snap revision [] h = refl
no_votes_by i snap revision (v ∷ vs) h = ground (arith, no_votes_by i snap revision vs)

ballot_by-append :
    (votes : List VoteRow) (k snap : Text) (revision : ℤ) (new : User) (us : List User)
    → find (same_key new.id snap revision) votes ≡ none
    → ballot_by (find (has_hash k) (us ++ new ∷ [])) votes snap revision
      ≡ ballot_by (find (has_hash k) us) votes snap revision
ballot_by-append votes k snap revision new [] e = ground arith
ballot_by-append votes k snap revision new (u ∷ us) e =
    ground (arith, ballot_by-append votes k snap revision new us e)

module _ (s : Session) (hash : Text) (t : Tables) where
  known-insert_user :
      (o : Option User) (k : Text)
      → find (has_hash hash) t.users ≡ o
      → is_there (find (has_hash k) (insert_user s hash o t).1.users)
        ≡ (if text_eq hash k then true else is_there (find (has_hash k) t.users))
  unfolding insert_user
  known-insert_user (some u) k e =
      there-touch s.now hash k t.users ∙ elim (Bool-cases (text_eq hash k)) [
        | inr other ↦ rw other
        | inl same ↦
            let found =
              ap (λ h. is_there (find (has_hash h) t.users)) (sym ((text_eq_iff hash k).0 same)) in
            rw same (found ∙ ap is_there e)
      ]
  known-insert_user none k e = there-append (has_hash k) _ t.users

  ballot-insert_user :
      (o : Option User) (k snap : Text) (revision : ℤ)
      → IsValid t
      → ballot_by
          (find (has_hash k) (insert_user s hash o t).1.users)
          (insert_user s hash o t).1.votes
          snap
          revision
        ≡ ballot_by (find (has_hash k) t.users) t.votes snap revision
  unfolding insert_user
  ballot-insert_user (some u) k snap revision valid =
      ballot_by-touch t.votes snap revision s.now hash k t.users
  ballot-insert_user none k snap revision valid =
      let i = t.users_id_seq in
      let fresh : count (is_by i) t.votes ≡ 0 =
        ground (arith, valid.owned i, valid.ids_below i (omega arith)) in
      ballot_by-append t.votes k snap revision _ t.users (no_votes_by i snap revision t.votes fresh)

-- A client that is created or seen is known, and nobody's votes change.
pub ballots_of-create_or_seen :
    (s : Session) (hash : Text) (t : Tables)
    → IsValid t
    → ballots_of (create_or_seen s hash t).1
      ≡ (if s.answers upsert_user then see (char_store 64 hash) (ballots_of t) else ballots_of t)
unfolding create_or_seen ballots_of
ballots_of-create_or_seen s hash t valid = elim (Bool-cases (s.answers upsert_user)) [
  | inr off ↦ rw off refl
  | inl on ↦ elim (Option-cases (char_store 64 hash)) [
    | inl long ↦ rw (on, long) refl
    | inr (c, fits) ↦
        let o = find (has_hash c) t.users in
        rw (on, fits)
          (Ballots-ext _ _ (λ k. known-insert_user s c t o k refl)
            (λ k snap revision. ballot-insert_user s c t o k snap revision valid))
  ]
]
