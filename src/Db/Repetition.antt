-- ===== src/Db/Repetition.antt =====
-- `save_to_db` of src/db/vote.rs on every branch, and called once more with the same vote.
use app_center_ratings.Prelude.{
  ℕ, ◌≡◌, refl, ap, ◌∙◌, Bool, true, Option, none, some, List, [], ◌∷◌, ◌++◌, arith, find, false,
  Text, text_eq_refl, ok, err, find-append, inl, inr, Bool-cases, Option-cases,
}
use app_center_ratings.Prelude.Int.{ℤ, pos, ltb_ℤ, as_i32}
use app_center_ratings.Db.Char.{char_store}
use app_center_ratings.Db.Tables.{User, VoteRow, Tables, Session, failed_to_cast_vote, upsert_vote}
use app_center_ratings.Db.User.{is_client}
use app_center_ratings.Db.Vote.{
  Vote, same_key, change_vote, new_row, place_vote, insert_vote, save_to_db,
}
use app_center_ratings.Db.Rows.{SameRows, same_rows, draw_id-SameRows, save_to_db_unknown}
use app_center_ratings.Db.Casting.{IsAccepted, previous, save_to_db_accepted}

module _ (user : ℕ) (snap : Text) (revision : ℤ) (up : Bool) where
  -- The votes hold this one already.
  record Holds (vs : List VoteRow) : Type 0 where
    row : VoteRow
    there : find (same_key user snap revision) vs ≡ some row
    settled : change_vote user snap revision up vs ≡ vs
    way : row.vote_up ≡ up

  Holds-change_vote :
      (vs : List VoteRow) {w : VoteRow}
      → find (same_key user snap revision) vs ≡ some w
      → Holds (change_vote user snap revision up vs)
  unfolding change_vote
  Holds-change_vote [] e = absurd (ground arith)
  Holds-change_vote (v ∷ vs) {w} e = elim (Bool-cases (same_key user snap revision v)) [
    | inl this ↦
        rw this (record {
          row = record v { vote_up = up };
          there = rw this;
          settled = rw this;
          way = refl;
        })
    | inr later ↦
        let rest = Holds-change_vote vs {w = w} (rw later at e) in
        rw later (record {
          row = rest.row;
          there = rw later rest.there;
          settled = rw later (ap (◌∷◌ v) rest.settled);
          way = rest.way;
        })
  ]

  change_vote-append :
      (vs : List VoteRow) (v : VoteRow)
      → find (same_key user snap revision) vs ≡ none
      → same_key user snap revision v ≡ true
      → change_vote user snap revision up (vs ++ v ∷ []) ≡ vs ++ record v { vote_up = up } ∷ []
  unfolding change_vote
  change_vote-append [] v e this = rw this
  change_vote-append (w ∷ vs) v e this = ground (arith, change_vote-append vs v)

  Holds-place_vote :
      (s : Session) (o : Option VoteRow) (t : Tables)
      → find (same_key user snap revision) t.votes ≡ o
      → Holds (place_vote s user snap revision up o t).votes
  unfolding place_vote
  Holds-place_vote s (some w) t e = Holds-change_vote t.votes e
  Holds-place_vote s none t e =
      let new = new_row s user snap revision up t in
      let own : same_key user snap revision new ≡ true = ground (arith, text_eq_refl snap) in
      record {
        row = new;
        there = find-append (same_key user snap revision) t.votes (new ∷ []) e ∙ rw own;
        settled = change_vote-append t.votes new e own;
        way = refl;
      }

-- How the call ends.
pub data SaveEnds (s : Session) (vote : Vote) (t : Tables) : Type 0 where
  saved :
      (u : User) (snap : Text) (row : VoteRow)
      → IsAccepted s vote t u snap
      → (save_to_db s vote t).0 ≡ ok 1
      → find (same_key u.id snap (as_i32 vote.snap_revision)) (save_to_db s vote t).1.votes
        ≡ some row
      → row.vote_up ≡ vote.vote_up
      → SaveEnds s vote t
  refused :
      ((u : User) (snap : Text) → ¬ IsAccepted s vote t u snap)
      → (save_to_db s vote t).0 ≡ err failed_to_cast_vote
      → SameRows t (save_to_db s vote t).1
      → SaveEnds s vote t

save_to_db-off :
    (s : Session) (vote : Vote) (t : Tables)
    → s.answers upsert_vote ≡ false
    → ((save_to_db s vote t).0 ≡ err failed_to_cast_vote) × SameRows t (save_to_db s vote t).1
unfolding save_to_db
save_to_db-off s vote t off = rw off (refl, same_rows t)

save_to_db_long :
    (s : Session) (vote : Vote) (t : Tables)
    → char_store 32 vote.snap_id ≡ none
    → ((save_to_db s vote t).0 ≡ err failed_to_cast_vote) × SameRows t (save_to_db s vote t).1
unfolding save_to_db insert_vote
save_to_db_long s vote t long = elim (Bool-cases (s.answers upsert_vote)) [
  | inr off ↦ rw off (refl, same_rows t)
  | inl on ↦ rw (on, long) (refl, same_rows t)
]

save_to_db_unchecked :
    (s : Session) (vote : Vote) (t : Tables) {u : User} {snap : Text}
    → find (is_client vote.client_hash) t.users ≡ some u
    → char_store 32 vote.snap_id ≡ some snap
    → ltb_ℤ (pos 0) (as_i32 vote.snap_revision) ≡ false
    → ((save_to_db s vote t).0 ≡ err failed_to_cast_vote) × SameRows t (save_to_db s vote t).1
unfolding save_to_db insert_vote
save_to_db_unchecked s vote t known fits below = elim (Bool-cases (s.answers upsert_vote)) [
  | inr off ↦ rw off (refl, same_rows t)
  | inl on ↦ rw (on, known, fits, below) (refl, draw_id-SameRows t)
]

save_to_db_saved :
    (s : Session) (vote : Vote) (t : Tables) {u : User} {snap : Text}
    → IsAccepted s vote t u snap
    → SaveEnds s vote t
save_to_db_saved s vote t {u} {snap} a =
    let done = save_to_db_accepted s vote t a in
    let held =
      Holds-place_vote u.id snap (as_i32 vote.snap_revision) vote.vote_up s (previous vote t u snap)
        t refl in
    saved u snap held.row a (rw done refl) (rw done held.there) held.way

-- A vote ends in one of two ways. It is accepted, as the server answers, the user is there, the
-- snap_id fits and the revision is above zero: then the call affects one row, and the votes hold
-- a row of that user, snap and revision with the direction of the vote. Or it is not, and the
-- call fails with `FailedToCastVote` and leaves the rows of all tables as they are.
pub save_to_db-SaveEnds : (s : Session) (vote : Vote) (t : Tables) → SaveEnds s vote t
save_to_db-SaveEnds s vote t = elim (Bool-cases (s.answers upsert_vote)) [
  | inr off ↦
      let (failed, same) = save_to_db-off s vote t off in
      refused (λ u snap a. ground (arith, a.answered)) failed same
  | inl on ↦ elim (Option-cases (find (is_client vote.client_hash) t.users)) [
    | inl unknown ↦
        let (failed, same) = save_to_db_unknown s vote t unknown in
        refused (λ u snap a. ground (arith, a.known)) failed same
    | inr (u, known) ↦ elim (Option-cases (char_store 32 vote.snap_id)) [
      | inl long ↦
          let (failed, same) = save_to_db_long s vote t long in
          refused (λ u snap a. ground (arith, a.fits)) failed same
      | inr (snap, fits) ↦ elim (Bool-cases (ltb_ℤ (pos 0) (as_i32 vote.snap_revision))) [
        | inl above ↦
            save_to_db_saved s vote t
              (record { answered = on; known = known; fits = fits; above = above })
        | inr below ↦
            let (failed, same) = save_to_db_unchecked s vote t known fits below in
            refused (λ u snap a. ground (arith, a.above)) failed same
      ]
    ]
  ]
]

pub users-place_vote :
    (s : Session) (user : ℕ) (snap : Text) (revision : ℤ) (up : Bool) (o : Option VoteRow)
    (t : Tables)
    → (place_vote s user snap revision up o t).users ≡ t.users
unfolding place_vote
users-place_vote s user snap revision up (some w) t = refl
users-place_vote s user snap revision up none t = refl

Holds-place_vote_again :
    (s : Session) (user : ℕ) (snap : Text) (revision : ℤ) (up : Bool) (t : Tables)
    → Holds user snap revision up t.votes
    → (place_vote s user snap revision up (find (same_key user snap revision) t.votes) t).votes
      ≡ t.votes
unfolding place_vote
Holds-place_vote_again s user snap revision up t h = rw h.there h.settled

-- A vote that was accepted and is cast again over a server that answers is accepted again, and
-- leaves every vote as it is: no second row, no new time and no other direction.
pub save_to_db_again :
    (s later : Session) (vote : Vote) (t : Tables) {u : User} {snap : Text}
    → IsAccepted s vote t u snap
    → later.answers upsert_vote ≡ true
    → ((save_to_db later vote (save_to_db s vote t).1).0 ≡ ok 1)
      × ((save_to_db later vote (save_to_db s vote t).1).1.votes ≡ (save_to_db s vote t).1.votes)
save_to_db_again s later vote t {u} {snap} a on =
    let revision = as_i32 vote.snap_revision in
    let t' = place_vote s u.id snap revision vote.vote_up (previous vote t u snap) t in
    let users = users-place_vote s u.id snap revision vote.vote_up (previous vote t u snap) t in
    let again : IsAccepted later vote t' u snap = record {
      answered = on;
      known = rw users a.known;
      fits = a.fits;
      above = a.above;
    } in
    let held = Holds-place_vote u.id snap revision vote.vote_up s (previous vote t u snap) t refl in
    rw (save_to_db_accepted s vote t a) (
      rw (save_to_db_accepted later vote t' again)
        (refl, Holds-place_vote_again later u.id snap revision vote.vote_up t' held))
