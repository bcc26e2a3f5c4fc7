-- ===== src/Db/Casting.antt =====
-- What `save_to_db` of src/db/vote.rs does to the counts that the ratings are made from.
use app_center_ratings.Prelude.{
  ℕ, ◌+◌, ◌≡◌, refl, Bool, true, false, ◌&&◌, Option, none, some, List, [], ◌∷◌, arith,
  if◌then◌else◌, find, Text, text_eq, text_eq_iff, ok, count-append, inl, inr, Bool-cases,
}
use app_center_ratings.Prelude.Int.{ℤ, pos, ltb_ℤ, as_i32}
use app_center_ratings.Db.Char.{char_store}
use app_center_ratings.Db.Tables.{User, VoteRow, Tables, Session, upsert_vote}
use app_center_ratings.Db.User.{is_client}
use app_center_ratings.Db.Vote.{
  Vote, same_key, change_vote, new_row, place_vote, insert_vote, save_to_db,
}
use app_center_ratings.Db.Summary.{is_for, total_of, positive_of}
use app_center_ratings.Db.Invariant.{count-change_vote}

-- One for an up vote.
abbrev pub bit : Bool → ℕ
bit true = 1
bit false = 0

-- The votes that the new one comes in addition to, and the up votes that it takes the place of.
abbrev pub added : Option VoteRow → ℕ
added none = 1
added (some v) = 0

abbrev pub replaced : Option VoteRow → ℕ
replaced none = 0
replaced (some v) = bit v.vote_up

-- A vote that the server takes: it answers, the user is there, the snap_id fits and the revision is
-- above zero.
pub record IsAccepted (s : Session) (vote : Vote) (t : Tables) (u : User) (snap : Text)
    : Type 0 where
  pub answered : s.answers upsert_vote ≡ true
  pub known : find (is_client vote.client_hash) t.users ≡ some u
  pub fits : char_store 32 vote.snap_id ≡ some snap
  pub above : ltb_ℤ (pos 0) (as_i32 vote.snap_revision) ≡ true

-- The row that the vote conflicts with.
abbrev pub previous : Vote → Tables → User → Text → Option VoteRow
previous vote t u snap = find (same_key u.id snap (as_i32 vote.snap_revision)) t.votes

pub save_to_db_accepted :
    (s : Session) (vote : Vote) (t : Tables) {u : User} {snap : Text}
    → IsAccepted s vote t u snap
    → save_to_db s vote t ≡ (
      ok 1,
      place_vote s u.id snap (as_i32 vote.snap_revision) vote.vote_up (previous vote t u snap) t,
    )
unfolding save_to_db insert_vote
save_to_db_accepted s vote t a = rw (a.answered, a.known, a.fits, a.above) refl

change_vote-positive :
    (user : ℕ) (snap : Text) (revision : ℤ) (up : Bool) (k : Text) (vs : List VoteRow) (w : VoteRow)
    → find (same_key user snap revision) vs ≡ some w
    → positive_of k (change_vote user snap revision up vs)
        + (if text_eq snap k then bit w.vote_up else 0)
      ≡ positive_of k vs + (if text_eq snap k then bit up else 0)
unfolding change_vote
change_vote-positive user snap revision up k [] w e = ground arith
change_vote-positive user snap revision up k (v ∷ vs) w e =
    elim (Bool-cases (same_key user snap revision v)) [
      | inl this ↦
          let es : v.snap_id ≡ snap = ground (arith, text_eq_iff v.snap_id snap) in
          let ev : v.vote_up ≡ w.vote_up = ground arith in rw this (ground arith)
      | inr later ↦
          let rest = change_vote-positive user snap revision up k vs w (rw later at e) in
          rw later (ground arith)
    ]

module _ (s : Session) (u : User) (snap : Text) (revision : ℤ) (up : Bool) (k : Text)
    (t : Tables) where
  place_vote-total :
      (o : Option VoteRow)
      → total_of k (place_vote s u.id snap revision up o t).votes
        ≡ total_of k t.votes + (if text_eq snap k then added o else 0)
  unfolding place_vote
  place_vote-total none =
      ground (arith, count-append (is_for k) t.votes (new_row s u.id snap revision up t ∷ []))
  place_vote-total (some w) =
      ground (arith, count-change_vote (is_for k) u.id snap revision up t.votes (λ v. refl))

  place_vote-positive :
      (o : Option VoteRow)
      → find (same_key u.id snap revision) t.votes ≡ o
      → positive_of k (place_vote s u.id snap revision up o t).votes
          + (if text_eq snap k then replaced o else 0)
        ≡ positive_of k t.votes + (if text_eq snap k then bit up else 0)
  unfolding place_vote
  place_vote-positive none e = ground (
    arith,
    count-append (λ v. is_for k v && v.vote_up) t.votes (new_row s u.id snap revision up t ∷ []),
  )
  place_vote-positive (some w) e = change_vote-positive u.id snap revision up k t.votes w e

-- A vote that is accepted, since the server answers, the user is there, the snap_id fits and the
-- revision is above zero, affects one row. It adds one to the total of its snap, unless the user
-- has voted on that revision before: then the total stays, and only the direction of that vote
-- is replaced in the positive count. No other snap's counts change.
pub save_to_db-counts :
    (s : Session) (vote : Vote) (t : Tables) {u : User} {snap : Text}
    → IsAccepted s vote t u snap
    → (k : Text)
    → ((save_to_db s vote t).0 ≡ ok 1)
      × (total_of k (save_to_db s vote t).1.votes
          ≡ total_of k t.votes + (if text_eq snap k then added (previous vote t u snap) else 0))
      × (positive_of k (save_to_db s vote t).1.votes
            + (if text_eq snap k then replaced (previous vote t u snap) else 0)
          ≡ positive_of k t.votes + (if text_eq snap k then bit vote.vote_up else 0))
save_to_db-counts s vote t {u} {snap} a k =
    let revision = as_i32 vote.snap_revision in
    rw (save_to_db_accepted s vote t a) (
      refl,
      place_vote-total s u snap revision vote.vote_up k t (previous vote t u snap),
      place_vote-positive s u snap revision vote.vote_up k t (previous vote t u snap) refl,
    )
