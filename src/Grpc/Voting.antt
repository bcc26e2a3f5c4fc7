-- ===== src/Grpc/Voting.antt =====
-- What the handler `vote` of src/grpc/user.rs does to the counts of the ratings.
pub mod Answers
use app_center_ratings.Prelude.{
  ℕ, ◌≡◌, refl, ap, ◌∙◌, ◌+◌, Bool, true, false, Option, none, some, List, [], ◌∷◌, if◌then◌else◌,
  Bool-cases, inl, inr, ◌⊎◌, ◌≢◌, map_err, find, Text, text_eq, Result, ok, err,
}
use app_center_ratings.Prelude.Int.{as_u32}
use app_center_ratings.Auth.Status.{no_answer, status, internal}
use app_center_ratings.Auth.Jwt.{Claims}
use app_center_ratings.Auth.Middleware.{Request}
use app_center_ratings.Db.Category.{Category}
use app_center_ratings.Db.Char.{char_store}
use app_center_ratings.Db.Tables.{User, Tables, Session, DbError, insert_categories}
use app_center_ratings.Db.User.{is_client}
use app_center_ratings.Db.Vote.{Vote, save_to_db}
use app_center_ratings.Db.Summary.{total_of, positive_of}
use app_center_ratings.Db.SnapCategories.{snap_has_categories, insert_rows, set_categories_for_snap}
use app_center_ratings.Db.Casting.{IsAccepted, previous, added, replaced, bit, save_to_db-counts}
use app_center_ratings.Ratings.SnapcraftIo.{RatingsError, Names}
use app_center_ratings.Ratings.Update.{
  OtherUpdate, nobody, notifies, never_notifies, Stores, set_fetched, update_missing,
  update_categories_inner, update_categories,
}
use app_center_ratings.Grpc.Access.{take_claims}
use app_center_ratings.Grpc.World.{World, Env, conn}
use app_center_ratings.Grpc.User.{VoteRequest, try_update_categories, vote}

-- The users and the votes of two states of the tables are the same.
pub record SameVotes (t t' : Tables) : Type 0 where
  pub same_users : t'.users ≡ t.users
  pub same_votes : t'.votes ≡ t.votes

unchanged : (t : Tables) → SameVotes t t
unchanged t = record { same_users = refl; same_votes = refl }

insert_rows-SameVotes :
    (snap : Option Text) (cs : List Category) (t : Tables) → SameVotes t (insert_rows snap cs t).1
insert_rows-SameVotes snap [] t = unchanged t
insert_rows-SameVotes none (c ∷ cs) t = unchanged t
insert_rows-SameVotes (some snap) (c ∷ cs) t = record { same_users = refl; same_votes = refl }

set_categories-SameVotes :
    (s : Session) (snap_id : Text) (cs : List Category) (t : Tables)
    → SameVotes t (set_categories_for_snap s snap_id cs t).1
unfolding set_categories_for_snap
set_categories-SameVotes s snap_id cs t = elim (Bool-cases (s.answers insert_categories)) [
  | inr off ↦ rw off (unchanged t)
  | inl on ↦ rw on (insert_rows-SameVotes (char_store 32 snap_id) cs t)
]

module _ (env : Env) (snap_id : Text) where
  set_fetched-SameVotes :
      (st : Stores) (r : Result RatingsError (List Category)) (names : Names)
      → SameVotes st.tables
          (set_fetched env.web env.snapcraft_io_uri env.session snap_id st (r, names)).1.tables
  set_fetched-SameVotes st (err e) names = unchanged st.tables
  set_fetched-SameVotes st (ok []) names = unchanged st.tables
  set_fetched-SameVotes st (ok (c ∷ cs)) names =
      set_categories-SameVotes env.session snap_id (c ∷ cs) st.tables

  update_missing-SameVotes :
      (other : OtherUpdate) (r : Result DbError Bool) (st : Stores)
      → SameVotes st.tables
          (update_missing env.web env.snapcraft_io_uri env.session snap_id other r st).1.tables
  unfolding update_categories_inner
  update_missing-SameVotes other (err e) st = unchanged st.tables
  update_missing-SameVotes other (ok true) st = unchanged st.tables
  update_missing-SameVotes notifies (ok false) st = unchanged st.tables
  update_missing-SameVotes never_notifies (ok false) st = unchanged st.tables
  update_missing-SameVotes nobody (ok false) st = set_fetched-SameVotes st _ _

  module _ {F32 : Type 0} where
    abbrev pub updated : World F32 → Tables
    updated w = (try_update_categories env snap_id w).1.stores.tables

    -- The update returns, unless another task is at it and never notifies.
    pub try_update_cases :
        (w : World F32)
        → ((try_update_categories env snap_id w).0 ≡ ok tt)
          ⊎ ((env.other_update snap_id ≡ never_notifies)
              × (snap_has_categories env.session snap_id w.stores.tables ≡ ok false)
              × (try_update_categories env snap_id w ≡ (err no_answer, w)))
    unfolding try_update_categories update_categories
    try_update_cases w =
        cases (env.other_update snap_id) (snap_has_categories env.session snap_id w.stores.tables)
          refl refl
      where
        cases :
            (other : OtherUpdate) (r : Result DbError Bool)
            → env.other_update snap_id ≡ other
            → snap_has_categories env.session snap_id w.stores.tables ≡ r
            → ((try_update_categories env snap_id w).0 ≡ ok tt)
              ⊎ ((env.other_update snap_id ≡ never_notifies)
                  × (snap_has_categories env.session snap_id w.stores.tables ≡ ok false)
                  × (try_update_categories env snap_id w ≡ (err no_answer, w)))
        cases other (err e) eo er = inl (rw er refl)
        cases other (ok true) eo er = inl (rw er refl)
        cases nobody (ok false) eo er = inl (rw (eo, er) refl)
        cases notifies (ok false) eo er = inl (rw (eo, er) refl)
        cases never_notifies (ok false) eo er = inr (eo, er, rw (eo, er) refl)

    pub try_update_returns :
        (w : World F32)
        → env.other_update snap_id ≢ never_notifies
        → (try_update_categories env snap_id w).0 ≡ ok tt
    try_update_returns w ends = elim (try_update_cases w) [
      | inl returns ↦ returns
      | inr (never, _, _) ↦ absurd (ends never)
    ]

    pub try_update-SameVotes : (w : World F32) → SameVotes w.stores.tables (updated w)
    unfolding try_update_categories update_categories
    try_update-SameVotes w = update_missing-SameVotes (env.other_update snap_id) _ w.stores

pub conn_works :
    {F32 : Type 0} (env : Env) (w : World F32) → env.connection ≡ ok tt → conn env w ≡ (ok tt, w)
unfolding conn
conn_works env w connected =
    ap (λ r. (map_err (λ e. status internal (env.to_string e)) r, w)) connected

-- The vote that the handler makes of the claims and the request's body.
abbrev pub vote_of : Env → Claims → VoteRequest → Vote
vote_of env claims body = record {
  client_hash = claims.sub;
  snap_id = body.snap_id;
  snap_revision = as_u32 body.snap_revision;
  vote_up = body.vote_up;
  timestamp = env.session.now;
}

module _ {F32 H : Type 0} (env : Env) (request : Request H VoteRequest) (claims : Claims)
    (w : World F32) where
  abbrev pub saved : Result DbError ℕ × Tables
  saved =
      save_to_db env.session (vote_of env claims request.body) (updated env request.body.snap_id w)

  pub vote_saves :
      request.claims ≡ some claims
      → env.connection ≡ ok tt
      → (try_update_categories env request.body.snap_id w).0 ≡ ok tt
      → saved.0 ≡ ok 1
      → ((vote env request w).0 ≡ ok tt) × ((vote env request w).1.stores.tables ≡ saved.1)
  unfolding vote take_claims
  vote_saves carried connected returns done =
      rw carried (rw (conn_works env w connected) (rw (returns, done) (refl, refl)))

  -- A vote request of a verified client whose user is there, on a snap_id that fits and a
  -- revision above zero, over a working connection, is answered with success whether or not
  -- the snap's categories could be updated before it, unless it waits for another task's
  -- update that never notifies it. The votes on the snap grow by one unless the client has
  -- voted on that revision before, whose up vote is then taken back, and the up votes grow by
  -- this one.
  pub vote-counts :
      {u : User} {snap : Text}
      → request.claims ≡ some claims
      → env.connection ≡ ok tt
      → env.other_update request.body.snap_id ≢ never_notifies
      → IsAccepted env.session (vote_of env claims request.body) w.stores.tables u snap
      → (k : Text)
      → ((vote env request w).0 ≡ ok tt)
        × (total_of k (vote env request w).1.stores.tables.votes
            ≡ total_of k w.stores.tables.votes
              + (if text_eq snap k
                  then added (previous (vote_of env claims request.body) w.stores.tables u snap)
                  else 0))
        × (positive_of k (vote env request w).1.stores.tables.votes
              + (if text_eq snap k
                  then replaced (previous (vote_of env claims request.body) w.stores.tables u snap)
                  else 0)
            ≡ positive_of k w.stores.tables.votes
              + (if text_eq snap k then bit request.body.vote_up else 0))
  vote-counts {u} {snap} carried connected ends a k =
      let t' = updated env request.body.snap_id w in
      let same = try_update-SameVotes env request.body.snap_id w in
      let a' : IsAccepted env.session (vote_of env claims request.body) t' u snap = record {
        answered = a.answered;
        known = ap (find (is_client claims.sub)) same.same_users ∙ a.known;
        fits = a.fits;
        above = a.above;
      } in
      let (done, total, positive) =
        save_to_db-counts env.session (vote_of env claims request.body) t' a' k in
      let returns = try_update_returns env request.body.snap_id w ends in
      let (answer, tables) = vote_saves carried connected returns done in
      (
        answer,
        rw (tables) (rw same.same_votes at total),
        rw (tables) (rw same.same_votes at positive),
      )
