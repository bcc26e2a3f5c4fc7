-- ===== src/Db/Ballots.antt =====
-- What src/db promises of users and votes, whatever rows it keeps: who is known, and which way each
-- client has voted on each revision of each snap.
pub mod Keys
pub mod Users
pub mod Votes
pub mod Deleted
pub mod Refinement
pub mod ReadOut
use app_center_ratings.Prelude.{
  ℕ, Bool, true, false, ◌&&◌, Option, none, some, List, [], ◌∷◌, if◌then◌else◌, find, Text, text_eq,
}
use app_center_ratings.Prelude.Int.{ℤ, pos, as_i32, eqb_ℤ, ltb_ℤ}
use app_center_ratings.Db.Category.{Category}
use app_center_ratings.Db.Char.{char_store, rtrim}
use app_center_ratings.Db.Tables.{
  User, VoteRow, Tables, Session, upsert_user, delete_user, upsert_vote,
}
use app_center_ratings.Db.Vote.{Vote, same_key}
use app_center_ratings.Db.Invariant.{has_hash}
use app_center_ratings.Db.Invariant.Runs.{Call, see_user, delete_client, cast_vote, set_categories}

-- By the stored hash of the client, and of a vote by the stored snap_id and the revision too.
pub record Ballots : Type 0 where
  pub known : Text → Bool
  pub ballot : Text → Text → ℤ → Option Bool

abbrev pub is_there {ℓ} : {A : Type ℓ} → Option A → Bool
is_there none = false
is_there (some a) = true

abbrev pub direction : Option VoteRow → Option Bool
direction none = none
direction (some v) = some v.vote_up

abbrev pub ballot_by : Option User → List VoteRow → Text → ℤ → Option Bool
ballot_by none votes snap revision = none
ballot_by (some u) votes snap revision = direction (find (same_key u.id snap revision) votes)

-- What the tables say.
unfoldable pub ballots_of : Tables → Ballots
ballots_of t = record {
  known = λ hash. is_there (find (has_hash hash) t.users);
  ballot = λ hash snap revision. ballot_by (find (has_hash hash) t.users) t.votes snap revision;
}

-- The stored hash that `WHERE client_hash = $1` selects, if any can.
unfoldable pub selected : Text → Option Text
selected hash = if text_eq (rtrim hash) hash then char_store 64 hash else none

abbrev pub see : Option Text → Ballots → Ballots
see none b = b
see (some c) b = record b { known = λ hash. if text_eq c hash then true else b.known hash }

abbrev pub forget : Option Text → Ballots → Ballots
forget none b = b
forget (some c) b = record {
  known = λ hash. if text_eq c hash then false else b.known hash;
  ballot = λ hash snap revision. if text_eq c hash then none else b.ballot hash snap revision;
}

abbrev pub cast : Option Text → Option Text → ℤ → Bool → Ballots → Ballots
cast none snap revision up b = b
cast (some c) none revision up b = b
cast (some c) (some k) revision up b =
    if b.known c && ltb_ℤ (pos 0) revision
    then record b {
      ballot = λ hash snap r.
          if text_eq c hash && (text_eq k snap && eqb_ℤ revision r)
          then some up
          else b.ballot hash snap r;
    }
    else b

-- A call on the ballots: a statement that the server does not answer does nothing.
abbrev pub play_call : Call → Ballots → Ballots
play_call (see_user s hash) b = if s.answers upsert_user then see (char_store 64 hash) b else b
play_call (delete_client s hash) b = if s.answers delete_user then forget (selected hash) b else b
play_call (cast_vote s vote) b =
    if s.answers upsert_vote
    then cast (selected vote.client_hash) (char_store 32 vote.snap_id) (as_i32 vote.snap_revision)
        vote.vote_up b
    else b
play_call (set_categories s snap_id categories) b = b

abbrev pub play_calls : List Call → Ballots → Ballots
play_calls [] b = b
play_calls (c ∷ cs) b = play_calls cs (play_call c b)

-- Nobody is known and nobody has voted.
abbrev pub no_ballots : Ballots
no_ballots = record { known = λ hash. false; ballot = λ hash snap revision. none }
