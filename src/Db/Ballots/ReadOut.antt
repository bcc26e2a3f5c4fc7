-- ===== src/Db/Ballots/ReadOut.antt =====
-- `Vote::get_all_by_client_hash` of src/db/vote.rs: what a client reads of its ballots.
use mathlib.Core.List.{append-nil}
use app_center_ratings.Prelude.{
  ℕ, ◌≤◌, ◌≡◌, refl, ap, ◌∙◌, Bool, true, ◌&&◌, Option, none, some, List, [], ◌∷◌, ◌++◌, map, arith,
  ◌==◌, ==_iff, if◌then◌else◌, find, keep, count, length, Text, text_eq, text_eq_iff, Result, ok,
  err, ◌>>=◌, inl, inr, Bool-cases, Option-cases,
}
use app_center_ratings.Prelude.Int.{ℤ, pos, negsuc, pos_part, neg_part, ltb_ℤ}
use app_center_ratings.Db.Char.{char_eq_text}
use app_center_ratings.Db.Tables.{User, VoteRow, Tables, Session, select_user_votes}
use app_center_ratings.Db.User.{is_client}
use app_center_ratings.Db.Vote.{
  Vote, same_key, is_wanted, votes_of, decode_votes, join_votes, get_all_by_client_hash,
}
use app_center_ratings.Db.Deletion.{join_votes_unknown}
use app_center_ratings.Db.Invariant.{IsValid, has_hash, is_unchecked, is_short_hash}
use app_center_ratings.Db.Ballots.{Ballots, ballots_of, direction, selected}
use app_center_ratings.Db.Ballots.Keys.{selected_cases, selects_stored, selects}

-- The row as it is decoded, of a revision above zero.
abbrev vote_of_row : User → VoteRow → Vote
vote_of_row u v = record {
  client_hash = u.client_hash;
  snap_id = v.snap_id;
  snap_revision = pos_part v.snap_revision;
  vote_up = v.vote_up;
  timestamp = v.created;
}

decode_votes_total :
    (u : User) (vs : List VoteRow)
    → count is_unchecked vs ≡ 0
    → decode_votes u vs ≡ ok (map (vote_of_row u) vs)
unfolding decode_votes
decode_votes_total u [] h = refl
decode_votes_total u (v ∷ vs) h = ground (arith, decode_votes_total u vs)

count-keep_zero :
    (p q : VoteRow → Bool) (vs : List VoteRow) → count p vs ≡ 0 → count p (keep q vs) ≡ 0
count-keep_zero p q [] h = refl
count-keep_zero p q (v ∷ vs) h = ground (arith, count-keep_zero p q vs)

find-none_of_count : (p : User → Bool) (us : List User) → count p us ≡ 0 → find p us ≡ none
find-none_of_count p [] h = refl
find-none_of_count p (u ∷ us) h = ground (arith, find-none_of_count p us)

module _ {E A : Type 0} where
  bind-append_nil : (m : Result E (List A)) → (m >>= λ xs. ok (xs ++ [])) ≡ m
  bind-append_nil (ok xs) = ap ok (append-nil xs)
  bind-append_nil (err e) = refl

  bind-ok : (m : Result E A) → (m >>= λ x. ok x) ≡ m
  bind-ok (ok x) = refl
  bind-ok (err e) = refl

-- The one user of a hash reads its rows.
join_votes_one :
    (hash : Text) (filter : Option Text) (us : List User) (votes : List VoteRow) {u : User}
    → count (is_client hash) us ≤ 1
    → find (is_client hash) us ≡ some u
    → join_votes hash filter us votes ≡ decode_votes u (votes_of u filter votes)
unfolding join_votes
join_votes_one hash filter [] votes one e = absurd (ground arith)
join_votes_one hash filter (w ∷ us) votes {u} one e = elim (Bool-cases (is_client hash w)) [
  | inl this ↦
      let eq : w ≡ u = ground arith in
      let rest : find (is_client hash) us ≡ none =
        find-none_of_count (is_client hash) us (ground arith) in
      rw (this, join_votes_unknown hash filter us votes rest)
        (bind-append_nil (decode_votes w (votes_of w filter votes))
          ∙ ap (λ (x : User). decode_votes x (votes_of x filter votes)) eq)
  | inr other ↦
      let rest = join_votes_one hash filter us votes {u = u} (ground arith) (rw other at e) in
      rw other (bind-ok (join_votes hash filter us votes) ∙ rest)
]

-- The stored snap_ids that a filter lets through.
abbrev pub wants : Option Text → Text → Bool
wants none stored = true
wants (some snap_id) stored = char_eq_text stored snap_id

abbrev pub is_vote_on : Text → ℕ → Vote → Bool
is_vote_on snap revision v = text_eq v.snap_id snap && v.snap_revision == revision

abbrev pub way : Option Vote → Option Bool
way none = none
way (some v) = some v.vote_up

is_wanted-wants : (filter : Option Text) (v : VoteRow) → is_wanted filter v ≡ wants filter v.snap_id
is_wanted-wants none v = refl
is_wanted-wants (some s) v = refl

neg_part-positive : (z : ℤ) → ltb_ℤ (pos 0) z ≡ true → neg_part z ≡ 0
neg_part-positive (pos n) h = refl
neg_part-positive (negsuc n) h = absurd (ground arith)

way-votes_of :
    (u : User) (filter : Option Text) (k : Text) (r : ℕ) (vs : List VoteRow)
    → count is_unchecked vs ≡ 0
    → way (find (is_vote_on k r) (map (vote_of_row u) (votes_of u filter vs)))
      ≡ (if wants filter k then direction (find (same_key u.id k (pos r)) vs) else none)
way-votes_of u filter k r [] h = ground arith
way-votes_of u filter k r (v ∷ vs) h =
    let rest = way-votes_of u filter k r vs (ground arith) in
    let positive = neg_part-positive v.snap_revision (ground arith) in
    elim (Bool-cases (text_eq v.snap_id k)) [
      | inl same ↦
          let eq = (text_eq_iff v.snap_id k).0 same in
          let wanted : is_wanted filter v ≡ wants filter k =
            is_wanted-wants filter v ∙ ap (wants filter) eq in
          ground arith
      | inr other ↦ ground arith
    ]

count-votes_of :
    (u : User) (filter : Option Text) (k : Text) (r : ℕ) (vs : List VoteRow)
    → count is_unchecked vs ≡ 0
    → count (is_vote_on k r) (map (vote_of_row u) (votes_of u filter vs))
      ≤ count (same_key u.id k (pos r)) vs
count-votes_of u filter k r [] h = omega arith
count-votes_of u filter k r (v ∷ vs) h =
    let rest = count-votes_of u filter k r vs (ground arith) in
    let positive = neg_part-positive v.snap_revision (ground arith) in ground arith

count-selected :
    (hash : Text) (us : List User)
    → count is_short_hash us ≡ 0
    → count (is_client hash) us ≡ count (λ u. selects (selected hash) u.client_hash) us
count-selected hash [] full = refl
count-selected hash (u ∷ us) full =
    let width : length u.client_hash ≡ 64 = ground (arith, ==_iff (length u.client_hash) 64) in
    ground (arith, selects_stored hash u.client_hash width, count-selected hash us)

abbrev pub ballot_for : Option Text → Ballots → Text → ℤ → Option Bool
ballot_for none b snap revision = none
ballot_for (some c) b snap revision = b.ballot c snap revision

-- What is read is one vote for each ballot of the client, and no other.
pub record Reads (hash : Text) (filter : Option Text) (b : Ballots) (votes : List Vote)
    : Type 0 where
  pub says :
      (snap : Text) (revision : ℕ)
      → way (find (is_vote_on snap revision) votes)
        ≡ (if wants filter snap then ballot_for (selected hash) b snap (pos revision) else none)
  pub once : (snap : Text) (revision : ℕ) → count (is_vote_on snap revision) votes ≤ 1

no_vote-Reads :
    (hash : Text) (filter : Option Text) (b : Ballots)
    → ((snap : Text) (revision : ℕ) → ballot_for (selected hash) b snap (pos revision) ≡ none)
    → Reads hash filter b []
no_vote-Reads hash filter b nothing = record {
  says = λ snap revision. ground (arith, nothing snap revision);
  once = λ snap revision. omega arith;
}

-- In valid tables and over a server that answers, the votes of a client are read without an
-- error, and are its ballots: on each snap_id, if it is the one that is asked for or none is,
-- and each revision one vote is read where the client has a ballot, with the way it was cast,
-- and none where it has not; on any other snap_id none is read.
pub get_all_by_client_hash-Reads :
    (s : Session) (hash : Text) (filter : Option Text) (t : Tables)
    → IsValid t
    → s.answers select_user_votes ≡ true
    → (votes : List Vote) × (get_all_by_client_hash s hash filter t ≡ ok votes)
      × Reads hash filter (ballots_of t) votes
unfolding get_all_by_client_hash ballots_of
get_all_by_client_hash-Reads s hash filter t valid on = elim (selected_cases hash t valid) [
  | inr (nobody, unknown) ↦ (
    [],
    rw (on, join_votes_unknown hash filter t.users t.votes unknown) refl,
    no_vote-Reads hash filter _ (λ snap revision. rw nobody refl),
  )
  | inl (c, one, same) ↦ elim (Option-cases (find (has_hash c) t.users)) [
    | inl unknown ↦ (
      [],
      rw (on, join_votes_unknown hash filter t.users t.votes (same ∙ unknown)) refl,
      no_vote-Reads hash filter _ (λ snap revision. rw one (rw unknown refl)),
    )
    | inr (u, found) ↦
        let single : count (is_client hash) t.users ≤ 1 =
          rw (count-selected hash t.users valid.full_hash, one) (valid.one_per_hash c) in
        let joined = join_votes_one hash filter t.users t.votes {u = u} single (same ∙ found) in
        let checked = count-keep_zero is_unchecked _ t.votes valid.checked in
        (
          map (vote_of_row u) (votes_of u filter t.votes),
          rw (on, joined, decode_votes_total u (votes_of u filter t.votes) checked) refl,
          record {
            says = λ snap revision.
                way-votes_of u filter snap revision t.votes valid.checked ∙ rw one (rw found refl);
            once = λ snap revision. omega (
              arith,
              count-votes_of u filter snap revision t.votes valid.checked,
              valid.one_per_key u.id snap (pos revision),
            );
          },
        )
  ]
]
