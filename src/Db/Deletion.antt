-- ===== src/Db/Deletion.antt =====
-- What is left of a client after `User::delete_by_client_hash` of src/db/user.rs.
use app_center_ratings.Prelude.{
  ◌+◌, ◌≡◌, ◌≤◌, refl, sym, ap, ◌∙◌, Bool, true, false, not, ◌&&◌, ◌==◌, ==_iff, Option, none, some,
  List, [], ◌∷◌, arith, any, keep, find, find_sound, count, length, Text, ok, err, count-keep_split,
  find-keep_others, inl, inr, Bool-cases, Option-cases,
}
use app_center_ratings.Db.Invariant.{IsValid, is_short_hash}
use app_center_ratings.Db.Ballots.{selected}
use app_center_ratings.Db.Ballots.Keys.{find_unique, selects, selects_stored}
use app_center_ratings.Db.Ballots.Deleted.{any→find}
use app_center_ratings.Db.Tables.{
  User, VoteRow, Tables, Session, failed_to_cast_vote, delete_user, select_user_votes,
}
use app_center_ratings.Db.User.{is_client, loses_user, delete_by_client_hash}
use app_center_ratings.Db.Rows.{SameRows, save_to_db_unknown}
use app_center_ratings.Db.Vote.{Vote, save_to_db, join_votes, get_all_by_client_hash}
use app_center_ratings.Db.Summary.{total_of, positive_of, is_for}

pub join_votes_unknown :
    (hash : Text) (filter : Option Text) (us : List User) (votes : List VoteRow)
    → find (is_client hash) us ≡ none
    → join_votes hash filter us votes ≡ ok []
unfolding join_votes
join_votes_unknown hash filter [] votes e = refl
join_votes_unknown hash filter (u ∷ us) votes e =
    ground (arith, join_votes_unknown hash filter us votes)

-- Once a client is deleted by a server that answers, it has no votes to read, and a vote in its
-- name, as with a token that is still valid, fails and leaves the rows of all tables as they
-- are, until the client authenticates again.
pub delete-forgets :
    (s : Session) (hash : Text) (t : Tables)
    → s.answers delete_user ≡ true
    → (later : Session) (filter : Option Text) (vote : Vote)
    → later.answers select_user_votes ≡ true
    → vote.client_hash ≡ hash
    → (get_all_by_client_hash later hash filter (delete_by_client_hash s hash t).1 ≡ ok [])
      × ((save_to_db later vote (delete_by_client_hash s hash t).1).0 ≡ err failed_to_cast_vote)
      × SameRows
          (delete_by_client_hash s hash t).1
          (save_to_db later vote (delete_by_client_hash s hash t).1).1
unfolding delete_by_client_hash get_all_by_client_hash
delete-forgets s hash t on later filter vote reads mine =
    let gone = find-keep_others (is_client hash) t.users in
    let (failed, same) = save_to_db_unknown later vote _ (rw mine gone) in
    rw (on, reads) (rw (join_votes_unknown hash filter _ _ gone) refl, failed, same)

-- One client has the hash at most.
count-is_client : (hash : Text) (t : Tables) → IsValid t → count (is_client hash) t.users ≤ 1
count-is_client hash t valid =
    let by_key = count-selected hash t.users valid.full_hash in
    elim (Option-cases (selected hash)) [
      | inl nobody ↦ rw (by_key, nobody) (count_nothing t.users)
      | inr (c, one) ↦ rw (by_key, one) (valid.one_per_hash c)
    ]
  where
    count-selected :
        (hash : Text) (us : List User)
        → count is_short_hash us ≡ 0
        → count (is_client hash) us ≡ count (λ u. selects (selected hash) u.client_hash) us
    count-selected hash [] full = refl
    count-selected hash (u ∷ us) full =
        let width : length u.client_hash ≡ 64 = ground (arith, ==_iff (length u.client_hash) 64) in
        ground (arith, selects_stored hash u.client_hash width, count-selected hash us)

    count_nothing : (us : List User) → count (λ u. false) us ≤ 1
    count_nothing [] = omega arith
    count_nothing (u ∷ us) = count_nothing us

find→any :
    {A : Type 0} (p q : A → Bool) (xs : List A) {x : A}
    → find p xs ≡ some x
    → q x ≡ true
    → any q xs ≡ true
find→any p q [] e h = absurd (ground arith)
find→any p q (y ∷ xs) {x} e h = elim (Bool-cases (p y)) [
  | inl this ↦ let eq : y ≡ x = ground arith in rw (ap q eq ∙ h) refl
  | inr other ↦ let rest = find→any p q xs {x = x} (rw other at e) h in ground arith
]

-- The votes that go are those of the user that the hash finds.
loses_user-owner :
    (hash : Text) (t : Tables) {u : User}
    → IsValid t
    → find (is_client hash) t.users ≡ some u
    → (v : VoteRow) → loses_user hash t.users v ≡ (v.user_id_fk == u.id)
loses_user-owner hash t {u} valid found v =
    let mine = find_sound (is_client hash) t.users found in
    elim (Bool-cases (loses_user hash t.users v)) [
      | inl lost ↦
          let (w, e) = any→find (λ w. is_client hash w && w.id == v.user_id_fk) t.users lost in
          let test =
            find_sound (λ (w : User). is_client hash w && w.id == v.user_id_fk) t.users e in
          let client : is_client hash w ≡ true = ground arith in
          let id : w.id ≡ v.user_id_fk = ground arith in
          let one =
            find_unique (λ (w : User). is_client hash w && w.id == v.user_id_fk) (is_client hash)
              (is_client hash) t.users {x = w} {y = u} e found client mine
              (count-is_client hash t valid) in
          lost ∙ sym ((==_iff v.user_id_fk u.id).1 (sym id ∙ ap (λ (x : User). x.id) one))
      | inr kept ↦ elim (Bool-cases (v.user_id_fk == u.id)) [
        | inr other ↦ kept ∙ sym other
        | inl own ↦
            let id = (==_iff v.user_id_fk u.id).0 own in
            let here : (is_client hash u && u.id == v.user_id_fk) ≡ true =
              rw mine ((==_iff u.id v.user_id_fk).1 (sym id)) in
            let lost =
              find→any (is_client hash) (λ w. is_client hash w && w.id == v.user_id_fk) t.users
                {x = u} found here in
            absurd (cc (kept, lost))
      ]
    ]

count-ext :
    {A : Type 0} (p q : A → Bool) (xs : List A) → ((x : A) → p x ≡ q x) → count p xs ≡ count q xs
count-ext p q [] same = refl
count-ext p q (x ∷ xs) same = ground (arith, same x, count-ext p q xs)

count-remaining :
    (hash : Text) (t : Tables) {u : User}
    → IsValid t
    → find (is_client hash) t.users ≡ some u
    → (p : VoteRow → Bool)
    → count p (keep (λ v. not (loses_user hash t.users v)) t.votes)
        + count (λ v. p v && v.user_id_fk == u.id) t.votes
      ≡ count p t.votes
count-remaining hash t {u} valid found p =
    let owner = loses_user-owner hash t {u = u} valid found in
    let same =
      count-ext (λ v. p v && loses_user hash t.users v) (λ v. p v && v.user_id_fk == u.id) t.votes
        (λ v. ap (◌&&◌ (p v)) (owner v)) in
    rw (← same) (count-keep_split p (loses_user hash t.users) t.votes)

-- In valid tables, when a client that is there is deleted by a server that answers, the votes
-- whose foreign key is that user's id leave the total and the positive count of every snap, and
-- no other vote does.
pub delete-counts :
    (s : Session) (hash : Text) (t : Tables) {u : User}
    → IsValid t
    → s.answers delete_user ≡ true
    → find (is_client hash) t.users ≡ some u
    → (k : Text)
    → (total_of k (delete_by_client_hash s hash t).1.votes
          + count (λ v. is_for k v && v.user_id_fk == u.id) t.votes
        ≡ total_of k t.votes)
      × (positive_of k (delete_by_client_hash s hash t).1.votes
            + count (λ v. (is_for k v && v.vote_up) && v.user_id_fk == u.id) t.votes
          ≡ positive_of k t.votes)
unfolding delete_by_client_hash
delete-counts s hash t {u} valid on found k = rw on (
  count-remaining hash t {u = u} valid found (is_for k),
  count-remaining hash t {u = u} valid found (λ v. is_for k v && v.vote_up),
)
