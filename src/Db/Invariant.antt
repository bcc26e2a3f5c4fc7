-- ===== src/Db/Invariant.antt =====
-- The constraints of sql/migrations on `users` and `votes` that the statements of src/db rely on: the
-- keys that they look rows up by, the foreign key, the CHECK on the revision and the widths. The
-- primary key of `votes` and what holds of `snap_categories` are in Db/Invariant/Keys.
pub mod Users
pub mod Votes
pub mod Keys
pub mod Runs
use app_center_ratings.Prelude.{
  ℕ, zero, suc, ◌+◌, ◌≤◌, ◌<◌, ◌≡◌, refl, sym, ◌∙◌, Bool, true, false, not, ◌&&◌, ◌||◌, Option,
  none, some, List, [], ◌∷◌, ◌++◌, arith, ◌==◌, if◌then◌else◌, any, keep, find, count, length, Text,
  text_eq, text_eq_iff, Result, ok, err, count-append, count-keep, count-eq-zero-find,
  count-pos-find, ==_iff, inl, inr, Bool-cases, Option-cases,
}
use app_center_ratings.Prelude.Int.{ℤ, pos, ltb_ℤ, eqb_ℤ, eqb_ℤ→eq, as_i32}
use app_center_ratings.Db.Char.{char_store}
use app_center_ratings.Db.Tables.{
  User, VoteRow, Tables, Session, migrated, upsert_user, delete_user, upsert_vote,
}
use app_center_ratings.Db.User.{
  touch, insert_user, create_or_seen, upsert_user_row, is_client, loses_user, delete_by_client_hash,
}
use app_center_ratings.Db.Vote.{Vote, same_key, change_vote, place_vote, insert_vote, save_to_db}

abbrev pub has_hash : Text → User → Bool
has_hash hash u = text_eq u.client_hash hash

abbrev pub has_id : ℕ → User → Bool
has_id i u = u.id == i

abbrev pub is_by : ℕ → VoteRow → Bool
is_by i v = v.user_id_fk == i

-- The rows that the CHECK refuses.
abbrev pub is_unchecked : VoteRow → Bool
is_unchecked v = not (ltb_ℤ (pos 0) v.snap_revision)

-- The values that are not filled up to the width of their column.
abbrev pub is_short_hash : User → Bool
is_short_hash u = not (length u.client_hash == 64)

abbrev pub is_short_snap : VoteRow → Bool
is_short_snap v = not (length v.snap_id == 32)

pub record IsValid (t : Tables) : Type 0 where
  pub one_per_hash : (hash : Text) → count (has_hash hash) t.users ≤ 1
  pub one_per_id : (i : ℕ) → count (has_id i) t.users ≤ 1
  pub ids_below : (i : ℕ) → t.users_id_seq ≤ i → count (has_id i) t.users ≡ 0
  pub owned : (i : ℕ) → 0 < count (is_by i) t.votes → 0 < count (has_id i) t.users
  pub one_per_key :
      (user : ℕ) (snap : Text) (revision : ℤ) → count (same_key user snap revision) t.votes ≤ 1
  pub checked : count is_unchecked t.votes ≡ 0
  pub full_hash : count is_short_hash t.users ≡ 0
  pub full_snap : count is_short_snap t.votes ≡ 0

pub migrated-IsValid : IsValid migrated
migrated-IsValid = record {
  one_per_hash = λ h. omega arith;
  one_per_id = λ i. omega arith;
  ids_below = λ i h. refl;
  owned = λ i h. absurd (omega arith);
  one_per_key = λ u s r. omega arith;
  checked = refl;
  full_hash = refl;
  full_snap = refl;
}

-- An update that a test does not look at leaves the number of rows that pass it.
pub count-touch :
    (p : User → Bool) (hash : Text) (now : ℕ) (us : List User)
    → ((u : User) → p (record u { last_seen = now }) ≡ p u)
    → count p (touch hash now us) ≡ count p us
unfolding touch
count-touch p hash now [] same = refl
count-touch p hash now (u ∷ us) same = ground (arith, same u, count-touch p hash now us same)

pub count-change_vote :
    (p : VoteRow → Bool) (user : ℕ) (snap : Text) (revision : ℤ) (up : Bool) (vs : List VoteRow)
    → ((v : VoteRow) → p (record v { vote_up = up }) ≡ p v)
    → count p (change_vote user snap revision up vs) ≡ count p vs
unfolding change_vote
count-change_vote p user snap revision up [] same = refl
count-change_vote p user snap revision up (v ∷ vs) same =
    ground (arith, same v, count-change_vote p user snap revision up vs same)
