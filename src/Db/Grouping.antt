-- ===== src/Db/Grouping.antt =====
-- `GROUP BY votes.snap_id` of src/db/vote.rs: each snap has one group, and no vote is lost or counted
-- twice.
use app_center_ratings.Prelude.{
  ℕ, ◌+◌, ◌<◌, ◌≡◌, refl, ap, ◌∙◌, Bool, true, false, not, none, some, List, [], ◌∷◌, map, arith,
  ltb, if◌then◌else◌, find, keep, count, length, Text, text_eq, text_eq_iff, text_eq_refl,
  count-keep_split, count-keep_none, count-and_zero, inl, inr, Bool-cases,
}
use app_center_ratings.Prelude.Int.{pos_part}
use app_center_ratings.Db.Tables.{VoteRow}
use app_center_ratings.Db.Summary.{VoteSummary, total_of, summary_of, group_keys, group_by_snap_id}

abbrev is_key : Text → Text → Bool
is_key k j = text_eq j k

text_eq_apart : (k a j : Text) → text_eq a k ≡ false → text_eq j k ≡ true → text_eq j a ≡ false
text_eq_apart k a j h e = ground (arith, text_eq_iff j k, text_eq_iff j a, text_eq_iff a k)

-- The snaps with a vote have a group each, and the others have none.
count-group_keys :
    (k : Text) (vs : List VoteRow)
    → count (is_key k) (group_keys vs) ≡ (if ltb 0 (total_of k vs) then 1 else 0)
unfolding group_keys
count-group_keys k [] = refl
count-group_keys k (v ∷ vs) = elim (Bool-cases (text_eq v.snap_id k)) [
  | inl same ↦
      let eq = (text_eq_iff v.snap_id k).0 same in
      let gone : count (is_key k) (keep (λ j. not (text_eq j v.snap_id)) (group_keys vs)) ≡ 0 =
        rw eq (count-keep_none (is_key k) (group_keys vs)) in
      ground arith
  | inr other ↦
      let split = count-keep_split (is_key k) (λ j. text_eq j v.snap_id) (group_keys vs) in
      let apart =
        count-and_zero (is_key k) (λ j. text_eq j v.snap_id) (group_keys vs)
          (λ j e. text_eq_apart k v.snap_id j other e) in
      ground (arith, count-group_keys k vs)
]

-- The votes that the groups of these keys count, added up.
abbrev pub sum_totals : List VoteSummary → ℕ
sum_totals [] = 0
sum_totals (r ∷ rs) = pos_part r.total_votes + sum_totals rs

abbrev key_totals : List Text → List VoteRow → ℕ
key_totals [] vs = 0
key_totals (k ∷ ks) vs = total_of k vs + key_totals ks vs

key_totals-cons :
    (ks : List Text) (v : VoteRow) (vs : List VoteRow)
    → key_totals ks (v ∷ vs) ≡ count (is_key v.snap_id) ks + key_totals ks vs
key_totals-cons [] v vs = refl
key_totals-cons (k ∷ ks) v vs =
    ground (arith, key_totals-cons ks v vs, text_eq_iff v.snap_id k, text_eq_iff k v.snap_id)

key_totals-nil : (ks : List Text) → key_totals ks [] ≡ 0
key_totals-nil [] = refl
key_totals-nil (k ∷ ks) = omega (arith, key_totals-nil ks)

-- Where each vote has one key, each is counted once.
key_totals-eq-length :
    (ks : List Text) (vs : List VoteRow)
    → ((k : Text) → 0 < total_of k vs → count (is_key k) ks ≡ 1)
    → key_totals ks vs ≡ length vs
key_totals-eq-length ks [] one = key_totals-nil ks
key_totals-eq-length ks (v ∷ vs) one =
    let here = one v.snap_id (ground (arith, text_eq_refl v.snap_id)) in
    let rest = key_totals-eq-length ks vs (λ k h. one k (ground arith)) in
    omega (arith, here, rest, key_totals-cons ks v vs)

sum_totals-map :
    (votes : List VoteRow) (ks : List Text)
    → sum_totals (map (summary_of votes) ks) ≡ key_totals ks votes
sum_totals-map votes [] = refl
sum_totals-map votes (k ∷ ks) = ap (◌+◌ (total_of k votes)) (sum_totals-map votes ks)

-- The totals of the groups add up to the number of votes: none is lost and none counted twice.
pub group_by_snap_id-totals :
    (votes : List VoteRow) → sum_totals (group_by_snap_id votes) ≡ length votes
unfolding group_by_snap_id
group_by_snap_id-totals votes =
    sum_totals-map votes (group_keys votes)
    ∙ key_totals-eq-length (group_keys votes) votes
        (λ k h. ground (arith, count-group_keys k votes))

find-summary :
    (votes : List VoteRow) (k : Text) (ks : List Text)
    → find (λ r. text_eq r.snap_id k) (map (summary_of votes) ks)
      ≡ (if ltb 0 (count (is_key k) ks) then some (summary_of votes k) else none)
find-summary votes k [] = refl
find-summary votes k (j ∷ ks) = elim (Bool-cases (text_eq j k)) [
  | inl same ↦ let eq = (text_eq_iff j k).0 same in rw eq (rw (text_eq_refl k) (ground arith))
  | inr other ↦ rw other (find-summary votes k ks)
]

-- A snap has a group exactly when it has a vote, and the group has its two counts.
pub find-group_by_snap_id :
    (votes : List VoteRow) (k : Text)
    → find (λ r. text_eq r.snap_id k) (group_by_snap_id votes)
      ≡ (if ltb 0 (total_of k votes) then some (summary_of votes k) else none)
unfolding group_by_snap_id
find-group_by_snap_id votes k =
    find-summary votes k (group_keys votes)
    ∙ ap (λ n. if ltb 0 n then some (summary_of votes k) else none) (count-group_keys k votes)
    ∙ ground arith
