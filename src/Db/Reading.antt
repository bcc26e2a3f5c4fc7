-- ===== src/Db/Reading.antt =====
-- The query of `get_by_snap_id_cached` and `VoteSummary::get_for_timeframe` of src/db/vote.rs against the
-- votes that are there.
use app_center_ratings.Prelude.{
  ◌≡◌, refl, sym, ap, ◌∙◌, Bool, true, ◌&&◌, List, [], ◌∷◌, arith, ==_iff, keep, count, length,
  Text, text_eq_iff, ok, All, inl, inr, Bool-cases,
}
use app_center_ratings.Prelude.Int.{pos}
use app_center_ratings.Db.Char.{rtrim, char_eq_text, rtrim-injective}
use app_center_ratings.Db.Tables.{VoteRow, Tables, Session, select_summary}
use app_center_ratings.Db.Summary.{
  VoteSummary, total_of, positive_of, group_by_snap_id, get_by_snap_id_uncached, no_votes, first_or,
}
use app_center_ratings.Db.Invariant.{IsValid, is_short_snap}

-- The votes that `WHERE votes.snap_id = $1` selects.
abbrev pub is_wanted : Text → VoteRow → Bool
is_wanted snap_id v = char_eq_text v.snap_id snap_id

abbrev keep_wanted : Text → List VoteRow → List VoteRow
keep_wanted snap_id = keep (is_wanted snap_id)

-- All rows are of one snap.
abbrev AllFor : Text → List VoteRow → Type 0
AllFor k = All (λ v. v.snap_id ≡ k)

same_snap :
    (snap_id : Text) (v w : VoteRow)
    → length v.snap_id ≡ 32
    → length w.snap_id ≡ 32
    → is_wanted snap_id v ≡ true
    → is_wanted snap_id w ≡ true
    → v.snap_id ≡ w.snap_id
unfolding char_eq_text
same_snap snap_id v w lv lw hv hw = rtrim-injective v.snap_id w.snap_id (lv ∙ sym lw) (
    (text_eq_iff (rtrim v.snap_id) snap_id).0 hv
    ∙ sym ((text_eq_iff (rtrim w.snap_id) snap_id).0 hw))

AllFor-keep :
    (snap_id : Text) (w : VoteRow) (vs : List VoteRow)
    → length w.snap_id ≡ 32
    → is_wanted snap_id w ≡ true
    → count is_short_snap vs ≡ 0
    → AllFor w.snap_id (keep_wanted snap_id vs)
AllFor-keep snap_id w [] lw hw full = tt
AllFor-keep snap_id w (v ∷ vs) lw hw full = elim (Bool-cases (is_wanted snap_id v)) [
  | inl this ↦ rw this (
    same_snap snap_id v w (ground (arith, ==_iff (length v.snap_id) 32)) lw this hw,
    AllFor-keep snap_id w vs lw hw (ground arith),
  )
  | inr other ↦ rw other (AllFor-keep snap_id w vs lw hw (ground arith))
]

total_of-AllFor : (k : Text) (vs : List VoteRow) → AllFor k vs → total_of k vs ≡ length vs
total_of-AllFor k [] h = refl
total_of-AllFor k (v ∷ vs) h = ground (arith, text_eq_iff v.snap_id k, total_of-AllFor k vs h.1)

positive_of-AllFor :
    (k : Text) (vs : List VoteRow) → AllFor k vs → positive_of k vs ≡ count (λ v. v.vote_up) vs
positive_of-AllFor k [] h = refl
positive_of-AllFor k (v ∷ vs) h =
    ground (arith, text_eq_iff v.snap_id k, positive_of-AllFor k vs h.1)

length-keep : (p : VoteRow → Bool) (vs : List VoteRow) → length (keep p vs) ≡ count p vs
length-keep p [] = refl
length-keep p (v ∷ vs) = ground (arith, length-keep p vs)

count-keep_both :
    (p q : VoteRow → Bool) (vs : List VoteRow) → count q (keep p vs) ≡ count (λ v. p v && q v) vs
count-keep_both p q [] = refl
count-keep_both p q (v ∷ vs) = ground (arith, count-keep_both p q vs)

-- The counts of a summary are those of a list of votes.
abbrev Counts : VoteSummary → List VoteRow → Type 0
Counts r vs =
    (r.total_votes ≡ pos (length vs)) × (r.positive_votes ≡ pos (count (λ v. v.vote_up) vs))

first_group-Counts :
    (snap_id : Text) (vs : List VoteRow)
    → ((v : VoteRow) (rest : List VoteRow) → vs ≡ v ∷ rest → AllFor v.snap_id vs)
    → Counts (first_or (no_votes snap_id) (group_by_snap_id vs)) vs
unfolding group_by_snap_id
first_group-Counts snap_id [] one = (refl, refl)
first_group-Counts snap_id (v ∷ vs) one =
    let h = one v vs refl in
    (
      ap pos (total_of-AllFor v.snap_id (v ∷ vs) h),
      ap pos (positive_of-AllFor v.snap_id (v ∷ vs) h),
    )

-- What was kept passed the test, and fills its column.
keep-head :
    (p : VoteRow → Bool) (vs : List VoteRow) {v : VoteRow} {rest : List VoteRow}
    → keep p vs ≡ v ∷ rest
    → count is_short_snap vs ≡ 0
    → (p v ≡ true) × (length v.snap_id ≡ 32)
keep-head p [] e full = absurd (ground arith)
keep-head p (w ∷ vs) {v} {rest} e full = elim (Bool-cases (p w)) [
  | inl this ↦
      let eq : w ≡ v = ground arith in
      rw (← eq) (this, ground (arith, ==_iff (length w.snap_id) 32))
  | inr other ↦ keep-head p vs {v = v} {rest = rest} (rw other at e) (ground arith)
]

-- In valid tables and over a server that answers, the summary of a snap counts the votes that
-- stand under its snap_id, all and up, no others, and is all zero where there is none.
pub get_by_snap_id_uncached-counts :
    (s : Session) (snap_id : Text) (t : Tables)
    → IsValid t
    → s.answers select_summary ≡ true
    → (r : VoteSummary) × (get_by_snap_id_uncached s snap_id t ≡ ok r)
      × (r.total_votes ≡ pos (count (is_wanted snap_id) t.votes))
      × (r.positive_votes ≡ pos (count (λ v. is_wanted snap_id v && v.vote_up) t.votes))
unfolding get_by_snap_id_uncached
get_by_snap_id_uncached-counts s snap_id t h on =
    let kept = keep_wanted snap_id t.votes in
    let (total, positive) = first_group-Counts snap_id kept (λ v rest e.
      let (wanted, full) = keep-head (is_wanted snap_id) t.votes e h.full_snap in
      AllFor-keep snap_id v t.votes full wanted h.full_snap) in
    (
      first_or (no_votes snap_id) (group_by_snap_id kept),
      rw on refl,
      total ∙ ap pos (length-keep (is_wanted snap_id) t.votes),
      positive ∙ ap pos (count-keep_both (is_wanted snap_id) (λ v. v.vote_up) t.votes),
    )
