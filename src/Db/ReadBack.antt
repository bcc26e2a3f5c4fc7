-- ===== src/Db/ReadBack.antt =====
-- A vote of src/db/vote.rs as the query for its snap's summary finds it.
use app_center_ratings.Prelude.{
  ◌+◌, ◌≡◌, refl, Bool, true, ◌&&◌, some, List, [], ◌∷◌, arith, ==_iff, count, length, Text,
  text_eq, text_eq_refl, ok,
}
use app_center_ratings.Prelude.Int.{pos_part}
use app_center_ratings.Db.Char.{char_store, char_eq_text, char_eq_text_stored, IsTrimmed}
use app_center_ratings.Db.Tables.{User, VoteRow, Tables, Session, select_summary}
use app_center_ratings.Db.Vote.{Vote, save_to_db}
use app_center_ratings.Db.Summary.{VoteSummary, total_of, get_by_snap_id_uncached}
use app_center_ratings.Db.Invariant.{IsValid, is_short_snap}
use app_center_ratings.Db.Invariant.Votes.{save_to_db-IsValid}
use app_center_ratings.Db.Casting.{IsAccepted, previous, added, replaced, bit, save_to_db-counts}
use app_center_ratings.Db.Reading.{is_wanted, get_by_snap_id_uncached-counts}

module _ {snap_id snap : Text} (trimmed : IsTrimmed snap_id)
    (fits : char_store 32 snap_id ≡ some snap) where
  wanted-eq : (s : Text) → length s ≡ 32 → char_eq_text s snap_id ≡ text_eq s snap
  wanted-eq s full = char_eq_text_stored 32 snap_id snap s trimmed fits full

  count-wanted :
      (q : VoteRow → Bool) (vs : List VoteRow)
      → count is_short_snap vs ≡ 0
      → count (λ v. is_wanted snap_id v && q v) vs ≡ count (λ v. text_eq v.snap_id snap && q v) vs
  count-wanted q [] full = refl
  count-wanted q (v ∷ vs) full =
      let width : length v.snap_id ≡ 32 = ground (arith, ==_iff (length v.snap_id) 32) in
      ground (arith, wanted-eq v.snap_id width, count-wanted q vs)

  count-wanted_all :
      (vs : List VoteRow)
      → count is_short_snap vs ≡ 0
      → count (is_wanted snap_id) vs ≡ total_of snap vs
  count-wanted_all [] full = refl
  count-wanted_all (v ∷ vs) full =
      let width : length v.snap_id ≡ 32 = ground (arith, ==_iff (length v.snap_id) 32) in
      ground (arith, wanted-eq v.snap_id width, count-wanted_all vs)

-- What the query gives before and after.
pub uncached_after_vote :
    (s earlier later : Session) (vote : Vote) (t : Tables) {u : User} {snap : Text}
    → IsValid t
    → IsAccepted s vote t u snap
    → IsTrimmed vote.snap_id
    → earlier.answers select_summary ≡ true
    → later.answers select_summary ≡ true
    → (before : VoteSummary) × (after : VoteSummary) × (get_by_snap_id_uncached earlier vote.snap_id
          t
        ≡ ok before)
      × (get_by_snap_id_uncached later vote.snap_id (save_to_db s vote t).1 ≡ ok after)
      × (pos_part after.total_votes ≡ pos_part before.total_votes + added (previous vote t u snap))
      × (pos_part after.positive_votes + replaced (previous vote t u snap)
          ≡ pos_part before.positive_votes + bit vote.vote_up)
uncached_after_vote s earlier later vote t {u} {snap} h a trimmed on_before on_after =
    let t' = (save_to_db s vote t).1 in
    let h' = save_to_db-IsValid s vote t h in
    let (before, eb, tb, pb) = get_by_snap_id_uncached-counts earlier vote.snap_id t h on_before in
    let (after, ea, ta, pa) = get_by_snap_id_uncached-counts later vote.snap_id t' h' on_after in
    let (_, total, positive) = save_to_db-counts s vote t a snap in
    let all_before = count-wanted_all trimmed a.fits t.votes h.full_snap in
    let all_after = count-wanted_all trimmed a.fits t'.votes h'.full_snap in
    let up_before = count-wanted trimmed a.fits (λ v. v.vote_up) t.votes h.full_snap in
    let up_after = count-wanted trimmed a.fits (λ v. v.vote_up) t'.votes h'.full_snap in
    let own = text_eq_refl snap in
    (
      before,
      after,
      eb,
      ea,
      rw (ta, tb, all_after, all_before, total, own) refl,
      rw (pa, pb, up_after, up_before) (rw own at positive),
    )
