-- ===== src/Grpc/Summaries.antt =====
-- `VoteSummary::get_by_snap_id` of src/db/vote.rs, through its cache, around a vote.
use app_center_ratings.Prelude.{◌+◌, ◌≡◌, refl, true, ap, ◌∙◌, none, Text, ok}
use app_center_ratings.Prelude.Int.{pos_part}
use app_center_ratings.Db.Char.{IsTrimmed}
use app_center_ratings.Db.Tables.{User, select_summary}
use app_center_ratings.Db.Vote.{Vote, save_to_db}
use app_center_ratings.Db.Summary.{VoteSummary, get_by_snap_id_uncached}
use app_center_ratings.Db.Invariant.{IsValid}
use app_center_ratings.Db.Casting.{IsAccepted, previous, added, replaced, bit}
use app_center_ratings.Db.ReadBack.{uncached_after_vote}
use app_center_ratings.Ratings.Float.{Floats}
use app_center_ratings.Grpc.World.{World, Env}
use app_center_ratings.Grpc.App.{get_by_snap_id_cached}

module _ (f : Floats) where
  get_by_snap_id_cached-empty :
      (env : Env) (snap_id : Text) (w : World f.F32) {r : VoteSummary}
      → w.summaries snap_id ≡ none
      → get_by_snap_id_uncached env.session snap_id w.stores.tables ≡ ok r
      → (get_by_snap_id_cached f env snap_id w).0 ≡ ok r
  unfolding get_by_snap_id_cached
  get_by_snap_id_cached-empty env snap_id w empty found = rw empty (rw found refl)

  -- In valid tables and over a server that answers, where no cache holds a summary of the
  -- snap, the summary that is read of it after an accepted vote, against the one that is read
  -- before where no cache holds one either, has one vote more, or as many if the user had
  -- voted on that revision, and the up votes with this one in the place of that one. The
  -- snap_id of the vote is to end in no space.
  pub summary_after_vote :
      (env earlier later : Env) (vote : Vote) (w w' : World f.F32) {u : User} {snap : Text}
      → IsValid w.stores.tables
      → IsAccepted env.session vote w.stores.tables u snap
      → IsTrimmed vote.snap_id
      → w'.stores.tables ≡ (save_to_db env.session vote w.stores.tables).1
      → earlier.session.answers select_summary ≡ true
      → later.session.answers select_summary ≡ true
      → w.summaries vote.snap_id ≡ none
      → w'.summaries vote.snap_id ≡ none
      → (before : VoteSummary) × (after : VoteSummary) × ((get_by_snap_id_cached f earlier
            vote.snap_id w).0
          ≡ ok before)
        × ((get_by_snap_id_cached f later vote.snap_id w').0 ≡ ok after)
        × (pos_part after.total_votes
            ≡ pos_part before.total_votes + added (previous vote w.stores.tables u snap))
        × (pos_part after.positive_votes + replaced (previous vote w.stores.tables u snap)
            ≡ pos_part before.positive_votes + bit vote.vote_up)
  summary_after_vote env earlier later vote w w' {u} {snap} valid a trimmed cast on_before on_after
        empty empty' =
      let (before, after, eb, ea, totals, ups) =
        uncached_after_vote env.session earlier.session later.session vote w.stores.tables valid a
          trimmed on_before on_after in
      let ea' = ap (get_by_snap_id_uncached later.session vote.snap_id) cast ∙ ea in
      (
        before,
        after,
        get_by_snap_id_cached-empty earlier vote.snap_id w {r = before} empty eb,
        get_by_snap_id_cached-empty later vote.snap_id w' {r = after} empty' ea',
        totals,
        ups,
      )
