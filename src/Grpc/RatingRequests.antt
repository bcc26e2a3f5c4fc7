-- ===== src/Grpc/RatingRequests.antt =====
-- What `get_rating` of src/grpc/app.rs answers, with the cache of the summaries.
use app_center_ratings.Prelude.{
  ◌≡◌, refl, ap, true, false, ◌&&◌, none, some, arith, is_empty, count, Text, text_eq_refl, ok,
}
use app_center_ratings.Prelude.Int.{pos, as_u64}
use app_center_ratings.Db.Tables.{select_summary}
use app_center_ratings.Db.Summary.{VoteSummary, get_by_snap_id_uncached}
use app_center_ratings.Db.Invariant.{IsValid}
use app_center_ratings.Db.Reading.{is_wanted, get_by_snap_id_uncached-counts}
use app_center_ratings.Ratings.Float.{Floats}
use app_center_ratings.Ratings.Band.{band_as_i32}
use app_center_ratings.Ratings.Rating.{calculate_band, rating_from_summary}
use app_center_ratings.Ratings.SnapcraftIo.{get_snap_name}
use app_center_ratings.Grpc.World.{World, Env, conn, snap_name_or}
use app_center_ratings.Grpc.App.{PbRating, pb_rating, get_by_snap_id_cached, get_rating}

module _ (f : Floats) (env : Env) (snap_id : Text) (w : World f.F32) where
  -- A summary that is kept is answered as it is, without a look at the tables.
  pub get_rating-kept :
      (r : VoteSummary) {name : Text}
      → is_empty snap_id ≡ false
      → env.connection ≡ ok tt
      → w.summaries snap_id ≡ some r
      → (get_snap_name env.web r.snap_id env.snapcraft_io_uri w.stores.names).0 ≡ ok name
      → ((get_rating f env snap_id w).0 ≡ ok (pb_rating (rating_from_summary f r) name))
        × ((get_rating f env snap_id w).1.summaries ≡ w.summaries)
  unfolding get_rating conn get_by_snap_id_cached snap_name_or rating_from_summary
  get_rating-kept r given connected kept named =
      rw (given, connected) (rw kept (rw named (refl, refl)))

  get_rating-asked :
      (r : VoteSummary) {name : Text}
      → is_empty snap_id ≡ false
      → env.connection ≡ ok tt
      → w.summaries snap_id ≡ none
      → get_by_snap_id_uncached env.session snap_id w.stores.tables ≡ ok r
      → (get_snap_name env.web r.snap_id env.snapcraft_io_uri w.stores.names).0 ≡ ok name
      → ((get_rating f env snap_id w).0 ≡ ok (pb_rating (rating_from_summary f r) name))
        × ((get_rating f env snap_id w).1.summaries snap_id ≡ some r)
  unfolding get_rating conn get_by_snap_id_cached snap_name_or rating_from_summary
  get_rating-asked r given connected fresh asked named =
      rw (given, connected) (rw fresh (rw asked (rw named (refl, rw (text_eq_refl snap_id) refl))))

  -- In valid tables, over a connection and a server that answer, and with a name for the snap,
  -- a rating that no cache holds is answered: its total is the number of the votes that stand
  -- under the snap_id, as 64 bits, its band is the one of the counts of all and of the up
  -- votes, its name is the snap's, and the summary of the counts is kept. The snap_id is not
  -- to be empty.
  pub get_rating-counts :
      (r : VoteSummary) {name : Text}
      → IsValid w.stores.tables
      → is_empty snap_id ≡ false
      → env.connection ≡ ok tt
      → env.session.answers select_summary ≡ true
      → w.summaries snap_id ≡ none
      → get_by_snap_id_uncached env.session snap_id w.stores.tables ≡ ok r
      → (get_snap_name env.web r.snap_id env.snapcraft_io_uri w.stores.names).0 ≡ ok name
      → (p : PbRating) × ((get_rating f env snap_id w).0 ≡ ok p)
        × (p.total_votes ≡ as_u64 (pos (count (is_wanted snap_id) w.stores.tables.votes)))
        × (p.ratings_band
            ≡ band_as_i32
                (calculate_band f (record {
                  snap_id = r.snap_id;
                  total_votes = pos (count (is_wanted snap_id) w.stores.tables.votes);
                  positive_votes =
                      pos (count (λ v. is_wanted snap_id v && v.vote_up) w.stores.tables.votes);
                })).1)
        × (p.snap_name ≡ name)
        × ((get_rating f env snap_id w).1.summaries snap_id ≡ some r)
  unfolding rating_from_summary
  get_rating-counts r {name} valid given connected on fresh asked named =
      let (answer, kept) = get_rating-asked r {name = name} given connected fresh asked named in
      let (r', found, total, positive) =
        get_by_snap_id_uncached-counts env.session snap_id w.stores.tables valid on in
      let same : r' ≡ r = ground arith in
      let t : r.total_votes ≡ pos (count (is_wanted snap_id) w.stores.tables.votes) =
        rw (← same) total in
      let q : r.positive_votes
          ≡ pos (count (λ v. is_wanted snap_id v && v.vote_up) w.stores.tables.votes) =
        rw (← same) positive in
      (
        pb_rating (rating_from_summary f r) name,
        answer,
        ap as_u64 t,
        rw (← t, ← q) refl,
        refl,
        kept,
      )
