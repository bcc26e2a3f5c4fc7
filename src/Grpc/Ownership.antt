-- ===== src/Grpc/Ownership.antt =====
-- Whose requests to src/grpc can change the ballots of a client.
use app_center_ratings.Prelude.{
  ◌≡◌, ◌≢◌, refl, ap, ◌∙◌, Bool, true, false, ◌&&◌, Option, none, some, if◌then◌else◌, Text,
  text_eq, text_eq_iff, Result, ok, err, inl, inr, Bool-cases,
}
use app_center_ratings.Prelude.Int.{ℤ, pos, ltb_ℤ, as_i32}
use app_center_ratings.Db.Category.{Category, Timeframe}
use app_center_ratings.Db.Tables.{Tables, Session, DbError, upsert_user, delete_user, upsert_vote}
use app_center_ratings.Db.Char.{char_store}
use app_center_ratings.Db.Summary.{VoteSummary}
use app_center_ratings.Db.User.{create_or_seen, delete_by_client_hash}
use app_center_ratings.Db.Vote.{Vote, save_to_db}
use app_center_ratings.Db.Invariant.{IsValid}
use app_center_ratings.Db.Ballots.{Ballots, ballots_of, selected, see, forget, cast}
use app_center_ratings.Db.Ballots.Users.{ballots_of-create_or_seen}
use app_center_ratings.Db.Ballots.Votes.{ballots_of-save_to_db}
use app_center_ratings.Db.Ballots.Deleted.{ballots_of-delete}
use app_center_ratings.Db.Ballots.Refinement.{ballots_of-set_categories}
use app_center_ratings.Ratings.Float.{Floats}
use app_center_ratings.Ratings.Chart.{Chart}
use app_center_ratings.Ratings.Update.{Stores}
use app_center_ratings.Grpc.World.{World, Env}
use app_center_ratings.Grpc.App.{get_by_snap_id_cached, keep_summary, recall_summary}
use app_center_ratings.Grpc.Charts.{get_chart_cached, keep_chart, recall_chart, chart_key}
use app_center_ratings.Grpc.Keeping.{IsKept, IsMadeBy}
use app_center_ratings.Db.Invariant.Runs.{
  Call, see_user, delete_client, cast_vote, set_categories, run_call,
}
use app_center_ratings.Grpc.Requests.Valid.{HasValid-IsKept}

module _ (hash k : Text) (r : ℤ) where
  -- The client's ballot on the revision of the snap.
  abbrev at : Ballots → Option Bool
  at b = b.ballot hash k r

  at-if : (on : Bool) (b b' : Ballots) → at b' ≡ at b → at (if on then b' else b) ≡ at b
  at-if true b b' same = same
  at-if false b b' same = refl

  at-see : (o : Option Text) (b : Ballots) → at (see o b) ≡ at b
  at-see none b = refl
  at-see (some c) b = refl

  apart : (c : Text) → some c ≢ some hash → text_eq c hash ≡ false
  apart c other = elim (Bool-cases (text_eq c hash)) [
    | inr different ↦ different
    | inl same ↦ absurd (other (ap some ((text_eq_iff c hash).0 same)))
  ]

  at-forget : (o : Option Text) (b : Ballots) → o ≢ some hash → at (forget o b) ≡ at b
  at-forget none b other = refl
  at-forget (some c) b other = rw (apart c other) refl

  at-cast :
      (o snap : Option Text) (revision : ℤ) (up : Bool) (b : Ballots)
      → o ≢ some hash
      → at (cast o snap revision up b) ≡ at b
  at-cast none snap revision up b other = refl
  at-cast (some c) none revision up b other = refl
  at-cast (some c) (some j) revision up b other =
      at-if (b.known c && ltb_ℤ (pos 0) revision) b _ (rw (apart c other) refl)

  module _ (t : Tables) (valid : IsValid t) where
    at-create_or_seen :
        (s : Session) (id : Text) → at (ballots_of (create_or_seen s id t).1) ≡ at (ballots_of t)
    at-create_or_seen s id =
        let b = ballots_of t in
        ap at (ballots_of-create_or_seen s id t valid)
        ∙ at-if (s.answers upsert_user) b (see (char_store 64 id) b) (at-see (char_store 64 id) b)

    at-delete :
        (s : Session) (sub : Text)
        → selected sub ≢ some hash
        → at (ballots_of (delete_by_client_hash s sub t).1) ≡ at (ballots_of t)
    at-delete s sub other =
        let b = ballots_of t in
        ap at (ballots_of-delete s sub t valid)
        ∙ at-if (s.answers delete_user) b (forget (selected sub) b)
            (at-forget (selected sub) b other)

    at-save_to_db :
        (s : Session) (v : Vote)
        → selected v.client_hash ≢ some hash
        → at (ballots_of (save_to_db s v t).1) ≡ at (ballots_of t)
    at-save_to_db s v other =
        let b = ballots_of t in
        let c = selected v.client_hash in
        let snap = char_store 32 v.snap_id in
        let revision = as_i32 v.snap_revision in
        ap at (ballots_of-save_to_db s v t valid)
        ∙ at-if (s.answers upsert_vote) b (cast c snap revision v.vote_up b)
            (at-cast c snap revision v.vote_up b other)

    at-run_call :
        (c : Call)
        → IsMadeBy (λ sub. selected sub ≢ some hash) c
        → at (ballots_of (run_call c t)) ≡ at (ballots_of t)
    unfolding run_call
    at-run_call (see_user s id) made = at-create_or_seen s id
    at-run_call (delete_client s sub) other = at-delete s sub other
    at-run_call (cast_vote s v) other = at-save_to_db s v other
    at-run_call (set_categories s snap_id cs) made =
        ap at (ballots_of-set_categories s snap_id cs t)

-- The tables are valid, and these are the client's ballots.
abbrev pub HasBallots : (f : Floats) → Text → (Text → ℤ → Option Bool) → World f.F32 → Type 0
HasBallots f hash b w =
    IsValid w.stores.tables
    × ((k : Text) (r : ℤ) → at hash k r (ballots_of w.stores.tables) ≡ b k r)

-- The hash of another client.
abbrev pub IsOther : Text → Text → Type 0
IsOther hash sub = selected sub ≢ some hash

module _ (f : Floats) (env : Env) where
  keep_summary_stores :
      (snap_id : Text) (w : World f.F32) (r : Result DbError VoteSummary)
      → (keep_summary f env snap_id w r).1.stores ≡ w.stores
  keep_summary_stores snap_id w (ok votes) = refl
  keep_summary_stores snap_id w (err e) = refl

  pub recall_summary_stores :
      (snap_id : Text) (w : World f.F32) (o : Option VoteSummary)
      → (recall_summary f env snap_id w o).1.stores ≡ w.stores
  recall_summary_stores snap_id w (some votes) = refl
  recall_summary_stores snap_id w none = keep_summary_stores snap_id w _

  keep_chart_stores :
      (key : Text) (w : World f.F32) (r : Result DbError (Chart f.F32))
      → (keep_chart f env key w r).1.stores ≡ w.stores
  keep_chart_stores key w (ok chart) = refl
  keep_chart_stores key w (err e) = refl

  pub recall_chart_stores :
      (c : Option Category) (t : Timeframe) (w : World f.F32) (o : Option (Chart f.F32))
      → (recall_chart f env c t w o).1.stores ≡ w.stores
  recall_chart_stores c t w (some chart) = refl
  recall_chart_stores c t w none = keep_chart_stores (chart_key c t) w _

pub HasBallots-IsKept :
    (f : Floats) (hash : Text) (b : Text → ℤ → Option Bool)
    → IsKept f (HasBallots f hash b) (IsOther hash)
unfolding get_by_snap_id_cached get_chart_cached
HasBallots-IsKept f hash b =
    let valid = HasValid-IsKept f {Whose = IsOther hash} in
    record {
      named = λ w names h. h;
      ran = λ w c made h. (
        valid.ran w c made h.0,
        λ k r. at-run_call hash k r w.stores.tables h.0 c made ∙ h.1 k r,
      );
      summed = λ env w snap_id h. (
        valid.summed env w snap_id h.0,
        λ k r.
            ap (λ (st : Stores). at hash k r (ballots_of st.tables))
              (recall_summary_stores f env snap_id w (w.summaries snap_id))
            ∙ h.1 k r,
      );
      charted = λ env w c t h. (
        valid.charted env w c t h.0,
        λ k r.
            ap (λ (st : Stores). at hash k r (ballots_of st.tables))
              (recall_chart_stores f env c t w (w.charts (chart_key c t)))
            ∙ h.1 k r,
      );
    }
