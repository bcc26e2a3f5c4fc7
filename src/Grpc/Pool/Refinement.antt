-- ===== src/Grpc/Pool/Refinement.antt =====
-- The database under every interleaving of the tasks of src/grpc.
use app_center_ratings.Prelude.{
  ◌≡◌, refl, sym, ap, ◌∙◌, Option, List, [], ◌∷◌, ◌++◌, All, All-append, Text,
}
use app_center_ratings.Prelude.Int.{ℤ}
use app_center_ratings.Auth.Status.{EndsAs-any}
use app_center_ratings.Db.Tables.{Tables}
use app_center_ratings.Db.Invariant.{IsValid}
use app_center_ratings.Db.Invariant.Runs.{Call, run_call, run_calls, run_calls-IsValid}
use app_center_ratings.Db.Ballots.{ballots_of, play_calls}
use app_center_ratings.Db.Ballots.Refinement.{run_calls-refines}
use app_center_ratings.Ratings.Float.{Floats}
use app_center_ratings.Ratings.Update.{Stores}
use app_center_ratings.Grpc.Routes.{Service}
use app_center_ratings.Grpc.World.{World}
use app_center_ratings.Grpc.App.{get_by_snap_id_cached}
use app_center_ratings.Grpc.Charts.{get_chart_cached, chart_key}
use app_center_ratings.Grpc.Keeping.{IsKept, IsMadeBy}
use app_center_ratings.Grpc.Ownership.{
  IsOther, HasBallots-IsKept, recall_summary_stores, recall_chart_stores,
}
use app_center_ratings.Grpc.Dispatch.{Codec, accept}
use app_center_ratings.Grpc.Arrivals.{Carries}
use app_center_ratings.Grpc.Pool.{Event, arrives, moves, expires, idle, happen_all}
use app_center_ratings.Grpc.Pool.Kept.{EventIs, happen_all-kept}

-- The tables are those that calls of src/db, made one after another, leave of the first ones, each call
-- that is in the name of a client being in the name of one of these.
abbrev pub HasRun : (f : Floats) → (Text → Type 0) → Tables → World f.F32 → Type 0
HasRun f Whose t w = (cs : List Call) × All (IsMadeBy Whose) cs × (w.stores.tables ≡ run_calls cs t)

pub run_calls-snoc :
    (cs : List Call) (c : Call) (t : Tables)
    → run_calls (cs ++ (c ∷ [])) t ≡ run_call c (run_calls cs t)
unfolding run_calls
run_calls-snoc [] c t = refl
run_calls-snoc (d ∷ cs) c t = run_calls-snoc cs c (run_call d t)

HasRun-IsKept :
    (f : Floats) (Whose : Text → Type 0) (t : Tables) → IsKept f (HasRun f Whose t) Whose
unfolding get_by_snap_id_cached get_chart_cached
HasRun-IsKept f Whose t = record {
  named = λ w names h. h;
  ran = λ w c made (cs, own, eq). (
    cs ++ (c ∷ []),
    All-append (IsMadeBy Whose) cs _ own (made, tt),
    ap (run_call c) eq ∙ sym (run_calls-snoc cs c t),
  );
  summed = λ env w snap_id (cs, own, eq). (
    cs,
    own,
    ap (λ (st : Stores). st.tables) (recall_summary_stores f env snap_id w (w.summaries snap_id))
        ∙ eq,
  );
  charted = λ env w c tf (cs, own, eq). (
    cs,
    own,
    ap (λ (st : Stores). st.tables) (recall_chart_stores f env c tf w (w.charts (chart_key c tf)))
        ∙ eq,
  );
}

module _ {H B : Type 0} (to_str : H → Option Text) where
  -- The token of every arrival, if it has one, is of one of these clients.
  abbrev pub OwnedBy : (Text → Type 0) → Event H B → Type 0
  OwnedBy Whose (arrives a turns) = Carries to_str Whose a
  OwnedBy Whose e = Unit {0}

module _ {H B : Type 0} (codec : Codec B) (to_str : H → Option Text)
    (route : Text → Option Service) where
  owned-EventIs :
      (Whose : Text → Type 0) (es : List (Event H B))
      → All (OwnedBy to_str Whose) es
      → All (EventIs codec to_str route Whose (Unit {0})) es
  owned-EventIs Whose [] own = tt
  owned-EventIs Whose (arrives a turns ∷ es) own =
      ((own.0, EndsAs-any (accept codec to_str route a)), owned-EventIs Whose es own.1)
  owned-EventIs Whose (moves i ∷ es) own = (tt, owned-EventIs Whose es own.1)
  owned-EventIs Whose (expires lost lost' ∷ es) own = (tt, owned-EventIs Whose es own.1)

  -- Whatever requests arrive and however the runtime interleaves the accesses of their tasks
  -- to the tables and the caches, with statements, connections and answers of snapcraft.io
  -- that succeed or fail and cached results that expire, valid tables stay valid, and what
  -- they say of clients and their ballots is what some sequence of calls of the database's
  -- functions, one after another, makes of it in the specification without rows, each call
  -- that votes or deletes being in the name of one of the clients that Whose describes, where
  -- every verified token that arrives is of one of these.
  pub happen_all-refines :
      (f : Floats) (Whose : Text → Type 0) (es : List (Event H B)) (w : World f.F32)
      → IsValid w.stores.tables
      → All (OwnedBy to_str Whose) es
      → IsValid (happen_all codec to_str route f es (idle w)).world.stores.tables
        × ((cs : List Call) × All (IsMadeBy Whose) cs
            × (ballots_of (happen_all codec to_str route f es (idle w)).world.stores.tables
                ≡ play_calls cs (ballots_of w.stores.tables)))
  happen_all-refines f Whose es w valid own =
      let t = w.stores.tables in
      let (_, (cs, made, eq)) =
        happen_all-kept codec to_str route f (Unit {0}) (HasRun-IsKept f Whose t)
          (λ lost lost' w h. h) es (idle w) (owned-EventIs Whose es own) tt
          ([], tt, unfold run_calls in refl) in
      (
        rw eq (run_calls-IsValid cs t valid),
        (cs, made, ap ballots_of eq ∙ run_calls-refines cs t valid),
      )

  -- In valid tables, whatever requests arrive and however their tasks are interleaved, through
  -- the layer and whichever services their paths are given to, the ballots of a client on all
  -- snaps and revisions stay as they are, unless one of the requests carries a token that the
  -- verifier accepts and whose subject selects the client.
  pub happen_all-IsOther :
      (f : Floats) (hash : Text) (es : List (Event H B)) (w : World f.F32)
      → IsValid w.stores.tables
      → All (OwnedBy to_str (IsOther hash)) es
      → (snap : Text) (revision : ℤ)
      → (ballots_of (happen_all codec to_str route f es (idle w)).world.stores.tables).ballot hash
          snap revision
        ≡ (ballots_of w.stores.tables).ballot hash snap revision
  happen_all-IsOther f hash es w valid own =
      let b = (ballots_of w.stores.tables).ballot hash in
      let kept =
        happen_all-kept codec to_str route f (Unit {0}) (HasBallots-IsKept f hash b)
          (λ lost lost' w h. h) es (idle w) (owned-EventIs (IsOther hash) es own) tt
          (valid, λ k r. refl) in
      kept.1.1
