-- ===== src/Grpc/SnapVotes.antt =====
-- What `get_snap_votes` of src/grpc/user.rs answers with, from the ballots in the tables to the names.
use app_center_ratings.Prelude.{Text}
use app_center_ratings.Auth.Middleware.{Request}
use app_center_ratings.Db.Category.{Category}
use app_center_ratings.Db.Vote.{Vote}
use app_center_ratings.Grpc.World.{World, Env}
use app_center_ratings.Grpc.User.{PbVote, pb_vote, try_update_categories}
use app_center_ratings.Grpc.Naming.{FindsAll}

-- What is sent of a vote.
abbrev pub named_vote : (Text → Text) → Vote → PbVote
named_vote name_of v = pb_vote v (name_of v.snap_id)

module _ (env : Env) (name_of : Text → Text) (finds : FindsAll env name_of) where
  module _ {F32 H : Type 0} (request : Request H Text) (w : World F32) where
    abbrev updated : World F32
    updated = (try_update_categories env request.body w).1
