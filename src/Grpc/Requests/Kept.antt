-- ===== src/Grpc/Requests/Kept.antt =====
-- What every sequence of requests to src/grpc keeps.
use app_center_ratings.Prelude.{List, [], ◌∷◌, Text}
use app_center_ratings.Ratings.Float.{Floats}
use app_center_ratings.Grpc.World.{World, Env}
use app_center_ratings.Grpc.Task.{in_order}
use app_center_ratings.Grpc.Keeping.{IsKept, run_alone-kept}
use app_center_ratings.Grpc.Requests.{Rpc, serve_rpc, serve_all}
use app_center_ratings.Grpc.Requests.Tasks.{
  Anyone, RpcIs, RpcIs-Anyone, rpc_task, rpc_task-run_alone, rpc_task-Keeps,
}

module _ (f : Floats) {H : Type 0} (P : World f.F32 → Type 0) where
  pub serve_rpc-kept :
      {Whose : Text → Type 0} (CanPanic : Type 0)
      → IsKept f P Whose
      → (env : Env) (rpc : Rpc H) → RpcIs Whose CanPanic rpc
      → (w : World f.F32) → P w
      → P (serve_rpc f env rpc w)
  unfolding serve_rpc
  serve_rpc-kept CanPanic kept env rpc own w h = rw (rpc_task-run_alone f env rpc w) at (
      run_alone-kept (rpc_task f env in_order rpc)
        (rpc_task-Keeps f {CanPanic = CanPanic} kept env in_order rpc own) w h)

  pub serve_all-kept :
      IsKept f P Anyone
      → (requests : List (Env × Rpc H)) (w : World f.F32) → P w
      → P (serve_all f requests w)
  unfolding serve_all
  serve_all-kept kept [] w h = h
  serve_all-kept kept ((env, rpc) ∷ rest) w h =
      serve_all-kept kept rest (serve_rpc f env rpc w)
        (serve_rpc-kept (Unit {0}) kept env rpc (RpcIs-Anyone rpc) w h)
