-- ===== src/Grpc/Pool/Kept.antt =====
-- What every interleaving of the tasks of src/grpc keeps, by what the single writes of the handlers keep.
use app_center_ratings.Prelude.{
  ◌≡◌, refl, ℕ, zero, suc, Bool, Option, List, [], ◌∷◌, All, All-append, Text, Result, ok, err,
}
use app_center_ratings.Auth.Status.{EndsAs, Failure}
use app_center_ratings.Ratings.Float.{Floats}
use app_center_ratings.Grpc.Routes.{Service}
use app_center_ratings.Grpc.World.{World}
use app_center_ratings.Grpc.Task.{Task, finished, atom, Turns, ◌>>=◌}
use app_center_ratings.Grpc.Keeping.{Keeps, Keeps-finished, IsKept}
use app_center_ratings.Grpc.Requests.{Rpc}
use app_center_ratings.Grpc.Requests.Tasks.{RpcIs, rpc_task, rpc_task-Keeps}
use app_center_ratings.Grpc.Dispatch.{Codec, Arrival, accept}
use app_center_ratings.Grpc.Arrivals.{Carries, accept-RpcIs}
use app_center_ratings.Grpc.Pool.{
  Pool, Event, arrives, moves, expires, expire, move, request_task, happen, happen_all,
}

module _ {F32 A : Type 0} (P : World F32 → Type 0) (CanPanic : Type 0) where
  move-kept :
      (i : ℕ) (ts : List (Task F32 A)) (w : World F32)
      → All (Keeps P CanPanic) ts
      → P w
      → All (Keeps P CanPanic) (move i ts w).0 × P (move i ts w).1
  unfolding move
  move-kept i [] w ks h = (tt, h)
  move-kept zero (finished r ∷ ts) w ks h = (ks, h)
  move-kept zero (atom write rest ∷ ts) w ks h =
      let (written, left) = ks.0.at w h in ((record { at = left }, ks.1), written)
  move-kept (suc i) (t ∷ ts) w ks h =
      let (moved, written) = move-kept i ts w ks.1 h in ((ks.0, moved), written)

module _ {H B : Type 0} (codec : Codec B) (to_str : H → Option Text)
    (route : Text → Option Service) where
  -- An arrival carries no claims but of one of these clients, and none ends with a panic on its way,
  -- unless one may.
  abbrev pub EventIs : (Text → Type 0) → Type 0 → Event H B → Type 0
  EventIs Whose CanPanic (arrives a turns) =
      Carries to_str Whose a × EndsAs CanPanic (accept codec to_str route a)
  EventIs Whose CanPanic e = Unit {0}

  module _ (f : Floats) {P : World f.F32 → Type 0} {Whose : Text → Type 0} (CanPanic : Type 0)
      (kept : IsKept f P Whose)
      (fresh : (lost lost' : Text → Bool) (w : World f.F32) → P w → P (expire lost lost' w)) where
    request_task-Keeps :
        (a : Arrival H B) (turns : Turns)
        → Carries to_str Whose a
        → EndsAs CanPanic (accept codec to_str route a)
        → Keeps P CanPanic (request_task codec to_str route f a turns)
    unfolding request_task
    request_task-Keeps a turns own ends =
        go (accept codec to_str route a) ends
          λ rpc e. accept-RpcIs codec to_str route Whose CanPanic a own {rpc = rpc} e
      where
        go :
            (r : Result Failure (Rpc H))
            → EndsAs CanPanic r
            → ((rpc : Rpc H) → r ≡ ok rpc → RpcIs Whose CanPanic rpc)
            → Keeps P CanPanic (finished r >>= rpc_task f a.env turns)
        go (ok rpc) ends allowed = rpc_task-Keeps f kept a.env turns rpc (allowed rpc refl)
        go (err e) ends allowed = Keeps-finished (err e) ends

    pub happen_all-kept :
        (es : List (Event H B)) (p : Pool f.F32)
        → All (EventIs Whose CanPanic) es
        → All (Keeps P CanPanic) p.tasks
        → P p.world
        → All (Keeps P CanPanic) (happen_all codec to_str route f es p).tasks
          × P (happen_all codec to_str route f es p).world
    unfolding happen_all happen
    happen_all-kept [] p own ks h = (ks, h)
    happen_all-kept (arrives a turns ∷ es) p own ks h =
        happen_all-kept es _ own.1
          (All-append (Keeps P CanPanic) p.tasks _ ks
            (request_task-Keeps a turns own.0.0 own.0.1, tt))
          h
    happen_all-kept (moves i ∷ es) p own ks h =
        let (moved, written) = move-kept P CanPanic i p.tasks p.world ks h in
        happen_all-kept es _ own.1 moved written
    happen_all-kept (expires lost lost' ∷ es) p own ks h =
        happen_all-kept es _ own.1 ks (fresh lost lost' p.world h)
