-- ===== src/Grpc/Pool.antt =====
-- All the requests that the services of src/grpc serve at a time: each is a task of the runtime, which
-- moves one task after another from one access to the next, while cached results expire.
pub mod Kept
pub mod Refinement
pub mod Index
pub mod Answers
pub mod Charts
pub mod Progress
pub mod Caches
use app_center_ratings.Prelude.{
  ℕ, zero, suc, Bool, true, false, if◌then◌else◌, Option, none, some, List, [], ◌∷◌, ◌++◌, Text,
}
use app_center_ratings.Ratings.Float.{Floats}
use app_center_ratings.Grpc.Routes.{Service}
use app_center_ratings.Grpc.World.{World, Cache}
use app_center_ratings.Grpc.Task.{Task, finished, atom, Turns, ◌>>=◌}
use app_center_ratings.Grpc.Requests.{Reply}
use app_center_ratings.Grpc.Requests.Tasks.{rpc_task}
use app_center_ratings.Grpc.Dispatch.{Codec, Arrival, accept}

-- The tasks that the runtime has, those that have answered included, the latest last.
pub record Pool (F32 : Type 0) : Type 0 where
  pub tasks : List (Task F32 (Reply F32))
  pub world : World F32

-- A request arrives, with the turns of what its handler joins; a task moves on; or a day is over for
-- some of the results in the two caches that have a time.
pub data Event (H B : Type 0) : Type 0 where
  arrives : Arrival H B → Turns → Event H B
  moves : ℕ → Event H B
  expires : (Text → Bool) → (Text → Bool) → Event H B

-- Without the results under these keys.
abbrev pub without : {V : Type 0} → (Text → Bool) → Cache V → Cache V
without lost cache key = if lost key then none else cache key

module _ {F32 : Type 0} where
  abbrev pub expire : (Text → Bool) → (Text → Bool) → World F32 → World F32
  expire lost_summaries lost_charts w = record w {
    summaries = without lost_summaries w.summaries;
    charts = without lost_charts w.charts;
  }

  module _ {A : Type 0} where
    -- The task at the index, if there is one that has not answered, makes its next access.
    unfoldable pub move : ℕ → List (Task F32 A) → World F32 → List (Task F32 A) × World F32
    move i [] w = ([], w)
    move zero (finished r ∷ ts) w = (finished r ∷ ts, w)
    move zero (atom write rest ∷ ts) w = (rest w ∷ ts, write w)
    move (suc i) (t ∷ ts) w = let (ts', w') = move i ts w in (t ∷ ts', w')

  abbrev pub idle : World F32 → Pool F32
  idle w = record { tasks = []; world = w }

module _ {H B : Type 0} (codec : Codec B) (to_str : H → Option Text) (route : Text → Option Service)
    (f : Floats) where
  -- A request from the layer to its answer.
  unfoldable pub request_task : Arrival H B → Turns → Task f.F32 (Reply f.F32)
  request_task a turns = finished (accept codec to_str route a) >>= rpc_task f a.env turns

  unfoldable pub happen : Event H B → Pool f.F32 → Pool f.F32
  happen (arrives a turns) p = record p { tasks = p.tasks ++ (request_task a turns ∷ []) }
  happen (moves i) p =
      let (tasks, world) = move i p.tasks p.world in record { tasks = tasks; world = world }
  happen (expires lost_summaries lost_charts) p = record p {
    world = expire lost_summaries lost_charts p.world;
  }

  unfoldable pub happen_all : List (Event H B) → Pool f.F32 → Pool f.F32
  happen_all [] p = p
  happen_all (e ∷ es) p = happen_all es (happen e p)
