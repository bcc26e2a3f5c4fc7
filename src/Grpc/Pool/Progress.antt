-- ===== src/Grpc/Pool/Progress.antt =====
-- When the tasks of src/grpc have answered, under every interleaving.
use app_center_ratings.Prelude.{
  ◌≡◌, refl, ◌∙◌, ℕ, zero, suc, ◌+◌, is_empty, ◌≤◌, ◌==◌, Bool, false, Bool-cases, Option, none,
  some, inl, inr, List, [], ◌∷◌, All, length, count, arith, Text, Result, ok, err,
}
use app_center_ratings.Auth.Status.{Failure, internal_server_error}
use app_center_ratings.Ratings.Float.{Floats}
use app_center_ratings.Grpc.Routes.{Service}
use app_center_ratings.Grpc.World.{World, Env}
use app_center_ratings.Grpc.Charts.{GetChartRequest, chart_or}
use app_center_ratings.Grpc.Task.{Task, finished, atom, Turns}
use app_center_ratings.Grpc.Task.Handlers.{get_chart_task}
use app_center_ratings.Grpc.Task.Bounds.{
  WithinAt, Within, Within-≤, Within-finished, Within-if, Within-bind, Within-act,
}
use app_center_ratings.Grpc.Task.Accesses.{
  authenticate_task-Within, delete_task-Within, vote_task-Within, get_rating_task-Within,
  name_chart_task-Within,
}
use app_center_ratings.Grpc.Keeping.{Keeps}
use app_center_ratings.Grpc.Requests.{
  Rpc, authenticate_with, delete_with, vote_with, get_snap_votes_with, get_rating_with,
  get_chart_with, Reply,
}
use app_center_ratings.Grpc.Requests.Tasks.{reply_task, rpc_task}
use app_center_ratings.Grpc.Dispatch.{Codec, Arrival, accept}
use app_center_ratings.Grpc.Pool.{
  Pool, Event, arrives, moves, expires, idle, move, request_task, happen, happen_all,
}
use app_center_ratings.Grpc.Pool.Index.{
  task_at, task_at-append, task_at-last, task_at-move, task_at-moved, task_at-other,
}
use app_center_ratings.Grpc.Pool.Kept.{happen_all-kept}
use app_center_ratings.Grpc.Pool.Answers.{legible, happen_all-finished}
use app_center_ratings.Grpc.Pool.Charts.{
  HasShortCharts, chart_or-IsShort, HasShortCharts-IsKept, expire-HasShortCharts,
}

-- The most accesses that a request takes, where they do not depend on how many votes a client has.
abbrev pub most_accesses : {H : Type 0} → Rpc H → Option ℕ
most_accesses (authenticate_with id) = some 1
most_accesses (delete_with request) = some 1
most_accesses (vote_with request) = some 5
most_accesses (get_snap_votes_with request) = none
most_accesses (get_rating_with snap_id) = some 3
most_accesses (get_chart_with request) = some 41

-- The event is a move of the task at the index.
abbrev pub is_move_of : {H B : Type 0} → ℕ → Event H B → Bool
is_move_of i (moves j) = i == j
is_move_of i e = false

module _ (f : Floats) where
  bounded :
      {A : Type 0} (m : ℕ) (g : A → Reply f.F32) {t : Task f.F32 A} {n : ℕ}
      → Within (HasShortCharts f) m t
      → some m ≡ some n
      → Within (HasShortCharts f) n (reply_task g t)
  bounded m g {t} {n} i h =
      Within-≤ (m + 0) n _ (ground arith) (Within-bind m 0 t _ i λ a. Within-finished 0 (ok (g a)))

  get_chart_task-Within :
      (env : Env) (turns : Turns) (request : GetChartRequest)
      → Within (HasShortCharts f) 41 (get_chart_task f env turns request)
  unfolding get_chart_task
  get_chart_task-Within env turns request = Within-bind 0 41 _ _ (Within-finished 0 _) λ category.
      Within-act 40 (chart_or f env internal_server_error category _) _ λ w short chart found.
        Within-if 40 (is_empty chart.chart_data) (Within-finished 40 (err _)) (
          Within-bind 40 0 _ _
            (name_chart_task-Within f env turns 0 20 chart.chart_data (
              chart_or-IsShort f env internal_server_error category _ w {chart = chart} short
                found))
            λ named. Within-finished 0 (ok _))

  rpc_task-Within :
      {H : Type 0} (env : Env) (turns : Turns) (rpc : Rpc H) {n : ℕ}
      → most_accesses rpc ≡ some n
      → Within (HasShortCharts f) n (rpc_task f env turns rpc)
  unfolding rpc_task
  rpc_task-Within env turns (authenticate_with id) h =
      bounded 1 _ (authenticate_task-Within env id) h
  rpc_task-Within env turns (delete_with request) h = bounded 1 _ (delete_task-Within env request) h
  rpc_task-Within env turns (vote_with request) h = bounded 5 _ (vote_task-Within env request) h
  rpc_task-Within env turns (get_snap_votes_with request) h = absurd (ground arith)
  rpc_task-Within env turns (get_rating_with snap_id) h =
      bounded 3 _ (get_rating_task-Within f env snap_id) h
  rpc_task-Within env turns (get_chart_with request) h =
      bounded 41 _ (get_chart_task-Within env turns request) h

module _ {F32 A : Type 0} where
  -- The task at the index has its result, which for one that waits for ever is that there is no answer.
  abbrev pub HasAnswered : ℕ → List (Task F32 A) → Type 0
  HasAnswered i ts = (r : Result Failure A) × (task_at i ts ≡ some (finished r))

module _ {H B : Type 0} (codec : Codec B) (to_str : H → Option Text) (route : Text → Option Service)
    (f : Floats) where
  -- The kept charts are short in every state of the pool, and the tasks keep them so.
  abbrev IsTidy : Pool f.F32 → Type 0
  IsTidy p = All (Keeps (HasShortCharts f) (Unit {0})) p.tasks × HasShortCharts f p.world

  happen_all-IsTidy :
      (es : List (Event H B)) (p : Pool f.F32)
      → IsTidy p
      → IsTidy (happen_all codec to_str route f es p)
  happen_all-IsTidy es p tidy =
      happen_all-kept codec to_str route f (Unit {0}) (HasShortCharts-IsKept f)
        (expire-HasShortCharts f) es p (legible codec to_str route (Unit {0}) es λ o. tt) tidy.0
        tidy.1

  happen-IsTidy :
      (e : Event H B) (p : Pool f.F32) → IsTidy p → IsTidy (happen codec to_str route f e p)
  unfolding happen_all
  happen-IsTidy e p tidy = happen_all-IsTidy (e ∷ []) p tidy

  -- The task at the index has at most so many accesses before it.
  abbrev Leaves : ℕ → ℕ → List (Task f.F32 (Reply f.F32)) → Type 0
  Leaves i n ts =
      (t : Task f.F32 (Reply f.F32)) × (task_at i ts ≡ some t) × WithinAt (HasShortCharts f) n t

  Leaves-move :
      (i j n : ℕ) (ts : List (Task f.F32 (Reply f.F32))) (w : World f.F32)
      → i ≡ j
      → HasShortCharts f w
      → Leaves i (suc n) ts
      → Leaves i n (move j ts w).0
  Leaves-move i j n ts w same short (finished r, at, within) =
      (finished r, task_at-move i j ts w {r = r} at, tt)
  Leaves-move i j n ts w same short (atom write rest, at, within) =
      (rest w, rw (← same) (task_at-moved i ts w {write = write} {rest = rest} at), within w short)

  no_access : (i : ℕ) (ts : List (Task f.F32 (Reply f.F32))) → Leaves i 0 ts → HasAnswered i ts
  no_access i ts (finished r, at, within) = (r, at)
  no_access i ts (atom write rest, at, within) = absurd (omega arith)

  answers_after :
      (i n : ℕ) (es : List (Event H B)) (p : Pool f.F32)
      → IsTidy p
      → Leaves i n p.tasks
      → n ≤ count (is_move_of i) es
      → HasAnswered i (happen_all codec to_str route f es p).tasks
  unfolding happen_all happen
  answers_after i zero es p tidy left enough =
      let (r, at) = no_access i p.tasks left in
      (r, happen_all-finished codec to_str route f es i p {r = r} at)
  answers_after i (suc n) [] p tidy left enough = absurd (omega arith)
  answers_after i (suc n) (arrives a turns ∷ es) p tidy (t, at, within) enough =
      answers_after i (suc n) es _ (happen-IsTidy (arrives a turns) p tidy)
        (t, task_at-append i p.tasks _ {t = t} at, within) enough
  answers_after i (suc n) (expires lost lost' ∷ es) p tidy left enough =
      answers_after i (suc n) es _ (happen-IsTidy (expires lost lost') p tidy) left enough
  answers_after i (suc n) (moves j ∷ es) p tidy (t, at, within) enough =
      let tidy' = happen-IsTidy (moves j) p tidy in
      elim (Bool-cases (i == j)) [
        | inl own ↦
            let same : i ≡ j = ground arith in
            answers_after i n es _ tidy'
              (Leaves-move i j n p.tasks p.world same tidy.1 (t, at, within)) (ground arith)
        | inr other ↦
            answers_after i (suc n) es _ tidy'
              (t, task_at-other i j p.tasks p.world (λ same. ground arith) ∙ at, within)
              (ground arith)
      ]

  -- A request that arrives between any others, for an authentication or a deletion, a rating,
  -- a vote or a chart, has answered once its task has made 1, 3, 5 or 41 of its accesses to
  -- the tables and the caches, whatever other tasks do and whatever expires in between, where
  -- no chart that is kept at first has more than twenty snaps. That a vote waits for another
  -- task's update counts as no access, and as ending; a wait that never ends counts as an end
  -- without an answer.
  pub happen_all-answers :
      (before after : List (Event H B)) (a : Arrival H B) (turns : Turns) (w : World f.F32)
      {rpc : Rpc H} {n : ℕ}
      → HasShortCharts f w
      → accept codec to_str route a ≡ ok rpc
      → most_accesses rpc ≡ some n
      → n
        ≤ count (is_move_of (length (happen_all codec to_str route f before (idle w)).tasks)) after
      → HasAnswered
          (length (happen_all codec to_str route f before (idle w)).tasks)
          (happen_all codec to_str route f after (
            happen codec to_str route f
              (arrives a turns)
              (happen_all codec to_str route f before (idle w)))).tasks
  unfolding happen request_task
  happen_all-answers before after a turns w {rpc} {n} short accepted most enough =
      let p = happen_all codec to_str route f before (idle w) in
      let tidy = happen_all-IsTidy before (idle w) (tt, short) in
      answers_after (length p.tasks) n after _ (happen-IsTidy (arrives a turns) p tidy)
        (
          rpc_task f a.env turns rpc,
          task_at-last p.tasks _ ∙ rw accepted refl,
          (rpc_task-Within f a.env turns rpc most).at,
        )
        enough
