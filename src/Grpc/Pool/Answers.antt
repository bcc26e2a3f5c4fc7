-- ===== src/Grpc/Pool/Answers.antt =====
-- How the tasks of src/grpc end, under every interleaving: which of them panic.
use app_center_ratings.Prelude.{
  ◌≡◌, ◌↔◌, refl, ap, ◌∙◌, ℕ, Option, some, List, [], ◌∷◌, All, length, Text, Result, err, ok_or,
}
use app_center_ratings.Auth.Status.{Failure, panic, EndsAs, EndsAs-bind, EndsAs-ok_or}
use app_center_ratings.Auth.Middleware.{admit}
use app_center_ratings.Auth.Opaque.{IsOpaque, admit-EndsAs, admit-IsOpaque}
use app_center_ratings.Ratings.Float.{Floats}
use app_center_ratings.Grpc.Routes.{Service, serve}
use app_center_ratings.Grpc.World.{World}
use app_center_ratings.Grpc.Task.{Task, finished, Turns}
use app_center_ratings.Grpc.Keeping.{Keeps, IsKept}
use app_center_ratings.Grpc.Requests.{Reply}
use app_center_ratings.Grpc.Requests.Tasks.{Anyone}
use app_center_ratings.Grpc.Dispatch.{Codec, Arrival, read_rpc, no_method, accept}
use app_center_ratings.Grpc.Pool.{
  Pool, Event, arrives, moves, expires, idle, request_task, happen, happen_all,
}
use app_center_ratings.Grpc.Pool.Index.{
  task_at, All-task_at, task_at-append, task_at-last, task_at-move,
}
use app_center_ratings.Grpc.Pool.Kept.{EventIs, happen_all-kept}

module _ {F32 A : Type 0} where
  -- The task at an index has panicked.
  abbrev pub HasPanicked : List (Task F32 A) → Type 0
  HasPanicked ts = (i : ℕ) × (task_at i ts ≡ some (finished (err panic)))

module _ {H B : Type 0} (to_str : H → Option Text) where
  -- Among the events is the arrival of a request with an opaque header for a guarded path.
  pub data HasOpaque : List (Event H B) → Type 0 where
    here :
        (a : Arrival H B) (turns : Turns) (es : List (Event H B))
        → IsOpaque to_str a.request
        → HasOpaque (arrives a turns ∷ es)
    later : (e : Event H B) (es : List (Event H B)) → HasOpaque es → HasOpaque (e ∷ es)

module _ {H B : Type 0} (codec : Codec B) (to_str : H → Option Text)
    (route : Text → Option Service) where
  accept-EndsAs :
      (CanPanic : Type 0) (a : Arrival H B)
      → (IsOpaque to_str a.request → CanPanic)
      → EndsAs CanPanic (accept codec to_str route a)
  unfolding accept
  accept-EndsAs CanPanic a may =
      EndsAs-bind CanPanic (admit to_str a.decode a.request) _
        (admit-EndsAs to_str a.decode CanPanic a.request may)
        λ passed.
          EndsAs-bind CanPanic (ok_or no_method (route passed.path)) _
            (EndsAs-ok_or CanPanic _ _ (route passed.path))
            λ service.
              EndsAs-bind CanPanic (ok_or no_method (serve service passed.path)) _
                (EndsAs-ok_or CanPanic _ _ (serve service passed.path))
                λ endpoint. EndsAs-ok_or CanPanic _ _ (read_rpc codec endpoint passed)

  pub legible :
      (CanPanic : Type 0) (es : List (Event H B))
      → (HasOpaque to_str es → CanPanic)
      → All (EventIs codec to_str route Anyone CanPanic) es
  legible CanPanic [] may = tt
  legible CanPanic (arrives a turns ∷ es) may = (
    (λ c verified. tt, accept-EndsAs CanPanic a λ o. may (here a turns es o)),
    legible CanPanic es λ o. may (later (arrives a turns) es o),
  )
  legible CanPanic (moves i ∷ es) may = (tt, legible CanPanic es λ o. may (later (moves i) es o))
  legible CanPanic (expires lost lost' ∷ es) may =
      (tt, legible CanPanic es λ o. may (later (expires lost lost') es o))

  module _ (f : Floats) where
    anything-IsKept : IsKept f (λ w. Unit {0}) Anyone
    anything-IsKept = record {
      named = λ w names h. tt;
      ran = λ w c made h. tt;
      summed = λ env w snap_id h. tt;
      charted = λ env w c t h. tt;
    }

    request_task-IsOpaque :
        (a : Arrival H B) (turns : Turns)
        → IsOpaque to_str a.request
        → request_task codec to_str route f a turns ≡ finished (err panic)
    unfolding request_task accept
    request_task-IsOpaque a turns o = rw (admit-IsOpaque to_str a.decode a.request o) refl

    -- A task that has answered stays as it is, whatever happens.
    happen-finished :
        (e : Event H B) (i : ℕ) (p : Pool f.F32) {r : Result Failure (Reply f.F32)}
        → task_at i p.tasks ≡ some (finished r)
        → task_at i (happen codec to_str route f e p).tasks ≡ some (finished r)
    unfolding happen
    happen-finished (arrives a turns) i p h = task_at-append i p.tasks _ h
    happen-finished (moves j) i p h = task_at-move i j p.tasks p.world h
    happen-finished (expires lost lost') i p h = h

    pub happen_all-finished :
        (es : List (Event H B)) (i : ℕ) (p : Pool f.F32) {r : Result Failure (Reply f.F32)}
        → task_at i p.tasks ≡ some (finished r)
        → task_at i (happen_all codec to_str route f es p).tasks ≡ some (finished r)
    unfolding happen_all
    happen_all-finished [] i p h = h
    happen_all-finished (e ∷ es) i p {r} h =
        happen_all-finished es i _ {r = r} (happen-finished e i p {r = r} h)

    happen_all-HasOpaque :
        (es : List (Event H B)) (p : Pool f.F32)
        → HasOpaque to_str es
        → HasPanicked (happen_all codec to_str route f es p).tasks
    unfolding happen_all happen
    happen_all-HasOpaque _ p (here a turns es o) = (
      length p.tasks,
      happen_all-finished es (length p.tasks) _ {r = err panic} (
          task_at-last p.tasks (request_task codec to_str route f a turns)
          ∙ ap some (request_task-IsOpaque a turns o)),
    )
    happen_all-HasOpaque _ p (later e es o) = happen_all-HasOpaque es _ o

    -- However requests arrive and their tasks are interleaved, some task ends with a panic
    -- exactly when one of the requests has a path that is not public and a header
    -- `authorization` that `to_str` gives no text of.
    pub happen_all-panics :
        (es : List (Event H B)) (w : World f.F32)
        → HasPanicked (happen_all codec to_str route f es (idle w)).tasks ↔ HasOpaque to_str es
    happen_all-panics es w = (
      λ (i, panicked).
          let (ends, _) =
            happen_all-kept codec to_str route f (HasOpaque to_str es) anything-IsKept
              (λ lost lost' w h. tt) es (idle w) (legible (HasOpaque to_str es) es λ o. o) tt tt in
          (All-task_at (Keeps (λ w. Unit {0}) (HasOpaque to_str es)) i _ ends panicked).at,
      happen_all-HasOpaque es (idle w),
    )
