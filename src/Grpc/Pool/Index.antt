-- ===== src/Grpc/Pool/Index.antt =====
-- The tasks of the runtime by their indices.
use app_center_ratings.Prelude.{
  ◌≡◌, ◌≢◌, refl, ap, ℕ, zero, suc, Option, none, some, List, [], ◌∷◌, ◌++◌, All, length, arith,
  Result,
}
use app_center_ratings.Auth.Status.{Failure}
use app_center_ratings.Grpc.World.{World}
use app_center_ratings.Grpc.Task.{Task, finished, atom}
use app_center_ratings.Grpc.Pool.{move}

module _ {F32 A : Type 0} where
  abbrev pub task_at : ℕ → List (Task F32 A) → Option (Task F32 A)
  task_at i [] = none
  task_at zero (t ∷ ts) = some t
  task_at (suc i) (t ∷ ts) = task_at i ts

  pub All-task_at :
      (P : Task F32 A → Type 0) (i : ℕ) (ts : List (Task F32 A)) {t : Task F32 A}
      → All P ts
      → task_at i ts ≡ some t
      → P t
  All-task_at P i [] h e = absurd (ground arith)
  All-task_at P zero (u ∷ ts) {t} h e = let same : u ≡ t = ground arith in rw same at h.0
  All-task_at P (suc i) (t ∷ ts) h e = All-task_at P i ts h.1 e

  pub task_at-append :
      (i : ℕ) (ts us : List (Task F32 A)) {t : Task F32 A}
      → task_at i ts ≡ some t
      → task_at i (ts ++ us) ≡ some t
  task_at-append i [] us e = absurd (ground arith)
  task_at-append zero (t ∷ ts) us e = e
  task_at-append (suc i) (t ∷ ts) us e = task_at-append i ts us e

  pub task_at-last :
      (ts : List (Task F32 A)) (t : Task F32 A) → task_at (length ts) (ts ++ (t ∷ [])) ≡ some t
  task_at-last [] t = refl
  task_at-last (u ∷ ts) t = task_at-last ts t

  -- A task that has ended stays as it is.
  pub task_at-move :
      (i j : ℕ) (ts : List (Task F32 A)) (w : World F32) {r : Result Failure A}
      → task_at i ts ≡ some (finished r)
      → task_at i (move j ts w).0 ≡ some (finished r)
  unfolding move
  task_at-move i j [] w e = absurd (ground arith)
  task_at-move i zero (finished r ∷ ts) w e = e
  task_at-move zero zero (atom write rest ∷ ts) w e = absurd (ground arith)
  task_at-move (suc i) zero (atom write rest ∷ ts) w e = e
  task_at-move zero (suc j) (t ∷ ts) w e = e
  task_at-move (suc i) (suc j) (t ∷ ts) w e = task_at-move i j ts w e

  pub task_at-moved :
      (i : ℕ) (ts : List (Task F32 A)) (w : World F32) {write : World F32 → World F32}
      {rest : World F32 → Task F32 A}
      → task_at i ts ≡ some (atom write rest)
      → task_at i (move i ts w).0 ≡ some (rest w)
  unfolding move
  task_at-moved i [] w e = absurd (ground arith)
  task_at-moved zero (t ∷ ts) w {write} {rest} e =
      let same : t ≡ atom write rest = ground arith in rw same refl
  task_at-moved (suc i) (t ∷ ts) w e = task_at-moved i ts w e

  pub task_at-other :
      (i j : ℕ) (ts : List (Task F32 A)) (w : World F32)
      → i ≢ j
      → task_at i (move j ts w).0 ≡ task_at i ts
  unfolding move
  task_at-other i j [] w other = refl
  task_at-other zero zero (t ∷ ts) w other = absurd (other refl)
  task_at-other (suc i) zero (finished r ∷ ts) w other = refl
  task_at-other (suc i) zero (atom write rest ∷ ts) w other = refl
  task_at-other zero (suc j) (t ∷ ts) w other = refl
  task_at-other (suc i) (suc j) (t ∷ ts) w other =
      task_at-other i j ts w λ same. other (ap suc same)
