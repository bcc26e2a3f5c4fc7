-- ===== src/Grpc/Task.antt =====
-- A handler of src/grpc as the task that the runtime runs: other tasks run between its accesses to the
-- tables and the caches, at its `await`s.
pub mod Handlers
pub mod Alone
pub mod Bounds
pub mod Accesses
use app_center_ratings.Prelude.{ℕ, Bool, true, false, List, [], ◌∷◌, ◌≡◌, refl, Result, ok, err}
use app_center_ratings.Auth.Status.{Failure}
use app_center_ratings.Grpc.World.{World, Handler, continue}
use app_center_ratings.Grpc.World

-- A task has its result, or reads the world and writes it at once, and goes on with what it has read.
pub data Task (F32 A : Type 0) : Type 0 where
  finished : Result Failure A → Task F32 A
  atom : (World F32 → World F32) → (World F32 → Task F32 A) → Task F32 A

module _ {F32 A : Type 0} where
  abbrev pub pure : A → Task F32 A
  pure a = finished (ok a)

  abbrev pub fail : Failure → Task F32 A
  fail e = finished (err e)

  -- What is done at one moment.
  abbrev pub act : Handler F32 A → Task F32 A
  act h = atom (λ w. (h w).1) (λ w. finished (h w).0)

  -- The task with no other between.
  abbrev pub run_alone : Task F32 A → Handler F32 A
  run_alone (finished r) w = (r, w)
  run_alone (atom write rest) w = run_alone (rest w) (write w)

module _ {F32 A B : Type 0} where
  abbrev pub after : Result Failure A → (A → Task F32 B) → Task F32 B
  after (ok a) g = g a
  after (err e) g = finished (err e)

  infixl 5 ◌>>=◌ ◌>>◌
  abbrev pub ◌>>=◌ : Task F32 A → (A → Task F32 B) → Task F32 B
  finished r >>= g = after r g
  atom write rest >>= g = atom write (λ w. rest w >>= g)

  abbrev pub ◌>>◌ : Task F32 A → Task F32 B → Task F32 B
  m >> n = m >>= λ _. n

-- Of the futures that `try_join_all` joins, the turns at which each goes on before those behind it.
abbrev pub Turns : Type 0
Turns = ℕ → List Bool

-- One after the other.
abbrev pub in_order : Turns
in_order n = []

module _ {F32 A B : Type 0} where
  -- Two futures of `try_join_all`: at each turn the first or the second goes on, until both have their
  -- results or one fails, which the other does not outlive. The turns are to be enough for that: when
  -- there are none left, the first goes on to its end.
  abbrev pub try_join : List Bool → Task F32 A → Task F32 B → Task F32 (A × B)
  try_join [] t u = t >>= λ a. u >>= λ b. finished (ok (a, b))
  try_join (turn ∷ turns) (finished (err e)) u = finished (err e)
  try_join (turn ∷ turns) (finished (ok a)) u = u >>= λ b. finished (ok (a, b))
  try_join (turn ∷ turns) (atom write rest) (finished (err e)) = finished (err e)
  try_join (turn ∷ turns) (atom write rest) (finished (ok b)) =
      atom write rest >>= λ a. finished (ok (a, b))
  try_join (true ∷ turns) (atom write rest) (atom write' rest') =
      atom write (λ w. try_join turns (rest w) (atom write' rest'))
  try_join (false ∷ turns) (atom write rest) (atom write' rest') =
      atom write' (λ w. try_join turns (atom write rest) (rest' w))
