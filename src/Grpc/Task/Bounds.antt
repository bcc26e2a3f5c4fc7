-- ===== src/Grpc/Task/Bounds.antt =====
-- How often the tasks of src/grpc access the tables and the caches, whatever other tasks do in between.
use app_center_ratings.Prelude.{
  ◌≡◌, refl, ℕ, zero, suc, ◌+◌, ◌≤◌, ◌<◌, Bool, true, false, List, [], ◌∷◌, if◌then◌else◌, arith,
  Result, ok, err,
}
use app_center_ratings.Auth.Status.{Failure}
use app_center_ratings.Grpc.World.{World, Handler}
use app_center_ratings.Grpc.Task.{Task, finished, atom, act, after, ◌>>=◌, try_join}

module _ {F32 : Type 0} (P : World F32 → Type 0) where
  -- In worlds where P holds, the task has at most so many accesses before it.
  abbrev pub WithinAt : {A : Type 0} → ℕ → Task F32 A → Type 0
  WithinAt n (finished r) = Unit {0}
  WithinAt zero (atom write rest) = 0 < 0
  WithinAt (suc n) (atom write rest) = (w : World F32) → P w → WithinAt n (rest w)

  pub record Within {A : Type 0} (n : ℕ) (t : Task F32 A) : Type 0 where
    pub at : WithinAt n t

  module _ {A : Type 0} where
    WithinAt-≤ : (n k : ℕ) (t : Task F32 A) → n ≤ k → WithinAt n t → WithinAt k t
    WithinAt-≤ n k (finished r) h i = tt
    WithinAt-≤ zero k (atom write rest) h i = absurd (omega arith)
    WithinAt-≤ (suc n) zero (atom write rest) h i = absurd (omega arith)
    WithinAt-≤ (suc n) (suc k) (atom write rest) h i =
        λ w p. WithinAt-≤ n k (rest w) (omega arith) (i w p)

  module _ {A B : Type 0} where
    WithinAt-bind :
        (m n k : ℕ) (t : Task F32 A) (g : A → Task F32 B)
        → m + n ≤ k
        → WithinAt m t
        → ((a : A) → WithinAt n (g a))
        → WithinAt k (t >>= g)
    WithinAt-bind m n k (finished (ok a)) g h i j = WithinAt-≤ n k (g a) (omega arith) (j a)
    WithinAt-bind m n k (finished (err e)) g h i j = tt
    WithinAt-bind zero n k (atom write rest) g h i j = absurd (omega arith)
    WithinAt-bind (suc m) n zero (atom write rest) g h i j = absurd (omega arith)
    WithinAt-bind (suc m) n (suc k) (atom write rest) g h i j =
        λ w p. WithinAt-bind m n k (rest w) g (omega arith) (i w p) j

  module _ {A B : Type 0} where
    WithinAt-try_join :
        (turns : List Bool) (m n k : ℕ) (t : Task F32 A) (u : Task F32 B)
        → m + n ≤ k
        → WithinAt m t
        → WithinAt n u
        → WithinAt k (try_join turns t u)
    WithinAt-try_join [] m n k t u h i j =
        WithinAt-bind m n k t _ h i λ a. WithinAt-bind n 0 n u _ (omega arith) j λ b. tt
    WithinAt-try_join (turn ∷ turns) m n k (finished (err e)) u h i j = tt
    WithinAt-try_join (turn ∷ turns) m n k (finished (ok a)) u h i j =
        WithinAt-bind n 0 k u _ (omega arith) j λ b. tt
    WithinAt-try_join (turn ∷ turns) m n k (atom write rest) (finished (err e)) h i j = tt
    WithinAt-try_join (turn ∷ turns) m n k (atom write rest) (finished (ok b)) h i j =
        WithinAt-bind m 0 k (atom write rest) _ (omega arith) i λ a. tt
    WithinAt-try_join (true ∷ turns) zero n k (atom write rest) (atom write' rest') h i j =
        absurd (omega arith)
    WithinAt-try_join (true ∷ turns) (suc m) n zero (atom write rest) (atom write' rest') h i j =
        absurd (omega arith)
    WithinAt-try_join (true ∷ turns) (suc m) n (suc k) (atom write rest) (atom write' rest') h i j =
        λ w p. WithinAt-try_join turns m n k (rest w) (atom write' rest') (omega arith) (i w p) j
    WithinAt-try_join (false ∷ turns) m zero k (atom write rest) (atom write' rest') h i j =
        absurd (omega arith)
    WithinAt-try_join (false ∷ turns) m (suc n) zero (atom write rest) (atom write' rest') h i j =
        absurd (omega arith)
    WithinAt-try_join (false ∷ turns) m (suc n) (suc k) (atom write rest) (atom write' rest') h i
          j =
        λ w p. WithinAt-try_join turns m n k (atom write rest) (rest' w) (omega arith) i (j w p)

module _ {F32 : Type 0} {P : World F32 → Type 0} where
  module _ {A : Type 0} where
    pub Within-finished : (n : ℕ) (r : Result Failure A) → Within P n (finished r)
    Within-finished n r = record { at = tt }

    pub Within-≤ : (n k : ℕ) (t : Task F32 A) → n ≤ k → Within P n t → Within P k t
    Within-≤ n k t h i = record { at = WithinAt-≤ P n k t h i.at }

    pub Within-atom :
        (n : ℕ) (write : World F32 → World F32) (rest : World F32 → Task F32 A)
        → ((w : World F32) → P w → Within P n (rest w))
        → Within P (suc n) (atom write rest)
    Within-atom n write rest r = record { at = λ w p. (r w p).at }

    pub Within-if :
        (n : ℕ) (b : Bool) {t u : Task F32 A}
        → Within P n t
        → Within P n u
        → Within P n (if b then t else u)
    Within-if n true i j = i
    Within-if n false i j = j

  module _ {A B : Type 0} where
    pub Within-bind :
        (m n : ℕ) (t : Task F32 A) (g : A → Task F32 B)
        → Within P m t
        → ((a : A) → Within P n (g a))
        → Within P (m + n) (t >>= g)
    Within-bind m n t g i j = record {
      at = WithinAt-bind P m n (m + n) t g (omega arith) i.at λ a. (j a).at;
    }

    pub Within-act :
        (n : ℕ) (h : Handler F32 A) (g : A → Task F32 B)
        → ((w : World F32) → P w → (a : A) → (h w).0 ≡ ok a → Within P n (g a))
        → Within P (suc n) (act h >>= g)
    Within-act n h g goes_on =
        Within-atom n _ (λ w. after (h w).0 g) λ w p. go (h w).0 (goes_on w p)
      where
        go :
            (r : Result Failure A)
            → ((a : A) → r ≡ ok a → Within P n (g a))
            → Within P n (after r g)
        go (ok a) i = i a refl
        go (err e) i = Within-finished n (err e)

    pub Within-try_join :
        (turns : List Bool) (m n : ℕ) (t : Task F32 A) (u : Task F32 B)
        → Within P m t
        → Within P n u
        → Within P (m + n) (try_join turns t u)
    Within-try_join turns m n t u i j = record {
      at = WithinAt-try_join P turns m n (m + n) t u (omega arith) i.at j.at;
    }
