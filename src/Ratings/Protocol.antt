-- ===== src/Ratings/Protocol.antt =====
-- src/ratings/categories.rs: the tasks that run `update_categories` for one snap_id at a time, over the
-- map `category_updates` of src/context.rs. Only the entry of that snap_id is modelled, since tasks of
-- other snaps touch other entries. A step is what runs between two points at which tasks can interleave:
-- what the code does under the mutex is one step, since it awaits nothing there.
pub mod Exclusion
pub mod Wakeup
pub mod Progress
use app_center_ratings.Prelude.{
  ℕ, ◌≡◌, Bool, true, false, ◌||◌, Option, none, some, ◌==◌, if◌then◌else◌,
}

-- Where a task stands. The `Notify` that a task puts into the map goes by the task's number.
pub data Pc : Type 0 where
  start : Pc  -- before `snap_has_categories`
  checked : Pc  -- before the first `lock`
  found : ℕ → Pc  -- the guard is dropped, before `notified`
  waiting : ℕ → Pc  -- in `notified().await`
  updating : Pc  -- in `update_categories_inner`
  updated : Pc  -- before the second `lock`
  returned : Pc
  dropped : Pc  -- its future was dropped in one of the last two awaits

pub record System : Type 0 where
  pub entry : Option ℕ
  pub has_categories : Bool
  pub pc : ℕ → Pc

abbrev pub set_pc : (ℕ → Pc) → ℕ → Pc → ℕ → Pc
set_pc pc i p j = if i == j then p else pc j

-- `notify_waiters`: the tasks that wait on this `Notify` at the moment go on, and return.
abbrev pub wake : ℕ → Pc → Pc
wake n (waiting m) = if m == n then returned else waiting m
wake n p = p

-- Between the two critical sections.
abbrev pub is_busy : Pc → Bool
is_busy updating = true
is_busy updated = true
is_busy _ = false

pub data Step (s : System) : System → Type 0 where
  -- the snap has categories, or the database fails
  skip : (i : ℕ) → s.pc i ≡ start → Step s (record s { pc = set_pc s.pc i returned })
  check :
      (i : ℕ)
      → s.pc i ≡ start
      → s.has_categories ≡ false
      → Step s (record s { pc = set_pc s.pc i checked })
  -- `guard.get` finds nothing: `guard.insert` and `drop(guard)`
  claim :
      (i : ℕ)
      → s.pc i ≡ checked
      → s.entry ≡ none
      → Step s (record s { entry = some i; pc = set_pc s.pc i updating })
  -- `guard.get` finds a `Notify`: its clone and `drop(guard)`
  join :
      (i n : ℕ)
      → s.pc i ≡ checked
      → s.entry ≡ some n
      → Step s (record s { pc = set_pc s.pc i (found n) })
  -- the call of `notified`
  register : (i n : ℕ) → s.pc i ≡ found n → Step s (record s { pc = set_pc s.pc i (waiting n) })
  -- the update, which stores categories or fails
  update :
      (i : ℕ) (stored : Bool)
      → s.pc i ≡ updating
      → Step s
          (record s { has_categories = s.has_categories || stored; pc = set_pc s.pc i updated })
  -- `notify_waiters` and `guard.remove` under the second `lock`
  finish :
      (i : ℕ)
      → s.pc i ≡ updated
      → Step s (record s { entry = none; pc = set_pc (λ j. wake i (s.pc j)) i returned })
  -- The handler's future is dropped in an `await` of the update or of the second `lock`, as when its
  -- client closes the connection: nobody removes the entry. A task that is dropped in an earlier
  -- `await` leaves nothing behind; it is one that takes no further step.
  cancel : (i : ℕ) → is_busy (s.pc i) ≡ true → Step s (record s { pc = set_pc s.pc i dropped })

abbrev pub init : System
init = record { entry = none; has_categories = false; pc = λ _. start }

pub data Steps (s : System) : System → Type 0 where
  here : Steps s s
  next : {t u : System} → Steps s t → Step t u → Steps s u
