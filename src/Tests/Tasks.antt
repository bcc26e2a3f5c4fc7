-- ===== src/Tests/Tasks.antt =====
-- The theorems on the tasks that update categories, at a sample run.
use app_center_ratings.Prelude.{ℕ, ◌≡◌, ◌⊎◌, refl, true, false, none, some}
use app_center_ratings.Ratings.Protocol.{
  waiting, returned, dropped, is_busy, System, check, claim, join, register, update, finish, cancel,
  init, Steps, here, next,
}
use app_center_ratings.Ratings.Protocol.Exclusion.{mutual_exclusion}
use app_center_ratings.Ratings.Protocol.Progress.{CanReturn, IsLost, IsBlocked, CanReturn-unless}
use app_center_ratings.Ratings.Protocol.Wakeup.{
  waiting_cases, lost_wakeup_is_final, IsOrphaned, IsBehind, abandoned_entry_is_final,
}

-- The first task updates and the second one waits for it.
abbrev one_waits : (s : System) × Steps init s
one_waits = (
  _,
  next
      (next (next (next (next here (check 0 refl refl)) (check 1 refl refl)) (claim 0 refl refl))
        (join 1 0 refl refl))
      (register 1 0 refl),
)

mutual_exclusion_example : ◌≡◌ {A = ℕ} 0 0
mutual_exclusion_example = mutual_exclusion one_waits.1 0 0 refl refl

waiting_cases_example :
    ((is_busy (one_waits.0.pc 0) ≡ true) × (one_waits.0.entry ≡ some 0))
    ⊎ ((one_waits.0.pc 0 ≡ returned)
        ⊎ ((one_waits.0.pc 0 ≡ dropped) × (one_waits.0.entry ≡ some 0)))
waiting_cases_example = waiting_cases one_waits.1 1 0 refl

-- The second task takes the `Notify` and drops the guard, the first one finishes, and only then does
-- the second call `notified`.
abbrev lost_wakeup :
    (s : System) × Steps init s × (s.pc 1 ≡ waiting 0) × (s.pc 0 ≡ returned) × (s.entry ≡ none)
lost_wakeup = (
  _,
  next
      (next
        (next
          (next
            (next (next (next here (check 0 refl refl)) (check 1 refl refl)) (claim 0 refl refl))
            (join 1 0 refl refl))
          (update 0 false refl))
        (finish 0 refl))
      (register 1 0 refl),
  refl,
  refl,
  refl,
)

-- A third task comes in after that, updates the categories and returns.
abbrev later : (s : System) × Steps lost_wakeup.0 s
later = (
  _,
  next (next (next (next here (check 2 refl refl)) (claim 2 refl refl)) (update 2 true refl))
      (finish 2 refl),
)

lost_wakeup_is_final_example : (later.0.pc 1 ≡ waiting 0) × (later.0.pc 0 ≡ returned)
lost_wakeup_is_final_example = lost_wakeup_is_final later.1 1 0 refl refl

-- The first task is dropped in its update, while the second one waits, and a third one comes in.
abbrev orphaned : (s : System) × Steps init s
orphaned = (_, next (next one_waits.1 (cancel 0 refl)) (check 2 refl refl))

abbrev joined_too : (s : System) × Steps orphaned.0 s
joined_too = (_, next (next here (join 2 0 refl refl)) (register 2 0 refl))

abandoned_entry_is_final_example :
    IsOrphaned joined_too.0 0
    × ((j : ℕ) → IsBehind (orphaned.0.pc j) 0 → IsBehind (joined_too.0.pc j) 0)
abandoned_entry_is_final_example = abandoned_entry_is_final orphaned.1 joined_too.1 0 (refl, refl)

CanReturn-unless_example :
    CanReturn orphaned.0 1
    ⊎ (IsLost orphaned.0 1 ⊎ (IsBlocked orphaned.0 1 ⊎ (orphaned.0.pc 1 ≡ dropped)))
CanReturn-unless_example = CanReturn-unless orphaned.1 1
