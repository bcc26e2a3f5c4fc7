-- ===== src/Ratings/Protocol/Wakeup.antt =====
-- Which waiting tasks go on.
use app_center_ratings.Prelude.{ℕ, ◌≡◌, ◌⊎◌, true, some, arith}
use app_center_ratings.Ratings.Protocol.{
  Pc, checked, found, waiting, returned, dropped, is_busy, System, Step, skip, check, claim, join,
  register, update, finish, cancel, init, Steps, here, next,
}
use app_center_ratings.Ratings.Protocol.Exclusion.{Inv, Step-Inv, Steps-Inv}

-- In every state that tasks reach, a task that waits does so on one that is still updating and
-- whose entry is in the map, or on one that has returned, or on one that was dropped and whose
-- entry is in the map.
pub waiting_cases :
    {s : System}
    → Steps init s
    → (j n : ℕ) → s.pc j ≡ waiting n
    → ((is_busy (s.pc n) ≡ true) × (s.entry ≡ some n))
      ⊎ ((s.pc n ≡ returned) ⊎ ((s.pc n ≡ dropped) × (s.entry ≡ some n)))
waiting_cases r j n h = let inv = Steps-Inv r in ground (arith, inv.waits j n h, inv.owner n)

-- A task that has returned stays so, and a task that waits on it is not woken by any step.
Step-lost :
    {s t : System}
    → Step s t
    → (j n : ℕ) → s.pc j ≡ waiting n
    → s.pc n ≡ returned
    → (t.pc j ≡ waiting n) × (t.pc n ≡ returned)
Step-lost (skip i e) j n w r = ground arith
Step-lost (check i e f) j n w r = ground arith
Step-lost (claim i e f) j n w r = ground arith
Step-lost (join i m e f) j n w r = ground arith
Step-lost (register i m e) j n w r = ground arith
Step-lost (update i b e) j n w r = ground arith
Step-lost (finish i e) j n w r = ground arith
Step-lost (cancel i e) j n w r = ground arith

-- A task that waits on one that has returned waits for ever: it waits in every later state.
pub lost_wakeup_is_final :
    {s t : System}
    → Steps s t
    → (j n : ℕ) → s.pc j ≡ waiting n
    → s.pc n ≡ returned
    → (t.pc j ≡ waiting n) × (t.pc n ≡ returned)
lost_wakeup_is_final here j n w r = (w, r)
lost_wakeup_is_final (next path st) j n w r =
    let (w', r') = lost_wakeup_is_final path j n w r in Step-lost st j n w' r'

-- The entry is that of a task that was dropped.
abbrev pub IsOrphaned : System → ℕ → Type 0
IsOrphaned s n = (s.entry ≡ some n) × (s.pc n ≡ dropped)

-- Behind the look for categories.
abbrev pub IsBehind : Pc → ℕ → Type 0
IsBehind p n = (p ≡ checked) ⊎ ((p ≡ found n) ⊎ (p ≡ waiting n))

Step-IsOrphaned : {s t : System} → Step s t → Inv s → (n : ℕ) → IsOrphaned s n → IsOrphaned t n
Step-IsOrphaned (skip i e) inv n (held, gone) = ground arith
Step-IsOrphaned (check i e f) inv n (held, gone) = ground arith
Step-IsOrphaned (claim i e f) inv n (held, gone) = ground arith
Step-IsOrphaned (join i m e f) inv n (held, gone) = ground arith
Step-IsOrphaned (register i m e) inv n (held, gone) = ground arith
Step-IsOrphaned (update i b e) inv n (held, gone) = ground arith
Step-IsOrphaned (finish i e) inv n (held, gone) = ground (arith, inv.owner i)
Step-IsOrphaned (cancel i e) inv n (held, gone) = ground (arith, inv.owner i)

Step-IsBehind :
    {s t : System}
    → Step s t
    → Inv s
    → (n : ℕ) → IsOrphaned s n
    → (j : ℕ) → IsBehind (s.pc j) n
    → IsBehind (t.pc j) n
Step-IsBehind (skip i e) inv n (held, gone) j b = ground arith
Step-IsBehind (check i e f) inv n (held, gone) j b = ground arith
Step-IsBehind (claim i e f) inv n (held, gone) j b = ground arith
Step-IsBehind (join i m e f) inv n (held, gone) j b = ground arith
Step-IsBehind (register i m e) inv n (held, gone) j b = ground arith
Step-IsBehind (update i b' e) inv n (held, gone) j b = ground arith
Step-IsBehind (finish i e) inv n (held, gone) j b = ground (arith, inv.owner i)
Step-IsBehind (cancel i e) inv n (held, gone) j b = ground (arith, inv.owner i)

Steps-IsOrphaned :
    {s t : System}
    → Inv s
    → Steps s t
    → (n : ℕ) → IsOrphaned s n
    → Inv t × IsOrphaned t n × ((j : ℕ) → IsBehind (s.pc j) n → IsBehind (t.pc j) n)
Steps-IsOrphaned inv here n o = (inv, o, λ j b. b)
Steps-IsOrphaned inv (next path st) n o =
    let (inv', o', behind) = Steps-IsOrphaned inv path n o in
    (
      Step-Inv st inv',
      Step-IsOrphaned st inv' n o',
      λ j b. Step-IsBehind st inv' n o' j (behind j b),
    )

-- Once a task was dropped between the two locks, in a state that tasks reach and in which the
-- entry is its own, the entry stays in the map in every later state, and each task that has
-- found no categories and is before the first lock, or has or waits on that `Notify`, is so in
-- every later state and never returns.
pub abandoned_entry_is_final :
    {s t : System}
    → Steps init s
    → Steps s t
    → (n : ℕ) → IsOrphaned s n
    → IsOrphaned t n × ((j : ℕ) → IsBehind (s.pc j) n → IsBehind (t.pc j) n)
abandoned_entry_is_final r path n o =
    let (_, o', behind) = Steps-IsOrphaned (Steps-Inv r) path n o in (o', behind)
