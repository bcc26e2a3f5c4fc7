-- ===== src/Ratings/Protocol/Exclusion.antt =====
-- At most one task updates the categories of a snap at a time.
use app_center_ratings.Prelude.{ℕ, ◌≡◌, ◌⊎◌, true, some, arith}
use app_center_ratings.Ratings.Protocol.{
  found, waiting, returned, dropped, is_busy, System, Step, skip, check, claim, join, register,
  update, finish, cancel, init, Steps, here, next,
}

-- A `Notify` is of a task that is busy, or has returned, or was dropped and has its entry in the map.
abbrev pub IsFrom : System → ℕ → Type 0
IsFrom s n =
    (is_busy (s.pc n) ≡ true) ⊎ ((s.pc n ≡ returned) ⊎ ((s.pc n ≡ dropped) × (s.entry ≡ some n)))

-- The entry of the map is that of the task that is busy, if one is, or of one that was dropped. A task
-- that has or waits on a `Notify` has it from such a task.
pub record Inv (s : System) : Type 0 where
  pub owner : (i : ℕ) → is_busy (s.pc i) ≡ true → s.entry ≡ some i
  pub busy : (n : ℕ) → s.entry ≡ some n → (is_busy (s.pc n) ≡ true) ⊎ (s.pc n ≡ dropped)
  pub joined : (j n : ℕ) → s.pc j ≡ found n → IsFrom s n
  pub waits : (j n : ℕ) → s.pc j ≡ waiting n → IsFrom s n

pub init-Inv : Inv init
init-Inv = record {
  owner = λ i h. absurd (ground arith);
  busy = λ n h. absurd (ground arith);
  joined = λ j n h. absurd (ground arith);
  waits = λ j n h. absurd (ground arith);
}

pub Step-Inv : {s t : System} → Step s t → Inv s → Inv t
Step-Inv {s} (skip i e) inv = record {
  owner = λ j h. ground (arith, inv.owner j);
  busy = λ n h. ground (arith, inv.busy n);
  joined = λ j n h. ground (arith, inv.joined j n);
  waits = λ j n h. ground (arith, inv.waits j n);
}
Step-Inv {s} (check i e none_yet) inv = record {
  owner = λ j h. ground (arith, inv.owner j);
  busy = λ n h. ground (arith, inv.busy n);
  joined = λ j n h. ground (arith, inv.joined j n);
  waits = λ j n h. ground (arith, inv.waits j n);
}
Step-Inv {s} (claim i e free) inv = record {
  owner = λ j h. ground (arith, inv.owner j);
  busy = λ n h. ground (arith, inv.busy n);
  joined = λ j n h. ground (arith, inv.joined j n);
  waits = λ j n h. ground (arith, inv.waits j n);
}
Step-Inv {s} (join i m e held) inv = record {
  owner = λ j h. ground (arith, inv.owner j);
  busy = λ n h. ground (arith, inv.busy n);
  joined = λ j n h. ground (arith, inv.joined j n, inv.busy m);
  waits = λ j n h. ground (arith, inv.waits j n);
}
Step-Inv {s} (register i m e) inv = record {
  owner = λ j h. ground (arith, inv.owner j);
  busy = λ n h. ground (arith, inv.busy n);
  joined = λ j n h. ground (arith, inv.joined j n);
  waits = λ j n h. ground (arith, inv.waits j n, inv.joined i m);
}
Step-Inv {s} (update i stored e) inv = record {
  owner = λ j h. ground (arith, inv.owner j, inv.owner i);
  busy = λ n h. ground (arith, inv.busy n);
  joined = λ j n h. ground (arith, inv.joined j n);
  waits = λ j n h. ground (arith, inv.waits j n);
}
Step-Inv {s} (finish i e) inv = record {
  owner = λ j h. ground (arith, inv.owner j, inv.owner i);
  busy = λ n h. ground (arith, inv.busy n);
  joined = λ j n h. ground (arith, inv.joined j n, inv.owner n, inv.owner i);
  waits = λ j n h. ground (arith, inv.waits j n, inv.owner n, inv.owner i);
}
Step-Inv {s} (cancel i e) inv = record {
  owner = λ j h. ground (arith, inv.owner j, inv.owner i);
  busy = λ n h. ground (arith, inv.busy n);
  joined = λ j n h. ground (arith, inv.joined j n, inv.owner i);
  waits = λ j n h. ground (arith, inv.waits j n, inv.owner i);
}

pub Steps-Inv : {s : System} → Steps init s → Inv s
Steps-Inv here = init-Inv
Steps-Inv (next r st) = Step-Inv st (Steps-Inv r)

-- In every state that tasks reach from the first one, at most one task is updating the
-- categories of the snap, the time between the update and the second lock included.
pub mutual_exclusion :
    {s : System}
    → Steps init s
    → (i j : ℕ) → is_busy (s.pc i) ≡ true
    → is_busy (s.pc j) ≡ true
    → i ≡ j
mutual_exclusion r i j hi hj =
    let inv = Steps-Inv r in ground (arith, inv.owner i hi, inv.owner j hj)
