-- ===== src/Ratings/Protocol/Progress.antt =====
-- Which tasks of src/ratings/categories.rs can still return.
use app_center_ratings.Prelude.{some, ℕ, ◌≡◌, ◌⊎◌, inl, inr, refl, true, arith, Option-cases}
use app_center_ratings.Ratings.Protocol.{
  Pc, start, checked, found, waiting, updating, updated, returned, dropped, is_busy, System, Step,
  skip, claim, join, register, update, finish, init, Steps, here, next,
}
use app_center_ratings.Ratings.Protocol.Exclusion.{Inv, Steps-Inv}

Steps-cons : {s t u : System} → Step s t → Steps t u → Steps s u
Steps-cons step here = next here step
Steps-cons step (next path last) = next (Steps-cons step path) last

-- There is a run in which the task returns.
abbrev pub CanReturn : System → ℕ → Type 0
CanReturn s i = (t : System) × Steps s t × (t.pc i ≡ returned)

-- The task has or waits on the `Notify` of one that has returned or was dropped.
abbrev pub IsLost : System → ℕ → Type 0
IsLost s i =
    (n : ℕ) × ((s.pc i ≡ found n) ⊎ (s.pc i ≡ waiting n))
    × ((s.pc n ≡ returned) ⊎ (s.pc n ≡ dropped))

-- The task is to look for an entry, and finds that of one that was dropped.
abbrev pub IsBlocked : System → ℕ → Type 0
IsBlocked s i = (n : ℕ) × (s.pc i ≡ checked) × (s.entry ≡ some n) × (s.pc n ≡ dropped)

CanReturn-cons : {s t : System} (i : ℕ) → Step s t → CanReturn t i → CanReturn s i
CanReturn-cons i step (u, path, end) = (u, Steps-cons step path, end)

-- A task that is busy can finish, and with it return all that wait on it.
module _ (s : System) (n : ℕ) where
  busy_ends : (i : ℕ) → is_busy (s.pc n) ≡ true → (s.pc i ≡ waiting n) ⊎ (i ≡ n) → CanReturn s i
  busy_ends i busy h = ends (s.pc n) refl busy
    where
      ends : (p : Pc) → s.pc n ≡ p → is_busy p ≡ true → CanReturn s i
      ends updating e b =
          (_, next (next here (update n true e)) (finish n ground arith), ground arith)
      ends updated e b = (_, next here (finish n e), ground arith)
      ends start e b = absurd (ground arith)
      ends checked e b = absurd (ground arith)
      ends (found m) e b = absurd (ground arith)
      ends (waiting m) e b = absurd (ground arith)
      ends returned e b = absurd (ground arith)
      ends dropped e b = absurd (ground arith)

found_returns : (s : System) (i n : ℕ) → s.pc i ≡ found n → is_busy (s.pc n) ≡ true → CanReturn s i
found_returns s i n e busy =
    CanReturn-cons i (register i n e) (busy_ends _ n i (ground arith) (inl (ground arith)))

checked_returns : (s : System) (i : ℕ) → s.pc i ≡ checked → Inv s → CanReturn s i ⊎ IsBlocked s i
checked_returns s i e inv = elim (Option-cases s.entry) [
  | inl free ↦ inl (CanReturn-cons i (claim i e free) (busy_ends _ i i (ground arith) (inr refl)))
  | inr (n, held) ↦ elim (inv.busy n held) [
    | inl busy ↦
        inl (CanReturn-cons i (join i n e held) (found_returns _ i n (ground arith) (ground arith)))
    | inr gone ↦ inr (n, e, held, gone)
  ]
]

-- From every state that tasks reach there is a run in which a given task returns, unless it has
-- or waits on the `Notify` of a task that has returned or was dropped, or has found no
-- categories and is before the first lock while the entry is that of a task that was dropped, or
-- was itself dropped between the two locks.
pub CanReturn-unless :
    {s : System}
    → Steps init s
    → (i : ℕ) → CanReturn s i ⊎ (IsLost s i ⊎ (IsBlocked s i ⊎ (s.pc i ≡ dropped)))
CanReturn-unless {s} path i = ends (s.pc i) refl (Steps-Inv path)
  where
    lost :
        (n : ℕ)
        → (s.pc i ≡ found n) ⊎ (s.pc i ≡ waiting n)
        → (s.pc n ≡ returned) ⊎ ((s.pc n ≡ dropped) × (s.entry ≡ some n))
        → IsLost s i
    lost n at (inl gone) = (n, at, inl gone)
    lost n at (inr (gone, _)) = (n, at, inr gone)

    ends :
        (p : Pc)
        → s.pc i ≡ p
        → Inv s
        → CanReturn s i ⊎ (IsLost s i ⊎ (IsBlocked s i ⊎ (s.pc i ≡ dropped)))
    ends start e inv = inl (_, next here (skip i e), ground arith)
    ends checked e inv = elim (checked_returns s i e inv) [
      | inl returns ↦ inl returns
      | inr blocked ↦ inr (inr (inl blocked))
    ]
    ends (found n) e inv = elim (inv.joined i n e) [
      | inl busy ↦ inl (found_returns s i n e busy)
      | inr over ↦ inr (inl (lost n (inl e) over))
    ]
    ends (waiting n) e inv = elim (inv.waits i n e) [
      | inl busy ↦ inl (busy_ends s n i busy (inl e))
      | inr over ↦ inr (inl (lost n (inr e) over))
    ]
    ends updating e inv = inl (busy_ends s i i (ground arith) (inr refl))
    ends updated e inv = inl (busy_ends s i i (ground arith) (inr refl))
    ends returned e inv = inl (s, here, e)
    ends dropped e inv = inr (inr (inr e))
