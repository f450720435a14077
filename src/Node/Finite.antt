-- ===== src/Node/Finite.antt =====
-- node.c: the threads that use a node do not go on for ever.
use kdbus.Base.{ℕ, zero, suc, ◌+◌, ◌*◌, ◌≤◌, ◌<◌, arith, inl, inr, ◌⊎◌}
use kdbus.Node.Counter.{claim, release}
use kdbus.Node.Threads.{
  System, Internal, releasing_ref, waking, passing, sleeping, claiming, calling_active,
  calling_unused, storing_active, storing_unused, waking_active, waking_unused, unreferencing,
  finishing, sleeping_drained, releases, wakes, passes, sleeps, claims, calls_active, calls_unused,
  stores_active, stores_unused, wakes_active, wakes_unused, unrefs, finishes, sleeps_drained,
}

-- Every sequence of steps of the threads that are under way comes to an end.
pub data IsFinite : System → Type 0 where
  ends : (s : System) → ((t : System) → Internal s t → IsFinite t) → IsFinite s

-- The thread that releases the node
abbrev pub releaser : System → ℕ
releaser s =
    s.call_active + s.call_unused + s.store_active + s.store_unused + s.wake_active + s.wake_unused

-- The deactivations that have begun and not returned
abbrev pub pending : System → ℕ
pending s = s.marked + s.asleep + s.passed + releaser s + s.unref + s.awaiting + s.asleep_drained

-- All threads that are under way
abbrev pub under_way : System → ℕ
under_way s = s.holders + s.wakers + pending s

-- The threads that have not gone through the last wake-up that they can cause
abbrev pub wake_ups : System → ℕ
wake_ups s = s.holders + s.wakers + s.marked + s.asleep + s.passed + releaser s

-- The steps up to the next wake-up
abbrev work : System → ℕ
work s =
    2 * s.holders
    + s.wakers
    + 8 * s.marked
    + 7 * s.asleep
    + 6 * s.passed
    + 5 * (s.call_active + s.call_unused)
    + 4 * (s.store_active + s.store_unused)
    + 3 * (s.wake_active + s.wake_unused)
    + s.unref
    + 2 * s.awaiting
    + s.asleep_drained

abbrev IsLess : System → System → Type 0
IsLess t s = (wake_ups t < wake_ups s) ⊎ ((wake_ups t ≤ wake_ups s) × (work t < work s))

releases-IsLess : (s : System) → 0 < s.holders → IsLess (releases s) s
unfolding releases release
releases-IsLess s pos = inr (ground (arith, pos), ground (arith, pos))

claims-IsLess : (s : System) → 0 < s.passed → IsLess (claims s) s
unfolding claims claim
claims-IsLess s pos = inr (ground (arith, pos), ground (arith, pos))

Internal-IsLess : {s t : System} → Internal s t → IsLess t s
unfolding wakes passes sleeps calls_active calls_unused stores_active stores_unused wakes_active
    wakes_unused unrefs finishes sleeps_drained
Internal-IsLess (releasing_ref s pos) = releases-IsLess s pos
Internal-IsLess (waking s pos) = inl (omega (arith, pos))
Internal-IsLess (passing s pos none_left) = inr (omega (arith, pos), omega (arith, pos))
Internal-IsLess (sleeping s pos refs) = inr (omega (arith, pos), omega (arith, pos))
Internal-IsLess (claiming s pos) = claims-IsLess s pos
Internal-IsLess (calling_active s pos) = inr (omega (arith, pos), omega (arith, pos))
Internal-IsLess (calling_unused s pos) = inr (omega (arith, pos), omega (arith, pos))
Internal-IsLess (storing_active s pos) = inr (omega (arith, pos), omega (arith, pos))
Internal-IsLess (storing_unused s pos) = inr (omega (arith, pos), omega (arith, pos))
Internal-IsLess (waking_active s pos) = inl (omega (arith, pos))
Internal-IsLess (waking_unused s pos) = inl (omega (arith, pos))
Internal-IsLess (unreferencing s pos) = inr (omega (arith, pos), omega (arith, pos))
Internal-IsLess (finishing s pos done) = inr (omega (arith, pos), omega (arith, pos))
Internal-IsLess (sleeping_drained s pos early) = inr (omega (arith, pos), omega (arith, pos))

ends_below :
    (m : ℕ)
    → ((t : System) → wake_ups t < m → IsFinite t)
    → (n : ℕ) (s : System) → wake_ups s ≤ m
    → work s < n
    → IsFinite s
ends_below m below zero s few short = absurd (omega (arith, short))
ends_below m below (suc n) s few short = ends s (λ t step. elim (Internal-IsLess step) [
  | inl fewer ↦ below t (omega (arith, fewer, few))
  | inr less ↦ ends_below m below n t (omega (arith, less.0, few)) (omega (arith, less.1, short))
])

pub all_end : (m : ℕ) (s : System) → wake_ups s < m → IsFinite s
all_end zero s few = absurd (omega (arith, few))
all_end (suc m) s few = ends_below m (all_end m) (suc (work s)) s (omega (arith, few)) (omega arith)
