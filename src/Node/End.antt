-- ===== src/Node/End.antt =====
-- node.c: the threads in `kdbus_node_deactivate` neither go on for ever nor sleep for ever.
use kdbus.Base.{ℕ, zero, suc, ◌+◌, ◌<◌, ◌≡◌, refl, ◌∙◌, ◌==◌, arith, inl, inr, ◌⊎◌, Bool-cases}
use kdbus.Node.Counter.{drained, no_refs, claim}
use kdbus.Node.Threads.{
  System, Internal, releasing_ref, waking, passing, sleeping, claiming, calling_active,
  calling_unused, storing_active, storing_unused, waking_active, waking_unused, unreferencing,
  finishing, sleeping_drained, internal, Reaches, stepped, releases, wakes, passes, sleeps, claims,
  calls_active, calls_unused, stores_active, stores_unused, wakes_active, wakes_unused, unrefs,
  finishes, sleeps_drained,
}
use kdbus.Node.Phases.{IsSound, is_new, is_live, is_closing, is_unused, is_releasing, is_drained}
use kdbus.Node.Life.{reached-IsSound}
use kdbus.Node.Finite.{IsFinite, pending, under_way, wake_ups, all_end}

pub data Run : System → System → Type 0 where
  rests : (s : System) → Run s s
  goes_on : {s t u : System} → Internal s t → Run t u → Run s u

claims_counts :
    (s : System) → 0 < s.passed → (claims s).returned + pending (claims s) ≡ s.returned + pending s
unfolding claims claim
claims_counts s pos = ground (arith, pos)

-- No deactivation is lost.
Internal-counts : {s t : System} → Internal s t → t.returned + pending t ≡ s.returned + pending s
unfolding releases wakes passes sleeps calls_active calls_unused stores_active stores_unused
    wakes_active wakes_unused unrefs finishes sleeps_drained
Internal-counts (releasing_ref s pos) = omega arith
Internal-counts (waking s pos) = omega (arith, pos)
Internal-counts (passing s pos none_left) = omega (arith, pos)
Internal-counts (sleeping s pos refs) = omega (arith, pos)
Internal-counts (claiming s pos) = claims_counts s pos
Internal-counts (calling_active s pos) = omega (arith, pos)
Internal-counts (calling_unused s pos) = omega (arith, pos)
Internal-counts (storing_active s pos) = omega (arith, pos)
Internal-counts (storing_unused s pos) = omega (arith, pos)
Internal-counts (waking_active s pos) = omega (arith, pos)
Internal-counts (waking_unused s pos) = omega (arith, pos)
Internal-counts (unreferencing s pos) = omega (arith, pos)
Internal-counts (finishing s pos done) = omega (arith, pos)
Internal-counts (sleeping_drained s pos early) = omega (arith, pos)

Run-counts : {s t : System} → Run s t → t.returned + pending t ≡ s.returned + pending s
Run-counts (rests s) = refl
Run-counts (goes_on i run) = Run-counts run ∙ Internal-counts i

Run-Reaches : {s t : System} → Reaches s → Run s t → Reaches t
Run-Reaches r (rests s) = r
Run-Reaches r (goes_on i run) = Run-Reaches (stepped r (internal i)) run

one_of : (m n : ℕ) → 0 < m + n → (0 < m) ⊎ (0 < n)
one_of zero n pos = inr (omega (arith, pos))
one_of (suc m) n pos = inl (omega arith)

-- The threads that do not sleep
abbrev awake : System → ℕ
awake s =
    s.holders
    + (s.wakers
        + (s.marked
            + (s.passed
                + (s.call_active
                    + (s.call_unused
                        + (s.store_active
                            + (s.store_unused
                                + (s.wake_active + (s.wake_unused + (s.unref + s.awaiting))))))))))

first_wait : (s : System) → 0 < s.marked → (t : System) × Internal s t
first_wait s pos = elim (Bool-cases (no_refs s.active)) [
  | inl none_left ↦ (passes s, passing s pos none_left)
  | inr refs ↦ (sleeps s, sleeping s pos refs)
]

second_wait : (s : System) → 0 < s.awaiting → (t : System) × Internal s t
second_wait s pos = elim (Bool-cases (s.active == drained)) [
  | inl done ↦ (finishes s, finishing s pos done)
  | inr early ↦ (sleeps_drained s, sleeping_drained s pos early)
]

-- A thread that is awake can go on.
awake_goes : (s : System) → 0 < awake s → (t : System) × Internal s t
awake_goes s pos = elim (one_of s.holders _ pos) [
  | inl h ↦ (releases s, releasing_ref s h)
  | inr p0 ↦ elim (one_of s.wakers _ p0) [
    | inl h ↦ (wakes s, waking s h)
    | inr p1 ↦ elim (one_of s.marked _ p1) [
      | inl h ↦ first_wait s h
      | inr p2 ↦ elim (one_of s.passed _ p2) [
        | inl h ↦ (claims s, claiming s h)
        | inr p3 ↦ behind_claim s p3
      ]
    ]
  ]
]
  where
    behind_wake : (s : System) → 0 < s.unref + s.awaiting → (t : System) × Internal s t
    behind_wake s p = elim (one_of s.unref _ p) [
      | inl h ↦ (unrefs s, unreferencing s h)
      | inr q ↦ second_wait s q
    ]

    behind_store :
        (s : System)
        → 0 < s.wake_active + (s.wake_unused + (s.unref + s.awaiting))
        → (t : System) × Internal s t
    behind_store s p = elim (one_of s.wake_active _ p) [
      | inl h ↦ (wakes_active s, waking_active s h)
      | inr q ↦ elim (one_of s.wake_unused _ q) [
        | inl h ↦ (wakes_unused s, waking_unused s h)
        | inr u ↦ behind_wake s u
      ]
    ]

    behind_call :
        (s : System)
        → 0
          < s.store_active
            + (s.store_unused + (s.wake_active + (s.wake_unused + (s.unref + s.awaiting))))
        → (t : System) × Internal s t
    behind_call s p = elim (one_of s.store_active _ p) [
      | inl h ↦ (stores_active s, storing_active s h)
      | inr q ↦ elim (one_of s.store_unused _ q) [
        | inl h ↦ (stores_unused s, storing_unused s h)
        | inr u ↦ behind_store s u
      ]
    ]

    behind_claim :
        (s : System)
        → 0
          < s.call_active
            + (s.call_unused
                + (s.store_active
                    + (s.store_unused
                        + (s.wake_active + (s.wake_unused + (s.unref + s.awaiting))))))
        → (t : System) × Internal s t
    behind_claim s p = elim (one_of s.call_active _ p) [
      | inl h ↦ (calls_active s, calling_active s h)
      | inr q ↦ elim (one_of s.call_unused _ q) [
        | inl h ↦ (calls_unused s, calling_unused s h)
        | inr u ↦ behind_call s u
      ]
    ]

-- Nobody sleeps whom nobody will wake.
somebody_awake : (s : System) → IsSound s → 0 < under_way s → 0 < awake s
somebody_awake s (is_new (a, z, p)) pos = omega (arith, pos, z, p)
somebody_awake s (is_live (a, h, n, z, p)) pos = omega (arith, pos, z, p)
somebody_awake s (is_closing (a, h, n, w, inl l, p)) pos = omega (arith, pos, l, p)
somebody_awake s (is_closing (a, h, n, w, inr l, p)) pos = omega (arith, l)
somebody_awake s (is_unused (a, z, p)) pos = omega (arith, pos, z, p)
somebody_awake s (is_releasing (a, h, l, n, one, r, z)) pos = omega (arith, one)
somebody_awake s (is_drained (a, h, inl l, inl d, n, c, w, r)) pos = omega (arith, pos, l, d)
somebody_awake s (is_drained (a, h, inr l, d, n, c, w, r)) pos = omega (arith, l)
somebody_awake s (is_drained (a, h, l, inr d, n, c, w, r)) pos = omega (arith, d)

returned-drained : (s : System) → IsSound s → (s.active ≡ drained) ⊎ (s.returned ≡ 0)
returned-drained s (is_new (a, z, p)) = inr (omega (arith, p))
returned-drained s (is_live (a, h, n, z, p)) = inr (omega (arith, p))
returned-drained s (is_closing (a, h, n, w, l, p)) = inr (omega (arith, p))
returned-drained s (is_unused (a, z, p)) = inr (omega (arith, p))
returned-drained s (is_releasing (a, h, l, n, one, r, z)) = inr (omega (arith, z))
returned-drained s (is_drained (a, h, l, d, n, c, w, r)) = inl a

-- On a node without children that fewer than 2^31 - 8 threads have used at once, once no new calls
-- begin: in whatever order the threads that are under way go on, those asleep only after a wake-up,
-- their steps come to an end. As long as any thread is under way, asleep or not, some thread can go
-- on. When none is left, each deactivation that had begun has returned, and the node is drained, if
-- there was a deactivation at all.
pub deactivation_ends :
    (s t : System)
    → Reaches s
    → Run s t
    → IsFinite t
      × (((u : System) × Internal t u)
          ⊎ ((under_way t ≡ 0)
              × (t.returned ≡ s.returned + pending s)
              × ((t.active ≡ drained) ⊎ (s.returned + pending s ≡ 0))))
deactivation_ends s t r run =
    let sound = reached-IsSound (Run-Reaches r run) in
    let same = Run-counts run in
    (
      all_end (suc (wake_ups t)) t (omega arith),
      elim (Bool-cases (under_way t == 0)) [
        | inl e ↦
            let over : under_way t ≡ 0 = ground (arith, e) in
            let all : t.returned ≡ s.returned + pending s = omega (arith, over, same) in
            inr (
              over,
              all,
              elim (returned-drained t sound) [
                | inl at_end ↦ inl at_end
                | inr nobody ↦ inr (omega (arith, all, nobody))
              ],
            )
        | inr e ↦ inl (awake_goes t (somebody_awake t sound (ground (arith, e))))
      ],
    )
