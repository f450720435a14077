-- ===== src/Node/Phases.antt =====
-- node.c: the phases of a node, and what the steps outside `kdbus_node_deactivate` make of them.
use kdbus.Base.{ℕ, ◌+◌, ◌^◌, ◌≤◌, ◌<◌, ◌≡◌, refl, arith, inl, inr, ◌⊎◌}
use kdbus.Node.Counter.{
  bias, release_direct, releasing, drained, new, activate, acquire, release, mark,
}
use kdbus.Node.Threads.{System, node_init, activates, acquires, releases, wakes, marks}

-- The threads behind the second section of `kdbus_node_deactivate`, and the calls of `release_cb`.
abbrev pub past : System → ℕ
past s =
    s.call_active + s.call_unused + s.store_active + s.store_unused + s.wake_active + s.wake_unused
    + s.unref + s.awaiting + s.asleep_drained + s.returned + s.released

-- Nobody has called anything yet.
abbrev pub IsNew : System → Type 0
IsNew s =
    (s.active ≡ new)
    × (s.holders + s.wakers + s.node_refs + s.marked + s.asleep + s.passed ≡ 0)
    × (past s ≡ 0)

-- Active: the counter is that of the references.
abbrev pub IsLive : System → Type 0
IsLive s =
    (s.active ≡ s.holders)
    × (s.holders + 7 < 2 ^ 31)
    × (s.node_refs ≡ 1)
    × (s.wakers + s.marked + s.asleep + s.passed ≡ 0)
    × (past s ≡ 0)

-- Deactivated, with references left, or with nobody behind the first wait; who sleeps in that wait
-- will be woken by a thread that has or had a reference.
abbrev pub IsClosing : System → Type 0
IsClosing s =
    (s.active ≡ bias + s.holders)
    × (s.holders + 7 < 2 ^ 31)
    × (s.node_refs ≡ 1)
    × ((s.passed ≡ 0) ⊎ (s.holders ≡ 0))
    × ((s.asleep ≡ 0) ⊎ (0 < s.holders + s.wakers))
    × (past s ≡ 0)

-- Deactivated without ever having been active.
abbrev pub IsUnused : System → Type 0
IsUnused s =
    (s.active ≡ release_direct) × (s.holders + s.wakers + s.node_refs + s.asleep ≡ 0) × (past s ≡ 0)

-- One thread releases the node.
abbrev pub IsReleasing : System → Type 0
IsReleasing s =
    (s.active ≡ releasing)
    × (s.holders ≡ 0)
    × ((s.asleep ≡ 0) ⊎ (0 < s.wakers))
    × (s.node_refs ≡ s.call_active + s.store_active)
    × (s.call_active + s.call_unused + s.store_active + s.store_unused ≡ 1)
    × (s.released ≡ s.store_active + s.store_unused)
    × (s.wake_active + s.wake_unused + s.unref + s.returned ≡ 0)

-- The node is drained; that thread may still have to wake the others, and to drop the reference.
abbrev pub IsDrained : System → Type 0
IsDrained s =
    (s.active ≡ drained)
    × (s.holders ≡ 0)
    × ((s.asleep ≡ 0) ⊎ (0 < s.wakers + s.wake_active + s.wake_unused))
    × ((s.asleep_drained ≡ 0) ⊎ (0 < s.wake_active + s.wake_unused))
    × (s.node_refs ≡ s.wake_active + s.unref)
    × (s.call_active + s.call_unused + s.store_active + s.store_unused ≡ 0)
    × (s.wake_active + s.wake_unused + s.unref ≤ 1)
    × (s.released ≡ 1)

pub data IsSound (s : System) : Type 0 where
  is_new : IsNew s → IsSound s
  is_live : IsLive s → IsSound s
  is_closing : IsClosing s → IsSound s
  is_unused : IsUnused s → IsSound s
  is_releasing : IsReleasing s → IsSound s
  is_drained : IsDrained s → IsSound s

pub node_init-IsSound : IsSound node_init
unfolding node_init
node_init-IsSound = is_new (refl, refl, refl)

pub activates-IsSound : (s : System) → IsSound s → IsSound (activates s)
unfolding activates activate
activates-IsSound s (is_new (a, z, p)) =
    is_live (ground (arith, a, z), omega (arith, z), ground (arith, a, z), omega (arith, z), p)
activates-IsSound s (is_live (a, h, n, z, p)) =
    is_live (ground (arith, a, h), h, ground (arith, a, h, n), z, p)
activates-IsSound s (is_closing (a, h, n, w, l, p)) =
    is_closing (ground (arith, a, h), h, ground (arith, a, h, n), w, l, p)
activates-IsSound s (is_unused (a, z, p)) = is_unused (ground (arith, a), ground (arith, a, z), p)
activates-IsSound s (is_releasing (a, h, l, n, one, r, z)) =
    is_releasing (ground (arith, a), h, l, ground (arith, a, n), one, r, z)
activates-IsSound s (is_drained (a, h, l, d, n, c, w, r)) =
    is_drained (ground (arith, a), h, l, d, ground (arith, a, n), c, w, r)

pub acquires-IsSound : (s : System) → s.holders + 8 < 2 ^ 31 → IsSound s → IsSound (acquires s)
unfolding acquires acquire
acquires-IsSound s few (is_new (a, z, p)) = is_new (ground (arith, a), ground (arith, a, z), p)
acquires-IsSound s few (is_live (a, h, n, z, p)) =
    is_live (ground (arith, a, h), ground (arith, a, h, few), n, z, p)
acquires-IsSound s few (is_closing (a, h, n, w, l, p)) = is_closing (
  ground (arith, a, h),
  ground (arith, a, h),
  n,
  elim w [ inl e ↦ inl e | inr e ↦ inr (ground (arith, a, e)) ],
  elim l [ inl e ↦ inl e | inr e ↦ inr (ground (arith, a, e)) ],
  p,
)
acquires-IsSound s few (is_unused (a, z, p)) =
    is_unused (ground (arith, a), ground (arith, a, z), p)
acquires-IsSound s few (is_releasing (a, h, l, n, one, r, z)) =
    is_releasing (ground (arith, a), ground (arith, a, h), l, n, one, r, z)
acquires-IsSound s few (is_drained (a, h, l, d, n, c, w, r)) =
    is_drained (ground (arith, a), ground (arith, a, h), l, d, n, c, w, r)

pub releases-IsSound : (s : System) → 0 < s.holders → IsSound s → IsSound (releases s)
unfolding releases release
releases-IsSound s pos (is_new (a, z, p)) = absurd (omega (arith, pos, z))
releases-IsSound s pos (is_live (a, h, n, z, p)) =
    is_live (omega (arith, a, h, pos), omega (arith, h, pos), n, ground (arith, a, h, pos, z), p)
releases-IsSound s pos (is_closing (a, h, n, w, l, p)) = is_closing (
  omega (arith, a, h, pos),
  omega (arith, h, pos),
  n,
  elim w [ inl e ↦ inl e | inr e ↦ inr (omega (arith, e)) ],
  inr (ground (arith, a, h, pos)),
  p,
)
releases-IsSound s pos (is_unused (a, z, p)) = absurd (omega (arith, pos, z))
releases-IsSound s pos (is_releasing (a, h, l, n, one, r, z)) = absurd (omega (arith, pos, h))
releases-IsSound s pos (is_drained (a, h, l, d, n, c, w, r)) = absurd (omega (arith, pos, h))

pub wakes-IsSound : (s : System) → 0 < s.wakers → IsSound s → IsSound (wakes s)
unfolding wakes
wakes-IsSound s pos (is_new (a, z, p)) = absurd (omega (arith, pos, z))
wakes-IsSound s pos (is_live (a, h, n, z, p)) = absurd (omega (arith, pos, z))
wakes-IsSound s pos (is_closing (a, h, n, w, l, p)) =
    is_closing (a, h, n, w, inl refl, omega (arith, p))
wakes-IsSound s pos (is_unused (a, z, p)) = absurd (omega (arith, pos, z))
wakes-IsSound s pos (is_releasing (a, h, l, n, one, r, z)) =
    is_releasing (a, h, inl refl, n, one, r, z)
wakes-IsSound s pos (is_drained (a, h, l, d, n, c, w, r)) =
    is_drained (a, h, inl refl, inl refl, n, c, w, r)

pub marks-IsSound : (s : System) → IsSound s → IsSound (marks s)
unfolding marks mark
marks-IsSound s (is_new (a, z, p)) = is_unused (ground (arith, a), omega (arith, z), p)
marks-IsSound s (is_live (a, h, n, z, p)) =
    is_closing (ground (arith, a, h), h, n, inl (omega (arith, z)), inl (omega (arith, z)), p)
marks-IsSound s (is_closing (a, h, n, w, l, p)) = is_closing (ground (arith, a, h), h, n, w, l, p)
marks-IsSound s (is_unused (a, z, p)) = is_unused (ground (arith, a), z, p)
marks-IsSound s (is_releasing (a, h, l, n, one, r, z)) =
    is_releasing (ground (arith, a), h, l, n, one, r, z)
marks-IsSound s (is_drained (a, h, l, d, n, c, w, r)) =
    is_drained (ground (arith, a), h, l, d, n, c, w, r)
