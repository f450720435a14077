-- ===== src/Node/Release.antt =====
-- node.c: what the thread that releases the node makes of the phases.
use kdbus.Base.{◌<◌, refl, arith, inl, inr}
use kdbus.Node.Threads.{
  System, calls_active, calls_unused, stores_active, stores_unused, wakes_active, wakes_unused,
  unrefs,
}
use kdbus.Node.Phases.{IsSound, is_new, is_live, is_closing, is_unused, is_releasing, is_drained}

pub calls_active-IsSound : (s : System) → 0 < s.call_active → IsSound s → IsSound (calls_active s)
unfolding calls_active
calls_active-IsSound s pos (is_new (a, z, p)) = absurd (omega (arith, pos, p))
calls_active-IsSound s pos (is_live (a, h, n, z, p)) = absurd (omega (arith, pos, p))
calls_active-IsSound s pos (is_closing (a, h, n, w, l, p)) = absurd (omega (arith, pos, p))
calls_active-IsSound s pos (is_unused (a, z, p)) = absurd (omega (arith, pos, p))
calls_active-IsSound s pos (is_releasing (a, h, l, n, one, r, z)) =
    is_releasing
      (a, h, l, omega (arith, n, pos), omega (arith, one, pos), omega (arith, one, r, pos), z)
calls_active-IsSound s pos (is_drained (a, h, l, d, n, c, w, r)) = absurd (omega (arith, pos, c))

pub calls_unused-IsSound : (s : System) → 0 < s.call_unused → IsSound s → IsSound (calls_unused s)
unfolding calls_unused
calls_unused-IsSound s pos (is_new (a, z, p)) = absurd (omega (arith, pos, p))
calls_unused-IsSound s pos (is_live (a, h, n, z, p)) = absurd (omega (arith, pos, p))
calls_unused-IsSound s pos (is_closing (a, h, n, w, l, p)) = absurd (omega (arith, pos, p))
calls_unused-IsSound s pos (is_unused (a, z, p)) = absurd (omega (arith, pos, p))
calls_unused-IsSound s pos (is_releasing (a, h, l, n, one, r, z)) =
    is_releasing
      (a, h, l, omega (arith, n, pos), omega (arith, one, pos), omega (arith, one, r, pos), z)
calls_unused-IsSound s pos (is_drained (a, h, l, d, n, c, w, r)) = absurd (omega (arith, pos, c))

pub stores_active-IsSound :
    (s : System) → 0 < s.store_active → IsSound s → IsSound (stores_active s)
unfolding stores_active
stores_active-IsSound s pos (is_new (a, z, p)) = absurd (omega (arith, pos, p))
stores_active-IsSound s pos (is_live (a, h, n, z, p)) = absurd (omega (arith, pos, p))
stores_active-IsSound s pos (is_closing (a, h, n, w, l, p)) = absurd (omega (arith, pos, p))
stores_active-IsSound s pos (is_unused (a, z, p)) = absurd (omega (arith, pos, p))
stores_active-IsSound s pos (is_releasing (a, h, l, n, one, r, z)) = is_drained (
  refl,
  h,
  inr (omega arith),
  inr (omega arith),
  omega (arith, n, one, z, pos),
  omega (arith, one, pos),
  omega (arith, z),
  omega (arith, r, one, pos),
)
stores_active-IsSound s pos (is_drained (a, h, l, d, n, c, w, r)) = absurd (omega (arith, pos, c))

pub stores_unused-IsSound :
    (s : System) → 0 < s.store_unused → IsSound s → IsSound (stores_unused s)
unfolding stores_unused
stores_unused-IsSound s pos (is_new (a, z, p)) = absurd (omega (arith, pos, p))
stores_unused-IsSound s pos (is_live (a, h, n, z, p)) = absurd (omega (arith, pos, p))
stores_unused-IsSound s pos (is_closing (a, h, n, w, l, p)) = absurd (omega (arith, pos, p))
stores_unused-IsSound s pos (is_unused (a, z, p)) = absurd (omega (arith, pos, p))
stores_unused-IsSound s pos (is_releasing (a, h, l, n, one, r, z)) = is_drained (
  refl,
  h,
  inr (omega arith),
  inr (omega arith),
  omega (arith, n, one, z, pos),
  omega (arith, one, pos),
  omega (arith, z),
  omega (arith, r, one, pos),
)
stores_unused-IsSound s pos (is_drained (a, h, l, d, n, c, w, r)) = absurd (omega (arith, pos, c))

pub wakes_active-IsSound : (s : System) → 0 < s.wake_active → IsSound s → IsSound (wakes_active s)
unfolding wakes_active
wakes_active-IsSound s pos (is_new (a, z, p)) = absurd (omega (arith, pos, p))
wakes_active-IsSound s pos (is_live (a, h, n, z, p)) = absurd (omega (arith, pos, p))
wakes_active-IsSound s pos (is_closing (a, h, n, w, l, p)) = absurd (omega (arith, pos, p))
wakes_active-IsSound s pos (is_unused (a, z, p)) = absurd (omega (arith, pos, p))
wakes_active-IsSound s pos (is_releasing (a, h, l, n, one, r, z)) = absurd (omega (arith, pos, z))
wakes_active-IsSound s pos (is_drained (a, h, l, d, n, c, w, r)) =
    is_drained (a, h, inl refl, inl refl, omega (arith, n, pos), c, omega (arith, w, pos), r)

pub wakes_unused-IsSound : (s : System) → 0 < s.wake_unused → IsSound s → IsSound (wakes_unused s)
unfolding wakes_unused
wakes_unused-IsSound s pos (is_new (a, z, p)) = absurd (omega (arith, pos, p))
wakes_unused-IsSound s pos (is_live (a, h, n, z, p)) = absurd (omega (arith, pos, p))
wakes_unused-IsSound s pos (is_closing (a, h, n, w, l, p)) = absurd (omega (arith, pos, p))
wakes_unused-IsSound s pos (is_unused (a, z, p)) = absurd (omega (arith, pos, p))
wakes_unused-IsSound s pos (is_releasing (a, h, l, n, one, r, z)) = absurd (omega (arith, pos, z))
wakes_unused-IsSound s pos (is_drained (a, h, l, d, n, c, w, r)) =
    is_drained (a, h, inl refl, inl refl, omega (arith, n, pos), c, omega (arith, w, pos), r)

pub unrefs-IsSound : (s : System) → 0 < s.unref → IsSound s → IsSound (unrefs s)
unfolding unrefs
unrefs-IsSound s pos (is_new (a, z, p)) = absurd (omega (arith, pos, p))
unrefs-IsSound s pos (is_live (a, h, n, z, p)) = absurd (omega (arith, pos, p))
unrefs-IsSound s pos (is_closing (a, h, n, w, l, p)) = absurd (omega (arith, pos, p))
unrefs-IsSound s pos (is_unused (a, z, p)) = absurd (omega (arith, pos, p))
unrefs-IsSound s pos (is_releasing (a, h, l, n, one, r, z)) = absurd (omega (arith, pos, z))
unrefs-IsSound s pos (is_drained (a, h, l, d, n, c, w, r)) =
    is_drained (a, h, l, d, omega (arith, n, pos), c, omega (arith, w, pos), r)
