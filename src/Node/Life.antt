-- ===== src/Node/Life.antt =====
-- node.c: what holds of a node at any time.
use kdbus.Base.{ℕ, ◌+◌, ◌≤◌, ◌≡◌, true, false, arith, inl, inr, ◌⊎◌}
use kdbus.Node.Counter.{drained, is_active, acquire}
use kdbus.Node.Threads.{
  System, Internal, releasing_ref, waking, passing, sleeping, claiming, calling_active,
  calling_unused, storing_active, storing_unused, waking_active, waking_unused, unreferencing,
  finishing, sleeping_drained, Step, internal, activating, acquiring, marking, Reaches, initialized,
  stepped,
}
use kdbus.Node.Phases.{
  IsSound, is_new, is_live, is_closing, is_unused, is_releasing, is_drained, node_init-IsSound,
  activates-IsSound, acquires-IsSound, releases-IsSound, wakes-IsSound, marks-IsSound,
}
use kdbus.Node.Waits.{
  passes-IsSound, sleeps-IsSound, claims-IsSound, finishes-IsSound, sleeps_drained-IsSound,
}
use kdbus.Node.Release.{
  calls_active-IsSound, calls_unused-IsSound, stores_active-IsSound, stores_unused-IsSound,
  wakes_active-IsSound, wakes_unused-IsSound, unrefs-IsSound,
}

Internal-IsSound : {s t : System} → Internal s t → IsSound s → IsSound t
Internal-IsSound (releasing_ref s pos) sound = releases-IsSound s pos sound
Internal-IsSound (waking s pos) sound = wakes-IsSound s pos sound
Internal-IsSound (passing s pos none_left) sound = passes-IsSound s pos none_left sound
Internal-IsSound (sleeping s pos refs) sound = sleeps-IsSound s pos refs sound
Internal-IsSound (claiming s pos) sound = claims-IsSound s pos sound
Internal-IsSound (calling_active s pos) sound = calls_active-IsSound s pos sound
Internal-IsSound (calling_unused s pos) sound = calls_unused-IsSound s pos sound
Internal-IsSound (storing_active s pos) sound = stores_active-IsSound s pos sound
Internal-IsSound (storing_unused s pos) sound = stores_unused-IsSound s pos sound
Internal-IsSound (waking_active s pos) sound = wakes_active-IsSound s pos sound
Internal-IsSound (waking_unused s pos) sound = wakes_unused-IsSound s pos sound
Internal-IsSound (unreferencing s pos) sound = unrefs-IsSound s pos sound
Internal-IsSound (finishing s pos done) sound = finishes-IsSound s pos done sound
Internal-IsSound (sleeping_drained s pos early) sound = sleeps_drained-IsSound s pos early sound

Step-IsSound : {s t : System} → Step s t → IsSound s → IsSound t
Step-IsSound (internal i) sound = Internal-IsSound i sound
Step-IsSound (activating s) sound = activates-IsSound s sound
Step-IsSound (acquiring s few) sound = acquires-IsSound s few sound
Step-IsSound (marking s) sound = marks-IsSound s sound

pub reached-IsSound : {s : System} → Reaches s → IsSound s
reached-IsSound initialized = node_init-IsSound
reached-IsSound (stepped r step) = Step-IsSound step (reached-IsSound r)

-- The threads that have claimed the release and not called `release_cb` yet, and the calls
abbrev pub release_calls : System → ℕ
release_calls s = s.released + s.call_active + s.call_unused

-- On a node without children, at any time while fewer than 2^31 - 8 references are held at once:
-- `release_cb` has been called at most once, and at most one thread is to call it; from when it is
-- to be called on, nobody has an active reference; before it is called, no deactivation has
-- returned; when one has returned, the node is drained, and the reference that its activation took
-- is dropped, unless the thread that released the node has still to drop it. A node that is active
-- has not been released, can be acquired, and counts the active references exactly.
pub deactivation_safe :
    (s : System)
    → Reaches s
    → (release_calls s ≤ 1)
      × ((release_calls s ≡ 0) ⊎ (s.holders ≡ 0))
      × ((s.returned ≡ 0)
          ⊎ ((s.active ≡ drained)
              × (s.released ≡ 1)
              × ((s.node_refs ≡ 0) ⊎ ((s.node_refs ≡ 1) × (s.wake_active + s.unref ≡ 1)))))
      × ((is_active s.active ≡ false)
          ⊎ ((acquire s.active).1 ≡ true) × (s.released ≡ 0) × (s.active ≡ s.holders))
unfolding is_active acquire
deactivation_safe s r = safe (reached-IsSound r)
  where
    safe :
        IsSound s
        → (release_calls s ≤ 1)
          × ((release_calls s ≡ 0) ⊎ (s.holders ≡ 0))
          × ((s.returned ≡ 0)
              ⊎ ((s.active ≡ drained)
                  × (s.released ≡ 1)
                  × ((s.node_refs ≡ 0) ⊎ ((s.node_refs ≡ 1) × (s.wake_active + s.unref ≡ 1)))))
          × ((is_active s.active ≡ false)
              ⊎ ((acquire s.active).1 ≡ true) × (s.released ≡ 0) × (s.active ≡ s.holders))
    safe (is_new (a, z, p)) =
        (omega (arith, p), inl (omega (arith, p)), inl (omega (arith, p)), inl (ground (arith, a)))
    safe (is_live (a, h, n, z, p)) = (
      omega (arith, p),
      inl (omega (arith, p)),
      inl (omega (arith, p)),
      inr (ground (arith, a, h), omega (arith, p), a),
    )
    safe (is_closing (a, h, n, w, l, p)) = (
      omega (arith, p),
      inl (omega (arith, p)),
      inl (omega (arith, p)),
      inl (ground (arith, a, h)),
    )
    safe (is_unused (a, z, p)) =
        (omega (arith, p), inl (omega (arith, p)), inl (omega (arith, p)), inl (ground (arith, a)))
    safe (is_releasing (a, h, l, n, one, r, z)) =
        (omega (arith, one, r), inr h, inl (omega (arith, z)), inl (ground (arith, a)))
    safe (is_drained (a, h, l, d, n, c, w, r)) =
        (omega (arith, c, r), inr h, inr (a, r, last n w), inl (ground (arith, a)))
      where
        last :
            s.node_refs ≡ s.wake_active + s.unref
            → s.wake_active + s.wake_unused + s.unref ≤ 1
            → (s.node_refs ≡ 0) ⊎ ((s.node_refs ≡ 1) × (s.wake_active + s.unref ≡ 1))
        last n w = ground (arith, n, w)
