-- ===== src/Node/Waits.antt =====
-- node.c: what the waits and the second section of `kdbus_node_deactivate` make of the phases.
use kdbus.Base.{◌+◌, ◌-◌, ◌<◌, ◌≡◌, refl, sym, true, false, ◌==◌, arith, inl, inr, subst}
use kdbus.Node.Counter.{bias, release_direct, releasing, drained, no_refs, claim}
use kdbus.Node.Threads.{System, passes, sleeps, claims, finishes, sleeps_drained}
use kdbus.Node.Phases.{IsSound, is_new, is_live, is_closing, is_unused, is_releasing, is_drained}

pub passes-IsSound :
    (s : System) → 0 < s.marked → no_refs s.active ≡ true → IsSound s → IsSound (passes s)
unfolding passes no_refs
passes-IsSound s pos none_left (is_new (a, z, p)) = absurd (omega (arith, pos, z))
passes-IsSound s pos none_left (is_live (a, h, n, z, p)) = absurd (omega (arith, pos, z))
passes-IsSound s pos none_left (is_closing (a, h, n, w, l, p)) =
    is_closing (a, h, n, inr (ground (arith, none_left, a, h)), l, p)
passes-IsSound s pos none_left (is_unused u) = is_unused u
passes-IsSound s pos none_left (is_releasing u) = is_releasing u
passes-IsSound s pos none_left (is_drained u) = is_drained u

pub sleeps-IsSound :
    (s : System) → 0 < s.marked → no_refs s.active ≡ false → IsSound s → IsSound (sleeps s)
unfolding sleeps no_refs
sleeps-IsSound s pos refs (is_new (a, z, p)) = absurd (omega (arith, pos, z))
sleeps-IsSound s pos refs (is_live (a, h, n, z, p)) = absurd (omega (arith, pos, z))
sleeps-IsSound s pos refs (is_closing (a, h, n, w, l, p)) =
    is_closing (a, h, n, w, inr (ground (arith, refs, a, h)), p)
sleeps-IsSound s pos refs (is_unused (a, z, p)) = absurd (ground (arith, refs, a))
sleeps-IsSound s pos refs (is_releasing (a, h, l, n, one, r, z)) = absurd (ground (arith, refs, a))
sleeps-IsSound s pos refs (is_drained (a, h, l, d, n, c, w, r)) = absurd (ground (arith, refs, a))

-- The cases of the second section.
claims_active :
    (s : System)
    → s.active ≡ bias
    → claims s
      ≡ record s { active = releasing; passed = s.passed - 1; call_active = s.call_active + 1 }
unfolding claims claim
claims_active s a = ground (arith, a)

claims_unused :
    (s : System)
    → s.active ≡ release_direct
    → claims s
      ≡ record s { active = releasing; passed = s.passed - 1; call_unused = s.call_unused + 1 }
unfolding claims claim
claims_unused s a = ground (arith, a)

claims_late :
    (s : System)
    → s.active < release_direct
    → claims s ≡ record s { passed = s.passed - 1; awaiting = s.awaiting + 1 }
unfolding claims claim
claims_late s a = ground (arith, a)

pub claims-IsSound : (s : System) → 0 < s.passed → IsSound s → IsSound (claims s)
claims-IsSound s pos (is_new (a, z, p)) = absurd (omega (arith, pos, z))
claims-IsSound s pos (is_live (a, h, n, z, p)) = absurd (omega (arith, pos, z))
claims-IsSound s pos (is_closing (a, h, n, inl w, l, p)) = absurd (omega (arith, pos, w))
claims-IsSound s pos (is_closing (a, h, n, inr w, l, p)) =
    subst IsSound (sym (claims_active s (omega (arith, a, w)))) (
      is_releasing (
        refl,
        w,
        elim l [ inl e ↦ inl e | inr e ↦ inr (omega (arith, e, w)) ],
        omega (arith, n, p),
        omega (arith, p),
        omega (arith, p),
        omega (arith, p),
      ))
claims-IsSound s pos (is_unused (a, z, p)) = subst IsSound (sym (claims_unused s a)) (
    is_releasing (
      refl,
      omega (arith, z),
      inl (omega (arith, z)),
      omega (arith, z, p),
      omega (arith, p),
      omega (arith, p),
      omega (arith, p),
    ))
claims-IsSound s pos (is_releasing (a, h, l, n, one, r, z)) =
    subst IsSound (sym (claims_late s (omega (arith, a)))) (is_releasing (a, h, l, n, one, r, z))
claims-IsSound s pos (is_drained (a, h, l, d, n, c, w, r)) =
    subst IsSound (sym (claims_late s (omega (arith, a)))) (is_drained (a, h, l, d, n, c, w, r))

pub finishes-IsSound :
    (s : System) → 0 < s.awaiting → (s.active == drained) ≡ true → IsSound s → IsSound (finishes s)
unfolding finishes
finishes-IsSound s pos done (is_new (a, z, p)) = absurd (omega (arith, pos, p))
finishes-IsSound s pos done (is_live (a, h, n, z, p)) = absurd (omega (arith, pos, p))
finishes-IsSound s pos done (is_closing (a, h, n, w, l, p)) = absurd (omega (arith, pos, p))
finishes-IsSound s pos done (is_unused (a, z, p)) = absurd (omega (arith, pos, p))
finishes-IsSound s pos done (is_releasing (a, h, l, n, one, r, z)) =
    absurd (ground (arith, a, done))
finishes-IsSound s pos done (is_drained u) = is_drained u

pub sleeps_drained-IsSound :
    (s : System)
    → 0 < s.awaiting
    → (s.active == drained) ≡ false
    → IsSound s
    → IsSound (sleeps_drained s)
unfolding sleeps_drained
sleeps_drained-IsSound s pos early (is_new (a, z, p)) = absurd (omega (arith, pos, p))
sleeps_drained-IsSound s pos early (is_live (a, h, n, z, p)) = absurd (omega (arith, pos, p))
sleeps_drained-IsSound s pos early (is_closing (a, h, n, w, l, p)) = absurd (omega (arith, pos, p))
sleeps_drained-IsSound s pos early (is_unused (a, z, p)) = absurd (omega (arith, pos, p))
sleeps_drained-IsSound s pos early (is_releasing u) = is_releasing u
sleeps_drained-IsSound s pos early (is_drained (a, h, l, d, n, c, w, r)) =
    absurd (ground (arith, a, early))
