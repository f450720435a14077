-- ===== src/Pool/Layout.antt =====
-- pool.c: the slices tile the pool, and no two free ones are neighbours.
use kdbus.Base.{ℕ, ◌+◌, ◌<◌, ◌≡◌, refl, sym, ap, Bool, false, not, ◌&&◌, ◌||◌, List, [], ◌∷◌}
use kdbus.Pool.Slices.{Slice, rejoin}

-- A slice is free if and only if nobody has a reference to it.
abbrev pub IsRefd : Slice → Type 0
IsRefd s = s.free ≡ not (s.ref_kernel || s.ref_user)

-- From offset `m` on, behind a slice that is free if `f` is true, the slices lie side by side to `end`.
abbrev pub Onward : ℕ → Bool → List Slice → ℕ → Type 0
Onward m f [] end = m ≡ end
Onward m f (s ∷ l) end =
    (s.off ≡ m)
    × (0 < s.size)
    × ((f && s.free) ≡ false)
    × IsRefd s
    × Onward (m + s.size) s.free l end

abbrev pub front_free : List Slice → Bool
front_free [] = false
front_free (b ∷ before) = b.free

-- The same, read backwards from offset `m` to offset 0.
abbrev pub Backward : List Slice → ℕ → Type 0
Backward [] m = m ≡ 0
Backward (b ∷ before) m =
    (b.off + b.size ≡ m)
    × (0 < b.size)
    × ((front_free before && b.free) ≡ false)
    × IsRefd b
    × Backward before b.off

-- A list is laid out around each of its positions.
pub Onward-rejoin :
    (before l : List Slice) (m end : ℕ)
    → Backward before m
    → Onward m (front_free before) l end
    → Onward 0 false (rejoin before l) end
unfolding rejoin
Onward-rejoin [] l m end b o = rw (sym b) o
Onward-rejoin (s ∷ before) l m end (e, pos, gap, refd, b) o =
    Onward-rejoin before (s ∷ l) s.off end b (refl, pos, gap, refd, rw e o)

pub Onward-cursor :
    (before l : List Slice) (end : ℕ)
    → Onward 0 false (rejoin before l) end
    → (m : ℕ) × Backward before m × Onward m (front_free before) l end
unfolding rejoin
Onward-cursor [] l end o = (0, refl, o)
Onward-cursor (s ∷ before) l end o =
    let (m, b, (here, pos, gap, refd, rest)) = Onward-cursor before (s ∷ l) end o in
    (m + s.size, (ap (λ q. q + s.size) here, pos, gap, refd, rw here b), rest)

-- Behind a slice that is not free, anything may follow.
pub Onward-behind_busy :
    (m : ℕ) (l : List Slice) (f : Bool) (end : ℕ) → Onward m f l end → Onward m false l end
Onward-behind_busy m [] f end o = o
Onward-behind_busy m (s ∷ l) f end (e, pos, gap, refd, o) = (e, pos, refl, refd, o)
