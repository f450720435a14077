-- ===== src/Pool/Others.antt =====
-- pool.c: what the release of a slice leaves of the other slices.
use kdbus.Base.{
  ◌+◌, ◌≡◌, ◌≢◌, refl, sym, ap, true, false, ◌||◌, List, [], ◌∷◌, some, arith, All, Has, Bool-cases,
  inl, inr, ◌⊎◌, subst, ℕ, Option-cases,
}
use kdbus.Rbtree.{Tree, RbTree}
use kdbus.Pool.Slices.{
  Slice, Pool, Cursor, rejoin, merge_next, merge_prev, give_back, add_free, put_slice, erase,
}
use kdbus.Pool.Cursor.{whole, All-rejoin, Has-rejoin}

-- An offset at which no slice begins that the user refers to.
abbrev pub IsForeign : ℕ → Slice → Type 0
IsForeign off s = (s.off ≢ off) ⊎ (s.ref_user ≡ false)

abbrev pub IsForeignAll : ℕ → Cursor → Type 0
IsForeignAll off c =
    All (IsForeign off) c.before × IsForeign off c.here × All (IsForeign off) c.after

abbrev pub Around : Slice → Cursor → Type 0
Around x c = Has x c.before ⊎ Has x c.after

pub Has-before :
    {A : Type 0} (x : A) (before l : List A) → Has x (rejoin before l) → Has x before ⊎ Has x l
unfolding rejoin
Has-before x [] l h = inr h
Has-before x (b ∷ before) l h = elim (Has-before x before (b ∷ l) h) [
  | inl front ↦ inl (inr front)
  | inr (inl e) ↦ inl (inl e)
  | inr (inr behind) ↦ inr behind
]

in_front : {A : Type 0} (x : A) (before l : List A) → Has x before → Has x (rejoin before l)
unfolding rejoin
in_front x [] l h = absurd h
in_front x (b ∷ before) l (inl e) = Has-rejoin x before (b ∷ l) (inl e)
in_front x (b ∷ before) l (inr h) = in_front x before (b ∷ l) h

module _ (rb : RbTree ℕ) (off : ℕ) where
  merge_next-IsForeignAll :
      (before : List Slice) (here : Slice) (after : List Slice) (t : Tree ℕ)
      → IsForeignAll off (record { before = before; here = here; after = after })
      → IsForeignAll off
          (merge_next rb (record { before = before; here = here; after = after }) t).0
  unfolding merge_next
  merge_next-IsForeignAll before here [] t h = h
  merge_next-IsForeignAll before here (n ∷ rest) t (b, m, a) = elim (Bool-cases n.free) [
    | inl e ↦ ground (arith, e, b, m, a)
    | inr e ↦ ground (arith, e, b, m, a)
  ]

  merge_prev-IsForeignAll :
      (before : List Slice) (here : Slice) (after : List Slice) (t : Tree ℕ)
      → IsForeignAll off (record { before = before; here = here; after = after })
      → IsForeignAll off
          (merge_prev rb (record { before = before; here = here; after = after }) t).0
  unfolding merge_prev
  merge_prev-IsForeignAll [] here after t h = h
  merge_prev-IsForeignAll (s ∷ rest) here after t (b, m, a) = elim (Bool-cases s.free) [
    | inl e ↦ ground (arith, e, b, m, a)
    | inr e ↦ ground (arith, e, b, m, a)
  ]

  give_back-slices :
      (c : Cursor) (t : Tree ℕ) (p q : Pool)
      → give_back rb (c, t) p ≡ some q
      → q.slices ≡ rejoin c.before (record c.here { free = true } ∷ c.after)
  unfolding give_back
  give_back-slices c t p q h =
      elim (Option-cases (
        add_free rb (rejoin c.before (record c.here { free = true } ∷ c.after))
          (record c.here { free = true }) t)) [
            | inl e ↦ absurd (ground (arith, h, e))
            | inr (u, e) ↦
                ap (λ x. x.slices)
                  (sym (
                    some_inj
                      {a = record p {
                        slices = rejoin c.before (record c.here { free = true } ∷ c.after);
                        slices_free = u;
                      }}
                      {b = q} (ground (arith, h, e))))
          ]
    where
      some_inj : {a b : Pool} → some a ≡ some b → a ≡ b
      some_inj h = cc

  -- A slice at the position that is not busy merges only with free ones: the busy ones stay.
  merge_next-Around :
      (x : Slice) (before : List Slice) (here : Slice) (after : List Slice) (t : Tree ℕ)
      → x.free ≡ false
      → Around x (record { before = before; here = here; after = after })
      → Around x (merge_next rb (record { before = before; here = here; after = after }) t).0
  unfolding merge_next
  merge_next-Around x before here [] t busy h = h
  merge_next-Around x before here (n ∷ rest) t busy h = elim (Bool-cases n.free) [
    | inl e ↦
        subst (λ c. Around x c)
          {x = record {
            before = before;
            here = record here { size = here.size + n.size };
            after = rest;
          }}
          {y = (merge_next rb (record { before = before; here = here; after = n ∷ rest }) t).0}
          (ground (arith, e))
          (elim h [
            | inl front ↦ inl front
            | inr (inl same) ↦ absurd (ground (arith, ap (λ s. s.free) same, busy, e))
            | inr (inr behind) ↦ inr behind
          ])
    | inr e ↦
        subst (λ c. Around x c) {x = record { before = before; here = here; after = n ∷ rest }}
          {y = (merge_next rb (record { before = before; here = here; after = n ∷ rest }) t).0}
          (ground (arith, e)) h
  ]

  merge_prev-Around :
      (x : Slice) (before : List Slice) (here : Slice) (after : List Slice) (t : Tree ℕ)
      → x.free ≡ false
      → Around x (record { before = before; here = here; after = after })
      → Around x (merge_prev rb (record { before = before; here = here; after = after }) t).0
  unfolding merge_prev
  merge_prev-Around x [] here after t busy h = h
  merge_prev-Around x (s ∷ rest) here after t busy h = elim (Bool-cases s.free) [
    | inl e ↦
        subst (λ c. Around x c)
          {x = record {
            before = rest;
            here = record s { size = s.size + here.size };
            after = after;
          }}
          {y = (merge_prev rb (record { before = s ∷ rest; here = here; after = after }) t).0}
          (ground (arith, e))
          (elim h [
            | inl (inl same) ↦ absurd (ground (arith, ap (λ s. s.free) same, busy, e))
            | inl (inr front) ↦ inl front
            | inr behind ↦ inr behind
          ])
    | inr e ↦
        subst (λ c. Around x c) {x = record { before = s ∷ rest; here = here; after = after }}
          {y = (merge_prev rb (record { before = s ∷ rest; here = here; after = after }) t).0}
          (ground (arith, e)) h
  ]

  -- The pool's slices after the release: the slice itself stays if the kernel or the user refers to
  -- it, and otherwise it is merged with its free neighbours.
  put_slice-slices :
      (c : Cursor) (p q : Pool)
      → c.here.free ≡ false
      → put_slice rb c p ≡ some q
      → ((c.here.ref_kernel || c.here.ref_user ≡ true) × (q.slices ≡ whole c))
        ⊎ ((d : Cursor) × (d
              ≡ (merge_prev rb
                  (merge_next rb c p.slices_free).0
                  (merge_next rb c p.slices_free).1).0)
            × (c.here.ref_kernel ≡ false)
            × (q.slices ≡ rejoin d.before (record d.here { free = true } ∷ d.after)))
  unfolding put_slice
  put_slice-slices c p q busy h = elim (Bool-cases (c.here.ref_kernel || c.here.ref_user)) [
    | inl refd ↦ inl (
      refd,
      ap (λ x. x.slices)
          (sym (some_inj {a = record p { slices = whole c }} {b = q} (ground (arith, h, refd)))),
    )
    | inr loose ↦
        let next = merge_next rb c p.slices_free in
        let merged = merge_prev rb next.0 next.1 in
        inr (
          merged.0,
          refl,
          ground (arith, loose),
          give_back-slices merged.0 merged.1
              (record p { slices_busy = erase rb c.here.off p.slices_busy }) q
              (ground (arith, h, loose, busy)),
        )
  ]
    where
      some_inj : {a b : Pool} → some a ≡ some b → a ≡ b
      some_inj h = cc

  -- If the user refers to nothing at the offset before the release, so it is after it.
  pub put_slice-IsForeignAll :
      (c : Cursor) (p q : Pool)
      → c.here.free ≡ false
      → IsForeignAll off c
      → put_slice rb c p ≡ some q
      → All (IsForeign off) q.slices
  put_slice-IsForeignAll c p q busy foreign h = elim (put_slice-slices c p q busy h) [
    | inl (refd, e) ↦
        subst (All (IsForeign off)) (sym e)
          (All-rejoin (IsForeign off) c.before (c.here ∷ c.after) foreign.0 (foreign.1, foreign.2))
    | inr (d, at, kernel, e) ↦
        let (b, m, a) = subst (IsForeignAll off) (sym at) (
          merge_prev-IsForeignAll (merge_next rb c p.slices_free).0.before
            (merge_next rb c p.slices_free).0.here (merge_next rb c p.slices_free).0.after
            (merge_next rb c p.slices_free).1
            (merge_next-IsForeignAll c.before c.here c.after p.slices_free foreign)) in
        subst (All (IsForeign off)) (sym e)
          (All-rejoin (IsForeign off) d.before (record d.here { free = true } ∷ d.after) b (m, a))
  ]

  -- The other slices that are in use stay as they are, and this one does if it is referred to.
  pub put_slice-Has :
      (x : Slice) (c : Cursor) (p q : Pool)
      → c.here.free ≡ false
      → x.free ≡ false
      → Around x c ⊎ ((x ≡ c.here) × (x.ref_kernel ≡ true))
      → put_slice rb c p ≡ some q
      → Has x q.slices
  put_slice-Has x c p q busy used place h = elim (put_slice-slices c p q busy h) [
    | inl (refd, e) ↦ subst (Has x) (sym e) (elim place [
      | inl (inl front) ↦ in_front x c.before (c.here ∷ c.after) front
      | inl (inr behind) ↦ Has-rejoin x c.before (c.here ∷ c.after) (inr behind)
      | inr (same, k) ↦ Has-rejoin x c.before (c.here ∷ c.after) (inl same)
    ])
    | inr (d, at, kernel, e) ↦ elim place [
      | inr (same, k) ↦ absurd (ground (arith, ap (λ s. s.ref_kernel) same, k, kernel))
      | inl around ↦
          let there : Around x d = subst (Around x) (sym at) (
            merge_prev-Around x (merge_next rb c p.slices_free).0.before
              (merge_next rb c p.slices_free).0.here (merge_next rb c p.slices_free).0.after
              (merge_next rb c p.slices_free).1 used
              (merge_next-Around x c.before c.here c.after p.slices_free used around)) in
          subst (Has x) (sym e) (elim there [
            | inl front ↦ in_front x d.before (record d.here { free = true } ∷ d.after) front
            | inr behind ↦
                Has-rejoin x d.before (record d.here { free = true } ∷ d.after) (inr behind)
          ])
    ]
  ]
