-- ===== src/Item/Tiling.antt =====
-- item.h and item.c: a walk accepts a buffer exactly when items tile it.
use kdbus.Base.{
  ℕ, zero, suc, ◌+◌, ◌*◌, ◌/◌, ◌%◌, ◌^◌, ◌≤◌, ◌<◌, ◌≡◌, true, List, [], ◌∷◌, some, arith, ltb,
  Result, ok, err, Errno, einval, ◌↔◌, Result-cases, Bool-cases, inl, inr,
}
use kdbus.Item.Validate.{Item, header_size}
use kdbus.Item.Walk.{
  align8, next, item_in_buffer, items_end, in_loop, foreach_valid, fold_items, Tiles, last, more,
}

module _ (items items_size i : ℕ) (item : Item) (low : items ≤ i)
    (room : items + items_size + 8 ≤ 2 ^ 64) where
  no_wrap_loop : in_loop items items_size i ≡ ltb i (items + items_size)
  unfolding in_loop
  no_wrap_loop = ground arith

  no_wrap_valid :
      i < items + items_size
      → item.size < 2 ^ 64
      → (item_in_buffer items items_size i item ≡ true)
        ↔ ((header_size ≤ item.size) × (i + item.size ≤ items + items_size))
  unfolding item_in_buffer
  no_wrap_valid inside small = ground arith

  no_wrap_next : i + item.size ≤ items + items_size → next i item ≡ i + (item.size + 7) / 8 * 8
  unfolding next align8
  no_wrap_next inside = omega (arith, inside, room)

  end_reached :
      items % 8 ≡ 0
      → i % 8 ≡ 0
      → items + items_size ≤ i
      → i < items + items_size + 8
      → items_end items items_size i ≡ true
  unfolding items_end align8
  end_reached base aligned past near = ground arith

-- What a walk that has ended with `r` says of the chain from address `i` on.
abbrev pub Accepts :
    {S : Type 0} → (ℕ → Item) → ℕ → (S → Item → Result S) → S → ℕ → Result S → Type 0
Accepts {S = S} read limit body s i r =
    (t : S) → (r ≡ ok t) ↔ ((l : List Item) × Tiles read limit i l × (fold_items body s l ≡ ok t))

module _ {S : Type 0} (read : ℕ → Item) (body : S → Item → Result S) (limit : ℕ) (s : S)
    (i : ℕ) where
  Accepts-end : limit ≤ i → i < limit + 8 → i % 8 ≡ 0 → Accepts read limit body s i (ok s)
  unfolding fold_items
  Accepts-end past near aligned t = (λ e. ([], last i past near aligned, e), λ m. from m.0 m.1 m.2)
    where
      from : (l : List Item) → Tiles read limit i l → fold_items body s l ≡ ok t → ok s ≡ ok t
      from [] w f = f
      from l (more _ l' inside _ _ _) f = absurd (omega (arith, inside, past))

  -- An item that does not fit.
  Accepts-bad_item :
      (e : Errno)
      → i < limit
      → ¬ ((header_size ≤ (read i).size) × (i + (read i).size ≤ limit))
      → Accepts read limit body s i (err e)
  Accepts-bad_item e inside bad t = (λ p. absurd (ground (arith, p)), λ m. absurd (from m.0 m.1))
    where
      from : (l : List Item) → Tiles read limit i l → ⊥
      from [] (last _ past _ _) = omega (arith, inside, past)
      from l (more _ l' _ low high _) = bad (low, high)

  Accepts-item :
      (r : Result S) (u : S)
      → i < limit
      → header_size ≤ (read i).size
      → i + (read i).size ≤ limit
      → body s (read i) ≡ ok u
      → Accepts read limit body u (i + ((read i).size + 7) / 8 * 8) r
      → Accepts read limit body s i r
  unfolding fold_items
  Accepts-item r u inside low high b rest t = (to, λ m. from m.0 m.1 m.2)
    where
      to : r ≡ ok t → (l : List Item) × Tiles read limit i l × (fold_items body s l ≡ ok t)
      to e =
          let (l, w, f) = (rest t).0 e in
          (read i ∷ l, more i l inside low high w, ground (arith, b, f))

      from : (l : List Item) → Tiles read limit i l → fold_items body s l ≡ ok t → r ≡ ok t
      from [] (last _ past _ _) f = absurd (omega (arith, inside, past))
      from l (more _ l' _ _ _ w) f = (rest t).1 (l', w, ground (arith, b, f))

  Accepts-bad_body :
      (e : Errno) → i < limit → body s (read i) ≡ err e → Accepts read limit body s i (err e)
  unfolding fold_items
  Accepts-bad_body e inside b t = (λ p. absurd (ground (arith, p)), λ m. from m.0 m.1 m.2)
    where
      from : (l : List Item) → Tiles read limit i l → fold_items body s l ≡ ok t → err e ≡ ok t
      from [] (last _ past _ _) f = absurd (omega (arith, inside, past))
      from l (more _ l' _ _ _ w) f = ground (arith, b, f)

module _ {S : Type 0} (read : ℕ → Item) (items items_size : ℕ) (body : S → Item → Result S)
    (small : (a : ℕ) → (read a).size < 2 ^ 64) (base : items % 8 ≡ 0)
    (room : items + items_size + 8 ≤ 2 ^ 64) where
  abbrev pub limit : ℕ
  limit = items + items_size

  abbrev pub Done : ℕ → S → ℕ → Type 0
  Done fuel s i =
      (r : Result S) × (foreach_valid read items items_size body fuel s i ≡ some r)
      × Accepts read limit body s i r

  -- Enough fuel is given for items of 16 bytes or more.
  pub walk_from :
      (fuel : ℕ) (s : S) (i : ℕ)
      → items ≤ i
      → i < limit + 8
      → i % 8 ≡ 0
      → limit + 16 ≤ i + 16 * fuel
      → Done fuel s i
  unfolding foreach_valid
  walk_from zero s i low near aligned fuel_ok = absurd (omega (arith, near, fuel_ok))
  walk_from (suc fuel) s i low near aligned fuel_ok = elim (Bool-cases (ltb i limit)) [
    | inr past ↦ (
      ok s,
      ground (
        arith,
        past,
        no_wrap_loop items items_size i (read i) low room,
        end_reached items items_size i (read i) low room base aligned (ground (arith, past)) near,
      ),
      Accepts-end read body limit s i (ground (arith, past)) near aligned,
    )
    | inl inside ↦
        let lt : i < limit = ground (arith, inside) in
        let loop = no_wrap_loop items items_size i (read i) low room in
        let fits = no_wrap_valid items items_size i (read i) low room lt (small i) in
        elim (Bool-cases (item_in_buffer items items_size i (read i))) [
          | inr bad ↦ (
            err einval,
            ground (arith, loop, inside, bad),
            Accepts-bad_item read body limit s i einval lt
                (λ p. absurd (ground (arith, bad, fits.1 p))),
          )
          | inl good ↦ elim (Result-cases (body s (read i))) [
            | inr (e, b) ↦ (
              err e,
              ground (arith, loop, inside, good, b),
              Accepts-bad_body read body limit s i e lt b,
            )
            | inl (u, b) ↦
                let (header, high) = fits.0 good in
                let step = no_wrap_next items items_size i (read i) low room high in
                let (r, run, accepts) =
                  walk_from fuel u (i + ((read i).size + 7) / 8 * 8) (omega (arith, low))
                    (omega (arith, high)) (omega (arith, aligned))
                    (omega (arith, fuel_ok, header)) in
                (
                  r,
                  ground (arith, loop, inside, good, b, step, run),
                  Accepts-item read body limit s i r u lt header high b accepts,
                )
          ]
        ]
  ]
