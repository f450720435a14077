-- ===== src/Item/Accept.antt =====
-- item.c and handle.c: what a command that passes the parser guarantees to its handler.
use kdbus.Base.{
  ℕ, ◌+◌, ◌%◌, ◌^◌, ◌≤◌, ◌<◌, ◌≡◌, refl, sym, ◌∙◌, ap, subst, Bool, true, false, List, [], ◌∷◌,
  none, some, map, arith, ◌==◌, Result, ok, err, Errno, einval, All, ◌↔◌, Result-cases, Bool-cases,
  inl, inr, ◌⊎◌,
}
use kdbus.Names.Syntax.{Ctype}
use kdbus.Item.Validate.{Item, item_validate}
use kdbus.Item.Walk.{fold_items, Tiles}
use kdbus.Item.Tiling.{walk_from}
use kdbus.Item.Args.{
  Arg, args_verify, items_validate, verify_item, store, any_missing, is_set, walk_fuel,
}

abbrev pub IsValid : Ctype → Item → Type 0
IsValid ct item = item_validate ct item ≡ ok tt

unit_ok : (r : Result (Unit {0})) → ((e : Errno) × (r ≡ err e)) ⊎ (r ≡ ok tt)
unit_ok (ok u) = inr refl
unit_ok (err e) = inl (e, refl)

fold-IsValid :
    (ct : Ctype) (s : Unit {0}) (l : List Item)
    → (fold_items (λ s item. item_validate ct item) s l ≡ ok tt) ↔ All (IsValid ct) l
unfolding fold_items
fold-IsValid ct s [] = (λ e. tt, λ w. refl)
fold-IsValid ct s (x ∷ l) = elim (unit_ok (item_validate ct x)) [
  | inl (e, bad) ↦ (λ h. absurd (ground (arith, bad, h)), λ h. absurd (ground (arith, bad, h.0)))
  | inr good ↦ (
    λ h. (good, (fold-IsValid ct tt l).0 (ground (arith, good, h))),
    λ h. ground (arith, good, (fold-IsValid ct tt l).1 h.1),
  )
]

module _ (ct : Ctype) (read : ℕ → Item) (items items_size : ℕ)
    (small : (a : ℕ) → (read a).size < 2 ^ 64) (base : items % 8 ≡ 0)
    (room : items + items_size + 8 ≤ 2 ^ 64) where
  -- `kdbus_items_validate` ends on every buffer that is aligned to 8 and does not reach to the end
  -- of the address space, and accepts it if and only if valid items tile it, each one inside the
  -- buffer and at the next multiple of 8 behind the one before.
  pub items_validate_lem :
      (r : Result (Unit {0})) × (items_validate ct read items items_size ≡ some r)
      × ((r ≡ ok tt)
          ↔ ((l : List Item) × Tiles read (items + items_size) items l × All (IsValid ct) l))
  unfolding items_validate
  items_validate_lem =
      let (r, run, accepts) =
        walk_from read items items_size (λ s item. item_validate ct item) small base room
          (walk_fuel items_size) tt items (omega arith) (omega arith) base (omega arith) in
      (
        r,
        run,
        (
          λ e. (let (l, t, f) = (accepts tt).0 e in (l, t, (fold-IsValid ct tt l).0 f)),
          λ m. (accepts tt).1 (m.0, m.1, (fold-IsValid ct tt m.0).1 m.2),
        ),
      )

-- The item of an argument, if it has one, has the argument's type and is valid.
abbrev pub IsFilled : Ctype → Arg → Type 0
IsFilled ct a = (x : Item) → a.item ≡ some x → (x.kind ≡ a.kind) × IsValid ct x

abbrev pub IsComplete : Arg → Type 0
IsComplete a = a.mandatory ≡ true → is_set a.item ≡ true

-- The types and the flags that the handler has filled in.
abbrev pub shape : Arg → ℕ × Bool × Bool
shape a = (a.kind, a.multiple, a.mandatory)

any_missing_lem : (argv : List Arg) → any_missing argv ≡ false → All IsComplete argv
unfolding any_missing
any_missing_lem [] h = tt
any_missing_lem (a ∷ argv) h = (λ m. ground (arith, h, m), any_missing_lem argv (ground (arith, h)))

ok_inj : {A : Type 0} {a b : A} → ok a ≡ ok b → a ≡ b
ok_inj e = cc

some_inj : {a b : Item} → some a ≡ some b → a ≡ b
some_inj e = cc

-- What `store_lem` says of the list that `store` gives.
abbrev pub IsStored : Ctype → List Arg → List Arg → Type 0
IsStored ct argv filled = All (IsFilled ct) filled × (map shape filled ≡ map shape argv)

put_here :
    (ct : Ctype) (item : Item) (a : Arg)
    → IsValid ct item
    → a.kind ≡ item.kind
    → IsFilled ct (record a { item = some item })
put_here ct item a valid same x e =
    subst (λ y. (y.kind ≡ a.kind) × IsValid ct y) (some_inj e) (sym same, valid)

store_lem :
    (ct : Ctype) (item : Item) (argv : List Arg) {filled : List Arg}
    → IsValid ct item
    → All (IsFilled ct) argv
    → store item argv ≡ ok filled
    → IsStored ct argv filled
unfolding store
store_lem ct item [] {filled} valid w h = absurd (ground (arith, h))
store_lem ct item (a ∷ argv) {filled} valid w h = elim (Bool-cases (a.kind == item.kind)) [
  | inl same ↦
      subst (IsStored ct (a ∷ argv))
        (ok_inj {a = (record a { item = some item }) ∷ argv} {b = filled} (ground (arith, same, h)))
        ((put_here ct item a valid (ground (arith, same)), w.1), refl)
  | inr other ↦ elim (Result-cases (store item argv)) [
    | inl (l, e) ↦
        let (all, same) = store_lem ct item argv {filled = l} valid w.1 e in
        subst (IsStored ct (a ∷ argv))
          (ok_inj {a = a ∷ l} {b = filled} (ground (arith, other, h, e)))
          ((w.0, all), ap (λ m. shape a ∷ m) same)
    | inr (x, e) ↦ absurd (ground (arith, h, other, e))
  ]
]

fold-IsStored :
    (ct : Ctype) (l : List Item) (argv filled : List Arg)
    → All (IsFilled ct) argv
    → fold_items (verify_item ct) argv l ≡ ok filled
    → IsStored ct argv filled
unfolding fold_items verify_item
fold-IsStored ct [] argv filled w h = subst (IsStored ct argv) (ok_inj h) (w, refl)
fold-IsStored ct (x ∷ l) argv filled w h = elim (unit_ok (item_validate ct x)) [
  | inl (e, bad) ↦ absurd (ground (arith, bad, h))
  | inr valid ↦ elim (Result-cases (store x argv)) [
    | inr (e, bad) ↦ absurd (ground (arith, valid, bad, h))
    | inl (m, stored) ↦
        let (all, same) = store_lem ct x argv {filled = m} valid w stored in
        let (all', same') = fold-IsStored ct l m filled all (ground (arith, valid, stored, h)) in
        (all', same' ∙ same)
  ]
]

-- Arguments as a handler passes them: no item yet.
abbrev pub IsUnset : Arg → Type 0
IsUnset a = a.item ≡ none

unset-IsFilled : (ct : Ctype) (argv : List Arg) → All IsUnset argv → All (IsFilled ct) argv
unset-IsFilled ct [] w = tt
unset-IsFilled ct (a ∷ argv) w =
    (λ x e. absurd (ground (arith, w.0, e)), unset-IsFilled ct argv w.1)

module _ (ct : Ctype) (read : ℕ → Item) (items items_size : ℕ)
    (small : (a : ℕ) → (read a).size < 2 ^ 64) (base : items % 8 ≡ 0)
    (room : items + items_size + 8 ≤ 2 ^ 64) (argv : List Arg) (unset : All IsUnset argv) where
  -- `kdbus_args_verify` ends, with an error or with success, on every buffer that is aligned to 8
  -- and does not reach to the end of the address space. When it succeeds, items tile the buffer, the types and flags of the arguments
  -- are those that the handler passed, each item that an argument holds has the argument's type and
  -- passes `kdbus_item_validate`, and each mandatory argument holds one.
  pub args_verify_lem :
      ((e : Errno) × (args_verify ct read items items_size argv ≡ some (err e)))
      ⊎ ((filled : List Arg) × (args_verify ct read items items_size argv ≡ some (ok filled))
          × ((l : List Item) × Tiles read (items + items_size) items l)
          × IsStored ct argv filled
          × All IsComplete filled)
  unfolding args_verify
  args_verify_lem =
      let (r, run, accepts) =
        walk_from read items items_size (verify_item ct) small base room (walk_fuel items_size) argv
          items (omega arith) (omega arith) base (omega arith) in
      elim (Result-cases r) [
        | inr (e, bad) ↦ inl (e, ground (arith, run, bad))
        | inl (m, good) ↦ elim (Bool-cases (any_missing m)) [
          | inl missing ↦ inl (einval, ground (arith, run, good, missing))
          | inr complete ↦
              let (l, t, folded) = (accepts m).0 good in
              inr (
                m,
                ground (arith, run, good, complete),
                (l, t),
                fold-IsStored ct l argv m (unset-IsFilled ct argv unset) folded,
                any_missing_lem m complete,
              )
        ]
      ]
