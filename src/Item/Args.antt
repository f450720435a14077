-- ===== src/Item/Args.antt =====
-- `kdbus_items_validate` of item.c, and the parser of handle.c that every command goes through.
use kdbus.Base.{
  ℕ, ◌+◌, ◌/◌, Bool, true, false, not, ◌&&◌, ◌||◌, List, [], ◌∷◌, Option, none, some, ◌==◌,
  if◌then◌else◌, Result, ok, err, einval, ◌>>◌, guard,
}
use kdbus.Names.Syntax.{Ctype}
use kdbus.Item.Validate.{Item, item_validate}
use kdbus.Item.Walk.{foreach_valid}

-- One more than the turns a walk can make, since an item has at least its header.
abbrev pub walk_fuel : ℕ → ℕ
walk_fuel items_size = items_size / 16 + 2

-- `kdbus_items_validate`; `none` would be a walk that does not end.
unfoldable pub items_validate : Ctype → (ℕ → Item) → ℕ → ℕ → Option (Result (Unit {0}))
items_validate ct read items items_size =
    foreach_valid read items items_size (λ s item. item_validate ct item) (walk_fuel items_size) tt
      items

-- `struct kdbus_arg`; `item` is the item that the pointer points to.
pub record Arg : Type 0 where
  pub kind : ℕ
  pub item : Option Item
  pub multiple : Bool
  pub mandatory : Bool

abbrev pub is_set : Option Item → Bool
is_set none = false
is_set (some i) = true

-- The first element of `argv` with the item's type takes it, unless it has one that must be alone.
unfoldable pub store : Item → List Arg → Result (List Arg)
store item [] = err einval
store item (a ∷ argv) =
    let rest = store item argv in
    if a.kind == item.kind
    then (if is_set a.item && not a.multiple
        then err einval
        else ok ((record a { item = some item }) ∷ argv))
    else (elim rest [ ok l ↦ ok (a ∷ l) | err e ↦ err e ])

unfoldable pub has_kind : List Arg → ℕ → Bool
has_kind [] k = false
has_kind (a ∷ argv) k = if a.kind == k then true else has_kind argv k

-- The body of the loop of `kdbus_args_verify`.
unfoldable pub verify_item : Ctype → List Arg → Item → Result (List Arg)
verify_item ct argv item =
    guard (has_kind argv item.kind) einval >> item_validate ct item >> store item argv

-- `args->argv[i].mandatory && !args->argv[i].item`
unfoldable pub any_missing : List Arg → Bool
any_missing [] = false
any_missing (a ∷ argv) = (a.mandatory && not (is_set a.item)) || any_missing argv

-- `kdbus_args_verify`
unfoldable pub args_verify : Ctype → (ℕ → Item) → ℕ → ℕ → List Arg → Option (Result (List Arg))
args_verify ct read items items_size argv =
    elim (foreach_valid read items items_size (verify_item ct) (walk_fuel items_size) argv items) [
      | none ↦ none
      | some (err e) ↦ some (err e)
      | some (ok filled) ↦ some (if any_missing filled then err einval else ok filled)
    ]
