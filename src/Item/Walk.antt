-- ===== src/Item/Walk.antt =====
-- item.h and item.c: walks over a chain of items by address, and what they accept.
use kdbus.Base.{
  ℕ, zero, suc, ◌+◌, ◌*◌, ◌/◌, ◌%◌, ◌^◌, ◌≤◌, ◌<◌, ◌≡◌, Bool, ◌&&◌, List, [], ◌∷◌, Option, none,
  some, ltb, leb, ◌==◌, if◌then◌else◌, Result, ok, err, einval,
}
use kdbus.Item.Validate.{Item, header_size}

-- KDBUS_ALIGN8 on a `size_t`
unfoldable pub align8 : ℕ → ℕ
align8 s = (s + 7) % 2 ^ 64 / 8 * 8

-- KDBUS_ITEM_NEXT
unfoldable pub next : ℕ → Item → ℕ
next i item = (i + align8 item.size) % 2 ^ 64

-- KDBUS_ITEM_VALID
unfoldable pub item_in_buffer : ℕ → ℕ → ℕ → Item → Bool
item_in_buffer items items_size i item =
    leb header_size item.size
    && ltb i ((i + item.size) % 2 ^ 64)
    && leb ((i + item.size) % 2 ^ 64) ((items + items_size) % 2 ^ 64)
    && leb items i

-- KDBUS_ITEMS_END
unfoldable pub items_end : ℕ → ℕ → ℕ → Bool
items_end items items_size i = i == (items + align8 items_size) % 2 ^ 64

-- The condition of KDBUS_ITEMS_FOREACH
unfoldable pub in_loop : ℕ → ℕ → ℕ → Bool
in_loop items items_size i = ltb i ((items + items_size) % 2 ^ 64) && leb items i

module _ {S : Type 0} (read : ℕ → Item) (items items_size : ℕ) (body : S → Item → Result S) where
  -- A KDBUS_ITEMS_FOREACH whose body begins with the test of KDBUS_ITEM_VALID, and the test of
  -- KDBUS_ITEMS_END behind it; `read` is the memory. `none`: the fuel is used up.
  unfoldable pub foreach_valid : ℕ → S → ℕ → Option (Result S)
  foreach_valid zero s i = none
  foreach_valid (suc fuel) s i =
      if in_loop items items_size i
      then (if item_in_buffer items items_size i (read i)
          then elim (body s (read i)) [
            | err e ↦ some (err e)
            | ok t ↦ foreach_valid fuel t (next i (read i))
          ]
          else some (err einval))
      else (if items_end items items_size i then some (ok s) else some (err einval))

-- The body run over a list, without addresses.
unfoldable pub fold_items : {S : Type 0} → (S → Item → Result S) → S → List Item → Result S
fold_items body s [] = ok s
fold_items body s (x ∷ xs) = elim (body s x) [ err e ↦ err e | ok t ↦ fold_items body t xs ]

-- From address `i` on, the items `l` follow each other, each at the next multiple of 8, to the end.
pub data Tiles (read : ℕ → Item) (limit : ℕ) : ℕ → List Item → Type 0 where
  last : (i : ℕ) → limit ≤ i → i < limit + 8 → i % 8 ≡ 0 → Tiles read limit i []
  more :
      (i : ℕ) (l : List Item)
      → i < limit
      → header_size ≤ (read i).size
      → i + (read i).size ≤ limit
      → Tiles read limit (i + ((read i).size + 7) / 8 * 8) l
      → Tiles read limit i (read i ∷ l)
