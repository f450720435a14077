-- ===== src/Item/Tests.antt =====
-- Runs of the walks over items and their laws at a concrete buffer.
use kdbus.Base.{
  map, has_flag, ◌-◌, ◌⊎◌, Errno, ℕ, ◌+◌, ◌^◌, ◌<◌, ◌≡◌, ◌↔◌, refl, Bool, true, false, List, [],
  ◌∷◌, none, some, arith, leb, ◌==◌, ◌||◌, ◌&&◌, if◌then◌else◌, Result, ok, err, All, einval,
}
use kdbus.Names.Syntax.{Ctype}
use kdbus.Item.Validate.{
  Item, item_validate, item_validate_name, str_valid, first_zero, strlen, sysname_chars, fixed_size,
  unit_size, one_of, is_string, is_sysname, is_name_change, check_fields, check_variable,
}
use kdbus.Item.Walk.{Tiles, foreach_valid, in_loop, item_in_buffer, items_end, next, align8}
use kdbus.Item.Args.{Arg, items_validate, args_verify, verify_item, store, has_kind, any_missing}
use kdbus.Item.Parse.{
  Cmd, args_parse, args_parse_lem, supported, offered, flag_negotiate, clear_loop,
}
use kdbus.Item.Accept.{IsValid, IsStored, IsComplete, items_validate_lem, args_verify_lem}

abbrev ascii : Ctype
ascii = record {
  isalpha = λ c. (leb b'a' c && leb c b'z') || (leb b'A' c && leb c b'Z');
  isdigit = λ c. leb b'0' c && leb c b'9';
}

abbrev item : ℕ → ℕ → List ℕ → Item
item size kind str = record {
  size = size;
  kind = kind;
  str = str;
  vec_size = 0;
  memfd_size = 0;
  memfd_fd_negative = false;
  last_cap = 0;
  change_name = [];
}

abbrev id_at : Item
id_at = item 24 14 []

abbrev name_at : Item
name_at = item 19 15 (b'a' ∷ b'b' ∷ 0 ∷ [])

abbrev junk : Item
junk = item 0 0 []

-- A KDBUS_ITEM_ID of 24 bytes at 4096, and a KDBUS_ITEM_NAME of 19 bytes behind it.
abbrev memory : ℕ → Item
memory a = if a == 4096 then id_at else (if a == 4120 then name_at else junk)

memory_small : (a : ℕ) → (memory a).size < 2 ^ 64
memory_small a = ground arith

abbrev arg : ℕ → Bool → Arg
arg kind mandatory = record { kind = kind; item = none; multiple = false; mandatory = mandatory }

abbrev argv : List Arg
argv = arg 14 false ∷ arg 15 true ∷ []

runs : ℕ
unfolding items_validate args_verify foreach_valid in_loop item_in_buffer items_end next align8
    item_validate item_validate_name str_valid first_zero strlen sysname_chars fixed_size unit_size
    one_of is_string is_sysname is_name_change check_fields check_variable verify_item store
    has_kind any_missing
runs = 0

-- The whole buffer, the buffer cut inside the second item, and a string without its zero.
walk_runs :
    (items_validate ascii memory 4096 43 ≡ some (ok tt))
    × (items_validate ascii memory 4096 42 ≡ some (err einval))
    × (item_validate ascii (item 18 15 (b'a' ∷ b'b' ∷ 0 ∷ [])) ≡ err einval)
unfolding runs
walk_runs = (refl, refl, refl)

-- Without the name, which is mandatory.
missing_run : args_verify ascii memory 4096 24 argv ≡ some (err einval)
unfolding runs
missing_run = refl

items_validate_lem_example :
    (r : Result (Unit {0})) × (items_validate ascii memory 4096 43 ≡ some r)
    × ((r ≡ ok tt) ↔ ((l : List Item) × Tiles memory (4096 + 43) 4096 l × All (IsValid ascii) l))
items_validate_lem_example = items_validate_lem ascii memory 4096 43 memory_small refl (omega arith)

args_verify_lem_example :
    ((e : Errno) × (args_verify ascii memory 4096 43 argv ≡ some (err e)))
    ⊎ ((filled : List Arg) × (args_verify ascii memory 4096 43 argv ≡ some (ok filled))
        × ((l : List Item) × Tiles memory (4096 + 43) 4096 l)
        × IsStored ascii argv filled
        × All IsComplete filled)
args_verify_lem_example =
    args_verify_lem ascii memory 4096 43 memory_small refl (omega arith) argv (refl, (refl, tt))

abbrev command : Cmd
command = record {
  size = 75;
  flags = 2 ^ 63;
  copied = ok tt;
  put_flags = true;
  put_index = λ i. true;
  put_return = true;
}

abbrev no_words : Item → List ℕ
no_words i = []

args_parse_lem_example :
    ((e : Errno) × (args_parse ascii memory no_words command 4096 32 (2 ^ 63) argv ≡ some (err e)))
    ⊎ ((filled : List Arg) × (args_parse ascii memory no_words command 4096 32 (2 ^ 63) argv
          ≡ some (
              ok (
                filled,
                map (supported filled) (offered command.put_index filled no_words filled),
                has_flag command.flags flag_negotiate,
              )))
        × (has_flag command.flags (2 ^ 64 - 1 - 2 ^ 63) ≡ false)
        × IsStored ascii argv filled
        × All IsComplete filled)
args_parse_lem_example =
    args_parse_lem ascii memory no_words command 4096 32 (2 ^ 63) memory_small refl (omega arith)
      argv (refl, (refl, tt))

-- A type that no argument has is cleared.
cleared : clear_loop (λ i. true) argv 0 (14 ∷ 99 ∷ 15 ∷ []) ≡ ok (14 ∷ 0 ∷ 15 ∷ [])
unfolding clear_loop has_kind
cleared = refl
