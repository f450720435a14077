-- ===== src/Item/Validate.antt =====
-- item.c: the checks of one item.
use kdbus.Base.{
  ℕ, zero, suc, ◌+◌, ◌-◌, ◌*◌, ◌/◌, ◌%◌, ◌^◌, Bool, true, false, not, ◌&&◌, ◌||◌, List, [], ◌∷◌,
  Option, none, some, length, take, ltb, ◌==◌, if◌then◌else◌, Result, ok, err, einval, ebadf,
  enametoolong, guard, ◌>>◌,
}
use kdbus.Names.Syntax.{Ctype}

-- `struct kdbus_item`: the header, and what its union is read as. `str` is the payload's bytes, and
-- `change_name` its bytes from the end of a `struct kdbus_notify_name_change` on.
pub record Item : Type 0 where
  pub size : ℕ
  pub kind : ℕ
  pub str : List ℕ
  pub vec_size : ℕ
  pub memfd_size : ℕ
  pub memfd_fd_negative : Bool
  pub last_cap : ℕ
  pub change_name : List ℕ

-- KDBUS_ITEM_HEADER_SIZE
abbrev pub header_size : ℕ
header_size = 16

-- KDBUS_SYSNAME_MAX_LEN
abbrev pub sysname_max_len : ℕ
sysname_max_len = 63

-- SIZE_MAX
abbrev size_max : ℕ
size_max = 2 ^ 64 - 1

-- `memchr(s, 0, n)`, as an index from `i` on; bytes behind the list do not hold a zero.
unfoldable pub first_zero : List ℕ → ℕ → ℕ → Option ℕ
first_zero s zero i = none
first_zero [] (suc n) i = none
first_zero (c ∷ s) (suc n) i = let rest = first_zero s n (i + 1) in if c == 0 then some i else rest

abbrev is_at : Option ℕ → ℕ → Bool
is_at none i = false
is_at (some k) i = k == i

-- `kdbus_str_valid`
unfoldable pub str_valid : List ℕ → ℕ → Bool
str_valid s size = ltb 0 size && is_at (first_zero s size 0) (size - 1)

-- `strlen`
unfoldable pub strlen : List ℕ → ℕ
strlen [] = 0
strlen (c ∷ s) = if c == 0 then 0 else suc (strlen s)

module _ (ct : Ctype) where
  -- The loop over the name's bytes from index `i` on.
  unfoldable pub sysname_chars : List ℕ → ℕ → Bool
  sysname_chars [] i = true
  sysname_chars (c ∷ cs) i =
      let rest = sysname_chars cs (i + 1) in
      if ct.isalpha c
        || ct.isdigit c
        || c == b'_'
        || (ltb 0 i && ltb 0 (length cs) && (c == b'-' || c == b'.'))
      then rest
      else false

  -- `kdbus_item_validate_name`
  unfoldable pub item_validate_name : Item → Result (Unit {0})
  item_validate_name item =
      if ltb item.size (header_size + 2)
      then err einval
      else (if ltb (header_size + sysname_max_len + 1) item.size
          then err enametoolong
          else (if not (str_valid item.str (item.size - header_size))
              then err einval
              else (if strlen item.str == 0
                  then err einval
                  else guard (sysname_chars (take (strlen item.str) item.str) 0) einval)))

  unfoldable pub one_of : ℕ → List ℕ → Bool
  one_of k [] = false
  one_of k (x ∷ xs) = if k == x then true else one_of k xs

  -- The types whose payload must have one given size, and that size.
  unfoldable pub fixed_size : ℕ → Option ℕ
  fixed_size k =
      if one_of k (2 ∷ 3 ∷ 7 ∷ 0x8003 ∷ 0x8004 ∷ [])
      then some 16
      else (if one_of k (4 ∷ 0x1000 ∷ 0x2000 ∷ [])
          then some 24
          else (if one_of k (12 ∷ 13 ∷ 14 ∷ 0x100c ∷ [])
              then some 8
              else (if one_of k (0x8005 ∷ 0x8006 ∷ [])
                  then some 0
                  else (if k == 6 then some 4 else (if k == 0x1001 then some 64 else none)))))

  -- `payload_size % n != 0` is refused for an array.
  unfoldable pub unit_size : ℕ → Option ℕ
  unit_size k = if k == 1 then some 8 else (if one_of k (5 ∷ 0x1003 ∷ []) then some 4 else none)

  -- The types whose payload is a string.
  unfoldable pub is_string : ℕ → Bool
  is_string k = one_of k (10 ∷ 15 ∷ 0x1005 ∷ 0x1006 ∷ 0x1007 ∷ 0x1008 ∷ 0x1009 ∷ 0x100b ∷ [])

  unfoldable pub is_sysname : ℕ → Bool
  is_sysname k = one_of k (11 ∷ 0x100d ∷ [])

  unfoldable pub is_name_change : ℕ → Bool
  is_name_change k = one_of k (0x8000 ∷ 0x8001 ∷ 0x8002 ∷ [])

  -- What a type with a payload of fixed size asks of the payload itself.
  unfoldable pub check_fields : Item → Result (Unit {0})
  check_fields item =
      if one_of item.kind (2 ∷ 3 ∷ [])
      then guard (ltb 0 item.vec_size && not (ltb size_max item.vec_size)) einval
      else (if item.kind == 4
          then guard (ltb 0 item.memfd_size && not (ltb size_max item.memfd_size)) einval
            >> guard (not item.memfd_fd_negative) ebadf
          else ok tt)

  -- The types whose payload has a length that depends on its contents.
  unfoldable pub check_variable : Item → ℕ → Result (Unit {0})
  check_variable item payload =
      if item.kind == 8
      then guard (not (ltb payload 8)) einval
      else (if is_sysname item.kind
          then item_validate_name item
          else (if is_string item.kind
              then guard (str_valid item.str payload) einval
              else (if item.kind == 0x100a
                  then guard
                      (not (ltb payload 4) && not (ltb payload (4 + 4 * (item.last_cap / 32) * 4)))
                      einval
                  else (if is_name_change item.kind
                      then guard (not (ltb payload 32)) einval
                        >> guard (payload - 32 == 0 || str_valid item.change_name (payload - 32))
                            einval
                      else ok tt))))

  -- `kdbus_item_validate`; the cases of its `switch` are grouped by what they test.
  unfoldable pub item_validate : Item → Result (Unit {0})
  item_validate item =
      let payload = item.size - header_size in
      if ltb item.size header_size then err einval else (elim (fixed_size item.kind) [
        | some n ↦ guard (payload == n) einval >> check_fields item
        | none ↦ elim (unit_size item.kind) [
          | some n ↦ guard (payload % n == 0) einval
          | none ↦ check_variable item payload
        ]
      ])
