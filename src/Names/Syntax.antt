-- ===== src/Names/Syntax.antt =====
-- names.c: `kdbus_name_is_valid`. `isalpha` and `isdigit` of the kernel are parameters.
use kdbus.Base.{
  ℕ, Bool, true, false, not, ◌&&◌, ◌||◌, List, [], ◌∷◌, Option, none, some, length, ltb, ◌==◌,
  if◌then◌else◌,
}

pub record Ctype : Type 0 where
  pub isalpha : ℕ → Bool
  pub isdigit : ℕ → Bool

-- KDBUS_NAME_MAX_LEN
abbrev pub name_max_len : ℕ
name_max_len = 255

-- A name is its bytes before the terminating zero.
abbrev pub Name : Type 0
Name = List ℕ

abbrev pub is_empty : List ℕ → Bool
is_empty [] = true
is_empty (c ∷ cs) = false

module _ (ct : Ctype) (allow_wildcard : Bool) where
  -- Whether the byte `c`, followed by `rest`, is `good`; `dot` tells that an element begins here.
  unfoldable pub good : Bool → ℕ → List ℕ → Bool
  good dot c rest =
      ct.isalpha c
      || (not dot && ct.isdigit c)
      || c == b'_'
      || c == b'-'
      || (allow_wildcard && dot && c == b'*' && is_empty rest)

  -- The `for` loop over `dot` and `found_dot`; `none` is a `return false` inside it.
  unfoldable pub scan : Bool → Bool → List ℕ → Option (Bool × Bool)
  scan dot found_dot [] = some (dot, found_dot)
  scan dot found_dot (c ∷ cs) =
      let is_dot = c == b'.' in
      let rest = scan is_dot (found_dot || is_dot) cs in
      if is_dot then (if dot then none else rest) else (if good dot c cs then rest else none)

  -- The tests after the loop.
  abbrev pub finish : ℕ → Option (Bool × Bool) → Bool
  finish len none = false
  finish len (some (dot, found_dot)) =
      if ltb name_max_len len
      then false
      else (if dot then false else (if not found_dot then false else true))

  unfoldable pub name_is_valid : Name → Bool
  unfolding scan good
  name_is_valid p = finish (length p) (scan true false p)
