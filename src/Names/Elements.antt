-- ===== src/Names/Elements.antt =====
-- The syntax of names by their elements, and `kdbus_name_is_valid` as its decision.
use kdbus.Base.{
  ℕ, ◌≡◌, refl, Bool, true, false, not, ◌&&◌, ◌||◌, List, [], ◌∷◌, Option, none, some, arith,
  length, leb, ◌==◌, if◌then◌else◌,
}
use kdbus.Names.Syntax.{Ctype, Name, name_max_len, is_empty, good, scan, name_is_valid}

-- The text cut at its periods: the first element, and those that follow.
unfoldable pub split : Name → Name × List Name
split [] = ([], [])
split (c ∷ cs) = let (e, es) = split cs in if c == b'.' then ([], e ∷ es) else (c ∷ e, es)

module _ (ct : Ctype) (allow_wildcard : Bool) where
  pub first_char : ℕ → Bool
  first_char c = ct.isalpha c || c == b'_' || c == b'-'

  pub all_chars : Name → Bool
  all_chars [] = true
  all_chars (c ∷ cs) = (first_char c || ct.isdigit c) && all_chars cs

  -- At least one character, not beginning with a digit.
  pub is_element : Name → Bool
  is_element [] = false
  is_element (c ∷ cs) = first_char c && all_chars cs

  pub is_star : Name → Bool
  is_star [] = false
  is_star (c ∷ cs) = c == b'*' && is_empty cs

  -- Each is an element, but for a last one that may be the wildcard.
  pub all_elements : Name → List Name → Bool
  all_elements e [] = is_element e || (allow_wildcard && is_star e)
  all_elements e (f ∷ fs) = is_element e && all_elements f fs

  abbrev pub two_or_more : List Name → Bool
  two_or_more [] = false
  two_or_more (f ∷ fs) = true

  -- The rest of the text, seen from the middle of an element.
  continues : Name → List Name → Bool
  continues e [] = all_chars e
  continues e (f ∷ fs) = all_chars e && all_elements f fs

  abbrev from_here : Bool → Name → List Name → Bool
  from_here true e fs = all_elements e fs
  from_here false e fs = continues e fs

  abbrev accepted : Option (Bool × Bool) → Bool
  accepted none = false
  accepted (some (dot, found_dot)) = not dot && found_dot

  empty-split : (s : Name) → is_empty s ≡ (is_empty (split s).0 && not (two_or_more (split s).1))
  unfolding split
  empty-split [] = refl
  empty-split (c ∷ s) = ground arith

  scan-split :
      (dot found : Bool) (s : Name)
      → accepted (scan ct allow_wildcard dot found s)
        ≡ (from_here dot (split s).0 (split s).1 && (found || two_or_more (split s).1))
  unfolding scan split good all_elements is_element is_star continues all_chars first_char
  scan-split true found [] = ground arith
  scan-split false found [] = ground arith
  scan-split true found (c ∷ s) =
      ground (arith, scan-split true true s, scan-split false found s, empty-split s)
  scan-split false found (c ∷ s) =
      ground (arith, scan-split true true s, scan-split false found s, empty-split s)

  -- The name is at most 255 bytes long and has two or more elements, each of them valid.
  unfoldable pub well_formed : Name → Bool
  well_formed p =
      leb (length p) name_max_len && all_elements (split p).0 (split p).1 && two_or_more (split p).1

  -- `kdbus_name_is_valid` accepts exactly the names of at most 255 bytes that have two or more
  -- elements separated by periods, each of them non-empty, of letters, digits, `_` and `-` and
  -- not beginning with a digit; with `allow_wildcard` the last element may also be `*`.
  pub name_is_valid-eq-well_formed : (p : Name) → name_is_valid ct allow_wildcard p ≡ well_formed p
  unfolding name_is_valid well_formed
  name_is_valid-eq-well_formed p = ground (arith, scan-split true false p)
