-- ===== src/Names/Wildcard.antt =====
-- Where a wildcard can stand in a name that `kdbus_name_is_valid` accepts.
use kdbus.Base.{
  ℕ, zero, suc, ◌+◌, ◌<◌, ◌≡◌, refl, Bool, true, false, not, ◌&&◌, ◌||◌, [], ◌∷◌, none, arith,
  length, ◌==◌, get_or, ◌≢◌,
}
use kdbus.Names.Syntax.{Ctype, Name, is_empty, good, scan, name_is_valid}

-- A `*` before the last byte.
pub inner_star : Name → Bool
inner_star [] = false
inner_star (c ∷ cs) = (c == b'*' && not (is_empty cs)) || inner_star cs

pub inner_star-get_or :
    (s : Name) (i : ℕ) → i + 1 < length s → get_or s i 0 ≡ b'*' → inner_star s ≡ true
unfolding inner_star
inner_star-get_or [] i h e = absurd (omega arith)
inner_star-get_or (c ∷ []) zero h e = absurd (omega arith)
inner_star-get_or (c ∷ d ∷ s) zero h e = ground arith
inner_star-get_or (c ∷ s) (suc i) h e = ground (arith, inner_star-get_or s i)

module _ (ct : Ctype) (allow : Bool) where
  scan-inner_star :
      (dot found : Bool) (s : Name)
      → ct.isalpha b'*' ≡ false
      → ct.isdigit b'*' ≡ false
      → scan ct allow dot found s ≢ none
      → inner_star s ≡ false
  unfolding scan good inner_star
  scan-inner_star dot found [] a d h = refl
  scan-inner_star dot found (c ∷ s) a d h =
      ground (arith, scan-inner_star true true s a d, scan-inner_star false found s a d)

  -- With a kernel whose `isalpha` and `isdigit` refuse `*`, an accepted name has `*` only at its
  -- end.
  pub inner_star_of_valid :
      (p : Name)
      → ct.isalpha b'*' ≡ false
      → ct.isdigit b'*' ≡ false
      → name_is_valid ct allow p ≡ true
      → inner_star p ≡ false
  unfolding name_is_valid
  inner_star_of_valid p a d h = scan-inner_star true false p a d (λ e. ground arith)
