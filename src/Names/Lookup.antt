-- ===== src/Names/Lookup.antt =====
-- What the registry finds under a name after each change of its entries.
use mathlib.Core.Option
use kdbus.Base.{
  ◌≡◌, ap, List, [], ◌∷◌, none, some, arith, find, remove_all, modify_first, str_eq, eq_of_str_eq,
  str_eq_refl, if◌then◌else◌, fun_ext, Bool-cases, inl, inr,
}
use kdbus.Strhash.{NameHash, strhash, possible-and_str_eq}
use kdbus.Names.Syntax.{Name}
use kdbus.Names.State.{State, Entry, entry_of, name_find}
use kdbus.Names.Counts.{str_eq_left}

-- The hash of the name decides nothing about what the registry finds.
pub name_find-eq-entry_of :
    (h : NameHash) (n : Name) (st : State) → name_find h (strhash h n) n st ≡ entry_of n st
unfolding name_find
name_find-eq-entry_of h n st =
    ap (λ p. find p st.entries) (fun_ext (λ e. possible-and_str_eq h n e.name))

module _ (n : Name) (f : Entry → Entry) (same : (e : Entry) → (f e).name ≡ e.name) where
  pub find-modify_first :
      (m : Name) (es : List Entry)
      → find (λ e. str_eq e.name m) (modify_first (λ e. str_eq e.name n) f es) ≡ (
          if str_eq n m
          then Option.map f (find (λ e. str_eq e.name m) es)
          else find (λ e. str_eq e.name m) es)
  unfolding find modify_first
  find-modify_first m [] = ground arith
  find-modify_first m (e ∷ es) = ground (
    arith,
    same e,
    find-modify_first m es,
    str_eq_left e.name n m,
    str_eq_left n m n,
    str_eq_left e.name m n,
    str_eq_refl n,
  )

pub find-remove_all :
    (n m : Name) (es : List Entry)
    → find (λ e. str_eq e.name m) (remove_all (λ e. str_eq e.name n) es)
      ≡ (if str_eq n m then none else find (λ e. str_eq e.name m) es)
unfolding find remove_all
find-remove_all n m [] = ground arith
find-remove_all n m (e ∷ es) = ground (
  arith,
  find-remove_all n m es,
  str_eq_left e.name n m,
  str_eq_left e.name m n,
  str_eq_left n m n,
  str_eq_refl n,
)

pub name_of_find :
    (n : Name) (es : List Entry) {e : Entry} → find (λ x. str_eq x.name n) es ≡ some e → e.name ≡ n
unfolding find
name_of_find n [] h = cc
name_of_find n (x ∷ es) {e} h = elim (Bool-cases (str_eq x.name n)) [
  | inl hit ↦ ground (arith, eq_of_str_eq x.name n)
  | inr miss ↦ name_of_find n es {e = e} (ground arith)
]
