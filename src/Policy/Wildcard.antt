-- ===== src/Policy/Wildcard.antt =====
-- policy.c: what becomes of a name that ends in a wildcard.
use kdbus.Base.{
  ℕ, ◌+◌, ◌-◌, ◌≡◌, refl, Bool, true, false, List, [], ◌∷◌, ◌++◌, arith, length, All, ok,
  Bool-cases, inl, inr, Result-cases, subst,
}
use kdbus.Strhash.{NameHash}
use kdbus.Names.Syntax.{Name, Ctype, name_is_valid}
use kdbus.Names.Wildcard.{inner_star-get_or, inner_star_of_valid}
use kdbus.Policy.Db.{Entry, Db}
use kdbus.Policy.Lists.{replace_rules-All}
use kdbus.Policy.Set.{
  Item, name_item, access_item, other_item, UserNs, ends_in_wildcard, make_entry, add_access,
  collect, policy_set, make_access,
}

-- `isalpha` and `isdigit` refuse `*`.
pub record StarIsSpecial (ct : Ctype) : Type 0 where
  pub no_letter : ct.isalpha b'*' ≡ false
  pub no_digit : ct.isdigit b'*' ≡ false

ends_in_wildcard_of_valid :
    (ct : Ctype) (s : Name)
    → StarIsSpecial ct
    → name_is_valid ct true s ≡ true
    → ends_in_wildcard s ≡ false
unfolding ends_in_wildcard
ends_in_wildcard_of_valid ct s star valid = ground (
  arith,
  inner_star_of_valid ct true s star.no_letter star.no_digit valid,
  inner_star-get_or s (length s - 2),
)

module _ (ct : Ctype) (star : StarIsSpecial ct) (ns : UserNs) (max_policies owner : ℕ) where
  make_entry_both :
      (count : ℕ) (s : Name) (mem : Bool)
      → make_entry ct ns max_policies true owner count s mem
        ≡ make_entry ct ns max_policies false owner count s mem
  unfolding make_entry
  make_entry_both count s mem = elim (Bool-cases (name_is_valid ct true s)) [
    | inl valid ↦ ground (arith, valid, ends_in_wildcard_of_valid ct s star valid)
    | inr invalid ↦ ground (arith, invalid)
  ]

  collect_both :
      (count : ℕ) (entries : List Entry) (items : List Item)
      → collect ct ns max_policies true owner count entries items
        ≡ collect ct ns max_policies false owner count entries items
  unfolding collect add_access
  collect_both count entries [] = refl
  collect_both count entries (name_item s mem ∷ items) =
      elim (Result-cases (make_entry ct ns max_policies false owner (count + 1) s mem)) [
        | inl (e, made) ↦ ground (
          arith,
          made,
          make_entry_both (count + 1) s mem,
          collect_both (count + 1) (e ∷ entries) items,
        )
        | inr (x, failed) ↦ ground (arith, failed, make_entry_both (count + 1) s mem)
      ]
  collect_both count [] (access_item u mem ∷ items) = refl
  collect_both count (e ∷ entries) (access_item u mem ∷ items) =
      elim (Result-cases (make_access ns u mem)) [
        | inl (a, made) ↦ ground (
          arith,
          made,
          collect_both count (record e { access_list = e.access_list ++ a ∷ [] } ∷ entries) items,
        )
        | inr (x, failed) ↦ ground (arith, failed)
      ]
  collect_both count entries (other_item ∷ items) = collect_both count entries items

  abbrev IsPlain : Entry → Type 0
  IsPlain e = e.wildcard ≡ false

  make_entry-IsPlain :
      (allow : Bool) (count : ℕ) (s : Name) (mem : Bool) (e : Entry)
      → make_entry ct ns max_policies allow owner count s mem ≡ ok e
      → IsPlain e × (e.name ≡ s)
  unfolding make_entry
  make_entry-IsPlain allow count s mem e made = elim (Bool-cases (name_is_valid ct true s)) [
    | inl valid ↦ ground (arith, valid, ends_in_wildcard_of_valid ct s star valid)
    | inr invalid ↦ ground (arith, invalid)
  ]

  collect-IsPlain :
      (allow : Bool) (count : ℕ) (entries : List Entry) (items : List Item) (es : List Entry)
      → All IsPlain entries
      → collect ct ns max_policies allow owner count entries items ≡ ok es
      → All IsPlain es
  unfolding collect add_access
  collect-IsPlain allow count entries [] es plain h = subst (All IsPlain) (cc) plain
  collect-IsPlain allow count entries (name_item s mem ∷ items) es plain h =
      elim (Result-cases (make_entry ct ns max_policies allow owner (count + 1) s mem)) [
        | inl (e, made) ↦
            collect-IsPlain allow (count + 1) (e ∷ entries) items es
              ((make_entry-IsPlain allow (count + 1) s mem e made).0, plain) (ground (arith, made))
        | inr (x, failed) ↦ absurd (ground (arith, failed))
      ]
  collect-IsPlain allow count [] (access_item u mem ∷ items) es plain h = absurd (ground arith)
  collect-IsPlain allow count (e ∷ entries) (access_item u mem ∷ items) es plain h =
      elim (Result-cases (make_access ns u mem)) [
        | inl (a, made) ↦
            collect-IsPlain allow count
              (record e { access_list = e.access_list ++ a ∷ [] } ∷ entries) items es plain
              (ground (arith, made))
        | inr (x, failed) ↦ absurd (ground (arith, failed))
      ]
  collect-IsPlain allow count entries (other_item ∷ items) es plain h =
      collect-IsPlain allow count entries items es plain h

-- Where `isalpha` and `isdigit` refuse `*`, `kdbus_policy_set` makes no wildcard rule: all rules of
-- a database stay exact, and whether the caller allows wildcards does not change the outcome.
pub policy_set_never_wildcard :
    (h : NameHash) (ct : Ctype) (ns : UserNs) (items : List Item) (max_policies owner : ℕ) (db : Db)
    → StarIsSpecial ct
    → All (λ e. e.wildcard ≡ false) db
    → All (λ e. e.wildcard ≡ false) (policy_set h ct ns items max_policies true owner db).0
      × (policy_set h ct ns items max_policies true owner db
          ≡ policy_set h ct ns items max_policies false owner db)
unfolding policy_set
policy_set_never_wildcard h ct ns items max_policies owner db star plain =
    elim (Result-cases (collect ct ns max_policies true owner 0 [] items)) [
      | inl (es, walked) ↦ (
        rw (walked, policy_set)
            (replace_rules-All Plain h owner es db
              (collect-IsPlain ct star ns max_policies owner true 0 [] items es tt walked) plain),
        ground (arith, walked, collect_both ct star ns max_policies owner 0 [] items),
      )
      | inr (x, failed) ↦ (
        rw (failed, policy_set) plain,
        ground (arith, failed, collect_both ct star ns max_policies owner 0 [] items),
      )
    ]
  where
    Plain : Entry → Type 0
    Plain e = e.wildcard ≡ false
