-- ===== src/Policy/Atomic.antt =====
-- policy.c: `kdbus_policy_set` is atomic. Where it fails the database holds the rules that it held;
-- where it succeeds exactly the owner's rules are replaced.
use mathlib.Core.List.{Perm}
use mathlib.Core.List.Perm
use kdbus.Base.{
  ℕ, ◌+◌, ◌≡◌, Bool, true, List, [], ◌∷◌, ◌++◌, arith, All, Result-cases, ok, err, Errno,
  Bool-cases, inl, inr, keep, remove_all, subst,
}
use kdbus.Strhash.{NameHash}
use kdbus.Names.Syntax.{Name, Ctype}
use kdbus.Policy.Db.{Entry, Db, owned_by}
use kdbus.Policy.Set.{
  Item, name_item, access_item, other_item, UserNs, make_entry, add_access, collect, policy_set,
  replace_rules, make_access, add_entries, push_all,
}
use kdbus.Policy.Lists.{
  add_entries-push_all, remove_all-add_entries, remove_all_twice, restored-perm, keep-push_all,
  remove_all-push_all, keep-remove_all,
}

-- Every entry that the walk collects belongs to the caller's owner.
module _ (ct : Ctype) (ns : UserNs) (max_policies : ℕ) (allow : Bool) (owner : ℕ) where
  abbrev IsOwned : Entry → Type 0
  IsOwned e = owned_by owner e ≡ true

  make_entry-IsOwned :
      (count : ℕ) (s : Name) (mem : Bool) (e : Entry)
      → make_entry ct ns max_policies allow owner count s mem ≡ ok e
      → IsOwned e
  unfolding make_entry
  make_entry-IsOwned count s mem e made = ground arith

  collect-IsOwned :
      (count : ℕ) (entries : List Entry) (items : List Item) (es : List Entry)
      → All IsOwned entries
      → collect ct ns max_policies allow owner count entries items ≡ ok es
      → All IsOwned es
  unfolding collect add_access
  collect-IsOwned count entries [] es own h = subst (All IsOwned) (cc) own
  collect-IsOwned count entries (name_item s mem ∷ items) es own h =
      elim (Result-cases (make_entry ct ns max_policies allow owner (count + 1) s mem)) [
        | inl (e, made) ↦
            collect-IsOwned (count + 1) (e ∷ entries) items es
              (make_entry-IsOwned (count + 1) s mem e made, own) (ground (arith, made))
        | inr (x, failed) ↦ absurd (ground (arith, failed))
      ]
  collect-IsOwned count [] (access_item u mem ∷ items) es own h = absurd (ground arith)
  collect-IsOwned count (e ∷ entries) (access_item u mem ∷ items) es own h =
      elim (Result-cases (make_access ns u mem)) [
        | inl (a, made) ↦
            collect-IsOwned count (record e { access_list = e.access_list ++ a ∷ [] } ∷ entries)
              items es own (ground (arith, made))
        | inr (x, failed) ↦ absurd (ground (arith, failed))
      ]
  collect-IsOwned count entries (other_item ∷ items) es own h =
      collect-IsOwned count entries items es own h

module _ (h : NameHash) (owner : ℕ) (es : List Entry) (db : Db)
    (own : All (λ e. owned_by owner e ≡ true) es) where
  abbrev others : Db
  others = remove_all (owned_by owner) db

  replace_rules_fails :
      (x : Errno)
      → (replace_rules h owner es db).1 ≡ err x
      → Perm (replace_rules h owner es db).0 db
  unfolding replace_rules
  replace_rules_fails x failed = elim (Bool-cases (add_entries h es others).1) [
    | inl fits ↦ absurd (ground (arith, fits))
    | inr clash ↦
        rw
          (
            clash,
            replace_rules,
            remove_all-add_entries h owner es others own,
            remove_all_twice (owned_by owner) db,
          )
          (restored-perm (owned_by owner) db)
  ]

  replace_rules_done :
      (replace_rules h owner es db).1 ≡ ok tt
      → (keep (owned_by owner) (replace_rules h owner es db).0 ≡ push_all es [])
        × (remove_all (owned_by owner) (replace_rules h owner es db).0 ≡ others)
  unfolding replace_rules
  replace_rules_done done = elim (Bool-cases (add_entries h es others).1) [
    | inl fits ↦ ground (
      arith,
      fits,
      add_entries-push_all h es others,
      keep-push_all (owned_by owner) es others own,
      keep-remove_all (owned_by owner) db,
      remove_all-push_all (owned_by owner) es others own,
      remove_all_twice (owned_by owner) db,
    )
    | inr clash ↦ absurd (ground (arith, clash))
  ]

module _ (h : NameHash) (ct : Ctype) (ns : UserNs) (items : List Item) (max_policies : ℕ)
    (allow : Bool) (owner : ℕ) (db : Db) where
  -- A call of `kdbus_policy_set` that fails leaves the rules of the database as they are, in
  -- another order at most.
  pub policy_set_fails :
      (x : Errno)
      → (policy_set h ct ns items max_policies allow owner db).1 ≡ err x
      → Perm (policy_set h ct ns items max_policies allow owner db).0 db
  unfolding policy_set
  policy_set_fails x failed =
      elim (Result-cases (collect ct ns max_policies allow owner 0 [] items)) [
        | inr (y, bad) ↦ rw (bad, policy_set) (Perm.refl db)
        | inl (es, walked) ↦
            rw (walked, policy_set)
              (replace_rules_fails h owner es db
                (collect-IsOwned ct ns max_policies allow owner 0 [] items es tt walked) x
                (ground (arith, walked)))
      ]

  -- A call of `kdbus_policy_set` that succeeds has walked all items without an error; afterwards
  -- the rules of the owner are those that the walk collected, and the rules of other owners are
  -- those of before, in the same order.
  pub policy_set_done :
      (policy_set h ct ns items max_policies allow owner db).1 ≡ ok tt
      → (es : List Entry) × (collect ct ns max_policies allow owner 0 [] items ≡ ok es)
        × (keep (owned_by owner) (policy_set h ct ns items max_policies allow owner db).0
            ≡ push_all es [])
        × (remove_all (owned_by owner) (policy_set h ct ns items max_policies allow owner db).0
            ≡ remove_all (owned_by owner) db)
  unfolding policy_set
  policy_set_done done = elim (Result-cases (collect ct ns max_policies allow owner 0 [] items)) [
    | inr (y, bad) ↦ absurd (ground (arith, bad))
    | inl (es, walked) ↦
        let replaced =
          replace_rules_done h owner es db
            (collect-IsOwned ct ns max_policies allow owner 0 [] items es tt walked)
            (ground (arith, walked)) in
        (es, walked, rw (walked, policy_set) replaced.0, rw (walked, policy_set) replaced.1)
  ]
