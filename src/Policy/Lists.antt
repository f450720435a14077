-- ===== src/Policy/Lists.antt =====
-- policy.c: what the loops of `kdbus_policy_set` do to the list of entries.
use mathlib.Core.List.{Perm, perm_middle}
use mathlib.Core.List.Perm
use kdbus.Base.{
  ℕ, ◌≡◌, refl, Bool, true, ◌&&◌, List, [], ◌∷◌, ◌++◌, arith, find, All, Option-cases, Bool-cases,
  inl, inr, keep, remove_all, All-keep, All-remove_all, subst, append-nil,
}
use kdbus.Strhash.{NameHash, strhash, possible}
use kdbus.Policy.Db.{Entry, Db, owned_by}
use kdbus.Policy.Set.{replace_rules, add_entries, push_all, same_rule}

module _ (P : Entry → Type 0) where
  pub All-push_all : (es : List Entry) (db : Db) → All P es → All P db → All P (push_all es db)
  unfolding push_all
  All-push_all [] db r s = s
  All-push_all (e ∷ es) db r s = All-push_all es (e ∷ db) r.1 (r.0, s)

-- What `add_entries` leaves: all entries in front of the database, or a part of them.
module _ (h : NameHash) where
  pub add_entries-All :
      (P : Entry → Type 0) (es : List Entry) (db : Db)
      → All P es
      → All P db
      → All P (add_entries h es db).0
  unfolding add_entries
  add_entries-All P [] db r s = s
  add_entries-All P (e ∷ es) db r s =
      elim (Option-cases (find (λ p. possible h (strhash h e.name) p.name && same_rule e p) db)) [
        | inl free ↦ rw (free, add_entries) (add_entries-All P es (e ∷ db) r.1 (r.0, s))
        | inr (p, taken) ↦ rw (taken, add_entries) s
      ]

  pub add_entries-push_all :
      (es : List Entry) (db : Db)
      → (add_entries h es db).1 ≡ true
      → (add_entries h es db).0 ≡ push_all es db
  unfolding add_entries push_all
  add_entries-push_all [] db fits = refl
  add_entries-push_all (e ∷ es) db fits =
      elim (Option-cases (find (λ p. possible h (strhash h e.name) p.name && same_rule e p) db)) [
        | inl free ↦ ground (arith, free, add_entries-push_all es (e ∷ db))
        | inr (p, taken) ↦ absurd (ground (arith, taken))
      ]

  -- Entries of the owner come and go without a trace.
  pub remove_all-add_entries :
      (owner : ℕ) (es : List Entry) (db : Db)
      → All (λ e. owned_by owner e ≡ true) es
      → remove_all (owned_by owner) (add_entries h es db).0 ≡ remove_all (owned_by owner) db
  unfolding add_entries remove_all
  remove_all-add_entries owner [] db r = refl
  remove_all-add_entries owner (e ∷ es) db r =
      elim (Option-cases (find (λ p. possible h (strhash h e.name) p.name && same_rule e p) db)) [
        | inl free ↦ ground (arith, free, remove_all-add_entries owner es (e ∷ db) r.1)
        | inr (p, taken) ↦ ground (arith, taken)
      ]

pub remove_all_twice :
    {A : Type 0} (p : A → Bool) (l : List A) → remove_all p (remove_all p l) ≡ remove_all p l
unfolding remove_all
remove_all_twice p [] = refl
remove_all_twice p (x ∷ l) = ground (arith, remove_all_twice p l)

push_all-perm : (es : List Entry) (db : Db) → Perm (push_all es db) (es ++ db)
unfolding push_all
push_all-perm [] db = Perm.refl db
push_all-perm (e ∷ es) db = Perm.trans (push_all-perm es (e ∷ db)) (perm_middle es db)

keep-remove_all-perm : (p : Entry → Bool) (db : Db) → Perm (keep p db ++ remove_all p db) db
unfolding keep remove_all
keep-remove_all-perm p [] = Perm.refl []
keep-remove_all-perm p (e ∷ db) =
    let rest = Perm.cons e (keep-remove_all-perm p db) in
    ground (arith, rest, Perm.trans (perm_middle (keep p db) (remove_all p db)) rest)

-- The saved entries put back beside the others make up the old database.
pub restored-perm :
    (p : Entry → Bool) (db : Db) → Perm (push_all (push_all (keep p db) []) (remove_all p db)) db
restored-perm p db = Perm.trans (push_all-perm (push_all (keep p db) []) (remove_all p db)) (
    Perm.trans
      (Perm.append
        (subst (Perm (push_all (keep p db) [])) (append-nil (keep p db))
          (push_all-perm (keep p db) []))
        (Perm.refl (remove_all p db)))
      (keep-remove_all-perm p db))

pub keep-push_all :
    (p : Entry → Bool) (es : List Entry) (db : Db)
    → All (λ e. p e ≡ true) es
    → keep p (push_all es db) ≡ push_all es (keep p db)
unfolding keep push_all
keep-push_all p [] db own = refl
keep-push_all p (e ∷ es) db own = ground (arith, keep-push_all p es (e ∷ db) own.1)

pub remove_all-push_all :
    (p : Entry → Bool) (es : List Entry) (db : Db)
    → All (λ e. p e ≡ true) es
    → remove_all p (push_all es db) ≡ remove_all p db
unfolding remove_all push_all
remove_all-push_all p [] db own = refl
remove_all-push_all p (e ∷ es) db own = ground (arith, remove_all-push_all p es (e ∷ db) own.1)

pub keep-remove_all : (p : Entry → Bool) (db : Db) → keep p (remove_all p db) ≡ []
unfolding keep remove_all
keep-remove_all p [] = refl
keep-remove_all p (e ∷ db) = ground (arith, keep-remove_all p db)

module _ (P : Entry → Type 0) (h : NameHash) (owner : ℕ) (es : List Entry) (db : Db) where
  -- What holds of all old and all new entries holds of all entries afterwards.
  pub replace_rules-All : All P es → All P db → All P (replace_rules h owner es db).0
  unfolding replace_rules
  replace_rules-All new old = elim (Bool-cases (add_entries h es others).1) [
    | inl fits ↦ rw (fits, replace_rules) (add_entries-All h P es others new left)
    | inr clash ↦
        rw (clash, replace_rules)
          (All-push_all P (push_all (keep (owned_by owner) db) [])
            (remove_all (owned_by owner) (add_entries h es others).0)
            (All-push_all P (keep (owned_by owner) db) [] (All-keep P (owned_by owner) db old) tt)
            (All-remove_all P (owned_by owner) (add_entries h es others).0
              (add_entries-All h P es others new left)))
  ]
    where
      others : Db
      others = remove_all (owned_by owner) db

      left : All P others
      left = All-remove_all P (owned_by owner) db old
