-- ===== src/Policy/Set.antt =====
-- policy.c: `kdbus_policy_set`, which replaces the rules of an owner, or leaves all as they are.
use kdbus.Base.{
  ℕ, ◌+◌, ◌-◌, Bool, true, false, not, ◌&&◌, List, [], ◌∷◌, ◌++◌, Option, none, some, find, keep,
  remove_all, get_or, take, length, ltb, str_eq, ◌==◌, if◌then◌else◌, Result, ok, err, einval,
  e2big, enomem, eexist, ◌>>=◌,
}
use kdbus.Strhash.{NameHash, strhash, possible}
use kdbus.Names.Syntax.{Name, Ctype, name_is_valid}
use kdbus.Policy.Db.{
  Access, Entry, Db, access_user, access_group, access_world, policy_own, owned_by,
}

-- `struct kdbus_policy_access`
pub record UserAccess : Type 0 where
  pub kind : ℕ
  pub access : ℕ
  pub id : ℕ

-- The items that the walk tells apart, each with whether the allocations made for it succeed.
pub data Item : Type 0 where
  name_item : Name → Bool → Item
  access_item : UserAccess → Bool → Item
  other_item : Item

-- `make_kuid` and `make_kgid` with `uid_valid` and `gid_valid`, in the caller's namespace.
pub record UserNs : Type 0 where
  pub make_kuid : ℕ → Option ℕ
  pub make_kgid : ℕ → Option ℕ

abbrev pub with_id : Option ℕ → ℕ → ℕ → Result Access
with_id none kind access = err einval
with_id (some id) kind access = ok (record { kind = kind; access = access; id = id })

-- `kdbus_policy_make_access`
unfoldable pub make_access : UserNs → UserAccess → Bool → Result Access
make_access ns u mem =
    if not mem
    then err enomem
    else (if ltb policy_own u.access
        then err einval
        else (if u.kind == access_user
            then with_id (ns.make_kuid u.id) u.kind u.access
            else (if u.kind == access_group
                then with_id (ns.make_kgid u.id) u.kind u.access
                else (if u.kind == access_world
                    then with_id (some 0) u.kind u.access
                    else err einval))))

-- The test for a name that ends in a wildcard.
unfoldable pub ends_in_wildcard : Name → Bool
ends_in_wildcard s =
    ltb 2 (length s) && get_or s (length s - 3) 0 == b'.' && get_or s (length s - 2) 0 == b'*'

module _ (ct : Ctype) (ns : UserNs) (max_policies : ℕ) (allow_wildcards : Bool) (owner : ℕ) where
  -- A KDBUS_ITEM_NAME: the entry that it starts. `count` has been increased already.
  unfoldable pub make_entry : ℕ → Name → Bool → Result Entry
  unfolding ends_in_wildcard
  make_entry count s mem =
      if not (max_policies == 0) && ltb max_policies count
      then err e2big
      else (if not (name_is_valid ct true s)
          then err einval
          else (if not mem
              then err enomem
              else (if ends_in_wildcard s
                  then (if not allow_wildcards
                      then err einval
                      else ok (record {
                        name = take (length s - 3) s;
                        access_list = [];
                        owner = owner;
                        wildcard = true;
                      }))
                  else ok
                      (record { name = s; access_list = []; owner = owner; wildcard = false }))))

  -- A KDBUS_ITEM_POLICY_ACCESS: one more rule for the entry started last, which is the first.
  unfoldable pub add_access : List Entry → UserAccess → Bool → Result (List Entry)
  unfolding make_access
  add_access [] u mem = err einval
  add_access (e ∷ entries) u mem = do
    a ← make_access ns u mem
    ok (record e { access_list = e.access_list ++ a ∷ [] } ∷ entries)

  -- The walk over the items, with the entries so far, the newest first, and their number.
  unfoldable pub collect : ℕ → List Entry → List Item → Result (List Entry)
  collect count entries [] = ok entries
  collect count entries (name_item s mem ∷ items) = elim (make_entry (count + 1) s mem) [
    | err x ↦ err x
    | ok e ↦ collect (count + 1) (e ∷ entries) items
  ]
  collect count entries (access_item u mem ∷ items) = elim (add_access entries u mem) [
    | err x ↦ err x
    | ok changed ↦ collect count changed items
  ]
  collect count entries (other_item ∷ items) = collect count entries items

abbrev pub bool_eq : Bool → Bool → Bool
bool_eq true b = b
bool_eq false b = not b

-- The test for a duplicate.
abbrev pub same_rule : Entry → Entry → Bool
same_rule e p = str_eq e.name p.name && bool_eq e.wildcard p.wildcard

-- The loop that adds the new entries; `false` is the jump to `restore` with -EEXIST.
unfoldable pub add_entries : NameHash → List Entry → Db → Db × Bool
add_entries h [] db = (db, true)
add_entries h (e ∷ entries) db =
    elim (find (λ p. possible h (strhash h e.name) p.name && same_rule e p) db) [
      | some p ↦ (db, false)
      | none ↦ add_entries h entries (e ∷ db)
    ]

-- Moves entries from the head of one list to the head of another.
unfoldable pub push_all : List Entry → Db → Db
push_all [] db = db
push_all (e ∷ entries) db = push_all entries (e ∷ db)

-- The part of `kdbus_policy_set` under the lock.
unfoldable pub replace_rules : NameHash → ℕ → List Entry → Db → Db × Result (Unit {0})
unfolding add_entries push_all
replace_rules h owner entries db =
    let restore = push_all (keep (owned_by owner) db) [] in
    let (added, fits) = add_entries h entries (remove_all (owned_by owner) db) in
    if fits
    then (added, ok tt)
    else (push_all restore (remove_all (owned_by owner) added), err eexist)

-- `kdbus_policy_set`
unfoldable pub policy_set :
    NameHash → Ctype → UserNs → List Item → ℕ → Bool → ℕ → Db → Db × Result (Unit {0})
policy_set h ct ns items max_policies allow_wildcards owner db =
    elim (collect ct ns max_policies allow_wildcards owner 0 [] items) [
      | err x ↦ (db, err x)
      | ok entries ↦ replace_rules h owner entries db
    ]
