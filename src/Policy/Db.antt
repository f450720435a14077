-- ===== src/Policy/Db.antt =====
-- policy.c: the database of access rules and the lookup of a name in it.
-- The hash table is the list of its entries: `hash_for_each_possible` visits those that share the
-- key's bucket, `hash_add` puts one in front.
use kdbus.Base.{
  ℕ, zero, suc, Bool, true, false, not, ◌&&◌, List, [], ◌∷◌, Option, none, some, find, get_or,
  str_eq, ◌==◌, if◌then◌else◌,
}
use kdbus.Strhash.{NameHash, strnhash, possible}
use kdbus.Names.Syntax.{Name}

-- KDBUS_POLICY_ACCESS_*
abbrev pub access_user : ℕ
access_user = 1

abbrev pub access_group : ℕ
access_group = 2

abbrev pub access_world : ℕ
access_world = 3

-- KDBUS_POLICY_SEE, KDBUS_POLICY_TALK, KDBUS_POLICY_OWN
abbrev pub policy_see : ℕ
policy_see = 0

abbrev pub policy_talk : ℕ
policy_talk = 1

abbrev pub policy_own : ℕ
policy_own = 2

-- `struct kdbus_policy_db_entry_access`; `id` is the union of `uid` and `gid`.
pub record Access : Type 0 where
  pub kind : ℕ
  pub access : ℕ
  pub id : ℕ

-- `struct kdbus_policy_db_entry`; an owner is known by a number in place of its address.
pub record Entry : Type 0 where
  pub name : Name
  pub access_list : List Access
  pub owner : ℕ
  pub wildcard : Bool

abbrev pub Db : Type 0
Db = List Entry

-- What a query reads of `struct cred`.
pub record Cred : Type 0 where
  pub euid : ℕ
  pub egid : ℕ
  pub groups : List ℕ

-- `strrchr(name, '.') - name`
unfoldable pub last_dot : Name → Option ℕ
last_dot [] = none
last_dot (c ∷ cs) = elim (last_dot cs) [
  | some i ↦ some (suc i)
  | none ↦ if c == b'.' then some 0 else none
]

-- `!strncmp(s, t, n)`; the end of a list is the terminating zero.
unfoldable pub strn_eq : Name → Name → ℕ → Bool
strn_eq s t zero = true
strn_eq [] [] (suc n) = true
strn_eq [] (y ∷ ys) (suc n) = false
strn_eq (x ∷ xs) [] (suc n) = false
strn_eq (x ∷ xs) (y ∷ ys) (suc n) = x == y && strn_eq xs ys n

abbrev pub is_exact : Name → Entry → Bool
is_exact name e = str_eq e.name name && not e.wildcard

abbrev pub is_prefix_rule : Name → ℕ → Entry → Bool
is_prefix_rule name len e = e.wildcard && strn_eq e.name name len && get_or e.name len 0 == 0

-- `kdbus_policy_lookup`
unfoldable pub lookup : NameHash → Db → Name → ℕ → Option Entry
lookup h db name hash = elim (find (λ e. possible h hash e.name && is_exact name e) db) [
  | some e ↦ some e
  | none ↦ elim (last_dot name) [
    | none ↦ none
    | some len ↦ find (λ e. possible h (strnhash h name len) e.name && is_prefix_rule name len e) db
  ]
]

-- `__kdbus_policy_remove_owner`, and the test that it makes
abbrev pub owned_by : ℕ → Entry → Bool
owned_by owner e = e.owner == owner
