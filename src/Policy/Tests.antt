-- ===== src/Policy/Tests.antt =====
-- Runs of the policy database and its laws at concrete rules.
use mathlib.Core.List.{Perm}
use kdbus.Base.{
  ◌↔◌, ◌⊎◌, ℕ, ◌+◌, ◌%◌, ◌≡◌, refl, true, false, ◌&&◌, ◌||◌, List, [], ◌∷◌, none, some, arith, find,
  keep, remove_all, str_eq, leb, ok, eexist, All, Has,
}
use kdbus.Strhash.{NameHash, strhash, strnhash, possible}
use kdbus.Names.Syntax.{Name, Ctype, name_is_valid}
use kdbus.Policy.Db.{Access, Entry, Db, Cred, lookup, last_dot, strn_eq, owned_by}
use kdbus.Policy.Query.{RulesInRange, query, query_loop, query_lem, applies, Grants, at_most}
use kdbus.Policy.Checks.{
  Checked, Peer, has_right, query_all, own_name, talk, see_name_unlocked, IsGranted, SomeGranted,
  own_name_lem, talk_lem,
}
use kdbus.Policy.Set.{
  Item, name_item, access_item, UserNs, policy_set, collect, replace_rules, add_entries, push_all,
  make_entry, add_access, make_access,
}
use kdbus.Policy.Atomic.{policy_set_fails, policy_set_done}
use kdbus.Policy.Wildcard.{policy_set_never_wildcard}

abbrev sum_hash : NameHash
sum_hash = record {
  init_name_hash = 0;
  partial_name_hash = λ c a. a + c;
  end_name_hash = λ a. a;
  bucket = λ k. k % 64;
}

abbrev ascii : Ctype
ascii = record {
  isalpha = λ c. (leb b'a' c && leb c b'z') || (leb b'A' c && leb c b'Z');
  isdigit = λ c. leb b'0' c && leb c b'9';
}

-- The initial namespace.
abbrev init_ns : UserNs
init_ns = record { make_kuid = λ u. some u; make_kgid = λ g. some g }

abbrev ab : Name
ab = b'a' ∷ b'.' ∷ b'b' ∷ []

abbrev a_star : Name
a_star = b'a' ∷ b'.' ∷ b'*' ∷ []

-- User 7 may own "a.b", and all the world may talk to it.
abbrev rule_own : Access
rule_own = record { kind = 1; access = 2; id = 7 }

abbrev rule_talk : Access
rule_talk = record { kind = 3; access = 1; id = 0 }

abbrev ab_entry : Entry
ab_entry = record {
  name = ab;
  access_list = rule_talk ∷ rule_own ∷ [];
  owner = 1;
  wildcard = false;
}

abbrev db : Db
db = ab_entry ∷ []

abbrev user : ℕ → Cred
user u = record { euid = u; egid = 0; groups = [] }

-- Owner 2 asks for the rule of "a.b" that owner 1 has made, or for one that is free.
abbrev clashing : List Item
clashing = name_item ab true ∷ access_item (record { kind = 3; access = 1; id = 0 }) true ∷ []

abbrev starred : List Item
starred = name_item a_star true ∷ access_item (record { kind = 3; access = 1; id = 0 }) true ∷ []

-- All functions that a run goes through.
policy_code : ℕ
unfolding policy_set collect make_entry add_access make_access replace_rules add_entries push_all
    name_is_valid possible strhash strnhash find keep remove_all str_eq lookup last_dot strn_eq
    query query_loop applies
policy_code = 0

query_runs :
    (query (user 7) sum_hash db ab (strhash sum_hash ab) ≡ some 2)
    × (query (user 8) sum_hash db ab (strhash sum_hash ab) ≡ some 1)
    × (query (user 8) sum_hash db a_star (strhash sum_hash a_star) ≡ none)
unfolding policy_code
query_runs = (refl, refl, refl)

-- The name is stored with its wildcard and as an exact rule, and does not match "a.b".
starred_run : policy_set sum_hash ascii init_ns starred 0 false 2 [] ≡ (
  record { name = a_star; access_list = rule_talk ∷ []; owner = 2; wildcard = false } ∷ [],
  ok tt,
)
unfolding policy_code
starred_run = refl

query_lem_example :
    ((a : ℕ)
      → query (user 7) sum_hash db ab (strhash sum_hash ab) ≡ some a
      → Grants (user 7) ab_entry.access_list a)
    × ((x : Access)
        → Has x ab_entry.access_list
        → applies (user 7) x ≡ true
        → at_most x.access (query (user 7) sum_hash db ab (strhash sum_hash ab)) ≡ true)
unfolding policy_code
query_lem_example =
    query_lem sum_hash (user 7) db ab (strhash sum_hash ab) ab_entry (omega arith) refl

policy_set_fails_example : Perm (policy_set sum_hash ascii init_ns clashing 0 false 2 db).0 db
unfolding policy_code
policy_set_fails_example = policy_set_fails sum_hash ascii init_ns clashing 0 false 2 db eexist refl

policy_set_done_example :
    (es : List Entry) × (collect ascii init_ns 0 false 2 0 [] starred ≡ ok es)
    × (keep (owned_by 2) (policy_set sum_hash ascii init_ns starred 0 false 2 db).0
        ≡ push_all es [])
    × (remove_all (owned_by 2) (policy_set sum_hash ascii init_ns starred 0 false 2 db).0
        ≡ remove_all (owned_by 2) db)
unfolding policy_code
policy_set_done_example = policy_set_done sum_hash ascii init_ns starred 0 false 2 db refl

policy_set_never_wildcard_example :
    All (λ e. e.wildcard ≡ false) (policy_set sum_hash ascii init_ns starred 0 true 2 db).0
    × (policy_set sum_hash ascii init_ns starred 0 true 2 db
        ≡ policy_set sum_hash ascii init_ns starred 0 false 2 db)
policy_set_never_wildcard_example =
    policy_set_never_wildcard sum_hash ascii init_ns starred 0 2 db
      (record { no_letter = refl; no_digit = refl }) (refl, tt)

-- User 7 on a custom endpoint whose policy, and that of its bus, is `db`, and a peer of user 8.
abbrev seven : Checked
seven = record {
  cred = user 7;
  privileged = false;
  ep_user = true;
  ep_policy_db = db;
  bus_policy_db = db;
}

abbrev peer : Peer
peer = record { uid = 8; names_list = a_star ∷ ab ∷ [] }

db-RulesInRange : RulesInRange db
db-RulesInRange = ((omega arith, (omega arith, tt)), tt)

check_runs :
    (own_name sum_hash seven none ab ≡ true)
    × (own_name sum_hash seven (some (user 8)) ab ≡ false)
    × (talk sum_hash seven (some (user 9)) peer ≡ true)
    × (see_name_unlocked sum_hash seven none a_star ≡ false)
unfolding policy_code own_name talk see_name_unlocked query_all has_right
check_runs = (refl, refl, refl, refl)

own_name_lem_example : (own_name sum_hash seven none ab ≡ true) ↔ (
    ((seven.ep_user ≡ false) ⊎ IsGranted sum_hash 2 (user 7) db ab)
    × ((seven.privileged ≡ true) ⊎ IsGranted sum_hash 2 (user 7) db ab))
own_name_lem_example = own_name_lem sum_hash seven none db-RulesInRange db-RulesInRange ab

talk_lem_example : (talk sum_hash seven none peer ≡ true) ↔ (
    ((seven.ep_user ≡ false) ⊎ SomeGranted sum_hash 1 (user 7) db (a_star ∷ ab ∷ []))
    × ((seven.privileged ≡ true)
        ⊎ ((user 7).euid ≡ 8)
        ⊎ SomeGranted sum_hash 1 (user 7) db (a_star ∷ ab ∷ [])))
talk_lem_example = talk_lem sum_hash seven none db-RulesInRange db-RulesInRange peer
