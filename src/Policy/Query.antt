-- ===== src/Policy/Query.antt =====
-- policy.c: `kdbus_policy_query` against the highest right that any rule grants.
use kdbus.Base.{
  ℕ, ◌≤◌, ◌≡◌, refl, Bool, true, false, not, ◌&&◌, List, [], ◌∷◌, Option, none, some, arith, All,
  Has, find-All, sym, find, ◌∙◌, inl, inr, Bool-cases, Option-cases, ltb, leb, ◌==◌, if◌then◌else◌,
}
use kdbus.Strhash.{NameHash, possible, strnhash}
use kdbus.Names.Syntax.{Name}
use kdbus.Policy.Db.{
  Access, Entry, Db, Cred, lookup, is_exact, is_prefix_rule, last_dot, access_user, access_group,
  access_world, policy_own,
}

-- An access right, or `none` for -EPERM, which is below all rights.
abbrev pub Right : Type 0
Right = Option ℕ

-- `(int)access <= highest`
abbrev pub at_most : ℕ → Right → Bool
at_most a none = false
at_most a (some b) = leb a b

abbrev pub is_own : Right → Bool
is_own none = false
is_own (some a) = leb policy_own a

pub in_groups : ℕ → List ℕ → Bool
in_groups g [] = false
in_groups g (x ∷ xs) = if x == g then true else in_groups g xs

-- Whether a rule speaks of the credentials: the `switch` over its type.
unfoldable pub applies : Cred → Access → Bool
applies cred a =
    if a.kind == access_user
    then cred.euid == a.id
    else (if a.kind == access_group
        then (if cred.egid == a.id then true else in_groups a.id cred.groups)
        else a.kind == access_world)

abbrev pub InRange : List Access → Type 0
InRange = All (λ a. a.access ≤ policy_own)

module _ (cred : Cred) where
  -- `highest` after one turn of the loop.
  abbrev pub raise : Right → Access → Right
  raise highest a =
      if at_most a.access highest
      then highest
      else (if applies cred a then some a.access else highest)

  -- The loop over the rules: `continue` where the rule is no better, and `break` at OWN.
  unfoldable pub query_loop : Right → List Access → Right
  query_loop highest [] = highest
  query_loop highest (a ∷ rest) =
      let next = raise highest a in
      let more = query_loop next rest in
      if at_most a.access highest then more else (if is_own next then next else more)

  -- `kdbus_policy_query_unlocked`, which `kdbus_policy_query` calls under a lock.
  unfoldable pub query : NameHash → Db → Name → ℕ → Right
  query h db name hash = elim (lookup h db name hash) [
    | none ↦ none
    | some e ↦ query_loop none e.access_list
  ]

  -- The better of two rights, and the best that a list of rules grants.
  abbrev pub better : Right → Right → Right
  better none s = s
  better (some a) none = some a
  better (some a) (some b) = if ltb a b then some b else some a

  pub best : List Access → Right
  best [] = none
  best (a ∷ rest) = better (if applies cred a then some a.access else none) (best rest)

  abbrev AtMostOwn : Right → Type 0
  AtMostOwn none = Unit {0}
  AtMostOwn (some a) = a ≤ policy_own

  best-AtMostOwn : (l : List Access) → InRange l → AtMostOwn (best l)
  unfolding best
  best-AtMostOwn [] r = tt
  best-AtMostOwn (a ∷ rest) r = ground (arith, best-AtMostOwn rest r.1)

  query_loop-best :
      (highest : Right) (l : List Access)
      → InRange l
      → AtMostOwn highest
      → query_loop highest l ≡ better highest (best l)
  unfolding query_loop best
  query_loop-best none [] r h = refl
  query_loop-best (some b) [] r h = refl
  query_loop-best highest (a ∷ rest) r h =
      ground (arith, best-AtMostOwn rest r.1, query_loop-best (raise highest a) rest r.1)

-- A rule of the list with its right, where the best right comes from.
abbrev pub Grants : Cred → List Access → ℕ → Type 0
Grants cred l a = (x : Access) × Has x l × (applies cred x ≡ true) × (x.access ≡ a)

best-granted : (cred : Cred) (l : List Access) (a : ℕ) → best cred l ≡ some a → Grants cred l a
unfolding best
best-granted cred [] a h = absurd (ground arith)
best-granted cred (x ∷ rest) a h = elim (Option-cases (best cred rest)) [
  | inl nothing ↦ (x, inl refl, ground (arith, nothing), ground (arith, nothing))
  | inr (b, found) ↦ elim (Bool-cases (applies cred x && not (ltb x.access b))) [
    | inl first ↦ (x, inl refl, ground (arith, found), ground (arith, found))
    | inr later ↦
        let more = best-granted cred rest b found in
        (more.0, inr more.1, more.2, more.3 ∙ ground (arith, found))
  ]
]

best-highest :
    (cred : Cred) (l : List Access) (x : Access)
    → Has x l
    → applies cred x ≡ true
    → at_most x.access (best cred l) ≡ true
unfolding best
best-highest cred [] x m h = absurd m
best-highest cred (y ∷ rest) x (inl e) h = elim (Option-cases (best cred rest)) [
  | inl nothing ↦ ground (arith, nothing)
  | inr (b, found) ↦ ground (arith, found)
]
best-highest cred (y ∷ rest) x (inr m) h = ground (arith, best-highest cred rest x m h)

-- Every rule in the database grants SEE, TALK or OWN.
abbrev pub RulesInRange : Db → Type 0
RulesInRange = All (λ e. InRange e.access_list)

lookup-InRange :
    (h : NameHash) (db : Db) (name : Name) (hash : ℕ) (e : Entry)
    → RulesInRange db
    → lookup h db name hash ≡ some e
    → InRange e.access_list
unfolding lookup
lookup-InRange h db name hash e r found =
    elim (Option-cases (find (λ x. possible h hash x.name && is_exact name x) db)) [
      | inr (x, exact) ↦
          find-All Fits (λ x. possible h hash x.name && is_exact name x) db {a = e} r
            (ground (arith, exact, found))
      | inl none_exact ↦ elim (Option-cases (last_dot name)) [
        | inl dotless ↦ absurd (ground (arith, none_exact, dotless, found))
        | inr (len, dot) ↦
            find-All Fits
              (λ x. possible h (strnhash h name len) x.name && is_prefix_rule name len x) db {a = e}
              r (ground (arith, none_exact, dot, found))
      ]
    ]
  where
    Fits : Entry → Type 0
    Fits x = InRange x.access_list

-- What `kdbus_policy_query` answers for a rule set that `kdbus_policy_set` can build: the highest
-- right among the rules of the matching entry that apply to the credentials. A right that it
-- returns is granted by such a rule, and no such rule grants more.
pub query_lem :
    (h : NameHash) (cred : Cred) (db : Db) (name : Name) (hash : ℕ) (e : Entry)
    → RulesInRange db
    → lookup h db name hash ≡ some e
    → ((a : ℕ) → query cred h db name hash ≡ some a → Grants cred e.access_list a)
      × ((x : Access)
          → Has x e.access_list
          → applies cred x ≡ true
          → at_most x.access (query cred h db name hash) ≡ true)
unfolding query
query_lem h cred db name hash e r found =
    let range = lookup-InRange h db name hash e r found in
    let highest : query cred h db name hash ≡ best cred e.access_list =
      rw (found, query) (query_loop-best cred none e.access_list range tt) in
    (
      λ a answer. best-granted cred e.access_list a (sym highest ∙ answer),
      λ x m h. rw highest (best-highest cred e.access_list x m h),
    )
