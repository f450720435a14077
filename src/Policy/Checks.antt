-- ===== src/Policy/Checks.antt =====
-- connection.c: the checks of a connection against the policies of its endpoint and its bus.
use kdbus.Base.{
  ℕ, ◌≤◌, ◌≡◌, ◌↔◌, ◌⊎◌, refl, subst, Bool, true, false, not, ◌&&◌, List, [], ◌∷◌, Option, none,
  some, arith, Has, inl, inr, Bool-cases, Option-cases, ◌==◌, if◌then◌else◌,
}
use kdbus.Strhash.{NameHash, strhash}
use kdbus.Names.Syntax.{Name}
use kdbus.Policy.Db.{Access, Entry, Db, Cred, lookup, policy_see, policy_talk, policy_own}
use kdbus.Policy.Query.{applies, query, at_most, query_lem, RulesInRange}

-- What the checks read of a connection: its credentials, KDBUS_PRIVILEGED, whether its endpoint is a
-- custom one, and the two databases.
pub record Checked : Type 0 where
  pub cred : Cred
  pub privileged : Bool
  pub ep_user : Bool
  pub ep_policy_db : Db
  pub bus_policy_db : Db

-- What they read of a peer.
pub record Peer : Type 0 where
  pub uid : ℕ
  pub names_list : List Name

-- `conn_creds ? : conn->cred`
abbrev pub creds_of : Option Cred → Checked → Cred
creds_of none conn = conn.cred
creds_of (some c) conn = c

or_map : {A B C D : Type 0} → (A → C) → (B → D) → A ⊎ B → C ⊎ D
or_map f g (inl a) = inl (f a)
or_map f g (inr b) = inr (g b)

module _ (h : NameHash) where
  -- A query for the name under its hash, and the comparison of its result.
  unfoldable pub has_right : ℕ → Cred → Db → Name → Bool
  has_right access cred db name = at_most access (query cred h db name (strhash h name))

  -- `kdbus_conn_policy_query_all`
  unfoldable pub query_all : Cred → Db → List Name → ℕ → Bool
  query_all cred db [] access = false
  query_all cred db (n ∷ names) access =
      if has_right access cred db n then true else query_all cred db names access

  -- `kdbus_conn_policy_own_name`
  unfoldable pub own_name : Checked → Option Cred → Name → Bool
  own_name conn conn_creds name =
      let cred = creds_of conn_creds conn in
      if conn.ep_user && not (has_right policy_own cred conn.ep_policy_db name)
      then false
      else (if conn.privileged then true else has_right policy_own cred conn.bus_policy_db name)

  -- `kdbus_conn_policy_talk`
  unfoldable pub talk : Checked → Option Cred → Peer → Bool
  talk conn conn_creds to =
      let cred = creds_of conn_creds conn in
      if conn.ep_user && not (query_all cred conn.ep_policy_db to.names_list policy_talk)
      then false
      else (if conn.privileged
          then true
          else (if cred.euid == to.uid
              then true
              else query_all cred conn.bus_policy_db to.names_list policy_talk))

  -- `kdbus_conn_policy_see_name_unlocked`
  unfoldable pub see_name_unlocked : Checked → Option Cred → Name → Bool
  see_name_unlocked conn conn_creds name =
      if not conn.ep_user
      then true
      else has_right policy_see (creds_of conn_creds conn) conn.ep_policy_db name

  -- Some rule for the name that applies to the credentials grants the right.
  abbrev pub IsGranted : ℕ → Cred → Db → Name → Type 0
  IsGranted access cred db name =
      (e : Entry) × (lookup h db name (strhash h name) ≡ some e)
      × ((x : Access) × Has x e.access_list × (applies cred x ≡ true) × (access ≤ x.access))

  no_entry :
      (cred : Cred) (db : Db) (name : Name)
      → lookup h db name (strhash h name) ≡ none
      → query cred h db name (strhash h name) ≡ none
  unfolding query
  no_entry cred db name miss = ground (arith, miss)

  at_most_trans : {a b : ℕ} (r : Option ℕ) → a ≤ b → at_most b r ≡ true → at_most a r ≡ true
  at_most_trans none le top = top
  at_most_trans (some c) le top = ground (arith, le, top)

  right_of_granted :
      (access : ℕ) (cred : Cred) (db : Db) (name : Name)
      → RulesInRange db
      → IsGranted access cred db name
      → has_right access cred db name ≡ true
  unfolding has_right
  right_of_granted access cred db name range (e, found, (x, m, fits, le)) =
      at_most_trans {a = access} {b = x.access} (query cred h db name (strhash h name)) le
        ((query_lem h cred db name (strhash h name) e range found).1 x m fits)

  IsGranted-of_right :
      (access : ℕ) (cred : Cred) (db : Db) (name : Name)
      → RulesInRange db
      → has_right access cred db name ≡ true
      → IsGranted access cred db name
  unfolding has_right
  IsGranted-of_right access cred db name range top =
      elim (Option-cases (query cred h db name (strhash h name))) [
        | inl nothing ↦ absurd (ground (arith, nothing, top))
        | inr (a, answer) ↦ elim (Option-cases (lookup h db name (strhash h name))) [
          | inl miss ↦ absurd (ground (arith, answer, no_entry cred db name miss))
          | inr (e, found) ↦
              let (x, m, fits, same) =
                (query_lem h cred db name (strhash h name) e range found).0 a answer in
              (e, found, (x, m, fits, ground (arith, same, answer, top)))
        ]
      ]

  -- Some name of the list is granted.
  abbrev pub SomeGranted : ℕ → Cred → Db → List Name → Type 0
  SomeGranted access cred db names = (n : Name) × Has n names × IsGranted access cred db n

  some_of_query :
      (cred : Cred) (db : Db) (names : List Name) (access : ℕ)
      → RulesInRange db
      → query_all cred db names access ≡ true
      → SomeGranted access cred db names
  unfolding query_all
  some_of_query cred db [] access range top = absurd (ground (arith, top))
  some_of_query cred db (n ∷ names) access range top =
      elim (Bool-cases (has_right access cred db n)) [
        | inl here ↦ (n, inl refl, IsGranted-of_right access cred db n range here)
        | inr miss ↦
            let (k, m, g) = some_of_query cred db names access range (ground (arith, top, miss)) in
            (k, inr m, g)
      ]

  query_of_granted :
      (cred : Cred) (db : Db) (names : List Name) (access : ℕ) (n : Name)
      → RulesInRange db
      → Has n names
      → IsGranted access cred db n
      → query_all cred db names access ≡ true
  unfolding query_all
  query_of_granted cred db [] access n range m g = absurd m
  query_of_granted cred db (k ∷ names) access n range (inl e) g = ground (
    arith,
    subst (λ y. has_right access cred db y ≡ true) e (right_of_granted access cred db n range g),
  )
  query_of_granted cred db (k ∷ names) access n range (inr m) g =
      ground (arith, query_of_granted cred db names access n range m g)

  query_of_some :
      (cred : Cred) (db : Db) (names : List Name) (access : ℕ)
      → RulesInRange db
      → SomeGranted access cred db names
      → query_all cred db names access ≡ true
  query_of_some cred db names access range (n, m, g) =
      query_of_granted cred db names access n range m g

  module _ (conn : Checked) (conn_creds : Option Cred) (ep_range : RulesInRange conn.ep_policy_db)
      (bus_range : RulesInRange conn.bus_policy_db) where
    -- `kdbus_conn_policy_own_name` lets a connection own a name if and only if its endpoint is not a
    -- custom one or has a rule for the name that grants OWN to its credentials, and it is privileged
    -- or the bus has such a rule. All rules of the two databases are for SEE, TALK or OWN.
    pub own_name_lem :
        (name : Name)
        → (own_name conn conn_creds name ≡ true) ↔ (
            ((conn.ep_user ≡ false)
              ⊎ IsGranted policy_own (creds_of conn_creds conn) conn.ep_policy_db name)
            × ((conn.privileged ≡ true)
                ⊎ IsGranted policy_own (creds_of conn_creds conn) conn.bus_policy_db name))
    unfolding own_name
    own_name_lem name =
        let cred = creds_of conn_creds conn in
        let ep_to = IsGranted-of_right policy_own cred conn.ep_policy_db name ep_range in
        let ep_from = right_of_granted policy_own cred conn.ep_policy_db name ep_range in
        let bus_to = IsGranted-of_right policy_own cred conn.bus_policy_db name bus_range in
        let bus_from = right_of_granted policy_own cred conn.bus_policy_db name bus_range in
        (
          λ top. (
            or_map (λ e. e) ep_to (ground (arith, top)),
            or_map (λ e. e) bus_to (ground (arith, top)),
          ),
          λ m.
              let ep = or_map (λ e. e) ep_from m.0 in
              let bus = or_map (λ e. e) bus_from m.1 in ground (arith, ep, bus),
        )

    -- `kdbus_conn_policy_talk` lets a connection talk to a peer if and only if its endpoint is not a
    -- custom one or has a rule for a name of the peer that grants TALK, and it is privileged, or runs
    -- as the peer's user, or the bus has such a rule. OWN grants TALK. All rules of the two
    -- databases are for SEE, TALK or OWN.
    pub talk_lem :
        (to : Peer)
        → (talk conn conn_creds to ≡ true) ↔ (
            ((conn.ep_user ≡ false)
              ⊎ SomeGranted policy_talk (creds_of conn_creds conn) conn.ep_policy_db to.names_list)
            × ((conn.privileged ≡ true)
                ⊎ ((creds_of conn_creds conn).euid ≡ to.uid)
                ⊎ SomeGranted policy_talk
                    (creds_of conn_creds conn)
                    conn.bus_policy_db
                    to.names_list))
    unfolding talk
    talk_lem to =
        let cred = creds_of conn_creds conn in
        let names = to.names_list in
        let ep_to = some_of_query cred conn.ep_policy_db names policy_talk ep_range in
        let bus_to = some_of_query cred conn.bus_policy_db names policy_talk bus_range in
        let ep_from = query_of_some cred conn.ep_policy_db names policy_talk ep_range in
        let bus_from = query_of_some cred conn.bus_policy_db names policy_talk bus_range in
        (
          λ top. (
            or_map (λ e. e) ep_to (ground (arith, top)),
            or_map (λ e. e) (or_map (λ e. e) bus_to) (ground (arith, top)),
          ),
          λ m.
              let ep = or_map (λ e. e) ep_from m.0 in
              let bus = or_map (λ e. e) (or_map (λ e. e) bus_from) m.1 in ground (arith, ep, bus),
        )
