-- ===== src/Names/Release.antt =====
-- `kdbus_name_release`: who owns the name afterwards, and what stays linked.
use mathlib.Core.Option
use kdbus.Base.{
  ℕ, ◌≡◌, refl, sym, ap, false, List, [], ◌∷◌, Option, none, some, arith, str_eq_refl, ◌==◌,
  if◌then◌else◌, Bool-cases, Option-cases, inl, inr, subst, ◌∙◌, Result, ok, err, remove_first,
  eaddrinuse, esrch,
}
use kdbus.Strhash.{NameHash}
use kdbus.Names.Syntax.{Name}
use kdbus.Names.State.{
  State, Entry, Pending, entry_of, emit, entry_free, remove_owner, replace_owner, pending_free,
  moved, flushed, notified, name_remove, activator_flag,
}
use kdbus.Names.Registry.{release_unlocked, release_existing, release}
use kdbus.Names.Lookup.{find-modify_first, find-remove_all, name_of_find, name_find-eq-entry_of}
use kdbus.Names.Links.{IsLinked, remove_owner-IsLinked, pending_free-IsLinked, entry_free-IsLinked}
use kdbus.Names.Replace.{
  emit-IsLinked, replace_owner-IsLinked, replace_owner-entry_of, remove_owner-entry_of,
}

-- The entry of a name after its owner `o` has released it: it goes to the first that waits, else
-- back to an activator that is not the owner, and else it is gone.
unfoldable pub handed_on : Entry → ℕ → Option Entry
handed_on e o = elim e.queue [
  | p ∷ rest ↦
      if p.conn == o
      then some (record e { queue = rest })
      else some (record e { conn = some p.conn; flags = p.flags; queue = rest })
  | [] ↦ elim e.activator [
    | none ↦ none
    | some a ↦ if a == o then none else some (record e { conn = some a; flags = activator_flag })
  ]
]

pending_free-entry_of :
    (n : Name) (c : ℕ) (st : State)
    → entry_of n (pending_free n c st)
      ≡ Option.map {A = Entry}
          (λ e. record e { queue = remove_first (λ p. p.conn == c) e.queue })
          (entry_of n st)
unfolding pending_free
pending_free-entry_of n c st = ground (
  arith,
  find-modify_first n (λ (e : Entry). record e { queue = remove_first (λ p. p.conn == c) e.queue })
      (λ _. refl) n st.entries,
  str_eq_refl n,
)

entry_free-entry_of : (n : Name) (st : State) → entry_of n (entry_free n st) ≡ none
unfolding entry_free
entry_free-entry_of n st = ground (arith, find-remove_all n n st.entries, str_eq_refl n)

replace_owner_self :
    (e : Entry) (o flags : ℕ) (st : State) → e.conn ≡ some o → replace_owner e o flags st ≡ st
unfolding replace_owner
replace_owner_self e o flags st owned = ground arith

-- The branches of `kdbus_name_release_unlocked`, for a property of its new state.
pub release_unlocked_cases {ℓ} :
    (P : State → Type ℓ) (e : Entry) (o : ℕ) (st : State)
    → e.conn ≡ some o
    → ((p : Pending) (rest : List Pending)
        → e.queue ≡ p ∷ rest
        → P (pending_free e.name p.conn (replace_owner e p.conn p.flags st)))
    → (e.queue ≡ []
        → P (
            entry_free e.name
              (remove_owner e.name o (emit (notified name_remove o 0 e.flags 0 e.name) st))))
    → ((a : ℕ)
        → e.queue ≡ []
        → e.activator ≡ some a
        → a == o ≡ false
        → P (replace_owner e a activator_flag (emit (moved a o e.name_id) st)))
    → P (release_unlocked e st)
unfolding release_unlocked
release_unlocked_cases P e o st owned waiter gone back = by_queue e.queue refl
  where
    by_activator : (a : Option ℕ) → e.queue ≡ [] → e.activator ≡ a → P (release_unlocked e st)
    by_activator none q active = ground (arith, owned, q, active, gone q)
    by_activator (some a) q active = ground (arith, owned, q, active, gone q, back a q active)

    by_queue : (q : List Pending) → e.queue ≡ q → P (release_unlocked e st)
    by_queue [] q = by_activator e.activator q refl
    by_queue (p ∷ rest) q = ground (arith, q, waiter p rest q)

module _ (e : Entry) (o : ℕ) (st : State) (h : entry_of e.name st ≡ some e)
    (owned : e.conn ≡ some o) where
  serves_waiter :
      (p : Pending) (rest : List Pending)
      → e.queue ≡ p ∷ rest
      → entry_of e.name (release_unlocked e st) ≡ handed_on e o
  unfolding release_unlocked handed_on remove_first
  serves_waiter p rest q = elim (Bool-cases (p.conn == o)) [
    | inl self ↦ ground (
      arith,
      q,
      self,
      h,
      replace_owner_self e o p.flags st owned,
      pending_free-entry_of e.name p.conn (replace_owner e p.conn p.flags st),
    )
    | inr other ↦ ground (
      arith,
      q,
      other,
      replace_owner-entry_of e p.conn p.flags st e h refl o e.name owned,
      pending_free-entry_of e.name p.conn (replace_owner e p.conn p.flags st),
      str_eq_refl e.name,
    )
  ]

  nobody_waits : e.queue ≡ [] → entry_of e.name (release_unlocked e st) ≡ handed_on e o
  unfolding release_unlocked handed_on
  nobody_waits q = elim (Option-cases e.activator) [
    | inl gone ↦ ground (
      arith,
      q,
      owned,
      gone,
      entry_free-entry_of e.name
          (remove_owner e.name o (emit (notified name_remove o 0 e.flags 0 e.name) st)),
    )
    | inr (a, active) ↦ ground (
      arith,
      q,
      owned,
      active,
      entry_free-entry_of e.name
          (remove_owner e.name o (emit (notified name_remove o 0 e.flags 0 e.name) st)),
      replace_owner-entry_of e a activator_flag (emit (moved a o e.name_id) st) e h refl o e.name
          owned,
      str_eq_refl e.name,
    )
  ]

  release_unlocked-entry_of : entry_of e.name (release_unlocked e st) ≡ handed_on e o
  release_unlocked-entry_of = by_queue e.queue refl
    where
      by_queue :
          (q : List Pending) → e.queue ≡ q → entry_of e.name (release_unlocked e st) ≡ handed_on e o
      by_queue [] q = nobody_waits q
      by_queue (p ∷ rest) q = serves_waiter p rest q

  gone-IsLinked :
      IsLinked st
      → e.queue ≡ []
      → IsLinked (
          entry_free e.name
            (remove_owner e.name o (emit (notified name_remove o 0 e.flags 0 e.name) st)))
  gone-IsLinked l q =
      let told : State = emit (notified name_remove o 0 e.flags 0 e.name) st in
      entry_free-IsLinked e.name o 0 (remove_owner e.name o told)
        (remove_owner-IsLinked e.name o 0 told (emit-IsLinked _ st l) {e = e} h owned)
        {e = record e { flags = 0; conn = none }} (remove_owner-entry_of e.name o told e h) refl q

  pub release_unlocked-IsLinked : IsLinked st → IsLinked (release_unlocked e st)
  release_unlocked-IsLinked l =
      release_unlocked_cases IsLinked e o st owned
        (λ p rest q.
          pending_free-IsLinked e.name p.conn 0 _
            (replace_owner-IsLinked e p.conn p.flags st e h refl l))
        (λ q. gone-IsLinked l q)
        (λ a q active _.
          replace_owner-IsLinked e a activator_flag _ e h refl
            (emit-IsLinked (moved a o e.name_id) st l))

-- The branches of `kdbus_name_release`, for a property of its new state and result.
pub release_cases {ℓ} :
    (P : State × Result (Unit {0}) → Type ℓ) (h : NameHash) (c : ℕ) (n : Name) (st : State)
    → (entry_of n st ≡ none → P (emit flushed st, err esrch))
    → ((e : Entry)
        → entry_of e.name st ≡ some e
        → e.name ≡ n
        → P (emit flushed (release_existing c e st).0, (release_existing c e st).1))
    → P (release h c n st)
unfolding release
release_cases P h c n st missing existing = elim (Option-cases (entry_of n st)) [
  | inl free ↦ rw (name_find-eq-entry_of h n st, free) (missing free)
  | inr (e, held) ↦
      let named = name_of_find n st.entries {e = e} held in
      rw (name_find-eq-entry_of h n st, held)
        (existing e (subst (λ m. entry_of m st ≡ some e) (sym named) held) named)
]

-- The branches of `kdbus_name_release` on an entry that it finds.
release_existing_cases {ℓ} :
    (P : State × Result (Unit {0}) → Type ℓ) (c : ℕ) (e : Entry) (st : State)
    → (e.conn ≡ some c → P (release_unlocked e st, ok tt))
    → P (st, err eaddrinuse)
    → P (pending_free e.name c st, ok tt)
    → P (release_existing c e st)
unfolding release_existing
release_existing_cases P c e st owns refused withdrawn = elim (Option-cases e.conn) [
  | inl ownerless ↦ ground (arith, ownerless, refused, withdrawn)
  | inr (o, owned) ↦ elim (Bool-cases (c == o)) [
    | inl self ↦ ground (arith, owned, self, owns (ground arith))
    | inr other ↦ ground (arith, owned, other, refused, withdrawn)
  ]
]

release_existing-IsLinked :
    (c : ℕ) (e : Entry) (st : State)
    → entry_of e.name st ≡ some e
    → IsLinked st
    → IsLinked (release_existing c e st).0
release_existing-IsLinked c e st h l =
    release_existing_cases (λ r. IsLinked r.0) c e st
      (λ owned. release_unlocked-IsLinked e c st h owned l) l
      (pending_free-IsLinked e.name c 0 st l)

release_existing_owned :
    (c : ℕ) (e : Entry) (st : State)
    → e.conn ≡ some c
    → release_existing c e st ≡ (release_unlocked e st, ok tt)
unfolding release_existing
release_existing_owned c e st owned = ground arith

-- `kdbus_name_release`, whatever it returns, keeps the links between entries and connections: each
-- connection lists a name once if it owns it and not otherwise, lists it as requested as often as it
-- stands in its queue, and counts the names that it owns.
pub release-IsLinked :
    (h : NameHash) (c : ℕ) (n : Name) (st : State) → IsLinked st → IsLinked (release h c n st).0
release-IsLinked h c n st l =
    release_cases (λ r. IsLinked r.0) h c n st (λ _. emit-IsLinked flushed st l)
      (λ e held _. emit-IsLinked flushed _ (release_existing-IsLinked c e st held l))

-- Where the connection owns the name, `kdbus_name_release` returns 0 and hands the entry on to the
-- first that waits for it, else to its activator, and else removes it.
pub release_hands_on :
    (h : NameHash) (c : ℕ) (n : Name) (st : State) (e : Entry)
    → entry_of n st ≡ some e
    → e.conn ≡ some c
    → ((release h c n st).1 ≡ ok tt) × (entry_of n (release h c n st).0 ≡ handed_on e c)
release_hands_on h c n st e held owned =
    release_cases (λ r. (r.1 ≡ ok tt) × (entry_of n r.0 ≡ handed_on e c)) h c n st
      (λ free. absurd (ground (arith, free, held)))
      λ x found named.
        let found_n : entry_of n st ≡ some x = subst (λ m. entry_of m st ≡ some x) named found in
        let same : x ≡ e = cc in
        let owned' : x.conn ≡ some c = ap (λ y. y.conn) same ∙ owned in
        let handed : entry_of n (release_unlocked x st) ≡ handed_on x c =
          subst (λ m. entry_of m (release_unlocked x st) ≡ handed_on x c) named
            (release_unlocked-entry_of x c st found owned') in
        rw (release_existing_owned c x st owned') (refl, handed ∙ ap (λ y. handed_on y c) same)

-- If the first request in a name's queue was made by its owner, `kdbus_name_release` returns 0 to
-- the owner, drops the request and leaves the connection the owner of the name.
pub release_keeps_owner :
    (h : NameHash) (c : ℕ) (n : Name) (st : State) (e : Entry) (p : Pending) (rest : List Pending)
    → entry_of n st ≡ some e
    → e.conn ≡ some c
    → e.queue ≡ p ∷ rest
    → p.conn ≡ c
    → ((release h c n st).1 ≡ ok tt)
      × (entry_of n (release h c n st).0 ≡ some (record e { queue = rest }))
unfolding handed_on
release_keeps_owner h c n st e p rest held owned q self =
    ground (arith, release_hands_on h c n st e held owned, owned, q, self)
