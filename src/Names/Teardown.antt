-- ===== src/Names/Teardown.antt =====
-- names.c: `kdbus_name_release_all`, and that its two loops end.
use kdbus.Base.{
  ℕ, zero, suc, ◌≤◌, ◌≡◌, ◌≢◌, refl, sym, ap, false, List, [], ◌∷◌, none, some, arith, str_eq_refl,
  ◌==◌, if◌then◌else◌, Option-cases, List-cases, inl, inr, subst, length, remove_first,
}
use kdbus.Names.Syntax.{Name}
use kdbus.Names.State.{
  State, Entry, entry_of, emit, entry_free, remove_owner, replace_owner, pending_free, flushed,
  activator_flag, is_activator, update_entry, set_owner,
}
use kdbus.Names.Registry.{release_unlocked}
use kdbus.Names.Counts.{count_conn, count_name}
use kdbus.Names.Links.{IsLinked, pending_free-IsLinked}
use kdbus.Names.Lookup.{name_of_find, find-modify_first}
use kdbus.Names.Replace.{emit-IsLinked}
use kdbus.Names.Release.{release_unlocked_cases, release_unlocked-IsLinked}

-- The activator that `conn` is for some name leaves that name's entry. An activator has a name by
-- the end of its HELLO; without one the code follows a null pointer.
pub drop_activator : ℕ → State → State
drop_activator c st =
    if is_activator (st.conns c)
    then elim (st.conns c).activator_of [
      | none ↦ st
      | some n ↦ update_entry n (λ e. record e { activator = none }) st
    ]
    else st

-- `while ((p = list_first_entry_or_null(&conn->names_queue_list, ...)))`
pub free_requests : ℕ → ℕ → State → State
free_requests zero c st = st
free_requests (suc fuel) c st = elim (st.conns c).names_queue_list [
  | [] ↦ st
  | n ∷ rest ↦ free_requests fuel c (pending_free n c st)
]

-- `while ((e = list_first_entry_or_null(&conn->names_list, ...)))`. The list links entries, so
-- each of its names has one.
pub release_names : ℕ → ℕ → State → State
release_names zero c st = st
release_names (suc fuel) c st = elim (st.conns c).names_list [
  | [] ↦ st
  | n ∷ rest ↦ elim (entry_of n st) [
    | none ↦ st
    | some e ↦ release_names fuel c (release_unlocked e st)
  ]
]

-- `kdbus_name_release_all`. Each loop has as much fuel as its list has entries.
unfoldable pub release_all : ℕ → State → State
release_all c st =
    let dropped = drop_activator c st in
    let freed = free_requests (length (dropped.conns c).names_queue_list) c dropped in
    emit flushed (release_names (length (freed.conns c).names_list) c freed)

pending_free-queue :
    (n : Name) (c : ℕ) (st : State) (rest : List Name)
    → (st.conns c).names_queue_list ≡ n ∷ rest
    → ((pending_free n c st).conns c).names_queue_list ≡ rest
unfolding pending_free remove_first
pending_free-queue n c st rest q = ground (arith, q, str_eq_refl n)

free_requests-nil :
    (fuel c : ℕ) (st : State)
    → length (st.conns c).names_queue_list ≤ fuel
    → ((free_requests fuel c st).conns c).names_queue_list ≡ []
unfolding free_requests
free_requests-nil zero c st le = ground arith
free_requests-nil (suc fuel) c st le = elim (List-cases (st.conns c).names_queue_list) [
  | inl q ↦ ground (arith, q)
  | inr (n, rest, q) ↦
      ground
        (arith, q, free_requests-nil fuel c (pending_free n c st), pending_free-queue n c st rest q)
]

free_requests-IsLinked :
    (fuel c : ℕ) (st : State) → IsLinked st → IsLinked (free_requests fuel c st)
unfolding free_requests
free_requests-IsLinked zero c st l = l
free_requests-IsLinked (suc fuel) c st l = elim (List-cases (st.conns c).names_queue_list) [
  | inl q ↦ rw (q, free_requests) l
  | inr (n, rest, q) ↦
      rw (q, free_requests)
        (free_requests-IsLinked fuel c (pending_free n c st) (pending_free-IsLinked n c 0 st l))
]

-- What the connection `c` owns and waits for in a state.
abbrev Holds : ℕ → List Name → List Name → State → Type 0
Holds c owns waits st = ((st.conns c).names_list ≡ owns) × ((st.conns c).names_queue_list ≡ waits)

module _ (c : ℕ) (n : Name) (rest : List Name) where
  replace_owner-Holds :
      (e : Entry) (d flags : ℕ) (st : State)
      → e.name ≡ n
      → e.conn ≡ some c
      → d == c ≡ false
      → Holds c (n ∷ rest) [] st
      → Holds c rest [] (replace_owner e d flags st)
  unfolding replace_owner remove_owner set_owner remove_first
  replace_owner-Holds e d flags st named owned other h = ground (arith, str_eq_refl n)

  pending_free-Holds :
      (m : Name) (d : ℕ) (st : State)
      → d == c ≡ false
      → Holds c rest [] st
      → Holds c rest [] (pending_free m d st)
  unfolding pending_free
  pending_free-Holds m d st other h = ground arith

  entry_free-Holds :
      (e : Entry) (st : State)
      → e.name ≡ n
      → Holds c (n ∷ rest) [] st
      → Holds c rest [] (entry_free e.name (remove_owner e.name c st))
  unfolding entry_free remove_owner remove_first
  entry_free-Holds e st named h = ground (arith, str_eq_refl n)

  -- Where `c` waits for nothing, releasing its first name takes that name off its list.
  release_unlocked-Holds :
      (e : Entry) (st : State)
      → IsLinked st
      → entry_of e.name st ≡ some e
      → e.name ≡ n
      → e.conn ≡ some c
      → Holds c (n ∷ rest) [] st
      → Holds c rest [] (release_unlocked e st)
  unfolding count_conn count_name
  release_unlocked-Holds e st l found named owned h =
      release_unlocked_cases (Holds c rest []) e c st owned
        (λ p more q.
          let other : p.conn == c ≡ false = ground (arith, l.waiting c e.name, found, q, h) in
          pending_free-Holds e.name p.conn _ other
            (replace_owner-Holds e p.conn p.flags st named owned other h))
        (λ q. entry_free-Holds e _ named h)
        (λ a q active other. replace_owner-Holds e a activator_flag _ named owned other h)

-- A name in the list of `c` has an entry, and `c` owns it.
module _ (c : ℕ) (n : Name) (rest : List Name) (st : State) (l : IsLinked st) where
  listed-found : (st.conns c).names_list ≡ n ∷ rest → entry_of n st ≢ none
  unfolding count_name
  listed-found q missing = ground (arith, l.owned c n, q, missing, str_eq_refl n)

  listed-owned :
      (e : Entry) → (st.conns c).names_list ≡ n ∷ rest → entry_of n st ≡ some e → e.conn ≡ some c
  unfolding count_name
  listed-owned e q found = elim (Option-cases e.conn) [
    | inl ownerless ↦ absurd (ground (arith, l.owned c n, q, found, ownerless, str_eq_refl n))
    | inr (o, owned) ↦ ground (arith, l.owned c n, q, found, owned, str_eq_refl n)
  ]

release_names-Holds :
    (fuel c : ℕ) (st : State)
    → IsLinked st
    → (st.conns c).names_queue_list ≡ []
    → length (st.conns c).names_list ≤ fuel
    → IsLinked (release_names fuel c st)
      × (((release_names fuel c st).conns c).names_list ≡ [])
      × (((release_names fuel c st).conns c).names_queue_list ≡ [])
unfolding release_names
release_names-Holds zero c st l nothing le = (l, ground arith, nothing)
release_names-Holds (suc fuel) c st l nothing le = elim (List-cases (st.conns c).names_list) [
  | inl q ↦ rw (q, release_names) (l, q, nothing)
  | inr (n, rest, q) ↦ elim (Option-cases (entry_of n st)) [
    | inl missing ↦ absurd (listed-found c n rest st l q missing)
    | inr (e, found) ↦
        let named : e.name ≡ n = name_of_find n st.entries {e = e} found in
        let owned : e.conn ≡ some c = listed-owned c n rest st l e q found in
        let at_name : entry_of e.name st ≡ some e =
          subst (λ m. entry_of m st ≡ some e) (sym named) found in
        let held : Holds c rest [] (release_unlocked e st) =
          release_unlocked-Holds c n rest e st l at_name named owned (q, nothing) in
        rw (q, found, release_names)
          (release_names-Holds fuel c (release_unlocked e st)
            (release_unlocked-IsLinked e c st at_name owned l) held.1
            (omega (arith, ap length held.0, ap length q)))
  ]
]

clear_activator-IsLinked :
    (n : Name) (st : State)
    → IsLinked st
    → IsLinked (update_entry n (λ e. record e { activator = none }) st)
clear_activator-IsLinked n st l = record {
  owned = λ d m. ground (
    arith,
    l.owned d m,
    find-modify_first n (λ (e : Entry). record e { activator = none }) (λ _. refl) m st.entries,
  );
  waiting = λ d m. ground (
    arith,
    l.waiting d m,
    find-modify_first n (λ (e : Entry). record e { activator = none }) (λ _. refl) m st.entries,
  );
  counted = l.counted;
}

drop_activator-IsLinked : (c : ℕ) (st : State) → IsLinked st → IsLinked (drop_activator c st)
unfolding drop_activator
drop_activator-IsLinked c st l = by_cases IsLinked l (λ n. clear_activator-IsLinked n st l)
  where
    by_cases :
        (P : State → Type 0)
        → P st
        → ((n : Name) → P (update_entry n (λ e. record e { activator = none }) st))
        → P (drop_activator c st)
    by_cases P same cleared = elim (Option-cases (st.conns c).activator_of) [
      | inl nothing ↦ ground (arith, nothing, same)
      | inr (n, of) ↦ ground (arith, of, same, cleared n)
    ]

-- `kdbus_name_release_all` leaves the connection without names and without requests for names, and
-- keeps the links between entries and connections, given that they hold before: both of its loops
-- end before their fuel does.
pub release_all_lem :
    (c : ℕ) (st : State)
    → IsLinked st
    → let after = release_all c st in
      IsLinked after
      × ((after.conns c).names_list ≡ [])
      × ((after.conns c).names_queue_list ≡ [])
      × ((after.conns c).name_count ≡ 0)
unfolding release_all
release_all_lem c st l =
    let dropped = drop_activator c st in
    let requests = length (dropped.conns c).names_queue_list in
    let freed = free_requests requests c dropped in
    let names = length (freed.conns c).names_list in
    let done =
      release_names-Holds names c freed
        (free_requests-IsLinked requests c dropped (drop_activator-IsLinked c st l))
        (free_requests-nil requests c dropped (omega arith)) (omega arith) in
    (
      emit-IsLinked flushed _ done.0,
      done.1,
      done.2,
      omega (arith, done.0.counted c, ap length done.1),
    )
