-- ===== src/Names/Grants.antt =====
-- `kdbus_name_acquire`: what each result means for the name and for all other names.
use mathlib.Core.Option
use kdbus.Base.{
  ℕ, ◌≡◌, ◌≢◌, refl, sym, ap, Bool, true, false, [], ◌∷◌, ◌++◌, Option, none, some, arith, str_eq,
  str_eq_refl, ◌==◌, Option-cases, inl, inr, subst, Result, ok, err, Errno, has_flag,
}
use kdbus.Strhash.{NameHash}
use kdbus.Names.Syntax.{Name}
use kdbus.Names.State.{
  State, Entry, entry_of, emit, set_owner, replace_owner, is_activator, entry_new, pending_new,
  flushed, in_queue, queue_flag,
}
use kdbus.Names.Registry.{
  claim_new, claim_activator, claim_replace, claim_existing, take_messages, acquire,
}
use kdbus.Names.Lookup.{find-modify_first}
use kdbus.Names.Replace.{replace_owner-entry_of}
use kdbus.Names.Acquire.{acquire_cases, entry_new-entry_of, pending_new-entry_of}
use kdbus.Names.Others.{claim_new-others, claim_existing-others}

-- Every entry of the registry has an owner.
abbrev pub HasOwners : State → Type 0
HasOwners st = (n : Name) (e : Entry) → entry_of n st ≡ some e → e.conn ≢ none

-- The owner of an entry and the flags that it took the name with.
abbrev pub owner : Option Entry → Option (Option ℕ × ℕ)
owner = Option.map (λ e. (e.conn, e.flags))

module _ (c : ℕ) (flags : ℕ) (mem : Bool) (st : State) where
  claim_new_fails :
      (n : Name) (x : Errno)
      → (claim_new c n flags mem st).1 ≡ err x
      → (claim_new c n flags mem st).0 ≡ st
  unfolding claim_new
  claim_new_fails n x h = ground arith

  claim_existing_fails :
      (e : Entry) (x : Errno)
      → (claim_existing c e flags mem st).1 ≡ err x
      → (claim_existing c e flags mem st).0 ≡ st
  unfolding claim_existing claim_activator claim_replace
  claim_existing_fails e x h = ground arith

-- A call of `kdbus_name_acquire` that fails changes neither the registry nor a connection: it
-- only flushes the notifications.
pub acquire_fails :
    (h : NameHash) (c : ℕ) (n : Name) (flags : ℕ) (own mem : Bool) (st : State) (x : Errno)
    → (acquire h c n flags own mem st).1 ≡ err x
    → (acquire h c n flags own mem st).0 ≡ emit flushed st
acquire_fails h c n flags own mem st x =
    acquire_cases (λ r. r.1 ≡ err x → r.0 ≡ emit flushed st) h c n flags own mem st (λ _. refl)
      (λ _ e. ap (emit flushed) (claim_new_fails c flags mem st n x e))
      (λ e _ _ q. ap (emit flushed) (claim_existing_fails c flags mem st e x q))

-- `kdbus_name_acquire` leaves the entries of all other names as they are, whatever it returns.
pub acquire_others :
    (h : NameHash) (c : ℕ) (n m : Name) (flags : ℕ) (own mem : Bool) (st : State)
    → str_eq n m ≡ false
    → entry_of m (acquire h c n flags own mem st).0 ≡ entry_of m st
acquire_others h c n m flags own mem st other =
    acquire_cases (λ r. entry_of m r.0 ≡ entry_of m st) h c n flags own mem st refl
      (λ _. claim_new-others c n m flags mem st other)
      (λ e _ named. claim_existing-others c n m flags mem st other e named)

set_owner-owner :
    (n : Name) (c flags : ℕ) (st : State) (e : Entry)
    → entry_of n st ≡ some e
    → owner (entry_of n (set_owner n c flags st)) ≡ some (some c, flags)
unfolding set_owner
set_owner-owner n c flags st e h = ground (
  arith,
  find-modify_first n (λ (x : Entry). record x { conn = some c; flags = flags }) (λ _. refl) n
      st.entries,
  str_eq_refl n,
)

abbrev pub Granted : ℕ → State → Name → ℕ → State × Result ℕ → Type 0
Granted c st n flags r =
    is_activator (st.conns c) ≡ false → r.1 ≡ ok 0 → owner (entry_of n r.0) ≡ some (some c, flags)

-- The request of `c` stands last in the queue of `n`, and `n` last among those that `c` waits for.
abbrev pub IsQueued : ℕ → Name → ℕ → State → State → Type 0
IsQueued c n flags st after =
    (has_flag flags queue_flag ≡ true)
    × ((after.conns c).names_queue_list ≡ (st.conns c).names_queue_list ++ n ∷ [])
    × ((e : Entry) × (entry_of n st ≡ some e)
        × (entry_of n after
            ≡ some (record e { queue = e.queue ++ record { conn = c; flags = flags } ∷ [] })))

handed :
    (e : Entry) (o c flags : ℕ) (st : State) (x : Entry)
    → entry_of e.name st ≡ some x
    → x.conn ≡ e.conn
    → e.conn ≡ some o
    → c == o ≡ false
    → owner (entry_of e.name (replace_owner e c flags st)) ≡ some (some c, flags)
handed e o c flags st x h agree owned apart =
    rw (replace_owner-entry_of e c flags st x h agree o e.name owned (λ q. ground arith))
      (ground (arith, str_eq_refl e.name))

module _ (c : ℕ) (flags : ℕ) (mem : Bool) (st : State) where
  claim_new-Granted : (n : Name) → Granted c st n flags (claim_new c n flags mem st)
  unfolding claim_new
  claim_new-Granted n plain done =
      ground (arith, set_owner-owner n c flags (entry_new n st) _ (entry_new-entry_of n st))

  claim_existing-Granted :
      (e : Entry)
      → entry_of e.name st ≡ some e
      → e.conn ≢ none
      → Granted c st e.name flags (claim_existing c e flags mem st)
  unfolding claim_existing claim_activator claim_replace
  claim_existing-Granted e h there = elim (Option-cases e.conn) [
    | inl ownerless ↦ absurd (there ownerless)
    | inr (o, owned) ↦ λ plain done. ground (
      arith,
      owned,
      handed e o c flags (take_messages c e.activator 0 st) e (taken e.activator) refl owned,
      handed e o c flags st e h refl owned,
      handed e o c flags (pending_new e.name o e.flags st) _
          (pending_new-entry_of e.name o e.flags st e h) refl owned,
    )
  ]
    where
      taken : (a : Option ℕ) → entry_of e.name (take_messages c a 0 st) ≡ some e
      taken none = h
      taken (some a) = h

  pending_new-listed :
      (n : Name)
      → ((pending_new n c flags st).conns c).names_queue_list
        ≡ (st.conns c).names_queue_list ++ n ∷ []
  unfolding pending_new
  pending_new-listed n = ground arith

  pending_new-IsQueued :
      (e : Entry)
      → entry_of e.name st ≡ some e
      → has_flag flags queue_flag ≡ true
      → IsQueued c e.name flags st (pending_new e.name c flags st)
  pending_new-IsQueued e h asked =
      (asked, pending_new-listed e.name, (e, h, pending_new-entry_of e.name c flags st e h))

  claim_new_never_queues : (n : Name) → (claim_new c n flags mem st).1 ≢ ok in_queue
  unfolding claim_new
  claim_new_never_queues n queued = ground (arith, queued)

  claim_existing_queues :
      (e : Entry)
      → (claim_existing c e flags mem st).1 ≡ ok in_queue
      → (has_flag flags queue_flag ≡ true)
        × ((claim_existing c e flags mem st).0 ≡ pending_new e.name c flags st)
  unfolding claim_existing claim_activator claim_replace
  claim_existing_queues e queued = (ground (arith, queued), ground (arith, queued))

acquire-Granted :
    (h : NameHash) (c : ℕ) (n : Name) (flags : ℕ) (own mem : Bool) (st : State)
    → HasOwners st
    → Granted c st n flags (acquire h c n flags own mem st)
acquire-Granted h c n flags own mem st owners =
    acquire_cases (Granted c st n flags) h c n flags own mem st (λ _ e. cc)
      (λ _. claim_new-Granted c flags mem st n)
      (λ e held named.
        subst (λ k. Granted c st k flags (claim_existing c e flags mem st)) named
          (claim_existing-Granted c flags mem st e held (owners e.name e held)))

-- On a registry whose entries all have owners, where `kdbus_name_acquire` returns 0 to a connection
-- that is no activator, that connection owns the name afterwards, with the flags it asked for.
pub acquire_grants :
    (h : NameHash) (c : ℕ) (n : Name) (flags : ℕ) (own mem : Bool) (st : State)
    → HasOwners st
    → is_activator (st.conns c) ≡ false
    → (acquire h c n flags own mem st).1 ≡ ok 0
    → owner (entry_of n (acquire h c n flags own mem st).0) ≡ some (some c, flags)
acquire_grants h c n flags own mem st owners plain done =
    acquire-Granted h c n flags own mem st owners plain done

-- `kdbus_name_acquire` returns KDBUS_NAME_IN_QUEUE only to a connection that asked to wait, and for a
-- name that has an entry: afterwards the request of the connection, with its flags, stands at the
-- end of the queue of that entry, which is as before otherwise, its owner and flags included, and
-- the name at the end of the list of those that the connection waits for.
pub acquire_queues :
    (h : NameHash) (c : ℕ) (n : Name) (flags : ℕ) (own mem : Bool) (st : State)
    → (acquire h c n flags own mem st).1 ≡ ok in_queue
    → IsQueued c n flags st (acquire h c n flags own mem st).0
acquire_queues h c n flags own mem st =
    acquire_cases (λ r. r.1 ≡ ok in_queue → IsQueued c n flags st r.0) h c n flags own mem st
      (λ e. cc) (λ _ queued. absurd (claim_new_never_queues c flags mem st n queued))
      (λ e held named queued.
        let (asked, after) = claim_existing_queues c flags mem st e queued in
        subst (λ k. IsQueued c k flags st (emit flushed (claim_existing c e flags mem st).0)) named
          (subst (λ s. IsQueued c e.name flags st (emit flushed s)) (sym after)
            (pending_new-IsQueued c flags mem st e held asked)))
