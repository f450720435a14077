-- ===== src/Names/Others.antt =====
-- `kdbus_name_acquire`: its branches leave all other names alone.
use kdbus.Base.{
  ℕ, ◌≡◌, refl, Bool, false, [], ◌∷◌, ◌++◌, Option, none, some, arith, find, str_eq, Option-cases,
  inl, inr, ◌∙◌,
}
use kdbus.Names.Syntax.{Name}
use kdbus.Names.State.{
  State, Entry, entry_of, emit, update_conn, update_entry, set_owner, replace_owner, entry_new,
  pending_new, moved, notified, name_change, remove_owner,
}
use kdbus.Names.Registry.{claim_new, claim_existing, take_messages}
use kdbus.Names.Lookup.{find-modify_first}
use kdbus.Names.Acquire.{
  claim_new_cases, claim_existing_cases, claim_activator_cases, claim_replace_cases,
}

module _ (n m : Name) (st : State) (other : str_eq n m ≡ false) where
  set_owner-others : (c flags : ℕ) → entry_of m (set_owner n c flags st) ≡ entry_of m st
  unfolding set_owner
  set_owner-others c flags = ground (
    arith,
    find-modify_first n (λ (x : Entry). record x { conn = some c; flags = flags }) (λ _. refl) m
        st.entries,
  )

  remove_owner-others : (o : ℕ) → entry_of m (remove_owner n o st) ≡ entry_of m st
  unfolding remove_owner
  remove_owner-others o = ground (
    arith,
    find-modify_first n (λ (x : Entry). record x { flags = 0; conn = none }) (λ _. refl) m
        st.entries,
  )

  set_activator-others :
      (a : Option ℕ) (c : ℕ) (of : Option Name)
      → entry_of m (
          update_entry n
            (λ e. record e { activator = a })
            (update_conn c (λ d. record d { activator_of = of }) st))
        ≡ entry_of m st
  set_activator-others a c of = ground (
    arith,
    find-modify_first n (λ (x : Entry). record x { activator = a }) (λ _. refl) m st.entries,
  )

  pending_new-others : (c flags : ℕ) → entry_of m (pending_new n c flags st) ≡ entry_of m st
  unfolding pending_new
  pending_new-others c flags = ground (
    arith,
    find-modify_first n
        (λ (x : Entry). record x { queue = x.queue ++ record { conn = c; flags = flags } ∷ [] })
        (λ _. refl) m st.entries,
  )

  entry_new-others : entry_of m (entry_new n st) ≡ entry_of m st
  unfolding entry_new find
  entry_new-others = ground arith

replace_owner-others :
    (e : Entry) (c flags : ℕ) (m : Name) (st : State)
    → str_eq e.name m ≡ false
    → entry_of m (replace_owner e c flags st) ≡ entry_of m st
unfolding replace_owner
replace_owner-others e c flags m st other = elim (Option-cases e.conn) [
  | inl none_there ↦ rw (none_there, replace_owner)
  | inr (o, there) ↦
      let told : State = emit (notified name_change o c e.flags flags e.name) st in
      ground (
        arith,
        there,
        set_owner-others e.name m (remove_owner e.name o told) other c flags,
        remove_owner-others e.name m told other o,
      )
]

module _ (c : ℕ) (n m : Name) (flags : ℕ) (mem : Bool) (st : State)
    (other : str_eq n m ≡ false) where
  pub claim_new-others : entry_of m (claim_new c n flags mem st).0 ≡ entry_of m st
  claim_new-others =
      claim_new_cases (λ s. entry_of m s ≡ entry_of m st) c flags mem st refl n
        (set_owner-others n m fresh other c flags ∙ entry_new-others n m st other)
        (set_owner-others n m active other c flags
          ∙ set_activator-others n m fresh other (some c) c (some n)
          ∙ entry_new-others n m st other)
    where
      fresh : State
      fresh = entry_new n st

      active : State
      active =
          update_entry n (λ e. record e { activator = some c })
            (update_conn c (λ d. record d { activator_of = some n }) fresh)

  pub claim_existing-others :
      (e : Entry) → e.name ≡ n → entry_of m (claim_existing c e flags mem st).0 ≡ entry_of m st
  claim_existing-others e named =
      claim_existing_cases Same c flags mem st refl e
        (claim_activator_cases Same c flags mem st refl e
          (set_activator-others e.name m st apart (some c) c (some e.name)))
        (taken e.activator)
        (claim_replace_cases Same c flags mem st refl e
          (λ o _.
            replace_owner-others e c flags m (pending_new e.name o e.flags st) apart
            ∙ pending_new-others e.name m st apart o e.flags)
          (replace_owner-others e c flags m st apart))
        (pending_new-others e.name m st apart c flags)
    where
      Same : State → Type 0
      Same s = entry_of m s ≡ entry_of m st

      apart : str_eq e.name m ≡ false
      apart = rw named other

      taken : (a : Option ℕ) → Same (replace_owner e c flags (take_messages c a 0 st))
      taken none = replace_owner-others e c flags m st apart
      taken (some a) = replace_owner-others e c flags m (emit (moved c a 0) st) apart
