-- ===== src/Names/Replace.antt =====
-- `kdbus_name_entry_replace_owner` and the activator's links: what they find and keep.
use kdbus.Base.{
  ℕ, ◌≡◌, ◌≢◌, refl, Option, none, some, arith, str_eq, eq_of_str_eq, str_eq_refl, ◌==◌, ==_iff,
  if◌then◌else◌, Bool-cases, Option-cases, inl, inr, ◌∙◌,
}
use kdbus.Names.Syntax.{Name}
use kdbus.Names.State.{
  State, Entry, Event, entry_of, emit, update_conn, update_entry, set_owner, remove_owner,
  replace_owner, name_change, notified,
}
use kdbus.Names.Lookup.{find-modify_first}
use kdbus.Names.Links.{IsLinked, remove_owner-IsLinked, set_owner-IsLinked}

-- A call into another component changes no link.
pub emit-IsLinked : (ev : Event) (st : State) → IsLinked st → IsLinked (emit ev st)
emit-IsLinked ev st l = record { owned = l.owned; waiting = l.waiting; counted = l.counted }

pub set_activator-IsLinked :
    (n : Name) (a : Option ℕ) (c : ℕ) (of : Option Name) (st : State)
    → IsLinked st
    → IsLinked (
        update_entry n
          (λ e. record e { activator = a })
          (update_conn c (λ d. record d { activator_of = of }) st))
set_activator-IsLinked n a c of st l = record {
  owned = λ d m. ground (
    arith,
    l.owned d m,
    find-modify_first n (λ (e : Entry). record e { activator = a }) (λ _. refl) m st.entries,
  );
  waiting = λ d m. ground (
    arith,
    l.waiting d m,
    find-modify_first n (λ (e : Entry). record e { activator = a }) (λ _. refl) m st.entries,
  );
  counted = λ d. ground (arith, l.counted d);
}

pub remove_owner-entry_of :
    (n : Name) (o : ℕ) (st : State) (e : Entry)
    → entry_of n st ≡ some e
    → entry_of n (remove_owner n o st) ≡ some (record e { flags = 0; conn = none })
unfolding remove_owner
remove_owner-entry_of n o st e h = ground (
  arith,
  find-modify_first n (λ (x : Entry). record x { flags = 0; conn = none }) (λ _. refl) n st.entries,
  str_eq_refl n,
)

-- `x` is the entry as it is found at the call, `e` a copy that may be older in other fields.
module _ (e : Entry) (c flags : ℕ) (st : State) (x : Entry) (h : entry_of e.name st ≡ some x)
    (agree : x.conn ≡ e.conn) where
  handed_over :
      IsLinked st
      → (o : ℕ) → e.conn ≡ some o
      → IsLinked (
          set_owner e.name c flags
            (remove_owner e.name o (emit (notified name_change o c e.flags flags e.name) st)))
  handed_over l o owner =
      let told : State = emit (notified name_change o c e.flags flags e.name) st in
      let left : State = remove_owner e.name o told in
      set_owner-IsLinked e.name c flags left
        (remove_owner-IsLinked e.name o 0 told (emit-IsLinked _ st l) {e = x} h (agree ∙ owner))
        {e = record x { flags = 0; conn = none }} (remove_owner-entry_of e.name o told x h) refl

  pub replace_owner-IsLinked : IsLinked st → IsLinked (replace_owner e c flags st)
  unfolding replace_owner
  replace_owner-IsLinked l = elim (Option-cases e.conn) [
    | inl ownerless ↦ rw (ownerless, replace_owner) l
    | inr (o, owner) ↦ elim (Bool-cases (c == o)) [
      | inl same ↦ rw (owner, replace_owner, same) l
      | inr other ↦ rw (owner, replace_owner, other) (handed_over l o owner)
    ]
  ]

  -- The new owner takes the entry over and all other names stay as they are.
  pub replace_owner-entry_of :
      (o : ℕ) (m : Name)
      → e.conn ≡ some o
      → c ≢ o
      → entry_of m (replace_owner e c flags st) ≡ (
          if str_eq e.name m
          then some (record x { conn = some c; flags = flags })
          else entry_of m st)
  unfolding replace_owner remove_owner set_owner
  replace_owner-entry_of o m owner other = ground (
    arith,
    find-modify_first e.name (λ (y : Entry). record y { flags = 0; conn = none }) (λ _. refl) m
        st.entries,
    find-modify_first e.name (λ (y : Entry). record y { flags = flags; conn = some c }) (λ _. refl)
        m (remove_owner e.name o st).entries,
    eq_of_str_eq e.name m,
    ==_iff c o,
  )
