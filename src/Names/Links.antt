-- ===== src/Names/Links.antt =====
-- The registry's links: every name stands once in the list of its owner, every request for a name
-- once in its queue and once in the list of the connection that made it, and `name_count` counts.
use mathlib.Core.Option
use kdbus.Base.{
  ℕ, ◌-◌, ◌≡◌, refl, [], ◌∷◌, ◌++◌, Option, none, some, arith, length, length-append, remove_first,
  find, eq_of_str_eq, ◌==◌,
}
use kdbus.Names.Syntax.{Name}
use kdbus.Names.State.{
  State, Entry, entry_of, pending_new, pending_free, entry_new, entry_free, set_owner, remove_owner,
}
use kdbus.Names.Counts.{
  one_if, count_name, owner_count, waiting_count, count_name-append, count_conn-append,
  count_name-remove_first, count_conn-remove_first, length-remove_first, count_conn-nil,
}
use kdbus.Names.Lookup.{find-modify_first, find-remove_all}

pub record IsLinked (st : State) : Type 0 where
  pub owned :
      (c : ℕ) (m : Name) → count_name m (st.conns c).names_list ≡ owner_count c (entry_of m st)
  pub waiting :
      (c : ℕ) (m : Name)
      → count_name m (st.conns c).names_queue_list ≡ waiting_count c (entry_of m st)
  pub counted : (c : ℕ) → (st.conns c).name_count ≡ length (st.conns c).names_list

module _ (n : Name) (c flags : ℕ) (st : State) (l : IsLinked st) where
  abbrev enqueue : Entry → Entry
  enqueue e = record e { queue = e.queue ++ record { conn = c; flags = flags } ∷ [] }

  pub pending_new-IsLinked :
      {e : Entry} → entry_of n st ≡ some e → IsLinked (pending_new n c flags st)
  unfolding pending_new
  pending_new-IsLinked {e} h = record {
    owned = λ d m. ground (
      arith,
      l.owned d m,
      find-modify_first n enqueue (λ _. refl) m st.entries,
      eq_of_str_eq n m,
    );
    waiting = λ d m. ground (
      arith,
      l.waiting d m,
      find-modify_first n enqueue (λ _. refl) m st.entries,
      eq_of_str_eq n m,
      count_name-append m n (st.conns d).names_queue_list,
      count_conn-append d (record { conn = c; flags = flags }) e.queue,
    );
    counted = λ d. ground (arith, l.counted d);
  }

  dequeue : Entry → Entry
  dequeue e = record e { queue = remove_first (λ p. p.conn == c) e.queue }

  waiting_count-dequeue :
      (d : ℕ) (o : Option Entry)
      → waiting_count d (Option.map dequeue o) ≡ waiting_count d o - one_if (c == d)
  unfolding dequeue
  waiting_count-dequeue d none = ground arith
  waiting_count-dequeue d (some e) = count_conn-remove_first d c e.queue

  owner_count-dequeue :
      (d : ℕ) (o : Option Entry) → owner_count d (Option.map dequeue o) ≡ owner_count d o
  unfolding dequeue
  owner_count-dequeue d none = refl
  owner_count-dequeue d (some e) = refl

  pub pending_free-IsLinked : IsLinked (pending_free n c st)
  unfolding pending_free dequeue
  pending_free-IsLinked = record {
    owned = λ d m. ground (
      arith,
      l.owned d m,
      find-modify_first n dequeue (λ _. refl) m st.entries,
      owner_count-dequeue d (entry_of m st),
    );
    waiting = λ d m. ground (
      arith,
      l.waiting d m,
      find-modify_first n dequeue (λ _. refl) m st.entries,
      waiting_count-dequeue d (entry_of m st),
      count_name-remove_first m n (st.conns d).names_queue_list,
    );
    counted = λ d. ground (arith, l.counted d);
  }

  grant : Entry → Entry
  grant e = record e { conn = some c; flags = flags }

  pub set_owner-IsLinked :
      {e : Entry} → entry_of n st ≡ some e → e.conn ≡ none → IsLinked (set_owner n c flags st)
  unfolding set_owner grant
  set_owner-IsLinked {e} h o = record {
    owned = λ d m. ground (
      arith,
      l.owned d m,
      find-modify_first n grant (λ _. refl) m st.entries,
      eq_of_str_eq n m,
      count_name-append m n (st.conns d).names_list,
    );
    waiting = λ d m. ground (
      arith,
      l.waiting d m,
      find-modify_first n grant (λ _. refl) m st.entries,
      eq_of_str_eq n m,
    );
    counted = λ d. ground (arith, l.counted d, length-append (st.conns d).names_list (n ∷ []));
  }

  abbrev disown : Entry → Entry
  disown e = record e { flags = 0; conn = none }

  pub remove_owner-IsLinked :
      {e : Entry} → entry_of n st ≡ some e → e.conn ≡ some c → IsLinked (remove_owner n c st)
  unfolding remove_owner
  remove_owner-IsLinked {e} h o = record {
    owned = λ d m. ground (
      arith,
      l.owned d m,
      find-modify_first n disown (λ _. refl) m st.entries,
      eq_of_str_eq n m,
      count_name-remove_first m n (st.conns d).names_list,
    );
    waiting = λ d m. ground (
      arith,
      l.waiting d m,
      find-modify_first n disown (λ _. refl) m st.entries,
      eq_of_str_eq n m,
    );
    counted = λ d.
        ground (arith, l.counted d, l.owned d n, length-remove_first n (st.conns d).names_list);
  }

  pub entry_new-IsLinked : entry_of n st ≡ none → IsLinked (entry_new n st)
  unfolding entry_new find
  entry_new-IsLinked h = record {
    owned = λ d m. ground (arith, l.owned d m, eq_of_str_eq n m);
    waiting = λ d m. ground (arith, l.waiting d m, eq_of_str_eq n m, count_conn-nil d);
    counted = λ d. l.counted d;
  }

  pub entry_free-IsLinked :
      {e : Entry}
      → entry_of n st ≡ some e
      → e.conn ≡ none
      → e.queue ≡ []
      → IsLinked (entry_free n st)
  unfolding entry_free
  entry_free-IsLinked {e} h o q = record {
    owned = λ d m. ground (arith, l.owned d m, find-remove_all n m st.entries, eq_of_str_eq n m);
    waiting = λ d m.
        ground (
          arith,
          l.waiting d m,
          find-remove_all n m st.entries,
          eq_of_str_eq n m,
          count_conn-nil d,
        );
    counted = λ d. l.counted d;
  }
