-- ===== src/Names/Counts.antt =====
-- How often a name stands in a connection's lists, and a connection in a name's queue.
use kdbus.Base.{
  ℕ, ◌+◌, ◌-◌, ◌<◌, ◌≡◌, refl, Bool, true, List, [], ◌∷◌, ◌++◌, Option, none, some, arith, length,
  remove_first, str_eq, eq_of_str_eq, str_eq_refl, ◌==◌, if◌then◌else◌,
}
use kdbus.Names.Syntax.{Name}
use kdbus.Names.State.{Pending, Entry, is_conn}

-- Two names that are equal to the code are so in every test.
pub str_eq_left : (x n m : Name) → str_eq x n ≡ true → str_eq x m ≡ str_eq n m
str_eq_left x n m h = rw (eq_of_str_eq x n h)

abbrev pub one_if : Bool → ℕ
one_if b = if b then 1 else 0

unfoldable pub count_name : Name → List Name → ℕ
count_name m [] = 0
count_name m (x ∷ xs) = one_if (str_eq x m) + count_name m xs

unfoldable pub count_conn : ℕ → List Pending → ℕ
count_conn c [] = 0
count_conn c (p ∷ ps) = one_if (p.conn == c) + count_conn c ps

pub count_name-nil : (m : Name) → count_name m [] ≡ 0
unfolding count_name
count_name-nil m = refl

pub count_conn-nil : (c : ℕ) → count_conn c [] ≡ 0
unfolding count_conn
count_conn-nil c = refl

pub count_name-append :
    (m n : Name) (xs : List Name)
    → count_name m (xs ++ n ∷ []) ≡ count_name m xs + one_if (str_eq n m)
unfolding count_name
count_name-append m n [] = ground arith
count_name-append m n (x ∷ xs) = omega (arith, count_name-append m n xs)

pub count_conn-append :
    (c : ℕ) (p : Pending) (ps : List Pending)
    → count_conn c (ps ++ p ∷ []) ≡ count_conn c ps + one_if (p.conn == c)
unfolding count_conn
count_conn-append c p [] = ground arith
count_conn-append c p (q ∷ ps) = omega (arith, count_conn-append c p ps)

pub count_name-remove_first :
    (m n : Name) (xs : List Name)
    → count_name m (remove_first (λ k. str_eq k n) xs) ≡ count_name m xs - one_if (str_eq n m)
unfolding count_name remove_first
count_name-remove_first m n [] = ground arith
count_name-remove_first m n (x ∷ xs) = ground (
  arith,
  count_name-remove_first m n xs,
  str_eq_left x n m,
  str_eq_left x m n,
  str_eq_left n m n,
  str_eq_refl n,
)

pub count_conn-remove_first :
    (c d : ℕ) (ps : List Pending)
    → count_conn c (remove_first (λ p. p.conn == d) ps) ≡ count_conn c ps - one_if (d == c)
unfolding count_conn remove_first
count_conn-remove_first c d [] = ground arith
count_conn-remove_first c d (p ∷ ps) = ground (arith, count_conn-remove_first c d ps)

pub length-remove_first :
    (n : Name) (xs : List Name)
    → 0 < count_name n xs
    → length (remove_first (λ k. str_eq k n) xs) + 1 ≡ length xs
unfolding count_name remove_first
length-remove_first n [] h = absurd (omega arith)
length-remove_first n (x ∷ xs) h = ground (arith, length-remove_first n xs)

-- How often the list of names of `c` has to hold the name of an entry, and its list of requests.
abbrev pub owner_count : ℕ → Option Entry → ℕ
owner_count c none = 0
owner_count c (some e) = one_if (is_conn c e.conn)

abbrev pub waiting_count : ℕ → Option Entry → ℕ
waiting_count c none = 0
waiting_count c (some e) = count_conn c e.queue
