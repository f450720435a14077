-- ===== src/Reply/Lookup.antt =====
-- reply.c: which tracker `kdbus_reply_find` finds.
use kdbus.Base.{
  ℕ, ◌≡◌, refl, ap, true, false, List, [], ◌∷◌, ◌++◌, Option, none, some, arith, find, All,
  Option-cases, Bool-cases, inl, inr, subst, ◌⊎◌,
}
use kdbus.Reply.Tracker.{Reply, is_at, is_reply_of, reply_find}

-- A tracker of a call with the cookie, whose reply is expected from `src`, if that is given.
abbrev pub IsReplyTo : Option ℕ → ℕ → Reply → Type 0
IsReplyTo src cookie r = (r.cookie ≡ cookie) × ((src ≡ none) ⊎ (src ≡ some r.reply_src))

-- The address holds no such tracker.
abbrev pub IsPassed : Option ℕ → ℕ → List Reply → ℕ → Type 0
IsPassed src cookie replies a =
    (find (is_at a) replies ≡ none)
    ⊎ ((r : Reply) × (find (is_at a) replies ≡ some r) × (¬ IsReplyTo src cookie r))

-- What the search may give, `o`.
abbrev pub FindResult : Option ℕ → ℕ → List ℕ → List Reply → Option Reply → Type 0
FindResult src cookie l replies o =
    ((before : List ℕ) × (a : ℕ) × (after : List ℕ) × (r : Reply) × (o ≡ some r)
      × (l ≡ before ++ a ∷ after)
      × (find (is_at a) replies ≡ some r)
      × IsReplyTo src cookie r
      × All (IsPassed src cookie replies) before)
    ⊎ ((o ≡ none) × All (IsPassed src cookie replies) l)

is_reply_of-IsReplyTo :
    (src : Option ℕ) (cookie : ℕ) (r : Reply)
    → is_reply_of src cookie r ≡ true
    → IsReplyTo src cookie r
is_reply_of-IsReplyTo none cookie r h = (ground (arith, h), inl refl)
is_reply_of-IsReplyTo (some s) cookie r h = (ground (arith, h), inr (ap some (ground (arith, h))))

not_reply_of :
    (src : Option ℕ) (cookie : ℕ) (r : Reply)
    → is_reply_of src cookie r ≡ false
    → ¬ IsReplyTo src cookie r
not_reply_of none cookie r h (same, from) = ground (arith, h, same)
not_reply_of (some s) cookie r h (same, inl from) = ground (arith, from)
not_reply_of (some s) cookie r h (same, inr from) = ground (arith, h, same, from)

-- A first address that holds no such tracker is passed over.
FindResult-cons :
    (src : Option ℕ) (cookie a : ℕ) (l : List ℕ) (replies : List Reply) (o : Option Reply)
    → IsPassed src cookie replies a
    → FindResult src cookie l replies o
    → FindResult src cookie (a ∷ l) replies o
FindResult-cons src cookie a l replies o passed (inl (before, b, after, r, e, at, hit, fits, all)) =
    inl (a ∷ before, b, after, r, e, ap (λ k. a ∷ k) at, hit, fits, (passed, all))
FindResult-cons src cookie a l replies o passed (inr (nothing, all)) = inr (nothing, (passed, all))

-- `kdbus_reply_find` returns the first tracker of the connection's list that has the
-- cookie and, where a replying connection is given, expects its reply from that connection; or it
-- returns none, and then no address of the list holds such a tracker.
pub reply_find_lem :
    (src : Option ℕ) (cookie : ℕ) (l : List ℕ) (replies : List Reply)
    → FindResult src cookie l replies (reply_find src cookie l replies)
unfolding reply_find
reply_find_lem src cookie [] replies = inr (refl, tt)
reply_find_lem src cookie (a ∷ l) replies = elim (Option-cases (find (is_at a) replies)) [
  | inl miss ↦ subst (FindResult src cookie (a ∷ l) replies) (ground (arith, miss)) (
      FindResult-cons src cookie a l replies (reply_find src cookie l replies) (inl miss)
        (reply_find_lem src cookie l replies))
  | inr (x, hit) ↦ elim (Bool-cases (is_reply_of src cookie x)) [
    | inl fits ↦ inl (
      [],
      a,
      l,
      x,
      ground (arith, hit, fits),
      refl,
      hit,
      is_reply_of-IsReplyTo src cookie x fits,
      tt,
    )
    | inr other ↦ subst (FindResult src cookie (a ∷ l) replies) (ground (arith, hit, other)) (
        FindResult-cons src cookie a l replies (reply_find src cookie l replies)
          (inr (x, hit, not_reply_of src cookie x other)) (reply_find_lem src cookie l replies))
  ]
]
