-- ===== src/Match/Changes.antt =====
-- match.c: what adding and removing entries leaves of the database.
use kdbus.Base.{
  ℕ, ◌≤◌, ◌≡◌, ◌⊎◌, refl, Bool, true, false, List, [], ◌∷◌, ◌++◌, arith, length, remove_all, ltb,
  ◌==◌, if◌then◌else◌, Result, ok, err, Errno, ebadslt, Bool-cases, Option, none, some, All, Has,
  ◌≢◌, inl, inr,
}
use kdbus.Names.Syntax.{Ctype}
use kdbus.Match.Rules.{Entry, Rule}
use kdbus.Match.Db.{
  MatchDb, MatchItem, make_rules, remove_unlocked, IsCounted, count_cookie, drop_cookie_lem,
  cookie_free,
}
use kdbus.Match.Freeing.{
  IsForeign, IsDocumented, HasForeign, cookie_free-IsDocumented, cookie_free_never,
}

module _ {ℓ} {A : Type ℓ} (p : A → Bool) where
  length-remove_all : (l : List A) → length (remove_all p l) ≤ length l
  unfolding remove_all
  length-remove_all [] = omega arith
  length-remove_all (x ∷ l) = ground (arith, length-remove_all l)

module _ (c : ℕ) (db : MatchDb) (wf : IsCounted db) where
  -- The database without the entries that have the cookie.
  abbrev pub without : MatchDb
  without = record {
    entries = remove_all (λ e. e.cookie == c) db.entries;
    entries_count = length (remove_all (λ e. e.cookie == c) db.entries);
  }

  without-IsCounted : IsCounted without
  without-IsCounted = record {
    counted = refl;
    bounded =
        ground (arith, wf.counted, wf.bounded, length-remove_all (λ e. e.cookie == c) db.entries);
  }

  abbrev removed : Option (MatchDb × Result (Unit {0}))
  removed = some (without, if ltb 0 (count_cookie c db.entries) then ok tt else err ebadslt)

  remove_unlocked_cases :
      remove_unlocked c db ≡ (if cookie_free c db.entries then removed else none)
  unfolding remove_unlocked
  remove_unlocked_cases = ground (arith, wf.counted, drop_cookie_lem c db.entries 0 false)

  -- In a database whose counter is right, removal by cookie runs into BUG() only if an entry with the
  -- cookie has a rule of a type that is none of the documented ones. Otherwise the rules of
  -- all entries with the cookie have documented types, exactly those entries are dropped, the others
  -- keep their order, the counter is right again, and the call succeeds if there was such an
  -- entry and fails with EBADSLT if not.
  pub remove_unlocked_lem :
      ((remove_unlocked c db ≡ none)
        × ((e : Entry) × Has e db.entries × (e.cookie ≡ c) × IsForeign e))
      ⊎ ((after : MatchDb) × (remove_unlocked c db
            ≡ some (after, if ltb 0 (count_cookie c db.entries) then ok tt else err ebadslt))
          × (after.entries ≡ remove_all (λ e. e.cookie == c) db.entries)
          × IsCounted after
          × All (λ e. (e.cookie ≢ c) ⊎ IsDocumented e) db.entries)
  remove_unlocked_lem = elim (Bool-cases (cookie_free c db.entries)) [
    | inl fine ↦ inr (
      without,
      ground (arith, remove_unlocked_cases, fine),
      refl,
      without-IsCounted,
      cookie_free-IsDocumented c db.entries fine,
    )
    | inr never ↦
        inl (ground (arith, remove_unlocked_cases, never), cookie_free_never c db.entries never)
  ]

-- The list as `append_entry` finds it, without the entries that are to be replaced.
abbrev kept_entries : ℕ → Bool → List Entry → List Entry
kept_entries c replace l = if replace then remove_all (λ e. e.cookie == c) l else l

-- Why a call may run into BUG() under the lock.
abbrev pub IsBlocked : ℕ → Bool → List Entry → Type 0
IsBlocked c replace l = (replace ≡ true) × ((e : Entry) × Has e l × (e.cookie ≡ c) × IsForeign e)

module _ (ct : Ctype) (bloom_size cookie : ℕ) (replace mem : Bool) (items : List MatchItem)
    (db : MatchDb) (wf : IsCounted db) where
  -- What a call may give: BUG(), a failure, and success.
  abbrev pub AddResult : Option (MatchDb × Result (Unit {0})) → Type 0
  AddResult r =
      ((r ≡ none) × (IsBlocked cookie replace db.entries ⊎ HasForeign items))
      ⊎ ((after : MatchDb) × (x : Errno) × (r ≡ some (after, err x))
          × IsCounted after
          × (after.entries ≡ db.entries))
      ⊎ ((after : MatchDb) × (rules : List Rule) × (r ≡ some (after, ok tt))
          × IsCounted after
          × (make_rules ct bloom_size [] items ≡ some (ok rules))
          × (after.entries
              ≡ kept_entries cookie replace db.entries
                ++ (record { cookie = cookie; rules = rules }) ∷ []))

-- With KDBUS_MATCH_REPLACE, a successful call leaves one entry with its cookie.
pub count_cookie-kept_entries :
    (e : Entry) (l : List Entry)
    → count_cookie e.cookie (kept_entries e.cookie true l ++ e ∷ []) ≡ 1
unfolding count_cookie remove_all
count_cookie-kept_entries e [] = ground arith
count_cookie-kept_entries e (x ∷ l) = ground (arith, count_cookie-kept_entries e l)
