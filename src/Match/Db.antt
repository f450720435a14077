-- ===== src/Match/Db.antt =====
-- match.c: adding entries to the database, and removing them by their cookie.
use kdbus.Base.{
  ℕ, ◌+◌, ◌-◌, ◌/◌, ◌%◌, ◌≤◌, ◌≡◌, Bool, true, false, not, ◌&&◌, ◌||◌, List, [], ◌∷◌, ◌++◌, Option,
  none, some, arith, length, remove_all, ltb, ◌==◌, if◌then◌else◌, Result, ok, err, edom, enomem,
  einval, emfile, ebadslt,
}
use kdbus.Names.Syntax.{Name, Ctype, name_is_valid}
use kdbus.Match.Rules.{
  Rule, Entry, bloom_mask_item, id_item, name_item, name_add_item, name_remove_item,
  name_change_item, id_add_item, id_remove_item,
}

-- `struct kdbus_match_db`
pub record MatchDb : Type 0 where
  pub entries : List Entry
  pub entries_count : ℕ

-- KDBUS_MATCH_MAX
abbrev pub match_max : ℕ
match_max = 256

-- An item of KDBUS_CMD_MATCH_ADD: its type, the size of its payload, what its union is read as, and
-- whether the allocations made for it succeed.
pub record MatchItem : Type 0 where
  pub kind : ℕ
  pub size : ℕ
  pub words : List ℕ
  pub str : Name
  pub id : ℕ
  pub change_old_id : ℕ
  pub change_new_id : ℕ
  pub change_name : Name
  pub change_id : ℕ
  pub mem : Bool

-- sizeof(struct kdbus_notify_name_change)
abbrev pub name_change_size : ℕ
name_change_size = 32

-- What `kzalloc` gives, with the item's type.
abbrev pub blank_rule : ℕ → Rule
blank_rule kind = record {
  kind = kind;
  mask = record { generations = 0; bits = [] };
  name = none;
  old_id = 0;
  new_id = 0;
  src_id = 0;
}

-- One turn of the loop over the items of `kdbus_cmd_match_add`.
unfoldable pub make_rule : Ctype → ℕ → MatchItem → Result Rule
make_rule ct bloom_size i =
    if not i.mem
    then err enomem
    else (if i.kind == bloom_mask_item
        then (if ltb i.size bloom_size || ltb 0 (i.size % bloom_size)
            then err edom
            else ok (record blank {
              mask = record { generations = i.size / bloom_size; bits = i.words };
            }))
        else (if i.kind == name_item
            then (if not (name_is_valid ct false i.str)
                then err einval
                else ok (record blank { name = some i.str }))
            else (if i.kind == id_item
                then ok (record blank { src_id = i.id })
                else (if i.kind == name_add_item
                      || i.kind == name_remove_item
                      || i.kind == name_change_item
                    then ok (record blank {
                      old_id = i.change_old_id;
                      new_id = i.change_new_id;
                      name = if ltb name_change_size i.size then some i.change_name else none;
                    })
                    else (if i.kind == id_add_item
                        then ok (record blank { new_id = i.change_id })
                        else (if i.kind == id_remove_item
                            then ok (record blank { old_id = i.change_id })
                            else ok blank))))))
  where
    blank : Rule
    blank = blank_rule i.kind

-- `kdbus_match_rule_free`: `false` is its BUG(), for a rule of any other type.
unfoldable pub rule_free : Rule → Bool
rule_free r =
    r.kind == bloom_mask_item
    || r.kind == name_item
    || r.kind == name_add_item
    || r.kind == name_remove_item
    || r.kind == name_change_item
    || r.kind == id_item
    || r.kind == id_add_item
    || r.kind == id_remove_item

-- The loop of `kdbus_match_entry_free`
unfoldable pub rules_free : List Rule → Bool
rules_free [] = true
rules_free (r ∷ rules) = if rule_free r then rules_free rules else false

-- The loop over the items, with the rules that are in the entry already; `none` is BUG(). An item
-- that fails frees its own rule first, which is of a type that can be freed.
unfoldable pub make_rules : Ctype → ℕ → List Rule → List MatchItem → Option (Result (List Rule))
make_rules ct bloom_size rules [] = some (ok rules)
make_rules ct bloom_size rules (i ∷ items) = elim (make_rule ct bloom_size i) [
  | err x ↦ if rules_free rules then some (err x) else none
  | ok r ↦ make_rules ct bloom_size (rules ++ r ∷ []) items
]

-- The walk of `kdbus_match_db_remove_unlocked`, with the counter and `found`; `none` is BUG().
unfoldable pub drop_cookie : ℕ → List Entry → ℕ → Bool → Option (List Entry × ℕ × Bool)
drop_cookie cookie [] count found = some ([], count, found)
drop_cookie cookie (e ∷ entries) count found =
    let hit = e.cookie == cookie in
    let rest = drop_cookie cookie entries (if hit then count - 1 else count) (hit || found) in
    if hit
    then (if rules_free e.rules then rest else none)
    else elim rest [ none ↦ none | some (kept, n, f) ↦ some (e ∷ kept, n, f) ]

-- `kdbus_match_db_remove_unlocked`
unfoldable pub remove_unlocked : ℕ → MatchDb → Option (MatchDb × Result (Unit {0}))
remove_unlocked cookie db = elim (drop_cookie cookie db.entries db.entries_count false) [
  | none ↦ none
  | some (rest, n, f) ↦
      some (record { entries = rest; entries_count = n }, if f then ok tt else err ebadslt)
]

-- The test of the counter, and the link into the list, or the release of the new entry.
unfoldable pub append_entry : Entry → MatchDb → Option (MatchDb × Result (Unit {0}))
append_entry entry db =
    if ltb match_max (db.entries_count + 1)
    then (if rules_free entry.rules then some (db, err emfile) else none)
    else some
        (record { entries = db.entries ++ entry ∷ []; entries_count = db.entries_count + 1 }, ok tt)

-- The part of `kdbus_cmd_match_add` under the lock.
unfoldable pub insert_entry : Entry → Bool → MatchDb → Option (MatchDb × Result (Unit {0}))
insert_entry entry replace db =
    elim (if replace then remove_unlocked entry.cookie db else some (db, ok tt)) [
      | none ↦ none
      | some (room, r) ↦ append_entry entry room
    ]

-- `kdbus_cmd_match_add` on a command that `kdbus_args_parse` accepts; `mem` tells whether `kzalloc`
-- has memory for the entry, and `none` is BUG().
unfoldable pub match_add :
    Ctype → ℕ → ℕ → Bool → Bool → List MatchItem → MatchDb → Option (MatchDb × Result (Unit {0}))
match_add ct bloom_size cookie replace mem items db =
    if not mem then some (db, err enomem) else elim (make_rules ct bloom_size [] items) [
      | none ↦ none
      | some made ↦ elim made [
        | err x ↦ some (db, err x)
        | ok rules ↦ insert_entry (record { cookie = cookie; rules = rules }) replace db
      ]
    ]

-- The counter counts the entries, and they are not too many.
pub record IsCounted (db : MatchDb) : Type 0 where
  pub counted : db.entries_count ≡ length db.entries
  pub bounded : db.entries_count ≤ match_max

-- How many entries carry the cookie.
unfoldable pub count_cookie : ℕ → List Entry → ℕ
count_cookie c [] = 0
count_cookie c (e ∷ entries) = (if e.cookie == c then 1 else 0) + count_cookie c entries

-- The entries with the cookie can all be freed.
unfoldable pub cookie_free : ℕ → List Entry → Bool
cookie_free c [] = true
cookie_free c (e ∷ entries) = (not (e.cookie == c) || rules_free e.rules) && cookie_free c entries

pub drop_cookie_lem :
    (c : ℕ) (entries : List Entry) (n : ℕ) (found : Bool)
    → drop_cookie c entries (n + length entries) found ≡ (
        if cookie_free c entries
        then some (
          remove_all (λ e. e.cookie == c) entries,
          n + length (remove_all (λ e. e.cookie == c) entries),
          found || ltb 0 (count_cookie c entries),
        )
        else none)
unfolding drop_cookie remove_all count_cookie cookie_free
drop_cookie_lem c [] n found = ground arith
drop_cookie_lem c (e ∷ entries) n found = ground (
  arith,
  drop_cookie_lem c entries n true,
  drop_cookie_lem c entries n found,
  drop_cookie_lem c entries (n + 1) found,
)
