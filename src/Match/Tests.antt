-- ===== src/Match/Tests.antt =====
-- Runs of the match database and its laws at concrete entries.
use kdbus.Base.{
  ℕ, ◌+◌, ◌*◌, ◌/◌, ◌≤◌, ◌≡◌, refl, true, false, [], ◌∷◌, Option, none, some, arith, length,
  remove_all, leb, ◌==◌, ◌||◌, ◌&&◌, ok, err, ebadslt, ◌⊎◌, ◌≢◌, All, Has, Result,
}
use kdbus.Names.Syntax.{Ctype}
use kdbus.Match.Rules.{
  Rule, Entry, BloomFilter, Kmsg, Source, bloom_mask_item, id_item, match_bloom, mask_start, covers,
  has_name, user_rule, kernel_rule, match_rules, match_kmsg, rule_holds,
}
use kdbus.Match.Db.{
  MatchDb, MatchItem, IsCounted, make_rule, make_rules, drop_cookie, remove_unlocked, append_entry,
  insert_entry, match_add, count_cookie, blank_rule, rule_free, rules_free,
}
use kdbus.Match.Changes.{remove_unlocked_lem}
use kdbus.Match.Freeing.{IsForeign, IsDocumented}
use kdbus.Match.Delivery.{mask_reads_in_bounds}

abbrev ascii : Ctype
ascii = record {
  isalpha = λ c. (leb b'a' c && leb c b'z') || (leb b'A' c && leb c b'Z');
  isdigit = λ c. leb b'0' c && leb c b'9';
}

abbrev from_seven : Entry
from_seven = record { cookie = 1; rules = (record (blank_rule id_item) { src_id = 7 }) ∷ [] }

abbrev everything : Entry
everything = record { cookie = 2; rules = [] }

abbrev db : MatchDb
db = record { entries = from_seven ∷ everything ∷ []; entries_count = 2 }

db-IsCounted : IsCounted db
db-IsCounted = record { counted = refl; bounded = omega arith }

-- Two generations of one word each.
abbrev mask_rule_item : MatchItem
mask_rule_item = record {
  kind = bloom_mask_item;
  size = 16;
  words = 0b1 ∷ 0b100 ∷ [];
  str = [];
  id = 0;
  change_old_id = 0;
  change_new_id = 0;
  change_name = [];
  change_id = 0;
  mem = true;
}

abbrev mask_rule : Rule
mask_rule = record (blank_rule bloom_mask_item) {
  mask = record { generations = 2; bits = 0b1 ∷ 0b100 ∷ [] };
}

abbrev filter_of : ℕ → ℕ → BloomFilter
filter_of g w = record { generation = g; bits = w ∷ [] }

abbrev kmsg : BloomFilter → Kmsg
kmsg f = record {
  filter = f;
  notify_type = 0;
  notify_old_id = 0;
  notify_new_id = 0;
  notify_name = none;
}

abbrev src : ℕ → Option Source
src id = some (record { id = id; names_list = []; bloom_size = 8 })

runs : ℕ
unfolding match_add make_rules make_rule insert_entry append_entry remove_unlocked drop_cookie
    match_kmsg match_rules rule_holds user_rule kernel_rule match_bloom mask_start covers has_name
    count_cookie remove_all rule_free rules_free
runs = 0

-- A message of generation 5 is tested against the last generation of the mask.
bloom_run :
    (match_bloom (filter_of 0 0b11) mask_rule.mask 8 ≡ true)
    × (match_bloom (filter_of 5 0b11) mask_rule.mask 8 ≡ false)
    × (match_bloom (filter_of 5 0b110) mask_rule.mask 8 ≡ true)
unfolding runs
bloom_run = (refl, refl, refl)

-- A rule that kdbus_match_rule_free cannot free, of the type KDBUS_ITEM_NEGOTIATE
abbrev odd_item : MatchItem
odd_item = record mask_rule_item { kind = 1 }

abbrev odd : Entry
odd = record { cookie = 3; rules = (blank_rule 1) ∷ [] }

abbrev code_of : Option (MatchDb × Result (Unit {0})) → Option (Result (Unit {0}))
code_of none = none
code_of (some (after, r)) = some r

remove_run :
    (code_of (remove_unlocked 9 db) ≡ some (err ebadslt))
    × (code_of (match_add ascii 8 3 false true (odd_item ∷ []) db) ≡ some (ok tt))
    × (remove_unlocked 3 (record { entries = odd ∷ []; entries_count = 1 }) ≡ none)
unfolding runs
remove_run = (refl, refl, refl)

remove_unlocked_lem_example :
    ((remove_unlocked 1 db ≡ none)
      × ((e : Entry) × Has e db.entries × (e.cookie ≡ 1) × IsForeign e))
    ⊎ ((after : MatchDb) × (remove_unlocked 1 db ≡ some (after, ok tt))
        × (after.entries ≡ remove_all (λ e. e.cookie == 1) db.entries)
        × IsCounted after
        × All (λ e. (e.cookie ≢ 1) ⊎ IsDocumented e) db.entries)
unfolding count_cookie
remove_unlocked_lem_example = remove_unlocked_lem 1 db db-IsCounted

mask_reads_in_bounds_example :
    mask_start (filter_of 5 0) mask_rule.mask (8 * 1 / 8) + 8 * 1 / 8 ≤ length mask_rule.mask.bits
unfolding runs
mask_reads_in_bounds_example =
    mask_reads_in_bounds ascii 1 mask_rule_item mask_rule (filter_of 5 0) (omega arith) refl refl
      (omega arith) refl
