-- ===== src/Match/Rules.antt =====
-- match.c: rules, entries, and whether a message satisfies them.
use kdbus.Base.{
  ℕ, zero, suc, ◌+◌, ◌-◌, ◌*◌, ◌/◌, ◌%◌, ◌^◌, Bool, true, false, not, ◌&&◌, ◌||◌, List, [], ◌∷◌,
  Option, none, some, get_or, drop, str_eq, leb, ◌==◌, if◌then◌else◌, bit_and,
}
use kdbus.Names.Syntax.{Name}

-- The item types that rules can have, as KDBUS_ITEM_* in kdbus.h.
abbrev pub bloom_mask_item : ℕ
bloom_mask_item = 9

abbrev pub id_item : ℕ
id_item = 14

abbrev pub name_item : ℕ
name_item = 15

abbrev pub name_add_item : ℕ
name_add_item = 0x8000

abbrev pub name_remove_item : ℕ
name_remove_item = 0x8001

abbrev pub name_change_item : ℕ
name_change_item = 0x8002

abbrev pub id_add_item : ℕ
id_add_item = 0x8003

abbrev pub id_remove_item : ℕ
id_remove_item = 0x8004

-- KDBUS_MATCH_ID_ANY
abbrev pub match_id_any : ℕ
match_id_any = 2 ^ 64 - 1

-- `struct kdbus_bloom_mask`; `bits` is the array of 64-bit words.
pub record BloomMask : Type 0 where
  pub generations : ℕ
  pub bits : List ℕ

-- `struct kdbus_bloom_filter`
pub record BloomFilter : Type 0 where
  pub generation : ℕ
  pub bits : List ℕ

-- `struct kdbus_match_rule`; the fields of its union are read only under the type that sets them.
pub record Rule : Type 0 where
  pub kind : ℕ
  pub mask : BloomMask
  pub name : Option Name
  pub old_id : ℕ
  pub new_id : ℕ
  pub src_id : ℕ

-- `struct kdbus_match_entry`
pub record Entry : Type 0 where
  pub cookie : ℕ
  pub rules : List Rule

-- What the rules read of `struct kdbus_kmsg`.
pub record Kmsg : Type 0 where
  pub filter : BloomFilter
  pub notify_type : ℕ
  pub notify_old_id : ℕ
  pub notify_new_id : ℕ
  pub notify_name : Option Name

-- What they read of the source connection: its id, its names, the size of its bus's blooms.
pub record Source : Type 0 where
  pub id : ℕ
  pub names_list : List Name
  pub bloom_size : ℕ

-- The index of the mask's first word: the generation closest to the filter's.
unfoldable pub mask_start : BloomFilter → BloomMask → ℕ → ℕ
mask_start filter mask n =
    let last = (mask.generations + 2 ^ 64 - 1) % 2 ^ 64 in
    (if leb filter.generation last then filter.generation else last) * n

-- The loop over the words from index `i` on.
unfoldable pub covers : List ℕ → List ℕ → ℕ → ℕ → Bool
covers filter m i zero = true
covers filter m i (suc k) =
    let rest = covers filter m (i + 1) k in
    let want = get_or m i 0 in if bit_and (get_or filter i 0) want == want then rest else false

-- `kdbus_match_bloom`
unfoldable pub match_bloom : BloomFilter → BloomMask → ℕ → Bool
match_bloom filter mask bloom_size =
    let n = bloom_size / 8 in covers filter.bits (drop (mask_start filter mask n) mask.bits) 0 n

-- `kdbus_conn_has_name`
unfoldable pub has_name : List Name → Name → Bool
has_name [] name = false
has_name (n ∷ rest) name = if str_eq n name then true else has_name rest name

abbrev pub owns : Source → Option Name → Bool
owns src none = false
owns src (some n) = has_name src.names_list n

abbrev pub is_any_or : ℕ → ℕ → Bool
is_any_or want id = want == match_id_any || want == id

abbrev pub same_or_unset : Option Name → Option Name → Bool
same_or_unset none b = true
same_or_unset (some a) none = true
same_or_unset (some a) (some b) = str_eq a b

-- A rule on a message from user space.
unfoldable pub user_rule : Source → Kmsg → Rule → Bool
user_rule src kmsg r =
    if r.kind == bloom_mask_item
    then match_bloom kmsg.filter r.mask src.bloom_size
    else (if r.kind == id_item
        then is_any_or r.src_id src.id
        else (if r.kind == name_item then owns src r.name else false))

-- A rule on a kernel notification.
unfoldable pub kernel_rule : Kmsg → Rule → Bool
kernel_rule kmsg r =
    if not (kmsg.notify_type == r.kind)
    then false
    else (if r.kind == id_add_item
        then is_any_or r.new_id kmsg.notify_new_id
        else (if r.kind == id_remove_item
            then is_any_or r.old_id kmsg.notify_old_id
            else (if r.kind == name_add_item
                  || r.kind == name_change_item
                  || r.kind == name_remove_item
                then is_any_or r.old_id kmsg.notify_old_id
                  && is_any_or r.new_id kmsg.notify_new_id
                  && same_or_unset r.name kmsg.notify_name
                else false)))

unfoldable pub rule_holds : Option Source → Kmsg → Rule → Bool
rule_holds none kmsg r = kernel_rule kmsg r
rule_holds (some src) kmsg r = user_rule src kmsg r

-- `kdbus_match_rules`
unfoldable pub match_rules : List Rule → Option Source → Kmsg → Bool
match_rules [] src kmsg = true
match_rules (r ∷ rules) src kmsg =
    if not (rule_holds src kmsg r) then false else match_rules rules src kmsg

-- `kdbus_match_db_match_kmsg`
unfoldable pub match_kmsg : List Entry → Option Source → Kmsg → Bool
match_kmsg [] src kmsg = false
match_kmsg (e ∷ entries) src kmsg =
    if match_rules e.rules src kmsg then true else match_kmsg entries src kmsg
