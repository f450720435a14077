-- ===== src/Names/Tests.antt =====
-- Runs of the registry and its laws at concrete names and connections.
use kdbus.Base.{
  ℕ, ◌+◌, ◌%◌, ◌≤◌, ◌≡◌, refl, true, false, ◌&&◌, ◌||◌, List, [], ◌∷◌, none, some, arith, find,
  remove_first, modify_first, remove_all, str_eq, has_flag, leb, ok, eexist,
}
use kdbus.Strhash.{NameHash, strhash, possible}
use kdbus.Names.Syntax.{Name, Ctype, name_is_valid}
use kdbus.Names.Elements.{well_formed, name_is_valid-eq-well_formed}
use kdbus.Names.State.{
  State, Entry, Conn, Pending, entry_of, emit, flushed, name_find, set_owner, remove_owner,
  replace_owner, pending_new, pending_free, entry_new, entry_free, allow_replacement,
  replace_existing, queue_flag,
}
use kdbus.Names.Registry.{
  acquire, release, claim_new, claim_existing, claim_replace, claim_activator, release_existing,
  release_unlocked,
}
use kdbus.Names.Counts.{count_name, count_conn}
use kdbus.Names.Links.{IsLinked}
use kdbus.Names.Acquire.{acquire-IsLinked}
use kdbus.Names.Grants.{
  HasOwners, owner, IsQueued, acquire_queues, acquire_fails, acquire_others, acquire_grants,
}
use kdbus.Names.Release.{handed_on, release-IsLinked, release_hands_on, release_keeps_owner}
use kdbus.Names.Teardown.{release_all, release_all_lem}
use kdbus.Names.Commands.{cmd_name_acquire, cmd_name_acquire-le-max, payload, conn_max_names}

abbrev sum_hash : NameHash
sum_hash = record {
  init_name_hash = 0;
  partial_name_hash = λ c a. a + c;
  end_name_hash = λ a. a;
  bucket = λ k. k % 256;
}

abbrev ascii : Ctype
ascii = record {
  isalpha = λ c. (leb b'a' c && leb c b'z') || (leb b'A' c && leb c b'Z');
  isdigit = λ c. leb b'0' c && leb c b'9';
}

-- "a.b", "c.d" and "a.*"
abbrev ab : Name
ab = b'a' ∷ b'.' ∷ b'b' ∷ []

abbrev cd : Name
cd = b'c' ∷ b'.' ∷ b'd' ∷ []

abbrev a_star : Name
a_star = b'a' ∷ b'.' ∷ b'*' ∷ []

abbrev idle : Conn
idle = record {
  flags = 0;
  activator_of = none;
  names_list = [];
  names_queue_list = [];
  name_count = 0;
}

abbrev empty : State
empty = record { entries = []; name_seq_last = 0; conns = λ c. idle; events = [] }

valid_names :
    (name_is_valid ascii false ab ≡ true)
    × (name_is_valid ascii true a_star ≡ true)
    × (name_is_valid ascii false a_star ≡ false)
unfolding name_is_valid
valid_names = (refl, refl, refl)

empty-IsLinked : IsLinked empty
unfolding find count_name count_conn
empty-IsLinked = record { owned = λ c m. refl; waiting = λ c m. refl; counted = λ c. refl }

-- Connection 1 owns "a.b" and allows its replacement; connection 2 waits for it.
abbrev owned : State
owned = (acquire sum_hash 1 ab allow_replacement true true empty).0

abbrev contended : State
contended = (acquire sum_hash 2 ab queue_flag true true owned).0

-- Connection 2 has then replaced connection 1, and its own request still waits.
abbrev replaced : State
replaced = (acquire sum_hash 2 ab replace_existing true true contended).0

owned-IsLinked : IsLinked owned
owned-IsLinked = acquire-IsLinked sum_hash 1 ab allow_replacement true true empty empty-IsLinked

contended-IsLinked : IsLinked contended
contended-IsLinked = acquire-IsLinked sum_hash 2 ab queue_flag true true owned owned-IsLinked

replaced-IsLinked : IsLinked replaced
replaced-IsLinked =
    acquire-IsLinked sum_hash 2 ab replace_existing true true contended contended-IsLinked

abbrev entry : ℕ → ℕ → List Pending → Entry
entry flags c queue = record {
  name_id = 1;
  flags = flags;
  conn = some c;
  activator = none;
  queue = queue;
  name = ab;
}

-- All functions that a run of the registry goes through.
runs : ℕ
unfolding acquire release claim_new claim_existing claim_replace claim_activator release_existing
    release_unlocked name_find possible strhash find remove_first modify_first remove_all str_eq
    has_flag set_owner remove_owner replace_owner pending_new pending_free entry_new entry_free
    handed_on
runs = 0

owned_entry : entry_of ab owned ≡ some (entry allow_replacement 1 [])
unfolding runs
owned_entry = refl

contended-entry :
    entry_of ab contended
    ≡ some (entry allow_replacement 1 (record { conn = 2; flags = queue_flag } ∷ []))
unfolding runs
contended-entry = refl

replaced-entry :
    entry_of ab replaced
    ≡ some (entry replace_existing 2 (record { conn = 2; flags = queue_flag } ∷ []))
unfolding runs
replaced-entry = refl

-- The owner's release only uses up its own old request.
released_entry : entry_of ab (release sum_hash 2 ab replaced).0 ≡ some (entry replace_existing 2 [])
unfolding runs
released_entry = refl

empty-HasOwners : HasOwners empty
unfolding find
empty-HasOwners n e h = absurd (ground arith)

contended-HasOwners : HasOwners contended
unfolding runs
contended-HasOwners n e h = ground arith

acquire_grants_example :
    owner (entry_of ab (acquire sum_hash 2 ab replace_existing true true contended).0)
    ≡ some (some 2, replace_existing)
unfolding runs
acquire_grants_example =
    acquire_grants sum_hash 2 ab replace_existing true true contended contended-HasOwners refl refl

acquire_queues_example :
    IsQueued 2 ab queue_flag owned (acquire sum_hash 2 ab queue_flag true true owned).0
unfolding runs
acquire_queues_example = acquire_queues sum_hash 2 ab queue_flag true true owned refl

acquire-IsLinked_example : IsLinked (acquire sum_hash 2 ab replace_existing true true contended).0
acquire-IsLinked_example =
    acquire-IsLinked sum_hash 2 ab replace_existing true true contended contended-IsLinked

acquire_fails_example : (acquire sum_hash 3 ab 0 true true contended).0 ≡ emit flushed contended
unfolding runs
acquire_fails_example = acquire_fails sum_hash 3 ab 0 true true contended eexist refl

acquire_others_example :
    entry_of cd (acquire sum_hash 2 ab replace_existing true true contended).0
    ≡ entry_of cd contended
unfolding str_eq
acquire_others_example = acquire_others sum_hash 2 ab cd replace_existing true true contended refl

release-IsLinked_example : IsLinked (release sum_hash 1 ab contended).0
release-IsLinked_example = release-IsLinked sum_hash 1 ab contended contended-IsLinked

release_hands_on_example :
    ((release sum_hash 1 ab contended).1 ≡ ok tt)
    × (entry_of ab (release sum_hash 1 ab contended).0
        ≡ handed_on (entry allow_replacement 1 (record { conn = 2; flags = queue_flag } ∷ [])) 1)
release_hands_on_example = release_hands_on sum_hash 1 ab contended _ contended-entry refl

release_keeps_owner_example :
    ((release sum_hash 2 ab replaced).1 ≡ ok tt)
    × (entry_of ab (release sum_hash 2 ab replaced).0 ≡ some (entry replace_existing 2 []))
release_keeps_owner_example =
    release_keeps_owner sum_hash 2 ab replaced _ (record { conn = 2; flags = queue_flag }) []
      replaced-entry refl refl refl

release_all_lem_example :
    let after = release_all 2 replaced in
    IsLinked after
    × ((after.conns 2).names_list ≡ [])
    × ((after.conns 2).names_queue_list ≡ [])
    × ((after.conns 2).name_count ≡ 0)
release_all_lem_example = release_all_lem 2 replaced replaced-IsLinked

cmd_name_acquire-le-max_example :
    ((cmd_name_acquire sum_hash ascii true 2
        (payload ab replace_existing)
        true
        true
        contended).0.conns
      2).name_count
    ≤ conn_max_names
unfolding runs
cmd_name_acquire-le-max_example =
    cmd_name_acquire-le-max sum_hash ascii true 2 (payload ab replace_existing) true true contended
      (omega arith)

name_is_valid-eq-well_formed_example :
    name_is_valid ascii true a_star ≡ well_formed ascii true a_star
name_is_valid-eq-well_formed_example = name_is_valid-eq-well_formed ascii true a_star
