-- ===== src/Lib.antt =====
-- kdbus: models of the kernel module's core, with the theorems that make its parts correct.
--
-- The module carries messages between connections on a bus. A connection acquires well-known names
-- in the bus's registry (names.c), subject to the bus's policy (policy.c); it subscribes to
-- broadcasts and notifications by match rules (match.c); what it sends to others is charged to its
-- user's quota at the receiver (connection.c), and a method call is tracked at the caller until its
-- reply or its timeout (reply.c). Every command from user space is a structure with a chain of items
-- behind it, which is checked first (item.c, handle.c).
--
--   Base          tests, lists, results and the names of the libraries, shared by all models
--   Strhash       kdbus_strhash (util.h) and kdbus_strnhash (policy.c)
--   Names         names.c: Syntax is kdbus_name_is_valid; State has the structures and the small
--                 functions on them (pending_new, entry_new, set_owner, replace_owner and so on);
--                 Registry has kdbus_name_acquire and kdbus_name_release, Teardown
--                 kdbus_name_release_all, Commands the two ioctl handlers
--   Policy        policy.c: Db is the lookup, Query kdbus_policy_query_unlocked, Set
--                 kdbus_policy_set; Checks is kdbus_conn_policy_own_name, kdbus_conn_policy_talk
--                 and kdbus_conn_policy_see_name_unlocked of connection.c
--   Match         match.c: Rules has kdbus_match_bloom, kdbus_match_rules and
--                 kdbus_match_db_match_kmsg; Db has kdbus_cmd_match_add and
--                 kdbus_match_db_remove_unlocked, whose result `none` is the BUG() of
--                 kdbus_match_rule_free; Meaning says what a rule demands of a message
--   Item          item.h, item.c and handle.c: Validate is kdbus_item_validate, Walk the macros that
--                 walk a chain by address, Args kdbus_items_validate and kdbus_args_verify, Parse
--                 kdbus_args_negotiate and __kdbus_args_parse
--   Quota         connection.c: kdbus_conn_quota_inc and kdbus_conn_quota_dec
--   Rbtree        the kernel's trees: Defs has the descents that pool.c writes out, and the interface
--                 `RbTree` for what the kernel does; Plain is an instance
--   Pool          pool.c: Slices has kdbus_pool_slice_alloc, __kdbus_pool_slice_release,
--                 kdbus_pool_slice_release, kdbus_pool_release_offset, kdbus_pool_slice_publish and
--                 the first slice of kdbus_pool_new
--   Queue         queue.c: Entries has kdbus_queue_entry_link, kdbus_queue_entry_unlink and
--                 kdbus_queue_peek; Receive is the middle of kdbus_cmd_recv in connection.c; Runs has
--                 sequences of arrivals and receptions
--   Node          node.c: Counter has the values of the counter of active references and what each
--                 call does to it, Threads the steps of the threads on a node without children,
--                 with their sleeps and wake-ups; Children has kdbus_node_link and kdbus_node_find_child
--   Reply         reply.c: Tracker has its functions, Runs sequences of them, and Lookup
--                 is about kdbus_reply_find
--
-- State is passed on explicitly. The registry's state holds its entries, all connections by id and
-- the list of notifications and message moves; where the code follows a pointer from a list to an
-- object, the model looks the object up by its name, id or address. Fallible functions return
-- `Result`, with the errno value; an allocation that may fail is a Boolean argument. Locks are left
-- out: each operation runs as one step, as it does under its lock; only on the active references of
-- a node, which no lock protects, the threads' single accesses and wake-ups interleave. A thread in
-- wait_event is put to sleep in the step that finds its condition false, as the kernel queues it
-- before the test. Numbers are natural numbers, with `% 2 ^ w` written out where a sum of the code
-- may wrap.
--
-- Fuel: kdbus_name_release_all has as much for each loop as the list that it empties has elements,
-- and a walk over items of `n` bytes has `n / 16 + 2`, since an item has at least 16 bytes.
--
-- Parameters: the kernel's isalpha, isdigit, name hash, conversion of user ids, the memory of a
-- command as a function from addresses to items, the result of kdbus_queue_entry_install, and the
-- kernel's red-black trees: a tree's nodes hold the objects that embed them, and rb_insert_color,
-- rb_erase, rb_replace_node and rb_next are the fields of `RbTree`, whose laws say that they keep
-- the order. The threads on a node are counted by the place in the code where they stand, fewer than
-- 2^31 - 8 of them with a reference at a time.
--
-- Not modelled: message.c, metadata.c, the walk over the children of a node in node.c, the moving of
-- messages between connections, the construction and teardown of objects, the listing of names in
-- names.c, and everything that copies data to or from user space.
pub mod Base
pub mod Strhash
pub mod Rbtree
pub mod Pool
pub mod Queue
pub mod Node
pub mod Names
pub mod Policy
pub mod Match
pub mod Item
pub mod Reply
pub mod Quota
