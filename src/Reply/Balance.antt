-- ===== src/Reply/Balance.antt =====
-- reply.c: the counter of pending requests counts the live trackers, through every operation.
use kdbus.Base.{
  ℕ, ◌+◌, ◌-◌, ◌≤◌, ◌≡◌, refl, sym, ◌∙◌, ap, Bool, true, false, List, [], ◌∷◌, ◌++◌, Option, some,
  arith, length, find, remove_first, remove_all, modify_first, ◌==◌, All, Option-cases, Bool-cases,
  inl, inr, ◌≢◌,
}
use kdbus.Reply.Tracker.{
  Reply, Conn, Msg, conn_max_requests_pending, is_at, reply_new, reply_free, reply_ref, reply_unref,
  set_linked, reply_link, reply_unlink, sync_reply_wakeup, scan_one, scan,
}

-- A live tracker has a reference.
abbrev pub IsHeld : Reply → Type 0
IsHeld r = 1 ≤ r.kref

pub record IsBalanced (c : Conn) : Type 0 where
  pub counted : c.request_count ≡ length c.replies
  pub bounded : c.request_count ≤ conn_max_requests_pending
  pub held : All IsHeld c.replies

module _ {A : Type 0} (p : A → Bool) where
  length-remove_first :
      (l : List A) {a : A} → find p l ≡ some a → length (remove_first p l) + 1 ≡ length l
  unfolding find remove_first
  length-remove_first [] {a} h = absurd (ground (arith, h))
  length-remove_first (x ∷ l) {a} h = elim (Bool-cases (p x)) [
    | inl hit ↦ ground (arith, hit)
    | inr miss ↦ ground (arith, miss, length-remove_first l {a = a} (ground (arith, h, miss)))
  ]

  length-modify_first : (f : A → A) (l : List A) → length (modify_first p f l) ≡ length l
  unfolding modify_first
  length-modify_first f [] = refl
  length-modify_first f (x ∷ l) = ground (arith, length-modify_first f l)

  All-remove_first : (P : A → Type 0) (l : List A) → All P l → All P (remove_first p l)
  unfolding remove_first
  All-remove_first P [] w = tt
  All-remove_first P (x ∷ l) w = ground (arith, w.0, w.1, All-remove_first P l w.1)

  All-modify_first :
      (P : A → Type 0) (f : A → A) (l : List A)
      → ((a : A) → find p l ≡ some a → P a → P (f a))
      → All P l
      → All P (modify_first p f l)
  unfolding modify_first find
  All-modify_first P f [] step w = tt
  All-modify_first P f (x ∷ l) step w = elim (Bool-cases (p x)) [
    | inl hit ↦ ground (arith, hit, step x (ground (arith, hit)) w.0, w.1)
    | inr miss ↦
        ground
          (arith, miss, w.0, All-modify_first P f l (λ a e. step a (ground (arith, e, miss))) w.1)
  ]

-- A change of one tracker that keeps a reference keeps the balance.
modify-IsBalanced :
    (r : ℕ) (f : Reply → Reply) (c : Conn)
    → ((a : Reply) → find (is_at r) c.replies ≡ some a → IsHeld a → IsHeld (f a))
    → IsBalanced c
    → IsBalanced (record c { replies = modify_first (is_at r) f c.replies })
modify-IsBalanced r f c step wf = record {
  counted = omega (arith, wf.counted, length-modify_first (is_at r) f c.replies);
  bounded = wf.bounded;
  held = All-modify_first (is_at r) IsHeld f c.replies step wf.held;
}

pub reply_new-IsBalanced :
    (mem : Option ℕ) (src : ℕ) (msg : Msg) (name : Option ℕ) (sync : Bool) (c : Conn)
    → IsBalanced c
    → IsBalanced (reply_new mem src msg name sync c).0
unfolding reply_new
reply_new-IsBalanced mem src msg name sync c wf = ground (arith, wf.counted, wf.bounded, wf.held)

pub reply_ref-IsBalanced : (r : ℕ) (c : Conn) → IsBalanced c → IsBalanced (reply_ref r c)
unfolding reply_ref
reply_ref-IsBalanced r c wf = modify-IsBalanced r _ c (λ a e h. omega (arith, h)) wf

reply_free-IsBalanced :
    (r : ℕ) (c : Conn) (x : Reply)
    → find (is_at r) c.replies ≡ some x
    → IsBalanced c
    → IsBalanced (reply_free r c)
unfolding reply_free
reply_free-IsBalanced r c x hit wf =
    let one_less = length-remove_first (is_at r) c.replies {a = x} hit in
    record {
      counted = omega (arith, wf.counted, one_less);
      bounded = omega (arith, wf.bounded);
      held = All-remove_first (is_at r) IsHeld c.replies wf.held;
    }

-- Each operation by its cases, for any predicate on the connection.
module _ (P : Conn → Type 0) where
  unref_cases :
      (r : ℕ) (c : Conn)
      → P c
      → ((x : Reply) → find (is_at r) c.replies ≡ some x → P (reply_free r c))
      → ((x : Reply)
          → find (is_at r) c.replies ≡ some x
          → x.kref ≢ 1
          → P (record c {
            replies = modify_first (is_at r) (λ x. record x { kref = x.kref - 1 }) c.replies;
          }))
      → P (reply_unref r c)
  unfolding reply_unref
  unref_cases r c same freed less = elim (Option-cases (find (is_at r) c.replies)) [
    | inl miss ↦ ground (arith, miss, same)
    | inr (x, hit) ↦ ground (arith, hit, freed x hit, less x hit)
  ]

  link_cases :
      (r : ℕ) (c : Conn)
      → P c
      → P (
          reply_ref r
            (record c { reply_list = r ∷ c.reply_list; replies = set_linked true r c.replies }))
      → P (reply_link r c)
  unfolding reply_link
  link_cases r c same linked = ground (arith, same, linked)

  unlink_cases :
      (r : ℕ) (c : Conn)
      → P c
      → P (
          reply_unref r (record c {
            reply_list = remove_all (λ a. a == r) c.reply_list;
            replies = set_linked false r c.replies;
          }))
      → P (reply_unlink r c)
  unfolding reply_unlink
  unlink_cases r c same unlinked = ground (arith, same, unlinked)

  scan_one_cases :
      (now : ℕ) (x : Reply) (d : ℕ) (c : Conn)
      → P c
      → P (reply_unlink x.addr c)
      → P (reply_unlink x.addr (record c { timeouts = c.timeouts ++ x.cookie ∷ [] }))
      → P (scan_one now x (d, c)).1
  unfolding scan_one
  scan_one_cases now x d c same quiet notified = ground (arith, same, quiet, notified)

some_inj : {a b : Reply} → some a ≡ some b → a ≡ b
some_inj e = cc

-- With its last reference a tracker is freed, and the counter goes down with it.
pub reply_unref-IsBalanced : (r : ℕ) (c : Conn) → IsBalanced c → IsBalanced (reply_unref r c)
reply_unref-IsBalanced r c wf =
    unref_cases IsBalanced r c wf (λ x hit. reply_free-IsBalanced r c x hit wf)
      (λ x hit more.
        modify-IsBalanced r _ c
          (λ a e h. omega (arith, h, more, ap (λ q. q.kref) (some_inj (sym e ∙ hit)))) wf)

set_linked-IsBalanced :
    (b : Bool) (r : ℕ) (l : List ℕ) (c : Conn)
    → IsBalanced c
    → IsBalanced (record c { reply_list = l; replies = set_linked b r c.replies })
set_linked-IsBalanced b r l c wf =
    let m = modify-IsBalanced r (λ x. record x { linked = b }) c (λ a e h. h) wf in
    record { counted = m.counted; bounded = m.bounded; held = m.held }

pub reply_link-IsBalanced : (r : ℕ) (c : Conn) → IsBalanced c → IsBalanced (reply_link r c)
reply_link-IsBalanced r c wf =
    link_cases IsBalanced r c wf (reply_ref-IsBalanced r _ (set_linked-IsBalanced true r _ c wf))

pub reply_unlink-IsBalanced : (r : ℕ) (c : Conn) → IsBalanced c → IsBalanced (reply_unlink r c)
reply_unlink-IsBalanced r c wf =
    unlink_cases IsBalanced r c wf
      (reply_unref-IsBalanced r _ (set_linked-IsBalanced false r _ c wf))

pub sync_reply_wakeup-IsBalanced :
    (r e : ℕ) (c : Conn) → IsBalanced c → IsBalanced (sync_reply_wakeup r e c)
unfolding sync_reply_wakeup
sync_reply_wakeup-IsBalanced r e c wf = modify-IsBalanced r _ c (λ a found h. ground (arith, h)) wf

notified-IsBalanced :
    (t : List ℕ) (c : Conn) → IsBalanced c → IsBalanced (record c { timeouts = t })
notified-IsBalanced t c wf = record { counted = wf.counted; bounded = wf.bounded; held = wf.held }

pub scan-IsBalanced :
    (now : ℕ) (l : List ℕ) (d : ℕ) (c : Conn) → IsBalanced c → IsBalanced (scan now l (d, c)).1
unfolding scan
scan-IsBalanced now [] d c wf = wf
scan-IsBalanced now (a ∷ l) d c wf = elim (Option-cases (find (is_at a) c.replies)) [
  | inl miss ↦ ground (arith, miss, scan-IsBalanced now l d c wf)
  | inr (x, hit) ↦ ground (
    arith,
    hit,
    scan-IsBalanced now l (scan_one now x (d, c)).0 (scan_one now x (d, c)).1 (
        scan_one_cases IsBalanced now x d c wf (reply_unlink-IsBalanced x.addr c wf)
          (reply_unlink-IsBalanced x.addr _ (notified-IsBalanced _ c wf))),
  )
]
