-- ===== src/Channel/Threads.antt =====
-- The producer's and the consumer's thread of a channel at once, src/lib/channel.c: each turn is one
-- access to the shared fields by one thread, so that a schedule is any interleaving of the two
-- threads, of a call of `channel_poison` and of spurious wake-ups. A call is at one of the places of
-- `Pc`; the lock is held in three of them. A turn that takes the lock does at once what is read
-- under it, and a turn that releases it what was signalled. Memory is sequentially consistent.
pub mod Control
pub mod Handover
pub mod Contents
pub mod Moves
pub mod Invariant
pub mod Wakeups
pub mod Alone
pub mod Unread
pub mod Progress
use hairgap.Channel.{Channel, next, get, is_full, is_empty, new}
use hairgap.Prelude.{
  if◌then◌else◌, get_elem?, set, ℕ, Bool, true, false, not, Option, none, some, List, [], ◌∷◌, ◌++◌,
}

-- Where a thread is in `channel_send` or `channel_recv`. The two are the same but for the test (full
-- or empty), the copy and the index.
pub data Pc : Type 0 where
  -- outside
  idle : Pc
  -- behind the first poison check
  checked : Pc
  -- the test without the lock said to wait, or a wait was over: to take the lock and test
  wanting : Pc
  -- with the lock, the test said to wait
  tested : Pc
  -- in `pthread_cond_wait`, which released the lock
  asleep : Pc
  -- out of `_channel_wait_lock`
  passed : Pc
  -- has the slot
  holding : Pc
  -- has copied
  filled : Pc
  -- behind the poison check and the pointer check of the second half
  allowed : Pc
  -- with the lock, what the other side's test said
  publishing : Bool → Pc
  -- with the lock, the index has moved
  signalling : Bool → Pc

-- The call of `channel_poison`: not yet, the flag is set, one condition is signalled, over.
pub data Killer : Type 0 where
  calm : Killer
  marked : Killer
  half : Killer
  spent : Killer

-- The channel, the threads, the element that the producer is sending, the one that the consumer has
-- copied, and what was sent and received so far.
pub record Sys (A : Type 0) : Type 0 where
  pub chan : Channel A
  pub sender : Pc
  pub receiver : Pc
  pub killer : Killer
  pub item : List A
  pub taken : Option A
  pub sent : List A
  pub got : List A

-- Who moves. A producer that is not yet at its copy may still send anything.
pub data Turn (A : Type 0) : Type 0 where
  produce : A → Turn A
  consume : Turn A
  kill : Turn A
  spurious_sender : Turn A
  spurious_receiver : Turn A

abbrev pub holds : Pc → Bool
holds tested = true
holds (publishing b) = true
holds (signalling b) = true
holds _ = false

-- The move of a thread whose own test says `full`, on a channel that is `dead` or not, with the lock
-- `free` or not, and the other side's test at `flag`.
abbrev pub advance : (full dead free flag : Bool) → Pc → Pc
advance full dead free flag idle = if dead then idle else checked
advance full dead free flag checked = if full then wanting else passed
advance full dead free flag wanting = if free then (if full then tested else passed) else wanting
advance full dead free flag tested = asleep
advance full dead free flag asleep = asleep
advance full dead free flag passed = if dead then idle else holding
advance full dead free flag holding = filled
advance full dead free flag filled = if dead then idle else allowed
advance full dead free flag allowed = if free then publishing flag else allowed
advance full dead free flag (publishing b) = signalling b
advance full dead free flag (signalling b) = idle

-- `pthread_cond_signal` on the condition of the one thread that can wait on it, and a spurious
-- wake-up.
abbrev pub wake : Pc → Pc
wake asleep = wanting
wake pc = pc

-- What a thread's move does to the other thread.
abbrev pub signal : Pc → Pc → Pc
signal (signalling true) other = wake other
signal _ other = other

module _ {A : Type 0} where
  -- The producer's `memcpy` and its index.
  abbrev pub write : A → Pc → Channel A → Channel A
  write x holding c = record c { elts = set c.elts (get c c.wr_idx) x }
  write x (publishing b) c = record c { wr_idx = next c c.wr_idx }
  write x _ c = c

  abbrev pub item_of : A → Pc → List A → List A
  item_of x holding xs = x ∷ []
  item_of x _ xs = xs

  abbrev pub sent_of : Pc → List A → List A → List A
  sent_of (publishing b) xs sent = sent ++ xs
  sent_of _ xs sent = sent

  -- The consumer's `memcpy` and its index.
  abbrev pub read : Pc → Channel A → Channel A
  read (publishing b) c = record c { rd_idx = next c c.rd_idx }
  read _ c = c

  abbrev pub taken_of : Pc → Channel A → Option A → Option A
  taken_of holding c x = get_elem? c.elts (get c c.rd_idx)
  taken_of _ c x = x

  abbrev pub listed : Option A → List A
  listed none = []
  listed (some x) = x ∷ []

  abbrev pub got_of : Pc → Option A → List A → List A
  got_of (publishing b) x got = got ++ listed x
  got_of _ x got = got

  -- The next move of `channel_send`: `channel_reserve`, `memcpy`, `channel_send_reserved`.
  abbrev pub send_move : A → Sys A → Sys A
  send_move x s = record s {
    chan = write x s.sender s.chan;
    sender =
        advance (is_full s.chan) s.chan.poisoned (not (holds s.receiver)) (is_empty s.chan)
          s.sender;
    receiver = signal s.sender s.receiver;
    item = item_of x s.sender s.item;
    sent = sent_of s.sender s.item s.sent;
  }

  -- The next move of `channel_recv`: `channel_peek`, `memcpy`, `channel_ack`.
  abbrev pub recv_move : Sys A → Sys A
  recv_move s = record s {
    chan = read s.receiver s.chan;
    receiver =
        advance (is_empty s.chan) s.chan.poisoned (not (holds s.sender)) (is_full s.chan)
          s.receiver;
    sender = signal s.receiver s.sender;
    taken = taken_of s.receiver s.chan s.taken;
    got = got_of s.receiver s.taken s.got;
  }

  -- `channel_poison`, which takes no lock.
  abbrev pub kill_move : Killer → Sys A → Sys A
  kill_move calm s = record s { chan = record s.chan { poisoned = true }; killer = marked }
  kill_move marked s = record s { sender = wake s.sender; killer = half }
  kill_move half s = record s { receiver = wake s.receiver; killer = spent }
  kill_move spent s = s

  abbrev pub turn : Sys A → Turn A → Sys A
  turn s (produce x) = send_move x s
  turn s consume = recv_move s
  turn s kill = kill_move s.killer s
  turn s spurious_sender = record s { sender = wake s.sender }
  turn s spurious_receiver = record s { receiver = wake s.receiver }

  abbrev pub schedule : Sys A → List (Turn A) → Sys A
  schedule s [] = s
  schedule s (t ∷ ts) = schedule (turn s t) ts

  -- A new channel, before either thread has called it.
  abbrev pub start : Channel A → Sys A
  start c = record {
    chan = c;
    sender = idle;
    receiver = idle;
    killer = calm;
    item = [];
    taken = none;
    sent = [];
    got = [];
  }
