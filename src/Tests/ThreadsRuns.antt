-- ===== src/Tests/ThreadsRuns.antt =====
-- Interleavings of the two threads of src/lib/channel.c.
use hairgap.Channel.{Channel, get, send, recv}
use hairgap.Channel.Valid.{IsValid, contents}
use hairgap.Channel.Threads.{
  idle, asleep, calm, spent, holding, Turn, produce, consume, kill, send_move, recv_move, schedule,
  start,
}
use hairgap.Channel.Threads.Control.{signals}
use hairgap.Channel.Threads.Invariant.{schedule_in_order, schedule_apart}
use hairgap.Channel.Threads.Alone.{after_send, after_recv, send_alone, recv_alone}
use hairgap.Channel.Threads.Unread.{calls, attempts, unread_stalls}
use hairgap.Channel.Threads.Progress.{schedule_moves}
use hairgap.Channel.Threads.Wakeups.{schedule_wakes, sleeps_for_ever}
use hairgap.Prelude.{
  length, replicate, ℕ, zero, suc, none, ◌<◌, ◌+◌, ◌≡◌, refl, ◌≢◌, ◌⊎◌, inl, true, false, List, [],
  ◌∷◌, ◌++◌, arith,
}

-- A ring for one element.
abbrev ring : Channel ℕ
ring = record {
  elt_size = 4;
  capacity = 2;
  poisoned = false;
  elts = 0 ∷ 0 ∷ [];
  wr_idx = 0;
  rd_idx = 0;
}

ring-IsValid : IsValid ring
ring-IsValid = omega arith

abbrev wide : Channel ℕ
wide = record ring { capacity = 3; elts = 0 ∷ 0 ∷ 0 ∷ [] }

wide-IsValid : IsValid wide
wide-IsValid = omega arith

abbrev runs : ℕ → Turn ℕ → List (Turn ℕ)
runs zero t = []
runs (suc n) t = t ∷ runs n t

-- The consumer falls asleep on the empty ring, the producer sends 7 and signals it, and the consumer
-- has the slot.
abbrev woken : List (Turn ℕ)
woken = runs 4 consume ++ runs 8 (produce 7) ++ runs 2 consume

woken_runs : schedule (start ring) woken ≡ record {
  chan = record ring { elts = 7 ∷ 0 ∷ []; wr_idx = 1 };
  sender = idle;
  receiver = holding;
  killer = calm;
  item = 7 ∷ [];
  taken = none;
  sent = 7 ∷ [];
  got = [];
}
woken_runs = refl

-- With room for two, the producer has a second slot while the consumer has the first.
abbrev busy : List (Turn ℕ)
busy = runs 8 (produce 7) ++ runs 3 consume ++ runs 4 (produce 8)

-- The producer finds the ring full and waits.
abbrev crowded : List (Turn ℕ)
crowded = runs 8 (produce 7) ++ runs 4 (produce 8)

-- A poisoning that goes through between the consumer's test under the lock and its wait.
abbrev poisoned_late : List (Turn ℕ)
poisoned_late = runs 3 consume ++ runs 3 kill ++ runs 1 consume

poisoned_late_runs : schedule (start ring) poisoned_late ≡ record {
  chan = record ring { poisoned = true };
  sender = idle;
  receiver = asleep;
  killer = spent;
  item = [];
  taken = none;
  sent = [];
  got = [];
}
poisoned_late_runs = refl

schedule_in_order_example :
    (7 ∷ [] ≡ [] ++ contents (schedule (start ring) woken).chan)
    × (length (contents (schedule (start ring) woken).chan) < 2)
schedule_in_order_example = schedule_in_order woken ring-IsValid refl

schedule_apart_example :
    get (schedule (start wide) busy).chan (schedule (start wide) busy).chan.wr_idx
    ≢ get (schedule (start wide) busy).chan (schedule (start wide) busy).chan.rd_idx
schedule_apart_example = schedule_apart busy wide-IsValid refl refl refl

schedule_wakes_example :
    (((schedule (start ring) crowded).sender ≡ asleep)
      × ((schedule (start ring) crowded).receiver ≢ asleep)
      × ((length (contents (schedule (start ring) crowded).chan) + 1 ≡ 2)
          ⊎ (signals (schedule (start ring) crowded).receiver ≡ true)))
    ⊎ (((schedule (start ring) crowded).receiver ≡ asleep)
        × ((schedule (start ring) crowded).sender ≢ asleep)
        × ((contents (schedule (start ring) crowded).chan ≡ [])
            ⊎ (signals (schedule (start ring) crowded).sender ≡ true)))
schedule_wakes_example = schedule_wakes crowded ring-IsValid refl (omega arith) refl (inl refl)

sleeps_for_ever_example :
    (schedule (schedule (start ring) poisoned_late) (produce 7 ∷ consume ∷ produce 7 ∷ [])).receiver
    ≡ asleep
sleeps_for_ever_example =
    sleeps_for_ever (produce 7 ∷ consume ∷ produce 7 ∷ []) (schedule (start ring) poisoned_late)
      (refl, (refl, (refl, tt))) (record { poisoned = refl; sleeps = refl; silent = refl })

send_alone_example :
    schedule (start ring) (replicate 8 (produce 7)) ≡ after_send (start ring) 7 (send ring 7)
send_alone_example = send_alone (start ring) 7 refl refl

recv_alone_example :
    schedule (schedule (start ring) (runs 8 (produce 7))) (replicate 8 consume)
    ≡ after_recv
        (schedule (start ring) (runs 8 (produce 7)))
        (recv (record ring { elts = 7 ∷ 0 ∷ []; wr_idx = 1 }))
recv_alone_example = recv_alone (schedule (start ring) (runs 8 (produce 7))) refl refl

-- Two calls go through, and the third one waits.
unread_stalls_example :
    let s =
      schedule
        (start wide)
        (calls (7 ∷ 8 ∷ []) ++ (replicate 8 (produce 9) ++ attempts (9 ∷ 9 ∷ []))) in
    (s.sender ≡ asleep) × (s.sent ≡ 7 ∷ 8 ∷ [])
unread_stalls_example = unread_stalls (7 ∷ 8 ∷ []) 9 (9 ∷ 9 ∷ []) wide-IsValid refl refl refl

-- The producer is asleep on the full ring, and the consumer has not begun.
schedule_moves_example :
    ((send_move 9 (schedule (start ring) crowded)).sender ≢ (schedule (start ring) crowded).sender)
    ⊎ ((recv_move (schedule (start ring) crowded)).receiver
        ≢ (schedule (start ring) crowded).receiver)
schedule_moves_example = schedule_moves crowded 9 ring-IsValid refl (omega arith) refl
