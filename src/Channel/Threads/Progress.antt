-- ===== src/Channel/Threads/Progress.antt =====
-- The two threads of src/lib/channel.c never wait for each other at once.
use hairgap.Channel.{Channel}
use hairgap.Channel.Valid.{IsValid}
use hairgap.Channel.Threads.{
  Pc, idle, checked, wanting, tested, asleep, passed, holding, filled, allowed, publishing,
  signalling, Turn, holds, advance, send_move, recv_move, schedule, start,
}
use hairgap.Channel.Threads.Invariant.{schedule-Inv, start-Inv}
use hairgap.Channel.Threads.Wakeups.{schedule-capacity, not_both}
use hairgap.Prelude.{Bool-cases, ◌<◌, ◌≡◌, refl, ◌≢◌, ◌⊎◌, inl, inr, Bool, true, false, List}

-- A thread that holds the lock goes on.
holder_moves :
    (mine free flag : Bool) (pc : Pc) → holds pc ≡ true → advance mine false free flag pc ≢ pc
holder_moves mine free flag tested h e = cc
holder_moves mine free flag (publishing b) h e = cc
holder_moves mine free flag (signalling b) h e = cc
holder_moves mine free flag idle h e = cc
holder_moves mine free flag checked h e = cc
holder_moves mine free flag wanting h e = cc
holder_moves mine free flag asleep h e = cc
holder_moves mine free flag passed h e = cc
holder_moves mine free flag holding h e = cc
holder_moves mine free flag filled h e = cc
holder_moves mine free flag allowed h e = cc

-- A thread that does not sleep goes on, where the lock is free.
awake_moves : (mine flag : Bool) (pc : Pc) → pc ≢ asleep → advance mine false true flag pc ≢ pc
awake_moves mine flag idle n e = cc
awake_moves true flag checked n e = cc
awake_moves false flag checked n e = cc
awake_moves true flag wanting n e = cc
awake_moves false flag wanting n e = cc
awake_moves mine flag tested n e = cc
awake_moves mine flag asleep n e = n refl
awake_moves mine flag passed n e = cc
awake_moves mine flag holding n e = cc
awake_moves mine flag filled n e = cc
awake_moves mine flag allowed n e = cc
awake_moves mine flag (publishing b) n e = cc
awake_moves mine flag (signalling b) n e = cc

sleep-cases : (pc : Pc) → (pc ≡ asleep) ⊎ (pc ≢ asleep)
sleep-cases asleep = inl refl
sleep-cases idle = inr (λ e. cc e)
sleep-cases checked = inr (λ e. cc e)
sleep-cases wanting = inr (λ e. cc e)
sleep-cases tested = inr (λ e. cc e)
sleep-cases passed = inr (λ e. cc e)
sleep-cases holding = inr (λ e. cc e)
sleep-cases filled = inr (λ e. cc e)
sleep-cases allowed = inr (λ e. cc e)
sleep-cases (publishing b) = inr (λ e. cc e)
sleep-cases (signalling b) = inr (λ e. cc e)

module _ {A : Type 0} where
  -- There is no deadlock: on a valid channel that begins empty, has room for an element and is not
  -- poisoned, whatever the interleaving so far, the next move of the producer takes it on, or that of
  -- the consumer does.
  pub schedule_moves :
      {c : Channel A} (ts : List (Turn A)) (x : A)
      → IsValid c
      → c.rd_idx ≡ c.wr_idx
      → 1 < c.capacity
      → (schedule (start c) ts).chan.poisoned ≡ false
      → ((send_move x (schedule (start c) ts)).sender ≢ (schedule (start c) ts).sender)
        ⊎ ((recv_move (schedule (start c) ts)).receiver ≢ (schedule (start c) ts).receiver)
  schedule_moves {c} ts x v e room alive =
      let s = schedule (start c) ts in
      let i = schedule-Inv ts (start c) (start-Inv v e) in
      let wide : 1 < s.chan.capacity = rw (schedule-capacity ts (start c)) room in
      elim (Bool-cases (holds s.receiver)) [
        | inl held ↦ inr (rw alive (holder_moves _ _ _ s.receiver held))
        | inr free ↦ elim (sleep-cases s.sender) [
          | inl sleeps ↦
              inr (rw (alive, sleeps) (awake_moves _ _ s.receiver (not_both i alive wide sleeps)))
          | inr awake ↦ inl (rw (alive, free) (awake_moves _ _ s.sender awake))
        ]
      ]
