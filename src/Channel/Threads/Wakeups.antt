-- ===== src/Channel/Threads/Wakeups.antt =====
-- Which waits end: without a poisoning a thread sleeps only as long as it has to, and a poisoning that
-- comes between the test and the wait leaves its thread asleep.
use hairgap.Channel.{Channel}
use hairgap.Channel.Indices.{contents_empty, length-contents, used-eq-room}
use hairgap.Channel.Valid.{IsValid, contents, next-mod}
use hairgap.Channel.Threads.{
  Pc, idle, checked, wanting, tested, asleep, passed, holding, filled, allowed, publishing,
  signalling, Sys, Turn, produce, consume, kill, spurious_sender, spurious_receiver, advance,
  signal, write, read, turn, schedule, start, Killer, calm, marked, half, spent, kill_move,
  recv_move,
}
use hairgap.Channel.Threads.Control.{signals, sound}
use hairgap.Channel.Threads.Contents.{full, empty, Inv}
use hairgap.Channel.Threads.Invariant.{schedule-Inv, start-Inv}
use hairgap.Prelude.{
  length, All, ◌+◌, ◌<◌, ◌≡◌, refl, sym, ap, subst, ◌∙◌, ◌≢◌, ◌⊎◌, inl, inr, Bool, true, false,
  ◌&&◌, ◌||◌, List, [], ◌∷◌, arith,
}

-- What a sleeping thread relies on.
asleep-sound :
    {mine : Bool} (theirs : Bool) {dead called : Bool} {pc : Pc}
    → pc ≡ asleep
    → dead ≡ false
    → sound mine theirs dead called pc ≡ true
    → (mine ≡ true) ⊎ (called ≡ true)
asleep-sound {mine} theirs {dead} {called} e n h =
    let k : mine || (dead || called) ≡ true =
      sym (ap (λ p. sound mine theirs dead called p) e) ∙ h in
    ground arith

write-capacity :
    {A : Type 0} (x : A) (pc : Pc) (c : Channel A) → (write x pc c).capacity ≡ c.capacity
write-capacity x idle c = refl
write-capacity x checked c = refl
write-capacity x wanting c = refl
write-capacity x tested c = refl
write-capacity x asleep c = refl
write-capacity x passed c = refl
write-capacity x holding c = refl
write-capacity x filled c = refl
write-capacity x allowed c = refl
write-capacity x (publishing f) c = refl
write-capacity x (signalling f) c = refl

read-capacity : {A : Type 0} (pc : Pc) (c : Channel A) → (read pc c).capacity ≡ c.capacity
read-capacity idle c = refl
read-capacity checked c = refl
read-capacity wanting c = refl
read-capacity tested c = refl
read-capacity asleep c = refl
read-capacity passed c = refl
read-capacity holding c = refl
read-capacity filled c = refl
read-capacity allowed c = refl
read-capacity (publishing f) c = refl
read-capacity (signalling f) c = refl

kill-capacity :
    {A : Type 0} (k : Killer) (s : Sys A) → (kill_move k s).chan.capacity ≡ s.chan.capacity
kill-capacity calm s = refl
kill-capacity marked s = refl
kill-capacity half s = refl
kill-capacity spent s = refl

module _ {A : Type 0} where
  turn-capacity : (s : Sys A) (t : Turn A) → (turn s t).chan.capacity ≡ s.chan.capacity
  turn-capacity s (produce x) = write-capacity x s.sender s.chan
  turn-capacity s consume = read-capacity s.receiver s.chan
  turn-capacity s kill = kill-capacity s.killer s
  turn-capacity s spurious_sender = refl
  turn-capacity s spurious_receiver = refl

  pub schedule-capacity :
      (ts : List (Turn A)) (s : Sys A) → (schedule s ts).chan.capacity ≡ s.chan.capacity
  schedule-capacity [] s = refl
  schedule-capacity (t ∷ ts) s = schedule-capacity ts (turn s t) ∙ turn-capacity s t

  -- No element for the consumer and no slot for the producer: only in a ring of one slot.
  crossed : {c : Channel A} → IsValid c → 1 < c.capacity → full c ≡ true → empty c ≢ true
  crossed {c} v room f e = ground (arith, next-mod c.capacity c.wr_idx v.small v.wr_in)

  module _ {s : Sys A} (i : Inv s) (alive : s.chan.poisoned ≡ false) where
    sender_waits :
        s.sender ≡ asleep
        → (length (contents s.chan) + 1 ≡ s.chan.capacity) ⊎ (signals s.receiver ≡ true)
    sender_waits h = elim (asleep-sound (empty s.chan) h alive i.control.sending) [
      | inl f ↦ inl (ground (arith, length-contents i.valid, used-eq-room i.valid))
      | inr g ↦ inr g
    ]

    receiver_waits : s.receiver ≡ asleep → (contents s.chan ≡ []) ⊎ (signals s.sender ≡ true)
    receiver_waits h = elim (asleep-sound (full s.chan) h alive i.control.receiving) [
      | inl f ↦ inl (contents_empty i.valid (ground arith))
      | inr g ↦ inr g
    ]

    pub not_both : 1 < s.chan.capacity → s.sender ≡ asleep → s.receiver ≢ asleep
    not_both room h h' = elim (asleep-sound (empty s.chan) h alive i.control.sending) [
      | inl f ↦ elim (asleep-sound (full s.chan) h' alive i.control.receiving) [
        | inl e ↦ crossed i.valid room f e
        | inr g ↦ ground (arith, ap signals h)
      ]
      | inr g ↦ ground (arith, ap signals h')
    ]

  -- No wake-up is lost, whatever the interleaving, on a valid channel that begins empty, has room
  -- for an element and is not poisoned: when a thread sleeps, the other does not, and either it is
  -- a producer and the channel is full, or it is a consumer and the channel is empty, or the other
  -- is about to signal.
  pub schedule_wakes :
      {c : Channel A} (ts : List (Turn A))
      → IsValid c
      → c.rd_idx ≡ c.wr_idx
      → 1 < c.capacity
      → (schedule (start c) ts).chan.poisoned ≡ false
      → ((schedule (start c) ts).sender ≡ asleep) ⊎ ((schedule (start c) ts).receiver ≡ asleep)
      → let s = schedule (start c) ts in
        ((s.sender ≡ asleep)
          × (s.receiver ≢ asleep)
          × ((length (contents s.chan) + 1 ≡ s.chan.capacity) ⊎ (signals s.receiver ≡ true)))
        ⊎ ((s.receiver ≡ asleep)
            × (s.sender ≢ asleep)
            × ((contents s.chan ≡ []) ⊎ (signals s.sender ≡ true)))
  schedule_wakes {c} ts v e room n waits =
      let i = schedule-Inv ts (start c) (start-Inv v e) in
      let alone = not_both i n (rw (schedule-capacity ts (start c)) room) in
      elim waits [
        | inl h ↦ inl (h, alone h, sender_waits i n h)
        | inr h ↦ inr (h, λ h'. alone h' h, receiver_waits i n h)
      ]

-- The thread has seen the other's test hold.
abbrev pub loud : Pc → Bool
loud (publishing b) = b
loud (signalling b) = b
loud _ = false

advance-loud :
    (mine flag free : Bool) (pc : Pc)
    → loud pc ≡ false
    → loud (advance mine true free (flag && false) pc) ≡ false
advance-loud mine flag free idle h = ground arith
advance-loud mine flag free checked h = ground arith
advance-loud mine flag free wanting h = ground arith
advance-loud mine flag free tested h = ground arith
advance-loud mine flag free asleep h = ground arith
advance-loud mine flag free passed h = ground arith
advance-loud mine flag free holding h = ground arith
advance-loud mine flag free filled h = ground arith
advance-loud mine flag free allowed h = ground arith
advance-loud mine flag free (publishing f) h = ground arith
advance-loud mine flag free (signalling f) h = ground arith

signal-loud : (pc other : Pc) → loud pc ≡ false → signal pc other ≡ other
signal-loud (signalling true) other h = ground arith
signal-loud idle other h = refl
signal-loud checked other h = refl
signal-loud wanting other h = refl
signal-loud tested other h = refl
signal-loud asleep other h = refl
signal-loud passed other h = refl
signal-loud holding other h = refl
signal-loud filled other h = refl
signal-loud allowed other h = refl
signal-loud (publishing f) other h = refl
signal-loud (signalling false) other h = refl

write-poisoned :
    {A : Type 0} (x : A) (pc : Pc) (c : Channel A) → (write x pc c).poisoned ≡ c.poisoned
write-poisoned x idle c = refl
write-poisoned x checked c = refl
write-poisoned x wanting c = refl
write-poisoned x tested c = refl
write-poisoned x asleep c = refl
write-poisoned x passed c = refl
write-poisoned x holding c = refl
write-poisoned x filled c = refl
write-poisoned x allowed c = refl
write-poisoned x (publishing f) c = refl
write-poisoned x (signalling f) c = refl

module _ {A : Type 0} where
  -- A move of one of the two threads in its own code.
  abbrev pub is_own : Turn A → Bool
  is_own (produce x) = true
  is_own consume = true
  is_own _ = false

  -- The consumer sleeps on a poisoned channel and the producer is not on its way to a signal.
  pub record Stuck (s : Sys A) : Type 0 where
    pub poisoned : s.chan.poisoned ≡ true
    pub sleeps : s.receiver ≡ asleep
    pub silent : loud s.sender ≡ false

  sleeper-Stuck :
      (s : Sys A)
      → s.chan.poisoned ≡ true
      → loud s.sender ≡ false
      → Stuck (recv_move (record s { receiver = asleep }))
  sleeper-Stuck s d q = record { poisoned = d; sleeps = refl; silent = q }

  turn-Stuck : (s : Sys A) (t : Turn A) → is_own t ≡ true → Stuck s → Stuck (turn s t)
  turn-Stuck s (produce x) o k = record {
    poisoned = write-poisoned x s.sender s.chan ∙ k.poisoned;
    sleeps = signal-loud s.sender s.receiver k.silent ∙ k.sleeps;
    silent = rw k.poisoned (advance-loud _ _ _ s.sender k.silent);
  }
  turn-Stuck s consume o k =
      subst (λ pc. Stuck (recv_move (record s { receiver = pc }))) (sym k.sleeps)
        (sleeper-Stuck s k.poisoned k.silent)
  turn-Stuck s kill o k = ground arith
  turn-Stuck s spurious_sender o k = ground arith
  turn-Stuck s spurious_receiver o k = ground arith

  -- A consumer that is asleep on a poisoned channel, with a producer that is not on its way to a
  -- signal, sleeps on whatever moves of the two threads follow: only the rest of a poisoning or a
  -- spurious wake-up can end its wait.
  pub sleeps_for_ever :
      (ts : List (Turn A)) (s : Sys A)
      → All (λ t. is_own t ≡ true) ts
      → Stuck s
      → (schedule s ts).receiver ≡ asleep
  sleeps_for_ever [] s o k = k.sleeps
  sleeps_for_ever (t ∷ ts) s (h, hs) k = sleeps_for_ever ts (turn s t) hs (turn-Stuck s t h k)
